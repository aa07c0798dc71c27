-- ===== src/Session/Order.antt =====
-- The order of messages: what was given to the transport, followed by what waits.
use libpinggy.Prelude.{
  ℕ, ◌≡◌, refl, Bool, true, false, ◌&&◌, List, [], ◌∷◌, ◌++◌, append_assoc, append-nil,
  if◌then◌else◌, arith, ok, ◌∙◌, ap, ◌⊎◌, inl, inr, Option-cases, get_elem?, Outcome-cases,
}
use libpinggy.Message.{ProtoMsg}
use libpinggy.Channel.State.{channel_cleanup}
use libpinggy.Session.State.{
  Session, Answer, taken, refused, reset, Output, transmit, end_transport, close_connection,
  session_event, channel_event, close_timeout, connection_reset, emit,
}
use libpinggy.Session.Sending.{
  is_disconnect, cleanup_object, cleanup_all, handle_connection_reset, offer_to, offer, end_if,
  push, send_first, settle, send_msg, flush_queue, handle_ready_to_send_buffer,
}

abbrev transmitted : List Output → List ProtoMsg
transmitted [] = []
transmitted (transmit m ∷ os) = m ∷ transmitted os
transmitted (o ∷ os) = transmitted os

transmitted-append :
    (os ps : List Output) → transmitted (os ++ ps) ≡ transmitted os ++ transmitted ps
transmitted-append [] ps = refl
transmitted-append (transmit m ∷ os) ps = ap (λ ms. m ∷ ms) (transmitted-append os ps)
transmitted-append (end_transport ∷ os) ps = transmitted-append os ps
transmitted-append (close_connection ∷ os) ps = transmitted-append os ps
transmitted-append (session_event e ∷ os) ps = transmitted-append os ps
transmitted-append (channel_event h e ∷ os) ps = transmitted-append os ps
transmitted-append (close_timeout h ∷ os) ps = transmitted-append os ps

-- All messages that the session has accepted, oldest first.
abbrev pub accepted : Session → List ProtoMsg
accepted s = transmitted s.outputs ++ s.send_queue

-- What the calls that come back from the transport leave alone.
record Same (s t : Session) : Type 0 where
  queue : t.send_queue ≡ s.send_queue
  sent : transmitted t.outputs ≡ transmitted s.outputs
  ended : t.end_sent ≡ s.end_sent

cleanup_object-Same : (h : ℕ) (s : Session) → Same s (cleanup_object h s)
unfolding cleanup_object
cleanup_object-Same h s = elim (Option-cases (get_elem? s.objects h)) [
  | inl e ↦ ground arith
  | inr (c, e) ↦ ground (
    arith,
    transmitted-append s.outputs (channel_event h channel_cleanup ∷ []),
    append-nil (transmitted s.outputs),
  )
]

cleanup_all-Same : (m : List (ℕ × ℕ)) (s : Session) → Same s (cleanup_all m s)
unfolding cleanup_all
cleanup_all-Same [] s = record { queue = refl; sent = refl; ended = refl }
cleanup_all-Same ((id, h) ∷ m) s =
    let a = cleanup_object-Same h s in
    let b = cleanup_all-Same m (cleanup_object h s) in
    record { queue = b.queue ∙ a.queue; sent = b.sent ∙ a.sent; ended = b.ended ∙ a.ended }

reset-Same : (s : Session) → Same s (handle_connection_reset s)
unfolding handle_connection_reset
reset-Same s =
    let t : Session = cleanup_all s.channels s in
    ground (
      arith,
      cleanup_all-Same s.channels s,
      transmitted-append t.outputs (session_event connection_reset ∷ []),
      transmitted-append t.outputs (close_connection ∷ []),
      transmitted-append (t.outputs ++ (session_event connection_reset ∷ []))
          (close_connection ∷ []),
      append-nil (transmitted t.outputs),
    )

-- The transport is given the message, or not; nothing else is given to it.
record Offered (m : ProtoMsg) (s : Session) (r : Bool × Session) : Type 0 where
  queue : r.1.send_queue ≡ s.send_queue
  sent :
      transmitted r.1.outputs
      ≡ (if r.0 then transmitted s.outputs ++ (m ∷ []) else transmitted s.outputs)
  ended : r.1.end_sent ≡ s.end_sent

offer_to-Offered :
    (m : ProtoMsg) (answers : List Answer) (s : Session) → Offered m s (offer_to m answers s)
unfolding offer_to
offer_to-Offered m [] s = ground (arith, transmitted-append s.outputs (transmit m ∷ []))
offer_to-Offered m (taken ∷ more) s = ground (arith, transmitted-append s.outputs (transmit m ∷ []))
offer_to-Offered m (refused ∷ more) s = ground arith
offer_to-Offered m (reset ∷ more) s = ground (
  arith,
  transmitted-append s.outputs (transmit m ∷ []),
  reset-Same (emit (transmit m) (record s { answers = more })),
)

offer-Offered : (m : ProtoMsg) (s : Session) → Offered m s (offer m s)
unfolding offer
offer-Offered m s = offer_to-Offered m s.answers s

end_if-Same : (b : Bool) (s : Session) {t : Session} → end_if b s ≡ ok t → Same s t
unfolding end_if
end_if-Same b s e =
    ground
      (arith, transmitted-append s.outputs (end_transport ∷ []), append-nil (transmitted s.outputs))

-- Nothing overtakes: the transport is only asked when nothing waits.
send_first-Offered :
    (m : ProtoMsg) (q : List ProtoMsg) (s : Session)
    → Offered m s (send_first m q s) × ((q ≡ []) ⊎ ((send_first m q s).0 ≡ false))
unfolding send_first
send_first-Offered m [] s = (offer-Offered m s, inl refl)
send_first-Offered m (x ∷ q) s = (record { queue = refl; sent = refl; ended = refl }, inr refl)

settle-accepted :
    (m : ProtoMsg) (success queue : Bool) (q sent : List ProtoMsg) (u : Session)
    → u.send_queue ≡ q
    → transmitted u.outputs ≡ (if success then sent ++ (m ∷ []) else sent)
    → (q ≡ []) ⊎ (success ≡ false)
    → accepted (settle m success queue u).0
      ≡ (if (settle m success queue u).1 then (sent ++ q) ++ (m ∷ []) else sent ++ q)
unfolding settle push
settle-accepted m success queue q sent u eq es alone =
    ground (arith, append_assoc sent q (m ∷ []), append-nil (sent ++ (m ∷ [])), append-nil sent)

-- A call of `sendMsg` that returns puts an accepted message behind all that were accepted before,
-- whether the transport takes it at once or it waits, and one that is not accepted nowhere.
pub send_msg-accepted :
    (m : ProtoMsg) (queue : Bool) (s t : Session) (done : Bool)
    → send_msg m queue s ≡ ok (t, done)
    → accepted t ≡ (if done then accepted s ++ (m ∷ []) else accepted s)
unfolding send_msg
send_msg-accepted m queue s t done e =
    let s' : Session = if is_disconnect m then record s { end_sent = true } else s in
    let r : Bool × Session = send_first m s'.send_queue s' in
    elim (Outcome-cases (end_if (r.0 && is_disconnect m) r.1)) [
      | inl crash ↦ ground arith
      | inr (u, h) ↦ ground (
        arith,
        send_first-Offered m s'.send_queue s',
        end_if-Same (r.0 && is_disconnect m) r.1 h,
        settle-accepted m r.0 queue s'.send_queue (transmitted s'.outputs) u,
      )
    ]

flush_queue-accepted :
    (q : List ProtoMsg) (s t : Session)
    → flush_queue q s ≡ ok t
    → accepted t ≡ transmitted s.outputs ++ q
unfolding flush_queue
flush_queue-accepted [] s t e = ground arith
flush_queue-accepted (m ∷ q) s t e =
    let r : Bool × Session = offer m s in
    elim (Outcome-cases (end_if (r.0 && is_disconnect m) r.1)) [
      | inl crash ↦ absurd (ground arith)
      | inr (u, h) ↦ ground (
        arith,
        offer-Offered m s,
        end_if-Same (r.0 && is_disconnect m) r.1 h,
        flush_queue-accepted q u t,
        append_assoc (transmitted s.outputs) (m ∷ []) q,
      )
    ]

-- A call of `HandleReadyToSendBuffer` that returns keeps the order of all accepted messages: what it
-- gives to the transport is the front of what waited.
pub flush-accepted :
    (s t : Session) → handle_ready_to_send_buffer s ≡ ok t → accepted t ≡ accepted s
unfolding handle_ready_to_send_buffer
flush-accepted s t e = flush_queue-accepted s.send_queue s t e
