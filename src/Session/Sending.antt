-- ===== src/Session/Sending.antt =====
-- src/protocol/Session.cc: `sendMsg`, `HandleReadyToSendBuffer` and `HandleConnectionReset`.
use libpinggy.Prelude.{
  ℕ, Bool, true, false, ◌&&◌, not, List, [], ◌∷◌, ◌++◌, if◌then◌else◌, Outcome, ok, aborted, ◌>>=◌,
  get_elem?, set, none, some,
}
use libpinggy.Message.{ProtoMsg, disconnect}
use libpinggy.Channel.State.{channel_cleanup}
use libpinggy.Session.State.{
  Session, Answer, taken, refused, reset, transmit, end_transport, close_connection, session_event,
  channel_event, connection_reset, emit,
}

abbrev pub is_disconnect : ProtoMsg → Bool
is_disconnect (disconnect reason) = true
is_disconnect m = false

-- `channel->cleanup()` on an object.
unfoldable pub cleanup_object : ℕ → Session → Session
cleanup_object h s = elim (get_elem? s.objects h) [
  | none ↦ s
  | some c ↦
      let s' = record s { objects = set s.objects h (record c { has_handler = false }) } in
      if c.has_handler then emit (channel_event h channel_cleanup) s' else s'
]

unfoldable pub cleanup_all : List (ℕ × ℕ) → Session → Session
unfolding cleanup_object
cleanup_all [] s = s
cleanup_all ((id, h) ∷ m) s = cleanup_all m (cleanup_object h s)

-- The argument has the member's name, so it is the argument that becomes null.
unfoldable pub handle_connection_reset : Session → Session
handle_connection_reset s =
    let t = record (cleanup_all s.channels s) { channels = [] } in
    let u = if t.has_handler then emit (session_event connection_reset) t else t in
    record (emit close_connection u) { has_transport = false; has_handler = false }

-- One call of the transport: whether it took the message, and the session after what the transport
-- calls back.
unfoldable pub offer_to : ProtoMsg → List Answer → Session → Bool × Session
offer_to m [] s = (true, emit (transmit m) s)
offer_to m (taken ∷ more) s = (true, emit (transmit m) (record s { answers = more }))
offer_to m (refused ∷ more) s = (false, record s { answers = more })
offer_to m (reset ∷ more) s =
    (true, handle_connection_reset (emit (transmit m) (record s { answers = more })))

unfoldable pub offer : ProtoMsg → Session → Bool × Session
offer m s = offer_to m s.answers s

-- `transportManager->EndTransport()` after a disconnect message: a null pointer is a crash.
unfoldable pub end_if : Bool → Session → Outcome Session
end_if false s = ok s
end_if true s = if s.has_transport then ok (emit end_transport s) else aborted

unfoldable pub push : ProtoMsg → Session → Session
push m s = record s { send_queue = s.send_queue ++ (m ∷ []) }

-- With an empty queue the transport is asked, otherwise the message waits its turn.
unfoldable pub send_first : ProtoMsg → List ProtoMsg → Session → Bool × Session
send_first m [] s = offer m s
send_first m (x ∷ xs) s = (false, s)

unfoldable pub settle : ProtoMsg → Bool → Bool → Session → Session × Bool
settle m success queue s = if not success && queue then (push m s, true) else (s, success)

unfoldable pub send_msg : ProtoMsg → Bool → Session → Outcome (Session × Bool)
send_msg m queue s =
    if s.end_sent
    then ok (s, false)
    else if not s.has_transport
    then ok (s, false)
    else (let s' = if is_disconnect m then record s { end_sent = true } else s in
        let (success, t) = send_first m s'.send_queue s' in
        end_if (success && is_disconnect m) t >>= λ u. ok (settle m success queue u))

-- The loop of `HandleReadyToSendBuffer` over the messages that wait. A null transport is a crash.
unfoldable pub flush_queue : List ProtoMsg → Session → Outcome Session
flush_queue [] s = ok (record s { send_queue = [] })
flush_queue (m ∷ ms) s =
    if not s.has_transport
    then aborted
    else (let (success, t) = offer m s in
        let rest = λ (u : Session). flush_queue ms u in
        end_if (success && is_disconnect m) t >>= λ u. elim success [
          | true ↦ rest u
          | false ↦ ok (record u { send_queue = m ∷ ms })
        ])

unfoldable pub handle_ready_to_send_buffer : Session → Outcome Session
handle_ready_to_send_buffer s = flush_queue s.send_queue s
