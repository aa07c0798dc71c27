-- ===== src/Session/Keeps.antt =====
-- What sending, and the calls that channels make, leave alone in a session.
use libpinggy.Prelude.{
  ℕ, ◌≡◌, refl, Bool, true, List, [], ◌∷◌, ◌++◌, if◌then◌else◌, arith, Outcome, ok, ◌∙◌, inl, inr,
  Option-cases, get_elem?, set, >>=-eq-ok, length, List-cases,
}
use libpinggy.Message.{Text, ProtoMsg, SetupChannelMsg}
use libpinggy.Channel.State.{
  Channel, Effect, Step, register_channel, deregister_channel, setup_close_timeout,
  send_msg as effect_send, send_or_queue, notify,
}
use libpinggy.Channel.{new_channel}
use libpinggy.Channel.Handlers.{initiate_incoming_channel}
use libpinggy.Session.State.{
  Session, SessionEvent, Answer, taken, refused, reset, transmit, channel_event, emit, find,
}
use libpinggy.Session.Sending.{
  is_disconnect, cleanup_object, cleanup_all, handle_connection_reset, offer_to, offer, end_if,
  push, send_first, settle, send_msg,
}
use libpinggy.Session.Table.{
  register, deregister, setup_channel_close_timeout, tell_failure, carry_out, finish, on_object,
}
use libpinggy.Session.Dispatch.{
  call_handler, send_away, reject_text, handle_new_channel, refuse_channel, admit_channel,
  on_channel, on_channel_error,
}

-- What sending and the channels' calls never touch.
pub record Keeps (s t : Session) : Type 0 where
  pub phase : t.state ≡ s.state
  pub mode : t.server_mode ≡ s.server_mode
  pub last_id : t.last_channel_id ≡ s.last_channel_id
  pub features : t.features ≡ s.features

pub Keeps-refl : (s : Session) → Keeps s s
Keeps-refl s = record { phase = refl; mode = refl; last_id = refl; features = refl }

pub Keeps-trans : {s t u : Session} → Keeps s t → Keeps t u → Keeps s u
Keeps-trans a b = record {
  phase = b.phase ∙ a.phase;
  mode = b.mode ∙ a.mode;
  last_id = b.last_id ∙ a.last_id;
  features = b.features ∙ a.features;
}

cleanup_object-Keeps : (h : ℕ) (s : Session) → Keeps s (cleanup_object h s)
unfolding cleanup_object
cleanup_object-Keeps h s = ground arith

pub cleanup_all-Keeps : (m : List (ℕ × ℕ)) (s : Session) → Keeps s (cleanup_all m s)
unfolding cleanup_all
cleanup_all-Keeps [] s = Keeps-refl s
cleanup_all-Keeps ((id, h) ∷ m) s =
    Keeps-trans (cleanup_object-Keeps h s) (cleanup_all-Keeps m (cleanup_object h s))

pub reset-Keeps : (s : Session) → Keeps s (handle_connection_reset s)
unfolding handle_connection_reset
reset-Keeps s = ground (arith, cleanup_all-Keeps s.channels s)

pub offer_to-Keeps :
    (m : ProtoMsg) (answers : List Answer) (s : Session) → Keeps s (offer_to m answers s).1
unfolding offer_to
offer_to-Keeps m [] s = ground arith
offer_to-Keeps m (taken ∷ more) s = ground arith
offer_to-Keeps m (refused ∷ more) s = ground arith
offer_to-Keeps m (reset ∷ more) s =
    ground (arith, reset-Keeps (emit (transmit m) (record s { answers = more })))

send_first-Keeps : (m : ProtoMsg) (q : List ProtoMsg) (s : Session) → Keeps s (send_first m q s).1
unfolding send_first offer
send_first-Keeps m [] s = offer_to-Keeps m s.answers s
send_first-Keeps m (x ∷ q) s = Keeps-refl s

send_msg-Keeps :
    (m : ProtoMsg) (queue : Bool) (s : Session) {r : Session × Bool}
    → send_msg m queue s ≡ ok r
    → Keeps s r.0
unfolding send_msg settle push end_if
send_msg-Keeps m queue s e =
    let s' : Session = if is_disconnect m then record s { end_sent = true } else s in
    ground (arith, send_first-Keeps m s'.send_queue s')

tell_failure-Keeps : (h : ℕ) (b : Bool) (r : Session × Bool) → Keeps r.0 (tell_failure h b r)
unfolding tell_failure
tell_failure-Keeps h b (s, success) = ground arith

register-Keeps : (id h : ℕ) (s : Session) {t : Session} → register id h s ≡ ok t → Keeps s t
unfolding register
register-Keeps id h s e = ground arith

deregister-Keeps : (id : ℕ) (s : Session) → Keeps s (deregister id s)
unfolding deregister
deregister-Keeps id s = ground arith

timeout-Keeps : (h : ℕ) (s : Session) → Keeps s (setup_channel_close_timeout h s)
unfolding setup_channel_close_timeout
timeout-Keeps h s = ground arith

carry_out-Keeps :
    (id h : ℕ) (es : List Effect) (s : Session) {t : Session}
    → carry_out id h es s ≡ ok t
    → Keeps s t
unfolding carry_out
carry_out-Keeps id h [] s e = ground arith
carry_out-Keeps id h (register_channel ∷ es) s e =
    let (u, p, q) = >>=-eq-ok (register id h s) (λ t. carry_out id h es t) e in
    Keeps-trans (register-Keeps id h s p) (carry_out-Keeps id h es u q)
carry_out-Keeps id h (deregister_channel ∷ es) s e =
    Keeps-trans (deregister-Keeps id s) (carry_out-Keeps id h es (deregister id s) e)
carry_out-Keeps id h (setup_close_timeout ∷ es) s e =
    Keeps-trans (timeout-Keeps h s) (carry_out-Keeps id h es (setup_channel_close_timeout h s) e)
carry_out-Keeps id h (effect_send m ∷ es) s e =
    let (r, p, q) = >>=-eq-ok (send_msg m true s) (λ r. carry_out id h es r.0) e in
    Keeps-trans (send_msg-Keeps m true s p) (carry_out-Keeps id h es r.0 q)
carry_out-Keeps id h (send_or_queue m b ∷ es) s e =
    let (r, p, q) = >>=-eq-ok (send_msg m true s) (λ r. carry_out id h es (tell_failure h b r)) e in
    Keeps-trans (send_msg-Keeps m true s p)
      (Keeps-trans (tell_failure-Keeps h b r) (carry_out-Keeps id h es (tell_failure h b r) q))
carry_out-Keeps id h (notify v ∷ es) s e =
    ground (arith, carry_out-Keeps id h es (emit (channel_event h v) s) e)

pub finish-Keeps {ℓ} :
    {R : Type ℓ} (h : ℕ) (step : Step R) (s : Session) {t : Session}
    → finish h step s ≡ ok t
    → Keeps s t
unfolding finish
finish-Keeps h step s e = ground (
  arith,
  carry_out-Keeps step.channel.channel_id h step.effects
      (record s { objects = set s.objects h step.channel }) e,
)

on_object-Keeps {ℓ} :
    {R : Type ℓ} (h : ℕ) (method : Channel → Outcome (Step R)) (s : Session) {t : Session}
    → on_object h method s ≡ ok t
    → Keeps s t
unfolding on_object
on_object-Keeps h method s e = elim (Option-cases (get_elem? s.objects h)) [
  | inl missing ↦ absurd (ground arith)
  | inr (c, p) ↦
      let (step, q, r) = >>=-eq-ok (method c) (λ step. finish h step s) (rw (p, on_object) at e) in
      finish-Keeps h step s r
]

call_handler-Keeps :
    (v : SessionEvent) (s : Session) {t : Session} → call_handler v s ≡ ok t → Keeps s t
unfolding call_handler
call_handler-Keeps v s e = ground arith

pub send_away-Keeps : (m : ProtoMsg) (s : Session) {t : Session} → send_away m s ≡ ok t → Keeps s t
unfolding send_away
send_away-Keeps m s e =
    let (r, p, q) = >>=-eq-ok (send_msg m true s) (λ r. ok r.0) e in
    ground (arith, send_msg-Keeps m true s p)

pub on_channel-Keeps {ℓ} :
    {R : Type ℓ} (id : ℕ) (method : Channel → Outcome (Step R)) (s : Session) {t : Session}
    → on_channel id method s ≡ ok t
    → Keeps s t
unfolding on_channel
on_channel-Keeps id method s e = elim (Option-cases (find id s.channels)) [
  | inl missing ↦ ground arith
  | inr (h, p) ↦ on_object-Keeps h method s (rw (p, on_channel) at e)
]

pub channel_error-Keeps :
    (id n : ℕ) (why : Text) (s : Session) {t : Session}
    → on_channel_error id n why s ≡ ok t
    → Keeps s t
unfolding on_channel_error
channel_error-Keeps id n why s e = elim (Option-cases (find id s.channels)) [
  | inl missing ↦ send_away-Keeps _ s (rw (missing, on_channel_error) at e)
  | inr (h, p) ↦ on_object-Keeps h _ s (rw (p, on_channel_error) at e)
]

refuse-Keeps :
    (msg : SetupChannelMsg) (why : Text) (s : Session) {t : Session}
    → refuse_channel msg why s ≡ ok t
    → Keeps s t
unfolding refuse_channel
refuse-Keeps msg why s e = send_away-Keeps _ s e

admit-Keeps :
    (msg : SetupChannelMsg) (s : Session) {t : Session} → admit_channel msg s ≡ ok t → Keeps s t
unfolding admit_channel
admit-Keeps msg s e =
    let grown : Session = record s { objects = s.objects ++ (new_channel ∷ []) } in
    let (step, p, q) = >>=-eq-ok (initiate_incoming_channel s.features msg new_channel) _ e in
    let (u, v, w) = >>=-eq-ok (finish (length s.objects) step grown) _ q in
    ground (arith, finish-Keeps (length s.objects) step grown v, call_handler-Keeps _ u w)

pub new_channel-Keeps :
    (msg : SetupChannelMsg) (s : Session) {t : Session}
    → handle_new_channel msg s ≡ ok t
    → Keeps s t
unfolding handle_new_channel
new_channel-Keeps msg s e = elim (List-cases (reject_text s.server_mode msg)) [
  | inl fine ↦ admit-Keeps msg s (rw (fine, handle_new_channel) at e)
  | inr (x, xs, bad) ↦ refuse-Keeps msg (x ∷ xs) s (rw (bad, handle_new_channel) at e)
]
