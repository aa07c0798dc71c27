-- ===== src/Session/Table.antt =====
-- src/protocol/Session.cc: the table of channels, and how the calls that a channel's method makes on the
-- session are carried out.
use libpinggy.Prelude.{
  ℕ, Bool, true, false, ◌&&◌, not, List, [], ◌∷◌, if◌then◌else◌, Outcome, ok, aborted, ◌>>=◌,
  get_elem?, set, none, some, bytes,
}
use libpinggy.Channel.State.{
  Channel, channel_error, Effect, register_channel, deregister_channel, setup_close_timeout,
  send_msg as effect_send, send_or_queue, notify, Step,
}
use libpinggy.Session.State.{Session, channel_event, close_timeout, emit, find, insert, erase}
use libpinggy.Session.Sending.{send_msg}

unfoldable pub chan_id_exists : Session → ℕ → Bool
chan_id_exists s id = elim (find id s.channels) [ none ↦ false | some h ↦ true ]

-- `id` is the channel's own number, and `h` its object.
unfoldable pub register : ℕ → ℕ → Session → Outcome Session
unfolding chan_id_exists
register id h s =
    if chan_id_exists s id then aborted else ok (record s { channels = insert id h s.channels })

-- The assertion on a channel that is not there is passed over, and the call returns.
unfoldable pub deregister : ℕ → Session → Session
unfolding chan_id_exists
deregister id s = if chan_id_exists s id then record s { channels = erase id s.channels } else s

unfoldable pub setup_channel_close_timeout : ℕ → Session → Session
setup_channel_close_timeout h s = if s.has_poll_controller then emit (close_timeout h) s else s

-- `Channel::sendOrQueue`: a handler hears of a message that cannot be sent.
unfoldable pub tell_failure : ℕ → Bool → Session × Bool → Session
tell_failure h handler (s, success) =
    if not success && handler
    then emit (channel_event h (channel_error 0 (bytes "Cannot send msg"))) s
    else s

unfoldable pub carry_out : ℕ → ℕ → List Effect → Session → Outcome Session
unfolding register deregister setup_channel_close_timeout tell_failure
carry_out id h [] s = ok s
carry_out id h (register_channel ∷ es) s = register id h s >>= λ t. carry_out id h es t
carry_out id h (deregister_channel ∷ es) s = carry_out id h es (deregister id s)
carry_out id h (setup_close_timeout ∷ es) s = carry_out id h es (setup_channel_close_timeout h s)
carry_out id h (effect_send m ∷ es) s = send_msg m true s >>= λ r. carry_out id h es r.0
carry_out id h (send_or_queue m handler ∷ es) s =
    send_msg m true s >>= λ r. carry_out id h es (tell_failure h handler r)
carry_out id h (notify e ∷ es) s = carry_out id h es (emit (channel_event h e) s)

-- A method that has run on object `h`: the object is changed, and its calls are made.
unfoldable pub finish {ℓ} : {R : Type ℓ} → ℕ → Step R → Session → Outcome Session
unfolding carry_out
finish h step s =
    carry_out step.channel.channel_id h step.effects
      (record s { objects = set s.objects h step.channel })

-- A method on the object that a pointer names; the pointer is never null.
unfoldable pub on_object {ℓ} :
    {R : Type ℓ} → ℕ → (Channel → Outcome (Step R)) → Session → Outcome Session
unfolding finish
on_object h method s = elim (get_elem? s.objects h) [
  | none ↦ aborted
  | some c ↦ method c >>= λ step. finish h step s
]
