-- ===== src/Channel/Lifecycle.antt =====
-- The state diagram at the top of src/protocol/Channel.cc, with its letters: R and D (and r, d under fast
-- connect) are the registrations with the session.
use libpinggy.Prelude.{
  ℕ, Bool, true, false, ◌≡◌, refl, List, [], ◌∷◌, Option, none, some, ok, inl, inr, ◌==◌,
  Option-cases, length, if◌then◌else◌, arith, ℤ,
}
use libpinggy.Features.{SessionFeatures}
use libpinggy.Message.{Text, SetupChannelResponseMsg}
use libpinggy.Channel.State.{
  number, ChannelState, init, connecting, connect_responding, connected, closing, close_responding,
  closed, rejected, Channel, Effect, Step, register_channel, deregister_channel,
  setup_close_timeout, send_msg, send_or_queue, notify,
}
use libpinggy.Channel.Handlers.{
  handle_new_channel_response, handle_channel_data, handle_channel_window_adjust,
  handle_channel_close, handle_channel_error, close_timeout_triggered,
}
use libpinggy.Channel.Transfer.{
  send, send_pieces, recv, recv_from, adjust_window, take_front, data_effects,
}
use libpinggy.Channel.{connect, accept, reject, close}

-- The arrows of the diagram, and the one from CLOSING to CLOSED, which the timeout takes as well.
abbrev pub arrow : ChannelState → ChannelState → Bool
arrow init connecting = true
arrow init connect_responding = true
arrow connecting connected = true
arrow connecting rejected = true
arrow connecting closing = true
arrow connect_responding connected = true
arrow connect_responding rejected = true
arrow connected closing = true
arrow connected close_responding = true
arrow closing closed = true
arrow close_responding closed = true
arrow s t = number s == number t

-- The states in which the session's table holds the channel.
abbrev pub registered_in : SessionFeatures → ChannelState → Bool
registered_in f init = false
registered_in f connecting = true
registered_in f connect_responding = f.fast_connect
registered_in f connected = true
registered_in f closing = true
registered_in f close_responding = true
registered_in f closed = false
registered_in f rejected = false

-- The table's entry for the channel after the calls. `none`: a second registration, which aborts, or
-- the removal of an entry that is not there, which fails an assertion.
abbrev pub entry_after : Bool → List Effect → Option Bool
entry_after b [] = some b
entry_after b (register_channel ∷ es) = if b then none else entry_after true es
entry_after b (deregister_channel ∷ es) = if b then entry_after false es else none
entry_after b (setup_close_timeout ∷ es) = entry_after b es
entry_after b (send_msg m ∷ es) = entry_after b es
entry_after b (send_or_queue m h ∷ es) = entry_after b es
entry_after b (notify e ∷ es) = entry_after b es

-- A call moves the channel along an arrow, and its registrations fit the two states.
pub record Moves {ℓ} {R : Type ℓ} (f : SessionFeatures) (c : Channel) (s : Step R) : Type 0 where
  pub along : arrow c.state s.channel.state ≡ true
  pub entry :
      entry_after (registered_in f c.state) s.effects ≡ some (registered_in f s.channel.state)

pub connect-Moves : (f : SessionFeatures) (id : ℕ) (c : Channel) → Moves f c (connect f id c)
unfolding connect
connect-Moves f id c = ground arith

pub accept-Moves : (f : SessionFeatures) (c : Channel) → Moves f c (accept f c)
unfolding accept
accept-Moves f c = ground arith

pub reject-Moves : (f : SessionFeatures) (why : Text) (c : Channel) → Moves f c (reject f why c)
unfolding reject
reject-Moves f why c = ground arith

pub close-Moves : (f : SessionFeatures) (c : Channel) → Moves f c (close f c)
unfolding close
close-Moves f c = ground arith

pub response-Moves :
    (f : SessionFeatures) (msg : SetupChannelResponseMsg) (c : Channel) {s : Step (Unit {0})}
    → handle_new_channel_response f msg c ≡ ok s
    → Moves f c s
unfolding handle_new_channel_response
response-Moves f msg c e = ground arith

pub channel_data-Moves :
    (f : SessionFeatures) (xs : List ℕ) (c : Channel) {s : Step (Unit {0})}
    → handle_channel_data f xs c ≡ ok s
    → Moves f c s
unfolding handle_channel_data
channel_data-Moves f xs c e = ground arith

pub window_adjust-Moves :
    (f : SessionFeatures) (n : ℕ) (c : Channel) → Moves f c (handle_channel_window_adjust n c)
unfolding handle_channel_window_adjust
window_adjust-Moves f n c = ground arith

pub channel_close-Moves : (f : SessionFeatures) (c : Channel) → Moves f c (handle_channel_close c)
unfolding handle_channel_close
channel_close-Moves f c = ground arith

pub channel_error-Moves :
    (f : SessionFeatures) (n : ℕ) (why : Text) (c : Channel)
    → Moves f c (handle_channel_error n why c)
unfolding handle_channel_error
channel_error-Moves f n why c = ground arith

pub close_timeout-Moves :
    (f : SessionFeatures) (c : Channel) → Moves f c (close_timeout_triggered c)
unfolding close_timeout_triggered
close_timeout-Moves f c = ground arith

entry_after-data :
    (b : Bool) (c : Channel) (ps : List (List ℕ)) → entry_after b (data_effects c ps) ≡ some b
entry_after-data b c [] = refl
entry_after-data b c (p ∷ ps) = entry_after-data b c ps

pub send-Moves :
    (f : SessionFeatures) (fuel : ℕ) (c : Channel) (xs : List ℕ) {s : Step ℤ}
    → send fuel c xs ≡ some s
    → Moves f c s
unfolding send
send-Moves f fuel c xs e = elim (Option-cases (send_pieces fuel c.remote_max_packet xs)) [
  | inl stuck ↦ ground arith
  | inr (ps, p) ↦ ground (arith, entry_after-data (registered_in f c.state) c ps)
]

adjust_window_quiet :
    (c : Channel) (n : ℕ) (b : Bool)
    → ((adjust_window c n).0.state ≡ c.state) × (entry_after b (adjust_window c n).1 ≡ some b)
unfolding adjust_window
adjust_window_quiet c n b = ground arith

recv_from-Moves :
    (f : SessionFeatures) (q : List (List ℕ)) (c : Channel) (len : ℤ)
    → Moves f c (recv_from q c len)
unfolding recv_from
recv_from-Moves f [] c len = ground arith
recv_from-Moves f (x ∷ xs) c len =
    let (raw, queue) = take_front x xs len in
    ground (
      arith,
      adjust_window_quiet (record c { recv_queue = queue }) (length raw) (registered_in f c.state),
    )

pub recv-Moves : (f : SessionFeatures) (c : Channel) (len : ℤ) → Moves f c (recv c len)
unfolding recv
recv-Moves f c len = ground (arith, recv_from-Moves f c.recv_queue c len)
