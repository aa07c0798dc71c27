-- ===== src/Channel/Pair.antt =====
-- Both ends of one channel, with the messages that are on the way in each direction, oldest first.
-- `a` called `Connect`, and `b` was made from the request that this sent. The two sessions negotiated
-- the same features (`Features.Negotiation`). What a session does between its transport and the
-- channel is left out: it passes a message to the channel with its number, and the messages that it
-- ignores since the channel is not registered are ones that the channel ignores in that state too.
pub mod Local
pub mod Arrivals
pub mod Safety
pub mod HalfOpen
use libpinggy.Prelude.{
  ℕ, ◌≡◌, Bool, true, false, List, [], ◌∷◌, ◌++◌, Option, some, Outcome, ok, aborted, ◌>>=◌,
  if◌then◌else◌,
}
use libpinggy.Features.{SessionFeatures}
use libpinggy.Message.{
  Text, ProtoMsg, setup_channel_response, channel_data, channel_window_adjust, channel_close,
}
use libpinggy.Channel.State.{Channel, Effect, Step, send_msg, send_or_queue}
use libpinggy.Channel.Handlers.{
  done, handle_new_channel_response, handle_channel_data, handle_channel_window_adjust,
  handle_channel_close, initiate_incoming_channel,
}
use libpinggy.Channel.History.{
  Call, perform, connects, gets_close, gets_response, gets_data, gets_window_adjust, gets_error,
}
use libpinggy.Channel.{new_channel, set_channel_info, setup_msg, connect}

pub record Pair : Type 0 where
  pub a : Channel
  pub b : Channel
  pub ab : List ProtoMsg
  pub ba : List ProtoMsg

-- The messages among a method's calls.
abbrev pub sends : List Effect → List ProtoMsg
sends [] = []
sends (send_msg m ∷ es) = m ∷ sends es
sends (send_or_queue m h ∷ es) = m ∷ sends es
sends (e ∷ es) = sends es

-- What the session does with a message for the channel.
pub deliver : SessionFeatures → ProtoMsg → Channel → Outcome (Step (Unit {0}))
deliver f (setup_channel_response msg) c = handle_new_channel_response f msg c
deliver f (channel_data id xs) c = handle_channel_data f xs c
deliver f (channel_window_adjust id n) c = ok (handle_channel_window_adjust n c)
deliver f (channel_close id) c = ok (handle_channel_close c)
deliver f m c = ok (done c [])

-- The arrival of the oldest message on the way, if there is one.
abbrev pub arrival : SessionFeatures → List ProtoMsg → Channel → Outcome (Step (Unit {0}))
arrival f [] c = ok (done c [])
arrival f (m ∷ rest) c = deliver f m c

-- A call that the program around the channel makes, or the timeout, and no message that arrives.
abbrev pub is_local : Call → Bool
is_local (connects id) = false
is_local gets_close = false
is_local (gets_response msg) = false
is_local (gets_data xs) = false
is_local (gets_window_adjust n) = false
is_local (gets_error n why) = false
is_local x = true

unfoldable pub start : SessionFeatures → ℕ → ℕ → Text → ℕ → Text → ℕ → ℕ → Outcome Pair
start f id dest_port dest_host src_port src_host chan_type forwarding_id =
    let c =
      set_channel_info new_channel dest_port dest_host src_port src_host chan_type forwarding_id in
    let a = (connect f id c).channel in
    initiate_incoming_channel f (setup_msg a) new_channel >>= λ s.
    ok (record { a = a; b = s.channel; ab = []; ba = [] })

-- One step of the two ends: a call at either, or the arrival of the oldest message at either.
pub data Next (f : SessionFeatures) (s : Pair) (t : Pair) : Type 0 where
  at_a :
      (x : Call) (r : Channel × List Effect)
      → is_local x ≡ true
      → perform f s.a x ≡ some r
      → t ≡ record s { a = r.0; ab = s.ab ++ sends r.1 }
      → Next f s t
  at_b :
      (x : Call) (r : Channel × List Effect)
      → is_local x ≡ true
      → perform f s.b x ≡ some r
      → t ≡ record s { b = r.0; ba = s.ba ++ sends r.1 }
      → Next f s t
  a_gets :
      (m : ProtoMsg) (rest : List ProtoMsg) (r : Step (Unit {0}))
      → s.ba ≡ m ∷ rest
      → deliver f m s.a ≡ ok r
      → t ≡ record s { a = r.channel; ba = rest; ab = s.ab ++ sends r.effects }
      → Next f s t
  b_gets :
      (m : ProtoMsg) (rest : List ProtoMsg) (r : Step (Unit {0}))
      → s.ab ≡ m ∷ rest
      → deliver f m s.b ≡ ok r
      → t ≡ record s { b = r.channel; ab = rest; ba = s.ba ++ sends r.effects }
      → Next f s t

pub data Reach (f : SessionFeatures) (s : Pair) : Pair → Type 0 where
  here : Reach f s s
  then_next : {t u : Pair} → Reach f s t → Next f t u → Reach f s u
