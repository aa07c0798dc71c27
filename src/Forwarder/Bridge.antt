-- ===== src/Forwarder/Bridge.antt =====
-- src/protocol/ChannelConnectionForwarder.cc with src/protocol/Channel.cc: a forwarder between the poller
-- and the session. What the channel's handlers do reaches the forwarder through the channel's event
-- handler, which is the forwarder as long as the channel has one.
use libpinggy.Prelude.{ℕ, Bool, if◌then◌else◌, List, [], ◌∷◌, ◌++◌, Outcome, ok, aborted, ◌>>=◌}
use libpinggy.Features.{SessionFeatures}
use libpinggy.Message.{Text, SetupChannelResponseMsg}
use libpinggy.Channel.State.{
  Event, Effect, Step, notify, channel_data_received, channel_accepted, channel_cleanup,
  channel_ready_to_send, channel_error, channel_rejected, register_channel, deregister_channel,
  setup_close_timeout, send_msg, send_or_queue,
}
use libpinggy.Channel.Handlers.{
  handle_new_channel_response, handle_channel_data, handle_channel_window_adjust,
  handle_channel_close, handle_channel_error, close_timeout_triggered, cleanup, takes_data,
}
use libpinggy.Transport.State.{WriteResult}
use libpinggy.Forwarder.State.{Forwarder, ReadResult, on_channel}
use libpinggy.Forwarder.{
  enable_copy_from_channel, disable_copy_from_channel, enable_copy_from_net_conn,
  disable_copy_from_net_conn, handle_fd_read, handle_fd_write, handle_fd_error, data_received,
  ready_to_send, rejected, accepted, cleaned_up, reset_if,
}

-- `ChannelError` only logs.
unfoldable pub hear : Event → Forwarder → Outcome Forwarder
hear channel_data_received w = data_received w
hear channel_accepted w = accepted w
hear channel_cleanup w = ok (cleaned_up w)
hear (channel_ready_to_send n) w = ready_to_send n w
hear (channel_error n why) w = ok w
hear (channel_rejected why) w = rejected why w

-- The events of a handler of the channel, in order.
abbrev pub deliver : List Effect → Forwarder → Outcome Forwarder
deliver [] w = ok w
deliver (notify e ∷ es) w = hear e w >>= λ v. deliver es v
deliver (register_channel ∷ es) w = deliver es w
deliver (deregister_channel ∷ es) w = deliver es w
deliver (setup_close_timeout ∷ es) w = deliver es w
deliver (send_msg m ∷ es) w = deliver es w
deliver (send_or_queue m h ∷ es) w = deliver es w

-- The session has called a handler of the channel.
unfoldable pub session_calls : Step (Unit {0}) → Forwarder → Outcome Forwarder
session_calls s w = deliver s.effects (on_channel s.channel s.effects w)

-- The message that a rejected channel sends comes before its event.
unfoldable pub answered : Bool → Step (Unit {0}) → Forwarder → Outcome Forwarder
answered lost s w = deliver s.effects (reset_if lost s.effects (on_channel s.channel s.effects w))

-- What the poller, the session and the owner of the forwarder call. `lost`: the session finds its connection lost at a message that the
-- channel sends.
pub data Call : Type 0 where
  reads : ReadResult → (lost : Bool) → Call
  writes : WriteResult → (lost : Bool) → Call
  fails : Call
  response : SetupChannelResponseMsg → (lost : Bool) → Call
  data_arrives : List ℕ → Call
  window_adjusts : ℕ → Call
  closes : Call
  errs : ℕ → Text → Call
  times_out cleans_up : Call
  plays_from_channel pauses_from_channel plays_from_conn pauses_from_conn : Call

unfoldable pub perform : SessionFeatures → Call → Forwarder → Outcome Forwarder
perform f (reads r lost) w = handle_fd_read f r lost w
perform f (writes a lost) w = handle_fd_write f a lost w
perform f fails w = ok (handle_fd_error f w)
perform f (response msg lost) w =
    handle_new_channel_response f msg w.channel >>= λ s. answered lost s w
perform f (data_arrives xs) w = handle_channel_data f xs w.channel >>= λ s. session_calls s w
perform f (window_adjusts n) w = session_calls (handle_channel_window_adjust n w.channel) w
perform f closes w = session_calls (handle_channel_close w.channel) w
perform f (errs n why) w = session_calls (handle_channel_error n why w.channel) w
perform f times_out w = session_calls (close_timeout_triggered w.channel) w
perform f cleans_up w = session_calls (cleanup w.channel) w
perform f plays_from_channel w = enable_copy_from_channel w
perform f pauses_from_channel w = disable_copy_from_channel w
perform f plays_from_conn w = enable_copy_from_net_conn w
perform f pauses_from_conn w = disable_copy_from_net_conn w

-- The calls one after the other.
unfoldable pub run : SessionFeatures → List Call → Forwarder → Outcome Forwarder
run f [] w = ok w
run f (k ∷ ks) w = perform f k w >>= λ v. run f ks v

-- The bytes that the channel takes from the peer in a call, and in the calls of a run.
abbrev pub arrived_in : SessionFeatures → Call → Forwarder → List ℕ
arrived_in f (data_arrives xs) w = if takes_data f w.channel.state then xs else []
arrived_in f k w = []

abbrev pub arrived_then : (List ℕ) → (Forwarder → List ℕ) → Outcome Forwarder → List ℕ
arrived_then xs rest aborted = xs
arrived_then xs rest (ok w) = xs ++ rest w

abbrev pub arrived : SessionFeatures → List Call → Forwarder → List ℕ
arrived f [] w = []
arrived f (k ∷ ks) w = arrived_then (arrived_in f k w) (arrived f ks) (perform f k w)
