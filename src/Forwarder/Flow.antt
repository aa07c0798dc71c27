-- ===== src/Forwarder/Flow.antt =====
-- src/protocol/ChannelConnectionForwarder.cc with src/protocol/Channel.cc: copying never stalls. While a
-- forwarder may copy in a direction and there is something to copy, the poller watches for it: first by the flags of the forwarder, then (Polls) by its calls.
pub mod Copies
pub mod Polls
pub mod Run
use libpinggy.Prelude.{
  ℕ, suc, ◌<◌, ◌≤◌, ◌≡◌, refl, Bool, true, false, not, ◌&&◌, ◌||◌, ltb, leb, List, [], ◌∷◌, ◌++◌,
  length, List-cases, Bool-cases, Option-cases, Outcome, ok, aborted, some, none, inl, inr, ℤ, pos,
  negsuc, arith, Option, Outcome-cases, concat, ◌>>=◌, ◌⊎◌, drop-length, length-drop,
}
use libpinggy.Features.{SessionFeatures}
use libpinggy.Message.{Text, SetupChannelResponseMsg}
use libpinggy.Channel.{close, connect, register_event_handler}
use libpinggy.Channel.State.{
  Channel, Step, connecting, connected, close_responding, in_state, Effect, init,
}
use libpinggy.Channel.Transfer.{
  send, send_pieces, recv, recv_from, adjust_window, have_data_to_read, have_buffer_to_write,
}
use libpinggy.Channel.Pieces.{send_pieces_total}
use libpinggy.Channel.Handlers.{
  handle_new_channel_response, handle_channel_data, handle_channel_window_adjust,
  handle_channel_close, handle_channel_error, close_timeout_triggered, cleanup,
}
use libpinggy.Transport.State.{WriteResult, wrote, write_later, write_failed}
use libpinggy.Forwarder.State.{
  Forwarder, ReadResult, got, read_later, read_failed, has_read, enable_write_poll, on_conn,
  on_channel, too_long,
}
use libpinggy.Forwarder.{
  with_conn, enable_copy_from_channel, disable_copy_from_channel, enable_copy_from_net_conn,
  disable_copy_from_net_conn, raise_if_pending, drop_net_conn, drop_counter, close_channel,
  close_by_net_conn, after_send, forward_pending, read_conn, fd_read_in, handle_fd_read,
  written_conn, write_conn, after_recv, fd_write_in, handle_fd_write, handle_fd_error,
  data_received, ready_to_send, rejected, accepted, cleaned_up, sixteen_kb, new_forwarder, start,
  start_channel,
}
use libpinggy.Forwarder.Bridge.{
  hear, session_calls, Call, reads, writes, fails, response, data_arrives, window_adjusts, closes,
  errs, times_out, cleans_up, plays_from_channel, pauses_from_channel, plays_from_conn,
  pauses_from_conn, perform, arrived, run,
}
use libpinggy.Forwarder.Carries.{run-carries}
use libpinggy.Forwarder.Calm.{inbound, outbound, all_read}
use libpinggy.Forwarder.Safety.{
  is_open, IsSafe, SafeOk, Stays, StaysOk, StaysOk-SafeOk, data_received-Stays, ready_to_send-Stays,
  accepted-Stays, enable_copy_from_channel-Stays, disable_copy_from_channel-Stays,
  enable_copy_from_net_conn-Stays, disable_copy_from_net_conn-Stays, close_by_net_conn-IsSafe,
  cleaned_up-safe, rejected-safe,
}
use libpinggy.Forwarder.Copies.{fd_read_in-SafeOk, fd_write_in-SafeOk}
use libpinggy.Forwarder.Fair.{fair, fair_run, start-IsSafe, perform-returns}

abbrev pub has_bytes : List ℕ → Bool
has_bytes xs = ltb 0 (length xs)

-- From the connection: the flag says that the poller watches for bytes to read, or there are bytes that the window does
-- not hold yet.
abbrev pub net_flows : Forwarder → Bool
net_flows w =
    not (
      w.has_net_conn
      && (w.allow_copy_from_net_conn && (w.channel.allow_write && w.channel.has_handler)))
    || (w.fd_recv_enabled
        || (has_bytes w.data_for_channel
            && too_long w.channel.remote_window (length w.data_for_channel)))

-- From the channel: the flag says that the poller watches for the connection to take bytes, or there are none.
abbrev pub channel_flows : Forwarder → Bool
channel_flows w =
    not (w.has_net_conn && (w.allow_copy_from_channel && w.channel.has_handler))
    || (w.fd_send_enabled || not (has_bytes w.data_for_net_conn || have_data_to_read w.channel))

-- A channel that is not accepted yet has given nothing.
abbrev pub early : Forwarder → Bool
early w =
    not (in_state w.channel.state (connecting ∷ []))
    || not (has_bytes w.data_for_net_conn || ltb 0 (length w.channel.recv_queue))

pub record Flows (w : Forwarder) : Type 0 where
  pub to_channel : net_flows w ≡ true
  pub to_conn : channel_flows w ≡ true
  pub before : early w ≡ true

unfoldable pub FlowsOk : Outcome Forwarder → Type 0
FlowsOk aborted = Unit {0}
FlowsOk (ok v) = Flows v

gone-Flows : (w : Forwarder) → w.has_net_conn ≡ false → early w ≡ true → Flows w
gone-Flows w gone b = ground arith

close-before :
    (f : SessionFeatures) (c : Channel)
    → ((close f c).channel.recv_queue ≡ c.recv_queue)
      × (in_state c.state (connecting ∷ []) ≡ false
          → in_state (close f c).channel.state (connecting ∷ []) ≡ false)
unfolding close
close-before f c = ground arith

pub close_by_net_conn-Flows :
    (f : SessionFeatures) (w : Forwarder) → early w ≡ true → Flows (close_by_net_conn f w)
unfolding close_by_net_conn drop_net_conn drop_counter close_channel
close_by_net_conn-Flows f w b = ground (arith, close-before f w.channel)

pub plays_from_channel-Flows : (w : Forwarder) → Flows w → FlowsOk (enable_copy_from_channel w)
unfolding enable_copy_from_channel FlowsOk
plays_from_channel-Flows w h = ground arith

pub pauses_from_channel-Flows : (w : Forwarder) → Flows w → FlowsOk (disable_copy_from_channel w)
unfolding disable_copy_from_channel FlowsOk
pauses_from_channel-Flows w h = ground arith

pub plays_from_conn-Flows : (w : Forwarder) → Flows w → FlowsOk (enable_copy_from_net_conn w)
unfolding enable_copy_from_net_conn FlowsOk
plays_from_conn-Flows w h = elim (List-cases w.data_for_channel) [
  | inl quiet ↦ ground arith
  | inr (x, xs, some_data) ↦ ground arith
]

pub pauses_from_conn-Flows : (w : Forwarder) → Flows w → FlowsOk (disable_copy_from_net_conn w)
unfolding disable_copy_from_net_conn FlowsOk
pauses_from_conn-Flows w h = ground arith
