-- ===== src/Channel.antt =====
-- src/protocol/Channel.hh and Channel.cc: one end of a multiplexed stream.
-- A method takes the channel and returns it changed, with the calls that it makes on the session
-- and on its event handler, in order, and its result; `Session` carries these calls out. The
-- features are shared with the session, so they are an argument. An `Assert` that fails is logged
-- and passed over, as under NDEBUG. A piece of received data is its bytes (`RawData.View`).
pub mod State
pub mod Transfer
pub mod Handlers
pub mod Lifecycle
pub mod Pieces
pub mod Window
pub mod History
pub mod Pair
use libpinggy.Prelude.{
  ℕ, zero, suc, ◌+◌, ◌-◌, ◌*◌, ◌/◌, Bool, true, false, not, ◌&&◌, ◌||◌, ltb, leb, ◌==◌,
  if◌then◌else◌, List, [], ◌∷◌, ◌++◌, length, Option, none, some, ℤ, pos, negsuc, Outcome, ok,
  aborted, bytes, take, drop,
}
use libpinggy.Features.{SessionFeatures}
use libpinggy.Message.{
  Text, ProtoMsg, SetupChannelMsg, SetupChannelResponseMsg, setup_channel, setup_channel_response,
  channel_data, channel_window_adjust, channel_close,
}
use State.{
  ChannelState, init, connecting, connect_responding, connected, closing, close_responding, closed,
  rejected, in_state, max_packet, channel_window_size, initial_remote_window_size, u32, Channel,
  Event, Effect, Step, register_channel, deregister_channel, setup_close_timeout, send_msg,
  send_or_queue, notify, channel_data_received, channel_accepted, channel_cleanup,
  channel_ready_to_send, channel_error, channel_rejected,
}

-- The constructor; `channelId` is not initialised there, and is set before it is read.
unfoldable pub new_channel : Channel
new_channel = record {
  channel_id = 0;
  dest_port = 0;
  dest_host = [];
  src_port = 0;
  src_host = [];
  forwarding_id = 0;
  chan_type = 1;
  remote_window = initial_remote_window_size;
  local_window = channel_window_size;
  remote_max_packet = max_packet;
  local_max_packet = max_packet;
  local_consumed = 0;
  state = init;
  allow_write = false;
  recv_queue = [];
  has_handler = false;
}

unfoldable pub set_channel_info : Channel → ℕ → Text → ℕ → Text → ℕ → ℕ → Channel
set_channel_info c dest_port dest_host src_port src_host chan_type forwarding_id = record c {
  dest_host = dest_host;
  src_host = src_host;
  dest_port = dest_port;
  src_port = src_port;
  chan_type = chan_type;
  forwarding_id = forwarding_id;
}

unfoldable pub register_event_handler : Channel → Channel
register_event_handler c = record c { has_handler = true }

-- Ignored: the state does not fit.
abbrev ignore {ℓ} : {R : Type ℓ} → Channel → R → Step R
ignore c r = record { channel = c; effects = []; result = r }

unfoldable pub setup_msg : Channel → SetupChannelMsg
setup_msg c = record {
  forwarding_id = c.forwarding_id;
  channel_id = c.channel_id;
  connect_to_port = c.dest_port;
  connect_to_host = c.dest_host;
  src_port = c.src_port;
  src_host = c.src_host;
  channel_type = c.chan_type;
  initial_window_size = c.local_window;
  max_data_size = c.local_max_packet;
}

-- `new_id` is what `getChannelNewId` returns.
unfoldable pub connect : SessionFeatures → ℕ → Channel → Step Bool
unfolding setup_msg
connect f new_id c =
    if in_state c.state (init ∷ [])
    then (let c' = record c {
      channel_id = new_id;
      state = connecting;
      allow_write = if f.fast_connect then true else c.allow_write;
    } in
        record {
          channel = c';
          effects = register_channel ∷ send_msg (setup_channel (setup_msg c')) ∷ [];
          result = true;
        })
    else ignore c false

unfoldable pub accept : SessionFeatures → Channel → Step Bool
accept f c =
    if in_state c.state (connect_responding ∷ [])
    then (let msg = setup_channel_response (record {
      channel_id = c.channel_id;
      accept = true;
      error = [];
      initial_window_size = c.local_window;
      max_data_size = c.local_max_packet;
    }) in
        record {
          channel = record c { state = connected; allow_write = true };
          effects = (if f.fast_connect then [] else register_channel ∷ []) ++ (send_msg msg ∷ []);
          result = true;
        })
    else ignore c false

pub reject : SessionFeatures → Text → Channel → Step Bool
reject f reason c =
    if in_state c.state (connect_responding ∷ [])
    then (let msg = setup_channel_response (record {
      channel_id = c.channel_id;
      accept = false;
      error = reason;
      initial_window_size = 0;
      max_data_size = 0;
    }) in
        record {
          channel = record c { state = rejected; allow_write = false };
          effects = (if f.fast_connect then deregister_channel ∷ [] else []) ++ (send_msg msg ∷ []);
          result = true;
        })
    else ignore c false

-- The part of `Close` behind the guard on the three states.
unfoldable pub close_open : SessionFeatures → Channel → Step Bool
close_open f c =
    let responding = in_state c.state (close_responding ∷ []) in
    record {
      channel = record c {
        state = if responding then closed else closing;
        allow_write = false;
        has_handler = false;
      };
      effects =
          send_or_queue (channel_close c.channel_id) c.has_handler
          ∷ (if responding
              then deregister_channel ∷ []
              else if f.close_time_out_channel
              then setup_close_timeout ∷ []
              else []);
      result = true;
    }

unfoldable pub close : SessionFeatures → Channel → Step Bool
unfolding reject close_open
close f c =
    if in_state c.state (connect_responding ∷ [])
    then reject f (bytes "No action") (record c { has_handler = false })
    else if in_state c.state (connected ∷ close_responding ∷ connecting ∷ [])
    then close_open f c
    else ignore c false
