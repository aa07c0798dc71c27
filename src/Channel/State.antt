-- ===== src/Channel/State.antt =====
-- src/protocol/Channel.hh: the state of a channel, the calls that its methods make on others, and the
-- macros `IN_STATE_COND` and `NOT_IN_STATE_COND` of Channel.cc.
use libpinggy.Prelude.{ℕ, ◌*◌, ◌%◌, ◌^◌, Bool, false, ◌||◌, ◌==◌, List, [], ◌∷◌}
use libpinggy.Message.{Text, ProtoMsg}

pub data ChannelState : Type 0 where
  init connecting connect_responding connected closing close_responding closed rejected :
      ChannelState

-- The value of the enumeration.
abbrev pub number : ChannelState → ℕ
number init = 0
number connecting = 1
number connect_responding = 2
number connected = 3
number closing = 4
number close_responding = 5
number closed = 6
number rejected = 7

abbrev pub in_state : ChannelState → List ChannelState → Bool
in_state s [] = false
in_state s (x ∷ xs) = number s == number x || in_state s xs

abbrev pub max_packet : ℕ
max_packet = 2 ^ 15

abbrev pub channel_window_size : ℕ
channel_window_size = 64 * max_packet

abbrev pub initial_remote_window_size : ℕ
initial_remote_window_size = max_packet

abbrev pub u32 : ℕ → ℕ
u32 n = n % 2 ^ 32

pub record Channel : Type 0 where
  pub channel_id : ℕ  -- uint16
  pub dest_port : ℕ
  pub dest_host : Text
  pub src_port : ℕ
  pub src_host : Text
  pub forwarding_id : ℕ
  pub chan_type : ℕ
  pub remote_window : ℕ  -- uint32, as the next four
  pub local_window : ℕ
  pub remote_max_packet : ℕ
  pub local_max_packet : ℕ
  pub local_consumed : ℕ
  pub state : ChannelState
  pub allow_write : Bool
  pub recv_queue : List (List ℕ)  -- oldest first
  pub has_handler : Bool  -- `eventHandler` is not null

-- A call of the event handler.
pub data Event : Type 0 where
  channel_data_received channel_accepted channel_cleanup : Event
  channel_ready_to_send : (window : ℕ) → Event
  channel_error : (error_code : ℕ) (error_text : Text) → Event
  channel_rejected : (reason : Text) → Event

-- What a method does outside the channel. `send_or_queue` is the method of that name: it holds the
-- message and whether there is a handler to be told of a failure.
pub data Effect : Type 0 where
  register_channel deregister_channel setup_close_timeout : Effect
  send_msg : ProtoMsg → Effect
  send_or_queue : ProtoMsg → (has_handler : Bool) → Effect
  notify : Event → Effect

pub record Step {ℓ} (R : Type ℓ) : Type ℓ where
  pub channel : Channel
  pub effects : List Effect
  pub result : R
