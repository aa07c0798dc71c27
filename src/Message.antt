-- ===== src/Message.antt =====
-- src/protocol/Schema.hh: the protocol's messages, with the fields that the session and its channels
-- read or write. `MsgId` stands in every message and nothing sets or reads it.
-- A text is its bytes. A tunnel info, a remote forwarding and a usage report are only passed on, and are numbers
-- that stand for them. `RedirectTo` and the second version are never set or read.
use libpinggy.Prelude.{ℕ, Bool, List}

abbrev pub Text : Type 0
Text = List ℕ

pub record SetupChannelMsg : Type 0 where
  pub forwarding_id : ℕ
  pub channel_id : ℕ  -- uint16
  pub connect_to_port : ℕ
  pub connect_to_host : Text
  pub src_port : ℕ
  pub src_host : Text
  pub channel_type : ℕ  -- the bits of an int8
  pub initial_window_size : ℕ  -- uint32
  pub max_data_size : ℕ  -- uint32

pub record SetupChannelResponseMsg : Type 0 where
  pub channel_id : ℕ
  pub accept : Bool
  pub error : Text
  pub initial_window_size : ℕ
  pub max_data_size : ℕ

pub data ProtoMsg : Type 0 where
  client_hello : (version : ℕ) → ProtoMsg
  server_hello : (version : ℕ) → ProtoMsg
  error_msg : (error_no : ℕ) (what : Text) (recoverable : Bool) → ProtoMsg
  authenticate : (username arguments : Text) (advanced_parsing : Bool) → ProtoMsg
  authentication_response :
      (success : Bool) (error : Text) (messages : List Text) (tunnel_info : ℕ) → ProtoMsg
  remote_forward_request :
      (req_id listening_port : ℕ) (bind : Text) (forwarding_port : ℕ) (forwarding_host : Text)
      (mode : ℕ)
      → ProtoMsg
  remote_forward_response :
      (req_id forwarding_id : ℕ) (success : Bool) (urls : List Text) (remote_forwardings : List ℕ)
      (error : Text)
      → ProtoMsg
  setup_channel : SetupChannelMsg → ProtoMsg
  setup_channel_response : SetupChannelResponseMsg → ProtoMsg
  channel_data : (channel_id : ℕ) (payload : List ℕ) → ProtoMsg
  channel_window_adjust : (channel_id additional_bytes : ℕ) → ProtoMsg
  channel_close : (channel_id : ℕ) → ProtoMsg
  channel_error : (channel_id error_no : ℕ) (error : Text) → ProtoMsg
  keep_alive : (tick : ℕ) → ProtoMsg
  keep_alive_response : (for_tick : ℕ) → ProtoMsg
  disconnect : (reason : Text) → ProtoMsg
  warning_msg : (error_no : ℕ) (what : Text) → ProtoMsg
  usages : (usage : ℕ) → ProtoMsg
  unknown_msg : (msg_type : ℕ) → ProtoMsg
