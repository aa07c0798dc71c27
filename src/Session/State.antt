-- ===== src/Session/State.antt =====
-- src/protocol/Session.hh: the session's members, and what it does outside itself.
-- A channel object is an entry of `objects`, and its place there is the shared pointer; `channels` is
-- the map from channel numbers to these. The connection, the transport manager and the event handler
-- are kept as whether they are there. `answers` is what the transport will say to the messages that
-- it is given (`Transport` models it): the session cannot see more of it. The optional writer of a
-- debug log, `msgWriter`, has no effect on anything else and is left out.
use libpinggy.Prelude.{ℕ, Bool, List, [], ◌∷◌, ◌++◌, ◌==◌, ltb, if◌then◌else◌, Option, none, some}
use libpinggy.Features.{SessionFeatures}
use libpinggy.Message.{Text, ProtoMsg}
use libpinggy.Channel.State.{Channel, Event}

pub data SessionState : Type 0 where
  init client_hello_sent server_hello_sent authentication_request_sent : SessionState
  authentication_request_recved authenticated_as_client authenticated_as_server : SessionState
  authentication_failed failed : SessionState

abbrev pub number : SessionState → ℕ
number init = 0
number client_hello_sent = 1
number server_hello_sent = 2
number authentication_request_sent = 3
number authentication_request_recved = 4
number authenticated_as_client = 5
number authenticated_as_server = 6
number authentication_failed = 7
number failed = 8

abbrev pub is_state : SessionState → SessionState → Bool
is_state s t = number s == number t

-- A call of the session's event handler.
pub data SessionEvent : Type 0 where
  initiated connection_reset : SessionEvent
  authentication_request : (username arguments : Text) (advanced_parsing : Bool) → SessionEvent
  authenticated : (messages : List Text) (tunnel_info : ℕ) → SessionEvent
  authentication_refused : (error : Text) (messages : List Text) → SessionEvent
  forward_request :
      (req_id listening_port : ℕ) (bind : Text) (forwarding_port : ℕ) (forwarding_host : Text)
      (mode : ℕ)
      → SessionEvent
  forwarding_succeeded :
      (req_id forwarding_id : ℕ) (urls : List Text) (remote_forwardings : List ℕ) → SessionEvent
  forwarding_failed : (req_id : ℕ) (error : Text) → SessionEvent
  new_channel_request : (channel : ℕ) → SessionEvent
  session_error : (error_no : ℕ) (what : Text) (recoverable : Bool) → SessionEvent
  session_warning : (error_no : ℕ) (what : Text) → SessionEvent
  keep_alive_response_received : (for_tick : ℕ) → SessionEvent
  disconnection : (reason : Text) → SessionEvent
  usages_received : (usage : ℕ) → SessionEvent

-- What the transport does with a message: it takes it, or refuses it since its own queue is not
-- empty, or takes it and finds the connection lost, which it reports before it returns.
pub data Answer : Type 0 where
  taken refused reset : Answer

pub data Output : Type 0 where
  transmit : ProtoMsg → Output
  end_transport close_connection : Output
  session_event : SessionEvent → Output
  channel_event : (channel : ℕ) → Event → Output
  close_timeout : (channel : ℕ) → Output

pub record Session : Type 0 where
  pub has_connection : Bool
  pub has_transport : Bool
  pub server_mode : Bool
  pub state : SessionState
  pub has_handler : Bool
  pub has_poll_controller : Bool
  pub channels : List (ℕ × ℕ)
  pub objects : List Channel
  pub last_req_id : ℕ  -- uint16
  pub last_channel_id : ℕ  -- uint16
  pub send_queue : List ProtoMsg
  pub end_sent : Bool
  pub end_reason : Text
  pub keep_alive_sent_tick : ℕ  -- uint64
  pub incoming_activities : Bool
  pub enable_pinggy_value : Bool
  pub features : SessionFeatures
  pub answers : List Answer
  pub outputs : List Output  -- oldest first

abbrev pub emit : Output → Session → Session
emit o s = record s { outputs = s.outputs ++ (o ∷ []) }

-- The map `channels`.
pub find : ℕ → List (ℕ × ℕ) → Option ℕ
find k [] = none
find k ((j, h) ∷ m) = if j == k then some h else find k m

-- A new entry, at its place in the order of the keys, in which the map is walked through.
unfoldable pub insert : ℕ → ℕ → List (ℕ × ℕ) → List (ℕ × ℕ)
insert k v [] = (k, v) ∷ []
insert k v ((j, h) ∷ m) = if ltb k j then (k, v) ∷ (j, h) ∷ m else (j, h) ∷ insert k v m

pub erase : ℕ → List (ℕ × ℕ) → List (ℕ × ℕ)
erase k [] = []
erase k ((j, h) ∷ m) = if j == k then m else (j, h) ∷ erase k m
