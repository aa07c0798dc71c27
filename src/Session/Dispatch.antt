-- ===== src/Session/Dispatch.antt =====
-- src/protocol/Session.cc: `handleDeserializedMsg`, all its cases, and what it calls.
use libpinggy.Prelude.{
  ℕ, zero, suc, ◌+◌, ◌-◌, ◌/◌, ◌%◌, Bool, true, false, ltb, ◌&&◌, ◌||◌, List, [], ◌∷◌, ◌++◌,
  if◌then◌else◌, Outcome, ok, aborted, ◌>>=◌, length, none, some, bytes,
}
use libpinggy.Features.{negotiate_version}
use libpinggy.Message.{
  Text, ProtoMsg, SetupChannelMsg, client_hello, server_hello, error_msg, authenticate,
  authentication_response, remote_forward_request, remote_forward_response, setup_channel,
  setup_channel_response, channel_data, channel_window_adjust, channel_close, channel_error,
  keep_alive, keep_alive_response, disconnect, warning_msg, usages, unknown_msg,
}
use libpinggy.Channel.State.{Channel, Step}
use libpinggy.Channel.{new_channel}
use libpinggy.Channel.Handlers.{
  handle_new_channel_response, handle_channel_data, handle_channel_window_adjust,
  handle_channel_close, handle_channel_error, initiate_incoming_channel,
}
use libpinggy.Ids.{valid_remote_channel}
use libpinggy.Session.State.{
  Session, SessionState, SessionEvent, is_state, client_hello_sent, server_hello_sent,
  authentication_request_sent, authentication_request_recved, authenticated_as_client,
  authenticated_as_server, authentication_failed, initiated, authentication_request, authenticated,
  authentication_refused, forward_request, forwarding_succeeded, forwarding_failed,
  new_channel_request, session_error, session_warning, keep_alive_response_received, disconnection,
  usages_received, session_event, emit, find,
}
use libpinggy.Session.Sending.{send_msg}
use libpinggy.Session.Table.{finish, on_object}

-- `eventHandler->…`, with no test of the pointer.
unfoldable pub call_handler : SessionEvent → Session → Outcome Session
call_handler e s = if s.has_handler then ok (emit (session_event e) s) else aborted

-- A message whose result nobody reads.
unfoldable pub send_away : ProtoMsg → Session → Outcome Session
send_away m s = send_msg m true s >>= λ r. ok r.0

unfoldable pub digits : ℕ → ℕ → Text
digits zero n = []
digits (suc fuel) n =
    let front = digits fuel (n / 10) in
    if ltb n 10 then (b'0' + n) ∷ [] else front ++ ((b'0' + n % 10) ∷ [])

-- `std::to_string` of a number below 10 ^ 20.
unfoldable pub to_string : ℕ → Text
unfolding digits
to_string n = digits 20 n

-- `std::to_string` of an `int8`, from its bits.
unfoldable pub int8_to_string : ℕ → Text
unfolding to_string
int8_to_string n = if ltb n 128 then to_string n else b'-' ∷ to_string (256 - n)

-- Why `handleNewChannel` turns a request down; empty if it does not. A type is valid if it is 1, 2 or
-- 3; a negative one has bits from 128 on.
unfoldable pub reject_text : Bool → SetupChannelMsg → Text
unfolding int8_to_string
reject_text server msg =
    (if valid_remote_channel server msg.channel_id
      then []
      else bytes "Invalid channelId " ++ (to_string msg.channel_id ++ bytes ". "))
    ++ (if ltb 0 msg.channel_type && ltb msg.channel_type 4
        then []
        else bytes "Unknown channel type"
          ++ (int8_to_string msg.channel_type ++ (bytes ".  " ++ to_string 477)))

unfoldable pub refuse_channel : SetupChannelMsg → Text → Session → Outcome Session
refuse_channel msg why = send_away (
    setup_channel_response (record {
      channel_id = msg.channel_id;
      accept = false;
      error = why;
      initial_window_size = 0;
      max_data_size = 0;
    }))

-- A new object, which the handler is given.
unfoldable pub admit_channel : SetupChannelMsg → Session → Outcome Session
admit_channel msg s =
    let h = length s.objects in
    initiate_incoming_channel s.features msg new_channel >>= λ step.
    finish h step (record s { objects = s.objects ++ (new_channel ∷ []) }) >>= λ t.
    call_handler (new_channel_request h) t

unfoldable pub handle_new_channel : SetupChannelMsg → Session → Outcome Session
unfolding refuse_channel admit_channel
handle_new_channel msg s = elim (reject_text s.server_mode msg) [
  | [] ↦ admit_channel msg s
  | x ∷ xs ↦ refuse_channel msg (x ∷ xs) s
]

unfoldable pub handle_remote_forward_response :
    ℕ → ℕ → Bool → List Text → List ℕ → Text → Session → Outcome Session
handle_remote_forward_response req_id forwarding_id success urls forwardings error = call_handler (
    if success
    then forwarding_succeeded req_id forwarding_id urls forwardings
    else forwarding_failed req_id error)

-- The guard on the session's state: a message that is not expected ends the process.
abbrev pub expect : Bool → Outcome Session → Outcome Session
expect b go = if b then go else aborted

abbrev is_authenticated : SessionState → Bool
is_authenticated s = is_state s authenticated_as_client || is_state s authenticated_as_server

-- A message for a channel: without an entry in the table it is ignored.
unfoldable pub on_channel {ℓ} :
    {R : Type ℓ} → ℕ → (Channel → Outcome (Step R)) → Session → Outcome Session
on_channel id method s = elim (find id s.channels) [ none ↦ ok s | some h ↦ on_object h method s ]

-- `ChannelError` for an unknown number is answered by a warning.
unfoldable pub on_channel_error : ℕ → ℕ → Text → Session → Outcome Session
on_channel_error id error_no error s = elim (find id s.channels) [
  | none ↦
      send_away
        (warning_msg 0
          (bytes "Unknown channel id " ++ (to_string id ++ (bytes " " ++ to_string 680))))
        s
  | some h ↦ on_object h (λ c. ok (handle_channel_error error_no error c)) s
]

unfoldable pub dispatch : ProtoMsg → Session → Outcome Session
dispatch (server_hello version) s =
    expect (is_state s.state client_hello_sent)
      (call_handler initiated (record s { features = negotiate_version s.features version }))
dispatch (client_hello version) s =
    expect (is_state s.state server_hello_sent)
      (call_handler initiated (record s { features = negotiate_version s.features version }))
dispatch (authenticate username arguments advanced) s =
    expect (is_state s.state server_hello_sent) (
      call_handler (authentication_request username arguments advanced)
        (record s { state = authentication_request_recved }))
dispatch (authentication_response success error messages info) s =
    expect (is_state s.state authentication_request_sent) (
      if success
      then call_handler (authenticated messages info) (record s { state = authenticated_as_client })
      else call_handler (authentication_refused error messages)
          (record s { state = authentication_failed }))
dispatch (remote_forward_request req_id port bind forward_port forward_host mode) s =
    expect (is_state s.state authenticated_as_server)
      (call_handler (forward_request req_id port bind forward_port forward_host mode) s)
dispatch (remote_forward_response req_id forwarding_id success urls forwardings error) s =
    expect (is_state s.state authenticated_as_client)
      (handle_remote_forward_response req_id forwarding_id success urls forwardings error s)
dispatch (setup_channel msg) s = expect (is_authenticated s.state) (handle_new_channel msg s)
dispatch (setup_channel_response msg) s =
    expect (is_authenticated s.state)
      (on_channel msg.channel_id (handle_new_channel_response s.features msg) s)
dispatch (channel_data id xs) s =
    expect (is_authenticated s.state) (on_channel id (handle_channel_data s.features xs) s)
dispatch (channel_window_adjust id n) s =
    expect (is_authenticated s.state) (on_channel id (λ c. ok (handle_channel_window_adjust n c)) s)
dispatch (channel_close id) s =
    expect (is_authenticated s.state) (on_channel id (λ c. ok (handle_channel_close c)) s)
dispatch (channel_error id error_no error) s = on_channel_error id error_no error s
dispatch (error_msg error_no what recoverable) s =
    call_handler (session_error error_no what recoverable) s
dispatch (warning_msg error_no what) s = call_handler (session_warning error_no what) s
dispatch (keep_alive tick) s = send_away (keep_alive_response tick) s
dispatch (keep_alive_response for_tick) s = call_handler (keep_alive_response_received for_tick) s
dispatch (disconnect reason) s =
    call_handler (disconnection reason) (record s { end_reason = reason })
dispatch (usages usage) s = call_handler (usages_received usage) s
dispatch (unknown_msg msg_type) s = aborted

unfoldable pub handle_deserialized_msg : ProtoMsg → Session → Outcome Session
unfolding dispatch
handle_deserialized_msg m s = dispatch m (record s { incoming_activities = true })
