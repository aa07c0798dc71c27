-- ===== src/Session/Api.antt =====
-- src/protocol/Session.hh and Session.cc: the public operations of a session.
use libpinggy.Prelude.{
  ℕ, ◌+◌, ◌%◌, ◌^◌, Bool, true, false, ◌&&◌, not, List, [], ◌∷◌, ◌++◌, if◌then◌else◌, length,
  Outcome, ok, aborted, ◌>>=◌, get_elem?, none, some,
}
use libpinggy.Features.{new_features, set_version, version_1_02}
use libpinggy.Message.{
  Text, client_hello, server_hello, error_msg, authenticate, authentication_response,
  remote_forward_request, remote_forward_response, keep_alive, disconnect, usages,
}
use libpinggy.Channel.State.{in_state, init as channel_init}
use libpinggy.Channel.{new_channel, set_channel_info, connect}
use libpinggy.Ids.{Search, found, full, unfinished, new_channel_id, first_channel_id}
use libpinggy.Session.State.{
  Session, is_state, init, client_hello_sent, server_hello_sent, authentication_request_sent,
  authentication_request_recved, authenticated_as_client, authenticated_as_server, close_connection,
  emit,
}
use libpinggy.Session.Sending.{cleanup_all}
use libpinggy.Session.Table.{chan_id_exists, finish}
use libpinggy.Session.Dispatch.{send_away, expect}

unfoldable pub new_session : Bool → Bool → Session
new_session has_poll_controller as_server = record {
  has_connection = true;
  has_transport = false;
  server_mode = as_server;
  state = init;
  has_handler = false;
  has_poll_controller = has_poll_controller;
  channels = [];
  objects = [];
  last_req_id = 3;
  last_channel_id = first_channel_id as_server;
  send_queue = [];
  end_sent = false;
  end_reason = [];
  keep_alive_sent_tick = 0;
  incoming_activities = false;
  enable_pinggy_value = false;
  features = new_features version_1_02;
  answers = [];
  outputs = [];
}

-- The assertion that the session is new is passed over where it fails.
unfoldable pub set_session_version : ℕ → Session → Session
set_session_version version s = record s { features = set_version s.features version }

-- The connection is used, which is a null pointer after a `Cleanup`.
unfoldable pub start : Session → Outcome Session
start s =
    let t = record s { has_handler = true; has_transport = true } in
    if not s.has_connection
    then aborted
    else if s.server_mode
    then (send_away (server_hello s.features.version) t >>= λ u.
        ok (record u { state = server_hello_sent }))
    else (send_away (client_hello s.features.version) t >>= λ u.
        ok (record u { state = client_hello_sent }))

unfoldable pub end : Text → Session → Outcome Session
end reason s =
    if s.end_sent
    then ok s
    else send_away (disconnect reason) s >>= λ t. ok (record t { end_sent = true })

-- A second call uses a null pointer.
unfoldable pub clean_up : Session → Outcome Session
clean_up s =
    let t = record (cleanup_all s.channels s) { channels = [] } in
    if not s.has_connection
    then aborted
    else ok (record (emit close_connection t) {
      has_connection = false;
      has_transport = false;
      has_handler = false;
    })

unfoldable pub authenticate_as_client : Text → Text → Bool → Session → Outcome Session
authenticate_as_client user arguments advanced s =
    expect (is_state s.state client_hello_sent && not s.server_mode) (
      send_away (authenticate user arguments advanced) s >>= λ t.
      ok (record t { state = authentication_request_sent }))

-- The request number is a `uint16`, and the result.
unfoldable pub send_remote_forward_request :
    ℕ → Text → ℕ → Text → ℕ → Session → Outcome (Session × ℕ)
send_remote_forward_request port bind forward_port forward_host mode s =
    if is_state s.state authenticated_as_client
    then (let req = (s.last_req_id + 1) % 2 ^ 16 in
        let t = record s { last_req_id = req } in
        send_away (remote_forward_request req port bind forward_port forward_host mode) t >>= λ u.
        ok (u, req))
    else aborted

unfoldable pub authentication_succeeded : List Text → ℕ → Session → Outcome Session
authentication_succeeded messages info s = expect (is_state s.state authentication_request_recved) (
    send_away (authentication_response true [] messages info)
      (record s { state = authenticated_as_server }))

-- `0` stands for no tunnel info. The session's state is not changed.
unfoldable pub authentication_refuse : Text → List Text → Session → Outcome Session
authentication_refuse error messages s =
    expect (is_state s.state authentication_request_recved)
      (send_away (authentication_response false error messages 0) s)

unfoldable pub accept_remote_forward_request :
    ℕ → ℕ → List Text → List ℕ → Session → Outcome Session
accept_remote_forward_request req_id forwarding_id urls forwardings s =
    expect (is_state s.state authenticated_as_server)
      (send_away (remote_forward_response req_id forwarding_id true urls forwardings []) s)

unfoldable pub reject_remote_forward_request : ℕ → Text → Session → Outcome Session
reject_remote_forward_request req_id error s =
    expect (is_state s.state authenticated_as_server)
      (send_away (remote_forward_response req_id 0 false [] [] error) s)

unfoldable pub send_keep_alive : Session → Outcome (Session × ℕ)
send_keep_alive s =
    let tick = s.keep_alive_sent_tick in
    send_away (keep_alive tick) (record s { keep_alive_sent_tick = (tick + 1) % 2 ^ 64 }) >>= λ t.
    ok (t, tick)

-- The new object's pointer is its place. A type that is not valid fails an assertion only.
unfoldable pub create_channel : ℕ → Text → ℕ → Text → ℕ → ℕ → Session → Session × ℕ
create_channel dest_port dest_host src_port src_host chan_type forwarding_id s =
    let c =
      set_channel_info new_channel dest_port dest_host src_port src_host chan_type forwarding_id in
    (record s { objects = s.objects ++ (c ∷ []) }, length s.objects)

unfoldable pub send_usages : ℕ → Session → Outcome Session
send_usages usage s = send_away (usages usage) s

unfoldable pub send_error : Text → Session → Outcome Session
send_error what s = send_away (error_msg 0 what true) s

unfoldable pub set_enable_pinggy_value_mode : Bool → Session → Session
set_enable_pinggy_value_mode enable s = record s { enable_pinggy_value = enable }

unfoldable pub reset_incoming_activities : Session → Session
reset_incoming_activities s = record s { incoming_activities = false }

-- `getChannelNewId`, with what it does to the session. Where no number is left the assertion is
-- passed over and 0 is returned. The search ends (`Ids.Fresh`), so its last case never comes.
unfoldable pub take_id : Search → Session → Session × ℕ
take_id (found id) s = (record s { last_channel_id = id }, id)
take_id full s = (s, 0)
take_id unfinished s = (s, 0)

unfoldable pub get_channel_new_id : Session → Session × ℕ
unfolding take_id
get_channel_new_id s = take_id (new_channel_id (chan_id_exists s) s.last_channel_id) s

-- `Channel::Connect` on an object, which takes a number only in the state that it may connect in.
unfoldable pub connect_channel : ℕ → Session → Outcome Session
connect_channel h s = elim (get_elem? s.objects h) [
  | none ↦ aborted
  | some c ↦
      if in_state c.state (channel_init ∷ [])
      then (let (t, id) = get_channel_new_id s in finish h (connect t.features id c) t)
      else ok s
]
