-- ===== src/Tests/Sessions.antt =====
-- Runs of a session.
use libpinggy.Prelude.{◌≡◌, refl, true, false, [], ◌∷◌, ◌++◌, ok, aborted, bytes}
use libpinggy.Features.{
  version_1_02, new_features, negotiate_version, configure_features, reset_to_default, on_1_00,
  on_1_01, on_1_02,
}
use libpinggy.Message.{ProtoMsg, client_hello, server_hello, authentication_response, keep_alive}
use libpinggy.Session.State.{
  Session, initiated, client_hello_sent, authentication_request_sent, authenticated_as_client,
  authenticated, session_event, refused, taken, reset, transmit,
}
use libpinggy.Session.Sending.{
  send_msg, send_first, offer, offer_to, end_if, settle, push, flush_queue,
  handle_ready_to_send_buffer,
}
use libpinggy.Session.Api.{end, start, new_session}
use libpinggy.Ids.{first_channel_id}
use libpinggy.Session.Life.{starts, meets, ready_to_send, gets, run, perform, IsConsistent}
use libpinggy.Session.Life.Sides.{life-IsConsistent}
use libpinggy.Session.Dispatch.{handle_deserialized_msg, dispatch, call_handler, send_away}
use libpinggy.Session.Order.{accepted, send_msg-accepted, flush-accepted}
use libpinggy.Session.Phases.{Follows, handle_deserialized_msg-Follows, expected_returns}
use libpinggy.Session.LostLink.{end_crash}

-- A client that waits for the answer to its authentication.
abbrev client : Session
client = record {
  has_connection = true;
  has_transport = true;
  server_mode = false;
  state = authentication_request_sent;
  has_handler = true;
  has_poll_controller = true;
  channels = [];
  objects = [];
  last_req_id = 3;
  last_channel_id = 4;
  send_queue = [];
  end_sent = false;
  end_reason = [];
  keep_alive_sent_tick = 0;
  incoming_activities = false;
  enable_pinggy_value = false;
  features = record {
    version = version_1_02;
    fast_connect = true;
    close_time_out_channel = true;
    primary_forwarding_mode = false;
    implicit_usages_and_greeting = true;
  };
  answers = [];
  outputs = [];
}

abbrev welcome : ProtoMsg
welcome = authentication_response true [] [] 1

abbrev welcomed : Session
welcomed = record client {
  state = authenticated_as_client;
  incoming_activities = true;
  outputs = session_event (authenticated [] 1) ∷ [];
}

gets_welcome : handle_deserialized_msg welcome client ≡ ok welcomed
unfolding handle_deserialized_msg dispatch call_handler
gets_welcome = refl

handle_deserialized_msg-Follows_example : Follows welcome client welcomed
handle_deserialized_msg-Follows_example =
    handle_deserialized_msg-Follows welcome client welcomed gets_welcome

expected_returns_example :
    (t : Session) × (handle_deserialized_msg welcome client ≡ ok t) × Follows welcome client t
expected_returns_example = expected_returns welcome client refl refl refl

-- A client that starts on a transport that takes its first message at the second try, and is answered by a server.
life_run :
    run
      (meets (refused ∷ taken ∷ [])
        ∷ starts
        ∷ gets (server_hello version_1_02)
        ∷ ready_to_send
        ∷ [])
      (new_session true false)
    ≡ ok (record client {
      state = client_hello_sent;
      incoming_activities = true;
      outputs = session_event initiated ∷ transmit (client_hello version_1_02) ∷ [];
    })
unfolding run perform start send_away send_msg send_first offer offer_to end_if settle new_session
    push handle_ready_to_send_buffer flush_queue first_channel_id new_features
    handle_deserialized_msg dispatch call_handler negotiate_version configure_features
    reset_to_default on_1_00 on_1_01 on_1_02
life_run = refl

life-IsConsistent_example : IsConsistent false (record client {
  state = client_hello_sent;
  incoming_activities = true;
  outputs = session_event initiated ∷ transmit (client_hello version_1_02) ∷ [];
})
life-IsConsistent_example =
    life-IsConsistent true false
      (meets (refused ∷ taken ∷ [])
        ∷ starts
        ∷ gets (server_hello version_1_02)
        ∷ ready_to_send
        ∷ [])
      (record client {
        state = client_hello_sent;
        incoming_activities = true;
        outputs = session_event initiated ∷ transmit (client_hello version_1_02) ∷ [];
      })
      life_run

-- A transport that refuses the first message.
abbrev slow : Session
slow = record client { answers = refused ∷ [] }

abbrev waiting : Session
waiting = record client { send_queue = keep_alive 0 ∷ [] }

sends_slowly : send_msg (keep_alive 0) true slow ≡ ok (waiting, true)
unfolding send_msg send_first offer offer_to end_if settle push
sends_slowly = refl

send_msg-accepted_example : accepted waiting ≡ accepted slow ++ (keep_alive 0 ∷ [])
send_msg-accepted_example = send_msg-accepted (keep_alive 0) true slow waiting true sends_slowly

abbrev caught_up : Session
caught_up = record client { outputs = transmit (keep_alive 0) ∷ [] }

flushes : handle_ready_to_send_buffer waiting ≡ ok caught_up
unfolding handle_ready_to_send_buffer flush_queue offer offer_to end_if
flushes = refl

flush-accepted_example : accepted caught_up ≡ accepted waiting
flush-accepted_example = flush-accepted waiting caught_up flushes

-- The connection is lost under the disconnect message.
abbrev cut_off : Session
cut_off = record client { answers = reset ∷ [] }

end_crash_example : end (bytes "bye") cut_off ≡ aborted
end_crash_example = end_crash (bytes "bye") [] cut_off refl refl refl refl
