-- ===== src/Session/Life.antt =====
-- All that can be done to a session, as one sequence of calls from its construction on.
pub mod Queue
pub mod Sides
use libpinggy.Prelude.{
  ℕ, ◌+◌, ◌%◌, ◌^◌, ◌≤◌, ◌≡◌, refl, sym, ◌∙◌, Bool, true, false, not, List, [], ◌∷◌, if◌then◌else◌,
  arith, Outcome, Option, ◌⊎◌, subst, ok, aborted, ◌>>=◌, >>=-eq-ok, inl, inr, Option-cases,
  get_elem?, Bool-cases, none, some, ap, Outcome-cases, ◌&&◌,
}
use libpinggy.Features.{SessionFeatures}
use libpinggy.Message.{
  Text, ProtoMsg, client_hello, server_hello, error_msg, authenticate, authentication_response,
  remote_forward_request, remote_forward_response, setup_channel, setup_channel_response,
  channel_data, channel_window_adjust, channel_close, channel_error, keep_alive,
  keep_alive_response, disconnect, warning_msg, usages, unknown_msg,
}
use libpinggy.Channel.State.{Channel, in_state, init as channel_init}
use libpinggy.Channel.{connect}
use libpinggy.Ids.{Search, found, full, unfinished, new_channel_id, first_channel_id}
use libpinggy.Ids.Fresh.{InCycle, Answer, fresh, none_left, new_channel_id-Answer}
use libpinggy.Session.State.{
  Session, SessionState, Answer as TransportAnswer, is_state, init, client_hello_sent,
  server_hello_sent, authentication_request_sent, authentication_request_recved,
  authenticated_as_client, authenticated_as_server, authentication_failed, failed,
}
use libpinggy.Session.Sending.{
  handle_connection_reset, flush_queue, handle_ready_to_send_buffer, offer, end_if, is_disconnect,
}
use libpinggy.Session.Table.{chan_id_exists, finish}
use libpinggy.Session.Dispatch.{handle_deserialized_msg, send_away, expect}
use libpinggy.Session.Api.{
  new_session, set_session_version, start, end, clean_up, authenticate_as_client,
  send_remote_forward_request, authentication_succeeded, authentication_refuse,
  accept_remote_forward_request, reject_remote_forward_request, send_keep_alive, create_channel,
  send_usages, send_error, set_enable_pinggy_value_mode, reset_incoming_activities, take_id,
  get_channel_new_id, connect_channel,
}
use libpinggy.Session.Keeps.{
  Keeps, Keeps-refl, Keeps-trans, cleanup_all-Keeps, reset-Keeps, offer_to-Keeps, send_away-Keeps,
  finish-Keeps,
}
use libpinggy.Session.Phases.{Follows, expected, handle_deserialized_msg-Follows, phase_after}

-- A public method, a message that arrives, a call of the transport, or a change in what the transport will say to the
-- messages to come (`meets`).
pub data Call : Type 0 where
  starts cleans_up keeps_alive resets_activities ready_to_send loses_connection : Call
  sets_version usage : ℕ → Call
  ends reports_error : Text → Call
  sets_value_mode : Bool → Call
  authenticates : (user arguments : Text) (advanced : Bool) → Call
  requests_forward : (port : ℕ) (bind : Text) (to_port : ℕ) (to_host : Text) (mode : ℕ) → Call
  admits refuses : (messages : List Text) (info : ℕ) (error : Text) → Call
  accepts_forward : (req_id forwarding_id : ℕ) (urls : List Text) (forwardings : List ℕ) → Call
  rejects_forward : (req_id : ℕ) (error : Text) → Call
  creates_channel :
      (port : ℕ) (host : Text) (src_port : ℕ) (src_host : Text) (chan_type forwarding_id : ℕ) → Call
  connects : (channel : ℕ) → Call
  gets : ProtoMsg → Call
  meets : List TransportAnswer → Call

unfoldable pub perform : Call → Session → Outcome Session
perform starts s = start s
perform cleans_up s = clean_up s
perform (meets answers) s = ok (record s { answers = answers })
perform keeps_alive s = send_keep_alive s >>= λ r. ok r.0
perform resets_activities s = ok (reset_incoming_activities s)
perform ready_to_send s = handle_ready_to_send_buffer s
perform loses_connection s = ok (handle_connection_reset s)
perform (sets_version v) s = ok (set_session_version v s)
perform (usage u) s = send_usages u s
perform (ends reason) s = end reason s
perform (reports_error what) s = send_error what s
perform (sets_value_mode b) s = ok (set_enable_pinggy_value_mode b s)
perform (authenticates user arguments b) s = authenticate_as_client user arguments b s
perform (requests_forward port bind to_port to_host mode) s =
    send_remote_forward_request port bind to_port to_host mode s >>= λ r. ok r.0
perform (admits messages info error) s = authentication_succeeded messages info s
perform (refuses messages info error) s = authentication_refuse error messages s
perform (accepts_forward r f urls fs) s = accept_remote_forward_request r f urls fs s
perform (rejects_forward r error) s = reject_remote_forward_request r error s
perform (creates_channel p h sp sh ty f) s = ok (create_channel p h sp sh ty f s).0
perform (connects h) s = connect_channel h s
perform (gets m) s = handle_deserialized_msg m s

unfoldable pub run : List Call → Session → Outcome Session
unfolding perform
run [] s = ok s
run (x ∷ xs) s = perform x s >>= λ t. run xs t

-- The phases of the two sides.
abbrev pub fits_side : SessionState → Bool → Bool
fits_side init server = true
fits_side failed server = true
fits_side client_hello_sent server = not server
fits_side authentication_request_sent server = not server
fits_side authenticated_as_client server = not server
fits_side authentication_failed server = not server
fits_side server_hello_sent server = server
fits_side authentication_request_recved server = server
fits_side authenticated_as_server server = server

-- The phase is one of the session's own side, and the last channel number is one that this side gives.
pub record IsConsistent (as_server : Bool) (s : Session) : Type 0 where
  pub mode : s.server_mode ≡ as_server
  pub side : fits_side s.state as_server ≡ true
  pub numbers : InCycle (first_channel_id as_server) s.last_channel_id
