-- ===== src/Session/Phases.antt =====
-- The phases of a session: `tSessionState`, and which calls move it.
use libpinggy.Prelude.{
  ◌≡◌, Bool, true, false, if◌then◌else◌, arith, ok, aborted, ◌≢◌, inl, inr, Outcome-cases, refl,
}
use libpinggy.Session.Sending.{is_disconnect, send_msg, end_if}
use libpinggy.Message.{
  ProtoMsg, client_hello, server_hello, error_msg, authenticate, authentication_response,
  remote_forward_request, remote_forward_response, setup_channel, setup_channel_response,
  channel_data, channel_window_adjust, channel_close, channel_error, keep_alive,
  keep_alive_response, disconnect, warning_msg, usages, unknown_msg,
}
use libpinggy.Channel.Handlers.{
  handle_new_channel_response, handle_channel_data, handle_channel_window_adjust,
  handle_channel_close,
}
use libpinggy.Session.State.{
  Session, SessionState, client_hello_sent, server_hello_sent, authentication_request_sent,
  authentication_request_recved, authenticated_as_client, authenticated_as_server,
  authentication_failed,
}
use libpinggy.Session.Dispatch.{
  call_handler, send_away, handle_remote_forward_response, dispatch, handle_deserialized_msg,
}
use libpinggy.Session.Keeps.{
  send_away-Keeps, on_channel-Keeps, channel_error-Keeps, new_channel-Keeps,
}

-- The messages that a session expects in each phase. The others end the process.
abbrev pub expected : ProtoMsg → SessionState → Bool
expected (server_hello version) client_hello_sent = true
expected (server_hello version) p = false
expected (client_hello version) server_hello_sent = true
expected (client_hello version) p = false
expected (authenticate user arguments advanced) server_hello_sent = true
expected (authenticate user arguments advanced) p = false
expected (authentication_response success error messages info) authentication_request_sent = true
expected (authentication_response success error messages info) p = false
expected (remote_forward_request req port bind to host mode) authenticated_as_server = true
expected (remote_forward_request req port bind to host mode) p = false
expected (remote_forward_response req id success urls others error) authenticated_as_client = true
expected (remote_forward_response req id success urls others error) p = false
expected (channel_error id n why) p = true
expected (error_msg n what recoverable) p = true
expected (warning_msg n what) p = true
expected (keep_alive tick) p = true
expected (keep_alive_response tick) p = true
expected (disconnect reason) p = true
expected (usages usage) p = true
expected (unknown_msg n) p = false
expected m authenticated_as_client = true
expected m authenticated_as_server = true
expected m p = false

-- The phase after an expected message.
abbrev pub phase_after : ProtoMsg → SessionState → SessionState
phase_after (authenticate user arguments advanced) p = authentication_request_recved
phase_after (authentication_response success error messages info) p =
    if success then authenticated_as_client else authentication_failed
phase_after m p = p

-- What a dispatch that returns says of its message, and does to the phase.
pub record Follows (m : ProtoMsg) (s t : Session) : Type 0 where
  pub legal : expected m s.state ≡ true
  pub phase : t.state ≡ phase_after m s.state
  pub mode : t.server_mode ≡ s.server_mode
  pub last_id : t.last_channel_id ≡ s.last_channel_id

dispatch-Follows : (m : ProtoMsg) (s : Session) {t : Session} → dispatch m s ≡ ok t → Follows m s t
unfolding dispatch call_handler handle_remote_forward_response
dispatch-Follows (server_hello v) s {t} e = ground arith
dispatch-Follows (client_hello v) s {t} e = ground arith
dispatch-Follows (authenticate u a b) s {t} e = ground arith
dispatch-Follows (authentication_response b w ms i) s {t} e = ground arith
dispatch-Follows (remote_forward_request r p b q h m) s {t} e = ground arith
dispatch-Follows (remote_forward_response r i b us fs w) s {t} e = ground arith
dispatch-Follows (setup_channel msg) s {t} e = ground (arith, new_channel-Keeps msg s {t = t})
dispatch-Follows (setup_channel_response msg) s {t} e =
    ground (
      arith,
      on_channel-Keeps msg.channel_id (handle_new_channel_response s.features msg) s {t = t},
    )
dispatch-Follows (channel_data id xs) s {t} e =
    ground (arith, on_channel-Keeps id (handle_channel_data s.features xs) s {t = t})
dispatch-Follows (channel_window_adjust id n) s {t} e =
    ground (arith, on_channel-Keeps id (λ c. ok (handle_channel_window_adjust n c)) s {t = t})
dispatch-Follows (channel_close id) s {t} e =
    ground (arith, on_channel-Keeps id (λ c. ok (handle_channel_close c)) s {t = t})
dispatch-Follows (channel_error id n w) s {t} e =
    ground (arith, channel_error-Keeps id n w s {t = t})
dispatch-Follows (error_msg n w b) s {t} e = ground arith
dispatch-Follows (warning_msg n w) s {t} e = ground arith
dispatch-Follows (keep_alive n) s {t} e =
    ground (arith, send_away-Keeps (keep_alive_response n) s {t = t})
dispatch-Follows (keep_alive_response n) s {t} e = ground arith
dispatch-Follows (disconnect w) s {t} e = ground arith
dispatch-Follows (usages u) s {t} e = ground arith
dispatch-Follows (unknown_msg n) s {t} e = ground arith

-- A message from the peer whose handling returns was expected in the session's phase, moves the phase
-- as the protocol says and in no other way, and keeps the session's side and the last channel number.
pub handle_deserialized_msg-Follows :
    (m : ProtoMsg) (s t : Session) → handle_deserialized_msg m s ≡ ok t → Follows m s t
unfolding handle_deserialized_msg
handle_deserialized_msg-Follows m s t e =
    let busy : Session = record s { incoming_activities = true } in
    ground (arith, dispatch-Follows m busy {t = t} e)

-- The messages that are not for a channel.
abbrev for_session : ProtoMsg → Bool
for_session (setup_channel msg) = false
for_session (setup_channel_response msg) = false
for_session (channel_data id xs) = false
for_session (channel_window_adjust id n) = false
for_session (channel_close id) = false
for_session (channel_error id n why) = false
for_session m = true

-- A message that is no disconnect never crashes `sendMsg`.
send_away_returns :
    (m : ProtoMsg) (s : Session) → is_disconnect m ≡ false → (t : Session) × (send_away m s ≡ ok t)
unfolding send_away send_msg end_if
send_away_returns m s h = elim (Outcome-cases (send_away m s)) [
  | inl crash ↦ absurd (ground arith)
  | inr r ↦ r
]

dispatch_returns :
    (m : ProtoMsg) (s : Session)
    → for_session m ≡ true
    → expected m s.state ≡ true
    → s.has_handler ≡ true
    → dispatch m s ≢ aborted
unfolding dispatch call_handler handle_remote_forward_response
dispatch_returns (server_hello v) s h x e = ground arith
dispatch_returns (client_hello v) s h x e = ground arith
dispatch_returns (authenticate u a b) s h x e = ground arith
dispatch_returns (authentication_response b w ms i) s h x e = ground arith
dispatch_returns (remote_forward_request r p b q w m) s h x e = ground arith
dispatch_returns (remote_forward_response r i b us fs w) s h x e = ground arith
dispatch_returns (setup_channel msg) s h x e = absurd (ground arith)
dispatch_returns (setup_channel_response msg) s h x e = absurd (ground arith)
dispatch_returns (channel_data id xs) s h x e = absurd (ground arith)
dispatch_returns (channel_window_adjust id n) s h x e = absurd (ground arith)
dispatch_returns (channel_close id) s h x e = absurd (ground arith)
dispatch_returns (channel_error id n w) s h x e = absurd (ground arith)
dispatch_returns (error_msg n w b) s h x e = ground arith
dispatch_returns (warning_msg n w) s h x e = ground arith
dispatch_returns (keep_alive n) s h x e =
    ground (arith, send_away_returns (keep_alive_response n) s refl)
dispatch_returns (keep_alive_response n) s h x e = ground arith
dispatch_returns (disconnect w) s h x e = ground arith
dispatch_returns (usages u) s h x e = ground arith
dispatch_returns (unknown_msg n) s h x e = absurd (ground arith)

-- A session with an event handler handles every expected message that is not for a channel: the
-- handling returns, in the phase that the protocol says.
pub expected_returns :
    (m : ProtoMsg) (s : Session)
    → for_session m ≡ true
    → expected m s.state ≡ true
    → s.has_handler ≡ true
    → (t : Session) × (handle_deserialized_msg m s ≡ ok t) × Follows m s t
expected_returns m s h x e = elim (Outcome-cases (handle_deserialized_msg m s)) [
  | inl crash ↦
      unfold handle_deserialized_msg in
      absurd (dispatch_returns m (record s { incoming_activities = true }) h x e crash)
  | inr (t, r) ↦ (t, r, handle_deserialized_msg-Follows m s t r)
]
