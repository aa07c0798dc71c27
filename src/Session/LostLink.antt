-- ===== src/Session/LostLink.antt =====
-- src/protocol/Session.cc, `sendMsg` and `HandleReadyToSendBuffer`: a link that is lost while the last message is given to the transport.
use libpinggy.Prelude.{◌≡◌, true, false, List, [], ◌∷◌, aborted, arith}
use libpinggy.Message.{Text, ProtoMsg, disconnect}
use libpinggy.Session.State.{Session, Answer, reset}
use libpinggy.Session.Sending.{
  handle_connection_reset, offer_to, offer, end_if, send_first, send_msg, flush_queue,
  handle_ready_to_send_buffer,
}
use libpinggy.Session.Dispatch.{send_away}
use libpinggy.Session.Api.{end}

module _ (reason : Text) (more : List Answer) (s : Session) (lost : s.answers ≡ reset ∷ more) where
  -- If the transport finds the connection lost while `End` gives it the disconnect message, the
  -- process crashes: the reset handler has cleared the pointer to the transport through which
  -- `sendMsg` then ends it. No message waits, and no disconnect was sent before.
  pub end_crash :
      s.has_transport ≡ true → s.end_sent ≡ false → s.send_queue ≡ [] → end reason s ≡ aborted
  unfolding handle_connection_reset offer_to offer end_if send_first send_msg send_away end
  end_crash h f q = ground arith

  -- If the transport finds the connection lost while `HandleReadyToSendBuffer` gives it a disconnect
  -- message, the first that waits, the process crashes.
  pub flush_crash :
      (waiting : List ProtoMsg)
      → s.has_transport ≡ true
      → s.send_queue ≡ disconnect reason ∷ waiting
      → handle_ready_to_send_buffer s ≡ aborted
  unfolding handle_connection_reset offer_to offer end_if flush_queue handle_ready_to_send_buffer
  flush_crash waiting h q = ground arith
