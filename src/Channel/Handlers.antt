-- ===== src/Channel/Handlers.antt =====
-- src/protocol/Channel.cc: what the session calls when a message for the channel arrives, and
-- `closeTimeoutTriggered`.
use libpinggy.Prelude.{
  ℕ, ◌+◌, ◌-◌, ◌^◌, Bool, true, false, ltb, leb, if◌then◌else◌, List, [], ◌∷◌, ◌++◌, length,
  Outcome, ok, aborted,
}
use libpinggy.Features.{SessionFeatures}
use libpinggy.Message.{Text, SetupChannelMsg, SetupChannelResponseMsg, channel_close}
use libpinggy.Channel.State.{
  ChannelState, connecting, connect_responding, connected, closing, close_responding, closed,
  rejected, in_state, initial_remote_window_size, u32, Channel, Event, Effect, Step,
  register_channel, deregister_channel, send_or_queue, notify, channel_data_received,
  channel_accepted, channel_cleanup, channel_ready_to_send, channel_error, channel_rejected,
}

abbrev pub done : Channel → List Effect → Step (Unit {0})
done c effects = record { channel = c; effects = effects; result = tt }

-- `if (ev) ev->…`
abbrev tell : Channel → List Event → List Effect
tell c [] = []
tell c (e ∷ es) = if c.has_handler then notify e ∷ tell c es else []

unfoldable pub cleanup : Channel → Step (Unit {0})
cleanup c = done (record c { has_handler = false }) (tell c (channel_cleanup ∷ []))

handle_accepted : Channel → SetupChannelResponseMsg → Outcome (Step (Unit {0}))
handle_accepted c msg =
    let sent = u32 (initial_remote_window_size + 2 ^ 32 - c.remote_window) in
    let window = msg.initial_window_size in
    if ltb window msg.max_data_size
    then aborted
    else (let window' = if leb sent window then window - sent else 0 in
        let c' = record c {
          remote_max_packet = msg.max_data_size;
          remote_window = window';
          state = connected;
          allow_write = true;
        } in
        ok (done c' (tell c (channel_accepted ∷ channel_ready_to_send window' ∷ []))))

handle_rejected : SessionFeatures → Channel → SetupChannelResponseMsg → Step (Unit {0})
handle_rejected f c msg =
    done (record c { state = rejected; has_handler = false })
      ((if f.fast_connect
          then send_or_queue (channel_close c.channel_id) c.has_handler ∷ []
          else [])
        ++ (tell c (channel_rejected msg.error ∷ []) ++ (deregister_channel ∷ [])))

unfoldable pub handle_new_channel_response :
    SessionFeatures → SetupChannelResponseMsg → Channel → Outcome (Step (Unit {0}))
unfolding handle_accepted handle_rejected
handle_new_channel_response f msg c =
    if in_state c.state (connecting ∷ [])
    then (if msg.accept then handle_accepted c msg else ok (handle_rejected f c msg))
    else ok (done c [])

-- The states in which data is taken.
abbrev pub takes_data : SessionFeatures → ChannelState → Bool
takes_data f s =
    if f.fast_connect
    then in_state s (connected ∷ closing ∷ connect_responding ∷ [])
    else in_state s (connected ∷ closing ∷ [])

unfoldable pub handle_channel_data : SessionFeatures → List ℕ → Channel → Outcome (Step (Unit {0}))
handle_channel_data f xs c =
    if takes_data f c.state
    then (if ltb c.local_window (length xs)
        then aborted
        else ok (
            done
              (record c {
                recv_queue = c.recv_queue ++ (xs ∷ []);
                local_window = c.local_window - length xs;
              })
              (tell c (channel_data_received ∷ []))))
    else ok (done c [])

unfoldable pub handle_channel_window_adjust : ℕ → Channel → Step (Unit {0})
handle_channel_window_adjust additional c =
    if in_state c.state (connected ∷ close_responding ∷ [])
    then (let window = u32 (c.remote_window + additional) in
        done (record c { remote_window = window }) (tell c (channel_ready_to_send window ∷ [])))
    else done c []

unfoldable pub handle_channel_close : Channel → Step (Unit {0})
handle_channel_close c =
    if in_state c.state (connected ∷ closing ∷ [])
    then (if in_state c.state (connected ∷ [])
        then done (record c { state = close_responding }) (tell c (channel_data_received ∷ []))
        else done (record c { state = closed }) (deregister_channel ∷ []))
    else done c []

unfoldable pub handle_channel_error : ℕ → Text → Channel → Step (Unit {0})
handle_channel_error error_no error c =
    done (record c { has_handler = false }) (tell c (channel_error error_no error ∷ []))

unfoldable pub initiate_incoming_channel :
    SessionFeatures → SetupChannelMsg → Channel → Outcome (Step (Unit {0}))
initiate_incoming_channel f msg c =
    if ltb msg.initial_window_size msg.max_data_size
    then aborted
    else ok (
        done
          (record c {
            remote_max_packet = msg.max_data_size;
            remote_window = msg.initial_window_size;
            channel_id = msg.channel_id;
            dest_host = msg.connect_to_host;
            dest_port = msg.connect_to_port;
            src_host = msg.src_host;
            src_port = msg.src_port;
            chan_type = msg.channel_type;
            forwarding_id = msg.forwarding_id;
            state = connect_responding;
          })
          (if f.fast_connect then register_channel ∷ [] else []))

unfoldable pub close_timeout_triggered : Channel → Step (Unit {0})
close_timeout_triggered c =
    if in_state c.state (closing ∷ [])
    then done (record c { state = closed }) (deregister_channel ∷ [])
    else done c []
