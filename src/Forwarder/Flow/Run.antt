-- ===== src/Forwarder/Flow/Run.antt =====
-- src/protocol/ChannelConnectionForwarder.cc with src/protocol/Channel.cc: what the session calls keeps the copying
-- going, and so does a run.
use libpinggy.Prelude.{
  ℕ, ◌<◌, ◌≡◌, refl, Bool, true, not, ◌&&◌, ◌||◌, ltb, List, [], ◌∷◌, length, List-cases,
  Bool-cases, ok, inl, inr, arith,
}
use libpinggy.Features.{SessionFeatures}
use libpinggy.Message.{Text, SetupChannelResponseMsg}
use libpinggy.Channel.{connect, register_event_handler}
use libpinggy.Channel.State.{Channel, connected, in_state, init}
use libpinggy.Channel.Transfer.{have_data_to_read}
use libpinggy.Channel.Handlers.{
  handle_new_channel_response, handle_channel_data, handle_channel_window_adjust,
  handle_channel_close, handle_channel_error, close_timeout_triggered, cleanup,
}
use libpinggy.Forwarder.State.{Forwarder, too_long}
use libpinggy.Forwarder.{
  drop_net_conn, drop_counter, handle_fd_read, handle_fd_write, handle_fd_error, data_received,
  ready_to_send, rejected, accepted, cleaned_up, new_forwarder, start, start_channel,
}
use libpinggy.Forwarder.Bridge.{
  hear, session_calls, Call, reads, writes, fails, response, data_arrives, window_adjusts, closes,
  errs, times_out, cleans_up, plays_from_channel, pauses_from_channel, plays_from_conn,
  pauses_from_conn, perform, run,
}
use libpinggy.Forwarder.Safety.{IsSafe}
use libpinggy.Forwarder.Fair.{
  fair, plain_response, response-plain, fair_run, start-IsSafe, perform-returns,
}
use libpinggy.Forwarder.Flow.{
  has_bytes, net_flows, channel_flows, Flows, FlowsOk, close_by_net_conn-Flows,
  plays_from_channel-Flows, pauses_from_channel-Flows, plays_from_conn-Flows,
  pauses_from_conn-Flows,
}
use libpinggy.Forwarder.Flow.Polls.{polled, started-polled}
use libpinggy.Forwarder.Flow.Copies.{reads-Flows, writes-Flows}

response-Flows :
    (f : SessionFeatures) (msg : SetupChannelResponseMsg) (w : Forwarder)
    → IsSafe w
    → Flows w
    → FlowsOk (plain_response f msg w)
unfolding session_calls hear handle_new_channel_response accepted ready_to_send rejected
    drop_net_conn have_data_to_read FlowsOk
response-Flows f msg w safe h = elim (Bool-cases msg.accept) [
  | inl accepts ↦ elim (Bool-cases w.channel.has_handler) [
    | inl told ↦ elim (List-cases w.data_for_channel) [
      | inl quiet ↦ ground arith
      | inr (x, xs, some_data) ↦ ground arith
    ]
    | inr untold ↦ ground arith
  ]
  | inr rejects ↦ ground arith
]

data_arrives-Flows :
    (f : SessionFeatures) (xs : List ℕ) (w : Forwarder)
    → IsSafe w
    → Flows w
    → FlowsOk (perform f (data_arrives xs) w)
unfolding perform session_calls hear handle_channel_data data_received have_data_to_read FlowsOk
data_arrives-Flows f xs w safe h = ground arith

window_adjusts-Flows :
    (n : ℕ) (w : Forwarder)
    → IsSafe w
    → Flows w
    → FlowsOk (session_calls (handle_channel_window_adjust n w.channel) w)
unfolding session_calls hear handle_channel_window_adjust ready_to_send have_data_to_read FlowsOk
window_adjusts-Flows n w safe h = elim (Bool-cases w.channel.has_handler) [
  | inl told ↦ elim (List-cases w.data_for_channel) [
    | inl quiet ↦ ground arith
    | inr (x, xs, some_data) ↦ ground arith
  ]
  | inr untold ↦ ground arith
]

closes-Flows :
    (w : Forwarder)
    → IsSafe w
    → Flows w
    → FlowsOk (session_calls (handle_channel_close w.channel) w)
unfolding session_calls hear handle_channel_close data_received have_data_to_read FlowsOk
closes-Flows w safe h = ground arith

errs-Flows :
    (n : ℕ) (why : Text) (w : Forwarder)
    → Flows w
    → FlowsOk (session_calls (handle_channel_error n why w.channel) w)
unfolding session_calls hear handle_channel_error FlowsOk
errs-Flows n why w h = ground arith

times_out-Flows :
    (w : Forwarder)
    → IsSafe w
    → Flows w
    → FlowsOk (session_calls (close_timeout_triggered w.channel) w)
unfolding session_calls hear close_timeout_triggered have_data_to_read FlowsOk
times_out-Flows w safe h = ground arith

cleans_up-Flows : (w : Forwarder) → Flows w → FlowsOk (session_calls (cleanup w.channel) w)
unfolding session_calls hear cleanup cleaned_up drop_net_conn drop_counter FlowsOk
cleans_up-Flows w h = ground arith

perform-FlowsOk :
    (f : SessionFeatures) (k : Call) (w : Forwarder)
    → fair k w ≡ true
    → IsSafe w
    → Flows w
    → FlowsOk (perform f k w)
unfolding perform
perform-FlowsOk f (reads r lost) w fair_call safe h =
    unfold handle_fd_read in reads-Flows f r lost w.data_for_channel w refl h
perform-FlowsOk f (writes a lost) w fair_call safe h =
    unfold handle_fd_write in writes-Flows f a lost w.data_for_net_conn w refl safe h
perform-FlowsOk f fails w fair_call safe h =
    unfold handle_fd_error FlowsOk in close_by_net_conn-Flows f w h.before
perform-FlowsOk f (response msg lost) w fair_call safe h =
    rw (response-plain f msg lost w fair_call) (response-Flows f msg w safe h)
perform-FlowsOk f (data_arrives xs) w fair_call safe h = data_arrives-Flows f xs w safe h
perform-FlowsOk f (window_adjusts n) w fair_call safe h = window_adjusts-Flows n w safe h
perform-FlowsOk f closes w fair_call safe h = closes-Flows w safe h
perform-FlowsOk f (errs n why) w fair_call safe h = errs-Flows n why w h
perform-FlowsOk f times_out w fair_call safe h = times_out-Flows w safe h
perform-FlowsOk f cleans_up w fair_call safe h = cleans_up-Flows w h
perform-FlowsOk f plays_from_channel w fair_call safe h = plays_from_channel-Flows w h
perform-FlowsOk f pauses_from_channel w fair_call safe h = pauses_from_channel-Flows w h
perform-FlowsOk f plays_from_conn w fair_call safe h = plays_from_conn-Flows w h
perform-FlowsOk f pauses_from_conn w fair_call safe h = pauses_from_conn-Flows w h

start-Flows :
    (f : SessionFeatures) (id : ℕ) (c : Channel) (counted : Bool)
    → in_state c.state (init ∷ connected ∷ []) ≡ true
    → (not (in_state c.state (init ∷ [])) || not (ltb 0 (length c.recv_queue))) ≡ true
    → Flows (start f id (new_forwarder c counted))
unfolding start start_channel new_forwarder connect register_event_handler have_data_to_read
start-Flows f id c counted fresh empty = ground arith

run-Flows :
    (f : SessionFeatures) (ks : List Call) (w : Forwarder) {v : Forwarder}
    → fair_run f ks w ≡ true
    → IsSafe w
    → Flows w
    → run f ks w ≡ ok v
    → Flows v
unfolding run FlowsOk
run-Flows f [] w fair_calls safe h e = ground arith
run-Flows f (k ∷ ks) w fair_calls safe h e =
    let (v, first, safe') = perform-returns f k w (ground arith) safe in
    let flows : FlowsOk (perform f k w) = perform-FlowsOk f k w (ground arith) safe h in
    run-Flows f ks v (ground arith) safe' (rw first at flows) (rw first at e)

-- From the connection: the poller watches for bytes to read, and was given a dummy read for those that are pending, or
-- the peer's window does not hold these.
abbrev pub net_watched : Forwarder → Bool
net_watched w =
    not (
      w.has_net_conn
      && (w.allow_copy_from_net_conn && (w.channel.allow_write && w.channel.has_handler)))
    || ((w.watch.for_read && (not (has_bytes w.data_for_channel) || w.watch.dummy_read))
        || (has_bytes w.data_for_channel
            && too_long w.channel.remote_window (length w.data_for_channel)))

-- From the channel: the poller watches for the connection to take bytes, or there are none.
abbrev pub channel_watched : Forwarder → Bool
channel_watched w =
    not (w.has_net_conn && (w.allow_copy_from_channel && w.channel.has_handler))
    || (w.watch.for_write || not (has_bytes w.data_for_net_conn || have_data_to_read w.channel))

watched-from :
    (w : Forwarder)
    → net_flows w ≡ true
    → channel_flows w ≡ true
    → polled w ≡ true
    → (net_watched w ≡ true) × (channel_watched w ≡ true)
watched-from w n c p = (ground arith, ground arith)

-- A forwarder is started around a channel that is connected, or new with nothing in its queue, and then called in any
-- order, each call fair when it is made. Whenever it may copy from the connection to a channel that may be written and
-- has it as its handler, then by the calls that it made on the connection the poller watches for bytes to read, and was
-- given a dummy read for pending bytes since reading was last turned off; or bytes are pending that the peer's window
-- does not hold (a window of 2^31 or more holds none). And whenever it may copy from such a channel to the connection,
-- by the same calls the poller watches for the connection to take bytes, unless there is nothing to be written and nothing
-- to be read from the channel.
pub fair_run-flows :
    (f : SessionFeatures) (id : ℕ) (c : Channel) (counted : Bool) (ks : List Call) {v : Forwarder}
    → in_state c.state (init ∷ connected ∷ []) ≡ true
    → (not (in_state c.state (init ∷ [])) || not (ltb 0 (length c.recv_queue))) ≡ true
    → 0 < c.remote_max_packet
    → fair_run f ks (start f id (new_forwarder c counted)) ≡ true
    → run f ks (start f id (new_forwarder c counted)) ≡ ok v
    → (net_watched v ≡ true) × (channel_watched v ≡ true)
fair_run-flows f id c counted ks {v} fresh empty p fair_calls e =
    let h =
      run-Flows f ks (start f id (new_forwarder c counted)) fair_calls
        (start-IsSafe f id c counted fresh p) (start-Flows f id c counted fresh empty) e in
    watched-from v h.to_channel h.to_conn (started-polled f id c counted ks e)
