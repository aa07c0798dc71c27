-- ===== src/Forwarder/Fair.antt =====
-- src/protocol/ChannelConnectionForwarder.cc with src/protocol/Channel.cc: the calls that the poller, the owner
-- and the session make on a forwarder return.
use libpinggy.Prelude.{
  ℕ, if◌then◌else◌, ◌<◌, ◌≡◌, refl, Bool, true, false, Bool-cases, not, ◌&&◌, ◌||◌, ltb, leb, List,
  [], ◌∷◌, ◌++◌, length, List-cases, Outcome, ◌>>=◌, ok, aborted, inl, inr, arith, Outcome-cases,
  concat,
}
use libpinggy.Features.{SessionFeatures}
use libpinggy.Message.{Text, SetupChannelResponseMsg}
use libpinggy.Channel.{connect, register_event_handler}
use libpinggy.Channel.State.{Step, Channel, connected, in_state, init}
use libpinggy.Channel.Handlers.{
  handle_new_channel_response, handle_channel_data, handle_channel_window_adjust,
  handle_channel_close, handle_channel_error, close_timeout_triggered, cleanup,
}
use libpinggy.Forwarder.State.{Forwarder, told, on_channel}
use libpinggy.Forwarder.{
  enable_copy_from_channel, disable_copy_from_channel, enable_copy_from_net_conn,
  disable_copy_from_net_conn, drop_net_conn, drop_counter, handle_fd_read, handle_fd_write,
  handle_fd_error, data_received, ready_to_send, rejected, accepted, cleaned_up, new_forwarder,
  start, start_channel,
}
use libpinggy.Forwarder.Bridge.{
  hear, session_calls, answered, Call, reads, writes, fails, response, data_arrives, window_adjusts,
  closes, errs, times_out, cleans_up, plays_from_channel, pauses_from_channel, plays_from_conn,
  pauses_from_conn, perform, arrived, run,
}
use libpinggy.Forwarder.Carries.{run-carries}
use libpinggy.Forwarder.Calm.{inbound, outbound, all_read}
use libpinggy.Forwarder.Safety.{
  IsSafe, SafeOk, StaysOk-SafeOk, enable_copy_from_channel-Stays, disable_copy_from_channel-Stays,
  enable_copy_from_net_conn-Stays, disable_copy_from_net_conn-Stays, close_by_net_conn-IsSafe,
}
use libpinggy.Forwarder.Copies.{fd_read_in-SafeOk, fd_write_in-SafeOk, reset_in_recv, reset_if-kept}

-- When a call is made at all, or is fair: the poller and the owner call while there is a connection; the peer
-- keeps to the window and announces packets that are not empty and fit in its window; and the session does not find its
-- connection lost at the message of the `Recv` in `HandleFDWrite`, or at that of a rejected channel, which is a crash.
abbrev pub fair : Call → Forwarder → Bool
fair (reads r lost) w = w.has_net_conn
fair (writes a lost) w = w.has_net_conn && not (reset_in_recv lost w)
fair (response msg lost) w =
    if msg.accept
    then ltb 0 msg.max_data_size && leb msg.max_data_size msg.initial_window_size
    else not lost
fair (data_arrives xs) w = leb (length xs) w.channel.local_window
fair plays_from_channel w = w.has_net_conn
fair pauses_from_channel w = w.has_net_conn
fair plays_from_conn w = w.has_net_conn
fair pauses_from_conn w = w.has_net_conn
fair k w = true

-- An answer in which no reset falls.
abbrev pub plain_response :
    SessionFeatures → SetupChannelResponseMsg → Forwarder → Outcome Forwarder
plain_response f msg w = handle_new_channel_response f msg w.channel >>= λ s. session_calls s w

response-quiet :
    (f : SessionFeatures) (msg : SetupChannelResponseMsg) (lost : Bool) (w : Forwarder)
    (s : Step (Unit {0}))
    → fair (response msg lost) w ≡ true
    → handle_new_channel_response f msg w.channel ≡ ok s
    → (lost && told s.effects) ≡ false
unfolding handle_new_channel_response
response-quiet f msg lost w s fair_answer e = elim (Bool-cases msg.accept) [
  | inl accepts ↦ ground arith
  | inr rejects ↦ ground arith
]

pub response-plain :
    (f : SessionFeatures) (msg : SetupChannelResponseMsg) (lost : Bool) (w : Forwarder)
    → fair (response msg lost) w ≡ true
    → perform f (response msg lost) w ≡ plain_response f msg w
unfolding perform answered session_calls
response-plain f msg lost w fair_answer =
    elim (Outcome-cases (handle_new_channel_response f msg w.channel)) [
      | inl crash ↦ ground (arith, crash)
      | inr (s, e) ↦
          let quiet = response-quiet f msg lost w s fair_answer e in
          let kept = reset_if-kept lost s.effects (on_channel s.channel s.effects w) quiet in
          rw (e, kept) refl
    ]

response-SafeOk :
    (f : SessionFeatures) (msg : SetupChannelResponseMsg) (w : Forwarder)
    → (not msg.accept || (ltb 0 msg.max_data_size && leb msg.max_data_size msg.initial_window_size))
      ≡ true
    → IsSafe w
    → SafeOk (plain_response f msg w)
unfolding session_calls hear handle_new_channel_response accepted ready_to_send rejected
    drop_net_conn SafeOk
response-SafeOk f msg w fair_answer h = elim (List-cases w.data_for_channel) [
  | inl quiet ↦ ground arith
  | inr (x, xs, some_data) ↦ ground arith
]

data_arrives-SafeOk :
    (f : SessionFeatures) (xs : List ℕ) (w : Forwarder)
    → fair (data_arrives xs) w ≡ true
    → IsSafe w
    → SafeOk (perform f (data_arrives xs) w)
unfolding perform session_calls hear handle_channel_data data_received SafeOk
data_arrives-SafeOk f xs w fits h = ground arith

window_adjusts-SafeOk :
    (n : ℕ) (w : Forwarder)
    → IsSafe w
    → SafeOk (session_calls (handle_channel_window_adjust n w.channel) w)
unfolding session_calls hear handle_channel_window_adjust ready_to_send SafeOk
window_adjusts-SafeOk n w h = elim (List-cases w.data_for_channel) [
  | inl quiet ↦ ground arith
  | inr (x, xs, some_data) ↦ ground arith
]

closes-SafeOk :
    (w : Forwarder) → IsSafe w → SafeOk (session_calls (handle_channel_close w.channel) w)
unfolding session_calls hear handle_channel_close data_received SafeOk
closes-SafeOk w h = ground arith

errs-SafeOk :
    (n : ℕ) (why : Text) (w : Forwarder)
    → IsSafe w
    → SafeOk (session_calls (handle_channel_error n why w.channel) w)
unfolding session_calls hear handle_channel_error SafeOk
errs-SafeOk n why w h = ground arith

times_out-SafeOk :
    (w : Forwarder) → IsSafe w → SafeOk (session_calls (close_timeout_triggered w.channel) w)
unfolding session_calls hear close_timeout_triggered SafeOk
times_out-SafeOk w h = ground arith

cleans_up-SafeOk : (w : Forwarder) → IsSafe w → SafeOk (session_calls (cleanup w.channel) w)
unfolding session_calls hear cleanup cleaned_up drop_net_conn drop_counter SafeOk
cleans_up-SafeOk w h = ground arith

perform-SafeOk :
    (f : SessionFeatures) (k : Call) (w : Forwarder)
    → fair k w ≡ true
    → IsSafe w
    → SafeOk (perform f k w)
unfolding perform
perform-SafeOk f (reads r lost) w there h =
    unfold handle_fd_read in fd_read_in-SafeOk f r lost w.data_for_channel w there h
perform-SafeOk f (writes a lost) w there h =
    unfold handle_fd_write in
    fd_write_in-SafeOk f a lost w.data_for_net_conn w refl (ground arith) (ground arith) h
perform-SafeOk f fails w fair_call h =
    unfold handle_fd_error SafeOk in close_by_net_conn-IsSafe f w h
perform-SafeOk f (response msg lost) w fair_answer h =
    rw (response-plain f msg lost w fair_answer) (response-SafeOk f msg w (ground arith) h)
perform-SafeOk f (data_arrives xs) w fits h = data_arrives-SafeOk f xs w fits h
perform-SafeOk f (window_adjusts n) w fair_call h = window_adjusts-SafeOk n w h
perform-SafeOk f closes w fair_call h = closes-SafeOk w h
perform-SafeOk f (errs n why) w fair_call h = errs-SafeOk n why w h
perform-SafeOk f times_out w fair_call h = times_out-SafeOk w h
perform-SafeOk f cleans_up w fair_call h = cleans_up-SafeOk w h
perform-SafeOk f plays_from_channel w there h =
    StaysOk-SafeOk w (enable_copy_from_channel w) (enable_copy_from_channel-Stays w there) h
perform-SafeOk f pauses_from_channel w there h =
    StaysOk-SafeOk w (disable_copy_from_channel w) (disable_copy_from_channel-Stays w there) h
perform-SafeOk f plays_from_conn w there h =
    StaysOk-SafeOk w (enable_copy_from_net_conn w) (enable_copy_from_net_conn-Stays w there) h
perform-SafeOk f pauses_from_conn w there h =
    StaysOk-SafeOk w (disable_copy_from_net_conn w) (disable_copy_from_net_conn-Stays w there) h

abbrev pub fair_then : (Forwarder → Bool) → Outcome Forwarder → Bool
fair_then rest aborted = true
fair_then rest (ok v) = rest v

-- Each call of a run is fair when it is made.
abbrev pub fair_run : SessionFeatures → List Call → Forwarder → Bool
fair_run f [] w = true
fair_run f (k ∷ ks) w = fair k w && fair_then (fair_run f ks) (perform f k w)

pub start-IsSafe :
    (f : SessionFeatures) (id : ℕ) (c : Channel) (counted : Bool)
    → in_state c.state (init ∷ connected ∷ []) ≡ true
    → 0 < c.remote_max_packet
    → IsSafe (start f id (new_forwarder c counted))
unfolding start start_channel new_forwarder connect register_event_handler
start-IsSafe f id c counted fresh p = ground arith

pub perform-returns :
    (f : SessionFeatures) (k : Call) (w : Forwarder)
    → fair k w ≡ true
    → IsSafe w
    → (v : Forwarder) × (perform f k w ≡ ok v) × IsSafe v
unfolding SafeOk
perform-returns f k w fair_call h =
    let safe = perform-SafeOk f k w fair_call h in
    elim (Outcome-cases (perform f k w)) [
      | inl crash ↦ absurd (rw crash at safe)
      | inr (v, e) ↦ (v, e, rw e at safe)
    ]

pub run-returns :
    (f : SessionFeatures) (ks : List Call) (w : Forwarder)
    → fair_run f ks w ≡ true
    → IsSafe w
    → (v : Forwarder) × (run f ks w ≡ ok v) × IsSafe v
unfolding run
run-returns f [] w fair_calls h = (w, refl, h)
run-returns f (k ∷ ks) w fair_calls h =
    let (v, e, safe) = perform-returns f k w (ground arith) h in
    let (u, e', safe') = run-returns f ks v (ground arith) safe in (u, rw e e', safe')

pub fair_run-carries :
    (f : SessionFeatures) (id : ℕ) (c : Channel) (counted : Bool) (ks : List Call)
    → in_state c.state (init ∷ connected ∷ []) ≡ true
    → 0 < c.remote_max_packet
    → fair_run f ks (start f id (new_forwarder c counted)) ≡ true
    → (v : Forwarder) × (run f ks (start f id (new_forwarder c counted)) ≡ ok v)
      × IsSafe v
      × (inbound v ≡ concat c.recv_queue ++ arrived f ks (start f id (new_forwarder c counted)))
      × (all_read v ≡ outbound v)
fair_run-carries f id c counted ks fresh p fair_calls =
    let safe = start-IsSafe f id c counted fresh p in
    let (v, e, safe') = run-returns f ks (start f id (new_forwarder c counted)) fair_calls safe in
    let (from_channel, to_channel) = run-carries f id c counted ks e in
    (v, e, safe', from_channel, to_channel)
