-- ===== src/Forwarder/Flow/Polls.antt =====
-- src/protocol/ChannelConnectionForwarder.cc: the forwarder's flags are what the poller watches for, by the calls
-- that it made on its connection.
use libpinggy.Prelude.{
  ℕ, suc, ◌≡◌, refl, Bool, true, false, not, ◌&&◌, ◌||◌, List, [], ◌∷◌, length, List-cases,
  Option-cases, Outcome, ok, aborted, some, none, inl, inr, ℤ, pos, negsuc, arith, Option,
  drop-length, Outcome-cases, ◌>>=◌, >>=-eq-ok,
}
use libpinggy.Features.{SessionFeatures}
use libpinggy.Channel.State.{
  Channel, Step, Effect, Event, notify, channel_data_received, channel_accepted, channel_cleanup,
  channel_ready_to_send, channel_error, channel_rejected, register_channel, deregister_channel,
  setup_close_timeout, send_msg, send_or_queue,
}
use libpinggy.Channel.Transfer.{send, send_pieces, recv}
use libpinggy.Channel.Handlers.{
  handle_new_channel_response, handle_channel_data, handle_channel_window_adjust,
  handle_channel_close, handle_channel_error, close_timeout_triggered, cleanup,
}
use libpinggy.Transport.State.{WriteResult, wrote, write_later, write_failed}
use libpinggy.Forwarder.State.{
  Forwarder, ReadResult, got, read_later, read_failed, has_read, on_conn, on_channel,
}
use libpinggy.Forwarder.{
  enable_copy_from_channel, disable_copy_from_channel, enable_copy_from_net_conn,
  disable_copy_from_net_conn, drop_net_conn, drop_counter, close_channel, close_by_net_conn,
  after_send, forward_pending, read_conn, fd_read_in, handle_fd_read, written_conn, write_conn,
  after_recv, fd_write_in, handle_fd_write, handle_fd_error, data_received, ready_to_send, rejected,
  accepted, cleaned_up, sixteen_kb, new_forwarder, start, start_channel, reset_if,
}
use libpinggy.Forwarder.Bridge.{
  hear, deliver, session_calls, answered, Call, reads, writes, fails, response, data_arrives,
  window_adjusts, closes, errs, times_out, cleans_up, plays_from_channel, pauses_from_channel,
  plays_from_conn, pauses_from_conn, perform, run,
}
use libpinggy.Forwarder.Flow.{has_bytes}

-- A flag of the forwarder is up only while the poller watches.
abbrev pub flags_polled : Forwarder → Bool
flags_polled w =
    not w.has_net_conn
    || ((not w.fd_recv_enabled || w.watch.for_read) && (not w.fd_send_enabled || w.watch.for_write))

-- And for pending bytes a dummy read was raised.
abbrev pub polled : Forwarder → Bool
polled w =
    flags_polled w
    && (not w.has_net_conn
        || (not w.fd_recv_enabled || (not (has_bytes w.data_for_channel) || w.watch.dummy_read)))

unfoldable pub PolledOk : Outcome Forwarder → Type 0
PolledOk aborted = Unit {0}
PolledOk (ok v) = polled v ≡ true

closed-polled : (f : SessionFeatures) (w : Forwarder) → (close_by_net_conn f w).has_net_conn ≡ false
unfolding close_by_net_conn drop_net_conn drop_counter close_channel
closed-polled f w = ground arith

reset_if-flags :
    (lost : Bool) (es : List Effect) (w : Forwarder)
    → flags_polled w ≡ true
    → (flags_polled (reset_if lost es w) ≡ true)
      × ((reset_if lost es w).data_for_channel ≡ w.data_for_channel)
unfolding reset_if cleaned_up drop_net_conn drop_counter
reset_if-flags lost es w h = ground arith

reset_if-polled :
    (lost : Bool) (es : List Effect) (w : Forwarder)
    → polled w ≡ true
    → polled (reset_if lost es w) ≡ true
unfolding reset_if cleaned_up drop_net_conn drop_counter
reset_if-polled lost es w h = ground arith

-- `Send` sends all of the data or fails.
AllOrNone : List ℕ → Option (Step ℤ) → Type 0
AllOrNone xs none = Unit {0}
AllOrNone xs (some s) = (n : ℕ) → s.result ≡ pos n → n ≡ length xs

send-AllOrNone : (fuel : ℕ) (c : Channel) (xs : List ℕ) → AllOrNone xs (send fuel c xs)
unfolding send AllOrNone
send-AllOrNone fuel c xs = elim (Option-cases (send_pieces fuel c.remote_max_packet xs)) [
  | inl stuck ↦ ground arith
  | inr (ps, e) ↦ ground arith
]

after_send-polled :
    (f : SessionFeatures) (n : ℤ) (u : Forwarder)
    → flags_polled u ≡ true
    → ((k : ℕ) → n ≡ pos k → k ≡ length u.data_for_channel)
    → PolledOk (after_send f n u)
unfolding after_send PolledOk
after_send-polled f (negsuc n) u h all = ground arith
after_send-polled f (pos n) u h all =
    ground (arith, closed-polled f u, all n refl, drop-length n u.data_for_channel)

forward_pending-polled :
    (f : SessionFeatures) (lost : Bool) (w : Forwarder)
    → flags_polled w ≡ true
    → PolledOk (forward_pending f lost w)
unfolding forward_pending PolledOk
forward_pending-polled f lost w h =
    let xs : List ℕ = w.data_for_channel in
    elim (Option-cases (send (suc (length xs)) w.channel xs)) [
      | inl endless ↦ ground arith
      | inr (s, sent) ↦
          let u : Forwarder = on_channel s.channel s.effects w in
          let (flags, same) = reset_if-flags lost s.effects u h in
          let all : AllOrNone xs (some s) =
            rw sent at (send-AllOrNone (suc (length xs)) w.channel xs) in
          let done : PolledOk (after_send f s.result (reset_if lost s.effects u)) =
            after_send-polled f s.result (reset_if lost s.effects u) flags
              (rw same (unfold AllOrNone in all)) in
          ground (arith, done)
    ]

read_conn-polled :
    (f : SessionFeatures) (r : ReadResult) (lost : Bool) (w : Forwarder)
    → polled w ≡ true
    → PolledOk (read_conn f r lost w)
unfolding read_conn PolledOk
read_conn-polled f read_later lost w h = h
read_conn-polled f read_failed lost w h = ground (arith, closed-polled f w)
read_conn-polled f (got x xs) lost w h =
    forward_pending-polled f lost
      (record (on_conn (has_read (x ∷ xs)) w) { data_for_channel = x ∷ xs }) (ground arith)

fd_read_in-polled :
    (f : SessionFeatures) (r : ReadResult) (lost : Bool) (xs : List ℕ) (w : Forwarder)
    → polled w ≡ true
    → PolledOk (fd_read_in f r lost xs w)
unfolding fd_read_in PolledOk
fd_read_in-polled f r lost [] w h = ground (arith, read_conn-polled f r lost w h)
fd_read_in-polled f r lost (x ∷ xs) w h = forward_pending-polled f lost w (ground arith)

write_conn-polled :
    (f : SessionFeatures) (a : WriteResult) (w : Forwarder)
    → polled w ≡ true
    → PolledOk (write_conn f a w)
unfolding write_conn written_conn PolledOk
write_conn-polled f write_later w h = ground arith
write_conn-polled f write_failed w h = ground (arith, closed-polled f w)
write_conn-polled f (wrote n) w h = ground arith

after_recv-polled :
    (f : SessionFeatures) (a : WriteResult) (r : ℤ × Option (List ℕ)) (w : Forwarder)
    → polled w ≡ true
    → PolledOk (after_recv f a r w)
unfolding after_recv PolledOk
after_recv-polled f a (pos n, some xs) w h =
    ground (arith, closed-polled f w, write_conn-polled f a (record w { data_for_net_conn = xs }) h)
after_recv-polled f a (pos n, none) w h =
    ground (arith, closed-polled f w, write_conn-polled f a w h)
after_recv-polled f a (negsuc n, xs) w h = ground arith

fd_write_in-polled :
    (f : SessionFeatures) (a : WriteResult) (lost : Bool) (xs : List ℕ) (w : Forwarder)
    → polled w ≡ true
    → PolledOk (fd_write_in f a lost xs w)
unfolding fd_write_in PolledOk
fd_write_in-polled f a lost (x ∷ xs) w h = write_conn-polled f a w h
fd_write_in-polled f a lost [] w h =
    let s : Step (ℤ × Option (List ℕ)) = recv w.channel sixteen_kb in
    let u : Forwarder = on_channel s.channel s.effects w in
    let done : PolledOk (after_recv f a s.result (reset_if lost s.effects u)) =
      after_recv-polled f a s.result (reset_if lost s.effects u)
        (reset_if-polled lost s.effects u h) in
    ground (arith, done)

-- The forwarder as the channel's handler.
pending-polled :
    (w : Forwarder)
    → polled w ≡ true
    → PolledOk (enable_copy_from_net_conn w) × PolledOk (accepted w)
unfolding enable_copy_from_net_conn accepted PolledOk
pending-polled w h = elim (List-cases w.data_for_channel) [
  | inl quiet ↦ (ground arith, ground arith)
  | inr (x, xs, some_data) ↦ (ground arith, ground arith)
]

ready_to_send-polled : (n : ℕ) (w : Forwarder) → polled w ≡ true → PolledOk (ready_to_send n w)
unfolding ready_to_send PolledOk
ready_to_send-polled n w h = elim (List-cases w.data_for_channel) [
  | inl quiet ↦ ground arith
  | inr (x, xs, some_data) ↦ ground arith
]

hear-polled : (e : Event) (w : Forwarder) → polled w ≡ true → PolledOk (hear e w)
unfolding hear PolledOk
hear-polled channel_data_received w h = unfold data_received in ground arith
hear-polled channel_accepted w h = (pending-polled w h).1
hear-polled channel_cleanup w h = unfold cleaned_up drop_net_conn drop_counter in ground arith
hear-polled (channel_ready_to_send n) w h = ready_to_send-polled n w h
hear-polled (channel_error n why) w h = h
hear-polled (channel_rejected why) w h = unfold rejected drop_net_conn in ground arith

deliver-polled : (es : List Effect) (w : Forwarder) → polled w ≡ true → PolledOk (deliver es w)
unfolding PolledOk
deliver-polled [] w h = h
deliver-polled (notify e ∷ es) w h = elim (Outcome-cases (hear e w)) [
  | inl crash ↦ rw crash tt
  | inr (v, heard) ↦
      let still : polled v ≡ true = rw heard at (hear-polled e w h) in
      rw heard (deliver-polled es v still)
]
deliver-polled (register_channel ∷ es) w h = deliver-polled es w h
deliver-polled (deregister_channel ∷ es) w h = deliver-polled es w h
deliver-polled (setup_close_timeout ∷ es) w h = deliver-polled es w h
deliver-polled (send_msg m ∷ es) w h = deliver-polled es w h
deliver-polled (send_or_queue m b ∷ es) w h = deliver-polled es w h

session_calls-polled :
    (s : Step (Unit {0})) (w : Forwarder) → polled w ≡ true → PolledOk (session_calls s w)
unfolding session_calls
session_calls-polled s w h = deliver-polled s.effects (on_channel s.channel s.effects w) h

handled-polled :
    (o : Outcome (Step (Unit {0}))) (g : Step (Unit {0}) → Outcome Forwarder)
    → ((s : Step (Unit {0})) → PolledOk (g s))
    → PolledOk (o >>= g)
unfolding PolledOk
handled-polled aborted g each = tt
handled-polled (ok s) g each = each s

pub perform-polled :
    (f : SessionFeatures) (k : Call) (w : Forwarder) → polled w ≡ true → PolledOk (perform f k w)
unfolding perform
perform-polled f (reads r lost) w h =
    unfold handle_fd_read in fd_read_in-polled f r lost w.data_for_channel w h
perform-polled f (writes a lost) w h =
    unfold handle_fd_write in fd_write_in-polled f a lost w.data_for_net_conn w h
perform-polled f fails w h = unfold handle_fd_error PolledOk in ground (arith, closed-polled f w)
perform-polled f (response msg lost) w h =
    handled-polled (handle_new_channel_response f msg w.channel) (λ s. answered lost s w)
      (λ s.
        unfold answered in
        deliver-polled s.effects _
          (reset_if-polled lost s.effects (on_channel s.channel s.effects w) h))
perform-polled f (data_arrives xs) w h =
    handled-polled (handle_channel_data f xs w.channel) (λ s. session_calls s w)
      (λ s. session_calls-polled s w h)
perform-polled f (window_adjusts n) w h =
    session_calls-polled (handle_channel_window_adjust n w.channel) w h
perform-polled f closes w h = session_calls-polled (handle_channel_close w.channel) w h
perform-polled f (errs n why) w h = session_calls-polled (handle_channel_error n why w.channel) w h
perform-polled f times_out w h = session_calls-polled (close_timeout_triggered w.channel) w h
perform-polled f cleans_up w h = session_calls-polled (cleanup w.channel) w h
perform-polled f plays_from_channel w h = unfold enable_copy_from_channel PolledOk in ground arith
perform-polled f pauses_from_channel w h = unfold disable_copy_from_channel PolledOk in ground arith
perform-polled f plays_from_conn w h = (pending-polled w h).0
perform-polled f pauses_from_conn w h = unfold disable_copy_from_net_conn PolledOk in ground arith

start-polled :
    (f : SessionFeatures) (id : ℕ) (c : Channel) (counted : Bool)
    → polled (start f id (new_forwarder c counted)) ≡ true
unfolding start start_channel new_forwarder
start-polled f id c counted = ground arith

run-polled :
    (f : SessionFeatures) (ks : List Call) (w : Forwarder) {v : Forwarder}
    → polled w ≡ true
    → run f ks w ≡ ok v
    → polled v ≡ true
unfolding run PolledOk
run-polled f [] w h e = ground arith
run-polled f (k ∷ ks) w h e =
    let (v, first, rest) = >>=-eq-ok (perform f k w) (λ v. run f ks v) e in
    run-polled f ks v (rw first at (perform-polled f k w h)) rest

pub started-polled :
    (f : SessionFeatures) (id : ℕ) (c : Channel) (counted : Bool) (ks : List Call) {v : Forwarder}
    → run f ks (start f id (new_forwarder c counted)) ≡ ok v
    → polled v ≡ true
started-polled f id c counted ks e =
    run-polled f ks (start f id (new_forwarder c counted)) (start-polled f id c counted) e
