-- ===== src/Forwarder/Carries.antt =====
-- src/protocol/ChannelConnectionForwarder.cc: the bytes of a whole run between the connection and the
-- channel.
use libpinggy.Prelude.{
  ℕ, ◌≡◌, refl, List, [], ◌∷◌, ◌++◌, append-nil, append_assoc, concat, Bool, true, false, Outcome,
  ok, aborted, arith, >>=-eq-ok, if◌then◌else◌,
}
use libpinggy.Features.{SessionFeatures}
use libpinggy.Channel.{register_event_handler}
use libpinggy.Channel.State.{
  Channel, Effect, Event, Step, notify, channel_data_received, channel_accepted, channel_cleanup,
  channel_ready_to_send, channel_error, channel_rejected, register_channel, deregister_channel,
  setup_close_timeout, send_msg, send_or_queue,
}
use libpinggy.Channel.Handlers.{
  handle_new_channel_response, handle_channel_data, takes_data, handle_channel_window_adjust,
  handle_channel_close, handle_channel_error, close_timeout_triggered, cleanup,
}
use libpinggy.Forwarder.State.{
  Forwarder, ReadResult, got, read_later, read_failed, has_read, on_conn, on_channel,
}
use libpinggy.Forwarder.{
  new_forwarder, start_channel, start, read_conn, fd_read_in, handle_fd_read, reset_if,
}
use libpinggy.Forwarder.Bridge.{
  hear, deliver, session_calls, answered, Call, reads, writes, fails, response, data_arrives,
  window_adjusts, closes, errs, times_out, cleans_up, plays_from_channel, pauses_from_channel,
  plays_from_conn, pauses_from_conn, perform, run, arrived_in, arrived,
}
use libpinggy.Forwarder.Streams.{
  sent_bytes, sent_bytes-append, Still, connect-Still, response-Still, window_adjust-Still,
  channel_close-Still, channel_error-Still, timeout-Still, cleanup-Still, Arrives,
  channel_data-Arrives,
}
use libpinggy.Forwarder.Calm.{
  written_bytes, read_bytes-append, written_bytes-append, inbound, outbound, all_read, Calm,
  Calm-trans, enable_copy_from_channel-Calm, disable_copy_from_channel-Calm,
  enable_copy_from_net_conn-Calm, disable_copy_from_net_conn-Calm, data_received-Calm,
  ready_to_send-Calm, rejected-Calm, accepted-Calm, cleaned_up-Calm, close_by_net_conn-Calm,
  reset_if-Alike, Alike-Calm,
}
use libpinggy.Forwarder.Calm.Copies.{
  forward_pending-Calm, handle_fd_write-Calm, handle_fd_error-Calm,
}

hear-Calm : (e : Event) (w : Forwarder) {v : Forwarder} → hear e w ≡ ok v → Calm w v
unfolding hear
hear-Calm channel_data_received w e = data_received-Calm w e
hear-Calm channel_accepted w e = accepted-Calm w e
hear-Calm channel_cleanup w e = ground (arith, cleaned_up-Calm w)
hear-Calm (channel_ready_to_send n) w e = ready_to_send-Calm n w e
hear-Calm (channel_error n why) w e = ground arith
hear-Calm (channel_rejected why) w e = rejected-Calm why w e

deliver-Calm : (es : List Effect) (w : Forwarder) {v : Forwarder} → deliver es w ≡ ok v → Calm w v
deliver-Calm [] w e = ground arith
deliver-Calm (notify k ∷ es) w e =
    let (v, first, rest) = >>=-eq-ok (hear k w) (deliver es) e in
    Calm-trans (hear-Calm k w first) (deliver-Calm es v rest)
deliver-Calm (register_channel ∷ es) w e = deliver-Calm es w e
deliver-Calm (deregister_channel ∷ es) w e = deliver-Calm es w e
deliver-Calm (setup_close_timeout ∷ es) w e = deliver-Calm es w e
deliver-Calm (send_msg m ∷ es) w e = deliver-Calm es w e
deliver-Calm (send_or_queue m h ∷ es) w e = deliver-Calm es w e

-- `xs` joins what comes from the channel, and `zs` what comes from the connection.
pub record Passes (w : Forwarder) (xs zs : List ℕ) (v : Forwarder) : Type 0 where
  pub from_channel : inbound v ≡ inbound w ++ xs
  pub to_channel : outbound v ≡ outbound w ++ zs
  pub reads : all_read v ≡ all_read w ++ zs

Passes-Calm : {w v : Forwarder} → Calm w v → Passes w [] [] v
Passes-Calm {w} c =
    ground (arith, append-nil (inbound w), append-nil (outbound w), append-nil (all_read w))

Passes-trans :
    {w v u : Forwarder} {xs zs xs' zs' : List ℕ}
    → Passes w xs zs v
    → Passes v xs' zs' u
    → Passes w (xs ++ xs') (zs ++ zs') u
Passes-trans {w} {xs = xs} {zs = zs} {xs' = xs'} {zs' = zs'} a b = ground (
  arith,
  append_assoc (inbound w) xs xs',
  append_assoc (outbound w) zs zs',
  append_assoc (all_read w) zs zs',
)

on_channel-Calm {ℓ} :
    {R : Type ℓ} (s : Step R) (w : Forwarder)
    → Still w.channel s
    → Calm w (on_channel s.channel s.effects w)
on_channel-Calm s w still = ground (
  arith,
  sent_bytes-append w.channel_effects s.effects,
  append-nil (sent_bytes w.channel_effects),
)

session_calls-Calm :
    (s : Step (Unit {0})) (w : Forwarder) {v : Forwarder}
    → Still w.channel s
    → session_calls s w ≡ ok v
    → Calm w v
unfolding session_calls
session_calls-Calm s w still e =
    Calm-trans (on_channel-Calm s w still)
      (deliver-Calm s.effects (on_channel s.channel s.effects w) e)

answered-Calm :
    (lost : Bool) (s : Step (Unit {0})) (w : Forwarder) {v : Forwarder}
    → Still w.channel s
    → answered lost s w ≡ ok v
    → Calm w v
unfolding answered
answered-Calm lost s w still e =
    let u : Forwarder = on_channel s.channel s.effects w in
    Calm-trans (on_channel-Calm s w still) (
      Calm-trans (Alike-Calm (reset_if-Alike lost s.effects u))
        (deliver-Calm s.effects (reset_if lost s.effects u) e))

session_calls-Passes :
    (f : SessionFeatures) (xs : List ℕ) (s : Step (Unit {0})) (w : Forwarder) {v : Forwarder}
    → Arrives f xs w.channel s
    → session_calls s w ≡ ok v
    → Passes w (if takes_data f w.channel.state then xs else []) [] v
unfolding session_calls
session_calls-Passes f xs s w a e =
    let ys : List ℕ = if takes_data f w.channel.state then xs else [] in
    let u : Forwarder = on_channel s.channel s.effects w in
    let c : Calm u _ = deliver-Calm s.effects u e in
    ground (
      arith,
      sent_bytes-append w.channel_effects s.effects,
      append-nil (sent_bytes w.channel_effects),
      append-nil (outbound w),
      append-nil (all_read w),
      append_assoc w.data_for_net_conn (concat w.channel.recv_queue) ys,
      append_assoc (written_bytes w.conn_calls) (w.data_for_net_conn ++ concat w.channel.recv_queue)
          ys,
    )

guarded :
    (b : Bool) (o : Outcome Forwarder) {v : Forwarder}
    → (if b then o else aborted) ≡ ok v
    → o ≡ ok v
guarded true o e = e
guarded false o e = absurd (ground arith)

-- What the connection gives waits for the channel.
read_conn-Passes :
    (f : SessionFeatures) (r : ReadResult) (lost : Bool) (w : Forwarder) {v : Forwarder}
    → w.data_for_channel ≡ []
    → read_conn f r lost w ≡ ok v
    → (zs : List ℕ) × Passes w [] zs v
unfolding read_conn
read_conn-Passes f read_later lost w none_before e = ([], Passes-Calm (ground arith))
read_conn-Passes f read_failed lost w none_before e =
    ([], Passes-Calm (ground (arith, close_by_net_conn-Calm f w)))
read_conn-Passes f (got x xs) lost w none_before e =
    let u : Forwarder = record (on_conn (has_read (x ∷ xs)) w) { data_for_channel = x ∷ xs } in
    let c : Calm u _ = forward_pending-Calm f lost u e in
    (
      x ∷ xs,
      ground (
        arith,
        append-nil (inbound w),
        append-nil (sent_bytes w.channel_effects),
        append-nil (x ∷ xs),
        read_bytes-append w.conn_calls (has_read (x ∷ xs) ∷ []),
        written_bytes-append w.conn_calls (has_read (x ∷ xs) ∷ []),
        append-nil (written_bytes w.conn_calls),
      ),
    )

handle_fd_read-Passes :
    (f : SessionFeatures) (r : ReadResult) (lost : Bool) (w : Forwarder) {v : Forwarder}
    → handle_fd_read f r lost w ≡ ok v
    → (zs : List ℕ) × Passes w [] zs v
unfolding handle_fd_read
handle_fd_read-Passes f r lost w e = go w.data_for_channel refl e
  where
    go :
        (xs : List ℕ) {v : Forwarder}
        → w.data_for_channel ≡ xs
        → fd_read_in f r lost xs w ≡ ok v
        → (zs : List ℕ) × Passes w [] zs v
    go [] {v} held e =
        unfold fd_read_in in
        read_conn-Passes f r lost w held (guarded w.has_net_conn (read_conn f r lost w) e)
    go (x ∷ xs) held e = unfold fd_read_in in ([], Passes-Calm (forward_pending-Calm f lost w e))

quietly : {w v : Forwarder} → Calm w v → (zs : List ℕ) × Passes w [] zs v
quietly c = ([], Passes-Calm c)

perform-Passes :
    (f : SessionFeatures) (k : Call) (w : Forwarder) {v : Forwarder}
    → perform f k w ≡ ok v
    → (zs : List ℕ) × Passes w (arrived_in f k w) zs v
unfolding perform
perform-Passes f (reads r lost) w e = handle_fd_read-Passes f r lost w e
perform-Passes f (writes a lost) w e = quietly (handle_fd_write-Calm f a lost w e)
perform-Passes f fails w e = quietly (ground (arith, handle_fd_error-Calm f w))
perform-Passes f (response msg lost) w e =
    let handled = handle_new_channel_response f msg w.channel in
    let (s, h, told) = >>=-eq-ok handled (λ s. answered lost s w) e in
    quietly (answered-Calm lost s w (response-Still f msg w.channel h) told)
perform-Passes f (data_arrives xs) w e =
    let handled = handle_channel_data f xs w.channel in
    let (s, h, told) = >>=-eq-ok handled (λ s. session_calls s w) e in
    ([], session_calls-Passes f xs s w (channel_data-Arrives f xs w.channel h) told)
perform-Passes f (window_adjusts n) w e =
    let s = handle_channel_window_adjust n w.channel in
    quietly (session_calls-Calm s w (window_adjust-Still n w.channel) e)
perform-Passes f closes w e =
    quietly
      (session_calls-Calm (handle_channel_close w.channel) w (channel_close-Still w.channel) e)
perform-Passes f (errs n why) w e =
    let s = handle_channel_error n why w.channel in
    quietly (session_calls-Calm s w (channel_error-Still n why w.channel) e)
perform-Passes f times_out w e =
    quietly (session_calls-Calm (close_timeout_triggered w.channel) w (timeout-Still w.channel) e)
perform-Passes f cleans_up w e =
    quietly (session_calls-Calm (cleanup w.channel) w (cleanup-Still w.channel) e)
perform-Passes f plays_from_channel w e = quietly (enable_copy_from_channel-Calm w e)
perform-Passes f pauses_from_channel w e = quietly (disable_copy_from_channel-Calm w e)
perform-Passes f plays_from_conn w e = quietly (enable_copy_from_net_conn-Calm w e)
perform-Passes f pauses_from_conn w e = quietly (disable_copy_from_net_conn-Calm w e)

run-Passes :
    (f : SessionFeatures) (ks : List Call) (w : Forwarder) {v : Forwarder}
    → run f ks w ≡ ok v
    → (zs : List ℕ) × Passes w (arrived f ks w) zs v
unfolding run
run-Passes f [] w e = quietly (ground arith)
run-Passes f (k ∷ ks) w {v = end} e =
    let (v, first, rest) = >>=-eq-ok (perform f k w) (λ v. run f ks v) e in
    let (zs, p) = perform-Passes f k w first in
    let (zs', p') = run-Passes f ks v rest in (zs ++ zs', rw first (Passes-trans p p'))

start-Calm :
    (f : SessionFeatures) (id : ℕ) (c : Channel) (counted : Bool)
    → Calm (new_forwarder c counted) (start f id (new_forwarder c counted))
unfolding start start_channel new_forwarder register_event_handler
start-Calm f id c counted = ground (arith, connect-Still f id (register_event_handler c))

-- A forwarder is started and then called in any way and order by its poller, its owner and the session, and the
-- run returns. Then the bytes that the connection took, those that wait for it and those that wait in the channel are,
-- in this order, the bytes that waited in the channel at the start and those that the channel took from the peer since.
-- And the bytes that the connection gave are those that were sent to the peer and then those that wait to be sent.
pub run-carries :
    (f : SessionFeatures) (id : ℕ) (c : Channel) (counted : Bool) (ks : List Call) {v : Forwarder}
    → run f ks (start f id (new_forwarder c counted)) ≡ ok v
    → (inbound v ≡ concat c.recv_queue ++ arrived f ks (start f id (new_forwarder c counted)))
      × (all_read v ≡ outbound v)
run-carries f id c counted ks e =
    let s = start-Calm f id c counted in
    let (zs, p) = run-Passes f ks (start f id (new_forwarder c counted)) e in
    unfold new_forwarder in ground arith
