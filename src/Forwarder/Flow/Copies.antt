-- ===== src/Forwarder/Flow/Copies.antt =====
-- src/protocol/ChannelConnectionForwarder.cc: `HandleFDRead` and `HandleFDWrite` keep the copying going.
use libpinggy.Prelude.{
  ℕ, suc, ◌∙◌, ◌≡◌, refl, Bool, true, false, not, ◌&&◌, ◌||◌, ltb, List, [], ◌∷◌, length,
  Bool-cases, Option-cases, some, none, inl, inr, ℤ, pos, negsuc, arith, Option, ◌⊎◌, drop-length,
  length-drop,
}
use libpinggy.Features.{SessionFeatures}
use libpinggy.Channel.State.{Channel, Step, connecting, connected, close_responding, in_state}
use libpinggy.Channel.Transfer.{
  send, send_pieces, recv, recv_from, adjust_window, have_data_to_read, have_buffer_to_write,
}
use libpinggy.Transport.State.{WriteResult, wrote, write_later, write_failed}
use libpinggy.Forwarder.State.{
  Forwarder, ReadResult, got, read_later, read_failed, has_read, on_conn, on_channel, too_long,
  told,
}
use libpinggy.Forwarder.{
  after_send, forward_pending, read_conn, fd_read_in, written_conn, write_conn, after_recv,
  fd_write_in, sixteen_kb, reset_if,
}
use libpinggy.Forwarder.Safety.{IsSafe}
use libpinggy.Forwarder.Copies.{Gone, reset_if-Gone, reset_if-kept}
use libpinggy.Forwarder.Flow.{
  has_bytes, net_flows, channel_flows, early, Flows, FlowsOk, close_by_net_conn-Flows,
}

-- `Send` keeps what the directions depend on, and is refused where the channel may not write or the
-- window is too small.
SendFlows : Channel → List ℕ → Option (Step ℤ) → Type 0
SendFlows c xs none = Unit {0}
SendFlows c xs (some s) =
    (s.channel.recv_queue ≡ c.recv_queue)
    × (s.channel.state ≡ c.state)
    × (s.channel.has_handler ≡ c.has_handler)
    × (s.channel.allow_write ≡ c.allow_write)
    × ((s.result ≡ pos (length xs))
        ⊎ ((s.result ≡ negsuc 0)
            × ((c.allow_write && not (ltb c.remote_window (length xs))) ≡ false)
            × (s.channel.remote_window ≡ c.remote_window)))

send-Flows : (fuel : ℕ) (c : Channel) (xs : List ℕ) → SendFlows c xs (send fuel c xs)
unfolding send SendFlows
send-Flows fuel c xs = elim (Option-cases (send_pieces fuel c.remote_max_packet xs)) [
  | inl stuck ↦ ground arith
  | inr (ps, e) ↦ ground arith
]

after_send-Flows :
    (f : SessionFeatures) (s : Step ℤ) (w : Forwarder)
    → channel_flows w ≡ true
    → early w ≡ true
    → too_long w.channel.remote_window (length w.data_for_channel) ≡ false
    → (not (
          w.has_net_conn
          && (w.allow_copy_from_net_conn && (w.channel.allow_write && w.channel.has_handler)))
        || w.fd_recv_enabled)
      ≡ true
    → has_bytes w.data_for_channel ≡ true
    → SendFlows w.channel w.data_for_channel (some s)
    → FlowsOk (after_send f s.result (on_channel s.channel s.effects w))
unfolding after_send FlowsOk SendFlows have_data_to_read
after_send-Flows f s w c b room n some_data sent = ground (
  arith,
  close_by_net_conn-Flows f (on_channel s.channel s.effects w),
  drop-length (length w.data_for_channel) w.data_for_channel,
)

Gone-early : (u v : Forwarder) → Gone u v → early u ≡ true → early v ≡ true
Gone-early u v gone b = ground arith

-- After a reset nothing has to flow.
reset_sent-Flows :
    (f : SessionFeatures) (n : ℤ) (u : Forwarder)
    → u.has_net_conn ≡ false
    → early u ≡ true
    → FlowsOk (after_send f n u)
unfolding after_send FlowsOk
reset_sent-Flows f (negsuc n) u gone b = ground arith
reset_sent-Flows f (pos n) u gone b = ground (arith, close_by_net_conn-Flows f u b)

forward_pending-Flows :
    (f : SessionFeatures) (lost : Bool) (w : Forwarder)
    → channel_flows w ≡ true
    → early w ≡ true
    → (too_long w.channel.remote_window (length w.data_for_channel)
        || (not (
              w.has_net_conn
              && (w.allow_copy_from_net_conn && (w.channel.allow_write && w.channel.has_handler)))
            || w.fd_recv_enabled))
      ≡ true
    → has_bytes w.data_for_channel ≡ true
    → FlowsOk (forward_pending f lost w)
unfolding forward_pending FlowsOk have_buffer_to_write
forward_pending-Flows f lost w c b n some_data =
    let xs : List ℕ = w.data_for_channel in
    elim (Option-cases (send (suc (length xs)) w.channel xs)) [
      | inl endless ↦ ground arith
      | inr (s, sent) ↦
          let flows : SendFlows w.channel xs (some s) =
            rw sent at (send-Flows (suc (length xs)) w.channel xs) in
          let u : Forwarder = on_channel s.channel s.effects w in
          elim (Bool-cases (lost && told s.effects)) [
            | inl reset ↦
                let v : Forwarder = reset_if lost s.effects u in
                let gone : Gone u v = reset_if-Gone lost s.effects u reset in
                let before : early u ≡ true =
                  unfold SendFlows in ground (arith, b, flows.0, flows.1) in
                let closed : FlowsOk (after_send f s.result v) =
                  reset_sent-Flows f s.result v gone.no_conn (Gone-early u v gone before) in
                ground (arith, closed)
            | inr kept ↦ ground (
              arith,
              reset_if-kept lost s.effects u kept,
              after_send-Flows f s w c b _ _ some_data flows,
            )
          ]
    ]

read_conn-Flows :
    (f : SessionFeatures) (r : ReadResult) (lost : Bool) (w : Forwarder)
    → w.data_for_channel ≡ []
    → Flows w
    → FlowsOk (read_conn f r lost w)
unfolding read_conn FlowsOk
read_conn-Flows f read_later lost w empty h = h
read_conn-Flows f read_failed lost w empty h = close_by_net_conn-Flows f w h.before
read_conn-Flows f (got x xs) lost w empty h =
    forward_pending-Flows f lost
      (record (on_conn (has_read (x ∷ xs)) w) { data_for_channel = x ∷ xs }) h.to_conn h.before
      (ground arith) (ground arith)

pub reads-Flows :
    (f : SessionFeatures) (r : ReadResult) (lost : Bool) (xs : List ℕ) (w : Forwarder)
    → w.data_for_channel ≡ xs
    → Flows w
    → FlowsOk (fd_read_in f r lost xs w)
unfolding fd_read_in FlowsOk
reads-Flows f r lost [] w held h = ground (arith, read_conn-Flows f r lost w held h)
reads-Flows f r lost (x ∷ xs) w held h =
    forward_pending-Flows f lost w h.to_conn h.before (ground arith) (ground arith)

written_conn-Flows :
    (f : SessionFeatures) (a : WriteResult) (w : Forwarder)
    → net_flows w ≡ true
    → early w ≡ true
    → (not (w.has_net_conn && (w.allow_copy_from_channel && w.channel.has_handler))
        || w.fd_send_enabled)
      ≡ true
    → FlowsOk (written_conn f a w)
unfolding written_conn FlowsOk
written_conn-Flows f write_later w n b c = ground arith
written_conn-Flows f write_failed w n b c = close_by_net_conn-Flows f w b
written_conn-Flows f (wrote k) w n b c = ground (arith, length-drop (suc k) w.data_for_net_conn)

write_conn-Flows :
    (f : SessionFeatures) (a : WriteResult) (w : Forwarder)
    → net_flows w ≡ true
    → early w ≡ true
    → (not (w.has_net_conn && (w.allow_copy_from_channel && w.channel.has_handler))
        || w.fd_send_enabled)
      ≡ true
    → FlowsOk (write_conn f a w)
unfolding write_conn FlowsOk
write_conn-Flows f a w n b c = ground (arith, written_conn-Flows f a w n b c)

-- What a `Recv` does: nothing, since there is nothing to read or the state does not fit, or it reads.
abbrev is_readable : Channel → Bool
is_readable c = in_state c.state (connected ∷ close_responding ∷ []) && have_data_to_read c

record Leaves (c : Channel) (s : Step (ℤ × Option (List ℕ))) : Type 0 where
  window : s.channel.remote_window ≡ c.remote_window
  state : s.channel.state ≡ c.state
  handler : s.channel.has_handler ≡ c.has_handler
  write : s.channel.allow_write ≡ c.allow_write
  shape :
      ((is_readable c ≡ false) × (s.channel ≡ c) × ((n : ℕ) × (s.result ≡ (negsuc n, none))))
      ⊎ ((is_readable c ≡ true) × ((n : ℕ) × (s.result.0 ≡ pos n)))

recv_from-Leaves :
    (q : List (List ℕ)) (c : Channel) (k : ℤ)
    → c.recv_queue ≡ q
    → in_state c.state (connected ∷ close_responding ∷ []) ≡ true
    → Leaves c (recv_from q c k)
unfolding recv_from adjust_window have_data_to_read
recv_from-Leaves [] c k e h = elim (Bool-cases (in_state c.state (close_responding ∷ []))) [
  | inl closing ↦ record {
    window = refl;
    state = refl;
    handler = refl;
    write = refl;
    shape = inr (ground arith, (0, ground arith));
  }
  | inr not_closing ↦ record {
    window = refl;
    state = refl;
    handler = refl;
    write = refl;
    shape = inl (ground arith, refl, (0, ground arith));
  }
]
recv_from-Leaves (x ∷ q) c k e h = record {
  window = ground arith;
  state = ground arith;
  handler = ground arith;
  write = ground arith;
  shape = inr (ground arith, (_, refl));
}

recv-Leaves : (c : Channel) (k : ℤ) → Leaves c (recv c k)
unfolding recv
recv-Leaves c k = elim (Bool-cases (in_state c.state (connected ∷ close_responding ∷ []))) [
  | inl fits ↦ ground (arith, recv_from-Leaves c.recv_queue c k refl fits)
  | inr bad ↦ record {
    window = ground arith;
    state = ground arith;
    handler = ground arith;
    write = ground arith;
    shape = inl (ground arith, ground arith, (1, ground arith));
  }
]

after_recv-Flows :
    (f : SessionFeatures) (a : WriteResult) (r : ℤ × Option (List ℕ)) (w : Forwarder)
    → w.data_for_net_conn ≡ []
    → net_flows w ≡ true
    → early w ≡ true
    → (((n : ℕ) × (r ≡ (negsuc n, none)))
        × ((not w.channel.has_handler
              || not (has_bytes w.data_for_net_conn || have_data_to_read w.channel))
            ≡ true))
      ⊎ (((n : ℕ) × (r.0 ≡ pos n))
          × (in_state w.channel.state (connecting ∷ []) ≡ false)
          × ((not (w.has_net_conn && (w.allow_copy_from_channel && w.channel.has_handler))
                || w.fd_send_enabled)
              ≡ true))
    → FlowsOk (after_recv f a r w)
unfolding after_recv FlowsOk
after_recv-Flows f a (pos n, some xs) w held k b c = ground (
  arith,
  close_by_net_conn-Flows f w b,
  write_conn-Flows f a (record w { data_for_net_conn = xs }),
)
after_recv-Flows f a (pos n, none) w held k b c =
    ground (arith, close_by_net_conn-Flows f w b, write_conn-Flows f a w)
after_recv-Flows f a (negsuc n, xs) w held k b c = ground arith

-- After a reset the write crashes, or the forwarder is closed.
reset_recv-Flows :
    (f : SessionFeatures) (a : WriteResult) (r : ℤ × Option (List ℕ)) (v : Forwarder)
    → v.has_net_conn ≡ false
    → v.data_for_net_conn ≡ []
    → early v ≡ true
    → FlowsOk (after_recv f a r v)
unfolding after_recv write_conn FlowsOk
reset_recv-Flows f a (pos n, some xs) v gone held b = ground (arith, close_by_net_conn-Flows f v)
reset_recv-Flows f a (pos n, none) v gone held b = ground (arith, close_by_net_conn-Flows f v)
reset_recv-Flows f a (negsuc n, xs) v gone held b = ground arith

pub writes-Flows :
    (f : SessionFeatures) (a : WriteResult) (lost : Bool) (xs : List ℕ) (w : Forwarder)
    → w.data_for_net_conn ≡ xs
    → IsSafe w
    → Flows w
    → FlowsOk (fd_write_in f a lost xs w)
unfolding fd_write_in FlowsOk have_data_to_read
writes-Flows f a lost (x ∷ xs) w held safe h =
    write_conn-Flows f a w h.to_channel h.before (ground arith)
writes-Flows f a lost [] w held safe h =
    let s : Step (ℤ × Option (List ℕ)) = recv w.channel sixteen_kb in
    let l : Leaves w.channel s = recv-Leaves w.channel sixteen_kb in
    let u : Forwarder = on_channel s.channel s.effects w in
    let flows : net_flows u ≡ true = ground (arith, h.to_channel, l.window, l.handler, l.write) in
    elim (Bool-cases (lost && told s.effects)) [
      | inl reset ↦
          let v : Forwarder = reset_if lost s.effects u in
          let gone : Gone u v = reset_if-Gone lost s.effects u reset in
          let before : early u ≡ true = elim l.shape [
            | inl (idle, same, none_read) ↦ ground (arith, h.before)
            | inr (busy, some_read) ↦ ground (arith, l.state)
          ] in
          let closed : FlowsOk (after_recv f a s.result v) =
            reset_recv-Flows f a s.result v gone.no_conn (gone.waiting ∙ held)
              (Gone-early u v gone before) in
          ground (arith, closed)
      | inr kept ↦ elim l.shape [
        | inl (idle, same, none_read) ↦ ground (
          arith,
          reset_if-kept lost s.effects u kept,
          after_recv-Flows f a s.result u held flows (ground arith) (inl (none_read, ground arith)),
        )
        | inr (busy, some_read) ↦ ground (
          arith,
          reset_if-kept lost s.effects u kept,
          after_recv-Flows f a s.result u held flows (ground arith)
              (inr (some_read, ground arith, ground arith)),
        )
      ]
    ]
