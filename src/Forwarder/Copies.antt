-- ===== src/Forwarder/Copies.antt =====
-- src/protocol/ChannelConnectionForwarder.cc: what the poller calls returns and keeps the pointers
-- in order.
use libpinggy.Prelude.{
  ℕ, ◌==◌, Bool, ◌&&◌, false, Bool-cases, aborted, suc, ◌<◌, ◌≡◌, true, List, [], ◌∷◌, length,
  Option-cases, some, none, inl, inr, ℤ, pos, negsuc, arith, Option,
}
use libpinggy.Features.{SessionFeatures}
use libpinggy.Channel.State.{Channel, Step, Effect}
use libpinggy.Channel.Transfer.{send, send_pieces, recv, recv_from, adjust_window}
use libpinggy.Channel.Pieces.{send_pieces_total}
use libpinggy.Transport.State.{WriteResult, wrote, write_later, write_failed}
use libpinggy.Forwarder.State.{
  Forwarder, ReadResult, got, read_later, read_failed, has_read, on_conn, on_channel, told,
}
use libpinggy.Forwarder.{
  after_send, forward_pending, read_conn, fd_read_in, written_conn, write_conn, after_recv,
  fd_write_in, sixteen_kb, reset_if, cleaned_up, drop_net_conn, drop_counter, handle_fd_write,
}
use libpinggy.Forwarder.Safety.{IsSafe, SafeOk, close_by_net_conn-IsSafe}

-- What a method of the channel that the forwarder calls may do.
record Like (c d : Channel) : Type 0 where
  state : d.state ≡ c.state
  handler : d.has_handler ≡ c.has_handler
  packet : d.remote_max_packet ≡ c.remote_max_packet

LikeSome : Channel → Option (Step ℤ) → Type 0
LikeSome c none = ⊥
LikeSome c (some s) = Like c s.channel

send-Like :
    (c : Channel) (xs : List ℕ) → 0 < c.remote_max_packet → LikeSome c (send (suc (length xs)) c xs)
unfolding send LikeSome
send-Like c xs p =
    let (ps, e) = send_pieces_total (suc (length xs)) c.remote_max_packet xs p (omega arith) in
    ground arith

recv_from-Like : (q : List (List ℕ)) (c : Channel) (n : ℤ) → Like c (recv_from q c n).channel
unfolding recv_from adjust_window
recv_from-Like [] c n = ground arith
recv_from-Like (x ∷ q) c n = ground arith

recv-Like : (c : Channel) (n : ℤ) → Like c (recv c n).channel
unfolding recv
recv-Like c n = ground (arith, recv_from-Like c.recv_queue c n)

after_send-SafeOk :
    (f : SessionFeatures) (n : ℤ) (w : Forwarder)
    → w.has_net_conn ≡ true
    → IsSafe w
    → SafeOk (after_send f n w)
unfolding after_send SafeOk
after_send-SafeOk f (negsuc n) w there h = ground arith
after_send-SafeOk f (pos n) w there h = ground (arith, close_by_net_conn-IsSafe f w)

on_channel-IsSafe {ℓ} :
    {R : Type ℓ} (s : Step R) (w : Forwarder)
    → Like w.channel s.channel
    → IsSafe w
    → IsSafe (on_channel s.channel s.effects w)
on_channel-IsSafe s w l h = ground arith

reset_if-IsSafe :
    (lost : Bool) (es : List Effect) (w : Forwarder) → IsSafe w → IsSafe (reset_if lost es w)
unfolding reset_if cleaned_up drop_net_conn drop_counter
reset_if-IsSafe lost es w h = ground arith

pub reset_if-kept :
    (lost : Bool) (es : List Effect) (w : Forwarder)
    → (lost && told es) ≡ false
    → reset_if lost es w ≡ w
unfolding reset_if
reset_if-kept lost es w h = ground arith

-- After a reset the connection is gone, and the bytes are where they were.
pub record Gone (u v : Forwarder) : Type 0 where
  pub no_conn : v.has_net_conn ≡ false
  pub no_handler : v.channel.has_handler ≡ false
  pub pending : v.data_for_channel ≡ u.data_for_channel
  pub waiting : v.data_for_net_conn ≡ u.data_for_net_conn
  pub queue : v.channel.recv_queue ≡ u.channel.recv_queue
  pub state : v.channel.state ≡ u.channel.state

pub reset_if-Gone :
    (lost : Bool) (es : List Effect) (u : Forwarder)
    → (lost && told es) ≡ true
    → Gone u (reset_if lost es u)
unfolding reset_if cleaned_up drop_net_conn drop_counter
reset_if-Gone lost es u h = ground arith

-- A `Send` that gave the session a message does not fail.
TellsMore : Option (Step ℤ) → Type 0
TellsMore none = Unit {0}
TellsMore (some s) = told s.effects ≡ true → (n : ℕ) × (s.result ≡ pos n)

send-TellsMore : (fuel : ℕ) (c : Channel) (xs : List ℕ) → TellsMore (send fuel c xs)
unfolding send TellsMore
send-TellsMore fuel c xs = elim (Option-cases (send_pieces fuel c.remote_max_packet xs)) [
  | inl stuck ↦ ground arith
  | inr (ps, e) ↦ ground arith
]

-- What follows `Send`, with or without a reset.
sent-SafeOk :
    (f : SessionFeatures) (lost : Bool) (s : Step ℤ) (u : Forwarder)
    → u.has_net_conn ≡ true
    → IsSafe u
    → (told s.effects ≡ true → (n : ℕ) × (s.result ≡ pos n))
    → SafeOk (after_send f s.result (reset_if lost s.effects u))
sent-SafeOk f lost s u there h tells = elim (Bool-cases (lost && told s.effects)) [
  | inl reset ↦
      let (n, e) = tells (ground arith) in
      rw e (
        unfold after_send SafeOk in
        ground (
          arith,
          reset_if-IsSafe lost s.effects u h,
          close_by_net_conn-IsSafe f (reset_if lost s.effects u),
        ))
  | inr kept ↦ rw (reset_if-kept lost s.effects u kept) (after_send-SafeOk f s.result u there h)
]

forward_pending-SafeOk :
    (f : SessionFeatures) (lost : Bool) (w : Forwarder)
    → w.has_net_conn ≡ true
    → IsSafe w
    → SafeOk (forward_pending f lost w)
unfolding forward_pending SafeOk LikeSome TellsMore
forward_pending-SafeOk f lost w there h =
    let xs : List ℕ = w.data_for_channel in
    let l : LikeSome w.channel (send (suc (length xs)) w.channel xs) =
      send-Like w.channel xs h.packets in
    elim (Option-cases (send (suc (length xs)) w.channel xs)) [
      | inl endless ↦ absurd (rw endless at l)
      | inr (s, sent) ↦
          let like : Like w.channel s.channel = rw sent at l in
          let tells : TellsMore (some s) =
            rw sent at (send-TellsMore (suc (length xs)) w.channel xs) in
          ground (
            arith,
            sent-SafeOk f lost s (on_channel s.channel s.effects w) there
                (on_channel-IsSafe s w like h) tells,
          )
    ]

read_conn-SafeOk :
    (f : SessionFeatures) (r : ReadResult) (lost : Bool) (w : Forwarder)
    → w.has_net_conn ≡ true
    → IsSafe w
    → SafeOk (read_conn f r lost w)
unfolding read_conn SafeOk
read_conn-SafeOk f read_later lost w there h = h
read_conn-SafeOk f read_failed lost w there h = close_by_net_conn-IsSafe f w h
read_conn-SafeOk f (got x xs) lost w there h =
    forward_pending-SafeOk f lost
      (record (on_conn (has_read (x ∷ xs)) w) { data_for_channel = x ∷ xs }) there (ground arith)

pub fd_read_in-SafeOk :
    (f : SessionFeatures) (r : ReadResult) (lost : Bool) (xs : List ℕ) (w : Forwarder)
    → w.has_net_conn ≡ true
    → IsSafe w
    → SafeOk (fd_read_in f r lost xs w)
unfolding fd_read_in
fd_read_in-SafeOk f r lost [] w there h = ground (arith, read_conn-SafeOk f r lost w there h)
fd_read_in-SafeOk f r lost (x ∷ xs) w there h = forward_pending-SafeOk f lost w there h

written_conn-SafeOk :
    (f : SessionFeatures) (a : WriteResult) (w : Forwarder) → IsSafe w → SafeOk (written_conn f a w)
unfolding written_conn SafeOk
written_conn-SafeOk f write_later w h = h
written_conn-SafeOk f write_failed w h = close_by_net_conn-IsSafe f w h
written_conn-SafeOk f (wrote n) w h = ground arith

write_conn-SafeOk :
    (f : SessionFeatures) (a : WriteResult) (w : Forwarder)
    → w.has_net_conn ≡ true
    → IsSafe w
    → SafeOk (write_conn f a w)
unfolding write_conn
write_conn-SafeOk f a w there h = ground (arith, written_conn-SafeOk f a w h)

after_recv-SafeOk :
    (f : SessionFeatures) (a : WriteResult) (r : ℤ × Option (List ℕ)) (w : Forwarder)
    → w.has_net_conn ≡ true
    → IsSafe w
    → SafeOk (after_recv f a r w)
unfolding after_recv SafeOk
after_recv-SafeOk f a (pos n, some xs) w there h = ground (
  arith,
  close_by_net_conn-IsSafe f w,
  write_conn-SafeOk f a (record w { data_for_net_conn = xs }) there (ground arith),
)
after_recv-SafeOk f a (pos n, none) w there h =
    ground (arith, close_by_net_conn-IsSafe f w, write_conn-SafeOk f a w there h)
after_recv-SafeOk f a (negsuc n, xs) w there h = ground arith

-- The session finds its connection lost at the message of `Recv`, which comes before the write.
abbrev pub reset_in_recv : Bool → Forwarder → Bool
reset_in_recv lost w =
    lost && (length w.data_for_net_conn == 0 && told (recv w.channel sixteen_kb).effects)

pub fd_write_in-SafeOk :
    (f : SessionFeatures) (a : WriteResult) (lost : Bool) (xs : List ℕ) (w : Forwarder)
    → w.data_for_net_conn ≡ xs
    → reset_in_recv lost w ≡ false
    → w.has_net_conn ≡ true
    → IsSafe w
    → SafeOk (fd_write_in f a lost xs w)
unfolding fd_write_in
fd_write_in-SafeOk f a lost [] w held link there h =
    let s : Step (ℤ × Option (List ℕ)) = recv w.channel sixteen_kb in
    let u : Forwarder = on_channel s.channel s.effects w in
    let safe : IsSafe u = on_channel-IsSafe s w (recv-Like w.channel sixteen_kb) h in
    ground (
      arith,
      reset_if-kept lost s.effects u (ground arith),
      after_recv-SafeOk f a s.result u there safe,
    )
fd_write_in-SafeOk f a lost (x ∷ xs) w held link there h = write_conn-SafeOk f a w there h

-- Otherwise the process ends at a null pointer, unless `Recv` gave nothing.
pub reset_in_recv_crash :
    (f : SessionFeatures) (a : WriteResult) (w : Forwarder) (n : ℕ)
    → w.has_channel ≡ true
    → reset_in_recv true w ≡ true
    → (recv w.channel sixteen_kb).result.0 ≡ pos (suc n)
    → handle_fd_write f a true w ≡ aborted
unfolding handle_fd_write fd_write_in reset_if cleaned_up drop_net_conn drop_counter after_recv
    write_conn
reset_in_recv_crash f a w n there link e = ground arith
