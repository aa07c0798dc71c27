-- ===== src/Forwarder/Calm/Copies.antt =====
-- src/protocol/ChannelConnectionForwarder.cc: the two methods that copy move the bytes along their way.
use libpinggy.Prelude.{
  ℕ, suc, Bool, ◌≡◌, refl, inl, inr, List, [], ◌∷◌, ◌++◌, List-cases, append-nil, append_assoc,
  length, take, drop, take-append-drop, drop-length, concat, Option, none, some, Option-cases, ok,
  ℤ, pos, negsuc, arith,
}
use libpinggy.Features.{SessionFeatures}
use libpinggy.Channel.State.{Step}
use libpinggy.Channel.Transfer.{send, recv}
use libpinggy.Transport.State.{WriteResult, wrote, write_later, write_failed}
use libpinggy.Forwarder.State.{
  Forwarder, disable_read_poll, disable_write_poll, has_written, on_channel,
}
use libpinggy.Forwarder.{
  after_send, forward_pending, written_conn, write_conn, after_recv, fd_write_in, handle_fd_write,
  handle_fd_error, sixteen_kb, reset_if,
}
use libpinggy.Forwarder.Streams.{
  sent_bytes, sent_bytes-append, send-cases, received, IsResult, Takes, recv-Takes,
}
use libpinggy.Forwarder.Calm.{
  read_bytes, written_bytes, read_bytes-append, written_bytes-append, Calm, silent,
  close_by_net_conn-Calm, Alike, reset_if-Alike,
}

-- The data that `Send` took are sent instead of pending.
after_send-Calm :
    (f : SessionFeatures) (w : Forwarder) (s : Step ℤ) (u : Forwarder) {v : Forwarder}
    → send (suc (length w.data_for_channel)) w.channel w.data_for_channel ≡ some s
    → Alike (on_channel s.channel s.effects w) u
    → after_send f s.result u ≡ ok v
    → Calm w v
unfolding after_send
after_send-Calm f w s u sent like e =
    let xs : List ℕ = w.data_for_channel in
    let joined : sent_bytes (w.channel_effects ++ s.effects)
        ≡ sent_bytes w.channel_effects ++ sent_bytes s.effects =
      sent_bytes-append w.channel_effects s.effects in
    let (queue, result) = send-cases (suc (length xs)) w.channel xs sent in
    elim result [
      | inl (all, bytes) ↦ elim (List-cases xs) [
        | inl empty ↦
            ground (arith, close_by_net_conn-Calm f u, append-nil (sent_bytes w.channel_effects))
        | inr (x, ys, some_data) ↦
            ground
              (arith, drop-length (length xs) xs, append-nil (sent_bytes w.channel_effects ++ xs))
      ]
      | inr (none_sent, bytes) ↦ ground (
        arith,
        silent u.conn_calls disable_read_poll refl,
        append-nil (sent_bytes w.channel_effects),
      )
    ]

pub forward_pending-Calm :
    (f : SessionFeatures) (lost : Bool) (w : Forwarder) {v : Forwarder}
    → forward_pending f lost w ≡ ok v
    → Calm w v
unfolding forward_pending
forward_pending-Calm f lost w {v} e =
    elim (Option-cases (send (suc (length w.data_for_channel)) w.channel w.data_for_channel)) [
      | inl endless ↦ ground (arith, silent w.conn_calls disable_read_poll refl)
      | inr (s, sent) ↦
          let u : Forwarder = on_channel s.channel s.effects w in
          ground (
            arith,
            silent w.conn_calls disable_read_poll refl,
            after_send-Calm f w s (reset_if lost s.effects u) {v = v} sent
                (reset_if-Alike lost s.effects u),
          )
    ]

written_conn-Calm :
    (f : SessionFeatures) (a : WriteResult) (w : Forwarder) {v : Forwarder}
    → written_conn f a w ≡ ok v
    → Calm w v
unfolding written_conn
written_conn-Calm f write_later w e = ground arith
written_conn-Calm f write_failed w e = ground (arith, close_by_net_conn-Calm f w)
written_conn-Calm f (wrote n) w e =
    let xs : List ℕ = w.data_for_net_conn in
    let rest : List ℕ = concat w.channel.recv_queue in
    ground (
      arith,
      read_bytes-append w.conn_calls (has_written (take (suc n) xs) ∷ []),
      append-nil (read_bytes w.conn_calls),
      written_bytes-append w.conn_calls (has_written (take (suc n) xs) ∷ []),
      append-nil (take (suc n) xs),
      append_assoc (written_bytes w.conn_calls) (take (suc n) xs) (drop (suc n) xs ++ rest),
      append_assoc (take (suc n) xs) (drop (suc n) xs) rest,
      take-append-drop (suc n) xs,
    )

write_conn-Calm :
    (f : SessionFeatures) (a : WriteResult) (w : Forwarder) {v : Forwarder}
    → write_conn f a w ≡ ok v
    → Calm w v
unfolding write_conn
write_conn-Calm f a w {v} e = ground (arith, written_conn-Calm f a w {v = v})

-- What the channel gave waits for the connection.
after_recv-Calm :
    (f : SessionFeatures) (a : WriteResult) (r : ℤ × Option (List ℕ)) (w u : Forwarder)
    {v : Forwarder}
    → IsResult r
    → Calm u (record w { data_for_net_conn = received r })
    → w.data_for_net_conn ≡ []
    → after_recv f a r w ≡ ok v
    → Calm u v
unfolding after_recv
after_recv-Calm f a (pos n, some xs) w u {v} shape calm none_before e = ground (
  arith,
  close_by_net_conn-Calm f w,
  List-cases xs,
  write_conn-Calm f a (record w { data_for_net_conn = xs }) {v = v},
)
after_recv-Calm f a (pos n, none) w u shape calm none_before e =
    ground (arith, close_by_net_conn-Calm f w)
after_recv-Calm f a (negsuc n, none) w u shape calm none_before e =
    ground (arith, silent w.conn_calls disable_write_poll refl)
after_recv-Calm f a (negsuc n, some xs) w u shape calm none_before e = absurd shape

fd_write_in-Calm :
    (f : SessionFeatures) (a : WriteResult) (lost : Bool) (xs : List ℕ) (w : Forwarder)
    {v : Forwarder}
    → w.data_for_net_conn ≡ xs
    → fd_write_in f a lost xs w ≡ ok v
    → Calm w v
unfolding fd_write_in
fd_write_in-Calm f a lost (x ∷ xs) w held e = write_conn-Calm f a w e
fd_write_in-Calm f a lost [] w {v} held e =
    let s : Step (ℤ × Option (List ℕ)) = recv w.channel sixteen_kb in
    let t : Takes w.channel s = recv-Takes w.channel sixteen_kb in
    let there : Forwarder = on_channel s.channel s.effects w in
    let u : Forwarder = reset_if lost s.effects there in
    let like : Alike there u = reset_if-Alike lost s.effects there in
    let calm : Calm w (record u { data_for_net_conn = received s.result }) = ground (
      arith,
      t,
      like,
      sent_bytes-append w.channel_effects s.effects,
      append-nil (sent_bytes w.channel_effects),
    ) in
    ground (arith, after_recv-Calm f a s.result u w {v = v} t.shape calm (ground (arith, like)))

pub handle_fd_write-Calm :
    (f : SessionFeatures) (a : WriteResult) (lost : Bool) (w : Forwarder) {v : Forwarder}
    → handle_fd_write f a lost w ≡ ok v
    → Calm w v
unfolding handle_fd_write
handle_fd_write-Calm f a lost w e = fd_write_in-Calm f a lost w.data_for_net_conn w refl e

pub handle_fd_error-Calm : (f : SessionFeatures) (w : Forwarder) → Calm w (handle_fd_error f w)
unfolding handle_fd_error
handle_fd_error-Calm f w = close_by_net_conn-Calm f w
