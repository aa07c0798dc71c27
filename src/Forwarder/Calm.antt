-- ===== src/Forwarder/Calm.antt =====
-- src/protocol/ChannelConnectionForwarder.cc: the bytes on their way through a forwarder, and that its
-- methods neither lose nor reorder them.
pub mod Copies
use libpinggy.Prelude.{
  ℕ, suc, ◌≡◌, refl, ap, sym, ◌∙◌, ◌⊎◌, inl, inr, Bool, true, false, List, [], ◌∷◌, ◌++◌,
  List-cases, append-nil, append_assoc, length, take, drop, take-append-drop, drop-length, concat,
  Option, none, some, Option-cases, Bool-cases, if◌then◌else◌, Outcome, ok, aborted, ℤ, pos, negsuc,
  arith, leb, >>=-eq-ok,
}
use libpinggy.Features.{SessionFeatures}
use libpinggy.Message.{Text}
use libpinggy.Channel.State.{Channel, Effect, Event, Step}
use libpinggy.Channel.Transfer.{send, recv}
use libpinggy.Channel.{close, connect}
use libpinggy.Transport.State.{WriteResult, wrote, write_later, write_failed}
use libpinggy.Forwarder.State.{
  Forwarder, ConnCall, register_handler, deregister_handler, close_conn, enable_read_poll,
  disable_read_poll, enable_write_poll, disable_write_poll, raise_dummy_read_poll, has_read,
  has_written, on_conn, on_channel,
}
use libpinggy.Forwarder.{
  with_conn, enable_copy_from_channel, disable_copy_from_channel, enable_copy_from_net_conn,
  disable_copy_from_net_conn, raise_if_pending, drop_net_conn, drop_counter, close_channel,
  close_by_net_conn, stop_reading, after_send, forward_pending, written_conn, write_conn,
  after_recv, fd_write_in, handle_fd_write, handle_fd_error, data_received, ready_to_send, rejected,
  accepted, cleaned_up, sixteen_kb, reset_if,
}
use libpinggy.Forwarder.Streams.{
  sent_bytes, sent_bytes-append, close-Still, send-cases, received, IsResult, Takes, recv-Takes,
}

-- The bytes that the connection gave and took.
abbrev pub read_bytes : List ConnCall → List ℕ
read_bytes [] = []
read_bytes (has_read xs ∷ ks) = xs ++ read_bytes ks
read_bytes (k ∷ ks) = read_bytes ks

abbrev pub written_bytes : List ConnCall → List ℕ
written_bytes [] = []
written_bytes (has_written xs ∷ ks) = xs ++ written_bytes ks
written_bytes (k ∷ ks) = written_bytes ks

pub read_bytes-append :
    (ks ls : List ConnCall) → read_bytes (ks ++ ls) ≡ read_bytes ks ++ read_bytes ls
read_bytes-append [] ls = refl
read_bytes-append (has_read xs ∷ ks) ls = rw (read_bytes-append ks ls, append_assoc)
read_bytes-append (k ∷ ks) ls = read_bytes-append ks ls

pub written_bytes-append :
    (ks ls : List ConnCall) → written_bytes (ks ++ ls) ≡ written_bytes ks ++ written_bytes ls
written_bytes-append [] ls = refl
written_bytes-append (has_written xs ∷ ks) ls = rw (written_bytes-append ks ls, append_assoc)
written_bytes-append (k ∷ ks) ls = written_bytes-append ks ls

-- From the channel: what the connection took, what waits for it, and what waits in the channel.
abbrev pub inbound : Forwarder → List ℕ
inbound w = written_bytes w.conn_calls ++ (w.data_for_net_conn ++ concat w.channel.recv_queue)

-- To the channel: what was sent, and what waits to be sent.
abbrev pub outbound : Forwarder → List ℕ
outbound w = sent_bytes w.channel_effects ++ w.data_for_channel

abbrev pub all_read : Forwarder → List ℕ
all_read w = read_bytes w.conn_calls

-- Bytes moved along their way, and none joined or left it.
pub record Calm (w v : Forwarder) : Type 0 where
  pub from_channel : inbound v ≡ inbound w
  pub to_channel : outbound v ≡ outbound w
  pub reads : all_read v ≡ all_read w

pub Calm-trans : {w v u : Forwarder} → Calm w v → Calm v u → Calm w u
Calm-trans a b = ground arith

-- The calls that move no bytes.
abbrev pub moves_none : ConnCall → Bool
moves_none (has_read xs) = false
moves_none (has_written xs) = false
moves_none k = true

pub record Silent (ks ls : List ConnCall) : Type 0 where
  pub read : read_bytes ls ≡ read_bytes ks
  pub written : written_bytes ls ≡ written_bytes ks

pub silent : (ks : List ConnCall) (k : ConnCall) → moves_none k ≡ true → Silent ks (ks ++ (k ∷ []))
silent ks k e = record {
  read = rw (read_bytes-append ks (k ∷ []), one_read k e, append-nil);
  written = rw (written_bytes-append ks (k ∷ []), one_written k e, append-nil);
}
  where
    one_read : (k : ConnCall) → moves_none k ≡ true → read_bytes (k ∷ []) ≡ []
    one_read (has_read xs) e = absurd (ground arith)
    one_read k e = refl

    one_written : (k : ConnCall) → moves_none k ≡ true → written_bytes (k ∷ []) ≡ []
    one_written (has_written xs) e = absurd (ground arith)
    one_written k e = refl

with_conn-Calm :
    (k : ConnCall) (w : Forwarder) {v : Forwarder}
    → moves_none k ≡ true
    → with_conn k w ≡ ok v
    → Calm w v
with_conn-Calm k w h e = ground (arith, silent w.conn_calls k h)

raise_if_pending-Calm :
    (xs : List ℕ) (w : Forwarder) {v : Forwarder} → raise_if_pending xs w ≡ ok v → Calm w v
raise_if_pending-Calm [] w e = ground arith
raise_if_pending-Calm (x ∷ xs) w e = with_conn-Calm raise_dummy_read_poll w refl e

pub enable_copy_from_channel-Calm :
    (w : Forwarder) {v : Forwarder} → enable_copy_from_channel w ≡ ok v → Calm w v
unfolding enable_copy_from_channel
enable_copy_from_channel-Calm w e = ground (arith, silent w.conn_calls enable_write_poll refl)

pub disable_copy_from_channel-Calm :
    (w : Forwarder) {v : Forwarder} → disable_copy_from_channel w ≡ ok v → Calm w v
unfolding disable_copy_from_channel
disable_copy_from_channel-Calm w e = ground (arith, silent w.conn_calls disable_write_poll refl)

pub disable_copy_from_net_conn-Calm :
    (w : Forwarder) {v : Forwarder} → disable_copy_from_net_conn w ≡ ok v → Calm w v
unfolding disable_copy_from_net_conn
disable_copy_from_net_conn-Calm w e = ground (arith, silent w.conn_calls disable_read_poll refl)

pub enable_copy_from_net_conn-Calm :
    (w : Forwarder) {v : Forwarder} → enable_copy_from_net_conn w ≡ ok v → Calm w v
unfolding enable_copy_from_net_conn
enable_copy_from_net_conn-Calm w e = elim (List-cases w.data_for_channel) [
  | inl quiet ↦ ground (arith, silent w.conn_calls enable_read_poll refl)
  | inr (x, xs, some_data) ↦ ground (
    arith,
    silent w.conn_calls enable_read_poll refl,
    silent w.conn_calls raise_dummy_read_poll refl,
    silent (w.conn_calls ++ (enable_read_poll ∷ [])) raise_dummy_read_poll refl,
  )
]

pub data_received-Calm : (w : Forwarder) {v : Forwarder} → data_received w ≡ ok v → Calm w v
unfolding data_received
data_received-Calm w e = ground (arith, silent w.conn_calls enable_write_poll refl)

pub ready_to_send-Calm :
    (n : ℕ) (w : Forwarder) {v : Forwarder} → ready_to_send n w ≡ ok v → Calm w v
unfolding ready_to_send
ready_to_send-Calm n w e = elim (List-cases w.data_for_channel) [
  | inl quiet ↦ ground arith
  | inr (x, xs, some_data) ↦ ground (
    arith,
    silent w.conn_calls enable_read_poll refl,
    silent (w.conn_calls ++ (enable_read_poll ∷ [])) raise_dummy_read_poll refl,
  )
]

drop_net_conn-Calm : (w : Forwarder) → Calm w (drop_net_conn w)
unfolding drop_net_conn
drop_net_conn-Calm w = ground (
  arith,
  silent w.conn_calls deregister_handler refl,
  silent (w.conn_calls ++ (deregister_handler ∷ [])) close_conn refl,
)

drop_counter-Calm : (w : Forwarder) → Calm w (drop_counter w)
unfolding drop_counter
drop_counter-Calm w = ground arith

close_channel-Calm : (f : SessionFeatures) (w : Forwarder) → Calm w (close_channel f w)
unfolding close_channel
close_channel-Calm f w =
    let s : Step Bool = close f w.channel in
    ground (
      arith,
      close-Still f w.channel,
      sent_bytes-append w.channel_effects s.effects,
      append-nil (sent_bytes w.channel_effects),
    )

pub close_by_net_conn-Calm : (f : SessionFeatures) (w : Forwarder) → Calm w (close_by_net_conn f w)
unfolding close_by_net_conn
close_by_net_conn-Calm f w = Calm-trans (drop_counter-Calm w) (
    Calm-trans (drop_net_conn-Calm (drop_counter w))
      (close_channel-Calm f (drop_net_conn (drop_counter w))))

pub rejected-Calm : (why : Text) (w : Forwarder) {v : Forwarder} → rejected why w ≡ ok v → Calm w v
unfolding rejected
rejected-Calm why w e = ground (arith, drop_net_conn-Calm w)

pub accepted-Calm : (w : Forwarder) {v : Forwarder} → accepted w ≡ ok v → Calm w v
unfolding accepted
accepted-Calm w e = elim (List-cases w.data_for_channel) [
  | inl quiet ↦ ground (arith, silent w.conn_calls enable_read_poll refl)
  | inr (x, xs, some_data) ↦ ground (
    arith,
    silent w.conn_calls enable_read_poll refl,
    silent (w.conn_calls ++ (enable_read_poll ∷ [])) raise_dummy_read_poll refl,
  )
]

pub cleaned_up-Calm : (w : Forwarder) → Calm w (cleaned_up w)
unfolding cleaned_up
cleaned_up-Calm w = ground (arith, drop_counter-Calm w, drop_net_conn-Calm (drop_counter w))

-- A forwarder that a reset may have cleaned up: the bytes are where they were.
pub record Alike (u v : Forwarder) : Type 0 where
  pub effects : v.channel_effects ≡ u.channel_effects
  pub pending : v.data_for_channel ≡ u.data_for_channel
  pub waiting : v.data_for_net_conn ≡ u.data_for_net_conn
  pub queue : v.channel.recv_queue ≡ u.channel.recv_queue
  pub read : read_bytes v.conn_calls ≡ read_bytes u.conn_calls
  pub written : written_bytes v.conn_calls ≡ written_bytes u.conn_calls

pub reset_if-Alike : (lost : Bool) (es : List Effect) (u : Forwarder) → Alike u (reset_if lost es u)
unfolding reset_if cleaned_up drop_net_conn drop_counter
reset_if-Alike lost es u = ground (
  arith,
  read_bytes-append u.conn_calls (deregister_handler ∷ []),
  read_bytes-append (u.conn_calls ++ (deregister_handler ∷ [])) (close_conn ∷ []),
  written_bytes-append u.conn_calls (deregister_handler ∷ []),
  written_bytes-append (u.conn_calls ++ (deregister_handler ∷ [])) (close_conn ∷ []),
  append-nil (read_bytes u.conn_calls),
  append-nil (written_bytes u.conn_calls),
)

pub Alike-Calm : {u v : Forwarder} → Alike u v → Calm u v
Alike-Calm a = ground arith
