-- ===== src/Channel/Window.antt =====
-- Flow control at one end: where the bytes of the local window are.
use libpinggy.Prelude.{
  ℕ, ◌+◌, ◌*◌, ◌≤◌, ◌≡◌, refl, ap, List, [], ◌∷◌, ◌++◌, length, length-append, Option-cases, inl,
  inr, ok, some, ℤ, pos, arith,
}
use libpinggy.Features.{SessionFeatures}
use libpinggy.Message.{Text, SetupChannelResponseMsg, channel_window_adjust}
use libpinggy.RawData.View.{slice_bytes, consume_bytes, slice-append-consume}
use libpinggy.Channel.State.{Channel, Effect, Step, max_packet, channel_window_size, send_or_queue}
use libpinggy.Channel.Transfer.{
  adjust_window, credit_due, take_front, recv_from, recv, send, send_pieces, data_effects,
}
use libpinggy.Channel.Handlers.{
  handle_new_channel_response, handle_channel_data, handle_channel_window_adjust,
  handle_channel_close, handle_channel_error, close_timeout_triggered,
}
use libpinggy.Channel.{connect, accept, reject, close}

-- The bytes that wait in the queue.
abbrev pub queued : List (List ℕ) → ℕ
queued [] = 0
queued (x ∷ xs) = length x + queued xs

queued-append : (q r : List (List ℕ)) → queued (q ++ r) ≡ queued q + queued r
queued-append [] r = omega arith
queued-append (x ∷ q) r = omega (arith, queued-append q r)

-- Each byte of the window is free, waits in the queue, or was read and not given back yet; and what
-- was read and not given back is at most three packets.
pub record IsBalanced (c : Channel) : Type 0 where
  pub total : c.local_window + c.local_consumed + queued c.recv_queue ≡ channel_window_size
  pub lag : c.local_consumed ≤ 3 * max_packet
  pub packet : c.local_max_packet ≡ max_packet

-- The bytes that the calls give back to the peer.
abbrev pub credits : List Effect → ℕ
credits [] = 0
credits (send_or_queue (channel_window_adjust id n) h ∷ es) = n + credits es
credits (e ∷ es) = credits es

record Adjusted (c : Channel) (n : ℕ) (r : Channel × List Effect) : Type 0 where
  total : r.0.local_window + r.0.local_consumed ≡ c.local_window + c.local_consumed + n
  credit : r.0.local_window ≡ c.local_window + credits r.1
  lag : r.0.local_consumed ≤ 3 * max_packet
  queue : r.0.recv_queue ≡ c.recv_queue
  packet : r.0.local_max_packet ≡ max_packet

adjust_window-Adjusted :
    (c : Channel) (n : ℕ)
    → c.local_window + c.local_consumed + n ≤ channel_window_size
    → c.local_max_packet ≡ max_packet
    → Adjusted c n (adjust_window c n)
unfolding adjust_window credit_due
adjust_window-Adjusted c n room packet = ground arith

take_front-queued :
    (top : List ℕ) (rest : List (List ℕ)) (len : ℤ)
    → length (take_front top rest len).0 + queued (take_front top rest len).1
      ≡ length top + queued rest
unfolding take_front
take_front-queued top rest len = ground (
  arith,
  ap length (slice-append-consume len top),
  length-append (slice_bytes (pos 0) len top) (consume_bytes len top),
)

-- What a call does to the accounts: it keeps them, and gives back to the peer exactly the bytes by
-- which its window grows.
pub record Accounts {ℓ} {R : Type ℓ} (c : Channel) (s : Step R) : Type 0 where
  pub balanced : IsBalanced s.channel
  pub grows : s.channel.local_window ≡ c.local_window + credits s.effects

pub recv_from-Accounts :
    (q : List (List ℕ)) (c : Channel) (len : ℤ)
    → c.recv_queue ≡ q
    → IsBalanced c
    → Accounts c (recv_from q c len)
unfolding recv_from
recv_from-Accounts [] c len e b = ground arith
recv_from-Accounts (top ∷ rest) c len e b =
    let (raw, queue) = take_front top rest len in
    ground (
      arith,
      take_front-queued top rest len,
      adjust_window-Adjusted (record c { recv_queue = queue }) (length raw),
    )

-- `Recv` on a channel whose window accounts are balanced, in every state and with every length, keeps
-- them balanced, and gives
-- back to the peer exactly the bytes by which its window grows.
pub recv-Accounts : (c : Channel) (len : ℤ) → IsBalanced c → Accounts c (recv c len)
unfolding recv
recv-Accounts c len b = ground (arith, recv_from-Accounts c.recv_queue c len refl b)

-- The other calls give nothing back and leave the accounts alone, but for data that arrives: it
-- moves from the window to the queue.
pub record Quiet {ℓ} {R : Type ℓ} (c : Channel) (s : Step R) : Type 0 where
  pub window : s.channel.local_window ≡ c.local_window
  pub consumed : s.channel.local_consumed ≡ c.local_consumed
  pub queue : s.channel.recv_queue ≡ c.recv_queue
  pub packet : s.channel.local_max_packet ≡ c.local_max_packet
  pub credit : credits s.effects ≡ 0

pub Quiet-Accounts {ℓ} :
    {R : Type ℓ} {c : Channel} (s : Step R) → Quiet c s → IsBalanced c → Accounts c s
Quiet-Accounts s q b = ground arith

pub connect-Quiet : (f : SessionFeatures) (id : ℕ) (c : Channel) → Quiet c (connect f id c)
unfolding connect
connect-Quiet f id c = ground arith

pub accept-Quiet : (f : SessionFeatures) (c : Channel) → Quiet c (accept f c)
unfolding accept
accept-Quiet f c = ground arith

pub reject-Quiet : (f : SessionFeatures) (why : Text) (c : Channel) → Quiet c (reject f why c)
unfolding reject
reject-Quiet f why c = ground arith

pub close-Quiet : (f : SessionFeatures) (c : Channel) → Quiet c (close f c)
unfolding close
close-Quiet f c = ground arith

credits-data : (c : Channel) (ps : List (List ℕ)) → credits (data_effects c ps) ≡ 0
credits-data c [] = refl
credits-data c (p ∷ ps) = credits-data c ps

pub send-Quiet :
    (fuel : ℕ) (c : Channel) (xs : List ℕ) {s : Step ℤ} → send fuel c xs ≡ some s → Quiet c s
unfolding send
send-Quiet fuel c xs e = elim (Option-cases (send_pieces fuel c.remote_max_packet xs)) [
  | inl stuck ↦ ground arith
  | inr (ps, p) ↦ ground (arith, credits-data c ps)
]

pub response-Quiet :
    (f : SessionFeatures) (msg : SetupChannelResponseMsg) (c : Channel) {s : Step (Unit {0})}
    → handle_new_channel_response f msg c ≡ ok s
    → Quiet c s
unfolding handle_new_channel_response
response-Quiet f msg c e = ground arith

pub window_adjust-Quiet : (n : ℕ) (c : Channel) → Quiet c (handle_channel_window_adjust n c)
unfolding handle_channel_window_adjust
window_adjust-Quiet n c = ground arith

pub channel_close-Quiet : (c : Channel) → Quiet c (handle_channel_close c)
unfolding handle_channel_close
channel_close-Quiet c = ground arith

pub channel_error-Quiet :
    (n : ℕ) (why : Text) (c : Channel) → Quiet c (handle_channel_error n why c)
unfolding handle_channel_error
channel_error-Quiet n why c = ground arith

pub close_timeout-Quiet : (c : Channel) → Quiet c (close_timeout_triggered c)
unfolding close_timeout_triggered
close_timeout-Quiet c = ground arith

pub channel_data-IsBalanced :
    (f : SessionFeatures) (xs : List ℕ) (c : Channel) {s : Step (Unit {0})}
    → handle_channel_data f xs c ≡ ok s
    → IsBalanced c
    → IsBalanced s.channel
unfolding handle_channel_data
channel_data-IsBalanced f xs c e b = ground (arith, queued-append c.recv_queue (xs ∷ []))
