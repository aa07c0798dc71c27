-- ===== src/Forwarder/Streams.antt =====
-- src/protocol/Channel.cc, as a forwarder uses it: the bytes that a method takes from the queue and the
-- bytes that it sends.
use libpinggy.Prelude.{
  ℕ, ◌≡◌, refl, ap, ◌⊎◌, inl, inr, List, [], ◌∷◌, ◌++◌, append-nil, append_assoc, length, concat,
  Option, none, some, Option-cases, ℤ, pos, negsuc, ok, arith, if◌then◌else◌, Bool-cases,
}
use libpinggy.Features.{SessionFeatures}
use libpinggy.Message.{Text, SetupChannelResponseMsg, channel_data}
use libpinggy.RawData.View.{slice_bytes, slice-append-consume}
use libpinggy.Channel.State.{Channel, Effect, Step, send_or_queue}
use libpinggy.Channel.Transfer.{
  send, send_pieces, data_effects, recv, recv_from, take_front, adjust_window, longer,
}
use libpinggy.Channel.Handlers.{
  handle_new_channel_response, handle_channel_data, handle_channel_window_adjust,
  handle_channel_close, handle_channel_error, close_timeout_triggered, cleanup, takes_data,
}
use libpinggy.Channel.{connect, close}
use libpinggy.Channel.Pieces.{send_pieces_join}

-- The data bytes of the messages among the calls.
abbrev pub sent_bytes : List Effect → List ℕ
sent_bytes [] = []
sent_bytes (send_or_queue (channel_data id xs) h ∷ es) = xs ++ sent_bytes es
sent_bytes (e ∷ es) = sent_bytes es

sent_bytes-data_effects :
    (c : Channel) (ps : List (List ℕ)) → sent_bytes (data_effects c ps) ≡ concat ps
sent_bytes-data_effects c [] = refl
sent_bytes-data_effects c (p ∷ ps) = ap (λ xs. p ++ xs) (sent_bytes-data_effects c ps)

pub sent_bytes-append :
    (es fs : List Effect) → sent_bytes (es ++ fs) ≡ sent_bytes es ++ sent_bytes fs
sent_bytes-append [] fs = refl
sent_bytes-append (send_or_queue (channel_data id xs) h ∷ es) fs =
    rw (sent_bytes-append es fs, append_assoc)
sent_bytes-append (e ∷ es) fs = sent_bytes-append es fs

-- A method that leaves the queue alone and sends no data.
pub record Still {ℓ} {R : Type ℓ} (c : Channel) (s : Step R) : Type 0 where
  pub queue : s.channel.recv_queue ≡ c.recv_queue
  pub nothing : sent_bytes s.effects ≡ []

pub connect-Still : (f : SessionFeatures) (id : ℕ) (c : Channel) → Still c (connect f id c)
unfolding connect
connect-Still f id c = ground arith

pub close-Still : (f : SessionFeatures) (c : Channel) → Still c (close f c)
unfolding close
close-Still f c = ground arith

pub response-Still :
    (f : SessionFeatures) (msg : SetupChannelResponseMsg) (c : Channel) {s : Step (Unit {0})}
    → handle_new_channel_response f msg c ≡ ok s
    → Still c s
unfolding handle_new_channel_response
response-Still f msg c e = ground arith

pub window_adjust-Still : (n : ℕ) (c : Channel) → Still c (handle_channel_window_adjust n c)
unfolding handle_channel_window_adjust
window_adjust-Still n c = ground arith

pub channel_close-Still : (c : Channel) → Still c (handle_channel_close c)
unfolding handle_channel_close
channel_close-Still c = ground arith

pub channel_error-Still :
    (n : ℕ) (why : Text) (c : Channel) → Still c (handle_channel_error n why c)
unfolding handle_channel_error
channel_error-Still n why c = ground arith

pub timeout-Still : (c : Channel) → Still c (close_timeout_triggered c)
unfolding close_timeout_triggered
timeout-Still c = ground arith

pub cleanup-Still : (c : Channel) → Still c (cleanup c)
unfolding cleanup
cleanup-Still c = ground arith

-- Data that arrives goes to the end of the queue, in a state that takes it.
pub record Arrives (f : SessionFeatures) (xs : List ℕ) (c : Channel) (s : Step (Unit {0}))
    : Type 0 where
  pub queue :
      concat s.channel.recv_queue ≡ concat c.recv_queue ++ (if takes_data f c.state then xs else [])
  pub nothing : sent_bytes s.effects ≡ []

concat-snoc : (q : List (List ℕ)) (xs : List ℕ) → concat (q ++ (xs ∷ [])) ≡ concat q ++ xs
concat-snoc [] xs = append-nil xs
concat-snoc (x ∷ q) xs = rw (concat-snoc q xs, append_assoc)

pub channel_data-Arrives :
    (f : SessionFeatures) (xs : List ℕ) (c : Channel) {s : Step (Unit {0})}
    → handle_channel_data f xs c ≡ ok s
    → Arrives f xs c s
unfolding handle_channel_data
channel_data-Arrives f xs c e =
    ground (arith, concat-snoc c.recv_queue xs, append-nil (concat c.recv_queue))

-- `Send` sends all of the data or none of it.
pub send-cases :
    (fuel : ℕ) (c : Channel) (xs : List ℕ) {s : Step ℤ}
    → send fuel c xs ≡ some s
    → (s.channel.recv_queue ≡ c.recv_queue)
      × (((s.result ≡ pos (length xs)) × (sent_bytes s.effects ≡ xs))
          ⊎ ((s.result ≡ negsuc 0) × (sent_bytes s.effects ≡ [])))
unfolding send
send-cases fuel c xs e = elim (Option-cases (send_pieces fuel c.remote_max_packet xs)) [
  | inl stuck ↦ ground arith
  | inr (ps, p) ↦
      ground
        (arith, sent_bytes-data_effects c ps, (send_pieces_join fuel c.remote_max_packet xs ps p).0)
]

abbrev pub received : ℤ × Option (List ℕ) → List ℕ
received (n, none) = []
received (n, some xs) = xs

-- The shapes of the results of `Recv`.
abbrev pub IsResult : ℤ × Option (List ℕ) → Type 0
IsResult (pos n, none) = n ≡ 0
IsResult (pos n, some xs) = n ≡ length xs
IsResult (negsuc n, none) = Unit {0}
IsResult (negsuc n, some xs) = ⊥

-- `Recv` takes what it returns off the front of the queue.
pub record Takes (c : Channel) (s : Step (ℤ × Option (List ℕ))) : Type 0 where
  pub queue : received s.result ++ concat s.channel.recv_queue ≡ concat c.recv_queue
  pub nothing : sent_bytes s.effects ≡ []
  pub shape : IsResult s.result

take_front-concat :
    (top : List ℕ) (rest : List (List ℕ)) (len : ℤ)
    → (take_front top rest len).0 ++ concat (take_front top rest len).1 ≡ top ++ concat rest
unfolding take_front
take_front-concat top rest len = elim (Bool-cases (longer (length top) len)) [
  | inl long ↦ rw (long, ← append_assoc (slice_bytes (pos 0) len top), slice-append-consume len top)
  | inr short ↦ rw short
]

adjust_window-Still :
    (c : Channel) (n : ℕ)
    → ((adjust_window c n).0.recv_queue ≡ c.recv_queue) × (sent_bytes (adjust_window c n).1 ≡ [])
unfolding adjust_window
adjust_window-Still c n = ground arith

recv_from-Takes :
    (q : List (List ℕ)) (c : Channel) (len : ℤ) → c.recv_queue ≡ q → Takes c (recv_from q c len)
unfolding recv_from
recv_from-Takes [] c len e = ground arith
recv_from-Takes (top ∷ rest) c len e =
    let (raw, queue) = take_front top rest len in
    ground (
      arith,
      take_front-concat top rest len,
      adjust_window-Still (record c { recv_queue = queue }) (length raw),
    )

pub recv-Takes : (c : Channel) (len : ℤ) → Takes c (recv c len)
unfolding recv
recv-Takes c len = ground (arith, recv_from-Takes c.recv_queue c len refl)
