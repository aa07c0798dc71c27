-- ===== src/Channel/Pair/Local.antt =====
-- What the calls made at one end do to the two windows.
use libpinggy.Prelude.{
  ℕ, suc, ◌+◌, ◌-◌, ◌≤◌, ◌≡◌, refl, ap, true, false, List, [], ◌∷◌, length, some, Option-cases, inl,
  inr, ◌≢◌, concat, length-append, ℤ, arith,
}
use libpinggy.Features.{SessionFeatures}
use libpinggy.Message.{Text, ProtoMsg, setup_channel_response, channel_data, channel_window_adjust}
use libpinggy.Channel.State.{
  Channel, ChannelState, connecting, connect_responding, Effect, Step, max_packet,
  channel_window_size,
}
use libpinggy.Channel.Handlers.{close_timeout_triggered}
use libpinggy.Channel.Transfer.{
  send, send_pieces, data_effects, recv, recv_from, adjust_window, take_front,
}
use libpinggy.Channel.Pieces.{send_pieces_join}
use libpinggy.Channel.Window
use libpinggy.Channel.Window.{IsBalanced, queued, credits}
use libpinggy.Channel.History.{
  Call, perform, registers_event_handler, accepts, closes, times_out, rejects, sends as sends_call,
  receives, connects, gets_close, gets_response, gets_data, gets_window_adjust, gets_error,
}
use libpinggy.Channel.{accept, reject, close, register_event_handler}
use libpinggy.Channel.Pair.{sends, is_local}

-- The data bytes of a message, and the bytes that it gives back.
abbrev pub data_size : ProtoMsg → ℕ
data_size (channel_data id xs) = length xs
data_size m = 0

abbrev pub credit_size : ProtoMsg → ℕ
credit_size (channel_window_adjust id n) = n
credit_size m = 0

abbrev pub data_bytes : List ProtoMsg → ℕ
data_bytes [] = 0
data_bytes (m ∷ ms) = data_size m + data_bytes ms

abbrev pub credit_bytes : List ProtoMsg → ℕ
credit_bytes [] = 0
credit_bytes (m ∷ ms) = credit_size m + credit_bytes ms

-- An answer that accepts announces whole packets and a window that holds one and is no larger than
-- the window of a new channel.
abbrev pub IsGrant : ProtoMsg → Type 0
IsGrant (setup_channel_response msg) =
    msg.accept ≡ true
    → (msg.max_data_size ≡ max_packet)
      × (max_packet ≤ msg.initial_window_size)
      × (msg.initial_window_size ≤ channel_window_size)
IsGrant m = Unit {0}

abbrev pub Grants : List ProtoMsg → Type 0
Grants [] = Unit {0}
Grants (m ∷ ms) = IsGrant m × Grants ms

-- What the window of a new channel exceeds the head start that a connecting sender takes for itself.
abbrev pub head_start : ChannelState → ℕ
head_start connecting = channel_window_size - max_packet
head_start s = 0

-- What a call at one end does. A channel that has not been answered yet may not write.
pub record Spends (c : Channel) (r : Channel × List Effect) : Type 0 where
  pub spent : r.0.remote_window + data_bytes (sends r.1) ≡ c.remote_window
  pub given : r.0.local_window ≡ c.local_window + credit_bytes (sends r.1)
  pub head : head_start r.0.state ≤ head_start c.state
  pub grants :
      IsBalanced c
      → (c.state ≡ connect_responding → max_packet ≤ c.local_window)
      → Grants (sends r.1)
  pub stays : r.0.state ≡ connect_responding → c.state ≡ connect_responding
  pub quiet :
      r.0.state ≡ connect_responding
      → c.allow_write ≡ false
      → (sends r.1 ≡ []) × (r.0.allow_write ≡ false)

accept-Spends :
    (f : SessionFeatures) (c : Channel) → Spends c ((accept f c).channel, (accept f c).effects)
unfolding accept
accept-Spends f c = ground arith

close-Spends :
    (f : SessionFeatures) (c : Channel) → Spends c ((close f c).channel, (close f c).effects)
unfolding close
close-Spends f c = ground arith

reject-Spends :
    (f : SessionFeatures) (why : Text) (c : Channel)
    → Spends c ((reject f why c).channel, (reject f why c).effects)
unfolding reject
reject-Spends f why c = ground arith

timeout-Spends :
    (c : Channel)
    → Spends c ((close_timeout_triggered c).channel, (close_timeout_triggered c).effects)
unfolding close_timeout_triggered
timeout-Spends c = ground arith

-- The messages of a sent piece list.
data_effects_lem :
    (c : Channel) (ps : List (List ℕ))
    → (data_bytes (sends (data_effects c ps)) ≡ length (concat ps))
      × (credit_bytes (sends (data_effects c ps)) ≡ 0)
      × Grants (sends (data_effects c ps))
data_effects_lem c [] = (refl, refl, tt)
data_effects_lem c (p ∷ ps) =
    let (a, b, g) = data_effects_lem c ps in
    (omega (arith, a, length-append p (concat ps)), omega (arith, b), (tt, g))

send-Spends :
    (fuel : ℕ) (c : Channel) (xs : List ℕ) {s : Step ℤ}
    → send fuel c xs ≡ some s
    → Spends c (s.channel, s.effects)
unfolding send
send-Spends fuel c xs e = elim (Option-cases (send_pieces fuel c.remote_max_packet xs)) [
  | inl stuck ↦ ground arith
  | inr (ps, p) ↦
      let (joined, small) = send_pieces_join fuel c.remote_max_packet xs ps p in
      ground (arith, data_effects_lem c ps, ap length joined)
]

adjust_window-sends :
    (c : Channel) (n : ℕ)
    → ((adjust_window c n).0.state ≡ c.state)
      × ((adjust_window c n).0.remote_window ≡ c.remote_window)
      × ((adjust_window c n).0.allow_write ≡ c.allow_write)
      × (data_bytes (sends (adjust_window c n).1) ≡ 0)
      × (credit_bytes (sends (adjust_window c n).1) ≡ credits (adjust_window c n).1)
      × Grants (sends (adjust_window c n).1)
unfolding adjust_window
adjust_window-sends c n = ground arith

recv_from-Spends :
    (q : List (List ℕ)) (c : Channel) (len : ℤ)
    → c.recv_queue ≡ q
    → IsBalanced c
    → c.state ≢ connect_responding
    → Spends c ((recv_from q c len).channel, (recv_from q c len).effects)
unfolding recv_from
recv_from-Spends [] c len e b h = ground arith
recv_from-Spends (top ∷ rest) c len e b h =
    let (raw, queue) = take_front top rest len in
    ground (
      arith,
      (Window.recv_from-Accounts (top ∷ rest) c len e b).grows,
      adjust_window-sends (record c { recv_queue = queue }) (length raw),
    )

recv-Spends :
    (c : Channel) (len : ℤ) → IsBalanced c → Spends c ((recv c len).channel, (recv c len).effects)
unfolding recv
recv-Spends c len b = ground (arith, recv_from-Spends c.recv_queue c len refl b)

-- Every call that the program around a channel makes spends what it sends and is given what it gives
-- back.
pub perform-Spends :
    (f : SessionFeatures) (c : Channel) (x : Call) {r : Channel × List Effect}
    → IsBalanced c
    → is_local x ≡ true
    → perform f c x ≡ some r
    → Spends c r
unfolding perform
perform-Spends f c registers_event_handler b h e = unfold register_event_handler in ground arith
perform-Spends f c accepts b h e = ground (arith, accept-Spends f c)
perform-Spends f c closes b h e = ground (arith, close-Spends f c)
perform-Spends f c times_out b h e = ground (arith, timeout-Spends c)
perform-Spends f c (rejects why) b h e = ground (arith, reject-Spends f why c)
perform-Spends f c (sends_call xs) b h e = elim (Option-cases (send (suc (length xs)) c xs)) [
  | inl stuck ↦ absurd (ground arith)
  | inr (s, p) ↦ ground (arith, send-Spends (suc (length xs)) c xs p)
]
perform-Spends f c (receives len) b h e = ground (arith, recv-Spends c len b)
perform-Spends f c (connects id) b h e = absurd (ground arith)
perform-Spends f c gets_close b h e = absurd (ground arith)
perform-Spends f c (gets_response msg) b h e = absurd (ground arith)
perform-Spends f c (gets_data xs) b h e = absurd (ground arith)
perform-Spends f c (gets_window_adjust n) b h e = absurd (ground arith)
perform-Spends f c (gets_error n why) b h e = absurd (ground arith)
