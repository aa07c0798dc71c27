-- ===== src/Forwarder/Safety.antt =====
-- src/protocol/ChannelConnectionForwarder.cc: the pointers of a forwarder, and that its methods return.
use libpinggy.Prelude.{
  ℕ, ◌<◌, ◌≡◌, Bool, true, false, not, ◌&&◌, ◌||◌, [], ◌∷◌, List-cases, Outcome, ok, aborted, inl,
  inr, arith,
}
use libpinggy.Features.{SessionFeatures}
use libpinggy.Message.{Text}
use libpinggy.Channel.{close}
use libpinggy.Channel.State.{Channel, connecting, connected, close_responding, in_state}
use libpinggy.Forwarder.State.{Forwarder}
use libpinggy.Forwarder.{
  enable_copy_from_channel, disable_copy_from_channel, enable_copy_from_net_conn,
  disable_copy_from_net_conn, drop_net_conn, drop_counter, close_channel, close_by_net_conn,
  data_received, ready_to_send, rejected, accepted, cleaned_up,
}

-- The states in which a forwarder is the channel's event handler.
abbrev pub is_open : Channel → Bool
is_open c = in_state c.state (connecting ∷ connected ∷ close_responding ∷ [])

-- Both pointers are null, or none; while the channel calls the forwarder they are not null and the
-- channel is open; and the peer takes packets.
pub record IsSafe (w : Forwarder) : Type 0 where
  pub together : w.has_channel ≡ w.has_net_conn
  pub handled : (not w.channel.has_handler || (w.has_net_conn && is_open w.channel)) ≡ true
  pub packets : 0 < w.channel.remote_max_packet

-- A method that leaves the pointers and the channel alone.
pub record Stays (w v : Forwarder) : Type 0 where
  pub channel : v.channel ≡ w.channel
  pub to_channel : v.has_channel ≡ w.has_channel
  pub to_conn : v.has_net_conn ≡ w.has_net_conn

unfoldable pub StaysOk : Forwarder → Outcome Forwarder → Type 0
StaysOk w aborted = ⊥
StaysOk w (ok v) = Stays w v

-- A call returns, and leaves the forwarder safe.
unfoldable pub SafeOk : Outcome Forwarder → Type 0
SafeOk aborted = ⊥
SafeOk (ok v) = IsSafe v

pub StaysOk-SafeOk : (w : Forwarder) (o : Outcome Forwarder) → StaysOk w o → IsSafe w → SafeOk o
unfolding StaysOk SafeOk
StaysOk-SafeOk w aborted s h = s
StaysOk-SafeOk w (ok v) s h = ground arith

pub data_received-Stays : (w : Forwarder) → w.has_net_conn ≡ true → StaysOk w (data_received w)
unfolding data_received StaysOk
data_received-Stays w there = ground arith

pub ready_to_send-Stays :
    (n : ℕ) (w : Forwarder) → w.has_net_conn ≡ true → StaysOk w (ready_to_send n w)
unfolding ready_to_send StaysOk
ready_to_send-Stays n w there = elim (List-cases w.data_for_channel) [
  | inl quiet ↦ ground arith
  | inr (x, xs, some_data) ↦ ground arith
]

pub accepted-Stays :
    (w : Forwarder)
    → w.has_net_conn ≡ true
    → w.has_channel ≡ true
    → in_state w.channel.state (connected ∷ []) ≡ true
    → StaysOk w (accepted w)
unfolding accepted StaysOk
accepted-Stays w there too is_connected = elim (List-cases w.data_for_channel) [
  | inl quiet ↦ ground arith
  | inr (x, xs, some_data) ↦ ground arith
]

pub enable_copy_from_channel-Stays :
    (w : Forwarder) → w.has_net_conn ≡ true → StaysOk w (enable_copy_from_channel w)
unfolding enable_copy_from_channel StaysOk
enable_copy_from_channel-Stays w there = ground arith

pub disable_copy_from_channel-Stays :
    (w : Forwarder) → w.has_net_conn ≡ true → StaysOk w (disable_copy_from_channel w)
unfolding disable_copy_from_channel StaysOk
disable_copy_from_channel-Stays w there = ground arith

pub enable_copy_from_net_conn-Stays :
    (w : Forwarder) → w.has_net_conn ≡ true → StaysOk w (enable_copy_from_net_conn w)
unfolding enable_copy_from_net_conn StaysOk
enable_copy_from_net_conn-Stays w there = elim (List-cases w.data_for_channel) [
  | inl quiet ↦ ground arith
  | inr (x, xs, some_data) ↦ ground arith
]

pub disable_copy_from_net_conn-Stays :
    (w : Forwarder) → w.has_net_conn ≡ true → StaysOk w (disable_copy_from_net_conn w)
unfolding disable_copy_from_net_conn StaysOk
disable_copy_from_net_conn-Stays w there = ground arith

-- Closing a channel of which the forwarder is the handler takes the handler away.
close-quiet :
    (f : SessionFeatures) (c : Channel)
    → (not c.has_handler || is_open c) ≡ true
    → ((close f c).channel.has_handler ≡ false)
      × ((close f c).channel.remote_max_packet ≡ c.remote_max_packet)
unfolding close
close-quiet f c h = ground arith

pub close_by_net_conn-IsSafe :
    (f : SessionFeatures) (w : Forwarder) → IsSafe w → IsSafe (close_by_net_conn f w)
unfolding close_by_net_conn drop_net_conn drop_counter close_channel
close_by_net_conn-IsSafe f w h = ground (arith, close-quiet f w.channel)

pub cleaned_up-safe :
    (w : Forwarder)
    → w.channel.has_handler ≡ false
    → 0 < w.channel.remote_max_packet
    → IsSafe (cleaned_up w)
unfolding cleaned_up drop_net_conn drop_counter
cleaned_up-safe w h p = ground arith

pub rejected-safe :
    (why : Text) (w : Forwarder)
    → w.has_net_conn ≡ true
    → w.channel.has_handler ≡ false
    → 0 < w.channel.remote_max_packet
    → SafeOk (rejected why w)
unfolding rejected drop_net_conn SafeOk
rejected-safe why w there h p = ground arith
