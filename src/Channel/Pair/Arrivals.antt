-- ===== src/Channel/Pair/Arrivals.antt =====
-- What a message that arrives does to the two windows of the end that it comes to.
use libpinggy.Prelude.{ℕ, ◌+◌, ◌≤◌, ◌≡◌, ◌≢◌, List, [], ok, aborted, arith}
use libpinggy.Features.{SessionFeatures}
use libpinggy.Message.{
  ProtoMsg, SetupChannelResponseMsg, client_hello, server_hello, error_msg, authenticate,
  authentication_response, remote_forward_request, remote_forward_response, setup_channel,
  setup_channel_response, channel_data, channel_window_adjust, channel_close, channel_error,
  keep_alive, keep_alive_response, disconnect, warning_msg, usages, unknown_msg,
}
use libpinggy.Channel.State.{Channel, connecting, connect_responding, Step, max_packet}
use libpinggy.Channel.Handlers.{
  done, handle_new_channel_response, handle_channel_data, handle_channel_window_adjust,
  handle_channel_close,
}
use libpinggy.Channel.Window
use libpinggy.Channel.Window.{IsBalanced}
use libpinggy.Channel.Pair.{sends, deliver}
use libpinggy.Channel.Pair.Local.{
  data_size, credit_size, data_bytes, credit_bytes, IsGrant, Grants, head_start,
}

-- What an arrival does: data takes at most its length off the local window, credit and an answer add
-- at most what they say to the remote one, and what is sent in return carries neither.
pub record Arrives (m : ProtoMsg) (c : Channel) (s : Step (Unit {0})) : Type 0 where
  pub lost : c.local_window ≤ s.channel.local_window + data_size m
  pub gained :
      s.channel.remote_window + head_start s.channel.state
      ≤ c.remote_window + head_start c.state + credit_size m
  pub no_data : data_bytes (sends s.effects) ≡ 0
  pub no_credit : credit_bytes (sends s.effects) ≡ 0
  pub grants : Grants (sends s.effects)
  pub quiet :
      s.channel.state ≡ connect_responding
      → (c.state ≡ connect_responding)
        × (sends s.effects ≡ [])
        × (s.channel.allow_write ≡ c.allow_write)
  pub steady : c.state ≡ connect_responding → s.channel.remote_window ≡ c.remote_window

response-Arrives :
    (f : SessionFeatures) (msg : SetupChannelResponseMsg) (c : Channel) {s : Step (Unit {0})}
    → IsGrant (setup_channel_response msg)
    → (c.state ≡ connecting → c.remote_window ≤ max_packet)
    → handle_new_channel_response f msg c ≡ ok s
    → Arrives (setup_channel_response msg) c s
unfolding handle_new_channel_response
response-Arrives f msg c g w e = ground arith

data-Arrives :
    (f : SessionFeatures) (id : ℕ) (xs : List ℕ) (c : Channel) {s : Step (Unit {0})}
    → handle_channel_data f xs c ≡ ok s
    → Arrives (channel_data id xs) c s
unfolding handle_channel_data
data-Arrives f id xs c e = ground arith

adjust-Arrives :
    (id n : ℕ) (c : Channel)
    → Arrives (channel_window_adjust id n) c (handle_channel_window_adjust n c)
unfolding handle_channel_window_adjust
adjust-Arrives id n c = ground arith

close-Arrives : (id : ℕ) (c : Channel) → Arrives (channel_close id) c (handle_channel_close c)
unfolding handle_channel_close
close-Arrives id c = ground arith

other-Arrives : (m : ProtoMsg) (c : Channel) → data_size m ≡ 0 → Arrives m c (done c [])
other-Arrives m c h = ground arith

pub deliver-Arrives :
    (f : SessionFeatures) (m : ProtoMsg) (c : Channel) {s : Step (Unit {0})}
    → IsGrant m
    → (c.state ≡ connecting → c.remote_window ≤ max_packet)
    → deliver f m c ≡ ok s
    → Arrives m c s
unfolding deliver
deliver-Arrives f (setup_channel_response msg) c g w e = response-Arrives f msg c g w e
deliver-Arrives f (channel_data id xs) c g w e = data-Arrives f id xs c e
deliver-Arrives f (channel_window_adjust id n) c g w e = ground (arith, adjust-Arrives id n c)
deliver-Arrives f (channel_close id) c g w e = ground (arith, close-Arrives id c)
deliver-Arrives f (client_hello v) c g w e = ground (arith, other-Arrives (client_hello v) c)
deliver-Arrives f (server_hello v) c g w e = ground (arith, other-Arrives (server_hello v) c)
deliver-Arrives f (error_msg n why flag) c g w e =
    ground (arith, other-Arrives (error_msg n why flag) c)
deliver-Arrives f (authenticate user args flag) c g w e =
    ground (arith, other-Arrives (authenticate user args flag) c)
deliver-Arrives f (authentication_response flag why ms info) c g w e =
    ground (arith, other-Arrives (authentication_response flag why ms info) c)
deliver-Arrives f (remote_forward_request r p bind q host mode) c g w e =
    ground (arith, other-Arrives (remote_forward_request r p bind q host mode) c)
deliver-Arrives f (remote_forward_response r i flag us fs why) c g w e =
    ground (arith, other-Arrives (remote_forward_response r i flag us fs why) c)
deliver-Arrives f (setup_channel msg) c g w e = ground (arith, other-Arrives (setup_channel msg) c)
deliver-Arrives f (channel_error id n why) c g w e =
    ground (arith, other-Arrives (channel_error id n why) c)
deliver-Arrives f (keep_alive n) c g w e = ground (arith, other-Arrives (keep_alive n) c)
deliver-Arrives f (keep_alive_response n) c g w e =
    ground (arith, other-Arrives (keep_alive_response n) c)
deliver-Arrives f (disconnect why) c g w e = ground (arith, other-Arrives (disconnect why) c)
deliver-Arrives f (warning_msg n why) c g w e = ground (arith, other-Arrives (warning_msg n why) c)
deliver-Arrives f (usages u) c g w e = ground (arith, other-Arrives (usages u) c)
deliver-Arrives f (unknown_msg n) c g w e = ground (arith, other-Arrives (unknown_msg n) c)

pub deliver-IsBalanced :
    (f : SessionFeatures) (m : ProtoMsg) (c : Channel) {s : Step (Unit {0})}
    → deliver f m c ≡ ok s
    → IsBalanced c
    → IsBalanced s.channel
unfolding deliver
deliver-IsBalanced f (setup_channel_response msg) c {s} e b =
    (Window.Quiet-Accounts s (Window.response-Quiet f msg c e) b).balanced
deliver-IsBalanced f (channel_data id xs) c e b = Window.channel_data-IsBalanced f xs c e b
deliver-IsBalanced f (channel_window_adjust id n) c e b = ground (
  arith,
  Window.Quiet-Accounts (handle_channel_window_adjust n c) (Window.window_adjust-Quiet n c) b,
)
deliver-IsBalanced f (channel_close id) c e b =
    ground (arith, Window.Quiet-Accounts (handle_channel_close c) (Window.channel_close-Quiet c) b)
deliver-IsBalanced f (client_hello v) c e b = ground arith
deliver-IsBalanced f (server_hello v) c e b = ground arith
deliver-IsBalanced f (error_msg n why flag) c e b = ground arith
deliver-IsBalanced f (authenticate user args flag) c e b = ground arith
deliver-IsBalanced f (authentication_response flag why ms info) c e b = ground arith
deliver-IsBalanced f (remote_forward_request r p bind q host mode) c e b = ground arith
deliver-IsBalanced f (remote_forward_response r i flag us fs why) c e b = ground arith
deliver-IsBalanced f (setup_channel msg) c e b = ground arith
deliver-IsBalanced f (channel_error id n why) c e b = ground arith
deliver-IsBalanced f (keep_alive n) c e b = ground arith
deliver-IsBalanced f (keep_alive_response n) c e b = ground arith
deliver-IsBalanced f (disconnect why) c e b = ground arith
deliver-IsBalanced f (warning_msg n why) c e b = ground arith
deliver-IsBalanced f (usages u) c e b = ground arith
deliver-IsBalanced f (unknown_msg n) c e b = ground arith

-- An arrival ends the process only for an answer whose window holds no packet, or for data that the
-- local window does not hold.
pub deliver-ne-aborted :
    (f : SessionFeatures) (m : ProtoMsg) (c : Channel)
    → IsGrant m
    → data_size m ≤ c.local_window
    → deliver f m c ≢ aborted
unfolding deliver handle_new_channel_response handle_channel_data
deliver-ne-aborted f m c g h e = ground arith
