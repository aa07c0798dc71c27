-- ===== src/Tests/Channels.antt =====
-- Runs of one channel and of a pair.
use libpinggy.Prelude.{
  ℕ, ◌-◌, ◌<◌, ◌≤◌, ◌≡◌, ◌≢◌, refl, true, false, List, [], ◌∷◌, length, none, some, ℤ, pos, aborted,
  bytes, arith, ok,
}
use libpinggy.Features.{SessionFeatures, version_1_02}
use libpinggy.Message.{channel_data, channel_close}
use libpinggy.Channel.State.{
  Channel, Effect, Step, connecting, connect_responding, connected, closing, closed,
  channel_window_size, max_packet, deregister_channel, setup_close_timeout, send_or_queue,
}
use libpinggy.Channel.{new_channel, set_channel_info, setup_msg, connect, close, close_open}
use libpinggy.Channel.Transfer.{send, send_pieces, recv}
use libpinggy.Channel.Handlers.{initiate_incoming_channel, close_timeout_triggered}
use libpinggy.Channel.Lifecycle.{entry_after}
use libpinggy.Channel.Pieces.{Sent, send-Sent, send_pieces_endless}
use libpinggy.Channel.Window.{IsBalanced, Accounts, recv-Accounts}
use libpinggy.Channel.History.{
  sends, closes, times_out, perform, run, run-entry, run-IsBalanced, Walk, run-Walk,
}
use libpinggy.Channel.Pair.{Pair, arrival, start, Next, at_a, Reach, here, then_next}
use libpinggy.Channel.Pair.Safety.{Reach-safe}
use libpinggy.Channel.Pair.HalfOpen.{early_close_lost}

abbrev modern : SessionFeatures
modern = record {
  version = version_1_02;
  fast_connect = true;
  close_time_out_channel = true;
  primary_forwarding_mode = false;
  implicit_usages_and_greeting = true;
}

-- The end that has called `Connect`, and the one that was made from its request.
abbrev caller : Channel
caller = record {
  channel_id = 6;
  dest_port = 80;
  dest_host = bytes "web";
  src_port = 1;
  src_host = [];
  forwarding_id = 9;
  chan_type = 1;
  remote_window = max_packet;
  local_window = channel_window_size;
  remote_max_packet = max_packet;
  local_max_packet = max_packet;
  local_consumed = 0;
  state = connecting;
  allow_write = true;
  recv_queue = [];
  has_handler = false;
}

abbrev callee : Channel
callee = record caller {
  remote_window = channel_window_size;
  state = connect_responding;
  allow_write = false;
}

abbrev opened : Pair
opened = record { a = caller; b = callee; ab = []; ba = [] }

opens : start modern 6 80 (bytes "web") 1 [] 1 9 ≡ ok opened
unfolding start connect initiate_incoming_channel new_channel set_channel_info setup_msg
opens = refl

abbrev two : List ℕ
two = 5 ∷ 6 ∷ []

abbrev after_send : Channel
after_send = record caller { remote_window = max_packet - 2 }

abbrev under_way : Pair
under_way = record { a = after_send; b = callee; ab = channel_data 6 two ∷ []; ba = [] }

caller-sends :
    perform modern caller (sends two)
    ≡ some (after_send, send_or_queue (channel_data 6 two) false ∷ [])
unfolding perform send send_pieces
caller-sends = refl

one_step : Next modern opened under_way
one_step =
    at_a (sends two) (after_send, send_or_queue (channel_data 6 two) false ∷ []) refl caller-sends
      refl

Reach-safe_example :
    (arrival modern [] after_send ≢ aborted)
    × (arrival modern (channel_data 6 two ∷ []) callee ≢ aborted)
    × IsBalanced after_send
    × IsBalanced callee
Reach-safe_example =
    Reach-safe modern 6 80 (bytes "web") 1 [] 1 9 opened under_way opens (then_next here one_step)

-- A connected end that closes and hears no more.
abbrev linked : Channel
linked = record caller {
  state = connected;
  recv_queue = two ∷ [];
  local_window = channel_window_size - 2;
}

abbrev gone : Channel
gone = record linked { state = closed; allow_write = false }

abbrev close_effects : List Effect
close_effects =
    send_or_queue (channel_close 6) false ∷ setup_close_timeout ∷ deregister_channel ∷ []

close_run : run modern linked (closes ∷ times_out ∷ []) ≡ some (gone, close_effects)
unfolding run perform close close_open close_timeout_triggered
close_run = refl

linked-IsBalanced : IsBalanced linked
linked-IsBalanced = omega arith

run-entry_example : entry_after true close_effects ≡ some false
run-entry_example = run-entry modern linked (closes ∷ times_out ∷ []) close_run

run-Walk_example : Walk connected closed
run-Walk_example = run-Walk modern linked (closes ∷ times_out ∷ []) close_run

run-IsBalanced_example : IsBalanced gone
run-IsBalanced_example =
    run-IsBalanced modern linked (closes ∷ times_out ∷ []) close_run linked-IsBalanced

recv-Accounts_example : Accounts linked (recv linked (pos 1))
recv-Accounts_example = recv-Accounts linked (pos 1) linked-IsBalanced

-- Packets of one byte.
abbrev narrow : Channel
narrow = record linked { remote_max_packet = 1 }

fits : length two ≤ narrow.remote_window
fits = omega arith

packets : 0 < narrow.remote_max_packet
packets = omega arith

enough : length two < 3
enough = omega arith

send-Sent_example : (s : Step ℤ) × (send 3 narrow two ≡ some s) × Sent narrow two s
send-Sent_example = send-Sent narrow two 3 refl fits packets enough

send_pieces_endless_example : send_pieces 100 0 (5 ∷ 6 ∷ []) ≡ none
send_pieces_endless_example = send_pieces_endless 100 5 (6 ∷ [])

-- The caller has closed before it was answered.
abbrev hasty : Pair
hasty = record {
  a = record caller { state = closing; allow_write = false };
  b = callee;
  ab = channel_close 6 ∷ [];
  ba = [];
}

early_close_lost_example :
    (t : Pair) × Reach modern hasty t
    × (t.a.state ≡ closing)
    × (t.b.state ≡ connected)
    × (t.ab ≡ [])
    × (t.ba ≡ [])
early_close_lost_example = early_close_lost modern 6 hasty refl refl refl refl
