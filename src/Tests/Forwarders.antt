-- ===== src/Tests/Forwarders.antt =====
-- Runs of a forwarder and of a pair of dummy connections.
use libpinggy.Prelude.{
  ◌≤◌, ◌*◌, ◌≡◌, refl, true, false, List, [], ◌∷◌, ◌++◌, concat, length, ok, pos, bytes, arith,
  if◌then◌else◌, ◌==◌,
}
use libpinggy.Features.{SessionFeatures, version_1_02}
use libpinggy.Channel.State.{Channel, connected, channel_window_size, max_packet}
use libpinggy.Channel.{register_event_handler}
use libpinggy.Channel.Transfer.{
  send, send_pieces, recv, recv_from, take_front, adjust_window, credit_due, have_data_to_read,
  have_buffer_to_write,
}
use libpinggy.Channel.Handlers.{
  handle_channel_data, handle_channel_window_adjust, handle_channel_close,
}
use libpinggy.Transport.State.{wrote, write_later}
use libpinggy.Forwarder.State.{Forwarder, got, read_later}
use libpinggy.Forwarder.{
  new_forwarder, start, start_channel, after_send, forward_pending, read_conn, fd_read_in,
  handle_fd_read, written_conn, write_conn, after_recv, reset_if, fd_write_in, handle_fd_write,
  data_received, ready_to_send, disable_copy_from_net_conn, enable_copy_from_net_conn,
  disable_copy_from_channel, enable_copy_from_channel,
}
use libpinggy.Forwarder.Bridge.{
  hear, session_calls, Call, reads, writes, data_arrives, window_adjusts, closes, plays_from_conn,
  pauses_from_conn, perform, run, arrived,
}
use libpinggy.Forwarder.Calm.{inbound, outbound, all_read}
use libpinggy.Forwarder.Safety.{IsSafe}
use libpinggy.Forwarder.Fair.{fair_run, fair_run-carries}
use libpinggy.Forwarder.Flow.Run.{net_watched, channel_watched, fair_run-flows}
use libpinggy.Dummy.{Dummies, one, two, other, create_dummy_connection}
use libpinggy.Dummy.Wire.{Op, writes as puts, reads as gets, closes as ends, out_of}
use libpinggy.Dummy.Run.{AllKept, new_pair-AllKept, written_by, read_by, run-bounded_stream}
use libpinggy.Dummy.Wakeups.{Woken}
use libpinggy.Dummy.Wakeups.Calls.{perform-Woken}
use libpinggy.Dummy
use libpinggy.Dummy.Wire as Wire
use libpinggy.Dummy.Run as Run

abbrev modern : SessionFeatures
modern = record {
  version = version_1_02;
  fast_connect = true;
  close_time_out_channel = true;
  primary_forwarding_mode = false;
  implicit_usages_and_greeting = true;
}

-- A channel with one piece in its queue, and a peer that takes four bytes more.
abbrev joined : Channel
joined = record {
  channel_id = 6;
  dest_port = 80;
  dest_host = bytes "web";
  src_port = 1;
  src_host = [];
  forwarding_id = 9;
  chan_type = 1;
  remote_window = 4;
  local_window = channel_window_size;
  remote_max_packet = 3;
  local_max_packet = max_packet;
  local_consumed = 0;
  state = connected;
  allow_write = true;
  recv_queue = (1 ∷ 2 ∷ []) ∷ [];
  has_handler = false;
}

abbrev scene : List Call
scene =
    reads (got 5 (6 ∷ 7 ∷ [])) false
    ∷ data_arrives (3 ∷ 4 ∷ [])
    ∷ writes (wrote 0) false
    ∷ reads (got 8 (9 ∷ [])) false
    ∷ window_adjusts 10
    ∷ pauses_from_conn
    ∷ plays_from_conn
    ∷ closes
    ∷ reads read_later false
    ∷ writes write_later false
    ∷ writes (wrote 7) false
    ∷ []

abbrev begun : Forwarder
begun = start modern 0 (new_forwarder joined true)

scene_fair : fair_run modern scene (start modern 0 (new_forwarder joined true)) ≡ true
unfolding reset_if start start_channel new_forwarder register_event_handler perform hear
    session_calls handle_fd_read fd_read_in read_conn forward_pending after_send handle_fd_write
    fd_write_in write_conn written_conn after_recv data_received ready_to_send
    disable_copy_from_net_conn enable_copy_from_net_conn disable_copy_from_channel
    enable_copy_from_channel handle_channel_data handle_channel_window_adjust handle_channel_close
    send send_pieces recv recv_from take_front adjust_window credit_due have_data_to_read
    have_buffer_to_write
scene_fair = refl

abbrev carried :
    (v : Forwarder) × (run modern scene begun ≡ ok v)
    × IsSafe v
    × (inbound v ≡ concat joined.recv_queue ++ arrived modern scene begun)
    × (all_read v ≡ outbound v)
carried = fair_run-carries modern 0 joined true scene refl (omega arith) scene_fair

fair_run-flows_example : (net_watched carried.0 ≡ true) × (channel_watched carried.0 ≡ true)
fair_run-flows_example =
    fair_run-flows modern 0 joined true scene refl refl (omega arith) scene_fair carried.1

abbrev talk : List (Dummy.Side × Op)
talk =
    (one, puts (1 ∷ 2 ∷ 3 ∷ []))
    ∷ (two, gets (pos 2))
    ∷ (one, puts (4 ∷ []))
    ∷ (two, gets (pos 9))
    ∷ (one, ends)
    ∷ (two, gets (pos 9))
    ∷ []

new_pair-AllKept_example : AllKept talk (create_dummy_connection 1)
new_pair-AllKept_example = new_pair-AllKept 1 talk

run-bounded_stream_example :
    (read_by (other one) talk (create_dummy_connection 1)
        ++ (out_of one (Run.run talk (create_dummy_connection 1))).bytes
      ≡ written_by one talk (create_dummy_connection 1))
    × (length (out_of one (Run.run talk (create_dummy_connection 1))).bytes
        ≤ 4096 * (if 1 == 0 then 10 else 1))
run-bounded_stream_example = run-bounded_stream one 1 talk

perform-Woken_example :
    Woken
      (create_dummy_connection 1)
      (Wire.perform one (puts (7 ∷ [])) (create_dummy_connection 1)).dummies
perform-Woken_example = perform-Woken one (puts (7 ∷ [])) (create_dummy_connection 1) refl
