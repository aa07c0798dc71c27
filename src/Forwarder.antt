-- ===== src/Forwarder.antt =====
-- src/protocol/ChannelConnectionForwarder.cc: the object that copies bytes between a channel and a
-- connection, in both directions. A method takes the forwarder and returns it changed; it records the
-- calls that it makes on the connection, on the counter, and through the channel. `aborted` is the
-- end of the process: a null pointer that is used, `ABORT_WITH_MSG`, or a `Send` that loops for ever.
-- The poller passes over what the FD handlers return, and log lines are left out, as in a build without
-- the trace log, whose arguments use the connection.
pub mod State
pub mod Bridge
pub mod Streams
pub mod Calm
pub mod Carries
pub mod Safety
pub mod Copies
pub mod Fair
pub mod Flow
use libpinggy.Prelude.{
  ℕ, suc, Bool, true, false, not, ◌&&◌, ◌||◌, if◌then◌else◌, List, [], ◌∷◌, length, Option, none,
  some, ℤ, pos, negsuc, Outcome, ok, aborted, ◌>>=◌, drop, take, ltb, ◌==◌,
}
use libpinggy.Features.{SessionFeatures}
use libpinggy.Message.{Text}
use libpinggy.Channel.State.{Channel, Step, Effect, connected, in_state}
use libpinggy.Channel.{register_event_handler, connect, close}
use libpinggy.Channel.Transfer.{send, recv, have_data_to_read, have_buffer_to_write}
use libpinggy.Transport.State.{WriteResult, wrote, write_later, write_failed}
use State.{
  Forwarder, ConnCall, ReadResult, got, read_later, read_failed, register_handler,
  deregister_handler, close_conn, enable_read_poll, disable_read_poll, enable_write_poll,
  disable_write_poll, raise_dummy_read_poll, has_read, has_written, copied_to_channel,
  copied_to_connection, channel_connected, channel_closed, channel_was_rejected, on_conn, count,
  on_channel, too_long, told,
}

-- The constructor.
unfoldable pub new_forwarder : Channel → (has_counter : Bool) → Forwarder
new_forwarder c has_counter = record {
  channel = c;
  has_channel = true;
  has_net_conn = true;
  has_counter = has_counter;
  allow_copy_from_channel = false;
  allow_copy_from_net_conn = false;
  fd_recv_enabled = false;
  fd_send_enabled = false;
  data_for_channel = [];
  data_for_net_conn = [];
  watch = record { for_read = false; for_write = false; dummy_read = false };
  conn_calls = [];
  channel_effects = [];
  counter_calls = [];
}

abbrev is_connected : Channel → Bool
is_connected c = in_state c.state (connected ∷ [])

-- The part of `Start` that asks the channel; `new_id` is the number that a new channel gets.
unfoldable pub start_channel : SessionFeatures → ℕ → Forwarder → Forwarder
start_channel f new_id w =
    if is_connected w.channel
    then (if have_data_to_read w.channel
        then record (on_conn enable_write_poll w) { fd_send_enabled = true }
        else w)
    else (let s = connect f new_id w.channel in on_channel s.channel s.effects w)

unfoldable pub start : SessionFeatures → ℕ → Forwarder → Forwarder
start f new_id w =
    let registered = record (on_conn register_handler w) {
      channel = register_event_handler w.channel;
    } in
    record (start_channel f new_id registered) {
      allow_copy_from_net_conn = true;
      allow_copy_from_channel = true;
      fd_recv_enabled = true;
    }

-- A method of the connection behind a pointer that may be null.
abbrev pub with_conn : ConnCall → Forwarder → Outcome Forwarder
with_conn k w = if w.has_net_conn then ok (on_conn k w) else aborted

unfoldable pub enable_copy_from_channel : Forwarder → Outcome Forwarder
enable_copy_from_channel w =
    if w.allow_copy_from_channel
    then ok w
    else (if w.fd_send_enabled then ok w else with_conn enable_write_poll w) >>= λ v.
        ok (record v { fd_send_enabled = true; allow_copy_from_channel = true })

unfoldable pub disable_copy_from_channel : Forwarder → Outcome Forwarder
disable_copy_from_channel w =
    if not w.allow_copy_from_channel
    then ok w
    else (if w.fd_send_enabled then with_conn disable_write_poll w else ok w) >>= λ v.
        ok (record v { fd_send_enabled = false; allow_copy_from_channel = false })

-- `if (dataForChannel && dataForChannel->Len) netConn->RaiseDummyReadPoll()`
abbrev pub raise_if_pending : List ℕ → Forwarder → Outcome Forwarder
raise_if_pending [] w = ok w
raise_if_pending (x ∷ xs) w = with_conn raise_dummy_read_poll w

unfoldable pub enable_copy_from_net_conn : Forwarder → Outcome Forwarder
enable_copy_from_net_conn w =
    if w.allow_copy_from_net_conn
    then ok w
    else (if w.fd_recv_enabled then ok w else with_conn enable_read_poll w) >>= λ v.
        raise_if_pending w.data_for_channel
          (record v { fd_recv_enabled = true; allow_copy_from_net_conn = true })

unfoldable pub disable_copy_from_net_conn : Forwarder → Outcome Forwarder
disable_copy_from_net_conn w =
    if not w.allow_copy_from_net_conn
    then ok w
    else (if w.fd_recv_enabled then with_conn disable_read_poll w else ok w) >>= λ v.
        ok (record v { fd_recv_enabled = false; allow_copy_from_net_conn = false })

-- The connection is let go, when there is one.
unfoldable pub drop_net_conn : Forwarder → Forwarder
drop_net_conn w =
    if w.has_net_conn
    then record (on_conn close_conn (on_conn deregister_handler w)) { has_net_conn = false }
    else w

-- `closeByNetConn` and `ChannelCleanup` begin with this.
unfoldable pub drop_counter : Forwarder → Forwarder
drop_counter w = record (count channel_closed w) { has_counter = false }

unfoldable pub cleaned_up : Forwarder → Forwarder
cleaned_up w = record (drop_net_conn (drop_counter w)) { has_channel = false }

-- The session may find its connection lost at a message of the channel (`lost`). Its reset handler then cleans up the
-- channel before the method of the channel returns, and so the forwarder, if it is the handler. In `Close` and
-- `Connect` nothing that follows looks at what this changes, so it is the same as a cleanup after the call.
unfoldable pub reset_if : Bool → List Effect → Forwarder → Forwarder
reset_if lost es w =
    if lost && told es
    then (let v = cleaned_up w in record v { channel = record v.channel { has_handler = false } })
    else w

unfoldable pub close_channel : SessionFeatures → Forwarder → Forwarder
close_channel f w =
    if w.has_channel
    then (let s = close f w.channel in
        record (on_channel s.channel s.effects w) { has_channel = false })
    else w

unfoldable pub close_by_net_conn : SessionFeatures → Forwarder → Forwarder
close_by_net_conn f w = close_channel f (drop_net_conn (drop_counter w))

-- Reading is turned off until the channel can take what is pending.
abbrev pub stop_reading : Forwarder → Outcome Forwarder
stop_reading w = with_conn disable_read_poll w >>= λ v. ok (record v { fd_recv_enabled = false })

-- What follows `channel->Send(dataForChannel)`, by its result.
unfoldable pub after_send : SessionFeatures → ℤ → Forwarder → Outcome Forwarder
after_send f (negsuc n) w = stop_reading w
after_send f (pos n) w =
    if n == 0
    then ok (close_by_net_conn f w)
    else ok
        (count (copied_to_channel n) (record w { data_for_channel = drop n w.data_for_channel }))

-- `HandleFDRead`, once there are bytes for the channel.
unfoldable pub forward_pending : SessionFeatures → Bool → Forwarder → Outcome Forwarder
forward_pending f lost w =
    if not w.has_channel
    then aborted
    else if too_long (have_buffer_to_write w.channel) (length w.data_for_channel)
    then stop_reading w
    else elim (send (suc (length w.data_for_channel)) w.channel w.data_for_channel) [
      | none ↦ aborted
      | some s ↦ after_send f s.result (reset_if lost s.effects (on_channel s.channel s.effects w))
    ]

unfoldable pub read_conn : SessionFeatures → ReadResult → Bool → Forwarder → Outcome Forwarder
read_conn f (got x xs) lost w =
    forward_pending f lost (record (on_conn (has_read (x ∷ xs)) w) { data_for_channel = x ∷ xs })
read_conn f read_later lost w = ok w
read_conn f read_failed lost w = ok (close_by_net_conn f w)

unfoldable pub fd_read_in :
    SessionFeatures → ReadResult → Bool → List ℕ → Forwarder → Outcome Forwarder
fd_read_in f r lost [] w = if w.has_net_conn then read_conn f r lost w else aborted
fd_read_in f r lost (x ∷ xs) w = forward_pending f lost w

-- `r` is what the connection answers if it is asked.
unfoldable pub handle_fd_read : SessionFeatures → ReadResult → Bool → Forwarder → Outcome Forwarder
handle_fd_read f r lost w = fd_read_in f r lost w.data_for_channel w

-- The branches on what the connection answers to a write.
unfoldable pub written_conn : SessionFeatures → WriteResult → Forwarder → Outcome Forwarder
written_conn f write_later w = ok w
written_conn f write_failed w = ok (close_by_net_conn f w)
written_conn f (wrote n) w =
    let bytes = take (suc n) w.data_for_net_conn in
    ok (
      count (copied_to_connection (length bytes)) (record (on_conn (has_written bytes) w) {
        data_for_net_conn = drop (suc n) w.data_for_net_conn;
      }))

-- `HandleFDWrite`, once there are bytes for the connection.
unfoldable pub write_conn : SessionFeatures → WriteResult → Forwarder → Outcome Forwarder
write_conn f a w = if w.has_net_conn then written_conn f a w else aborted

-- What follows `channel->Recv(16*KB)`, by its result.
unfoldable pub after_recv :
    SessionFeatures → WriteResult → ℤ × Option (List ℕ) → Forwarder → Outcome Forwarder
after_recv f a (pos n, some xs) w =
    if n == 0
    then ok (close_by_net_conn f w)
    else write_conn f a (record w { data_for_net_conn = xs })
after_recv f a (pos n, none) w = if n == 0 then ok (close_by_net_conn f w) else write_conn f a w
after_recv f a (negsuc n, xs) w =
    with_conn disable_write_poll w >>= λ v. ok (record v { fd_send_enabled = false })

abbrev pub sixteen_kb : ℤ
sixteen_kb = pos 16384

unfoldable pub fd_write_in :
    SessionFeatures → WriteResult → Bool → List ℕ → Forwarder → Outcome Forwarder
fd_write_in f a lost [] w =
    if not w.has_channel
    then aborted
    else (let s = recv w.channel sixteen_kb in
        after_recv f a s.result (reset_if lost s.effects (on_channel s.channel s.effects w)))
fd_write_in f a lost (x ∷ xs) w = write_conn f a w

-- `a` is what the connection answers if it is asked to write.
unfoldable pub handle_fd_write :
    SessionFeatures → WriteResult → Bool → Forwarder → Outcome Forwarder
handle_fd_write f a lost w = fd_write_in f a lost w.data_for_net_conn w

unfoldable pub handle_fd_error : SessionFeatures → Forwarder → Forwarder
handle_fd_error f w = close_by_net_conn f w

unfoldable pub data_received : Forwarder → Outcome Forwarder
data_received w =
    if w.fd_send_enabled || not w.allow_copy_from_channel
    then ok w
    else with_conn enable_write_poll w >>= λ v. ok (record v { fd_send_enabled = true })

-- The last condition of the source stands on `dataForChannel` as before, so the dummy read is raised
-- whenever reading is enabled.
unfoldable pub ready_to_send : ℕ → Forwarder → Outcome Forwarder
ready_to_send available w =
    if w.fd_recv_enabled || not w.allow_copy_from_net_conn
    then ok w
    else if length w.data_for_channel == 0 || too_long available (length w.data_for_channel)
    then ok w
    else with_conn enable_read_poll w >>= λ v.
        raise_if_pending w.data_for_channel (record v { fd_recv_enabled = true })

unfoldable pub rejected : Text → Forwarder → Outcome Forwarder
rejected reason w =
    if w.has_net_conn
    then ok (count (channel_was_rejected reason) (record (drop_net_conn w) { has_channel = false }))
    else aborted

unfoldable pub accepted : Forwarder → Outcome Forwarder
accepted w =
    if not (w.has_channel && is_connected w.channel)
    then aborted
    else with_conn enable_read_poll w >>= λ v.
        raise_if_pending w.data_for_channel (record v {
          allow_copy_from_net_conn = true;
          allow_copy_from_channel = true;
          fd_recv_enabled = true;
        })
        >>= λ u. ok (count channel_connected u)
