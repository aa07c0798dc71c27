-- ===== src/Dummy.antt =====
-- src/common/net/DummyConnection.cc and DummyConnection.hh: a connected pair of connections inside the
-- process, by two bounded queues. The state is the pair's: a queue belongs to the side that writes it
-- and is read by the other. A method takes the side it is called on. A piece of data is its bytes
-- (`RawData.View`). The log lines and `errno` are left out.
pub mod Wire
pub mod Run
pub mod Wakeups
use libpinggy.Prelude.{
  ℕ, Bool, true, false, not, ◌||◌, ◌&&◌, if◌then◌else◌, List, [], ◌∷◌, ◌++◌, length, ltb, leb, ◌==◌,
  Option, none, some, ℤ, pos, negsuc,
}
use libpinggy.RawData.View.{slice_bytes, consume_bytes}

-- `DummyMetaData`.
pub record Pipe : Type 0 where
  pub queue : List (List ℕ)  -- oldest first
  pub closed : Bool

-- What a connection calls on its base class: the poller is to call its handler (`raise_…`), and the
-- changes of what the poller watches.
pub data Poke : Type 0 where
  raise_read raise_write : Poke
  enable_read enable_write disable_read disable_write : Poke

-- `alive`: the counterpart's weak pointer to this connection has not expired.
pub record End : Type 0 where
  pub try_again : Bool
  pub last_ret : ℕ
  pub is_read_polling : Bool
  pub is_write_polling : Bool
  pub alive : Bool
  pub pokes : List Poke  -- oldest first

-- `buffer_len` is a count of pieces.
pub record Dummies : Type 0 where
  pub buffer_len : ℕ
  pub first : End
  pub second : End
  pub from_first : Pipe
  pub from_second : Pipe

pub data Side : Type 0 where
  one two : Side

abbrev pub other : Side → Side
other one = two
other two = one

abbrev pub end_of : Side → Dummies → End
end_of one d = d.first
end_of two d = d.second

abbrev pub set_end : Side → End → Dummies → Dummies
set_end one e d = record d { first = e }
set_end two e d = record d { second = e }

abbrev pub writer : Side → Dummies → Pipe
writer one d = d.from_first
writer two d = d.from_second

abbrev pub set_writer : Side → Pipe → Dummies → Dummies
set_writer one p d = record d { from_first = p }
set_writer two p d = record d { from_second = p }

abbrev pub reader : Side → Dummies → Pipe
reader s d = writer (other s) d

abbrev pub set_reader : Side → Pipe → Dummies → Dummies
set_reader s p d = set_writer (other s) p d

abbrev new_end : End
new_end = record {
  try_again = false;
  last_ret = 0;
  is_read_polling = false;
  is_write_polling = false;
  alive = true;
  pokes = [];
}

abbrev max_buffer_cnt : ℕ
max_buffer_cnt = 10

-- `isReadPolling` and `isWritePolling` are not set by the constructor; `EventHandlerRegistered` sets
-- them.
unfoldable pub create_dummy_connection : ℕ → Dummies
create_dummy_connection buffer_len = record {
  buffer_len = if buffer_len == 0 then max_buffer_cnt else buffer_len;
  first = new_end;
  second = new_end;
  from_first = record { queue = []; closed = false };
  from_second = record { queue = []; closed = false };
}

-- `GetState`.
abbrev pub recv_ready : Side → Dummies → Bool
recv_ready s d = ltb 0 (length (reader s d).queue) || (reader s d).closed

abbrev pub send_ready : Side → Dummies → Bool
send_ready s d = (writer s d).closed || ltb (length (writer s d).queue) d.buffer_len

unfoldable pub get_buffer_size : Side → Dummies → ℕ
get_buffer_size s d = length (reader s d).queue

abbrev pub poke : Poke → Side → Dummies → Dummies
poke p s d = set_end s (record (end_of s d) { pokes = (end_of s d).pokes ++ (p ∷ []) }) d

abbrev pub set_try_again : Bool → Side → Dummies → Dummies
set_try_again b s d = set_end s (record (end_of s d) { try_again = b }) d

unfoldable pub set_read_poll : Side → Dummies → Dummies
set_read_poll s d = if recv_ready s d then poke raise_read s d else d

unfoldable pub set_write_poll : Side → Dummies → Dummies
set_write_poll s d = if send_ready s d then poke raise_write s d else d

unfoldable pub set_read_poll_for_counter_part : Side → Dummies → Dummies
set_read_poll_for_counter_part s d =
    if (end_of (other s) d).alive then set_read_poll (other s) d else d

unfoldable pub set_write_poll_for_counter_part : Side → Dummies → Dummies
set_write_poll_for_counter_part s d =
    if (end_of (other s) d).alive then set_write_poll (other s) d else d

-- The connection is changed, and the call returns this.
pub record Did {ℓ} (R : Type ℓ) : Type ℓ where
  pub dummies : Dummies
  pub result : R

abbrev minus_one : ℤ
minus_one = negsuc 0

abbrev enqueue : List ℕ → Side → Dummies → Dummies
enqueue xs s d = set_writer s (record (writer s d) { queue = (writer s d).queue ++ (xs ∷ []) }) d

unfoldable pub write_open : Side → List ℕ → Dummies → Did ℤ
write_open s xs d =
    if ltb 4096 (length xs)
    then record { dummies = set_write_poll s d; result = minus_one }
    else if leb d.buffer_len (length (writer s d).queue) || length xs == 0
    then record { dummies = set_try_again true s d; result = minus_one }
    else record {
      dummies = set_read_poll_for_counter_part s (set_write_poll s (enqueue xs s d));
      result = pos (length xs);
    }

unfoldable pub write : Side → List ℕ → Dummies → Did ℤ
write s xs d =
    let e = set_try_again false s d in
    if (writer s e).closed
    then record { dummies = set_write_poll s e; result = pos 0 }
    else write_open s xs e

-- `Write(buf, nbyte)`, with a buffer of that length.
unfoldable pub write_buf : Side → List ℕ → Dummies → Did ℤ
write_buf s xs d =
    if length xs == 0
    then record { dummies = set_try_again true s d; result = minus_one }
    else write s xs d

-- Nothing is queued.
abbrev nothing_to_read : Side → Dummies → Did (ℤ × Option (List ℕ))
nothing_to_read s d =
    if (reader s d).closed
    then record { dummies = d; result = (pos 0, none) }
    else record { dummies = set_try_again true s d; result = (minus_one, none) }

-- The front of the queue when a piece of it was consumed.
abbrev pub put_back : List ℕ → List (List ℕ) → List (List ℕ)
put_back [] q = q
put_back (y ∷ ys) q = (y ∷ ys) ∷ q

unfoldable pub read_in : List (List ℕ) → Side → ℤ → Dummies → Did (ℤ × Option (List ℕ))
read_in [] s n d = nothing_to_read s d
read_in (x ∷ q) s n d =
    let ret = slice_bytes (pos 0) n x in
    let left = set_reader s (record (reader s d) { queue = put_back (consume_bytes n x) q }) d in
    record {
      dummies = set_write_poll_for_counter_part s (set_read_poll s left);
      result = (pos (length ret), some ret);
    }

unfoldable pub read : Side → ℤ → Dummies → Did (ℤ × Option (List ℕ))
read s n d = let e = set_try_again false s d in read_in (reader s e).queue s n e

unfoldable pub peek_in : List (List ℕ) → Side → ℤ → Dummies → Did (ℤ × Option (List ℕ))
peek_in [] s n d = nothing_to_read s d
peek_in (x ∷ q) s n d =
    let ret = slice_bytes (pos 0) n x in
    record { dummies = set_read_poll s d; result = (pos (length ret), some ret) }

unfoldable pub peek : Side → ℤ → Dummies → Did (ℤ × Option (List ℕ))
peek s n d = let e = set_try_again false s d in peek_in (reader s e).queue s n e

-- What the calls with a buffer copy into it: the bytes, when there are some.
abbrev copied : Did (ℤ × Option (List ℕ)) → Did (ℤ × List ℕ)
copied r = record {
  dummies = r.dummies;
  result = elim r.result.1 [ none ↦ (r.result.0, []) | some xs ↦ (r.result.0, xs) ];
}

unfoldable pub read_buf : Side → ℕ → Dummies → Did (ℤ × List ℕ)
read_buf s n d =
    if n == 0
    then record { dummies = set_try_again true s d; result = (minus_one, []) }
    else copied (read s (pos n) d)

unfoldable pub peek_buf : Side → ℕ → Dummies → Did (ℤ × List ℕ)
peek_buf s n d =
    if n == 0
    then record { dummies = set_try_again true s d; result = (minus_one, []) }
    else copied (peek s (pos n) d)

abbrev pub close_pipe : Pipe → Pipe
close_pipe p = record p { closed = true }

abbrev pub clear_last_ret : Side → Dummies → Dummies
clear_last_ret s d = set_end s (record (end_of s d) { last_ret = 0 }) d

unfoldable pub close_n_clear : Side → Dummies → Dummies
close_n_clear s d =
    let e = set_writer s (close_pipe (writer s d)) (set_reader s (close_pipe (reader s d)) d) in
    set_write_poll_for_counter_part s
      (set_read_poll_for_counter_part s (set_write_poll s (set_read_poll s (clear_last_ret s e))))

pub data How : Type 0 where
  shut_rd shut_wr shut_rdwr : How

abbrev shuts_read : How → Bool
shuts_read shut_wr = false
shuts_read how = true

abbrev shuts_write : How → Bool
shuts_write shut_rd = false
shuts_write how = true

unfoldable pub shut_reader : Side → Dummies → Dummies
shut_reader s d =
    set_write_poll_for_counter_part s (set_read_poll s (set_reader s (close_pipe (reader s d)) d))

unfoldable pub shut_writer : Side → Dummies → Dummies
shut_writer s d =
    set_read_poll_for_counter_part s (set_write_poll s (set_writer s (close_pipe (writer s d)) d))

unfoldable pub shut_down : Side → How → Dummies → Dummies
shut_down s how d =
    let e = if shuts_read how then shut_reader s d else d in
    clear_last_ret s (if shuts_write how then shut_writer s e else e)

-- The destructor.
unfoldable pub destroy : Side → Dummies → Dummies
destroy s d =
    let e = set_writer s (close_pipe (writer s d)) (set_reader s (close_pipe (reader s d)) d) in
    set_end s (record (end_of s e) { alive = false }) e

abbrev pub set_write_polling : Bool → Side → Dummies → Dummies
set_write_polling b s d = set_end s (record (end_of s d) { is_write_polling = b }) d

abbrev pub set_read_polling : Bool → Side → Dummies → Dummies
set_read_polling b s d = set_end s (record (end_of s d) { is_read_polling = b }) d

unfoldable pub enable_write_poll : Side → Dummies → Dummies
enable_write_poll s d =
    set_write_poll s (
      if (end_of s d).is_write_polling then d else set_write_polling true s (poke enable_write s d))

unfoldable pub enable_read_poll : Side → Dummies → Dummies
enable_read_poll s d =
    set_read_poll s
      (if (end_of s d).is_read_polling then d else set_read_polling true s (poke enable_read s d))

unfoldable pub disable_read_poll : Side → Dummies → Dummies
disable_read_poll s d =
    if (end_of s d).is_read_polling then set_read_polling false s (poke disable_read s d) else d

unfoldable pub disable_write_poll : Side → Dummies → Dummies
disable_write_poll s d =
    if (end_of s d).is_write_polling then set_write_polling false s (poke disable_write s d) else d

unfoldable pub event_handler_registered : Side → Dummies → Dummies
event_handler_registered s d =
    set_read_poll s (set_write_polling false s (set_read_polling true s d))

unfoldable pub event_handler_deregistered : Side → Dummies → Dummies
event_handler_deregistered s d = set_write_polling false s (set_read_polling false s d)
