-- ===== src/Dummy/Wakeups.antt =====
-- src/common/net/DummyConnection.cc: whom a call wakes, by a dummy poll.
pub mod Calls
use libpinggy.Prelude.{
  ℕ, ◌+◌, ◌<◌, ◌≤◌, ◌≡◌, refl, ◌⊎◌, inl, inr, Bool, true, false, not, ◌&&◌, ◌||◌, ltb, leb, ◌==◌,
  List, [], ◌∷◌, ◌++◌, length, length-append, ℤ, pos, negsuc, arith, if◌then◌else◌,
}
use libpinggy.RawData.View.{consume_bytes}
use libpinggy.Dummy.{
  Pipe, End, Dummies, Side, one, two, other, end_of, writer, reader, recv_ready, send_ready, Poke,
  raise_read, raise_write, enable_read, enable_write, disable_read, disable_write, Did,
  set_read_poll, set_write_poll, set_read_poll_for_counter_part, set_write_poll_for_counter_part,
  write, write_open, read, read_in, peek, peek_in, put_back, set_writer, set_reader, close_pipe,
  clear_last_ret, close_n_clear, shut_down, shut_reader, shut_writer, How, shut_rd, shut_wr,
  shut_rdwr, destroy, enable_read_poll, enable_write_poll, disable_read_poll, disable_write_poll,
  event_handler_registered, event_handler_deregistered,
}
use libpinggy.Dummy.Wire.{
  Op, writes, reads, peeks, closes, destroys, shuts, watches_reads, watches_writes, leaves_reads,
  leaves_writes, registers, deregisters, Answer, perform,
}

-- How often a side was woken to read.
abbrev pub read_wakes : List Poke → ℕ
read_wakes [] = 0
read_wakes (raise_read ∷ ps) = 1 + read_wakes ps
read_wakes (p ∷ ps) = read_wakes ps

abbrev pub write_wakes : List Poke → ℕ
write_wakes [] = 0
write_wakes (raise_write ∷ ps) = 1 + write_wakes ps
write_wakes (p ∷ ps) = write_wakes ps

pub read_wakes-append : (ps qs : List Poke) → read_wakes (ps ++ qs) ≡ read_wakes ps + read_wakes qs
read_wakes-append [] qs = omega arith
read_wakes-append (raise_read ∷ ps) qs = omega (arith, read_wakes-append ps qs)
read_wakes-append (p ∷ ps) qs = read_wakes-append ps qs

pub write_wakes-append :
    (ps qs : List Poke) → write_wakes (ps ++ qs) ≡ write_wakes ps + write_wakes qs
write_wakes-append [] qs = omega arith
write_wakes-append (raise_write ∷ ps) qs = omega (arith, write_wakes-append ps qs)
write_wakes-append (p ∷ ps) qs = write_wakes-append ps qs

abbrev pub reads_woken : Side → Dummies → ℕ
reads_woken t d = read_wakes (end_of t d).pokes

abbrev pub writes_woken : Side → Dummies → ℕ
writes_woken t d = write_wakes (end_of t d).pokes

-- The pipes and who is alive stay, and no wake is taken back.
pub record Later (d e : Dummies) : Type 0 where
  pub first : e.from_first ≡ d.from_first
  pub second : e.from_second ≡ d.from_second
  pub len : e.buffer_len ≡ d.buffer_len
  pub first_alive : e.first.alive ≡ d.first.alive
  pub second_alive : e.second.alive ≡ d.second.alive
  pub first_reads : reads_woken one d ≤ reads_woken one e
  pub second_reads : reads_woken two d ≤ reads_woken two e
  pub first_writes : writes_woken one d ≤ writes_woken one e
  pub second_writes : writes_woken two d ≤ writes_woken two e

-- A side that is ready was woken.
abbrev pub read_woken : Side → Dummies → Dummies → Bool
read_woken s d e = not (recv_ready s d) || ltb (reads_woken s d) (reads_woken s e)

abbrev pub write_woken : Side → Dummies → Dummies → Bool
write_woken s d e = not (send_ready s d) || ltb (writes_woken s d) (writes_woken s e)

pub read_poll_lem :
    (s : Side) (d : Dummies)
    → Later d (set_read_poll s d) × (read_woken s d (set_read_poll s d) ≡ true)
unfolding set_read_poll
read_poll_lem one d = ground (
  arith,
  read_wakes-append d.first.pokes (raise_read ∷ []),
  write_wakes-append d.first.pokes (raise_read ∷ []),
)
read_poll_lem two d = ground (
  arith,
  read_wakes-append d.second.pokes (raise_read ∷ []),
  write_wakes-append d.second.pokes (raise_read ∷ []),
)

pub write_poll_lem :
    (s : Side) (d : Dummies)
    → Later d (set_write_poll s d) × (write_woken s d (set_write_poll s d) ≡ true)
unfolding set_write_poll
write_poll_lem one d = ground (
  arith,
  read_wakes-append d.first.pokes (raise_write ∷ []),
  write_wakes-append d.first.pokes (raise_write ∷ []),
)
write_poll_lem two d = ground (
  arith,
  read_wakes-append d.second.pokes (raise_write ∷ []),
  write_wakes-append d.second.pokes (raise_write ∷ []),
)

abbrev pub is_alive : Side → Dummies → Bool
is_alive s d = (end_of s d).alive

pub counter_read_lem :
    (s : Side) (d : Dummies)
    → Later d (set_read_poll_for_counter_part s d)
      × ((not (is_alive (other s) d) || read_woken (other s) d (set_read_poll_for_counter_part s d))
          ≡ true)
unfolding set_read_poll_for_counter_part
counter_read_lem s d = ground (arith, read_poll_lem (other s) d)

pub counter_write_lem :
    (s : Side) (d : Dummies)
    → Later d (set_write_poll_for_counter_part s d)
      × ((not (is_alive (other s) d)
            || write_woken (other s) d (set_write_poll_for_counter_part s d))
          ≡ true)
unfolding set_write_poll_for_counter_part
counter_write_lem s d = ground (arith, write_poll_lem (other s) d)

-- A living side that has become ready between two states was woken.
abbrev pub wakes_reader : Side → Dummies → Dummies → Bool
wakes_reader t d e =
    (recv_ready t d || not (recv_ready t e))
    || (not (is_alive t e) || ltb (reads_woken t d) (reads_woken t e))

abbrev pub wakes_writer : Side → Dummies → Dummies → Bool
wakes_writer t d e =
    (send_ready t d || not (send_ready t e))
    || (not (is_alive t e) || ltb (writes_woken t d) (writes_woken t e))

pub record Woken (d e : Dummies) : Type 0 where
  pub first_reader : wakes_reader one d e ≡ true
  pub second_reader : wakes_reader two d e ≡ true
  pub first_writer : wakes_writer one d e ≡ true
  pub second_writer : wakes_writer two d e ≡ true

-- Who is alive stays, and no wake is taken back.
pub record Ahead (d e : Dummies) : Type 0 where
  pub first_alive : e.first.alive ≡ d.first.alive
  pub second_alive : e.second.alive ≡ d.second.alive
  pub first_reads : reads_woken one d ≤ reads_woken one e
  pub second_reads : reads_woken two d ≤ reads_woken two e
  pub first_writes : writes_woken one d ≤ writes_woken one e
  pub second_writes : writes_woken two d ≤ writes_woken two e

pub record Both (d e : Dummies) : Type 0 where
  pub woken : Woken d e
  pub ahead : Ahead d e

pub Both-trans : {d e g : Dummies} → Both d e → Both e g → Both d g
Both-trans a b = ground arith

pub Later-Both : {d e : Dummies} → Later d e → Both d e
Later-Both h = ground arith
