-- ===== src/Dummy/Wire.antt =====
-- src/common/net/DummyConnection.cc: what the pair promises, as two streams of bytes.
pub mod Copies
pub mod Keeps
use libpinggy.Prelude.{
  ℕ, ◌+◌, ◌*◌, ◌≤◌, ◌<◌, ◌≡◌, refl, ◌⊎◌, inl, inr, Bool, true, false, not, ◌&&◌, ◌||◌, ltb, leb,
  ◌==◌, List, [], ◌∷◌, ◌++◌, append-nil, append_assoc, length, length-append, length-drop, concat,
  zero, suc, ap, Option, none, some, ℤ, pos, negsuc, arith, Bool-cases, List-cases, if◌then◌else◌,
}
use libpinggy.RawData.View.{slice_bytes, consume_bytes, slice-append-consume}
use libpinggy.RawData.{consumed}
use libpinggy.Dummy.{
  Pipe, End, Dummies, Side, one, two, other, end_of, writer, reader, set_writer, set_reader,
  close_pipe, clear_last_ret, Poke, poke, raise_read, raise_write, Did, set_read_poll,
  set_write_poll, set_read_poll_for_counter_part, set_write_poll_for_counter_part, write,
  write_open, read, read_in, peek, peek_in, put_back, close_n_clear, shut_down, shut_reader,
  shut_writer, How, shut_rd, shut_wr, shut_rdwr, destroy, enable_read_poll, enable_write_poll,
  disable_read_poll, disable_write_poll, event_handler_registered, event_handler_deregistered,
  create_dummy_connection,
}

-- A call on one of the connections. The calls that copy from or to a buffer of the caller are these
-- calls with a length that is not 0.
pub data Op : Type 0 where
  writes : List ℕ → Op
  reads peeks : ℤ → Op
  closes destroys : Op
  shuts : How → Op
  watches_reads watches_writes leaves_reads leaves_writes : Op
  registers deregisters : Op

-- What a call returns: a number, and bytes if it reads.
pub record Answer : Type 0 where
  pub dummies : Dummies
  pub number : ℤ
  pub bytes : List ℕ

abbrev silent : Dummies → Answer
silent d = record { dummies = d; number = pos 0; bytes = [] }

abbrev pub read_answer : Did (ℤ × Option (List ℕ)) → Answer
read_answer r = record {
  dummies = r.dummies;
  number = r.result.0;
  bytes = elim r.result.1 [ none ↦ [] | some xs ↦ xs ];
}

unfoldable pub perform : Side → Op → Dummies → Answer
perform s (writes xs) d =
    let r = write s xs d in record { dummies = r.dummies; number = r.result; bytes = [] }
perform s (reads n) d = read_answer (read s n d)
perform s (peeks n) d = read_answer (peek s n d)
perform s closes d = silent (close_n_clear s d)
perform s destroys d = silent (destroy s d)
perform s (shuts how) d = silent (shut_down s how d)
perform s watches_reads d = silent (enable_read_poll s d)
perform s watches_writes d = silent (enable_write_poll s d)
perform s leaves_reads d = silent (disable_read_poll s d)
perform s leaves_writes d = silent (disable_write_poll s d)
perform s registers d = silent (event_handler_registered s d)
perform s deregisters d = silent (event_handler_deregistered s d)

-- A stream of bytes from one side to the other. It forgets how the bytes were cut.
pub record Stream : Type 0 where
  pub bytes : List ℕ
  pub shut : Bool

abbrev pub stream : Pipe → Stream
stream p = record { bytes = concat p.queue; shut = p.closed }

-- The stream that a side writes, and the one that it reads.
abbrev pub out_of : Side → Dummies → Stream
out_of s d = stream (writer s d)

abbrev pub into : Side → Dummies → Stream
into s d = stream (reader s d)

-- What is kept at once, in pieces and in the size of a piece; a piece is not empty.
abbrev pub pieces_fit : List (List ℕ) → Bool
pieces_fit [] = true
pieces_fit (x ∷ q) = (ltb 0 (length x) && leb (length x) 4096) && pieces_fit q

pub record IsBounded (d : Dummies) : Type 0 where
  pub first_count : length d.from_first.queue ≤ d.buffer_len
  pub second_count : length d.from_second.queue ≤ d.buffer_len
  pub first_pieces : pieces_fit d.from_first.queue ≡ true
  pub second_pieces : pieces_fit d.from_second.queue ≡ true

-- The pipes stay as they are.
pub record Same (d e : Dummies) : Type 0 where
  pub first : e.from_first ≡ d.from_first
  pub second : e.from_second ≡ d.from_second
  pub len : e.buffer_len ≡ d.buffer_len

pub Same-trans : {d e g : Dummies} → Same d e → Same e g → Same d g
Same-trans a b = ground arith

pub set_read_poll-Same : (s : Side) (d : Dummies) → Same d (set_read_poll s d)
unfolding set_read_poll
set_read_poll-Same one d = ground arith
set_read_poll-Same two d = ground arith

pub set_write_poll-Same : (s : Side) (d : Dummies) → Same d (set_write_poll s d)
unfolding set_write_poll
set_write_poll-Same one d = ground arith
set_write_poll-Same two d = ground arith

pub counter_read-Same : (s : Side) (d : Dummies) → Same d (set_read_poll_for_counter_part s d)
unfolding set_read_poll_for_counter_part
counter_read-Same s d = ground (arith, set_read_poll-Same (other s) d)

pub counter_write-Same : (s : Side) (d : Dummies) → Same d (set_write_poll_for_counter_part s d)
unfolding set_write_poll_for_counter_part
counter_write-Same s d = ground (arith, set_write_poll-Same (other s) d)

-- What a write promises of its stream: all of the data go to its end, and the result is their number; or nothing
-- changes, and the result is 0 on a stream that is shut, and -1 on one that is not, for data that are empty or longer than
-- 4096 bytes, or when as many pieces wait as may.
abbrev pub WriteSpec : List ℕ → (full : Bool) → Stream → ℤ → Stream → Type 0
WriteSpec xs full w r v =
    (v.shut ≡ w.shut)
    × (((w.shut ≡ true) × (r ≡ pos 0) × (v.bytes ≡ w.bytes))
        ⊎ (((w.shut ≡ false)
              × ((full || not (ltb 0 (length xs) && leb (length xs) 4096)) ≡ true)
              × (r ≡ negsuc 0)
              × (v.bytes ≡ w.bytes))
            ⊎ ((w.shut ≡ false)
                × (full ≡ false)
                × (0 < length xs)
                × (length xs ≤ 4096)
                × (r ≡ pos (length xs))
                × (v.bytes ≡ w.bytes ++ xs))))

-- What a read promises of its stream: it takes bytes off the front, and the result is their number, which is not 0 unless
-- 0 was asked for; or, when the stream is empty, it takes none, and the result is 0 on a stream that is shut and -1 on one
-- that is not.
abbrev pub ReadSpec : ℤ → Stream → ℤ → List ℕ → Stream → Type 0
ReadSpec n w r ys v =
    (v.shut ≡ w.shut)
    × (w.bytes ≡ ys ++ v.bytes)
    × (((r ≡ pos (length ys)) × ((0 < length ys) ⊎ (n ≡ pos 0)))
        ⊎ (((w.bytes ≡ []) × (ys ≡ []))
            × (((w.shut ≡ true) × (r ≡ pos 0)) ⊎ ((w.shut ≡ false) × (r ≡ negsuc 0)))))

-- A side that is shut keeps its bytes.
abbrev pub shut_if : Bool → Stream → Stream
shut_if b w = record w { shut = b || w.shut }

abbrev pub ends_reading : How → Bool
ends_reading shut_wr = false
ends_reading shut_rd = true
ends_reading shut_rdwr = true

abbrev pub ends_writing : How → Bool
ends_writing shut_rd = false
ends_writing shut_wr = true
ends_writing shut_rdwr = true

abbrev pub ShutAt : Side → Bool → Bool → Dummies → Dummies → Type 0
ShutAt s r w d e = (into s e ≡ shut_if r (into s d)) × (out_of s e ≡ shut_if w (out_of s d))

-- The pair as two streams: what a call on a side does to them, with its answer.
abbrev pub Promise : Side → Op → Dummies → Answer → Type 0
Promise s (writes xs) d a =
    WriteSpec xs (leb d.buffer_len (length (writer s d).queue)) (out_of s d) a.number
      (out_of s a.dummies)
    × (into s a.dummies ≡ into s d)
Promise s (reads n) d a =
    ReadSpec n (into s d) a.number a.bytes (into s a.dummies) × (out_of s a.dummies ≡ out_of s d)
Promise s (peeks n) d a =
    ((v : Stream) × ReadSpec n (into s d) a.number a.bytes v) × ShutAt s false false d a.dummies
Promise s closes d a = ShutAt s true true d a.dummies
Promise s destroys d a = ShutAt s true true d a.dummies
Promise s (shuts how) d a = ShutAt s (ends_reading how) (ends_writing how) d a.dummies
Promise s op d a = ShutAt s false false d a.dummies

-- What one call does: what it promises, within the bounds.
pub record Kept (s : Side) (op : Op) (d : Dummies) (a : Answer) : Type 0 where
  pub promise : Promise s op d a
  pub bounded : IsBounded a.dummies
  pub len : a.dummies.buffer_len ≡ d.buffer_len
