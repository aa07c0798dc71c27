-- ===== src/Dummy/Wire/Keeps.antt =====
-- src/common/net/DummyConnection.cc: the other calls, and all of them.
use libpinggy.Prelude.{◌≡◌, Bool, true, false, ◌||◌, arith}
use libpinggy.Dummy.{
  Dummies, Side, one, two, writer, reader, set_writer, set_reader, close_pipe, clear_last_ret,
  set_read_poll, set_write_poll, set_read_poll_for_counter_part, close_n_clear, shut_down,
  shut_reader, shut_writer, How, shut_rd, shut_wr, shut_rdwr, destroy, enable_read_poll,
  enable_write_poll, disable_read_poll, disable_write_poll, event_handler_registered,
  event_handler_deregistered,
}
use libpinggy.Dummy.Wire.{
  Op, writes, reads, peeks, closes, destroys, shuts, watches_reads, watches_writes, leaves_reads,
  leaves_writes, registers, deregisters, perform, IsBounded, Same, Same-trans, set_read_poll-Same,
  set_write_poll-Same, counter_read-Same, counter_write-Same, ends_reading, ends_writing, ShutAt,
  Kept,
}
use libpinggy.Dummy.Wire.Copies.{write-Kept, read-Kept, peek-Kept}

-- The pipes after a side is shut for reading, for writing, or both.
record Shut (s : Side) (r w : Bool) (d e : Dummies) : Type 0 where
  reads : reader s e ≡ record (reader s d) { closed = r || (reader s d).closed }
  writes : writer s e ≡ record (writer s d) { closed = w || (writer s d).closed }
  len : e.buffer_len ≡ d.buffer_len

Shut-Same : (s : Side) (r w : Bool) {d e g : Dummies} → Shut s r w d e → Same e g → Shut s r w d g
Shut-Same one r w a b = ground arith
Shut-Same two r w a b = ground arith

Shut-ShutAt :
    (s : Side) (r w : Bool) {d e : Dummies}
    → Shut s r w d e
    → IsBounded d
    → ShutAt s r w d e × IsBounded e
Shut-ShutAt one r w a b = ground arith
Shut-ShutAt two r w a b = ground arith

close_n_clear-Shut : (s : Side) (d : Dummies) → Shut s true true d (close_n_clear s d)
unfolding close_n_clear
close_n_clear-Shut s d =
    let e : Dummies =
      clear_last_ret s
        (set_writer s (close_pipe (writer s d)) (set_reader s (close_pipe (reader s d)) d)) in
    let f : Dummies = set_write_poll s (set_read_poll s e) in
    Shut-Same s true true (closed s) (
      Same-trans (set_read_poll-Same s e) (
        Same-trans (set_write_poll-Same s (set_read_poll s e)) (
          Same-trans (counter_read-Same s f)
            (counter_write-Same s (set_read_poll_for_counter_part s f)))))
  where
    closed :
        (s : Side)
        → Shut s true true d (
            clear_last_ret s
              (set_writer s (close_pipe (writer s d)) (set_reader s (close_pipe (reader s d)) d)))
    closed one = ground arith
    closed two = ground arith

shut_reader-Shut : (s : Side) (d : Dummies) → Shut s true false d (shut_reader s d)
unfolding shut_reader
shut_reader-Shut s d =
    let e : Dummies = set_reader s (close_pipe (reader s d)) d in
    Shut-Same s true false (closed s)
      (Same-trans (set_read_poll-Same s e) (counter_write-Same s (set_read_poll s e)))
  where
    closed : (s : Side) → Shut s true false d (set_reader s (close_pipe (reader s d)) d)
    closed one = ground arith
    closed two = ground arith

shut_writer-Shut : (s : Side) (d : Dummies) → Shut s false true d (shut_writer s d)
unfolding shut_writer
shut_writer-Shut s d =
    let e : Dummies = set_writer s (close_pipe (writer s d)) d in
    Shut-Same s false true (closed s)
      (Same-trans (set_write_poll-Same s e) (counter_read-Same s (set_write_poll s e)))
  where
    closed : (s : Side) → Shut s false true d (set_writer s (close_pipe (writer s d)) d)
    closed one = ground arith
    closed two = ground arith

Shut-trans :
    (s : Side) {d e g : Dummies}
    → Shut s true false d e
    → Shut s false true e g
    → Shut s true true d g
Shut-trans one a b = ground arith
Shut-trans two a b = ground arith

clear-Same : (s : Side) (d : Dummies) → Same d (clear_last_ret s d)
clear-Same one d = ground arith
clear-Same two d = ground arith

shut_down-Shut :
    (s : Side) (how : How) (d : Dummies)
    → Shut s (ends_reading how) (ends_writing how) d (shut_down s how d)
unfolding shut_down
shut_down-Shut s shut_rd d =
    Shut-Same s true false (shut_reader-Shut s d) (clear-Same s (shut_reader s d))
shut_down-Shut s shut_wr d =
    Shut-Same s false true (shut_writer-Shut s d) (clear-Same s (shut_writer s d))
shut_down-Shut s shut_rdwr d =
    Shut-Same s true true
      (Shut-trans s (shut_reader-Shut s d) (shut_writer-Shut s (shut_reader s d)))
      (clear-Same s (shut_writer s (shut_reader s d)))

destroy-Shut : (s : Side) (d : Dummies) → Shut s true true d (destroy s d)
unfolding destroy
destroy-Shut one d = ground arith
destroy-Shut two d = ground arith

Same-Shut : (s : Side) {d e : Dummies} → Same d e → Shut s false false d e
Same-Shut one h = ground arith
Same-Shut two h = ground arith

enable_read_poll-Same : (s : Side) (d : Dummies) → Same d (enable_read_poll s d)
unfolding enable_read_poll set_read_poll
enable_read_poll-Same one d = ground arith
enable_read_poll-Same two d = ground arith

enable_write_poll-Same : (s : Side) (d : Dummies) → Same d (enable_write_poll s d)
unfolding enable_write_poll set_write_poll
enable_write_poll-Same one d = ground arith
enable_write_poll-Same two d = ground arith

disable_read_poll-Same : (s : Side) (d : Dummies) → Same d (disable_read_poll s d)
unfolding disable_read_poll
disable_read_poll-Same one d = ground arith
disable_read_poll-Same two d = ground arith

disable_write_poll-Same : (s : Side) (d : Dummies) → Same d (disable_write_poll s d)
unfolding disable_write_poll
disable_write_poll-Same one d = ground arith
disable_write_poll-Same two d = ground arith

registered-Same : (s : Side) (d : Dummies) → Same d (event_handler_registered s d)
unfolding event_handler_registered set_read_poll
registered-Same one d = ground arith
registered-Same two d = ground arith

deregistered-Same : (s : Side) (d : Dummies) → Same d (event_handler_deregistered s d)
unfolding event_handler_deregistered
deregistered-Same one d = ground arith
deregistered-Same two d = ground arith

-- Each call on a side of a bounded pair does to the two streams what it promises, and leaves the pair bounded.
pub perform-Kept : (s : Side) (op : Op) (d : Dummies) → IsBounded d → Kept s op d (perform s op d)
unfolding perform
perform-Kept s (writes xs) d b = write-Kept s xs d b
perform-Kept s (reads n) d b = read-Kept s n d b
perform-Kept s (peeks n) d b = peek-Kept s n d b
perform-Kept s closes d b =
    let h = close_n_clear-Shut s d in ground (arith, Shut-ShutAt s true true h b, h.len)
perform-Kept s destroys d b =
    let h = destroy-Shut s d in ground (arith, Shut-ShutAt s true true h b, h.len)
perform-Kept s (shuts how) d b =
    let h = shut_down-Shut s how d in
    ground (arith, Shut-ShutAt s (ends_reading how) (ends_writing how) h b, h.len)
perform-Kept s watches_reads d b =
    let h = Same-Shut s (enable_read_poll-Same s d) in
    ground (arith, Shut-ShutAt s false false h b, h.len)
perform-Kept s watches_writes d b =
    let h = Same-Shut s (enable_write_poll-Same s d) in
    ground (arith, Shut-ShutAt s false false h b, h.len)
perform-Kept s leaves_reads d b =
    let h = Same-Shut s (disable_read_poll-Same s d) in
    ground (arith, Shut-ShutAt s false false h b, h.len)
perform-Kept s leaves_writes d b =
    let h = Same-Shut s (disable_write_poll-Same s d) in
    ground (arith, Shut-ShutAt s false false h b, h.len)
perform-Kept s registers d b =
    let h = Same-Shut s (registered-Same s d) in
    ground (arith, Shut-ShutAt s false false h b, h.len)
perform-Kept s deregisters d b =
    let h = Same-Shut s (deregistered-Same s d) in
    ground (arith, Shut-ShutAt s false false h b, h.len)
