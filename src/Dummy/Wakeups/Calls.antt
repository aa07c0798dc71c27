-- ===== src/Dummy/Wakeups/Calls.antt =====
-- src/common/net/DummyConnection.cc: each call wakes those whom it concerns.
use libpinggy.Prelude.{
  ℕ, ◌+◌, ◌≤◌, ◌≡◌, refl, Bool, true, false, List, [], ◌∷◌, ◌++◌, length, length-append, ℤ, arith,
}
use libpinggy.RawData.View.{consume_bytes}
use libpinggy.Dummy.{
  Dummies, Side, one, two, writer, reader, enable_read, enable_write, disable_read, disable_write,
  set_read_poll, set_write_poll, set_read_poll_for_counter_part, write, write_open, read, read_in,
  peek, peek_in, put_back, set_writer, set_reader, close_pipe, clear_last_ret, close_n_clear,
  shut_down, shut_reader, shut_writer, How, shut_rd, shut_wr, shut_rdwr, enable_read_poll,
  enable_write_poll, disable_read_poll, disable_write_poll, event_handler_registered,
  event_handler_deregistered,
}
use libpinggy.Dummy.Wire.{
  Op, writes, reads, peeks, closes, destroys, shuts, watches_reads, watches_writes, leaves_reads,
  leaves_writes, registers, deregisters, perform,
}
use libpinggy.Dummy.Wakeups.{
  read_wakes-append, write_wakes-append, Later, read_poll_lem, write_poll_lem, counter_read_lem,
  counter_write_lem, Woken, Both, Both-trans, Later-Both,
}

close-Both : (s : Side) (d : Dummies) → Both d (close_n_clear s d)
unfolding close_n_clear
close-Both one d =
    let e =
      clear_last_ret one (
        set_writer one (close_pipe (writer one d))
          (set_reader one (close_pipe (reader one d)) d)) in
    let a = set_read_poll one e in
    let b = set_write_poll one a in
    ground (
      arith,
      read_poll_lem one e,
      write_poll_lem one a,
      counter_read_lem one b,
      counter_write_lem one (set_read_poll_for_counter_part one b),
    )
close-Both two d =
    let e =
      clear_last_ret two (
        set_writer two (close_pipe (writer two d))
          (set_reader two (close_pipe (reader two d)) d)) in
    let a = set_read_poll two e in
    let b = set_write_poll two a in
    ground (
      arith,
      read_poll_lem two e,
      write_poll_lem two a,
      counter_read_lem two b,
      counter_write_lem two (set_read_poll_for_counter_part two b),
    )

shut_reader-Both : (s : Side) (d : Dummies) → Both d (shut_reader s d)
unfolding shut_reader
shut_reader-Both one d =
    let e = set_reader one (close_pipe (reader one d)) d in
    ground (arith, read_poll_lem one e, counter_write_lem one (set_read_poll one e))
shut_reader-Both two d =
    let e = set_reader two (close_pipe (reader two d)) d in
    ground (arith, read_poll_lem two e, counter_write_lem two (set_read_poll two e))

shut_writer-Both : (s : Side) (d : Dummies) → Both d (shut_writer s d)
unfolding shut_writer
shut_writer-Both one d =
    let e = set_writer one (close_pipe (writer one d)) d in
    ground (arith, write_poll_lem one e, counter_read_lem one (set_write_poll one e))
shut_writer-Both two d =
    let e = set_writer two (close_pipe (writer two d)) d in
    ground (arith, write_poll_lem two e, counter_read_lem two (set_write_poll two e))

clear-Later : (s : Side) (d : Dummies) → Later d (clear_last_ret s d)
clear-Later one d = ground arith
clear-Later two d = ground arith

cleared : (s : Side) {d e : Dummies} → Both d e → Both d (clear_last_ret s e)
cleared s {e = e} h = Both-trans h (Later-Both (clear-Later s e))

shut_down-Both : (s : Side) (how : How) (d : Dummies) → Both d (shut_down s how d)
unfolding shut_down
shut_down-Both s shut_rd d = cleared s (shut_reader-Both s d)
shut_down-Both s shut_wr d = cleared s (shut_writer-Both s d)
shut_down-Both s shut_rdwr d =
    cleared s (Both-trans (shut_reader-Both s d) (shut_writer-Both s (shut_reader s d)))

write-Both : (s : Side) (xs : List ℕ) (d : Dummies) → Both d (write s xs d).dummies
unfolding write write_open
write-Both one xs d =
    let u = record d { first = record d.first { try_again = false } } in
    let e = record u {
      from_first = record d.from_first { queue = d.from_first.queue ++ (xs ∷ []) };
    } in
    ground (
      arith,
      length-append d.from_first.queue (xs ∷ []),
      write_poll_lem one u,
      write_poll_lem one e,
      counter_read_lem one (set_write_poll one e),
    )
write-Both two xs d =
    let u = record d { second = record d.second { try_again = false } } in
    let e = record u {
      from_second = record d.from_second { queue = d.from_second.queue ++ (xs ∷ []) };
    } in
    ground (
      arith,
      length-append d.from_second.queue (xs ∷ []),
      write_poll_lem two u,
      write_poll_lem two e,
      counter_read_lem two (set_write_poll two e),
    )

peek-Both : (s : Side) (n : ℤ) (d : Dummies) → Both d (peek s n d).dummies
unfolding peek
peek-Both one n d = go d.from_second.queue refl
  where
    go :
        (q : List (List ℕ))
        → d.from_second.queue ≡ q
        → Both d
            (peek_in q one n (record d { first = record d.first { try_again = false } })).dummies
    go [] e = unfold peek_in in ground arith
    go (x ∷ q) e =
        unfold peek_in in
        ground
          (arith, read_poll_lem one (record d { first = record d.first { try_again = false } }))
peek-Both two n d = go d.from_first.queue refl
  where
    go :
        (q : List (List ℕ))
        → d.from_first.queue ≡ q
        → Both d
            (peek_in q two n (record d { second = record d.second { try_again = false } })).dummies
    go [] e = unfold peek_in in ground arith
    go (x ∷ q) e =
        unfold peek_in in
        ground
          (arith, read_poll_lem two (record d { second = record d.second { try_again = false } }))

put_back-length : (ys : List ℕ) (q : List (List ℕ)) → length (put_back ys q) ≤ 1 + length q
put_back-length [] q = omega arith
put_back-length (y ∷ ys) q = omega arith

read-Both : (s : Side) (n : ℤ) (d : Dummies) → Both d (read s n d).dummies
unfolding read
read-Both one n d = go d.from_second.queue refl
  where
    go :
        (q : List (List ℕ))
        → d.from_second.queue ≡ q
        → Both d
            (read_in q one n (record d { first = record d.first { try_again = false } })).dummies
    go [] e = unfold read_in in ground arith
    go (x ∷ q) e =
        unfold read_in in
        (let u = record d {
          first = record d.first { try_again = false };
          from_second = record d.from_second { queue = put_back (consume_bytes n x) q };
        } in
          ground (
            arith,
            put_back-length (consume_bytes n x) q,
            read_poll_lem one u,
            counter_write_lem one (set_read_poll one u),
          ))
read-Both two n d = go d.from_first.queue refl
  where
    go :
        (q : List (List ℕ))
        → d.from_first.queue ≡ q
        → Both d
            (read_in q two n (record d { second = record d.second { try_again = false } })).dummies
    go [] e = unfold read_in in ground arith
    go (x ∷ q) e =
        unfold read_in in
        (let u = record d {
          second = record d.second { try_again = false };
          from_first = record d.from_first { queue = put_back (consume_bytes n x) q };
        } in
          ground (
            arith,
            put_back-length (consume_bytes n x) q,
            read_poll_lem two u,
            counter_write_lem two (set_read_poll two u),
          ))

enable_read-Both : (s : Side) (d : Dummies) → Both d (enable_read_poll s d)
unfolding enable_read_poll
enable_read-Both one d =
    let u = record d {
      first = record d.first {
        pokes = d.first.pokes ++ (enable_read ∷ []);
        is_read_polling = true;
      };
    } in
    ground (
      arith,
      read_poll_lem one d,
      read_poll_lem one u,
      read_wakes-append d.first.pokes (enable_read ∷ []),
      write_wakes-append d.first.pokes (enable_read ∷ []),
    )
enable_read-Both two d =
    let u = record d {
      second = record d.second {
        pokes = d.second.pokes ++ (enable_read ∷ []);
        is_read_polling = true;
      };
    } in
    ground (
      arith,
      read_poll_lem two d,
      read_poll_lem two u,
      read_wakes-append d.second.pokes (enable_read ∷ []),
      write_wakes-append d.second.pokes (enable_read ∷ []),
    )

enable_write-Both : (s : Side) (d : Dummies) → Both d (enable_write_poll s d)
unfolding enable_write_poll
enable_write-Both one d =
    let u = record d {
      first = record d.first {
        pokes = d.first.pokes ++ (enable_write ∷ []);
        is_write_polling = true;
      };
    } in
    ground (
      arith,
      write_poll_lem one d,
      write_poll_lem one u,
      read_wakes-append d.first.pokes (enable_write ∷ []),
      write_wakes-append d.first.pokes (enable_write ∷ []),
    )
enable_write-Both two d =
    let u = record d {
      second = record d.second {
        pokes = d.second.pokes ++ (enable_write ∷ []);
        is_write_polling = true;
      };
    } in
    ground (
      arith,
      write_poll_lem two d,
      write_poll_lem two u,
      read_wakes-append d.second.pokes (enable_write ∷ []),
      write_wakes-append d.second.pokes (enable_write ∷ []),
    )

disable_read-Both : (s : Side) (d : Dummies) → Both d (disable_read_poll s d)
unfolding disable_read_poll
disable_read-Both one d = ground (
  arith,
  read_wakes-append d.first.pokes (disable_read ∷ []),
  write_wakes-append d.first.pokes (disable_read ∷ []),
)
disable_read-Both two d = ground (
  arith,
  read_wakes-append d.second.pokes (disable_read ∷ []),
  write_wakes-append d.second.pokes (disable_read ∷ []),
)

disable_write-Both : (s : Side) (d : Dummies) → Both d (disable_write_poll s d)
unfolding disable_write_poll
disable_write-Both one d = ground (
  arith,
  read_wakes-append d.first.pokes (disable_write ∷ []),
  write_wakes-append d.first.pokes (disable_write ∷ []),
)
disable_write-Both two d = ground (
  arith,
  read_wakes-append d.second.pokes (disable_write ∷ []),
  write_wakes-append d.second.pokes (disable_write ∷ []),
)

registered-Both : (s : Side) (d : Dummies) → Both d (event_handler_registered s d)
unfolding event_handler_registered
registered-Both one d = ground (
  arith,
  read_poll_lem one
      (record d { first = record d.first { is_read_polling = true; is_write_polling = false } }),
)
registered-Both two d = ground (
  arith,
  read_poll_lem two
      (record d { second = record d.second { is_read_polling = true; is_write_polling = false } }),
)

deregistered-Both : (s : Side) (d : Dummies) → Both d (event_handler_deregistered s d)
unfolding event_handler_deregistered
deregistered-Both one d = ground arith
deregistered-Both two d = ground arith

abbrev pub is_destruction : Op → Bool
is_destruction destroys = true
is_destruction op = false

perform-Both :
    (s : Side) (op : Op) (d : Dummies) → is_destruction op ≡ false → Both d (perform s op d).dummies
unfolding perform
perform-Both s (writes xs) d h = write-Both s xs d
perform-Both s (reads n) d h = read-Both s n d
perform-Both s (peeks n) d h = peek-Both s n d
perform-Both s closes d h = close-Both s d
perform-Both s destroys d h = absurd (ground arith)
perform-Both s (shuts how) d h = shut_down-Both s how d
perform-Both s watches_reads d h = enable_read-Both s d
perform-Both s watches_writes d h = enable_write-Both s d
perform-Both s leaves_reads d h = disable_read-Both s d
perform-Both s leaves_writes d h = disable_write-Both s d
perform-Both s registers d h = registered-Both s d
perform-Both s deregisters d h = deregistered-Both s d

-- In every state of a pair, each call on a side but a destruction wakes whoever it concerns: when a side
-- that is alive had nothing to read and no end of the stream to see, and has after the call, a dummy read poll was raised on it
-- in the call; and when it could not write, and can after the call (or sees that its stream is shut), a dummy write poll was.
pub perform-Woken :
    (s : Side) (op : Op) (d : Dummies)
    → is_destruction op ≡ false
    → Woken d (perform s op d).dummies
perform-Woken s op d h = (perform-Both s op d h).woken
