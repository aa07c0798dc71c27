-- ===== src/Dummy/Wire/Copies.antt =====
-- src/common/net/DummyConnection.cc: `Write`, `Read` and `Peek` keep what the pair promises.
use libpinggy.Prelude.{
  ℕ, ◌+◌, ◌≤◌, ◌<◌, ◌≡◌, refl, ◌⊎◌, inl, inr, true, false, List, [], ◌∷◌, ◌++◌, append-nil,
  append_assoc, length, length-append, concat, zero, suc, ap, ℤ, pos, negsuc, arith,
}
use libpinggy.RawData.View.{slice_bytes, consume_bytes, slice-append-consume}
use libpinggy.Dummy.{
  Pipe, Dummies, Side, one, two, set_read_poll, set_write_poll, write, write_open, read, read_in,
  peek, peek_in, put_back,
}
use libpinggy.Dummy.Wire.{
  writes, reads, peeks, read_answer, perform, into, pieces_fit, IsBounded, set_read_poll-Same,
  set_write_poll-Same, counter_read-Same, counter_write-Same, Kept,
}

concat-snoc : (q : List (List ℕ)) (xs : List ℕ) → concat (q ++ (xs ∷ [])) ≡ concat q ++ xs
concat-snoc [] xs = append-nil xs
concat-snoc (x ∷ q) xs = rw (concat-snoc q xs, append_assoc)

pieces_fit-snoc :
    (q : List (List ℕ)) (xs : List ℕ)
    → pieces_fit q ≡ true
    → 0 < length xs
    → length xs ≤ 4096
    → pieces_fit (q ++ (xs ∷ [])) ≡ true
pieces_fit-snoc [] xs e a b = ground arith
pieces_fit-snoc (x ∷ q) xs e a b = ground (arith, pieces_fit-snoc q xs (ground arith) a b)

pub write-Kept :
    (s : Side) (xs : List ℕ) (d : Dummies)
    → IsBounded d
    → Kept s (writes xs) d (perform s (writes xs) d)
unfolding perform write write_open
write-Kept one xs d b =
    let q : List (List ℕ) = d.from_first.queue in
    let p : Pipe = record d.from_first { queue = q ++ (xs ∷ []) } in
    let e : Dummies = record d { from_first = p; first = record d.first { try_again = false } } in
    ground (
      arith,
      concat-snoc q xs,
      pieces_fit-snoc q xs b.first_pieces,
      length-append q (xs ∷ []),
      set_write_poll-Same one (record d { first = record d.first { try_again = false } }),
      set_write_poll-Same one e,
      counter_read-Same one (set_write_poll one e),
    )
write-Kept two xs d b =
    let q : List (List ℕ) = d.from_second.queue in
    let p : Pipe = record d.from_second { queue = q ++ (xs ∷ []) } in
    let e : Dummies = record d {
      from_second = p;
      second = record d.second { try_again = false };
    } in
    ground (
      arith,
      concat-snoc q xs,
      pieces_fit-snoc q xs b.second_pieces,
      length-append q (xs ∷ []),
      set_write_poll-Same two (record d { second = record d.second { try_again = false } }),
      set_write_poll-Same two e,
      counter_read-Same two (set_write_poll two e),
    )

concat-put_back : (ys : List ℕ) (q : List (List ℕ)) → concat (put_back ys q) ≡ ys ++ concat q
concat-put_back [] q = refl
concat-put_back (y ∷ ys) q = refl

put_back-concat :
    (n : ℤ) (x : List ℕ) (q : List (List ℕ))
    → slice_bytes (pos 0) n x ++ concat (put_back (consume_bytes n x) q) ≡ x ++ concat q
put_back-concat n x q = rw (
  concat-put_back (consume_bytes n x) q,
  ← append_assoc (slice_bytes (pos 0) n x),
  slice-append-consume n x,
)

put_back-fits :
    (ys x : List ℕ) (q : List (List ℕ))
    → length ys ≤ length x
    → pieces_fit (x ∷ q) ≡ true
    → (pieces_fit (put_back ys q) ≡ true) × (length (put_back ys q) ≤ length (x ∷ q))
put_back-fits [] x q h e = ground arith
put_back-fits (y ∷ ys) x q h e = ground arith

split-sizes :
    (n : ℤ) (x : List ℕ) → length (slice_bytes (pos 0) n x) + length (consume_bytes n x) ≡ length x
split-sizes n x = omega (
  arith,
  length-append (slice_bytes (pos 0) n x) (consume_bytes n x),
  ap length (slice-append-consume n x),
)

slice-size :
    (n : ℤ) (x : List ℕ) → 0 < length x → (0 < length (slice_bytes (pos 0) n x)) ⊎ (n ≡ pos 0)
slice-size (pos zero) x h = inr refl
slice-size (pos (suc n)) [] h = absurd (omega arith)
slice-size (pos (suc n)) (y ∷ ys) h = inl (omega arith)
slice-size (negsuc n) x h = inl h

-- What a read of the front does to the pieces.
record Front (n : ℤ) (x : List ℕ) (q : List (List ℕ)) : Type 0 where
  joined : slice_bytes (pos 0) n x ++ concat (put_back (consume_bytes n x) q) ≡ x ++ concat q
  fits : pieces_fit (put_back (consume_bytes n x) q) ≡ true
  count : length (put_back (consume_bytes n x) q) ≤ length (x ∷ q)
  size : (0 < length (slice_bytes (pos 0) n x)) ⊎ (n ≡ pos 0)

front : (n : ℤ) (x : List ℕ) (q : List (List ℕ)) → pieces_fit (x ∷ q) ≡ true → Front n x q
front n x q e =
    let (fits, count) = put_back-fits (consume_bytes n x) x q (omega (arith, split-sizes n x)) e in
    record {
      joined = put_back-concat n x q;
      fits = fits;
      count = count;
      size = slice-size n x (ground arith);
    }

abbrev asked : Side → Dummies → Dummies
asked one d = record d { first = record d.first { try_again = false } }
asked two d = record d { second = record d.second { try_again = false } }

abbrev left_with : Side → List (List ℕ) → Dummies → Dummies
left_with one q d = record d { from_second = record d.from_second { queue = q } }
left_with two q d = record d { from_first = record d.from_first { queue = q } }

pub read-Kept :
    (s : Side) (n : ℤ) (d : Dummies) → IsBounded d → Kept s (reads n) d (perform s (reads n) d)
unfolding perform read
read-Kept one n d b = go d.from_second.queue refl
  where
    go :
        (q : List (List ℕ))
        → d.from_second.queue ≡ q
        → Kept one (reads n) d (read_answer (read_in q one n (asked one d)))
    go [] e = unfold read_in in ground arith
    go (x ∷ q) e =
        unfold read_in in
        (let f : Front n x q = front n x q (ground arith) in
          let u : Dummies = left_with one (put_back (consume_bytes n x) q) (asked one d) in
          ground (arith, set_read_poll-Same one u, counter_write-Same one (set_read_poll one u)))
read-Kept two n d b = go d.from_first.queue refl
  where
    go :
        (q : List (List ℕ))
        → d.from_first.queue ≡ q
        → Kept two (reads n) d (read_answer (read_in q two n (asked two d)))
    go [] e = unfold read_in in ground arith
    go (x ∷ q) e =
        unfold read_in in
        (let f : Front n x q = front n x q (ground arith) in
          let u : Dummies = left_with two (put_back (consume_bytes n x) q) (asked two d) in
          ground (arith, set_read_poll-Same two u, counter_write-Same two (set_read_poll two u)))

pub peek-Kept :
    (s : Side) (n : ℤ) (d : Dummies) → IsBounded d → Kept s (peeks n) d (perform s (peeks n) d)
unfolding perform peek
peek-Kept one n d b = go d.from_second.queue refl
  where
    go :
        (q : List (List ℕ))
        → d.from_second.queue ≡ q
        → Kept one (peeks n) d (read_answer (peek_in q one n (asked one d)))
    go [] e =
        unfold peek_in in
        record {
          promise = ((into one d, ground arith), ground arith);
          bounded = ground arith;
          len = ground arith;
        }
    go (x ∷ q) e =
        unfold peek_in in
        (let f : Front n x q = front n x q (ground arith) in
          let same = set_read_poll-Same one (asked one d) in
          record {
            promise = (
              (
                record {
                  bytes = concat (put_back (consume_bytes n x) q);
                  shut = d.from_second.closed;
                },
                ground arith,
              ),
              ground arith,
            );
            bounded = ground arith;
            len = ground arith;
          })
peek-Kept two n d b = go d.from_first.queue refl
  where
    go :
        (q : List (List ℕ))
        → d.from_first.queue ≡ q
        → Kept two (peeks n) d (read_answer (peek_in q two n (asked two d)))
    go [] e =
        unfold peek_in in
        record {
          promise = ((into two d, ground arith), ground arith);
          bounded = ground arith;
          len = ground arith;
        }
    go (x ∷ q) e =
        unfold peek_in in
        (let f : Front n x q = front n x q (ground arith) in
          let same = set_read_poll-Same two (asked two d) in
          record {
            promise = (
              (
                record {
                  bytes = concat (put_back (consume_bytes n x) q);
                  shut = d.from_first.closed;
                },
                ground arith,
              ),
              ground arith,
            );
            bounded = ground arith;
            len = ground arith;
          })
