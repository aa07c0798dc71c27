-- ===== src/Dummy/Run.antt =====
-- src/common/net/DummyConnection.cc: any run of calls on the two sides of a new pair.
use libpinggy.Prelude.{
  ℕ, ◌*◌, ◌≤◌, ◌≡◌, refl, sym, ◌∙◌, Bool, true, false, leb, ◌==◌, List, [], ◌∷◌, ◌++◌, append-nil,
  append_assoc, length, length-append, concat, ℤ, pos, negsuc, arith, if◌then◌else◌,
}
use libpinggy.Dummy.{Dummies, Side, one, two, other, writer, create_dummy_connection}
use libpinggy.Dummy.Wire.{
  Op, writes, reads, Answer, perform, Stream, out_of, into, pieces_fit, IsBounded, Promise,
  WriteSpec, Kept,
}
use libpinggy.Dummy.Wire.Keeps.{perform-Kept}

pub create-IsBounded : (n : ℕ) → IsBounded (create_dummy_connection n)
unfolding create_dummy_connection
create-IsBounded n = ground arith

-- Each call of a run does what it promises, and stays within the bounds.
pub AllKept : List (Side × Op) → Dummies → Type 0
AllKept [] d = Unit {0}
AllKept (k ∷ ks) d = Kept k.0 k.1 d (perform k.0 k.1 d) × AllKept ks (perform k.0 k.1 d).dummies

run-AllKept : (ks : List (Side × Op)) (d : Dummies) → IsBounded d → AllKept ks d
unfolding AllKept
run-AllKept [] d b = tt
run-AllKept (k ∷ ks) d b =
    let h = perform-Kept k.0 k.1 d b in (h, run-AllKept ks (perform k.0 k.1 d).dummies h.bounded)

-- The pair refines two bounded streams of bytes. In any run of calls on the two sides of a new pair, each call
-- does to the streams exactly what it promises: a write appends all of its data or, for the reasons it may have, nothing; a read takes bytes
-- off the front, and reports the end only of a stream that is shut and empty; a `Peek` answers as a read could and takes
-- nothing; a close, a `ShutDown` and a destruction shut streams and keep the bytes in them; the other calls change neither
-- stream. And at all times each queue has at most as many pieces as the pair was made for, none of them empty or longer than
-- 4096 bytes.
pub new_pair-AllKept : (n : ℕ) (ks : List (Side × Op)) → AllKept ks (create_dummy_connection n)
new_pair-AllKept n ks = run-AllKept ks (create_dummy_connection n) (create-IsBounded n)

unfoldable pub run : List (Side × Op) → Dummies → Dummies
run [] d = d
run (k ∷ ks) d = run ks (perform k.0 k.1 d).dummies

abbrev same_side : Side → Side → Bool
same_side one one = true
same_side two two = true
same_side s t = false

-- The data of a write that was taken, and the bytes that a read gave.
abbrev taken : Op → ℤ → List ℕ
taken (writes xs) (pos n) = if n == 0 then [] else xs
taken op r = []

abbrev given : Op → List ℕ → List ℕ
given (reads n) ys = ys
given op ys = []

-- All that a side wrote, and all that it read, in a run.
abbrev pub written_by : Side → List (Side × Op) → Dummies → List ℕ
written_by s [] d = []
written_by s (k ∷ ks) d =
    let a = perform k.0 k.1 d in
    (if same_side s k.0 then taken k.1 a.number else []) ++ written_by s ks a.dummies

abbrev pub read_by : Side → List (Side × Op) → Dummies → List ℕ
read_by s [] d = []
read_by s (k ∷ ks) d =
    let a = perform k.0 k.1 d in
    (if same_side s k.0 then given k.1 a.bytes else []) ++ read_by s ks a.dummies

write_part :
    (xs : List ℕ) (full : Bool) (w : Stream) (r : ℤ) (v : Stream)
    → WriteSpec xs full w r v
    → v.bytes ≡ w.bytes ++ taken (writes xs) r
write_part xs full w (pos n) v h = ground (arith, append-nil w.bytes)
write_part xs full w (negsuc n) v h = ground (arith, append-nil w.bytes)

-- On its own side a call appends what it takes, on the other it removes what it gives.
own_part :
    (t : Side) (op : Op) (d : Dummies) (a : Answer)
    → Promise t op d a
    → (out_of t a.dummies).bytes ≡ (out_of t d).bytes ++ taken op a.number
own_part t (writes xs) d a h =
    write_part xs (leb d.buffer_len (length (writer t d).queue)) (out_of t d) a.number
      (out_of t a.dummies) h.0
own_part t op d a h = ground (arith, append-nil (out_of t d).bytes)

far_part :
    (t : Side) (op : Op) (d : Dummies) (a : Answer)
    → Promise t op d a
    → given op a.bytes ++ (into t a.dummies).bytes ≡ (into t d).bytes
far_part t (reads n) d a h = sym h.0.1
far_part t op d a h = ground arith

-- One call: what was given and what is left is what there was and what was taken.
moves :
    (s t : Side) (op : Op) (d : Dummies) (a : Answer)
    → Promise t op d a
    → (if same_side (other s) t then given op a.bytes else []) ++ (out_of s a.dummies).bytes
      ≡ (out_of s d).bytes ++ (if same_side s t then taken op a.number else [])
moves one one op d a h = own_part one op d a h
moves two two op d a h = own_part two op d a h
moves one two op d a h = far_part two op d a h ∙ sym (append-nil (out_of one d).bytes)
moves two one op d a h = far_part one op d a h ∙ sym (append-nil (out_of two d).bytes)

chain :
    (g r o o' o'' t w : List ℕ)
    → g ++ o' ≡ o'' ++ t
    → r ++ o ≡ o' ++ w
    → (g ++ r) ++ o ≡ o'' ++ (t ++ w)
chain g r o o' o'' t w a b =
    ground (arith, append_assoc g r o, append_assoc g o' w, append_assoc o'' t w)

run-moves :
    (s : Side) (ks : List (Side × Op)) (d : Dummies)
    → IsBounded d
    → (read_by (other s) ks d ++ (out_of s (run ks d)).bytes
        ≡ (out_of s d).bytes ++ written_by s ks d)
      × IsBounded (run ks d)
      × ((run ks d).buffer_len ≡ d.buffer_len)
unfolding run
run-moves s [] d b = (sym (append-nil (out_of s d).bytes), b, refl)
run-moves s (k ∷ ks) d b =
    let a = perform k.0 k.1 d in
    let h = perform-Kept k.0 k.1 d b in
    let (rest, b', len) = run-moves s ks a.dummies h.bounded in
    let first = moves s k.0 k.1 d a h.promise in
    let g : List ℕ = if same_side (other s) k.0 then given k.1 a.bytes else [] in
    let t : List ℕ = if same_side s k.0 then taken k.1 a.number else [] in
    (
      chain g (read_by (other s) ks a.dummies) (out_of s (run ks a.dummies)).bytes
          (out_of s a.dummies).bytes (out_of s d).bytes t (written_by s ks a.dummies) first rest,
      b',
      len ∙ h.len,
    )

pieces_fit-size : (q : List (List ℕ)) → pieces_fit q ≡ true → length (concat q) ≤ 4096 * length q
pieces_fit-size [] e = omega arith
pieces_fit-size (x ∷ q) e =
    ground (arith, length-append x (concat q), pieces_fit-size q (ground arith))

out_of-size :
    (s : Side) (d : Dummies) → IsBounded d → length (out_of s d).bytes ≤ 4096 * d.buffer_len
out_of-size one d b =
    omega (arith, pieces_fit-size d.from_first.queue b.first_pieces, b.first_count)
out_of-size two d b =
    omega (arith, pieces_fit-size d.from_second.queue b.second_pieces, b.second_count)

-- In any run of calls on the two sides of a new pair, what a side has read and then what waits for it are the data that the
-- other side's writes have taken, in order, whatever lengths were read and wherever the data were cut. What waits are at most
-- 4096 bytes for each piece that the pair was made for (10, when it was made for 0).
pub run-bounded_stream :
    (s : Side) (n : ℕ) (ks : List (Side × Op))
    → let d = create_dummy_connection n in
      (read_by (other s) ks d ++ (out_of s (run ks d)).bytes ≡ written_by s ks d)
      × (length (out_of s (run ks d)).bytes ≤ 4096 * (if n == 0 then 10 else n))
run-bounded_stream s n ks =
    let d = create_dummy_connection n in
    let (joined, b, len) = run-moves s ks d (create-IsBounded n) in
    (joined ∙ fresh s, omega (arith, out_of-size s (run ks d) b, made, len))
  where
    made : (create_dummy_connection n).buffer_len ≡ (if n == 0 then 10 else n)
    made = unfold create_dummy_connection in refl

    fresh :
        (s : Side)
        → (out_of s (create_dummy_connection n)).bytes
            ++ written_by s ks (create_dummy_connection n)
          ≡ written_by s ks (create_dummy_connection n)
    fresh one = unfold create_dummy_connection in refl
    fresh two = unfold create_dummy_connection in refl
