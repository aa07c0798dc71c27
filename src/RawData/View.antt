-- ===== src/RawData/View.antt =====
-- src/common/utils/RawData.cc: `Slice`, `Consume` and the copies out, by what a buffer holds.
use libpinggy.Prelude.{
  ℕ, ◌+◌, ◌-◌, ◌≤◌, ◌≡◌, refl, List, [], ◌∙◌, append-nil, drop-length, take, take-nil, drop, length,
  length-take, length-drop, ltb, if◌then◌else◌, ℤ, pos, negsuc, arith, ◌++◌, drop-drop, drop-take,
  take-take, take-length, take-append-drop,
}
use libpinggy.RawData.{
  RawData, view, no_copy, slice_offset, slice_len, slice, consumed, consume, get_data, consume_into,
}

-- The window lies in the block, and so does what `Capa` allows to be written.
pub record IsValid (r : RawData) : Type 0 where
  pub window : r.offset + r.len ≤ length r.block
  pub room : r.capa ≤ length r.block

pub length-view : {r : RawData} → IsValid r → length (view r) ≡ r.len
length-view {r} v =
    omega (arith, length-take r.len (drop r.offset r.block), length-drop r.offset r.block)

-- On contents: a negative offset is none, and a negative length is all that there is.
abbrev pub from_offset : ℤ → List ℕ → List ℕ
from_offset (pos o) xs = drop o xs
from_offset (negsuc o) xs = xs

abbrev pub up_to : ℤ → List ℕ → List ℕ
up_to (pos n) xs = take n xs
up_to (negsuc n) xs = xs

-- What `Slice` selects and what `Consume` leaves.
abbrev pub slice_bytes : ℤ → ℤ → List ℕ → List ℕ
slice_bytes o n xs = up_to n (from_offset o xs)

abbrev pub consume_bytes : ℤ → List ℕ → List ℕ
consume_bytes (pos n) xs = drop n xs
consume_bytes (negsuc n) xs = []

-- The corrected arguments select what the arguments do.
corrected_slice :
    (o n : ℤ) (xs : List ℕ)
    → take (slice_len (length xs) o n) (drop (slice_offset (length xs) o) xs) ≡ slice_bytes o n xs
unfolding slice_len slice_offset
corrected_slice (pos o) (pos n) xs = ground (
  arith,
  drop-length o xs,
  drop-length (length xs) xs,
  take-length n (drop o xs),
  take-length (length xs - o) (drop o xs),
  length-drop o xs,
  take-nil {A = ℕ} n,
)
corrected_slice (pos o) (negsuc n) xs = ground (
  arith,
  drop-length o xs,
  drop-length (length xs) xs,
  take-length (length xs - o) (drop o xs),
  length-drop o xs,
)
corrected_slice (negsuc o) (pos n) xs =
    ground (arith, take-length n xs, take-length (length xs) xs, take-length 0 xs)
corrected_slice (negsuc o) (negsuc n) xs = take-length (length xs) xs (omega arith)

corrected_consume : (n : ℤ) (xs : List ℕ) → drop (consumed (length xs) n) xs ≡ consume_bytes n xs
corrected_consume (pos n) xs = ground (arith, drop-length n xs, drop-length (length xs) xs)
corrected_consume (negsuc n) xs = drop-length (length xs) xs (omega arith)

slice-fits : (len : ℕ) (o n : ℤ) → slice_offset len o + slice_len len o n ≤ len
unfolding slice_offset slice_len
slice-fits len (pos o) (pos n) = ground arith
slice-fits len (pos o) (negsuc n) = ground arith
slice-fits len (negsuc o) (pos n) = ground arith
slice-fits len (negsuc o) (negsuc n) = ground arith

view-no_copy : (xs : List ℕ) → view (no_copy xs) ≡ xs
unfolding no_copy
view-no_copy xs = take-length (length xs) xs (omega arith)

take_window :
    (n o k : ℕ) (xs : List ℕ) → o + n ≤ k → take n (drop o (take k xs)) ≡ take n (drop o xs)
take_window n o k xs h = rw (drop-take o k xs) (take-take n (k - o) (drop o xs) (omega arith))

-- A slice of a valid buffer holds, of what its parent holds, the bytes from the offset on, of these as many as the length
-- says or as there are; all are taken from the front where the offset is negative, and to the end where the length is
-- negative. It is a valid buffer itself.
pub slice-slice_bytes :
    (r : RawData) (o n : ℤ)
    → IsValid r
    → (view (slice r o n) ≡ slice_bytes o n (view r)) × IsValid (slice r o n)
unfolding slice
slice-slice_bytes r o n v =
    let selected : take (slice_len r.len o n) (drop (slice_offset r.len o) (view r))
        ≡ slice_bytes o n (view r) =
      rw (length-view v) at (corrected_slice o n (view r)) in
    (content ∙ selected, record { window = omega arith; room = omega arith })
  where
    content : view (slice r o n) ≡ take (slice_len r.len o n) (drop (slice_offset r.len o) (view r))
    content = rw (view-no_copy, take_window _ _ r.len _ (slice-fits r.len o n), drop-drop)

consumed-le : (len : ℕ) (n : ℤ) → consumed len n ≤ len
consumed-le len (pos n) = ground arith
consumed-le len (negsuc n) = omega arith

-- `Consume` on a valid buffer drops as many bytes from the front as the length says, or all where there are no more
-- or the length is negative, and keeps the buffer valid.
pub consume-consume_bytes :
    (r : RawData) (n : ℤ)
    → IsValid r
    → (view (consume r n) ≡ consume_bytes n (view r)) × IsValid (consume r n)
unfolding consume
consume-consume_bytes r n v =
    let k : ℕ = consumed r.len n in
    let left : drop k (view r) ≡ consume_bytes n (view r) =
      rw (length-view v) at (corrected_consume n (view r)) in
    ground (
      arith,
      left,
      consumed-le r.len n,
      drop-take k r.len (drop r.offset r.block),
      drop-drop k r.offset r.block,
    )

get_data-take :
    (r : RawData) (n : ℤ)
    → IsValid r
    → (m : ℕ) × (m ≤ length (view r)) × (get_data r n ≡ take m (view r))
unfolding get_data
get_data-take r (negsuc n) v = (0, omega arith, refl)
get_data-take r (pos n) v =
    let m : ℕ = if ltb n r.len then n else r.len in
    let h : m ≤ r.len = ground arith in
    (m, omega (arith, length-view v), rw (take-take m r.len (drop r.offset r.block) h))

-- `Consume(buf, capa)` splits what a valid buffer holds: what was copied out, then what is left.
pub consume_into_split :
    (r : RawData) (n : ℤ) → IsValid r → (consume_into r n).1 ++ view (consume_into r n).0 ≡ view r
unfolding consume_into
consume_into_split r n v =
    let (m, h, e) = get_data-take r n v in
    let size : length (take m (view r)) ≡ m = omega (arith, length-take m (view r)) in
    rw ((consume-consume_bytes r (pos (length (get_data r n))) v).0, e, size)
      (take-append-drop m (view r))

-- A slice from the front and a `Consume` of the same length, negative or not, split the content.
pub slice-append-consume :
    (n : ℤ) (xs : List ℕ) → slice_bytes (pos 0) n xs ++ consume_bytes n xs ≡ xs
slice-append-consume (pos n) xs = take-append-drop n xs
slice-append-consume (negsuc n) xs = append-nil xs
