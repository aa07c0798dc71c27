-- ===== src/Literals/Conversions.antt =====
-- src/protocol/transport/Deserialization.cc: an integer that is read as another type than it was written.
use libpinggy.Prelude.{
  ℕ, ◌*◌, ◌/◌, ◌%◌, ◌≤◌, ◌<◌, ◌≡◌, Bool, true, false, ◌&&◌, ◌||◌, if◌then◌else◌, List, ◌++◌, leb,
  Option, none, some, ℤ, pos, negsuc, arith,
}
use libpinggy.Transport.State.{high_first}
use libpinggy.Literals.{
  Kind, int8, int16, int32, int64, uint8, uint16, uint32, uint64, Width, one, two, four, eight,
  width, modulus, count, serialize_lit, value, bits, within, is_compatible, check_and_assign,
  deserialize_literal_with_type,
}
use libpinggy.Literals.Integers.{is_int64, literal_roundtrip}

wider : (a b : Width) → leb (count a) (count b) ≡ true → modulus a ≤ modulus b
wider one one h = omega arith
wider one two h = omega arith
wider one four h = omega arith
wider one eight h = omega arith
wider two one h = absurd (ground arith)
wider two two h = omega arith
wider two four h = omega arith
wider two eight h = omega arith
wider four one h = absurd (ground arith)
wider four two h = absurd (ground arith)
wider four four h = omega arith
wider four eight h = omega arith
wider eight one h = absurd (ground arith)
wider eight two h = absurd (ground arith)
wider eight four h = absurd (ground arith)
wider eight eight h = omega arith

record Size (k : Kind) : Type 0 where
  even : modulus (width k) ≡ 2 * (modulus (width k) / 2)
  large : 256 ≤ modulus (width k)

size : (k : Kind) → Size k
size int8 = ground arith
size int16 = ground arith
size int32 = ground arith
size int64 = ground arith
size uint8 = ground arith
size uint16 = ground arith
size uint32 = ground arith
size uint64 = ground arith

residue : (w : Width) (n : ℕ) → n % modulus w < modulus w
residue one n = omega arith
residue two n = omega arith
residue four n = omega arith
residue eight n = omega arith

own_residue : (w : Width) (n : ℕ) → n < modulus w → n % modulus w ≡ n
own_residue one n h = omega arith
own_residue two n h = omega arith
own_residue four n h = omega arith
own_residue eight n h = omega arith

bits-bound : (k : Kind) (v : ℤ) → bits k v < modulus (width k)
unfolding bits
bits-bound k (pos n) = residue (width k) n
bits-bound k (negsuc n) = ground (arith, size k)

value-bits : (k : Kind) (v : ℤ) → within k v ≡ true → value k (bits k v) ≡ v
unfolding value bits
value-bits k (pos n) h = ground (arith, size k, own_residue (width k) n)
value-bits k (negsuc n) h = ground (arith, size k, own_residue (width k) n)

-- The overloads and the template together assign a value exactly if the type holds it.
abbrev assigned : Kind → Kind → ℤ → Option ℤ
assigned l r v = if is_compatible l r then some v else check_and_assign l r v

assigned-within :
    (l r : Kind) (v : ℤ)
    → within r v ≡ true
    → assigned l r v ≡ (if within l v then some v else none)
unfolding check_and_assign
assigned-within l r (pos n) h = ground (arith, wider (width r) (width l), size l, size r)
assigned-within l r (negsuc n) h = ground (arith, wider (width r) (width l), size l, size r)

-- An integer that one host writes as a literal of one type and another reads as an integer of any other type, the two putting
-- the same byte first on the wire: the reader gets the value itself, with what stands behind it left over, if its type holds
-- the value, and an exception otherwise; the value never wraps round or changes its sign. A literal that is
-- written as an `Int64` has to be written and read without swapping.
pub read_as_other_type :
    (from from_swaps to to_swaps : Bool) (l r : Kind) (v : ℤ) (rest : List ℕ)
    → within r v ≡ true
    → high_first from from_swaps ≡ high_first to to_swaps
    → (is_int64 r && (from_swaps || to_swaps)) ≡ false
    → deserialize_literal_with_type to to_swaps l r
        (serialize_lit from from_swaps r (bits r v) ++ rest)
      ≡ (if within l v then some (v, rest) else none)
unfolding deserialize_literal_with_type
read_as_other_type from from_swaps to to_swaps l r v rest h same e = ground (
  arith,
  literal_roundtrip from from_swaps to to_swaps r (bits r v) rest (bits-bound r v) same e,
  value-bits r v h,
  assigned-within l r v h,
)
