-- ===== src/Literals.antt =====
-- src/protocol/transport/Serialization.cc and Deserialization.cc: the literals of the wire. A value of a fixed
-- width is its bits, as a number below 2 to the width. A stream is the bytes that it holds; `none` is
-- an exception. `big_endian` is the order of the host. The floating-point literals are carried as the
-- bits of their union.
pub mod Integers
pub mod Strings
pub mod Conversions
use libpinggy.Prelude.{
  ℕ, zero, ◌+◌, ◌-◌, ◌*◌, ◌/◌, ◌%◌, ◌^◌, Bool, true, false, not, ◌&&◌, ◌||◌, if◌then◌else◌, List,
  [], ◌∷◌, ◌++◌, length, take, drop, ltb, leb, ◌==◌, Option, none, some, ℤ, pos, negsuc,
}

-- The literal types of integers.
pub data Kind : Type 0 where
  int8 int16 int32 int64 uint8 uint16 uint32 uint64 : Kind

abbrev pub is_signed : Kind → Bool
is_signed int8 = true
is_signed int16 = true
is_signed int32 = true
is_signed int64 = true
is_signed k = false

-- `sizeof`, as a width in bytes.
pub data Width : Type 0 where
  one two four eight : Width

abbrev pub width : Kind → Width
width int8 = one
width uint8 = one
width int16 = two
width uint16 = two
width int32 = four
width uint32 = four
width int64 = eight
width uint64 = eight

abbrev pub modulus : Width → ℕ
modulus one = 2 ^ 8
modulus two = 2 ^ 16
modulus four = 2 ^ 32
modulus eight = 2 ^ 64

abbrev pub count : Width → ℕ
count one = 1
count two = 2
count four = 4
count eight = 8

-- The macros `SWAP_16`, `SWAP_32` and `SWAP_64`: a masked byte that is shifted.
unfoldable pub swap_16 : ℕ → ℕ
swap_16 x = x % 256 * 256 + x / 256 % 256

unfoldable pub swap_32 : ℕ → ℕ
swap_32 x = x % 256 * 2 ^ 24 + x / 256 % 256 * 2 ^ 16 + x / 2 ^ 16 % 256 * 256 + x / 2 ^ 24 % 256

unfoldable pub swap_64 : ℕ → ℕ
unfolding swap_32
swap_64 x = swap_32 (x % 2 ^ 32) * 2 ^ 32 + swap_32 (x / 2 ^ 32 % 2 ^ 32)

-- `(tInt32)SWAP_64(x)`: the cast is on the first operand of the macro's `|`, which has nothing in its lower half, so
-- what is left is the second, the swapped upper half of the argument.
unfoldable pub swap_int64 : ℕ → ℕ
unfolding swap_32
swap_int64 x = swap_32 (x / 2 ^ 32 % 2 ^ 32)

unfoldable pub byte_swap : Kind → ℕ → ℕ
byte_swap int8 x = x
byte_swap uint8 x = x
byte_swap int16 x = swap_16 x
byte_swap uint16 x = swap_16 x
byte_swap int32 x = swap_32 x
byte_swap uint32 x = swap_32 x
byte_swap int64 x = swap_int64 x
byte_swap uint64 x = swap_64 x

abbrev pub four_bytes : ℕ → List ℕ
four_bytes x = x % 256 ∷ x / 256 % 256 ∷ x / 2 ^ 16 % 256 ∷ x / 2 ^ 24 % 256 ∷ []

-- The bytes of a value in memory, lowest first.
unfoldable pub low_bytes : Width → ℕ → List ℕ
low_bytes one x = x % 256 ∷ []
low_bytes two x = x % 256 ∷ x / 256 % 256 ∷ []
low_bytes four x = four_bytes x
low_bytes eight x = four_bytes (x % 2 ^ 32) ++ four_bytes (x / 2 ^ 32)

abbrev pub reversed : List ℕ → List ℕ
reversed [] = []
reversed (x ∷ xs) = reversed xs ++ (x ∷ [])

unfoldable pub memory : (big_endian : Bool) → Width → ℕ → List ℕ
memory big_endian w x = if big_endian then reversed (low_bytes w x) else low_bytes w x

-- The value of bytes in memory, lowest first.
abbrev pub of_low_bytes : List ℕ → ℕ
of_low_bytes [] = 0
of_low_bytes (x ∷ xs) = x + 256 * of_low_bytes xs

unfoldable pub load : (big_endian : Bool) → List ℕ → ℕ
load big_endian xs = of_low_bytes (if big_endian then reversed xs else xs)

-- `Serialize_Lit` of a literal of fixed width, as the bytes that it adds to the stream.
unfoldable pub serialize_lit : (big_endian swap : Bool) → Kind → ℕ → List ℕ
serialize_lit big_endian swap k x = memory big_endian (width k) (if swap then byte_swap k x else x)

-- `Deserialize_Lit` of a literal of fixed width: the value, and the stream that is left.
unfoldable pub deserialize_lit : (big_endian swap : Bool) → Kind → List ℕ → Option (ℕ × List ℕ)
deserialize_lit big_endian swap k xs =
    let n = count (width k) in
    let x = load big_endian (take n xs) in
    if ltb (length xs) n then none else some (if swap then byte_swap k x else x, drop n xs)

-- `Serialize_Lit` of a string.
unfoldable pub serialize_string : (big_endian swap : Bool) → List ℕ → List ℕ
serialize_string big_endian swap item =
    let len = length item % 2 ^ 16 in
    serialize_lit big_endian swap uint16 len ++ (if len == 0 then [] else item)

-- After the length was read. The item stays empty when its length is 0.
unfoldable pub string_of_length : ℕ → List ℕ → Option (List ℕ × List ℕ)
string_of_length len xs =
    if len == 0
    then some ([], xs)
    else if ltb (length xs) len
    then none
    else some (take len xs, drop len xs)

-- `Deserialize_Lit` of a string or of raw data: the length is swapped by the call that reads it, and
-- then here.
unfoldable pub deserialize_string : (big_endian swap : Bool) → List ℕ → Option (List ℕ × List ℕ)
deserialize_string big_endian swap xs = elim (deserialize_lit big_endian swap uint16 xs) [
  | none ↦ none
  | some (len, ys) ↦ string_of_length (if swap then byte_swap uint16 len else len) ys
]

-- The value of bits, and the bits of a value: two's complement for a signed type.
unfoldable pub value : Kind → ℕ → ℤ
value k x =
    if is_signed k && leb (modulus (width k)) (2 * x)
    then negsuc (modulus (width k) - 1 - x)
    else pos x

unfoldable pub bits : Kind → ℤ → ℕ
bits k (pos n) = n % modulus (width k)
bits k (negsuc n) = modulus (width k) - 1 - n % modulus (width k)

-- What a type holds, by `numeric_limits`: the largest value, and whether a negative one is not too low.
abbrev pub max_of : Kind → ℕ
max_of k = if is_signed k then modulus (width k) / 2 - 1 else modulus (width k) - 1

abbrev pub within : Kind → ℤ → Bool
within k (pos n) = leb n (max_of k)
within k (negsuc n) = is_signed k && leb n (max_of k)

-- The overloads of `checkIfAssignmentPossibleAndAssign` and `checkIfCompatible`: a type that is not
-- wider, of the same sign.
abbrev pub is_compatible : Kind → Kind → Bool
is_compatible l r =
    (if is_signed l then is_signed r else not (is_signed r))
    && leb (count (width r)) (count (width l))

-- The template, for the other pairs.
unfoldable pub check_and_assign : Kind → Kind → ℤ → Option ℤ
check_and_assign l r (pos n) = if leb n (max_of l) then some (pos n) else none
check_and_assign l r (negsuc n) =
    if is_signed r
    then (if is_signed l then (if leb n (max_of l) then some (negsuc n) else none) else none)
    else none

-- `deserializeLiteralWithType`, for an integer `l` that the stream holds as a literal of type `r`.
unfoldable pub deserialize_literal_with_type :
    (big_endian swap : Bool) → (l r : Kind) → List ℕ → Option (ℤ × List ℕ)
deserialize_literal_with_type big_endian swap l r xs = elim (deserialize_lit big_endian swap r xs) [
  | none ↦ none
  | some (x, ys) ↦
      if is_compatible l r
      then some (value r x, ys)
      else elim (check_and_assign l r (value r x)) [ none ↦ none | some v ↦ some (v, ys) ]
]
