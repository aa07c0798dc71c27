-- ===== src/Literals/Strings.antt =====
-- src/protocol/transport/Serialization.cc and Deserialization.cc: strings on the wire.
use libpinggy.Prelude.{
  ℕ, ◌+◌, ◌*◌, ◌%◌, ◌^◌, ◌<◌, ◌≡◌, Bool, true, false, if◌then◌else◌, List, [], ◌++◌, append_assoc,
  length, length-append, take, drop, take-append_le, drop-append_le, ◌==◌, none, some, arith,
}
use libpinggy.Transport.State.{high_first}
use libpinggy.Literals.{
  uint16, swap_16, byte_swap, serialize_lit, serialize_string, string_of_length, deserialize_string,
}
use libpinggy.Literals.Integers.{literal_roundtrip}

-- What stands behind the length.
abbrev body : List ℕ → List ℕ
body item = if length item % 2 ^ 16 == 0 then [] else item

read_length :
    (from from_swaps to to_swaps : Bool) (item rest : List ℕ)
    → high_first from from_swaps ≡ high_first to to_swaps
    → deserialize_string to to_swaps (serialize_string from from_swaps item ++ rest)
      ≡ string_of_length
          (if to_swaps then swap_16 (length item % 2 ^ 16) else length item % 2 ^ 16)
          (body item ++ rest)
unfolding deserialize_string serialize_string byte_swap
read_length from from_swaps to to_swaps item rest same =
    let k : ℕ = length item % 2 ^ 16 in
    ground (
      arith,
      append_assoc (serialize_lit from from_swaps uint16 k) (body item) rest,
      literal_roundtrip from from_swaps to to_swaps uint16 k (body item ++ rest) (omega arith) same
          (ground arith),
    )

-- A string that one host writes and another, which does not swap, reads: of a string of less than 2^16 bytes the
-- reader gets all, and what stands behind it is left over. Of a longer one the reader gets as many bytes as its length
-- has left modulo 2^16, and the others, which were written all the same, stand before what is left over (with a multiple of 2^16,
-- no byte was written).
pub string_roundtrip :
    (from from_swaps to : Bool) (item rest : List ℕ)
    → high_first from from_swaps ≡ high_first to false
    → let k = length item % 2 ^ 16 in
      deserialize_string to false (serialize_string from from_swaps item ++ rest)
      ≡ some (take k item, (if k == 0 then [] else drop k item) ++ rest)
unfolding string_of_length
string_roundtrip from from_swaps to item rest same =
    let k : ℕ = length item % 2 ^ 16 in
    rw (read_length from from_swaps to false item rest same) (
      ground
        (arith, take-append_le k item rest, drop-append_le k item rest, length-append item rest))

-- A reader that swaps swaps the length twice. So a string of 1 to 255 bytes that a host of the other order wrote
-- is refused, unless 256 bytes for each of its bytes are there.
pub string_swapped_twice :
    (from to : Bool) (item rest : List ℕ)
    → high_first from false ≡ high_first to true
    → 0 < length item
    → length item < 256
    → length item + length rest < 256 * length item
    → deserialize_string to true (serialize_string from false item ++ rest) ≡ none
unfolding string_of_length swap_16
string_swapped_twice from to item rest same some_bytes short few =
    rw (read_length from false to true item rest same) (ground (arith, length-append item rest))
