-- ===== src/Literals/Integers.antt =====
-- src/protocol/transport/Serialization.cc and Deserialization.cc: what is written is read back.
use libpinggy.Prelude.{
  ℕ, ◌+◌, ◌*◌, ◌/◌, ◌%◌, ◌^◌, ◌<◌, ◌≡◌, refl, sym, ◌∙◌, Bool, true, false, not, ◌&&◌, ◌||◌, List,
  [], ◌∷◌, ◌++◌, length, take, drop, ltb, some, arith, ap,
}
use libpinggy.Transport.State.{high_first}
use libpinggy.Literals.{
  Kind, int8, int16, int32, int64, uint8, uint16, uint32, uint64, Width, one, two, four, eight,
  width, modulus, count, swap_16, swap_32, swap_64, byte_swap, low_bytes, four_bytes, reversed,
  memory, of_low_bytes, load, serialize_lit, deserialize_lit,
}

swap_16-bytes : (x : ℕ) → low_bytes two (swap_16 x) ≡ reversed (low_bytes two x)
unfolding swap_16 low_bytes
swap_16-bytes x = ground arith

four_bytes-eq :
    (a b c d : ℕ)
    → a < 256
    → b < 256
    → c < 256
    → d < 256
    → four_bytes (a * 2 ^ 24 + b * 2 ^ 16 + c * 256 + d) ≡ d ∷ c ∷ b ∷ a ∷ []
four_bytes-eq a b c d ha hb hc hd = ground arith

swap_32-bytes : (x : ℕ) → low_bytes four (swap_32 x) ≡ reversed (low_bytes four x)
unfolding swap_32 low_bytes
swap_32-bytes x =
    four_bytes-eq (x % 256) (x / 256 % 256) (x / 2 ^ 16 % 256) (x / 2 ^ 24 % 256) (omega arith)
      (omega arith) (omega arith) (omega arith)

swap_32-bound : (x : ℕ) → swap_32 x < 2 ^ 32
unfolding swap_32
swap_32-bound x = omega arith

halves : (a b : ℕ) → b < 2 ^ 32 → ((a * 2 ^ 32 + b) % 2 ^ 32 ≡ b) × ((a * 2 ^ 32 + b) / 2 ^ 32 ≡ a)
halves a b h = (omega arith, omega arith)

swap_64-bytes : (x : ℕ) → low_bytes eight (swap_64 x) ≡ reversed (low_bytes eight x)
unfolding swap_64 low_bytes
swap_64-bytes x =
    let low : ℕ = x % 2 ^ 32 in
    let high : ℕ = x / 2 ^ 32 in
    let (h, l) = halves (swap_32 low) (swap_32 (high % 2 ^ 32)) (swap_32-bound (high % 2 ^ 32)) in
    ground (arith, h, l, swap_32-bytes low, swap_32-bytes (high % 2 ^ 32))

abbrev pub is_int64 : Kind → Bool
is_int64 int64 = true
is_int64 k = false

memory-swap :
    (b : Bool) (k : Kind) (x : ℕ)
    → is_int64 k ≡ false
    → memory b (width k) (byte_swap k x) ≡ memory (not b) (width k) x
unfolding memory byte_swap low_bytes
memory-swap b int8 x e = ground arith
memory-swap b uint8 x e = ground arith
memory-swap b int16 x e = ground (arith, swap_16-bytes x)
memory-swap b uint16 x e = ground (arith, swap_16-bytes x)
memory-swap b int32 x e = ground (arith, swap_32-bytes x)
memory-swap b uint32 x e = ground (arith, swap_32-bytes x)
memory-swap b int64 x e = absurd (ground arith)
memory-swap b uint64 x e = ground (arith, swap_64-bytes x)

of_four_bytes :
    (y : ℕ) (zs : List ℕ)
    → y < 2 ^ 32
    → of_low_bytes (four_bytes y ++ zs) ≡ y + 2 ^ 32 * of_low_bytes zs
of_four_bytes y zs h = omega arith

load-memory : (b : Bool) (w : Width) (x : ℕ) → x < modulus w → load b (memory b w x) ≡ x
unfolding load memory low_bytes
load-memory b one x h = ground arith
load-memory b two x h = ground arith
load-memory b four x h = ground arith
load-memory b eight x h =
    let low : ℕ = x % 2 ^ 32 in
    let high : ℕ = x / 2 ^ 32 in
    let last = of_four_bytes high [] (omega arith) in
    let all = of_four_bytes low (four_bytes high) (omega arith) in ground (arith, last, all)

byte_swap-bound :
    (k : Kind) (x : ℕ)
    → is_int64 k ≡ false
    → x < modulus (width k)
    → byte_swap k x < modulus (width k)
unfolding byte_swap swap_16 swap_32 swap_64
byte_swap-bound int8 x e h = h
byte_swap-bound uint8 x e h = h
byte_swap-bound int16 x e h = omega arith
byte_swap-bound uint16 x e h = omega arith
byte_swap-bound int32 x e h = omega arith
byte_swap-bound uint32 x e h = omega arith
byte_swap-bound int64 x e h = absurd (ground arith)
byte_swap-bound uint64 x e h =
    omega (arith, swap_32-bound (x % 2 ^ 32), swap_32-bound (x / 2 ^ 32 % 2 ^ 32))

-- Swapping twice gives the value back.
swap-swap :
    (k : Kind) (x : ℕ)
    → is_int64 k ≡ false
    → x < modulus (width k)
    → byte_swap k (byte_swap k x) ≡ x
swap-swap k x e h =
    let y = byte_swap k x in
    let small = byte_swap-bound k x e h in
    sym (load-memory true (width k) (byte_swap k y) (byte_swap-bound k y e small))
    ∙ (ap (load true) (memory-swap true k y e ∙ memory-swap false k x e)
        ∙ load-memory true (width k) x h)

front_of :
    (b : Bool) (w : Width) (x : ℕ) (rest : List ℕ)
    → (take (count w) (memory b w x ++ rest) ≡ memory b w x)
      × (drop (count w) (memory b w x ++ rest) ≡ rest)
      × (ltb (length (memory b w x ++ rest)) (count w) ≡ false)
unfolding memory low_bytes
front_of true one x rest = ground arith
front_of true two x rest = ground arith
front_of true four x rest = ground arith
front_of true eight x rest = ground arith
front_of false one x rest = ground arith
front_of false two x rest = ground arith
front_of false four x rest = ground arith
front_of false eight x rest = ground arith

-- What a host writes, with or without swapping, is the value in one of the two orders.
serialize-memory :
    (b s : Bool) (k : Kind) (x : ℕ)
    → (is_int64 k && s) ≡ false
    → serialize_lit b s k x ≡ memory (high_first b s) (width k) x
unfolding serialize_lit
serialize-memory b true k x e = memory-swap b k x (ground arith)
serialize-memory b false k x e = refl

deserialize-memory :
    (b s : Bool) (k : Kind) (x : ℕ) (rest : List ℕ)
    → (is_int64 k && s) ≡ false
    → x < modulus (width k)
    → deserialize_lit b s k (memory (high_first b s) (width k) x ++ rest) ≡ some (x, rest)
unfolding deserialize_lit
deserialize-memory b false k x rest e h =
    let (front, left, enough) = front_of b (width k) x rest in
    rw (enough, front, left, load-memory b (width k) x h)
deserialize-memory b true k x rest e h =
    let y = byte_swap k x in
    let e' : is_int64 k ≡ false = ground arith in
    let (front, left, enough) = front_of (not b) (width k) x rest in
    rw (
      enough,
      front,
      left,
      ← memory-swap b k x e',
      load-memory b (width k) y (byte_swap-bound k x e' h),
      swap-swap k x e' h,
    )

-- A literal of a fixed width that one host writes comes back on another, with what stands behind it left over, whenever
-- the two put the same byte first on the wire: two hosts of the same order of which none or both swap, or two of different
-- orders of which one swaps. For an `Int64` this holds only where no host swaps.
pub literal_roundtrip :
    (from from_swaps to to_swaps : Bool) (k : Kind) (x : ℕ) (rest : List ℕ)
    → x < modulus (width k)
    → high_first from from_swaps ≡ high_first to to_swaps
    → (is_int64 k && (from_swaps || to_swaps)) ≡ false
    → deserialize_lit to to_swaps k (serialize_lit from from_swaps k x ++ rest) ≡ some (x, rest)
literal_roundtrip from from_swaps to to_swaps k x rest h same e =
    rw (serialize-memory from from_swaps k x (ground arith), same)
      (deserialize-memory to to_swaps k x rest (ground arith) h)
