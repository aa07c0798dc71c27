-- ===== src/RawData.antt =====
-- src/common/utils/RawData.hh and RawData.cc: a byte buffer of which a window is in use.
-- The block is a list of bytes, as long as what `new char[]` gave; a slice holds the part of its
-- parent's block that it may read. `tLen` is a signed 32-bit integer: lengths and offsets are natural
-- numbers here, and the two tests of a sum of them are 32-bit (`at_least`, `above`); a parameter that
-- may be negative (`-1` is a default) is an integer. The bytes of a fresh block are written before
-- they are read; they are zeros here.
pub mod View
pub mod Append
use libpinggy.Prelude.{
  ℕ, zero, suc, ◌+◌, ◌-◌, ◌^◌, Bool, true, false, not, ◌&&◌, ◌||◌, List, [], ◌∷◌, ◌++◌, ltb, leb,
  ◌==◌, if◌then◌else◌, length, take, drop, ℤ, pos, negsuc, Option, none, some,
}

pub record RawData : Type 0 where
  pub block : List ℕ  -- `Data`
  pub len : ℕ
  pub offset : ℕ
  pub capa : ℕ
  pub owner : Bool
  pub movedata : Bool

pub zeros : ℕ → List ℕ
zeros zero = []
zeros (suc n) = 0 ∷ zeros n

-- What the buffer holds.
abbrev pub view : RawData → List ℕ
view r = take r.len (drop r.offset r.block)

-- `RawData(capa)`.
pub new_raw_data : ℕ → RawData
new_raw_data capa = record {
  block = zeros capa;
  len = 0;
  offset = 0;
  capa = capa;
  owner = true;
  movedata = true;
}

-- `RawData(data, len)` and `RawData(data, len, true)`.
of_bytes : List ℕ → RawData
of_bytes xs = record {
  block = xs;
  len = length xs;
  offset = 0;
  capa = length xs;
  owner = true;
  movedata = true;
}

-- `NewRawDataNoCopyPtr(data, len)`.
pub no_copy : List ℕ → RawData
no_copy xs = record {
  block = xs;
  len = length xs;
  offset = 0;
  capa = length xs;
  owner = false;
  movedata = false;
}

pub wrap_raw_data : List ℕ → RawData
unfolding no_copy
wrap_raw_data xs = record (no_copy xs) { movedata = true }

-- The corrections that `Slice` makes to its arguments: the offset first, then the length.
pub slice_offset : ℕ → ℤ → ℕ
slice_offset len (negsuc n) = 0
slice_offset len (pos n) = if leb len n then len else n

pub slice_len : ℕ → ℤ → ℤ → ℕ
slice_len len (pos o) (pos n) = if leb len o then 0 else if ltb (len - o) n then len - o else n
slice_len len (pos o) (negsuc n) = if leb len o then 0 else len - o
slice_len len (negsuc o) (pos n) = if len == 0 then 0 else if ltb len n then len else n
slice_len len (negsuc o) (negsuc n) = len

pub slice : RawData → ℤ → ℤ → RawData
unfolding no_copy slice_offset slice_len
slice r o n = no_copy (take (slice_len r.len o n) (drop (r.offset + slice_offset r.len o) r.block))

pub reset : RawData → RawData × Bool
reset r = if r.movedata then (record r { len = 0; offset = 0 }, true) else (r, false)

-- `memcpy` of `xs` to position `i` of a block. What would lie past the block's end is lost.
pub write_at : ℕ → List ℕ → List ℕ → List ℕ
write_at i xs block = take (length block) (take i block ++ (xs ++ drop (i + length xs) block))

-- `memmove(Data, Data + Offset, Len)`, and `Offset = 0`.
pub move_down : RawData → RawData
move_down r =
    if r.offset == 0 then r else record r { block = write_at 0 (view r) r.block; offset = 0 }

-- A new block of exactly `Len + len` bytes; `Capa` is `const` and stays.
pub grow : RawData → ℕ → RawData
grow r n = record r { block = take r.len (drop r.offset r.block) ++ zeros n; offset = 0 }

pub put_end : RawData → List ℕ → RawData
put_end r xs = record r { block = write_at (r.len + r.offset) xs r.block; len = r.len + length xs }

-- `sum >= bound` and `sum > bound` of a `tLen`: a sum of 2^31 or more has wrapped around and is negative. (The C++
-- language leaves an overflow undefined; compilers for these targets wrap it around.)
abbrev pub at_least : ℕ → ℕ → Bool
at_least sum bound = ltb sum (2 ^ 31) && leb bound sum

abbrev pub above : ℕ → ℕ → Bool
above sum bound = ltb sum (2 ^ 31) && ltb bound sum

pub add_full : RawData → List ℕ → RawData × Bool
add_full r xs =
    let m = move_down r in
    if above (m.len + length xs) m.capa
    then (if m.owner then (put_end (grow m (length xs)) xs, true) else (m, false))
    else (put_end (record m { offset = 0 }) xs, true)

-- `AddData(buf, len)`, where `buf` lies outside the buffer's own block: its bytes are those from before the call.
pub add_data : RawData → List ℕ → RawData × Bool
add_data r xs =
    if not r.movedata
    then (r, false)
    else if at_least (r.offset + r.len + length xs) r.capa
    then add_full r xs
    else (put_end r xs, true)

-- `AddData(RawDataPtr other)` of a buffer with another block copies from `other->Data`, the start of that block.
pub add_raw_data : RawData → RawData → RawData × Bool
add_raw_data r other = add_data r (take other.len other.block)

-- `Concat` answers with the object itself, changed, or with a new one.
pub concat_new : RawData → RawData → Option RawData
concat_new r other =
    let (a, first) = add_raw_data (new_raw_data 2048) r in
    let (b, second) = add_raw_data a other in
    if first then (if second then some b else none) else none

pub concat_raw_data : RawData → RawData → Option RawData
concat_raw_data r other =
    let (a, added) = add_raw_data r other in if added then some a else concat_new a other

-- How many bytes `Consume` takes.
abbrev pub consumed : ℕ → ℤ → ℕ
consumed len (negsuc n) = len
consumed len (pos n) = if ltb len n then len else n

pub consume : RawData → ℤ → RawData
consume r n =
    let k = consumed r.len n in
    if k == 0 then r else record r { len = r.len - k; offset = r.offset + k }

-- `GetData(buf, capa)` with a buffer, and `Consume(buf, capa)`: the bytes that are copied out.
pub get_data : RawData → ℤ → List ℕ
get_data r (negsuc n) = []
get_data r (pos n) = take (if ltb n r.len then n else r.len) (drop r.offset r.block)

pub consume_into : RawData → ℤ → RawData × List ℕ
unfolding get_data consume
consume_into r n = (consume r (pos (length (get_data r n))), get_data r n)

pub re_align : RawData → RawData
re_align r =
    if not r.movedata
    then r
    else if not r.owner
    then r
    else if ltb 0 r.len
    then record r { block = write_at 0 (view r) r.block; offset = 0 }
    else record r { offset = 0 }

pub writable_capa : RawData → ℤ
writable_capa r =
    if leb (r.offset + r.len) r.capa
    then pos (r.capa - r.offset - r.len)
    else negsuc (r.offset + r.len - r.capa - 1)
