-- ===== src/RawData/Append.antt =====
-- src/common/utils/RawData.cc: `AddData`, `Concat` and `ReAlign`, by what a buffer holds.
use libpinggy.Prelude.{
  ℕ, zero, suc, ◌+◌, ◌^◌, ◌≤◌, ◌<◌, ◌≡◌, refl, List, [], take, drop, length, length-take,
  length-drop, leb, if◌then◌else◌, arith, ap, ◌++◌, Bool, true, false, Bool-cases, inl, inr,
  drop-take, take-append, drop-append_le, length-append, append_assoc, take-length, ◌&&◌, ◌||◌, ◌∙◌,
  sym, Option, some,
}
use libpinggy.RawData.{
  RawData, view, zeros, write_at, move_down, grow, put_end, at_least, above, add_full, add_data,
  add_raw_data, concat_new, concat_raw_data, re_align, new_raw_data,
}
use libpinggy.RawData.View.{IsValid, length-view}

module _ (i : ℕ) (xs block : List ℕ) (fits : i + length xs ≤ length block) where
  length-write : length (take i block ++ (xs ++ drop (i + length xs) block)) ≡ length block
  length-write = omega (
    arith,
    length-append (take i block) (xs ++ drop (i + length xs) block),
    length-append xs (drop (i + length xs) block),
    length-take i block,
    length-drop (i + length xs) block,
  )

  write_at-eq : write_at i xs block ≡ take i block ++ (xs ++ drop (i + length xs) block)
  unfolding write_at
  write_at-eq = take-length (length block) _ (omega (arith, length-write))

  length-write_at : length (write_at i xs block) ≡ length block
  length-write_at = rw write_at-eq length-write

-- What `put_end` and the moves need: room behind the window.
module _ (r : RawData) (xs : List ℕ) (room : r.len + r.offset + length xs ≤ length r.block) where
  front : drop r.offset (take (r.len + r.offset) r.block) ≡ view r
  front =
      drop-take r.offset (r.len + r.offset) r.block
      ∙ ap (λ n. take n (drop r.offset r.block)) (omega arith)

  put_end-view : view (put_end r xs) ≡ view r ++ xs
  unfolding put_end
  put_end-view =
      let at : ℕ = r.len + r.offset in
      let rest : List ℕ = drop (at + length xs) r.block in
      let size : length (view r ++ xs) ≡ r.len + length xs = omega (
        arith,
        length-append (view r) xs,
        length-take r.len (drop r.offset r.block),
        length-drop r.offset r.block,
      ) in
      rw
        (
          write_at-eq at xs r.block room,
          drop-append_le r.offset (take at r.block) (xs ++ rest)
              (omega (arith, length-take at r.block)),
          front,
          ← append_assoc (view r) xs rest,
        )
        (take-append (r.len + length xs) (view r ++ xs) rest size)

  put_end-IsValid : r.capa ≤ length r.block → IsValid (put_end r xs)
  unfolding put_end
  put_end-IsValid h = omega (arith, length-write_at (r.len + r.offset) xs r.block room)

length-zeros : (n : ℕ) → length (zeros n) ≡ n
unfolding zeros
length-zeros zero = refl
length-zeros (suc n) = ap suc (length-zeros n)

-- A move to the front of the block keeps what the buffer holds.
record Moved (r m : RawData) : Type 0 where
  at_front : m.offset ≡ 0
  same_len : m.len ≡ r.len
  same_view : view m ≡ view r
  same_size : length m.block ≡ length r.block
  same_capa : m.capa ≡ r.capa
  same_owner : m.owner ≡ r.owner
  same_movedata : m.movedata ≡ r.movedata

module _ (r : RawData) (v : IsValid r) where
  to_front-view : take r.len (write_at 0 (view r) r.block) ≡ view r
  to_front-view =
      rw (write_at-eq 0 (view r) r.block (omega (arith, length-view v)))
        (take-append r.len (view r) _ (length-view v))

  move_down-Moved : Moved r (move_down r)
  unfolding move_down
  move_down-Moved =
      ground
        (arith, to_front-view, length-write_at 0 (view r) r.block (omega (arith, length-view v)))

  grow_room :
      (n : ℕ)
      → (view (grow r n) ≡ view r)
        × ((grow r n).len + (grow r n).offset + n ≡ length (grow r n).block)
        × ((grow r n).capa ≡ r.capa)
        × (length (grow r n).block ≡ r.len + n)
  unfolding grow
  grow_room n =
      let size : length (grow r n).block ≡ r.len + n =
        omega (arith, length-append (view r) (zeros n), length-view v, length-zeros n) in
      (take-append r.len (view r) (zeros n) (length-view v), omega (arith, size), refl, size)

-- When `AddData` succeeds: the buffer may be moved, and has room or may be replaced.
abbrev may_add : RawData → ℕ → Bool
may_add r n = r.movedata && (r.owner || leb (r.len + n) r.capa)

-- What a call of `AddData` must do: append all of `xs` on success, and keep the content on failure;
-- the buffer stays valid either way.
pub record Appends (r : RawData) (xs : List ℕ) (result : RawData × Bool) : Type 0 where
  pub added : result.1 ≡ may_add r (length xs)
  pub content : view result.0 ≡ (if result.1 then view r ++ xs else view r)
  pub valid : IsValid result.0

-- The lengths add up to a `tLen`.
abbrev Fits : RawData → ℕ → Type 0
Fits r n = r.offset + r.len + n < 2 ^ 31

module _ (r : RawData) (xs : List ℕ) (v : IsValid r) (fits : Fits r (length xs)) where
  put-Appends :
      (m : RawData)
      → m.len + m.offset + length xs ≤ length m.block
      → m.capa ≤ length m.block
      → view m ≡ view r
      → may_add r (length xs) ≡ true
      → Appends r xs (put_end m xs, true)
  put-Appends m room capa same may = record {
    added = sym may;
    content = put_end-view m xs room ∙ ap (λ w. w ++ xs) same;
    valid = put_end-IsValid m xs room capa;
  }

  add_full-Appends :
      r.movedata ≡ true → r.capa ≤ r.offset + r.len + length xs → Appends r xs (add_full r xs)
  unfolding add_full
  add_full-Appends movable full =
      let m : RawData = move_down r in
      let d = move_down-Moved r v in
      let g = grow_room m (omega arith) (length xs) in
      elim (Bool-cases (above (m.len + length xs) m.capa)) [
        | inl small ↦ elim (Bool-cases m.owner) [
          | inl own ↦
              simp (small, own)
                (put-Appends (grow m (length xs)) (omega (arith, g.1)) (ground (arith, g.2, g.3))
                  (g.0 ∙ d.same_view) (ground arith))
          | inr other ↦
              simp (small, other)
                (record { added = ground arith; content = d.same_view; valid = omega arith })
        ]
        | inr large ↦ simp large (
            put-Appends (record m { offset = 0 }) (ground arith) (omega arith) (ground arith)
              (ground arith))
      ]

  -- `AddData` to a valid buffer of bytes from outside its block, when offset, length and bytes add
  -- up to less than 2^31, appends all of the bytes where it can take them, and otherwise keeps the
  -- content; the buffer stays valid. It cannot take them when the buffer may not be moved, or when
  -- it is not the owner of its block and they do not fit.
  pub add_data-Appends : Appends r xs (add_data r xs)
  unfolding add_data
  add_data-Appends = elim (Bool-cases r.movedata) [
    | inl movable ↦ elim (Bool-cases (at_least (r.offset + r.len + length xs) r.capa)) [
      | inl full ↦ simp (movable, full) (add_full-Appends movable (ground arith))
      | inr room ↦
          simp (movable, room) (put-Appends r (ground arith) (ground arith) refl (ground arith))
    ]
    | inr fixed ↦ simp fixed (record { added = ground arith; content = refl; valid = v })
  ]

new_raw_data-IsValid : (n : ℕ) → IsValid (new_raw_data n)
unfolding new_raw_data
new_raw_data-IsValid n = omega (arith, length-zeros n)

-- A call changes neither flag, and leaves an unconsumed buffer alone where it fails.
add_data_flags :
    (r : RawData) (xs : List ℕ)
    → ((add_data r xs).0.owner ≡ r.owner) × ((add_data r xs).0.movedata ≡ r.movedata)
unfolding add_data add_full move_down grow put_end
add_data_flags r xs = ground arith

add_data_kept :
    (r : RawData) (xs : List ℕ) → r.offset ≡ 0 → (add_data r xs).1 ≡ false → (add_data r xs).0 ≡ r
unfolding add_data add_full move_down
add_data_kept r xs h e = ground arith

new_raw_data_lem :
    (n : ℕ)
    → (view (new_raw_data n) ≡ [])
      × ((new_raw_data n).owner ≡ true)
      × ((new_raw_data n).movedata ≡ true)
unfolding new_raw_data
new_raw_data_lem n = (refl, refl, refl)

-- `Concat` joins the first `Len` bytes of the two blocks: the contents, at offset 0.
Joined : RawData → RawData → Option RawData → Type 0
Joined r other result =
    (c : RawData) × (result ≡ some c) × (view c ≡ view r ++ view other) × IsValid c

-- A buffer at the front of its block stays there.
add_data_front :
    (r : RawData) (xs : List ℕ)
    → r.offset ≡ 0
    → ((add_data r xs).0.offset ≡ 0) × ((add_data r xs).0.len ≤ r.len + length xs)
unfolding add_data add_full move_down grow put_end
add_data_front r xs h = ground arith

concat_new-Joined :
    (r other : RawData)
    → r.offset ≡ 0
    → other.offset ≡ 0
    → r.len + other.len < 2 ^ 31
    → Joined r other (concat_new r other)
unfolding concat_new Joined add_raw_data
concat_new-Joined r other hr ho few =
    let n : RawData = new_raw_data 2048 in
    let xs : List ℕ = take r.len r.block in
    let ys : List ℕ = take other.len other.block in
    let size : (length xs ≤ r.len) × (length ys ≤ other.len) = (
      omega (arith, length-take r.len r.block),
      omega (arith, length-take other.len other.block),
    ) in
    let start : (n.offset ≡ 0) × (n.len ≡ 0) = unfold new_raw_data in (refl, refl) in
    let at_front = add_data_front n xs start.0 in
    let a = add_data-Appends n xs (new_raw_data-IsValid 2048) (omega (arith, start, size)) in
    let b = add_data-Appends (add_data n xs).0 ys a.valid (omega (arith, start, size, at_front)) in
    let f = add_data_flags n xs in
    let e = new_raw_data_lem 2048 in
    let first : (add_data n xs).1 ≡ true = ground (arith, a.added, e) in
    let second : (add_data (add_data n xs).0 ys).1 ≡ true = ground (arith, b.added, f, e) in
    (
      (add_data (add_data n xs).0 ys).0,
      simp (first, second),
      b.content ∙ simp second (simp (a.content, first, e.0) (rw (hr, ho))),
      b.valid,
    )

-- `Concat` of a valid buffer and one with another block never fails, and joins the two contents in a valid buffer,
-- where neither buffer was consumed from and the lengths add up to less than 2^31.
pub concat_raw_data-append :
    (r other : RawData)
    → IsValid r
    → r.offset ≡ 0
    → other.offset ≡ 0
    → r.len + other.len < 2 ^ 31
    → (c : RawData) × (concat_raw_data r other ≡ some c)
      × (view c ≡ view r ++ view other)
      × IsValid c
unfolding concat_raw_data Joined add_raw_data
concat_raw_data-append r other v hr ho few =
    let ys : List ℕ = take other.len other.block in
    let a = add_data-Appends r ys v (omega (arith, length-take other.len other.block)) in
    elim (Bool-cases (add_data r ys).1) [
      | inl added ↦ ((add_data r ys).0, simp added, a.content ∙ simp added (rw ho), a.valid)
      | inr kept ↦ simp kept (rw (add_data_kept r ys hr kept) (concat_new-Joined r other hr ho few))
    ]

-- `ReAlign` keeps the content and the validity of a valid buffer, and clears the offset of a buffer that it may move.
pub re_align-view :
    (r : RawData)
    → IsValid r
    → (view (re_align r) ≡ view r)
      × IsValid (re_align r)
      × ((re_align r).offset ≡ (if r.movedata && r.owner then 0 else r.offset))
unfolding re_align
re_align-view r v =
    ground
      (arith, to_front-view r v, length-write_at 0 (view r) r.block (omega (arith, length-view v)))
