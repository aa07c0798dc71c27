-- ===== src/StringUtils/Replacing.antt =====
-- src/common/utils/StringUtils.cc: `StringReplace`. The text up to the position is in the result already; `none` is a loop
-- that did not end within the fuel.
use libpinggy.Prelude.{
  ℕ, zero, suc, ◌+◌, ◌≤◌, ◌<◌, ◌≡◌, refl, ap, true, [], ◌∷◌, ◌++◌, length, length-drop, take, drop,
  Option, Option-cases, Bool-cases, append_assoc, none, some, inl, inr, arith,
}
use libpinggy.Message.{Text}
use libpinggy.StringUtils.Splitting.{find, starts_with}

abbrev put_before : Text → Option Text → Option Text
put_before xs none = none
put_before xs (some ys) = some (xs ++ ys)

-- `orig` is the text from the position on.
unfoldable pub replace_from : ℕ → (orig search replacement : Text) → Option Text
replace_from zero orig search replacement = none
replace_from (suc fuel) orig search replacement = elim (find search orig) [
  | none ↦ some orig
  | some i ↦
      put_before (take i orig ++ replacement)
        (replace_from fuel (drop (i + length search) orig) search replacement)
]

unfoldable pub string_replace : (orig search replacement : Text) → Option Text
string_replace orig search replacement = replace_from (suc (length orig)) orig search replacement

starts_with-append :
    (deli xs : Text) → starts_with deli xs ≡ true → xs ≡ deli ++ drop (length deli) xs
unfolding starts_with
starts_with-append [] xs e = refl
starts_with-append (d ∷ ds) [] e = ground arith
starts_with-append (d ∷ ds) (x ∷ xs) e = ground (arith, starts_with-append ds xs (ground arith))

starts_with-longer : (deli xs : Text) → starts_with deli xs ≡ true → length deli ≤ length xs
unfolding starts_with
starts_with-longer [] xs e = omega arith
starts_with-longer (d ∷ ds) [] e = ground arith
starts_with-longer (d ∷ ds) (x ∷ xs) e = ground (arith, starts_with-longer ds xs (ground arith))

-- What is found stands at its place.
find-place :
    (deli xs : Text) (i : ℕ)
    → find deli xs ≡ some i
    → (i + length deli ≤ length xs) × (take i xs ++ (deli ++ drop (i + length deli) xs) ≡ xs)
unfolding find
find-place [] [] i e = ground arith
find-place (d ∷ ds) [] i e = ground arith
find-place deli (x ∷ xs) i e = elim (Bool-cases (starts_with deli (x ∷ xs))) [
  | inl here ↦
      let zero_i : i ≡ 0 = ground arith in
      ground (arith, starts_with-longer deli (x ∷ xs) here, starts_with-append deli (x ∷ xs) here)
  | inr other ↦ elim (Option-cases (find deli xs)) [
    | inl lost ↦ ground arith
    | inr (j, later) ↦
        let after : i ≡ suc j = ground arith in
        let (fits, place) = find-place deli xs j later in
        let total : i + length deli ≡ suc (j + length deli) = omega arith in
        let cut : drop (i + length deli) (x ∷ xs) ≡ drop (j + length deli) xs =
          ap (λ n. drop n (x ∷ xs)) total in
        ground (arith, cut, place)
  ]
]

-- The texts that are not empty.
replace_from-same :
    (fuel d : ℕ) (orig ds : Text)
    → length orig < fuel
    → replace_from fuel orig (d ∷ ds) (d ∷ ds) ≡ some orig
unfolding replace_from
replace_from-same zero d orig ds h = absurd (omega arith)
replace_from-same (suc fuel) d orig ds h = elim (Option-cases (find (d ∷ ds) orig)) [
  | inl lost ↦ ground arith
  | inr (i, found) ↦
      let (fits, place) = find-place (d ∷ ds) orig i found in
      let rest : Text = drop (i + suc (length ds)) orig in
      ground (
        arith,
        place,
        append_assoc (take i orig) (d ∷ ds) rest,
        replace_from-same fuel d rest ds (omega (arith, length-drop (i + suc (length ds)) orig)),
      )
]

-- A text whose occurrences of a text that is not empty are replaced by the same comes back.
pub string_replace-same :
    (d : ℕ) (orig ds : Text) → string_replace orig (d ∷ ds) (d ∷ ds) ≡ some orig
unfolding string_replace
string_replace-same d orig ds = replace_from-same (suc (length orig)) d orig ds (omega arith)

-- A search for the empty text does not end.
pub replace_from-endless :
    (fuel : ℕ) (orig replacement : Text) → replace_from fuel orig [] replacement ≡ none
unfolding replace_from find starts_with
replace_from-endless zero orig replacement = refl
replace_from-endless (suc fuel) [] replacement =
    ground (arith, replace_from-endless fuel [] replacement)
replace_from-endless (suc fuel) (x ∷ xs) replacement =
    ground (arith, replace_from-endless fuel (x ∷ xs) replacement)
