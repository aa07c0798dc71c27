-- ===== src/StringUtils/Splitting.antt =====
-- src/common/utils/StringUtils.cc: `SplitString`, `JoinString` and the two that strip. The loops over positions are loops over
-- what is left of the text; `none` is a loop that did not end within the fuel.
use libpinggy.Prelude.{
  ℕ, zero, suc, ◌+◌, ◌-◌, ◌^◌, ◌≤◌, ◌<◌, ◌≡◌, refl, Bool, true, false, not, ◌&&◌, ◌||◌,
  if◌then◌else◌, List, [], ◌∷◌, ◌++◌, append_assoc, length, length-append, take, drop, take-append,
  drop-append, ltb, ◌==◌, Option, none, some, ℤ, pos, negsuc, arith,
}
use libpinggy.Message.{Text}

unfoldable pub starts_with : Text → Text → Bool
starts_with [] xs = true
starts_with (d ∷ ds) [] = false
starts_with (d ∷ ds) (x ∷ xs) = d == x && starts_with ds xs

-- `find`: where the delimiter begins first.
unfoldable pub find : Text → Text → Option ℕ
find deli [] = if length deli == 0 then some 0 else none
find deli (x ∷ xs) =
    let later : Option ℕ = find deli xs in
    if starts_with deli (x ∷ xs) then some 0 else elim later [ none ↦ none | some i ↦ some (suc i) ]

-- The loop at the end, for texts without empty pieces: it passes over the delimiters in front.
unfoldable pub skip_delimiters : ℕ → Text → Text → Option Text
skip_delimiters zero deli xs = none
skip_delimiters (suc fuel) deli xs =
    let later : Option Text = skip_delimiters fuel deli (drop (length deli) xs) in
    elim (find deli xs) [ none ↦ some xs | some i ↦ if ltb 0 i then some xs else later ]

-- What follows the loop: `xs` is the text from `start` on.
unfoldable pub last_piece : ℕ → Text → Bool → Text → Option (List Text)
last_piece fuel deli empty xs =
    if length xs == 0
    then some []
    else if empty
    then some (xs ∷ [])
    else elim (skip_delimiters fuel deli xs) [ none ↦ none | some ys ↦ some (ys ∷ []) ]

abbrev prepend : Text → Option (List Text) → Option (List Text)
prepend p none = none
prepend p (some ps) = some (p ∷ ps)

unfoldable pub split_from : ℕ → Text → (limit : ℕ) → (keep empty : Bool) → Text → Option (List Text)
split_from zero deli limit keep empty xs = none
split_from (suc fuel) deli limit keep empty xs = elim (find deli xs) [
  | none ↦ last_piece (suc fuel) deli empty xs
  | some i ↦
      let len = if keep then i + length deli else i in
      let rest = drop (i + length deli) xs in
      let pushed = prepend (take len xs) (split_from fuel deli (limit - 1) keep empty rest) in
      let passed = split_from fuel deli limit keep empty rest in
      if limit == 0
      then last_piece (suc fuel) deli empty xs
      else if empty || ltb 0 len
      then pushed
      else passed
]

-- The `int16` limit as a `size_type`.
abbrev limit_of : ℤ → ℕ
limit_of (pos n) = n
limit_of (negsuc n) = 2 ^ 64 - 1 - n

unfoldable pub split_string : Text → Text → ℤ → (keep empty : Bool) → Option (List Text)
split_string str deli limit keep empty =
    split_from (suc (length str)) deli (limit_of limit) keep empty str

unfoldable pub join_string : List Text → Text → Text
join_string [] deli = []
join_string (p ∷ []) deli = p
join_string (p ∷ q ∷ ps) deli = p ++ (deli ++ join_string (q ∷ ps) deli)

-- A piece that has a byte and not the delimiter's.
abbrev pub free_of : ℕ → Text → Bool
free_of c [] = true
free_of c (x ∷ xs) = not (c == x) && free_of c xs

abbrev pub is_piece : ℕ → Text → Bool
is_piece c xs = ltb 0 (length xs) && free_of c xs

abbrev pub all_pieces : ℕ → List Text → Bool
all_pieces c [] = true
all_pieces c (p ∷ ps) = is_piece c p && all_pieces c ps

pub find-none : (c : ℕ) (xs : Text) → free_of c xs ≡ true → find (c ∷ []) xs ≡ none
unfolding find starts_with
find-none c [] e = refl
find-none c (x ∷ xs) e = ground (arith, find-none c xs (ground arith))

pub find-some :
    (c : ℕ) (xs ys : Text) → free_of c xs ≡ true → find (c ∷ []) (xs ++ (c ∷ ys)) ≡ some (length xs)
unfolding find starts_with
find-some c [] ys e = ground arith
find-some c (x ∷ xs) ys e = ground (arith, find-some c xs ys (ground arith))

split_from-join :
    (c fuel limit : ℕ) (p : Text) (ps : List Text)
    → all_pieces c (p ∷ ps) ≡ true
    → length ps ≤ limit
    → length ps < fuel
    → split_from fuel (c ∷ []) limit false true (join_string (p ∷ ps) (c ∷ [])) ≡ some (p ∷ ps)
unfolding split_from join_string last_piece
split_from-join c zero limit p ps e room enough = absurd (omega arith)
split_from-join c (suc fuel) limit p [] e room enough = ground (arith, find-none c p (ground arith))
split_from-join c (suc fuel) limit p (q ∷ ps) e room enough =
    let rest : Text = join_string (q ∷ ps) (c ∷ []) in
    let whole : Text = p ++ (c ∷ rest) in
    let cut : drop (length p + 1) whole ≡ rest = ground (
      arith,
      append_assoc p (c ∷ []) rest,
      drop-append (length p + 1) (p ++ (c ∷ [])) rest (omega (arith, length-append p (c ∷ []))),
    ) in
    ground (
      arith,
      find-some c p rest (ground arith),
      take-append (length p) p (c ∷ rest) refl,
      cut,
      split_from-join c fuel (limit - 1) q ps (ground arith) (ground arith) (omega arith),
    )

pub join-longer :
    (c : ℕ) (ps : List Text) → all_pieces c ps ≡ true → length ps ≤ length (join_string ps (c ∷ []))
unfolding join_string
join-longer c [] e = omega arith
join-longer c (p ∷ []) e = ground arith
join-longer c (p ∷ q ∷ ps) e = ground (
  arith,
  join-longer c (q ∷ ps) (ground arith),
  length-append p (c ∷ join_string (q ∷ ps) (c ∷ [])),
)

-- Pieces that are not empty and do not have the delimiter, a single byte, come back when they are joined by it
-- and split without a limit, as long as there are fewer than 2^64.
pub split_string-join :
    (c : ℕ) (ps : List Text)
    → all_pieces c ps ≡ true
    → length ps < 2 ^ 64
    → split_string (join_string ps (c ∷ [])) (c ∷ []) (negsuc 0) false true ≡ some ps
unfolding split_string
split_string-join c [] e few = unfold join_string split_from find last_piece in refl
split_string-join c (p ∷ ps) e few =
    let size = join-longer c (p ∷ ps) e in
    split_from-join c (suc (length (join_string (p ∷ ps) (c ∷ [])))) (2 ^ 64 - 1) p ps e
      (omega arith) (omega arith)
