-- ===== src/StringUtils/Stripping.antt =====
-- src/common/utils/StringUtils.cc: `StripString` and `StripStringChar`, which differ in the test of the bytes they strip.
use libpinggy.Prelude.{
  ℕ, zero, suc, ◌+◌, ◌-◌, ◌≤◌, ◌<◌, ◌≡◌, refl, ap, ◌∙◌, Bool, true, false, not, ◌&&◌, if◌then◌else◌,
  [], ◌∷◌, ◌++◌, length, length-append, take, drop, take-append, drop-append, drop-length,
  append_assoc, get_elem?, ltb, ◌==◌, Option, none, some, arith,
}
use libpinggy.Message.{Text}
use libpinggy.StringUtils.{is_space}

abbrev satisfies : (ℕ → Bool) → Option ℕ → Bool
satisfies test none = false
satisfies test (some x) = test x

-- The first loop: `start`.
unfoldable pub strip_start : (ℕ → Bool) → Text → ℕ
strip_start test [] = 0
strip_start test (x ∷ xs) = let later = strip_start test xs in if test x then suc later else 0

-- The second loop: `end`, which counts down.
unfoldable pub strip_end : (ℕ → Bool) → Text → (start end : ℕ) → ℕ
strip_end test str start zero = zero
strip_end test str start (suc e) =
    let earlier = strip_end test str start e in
    if ltb start (suc e) && satisfies test (get_elem? str e) then earlier else suc e

unfoldable pub strip : (ℕ → Bool) → Text → Text
strip test str =
    let start = strip_start test str in
    let end = strip_end test str start (length str) in take (end - start) (drop start str)

unfoldable pub strip_string : Text → Text
strip_string str = strip is_space str

unfoldable pub strip_string_char : Text → ℕ → Text
strip_string_char str c = strip (λ x. x == c) str

abbrev pub all_of : (ℕ → Bool) → Text → Bool
all_of test [] = true
all_of test (x ∷ xs) = test x && all_of test xs

-- The text is empty, or its first and its last byte fail the test.
abbrev pub last_fails : (ℕ → Bool) → ℕ → Text → Bool
last_fails test x [] = not (test x)
last_fails test x (y ∷ ys) = last_fails test y ys

abbrev pub is_stripped : (ℕ → Bool) → Text → Bool
is_stripped test [] = true
is_stripped test (x ∷ xs) = not (test x) && last_fails test x xs

strip_start-all :
    (test : ℕ → Bool) (xs : Text) → all_of test xs ≡ true → strip_start test xs ≡ length xs
unfolding strip_start
strip_start-all test [] e = refl
strip_start-all test (x ∷ xs) e = ground (arith, strip_start-all test xs (ground arith))

strip_start-stops :
    (test : ℕ → Bool) (front : Text) (x : ℕ) (xs : Text)
    → all_of test front ≡ true
    → test x ≡ false
    → strip_start test (front ++ (x ∷ xs)) ≡ length front
unfolding strip_start
strip_start-stops test [] x xs e f = ground arith
strip_start-stops test (y ∷ ys) x xs e f =
    ground (arith, strip_start-stops test ys x xs (ground arith) f)

strip_end-stays :
    (test : ℕ → Bool) (str : Text) (start e : ℕ)
    → satisfies test (get_elem? str e) ≡ false
    → strip_end test str start (suc e) ≡ suc e
unfolding strip_end
strip_end-stays test str start e f = ground arith

strip_end-steps :
    (test : ℕ → Bool) (str : Text) (start e : ℕ)
    → start ≤ e
    → satisfies test (get_elem? str e) ≡ true
    → strip_end test str start (suc e) ≡ strip_end test str start e
unfolding strip_end
strip_end-steps test str start e le f = ground arith

strip_end-start :
    (test : ℕ → Bool) (str : Text) (start : ℕ) → strip_end test str start start ≡ start
unfolding strip_end
strip_end-start test str zero = refl
strip_end-start test str (suc n) = ground arith

-- `end` comes down over bytes that satisfy the test.
strip_end-passes :
    (test : ℕ → Bool) (str : Text) (start stop k : ℕ)
    → ((i : ℕ) → i < k → satisfies test (get_elem? str (stop + i)) ≡ true)
    → start ≤ stop
    → strip_end test str start (stop + k) ≡ strip_end test str start stop
unfolding strip_end
strip_end-passes test str start stop zero good le = ap (strip_end test str start) (omega arith)
strip_end-passes test str start stop (suc k) good le =
    let last : stop + suc k ≡ suc (stop + k) = omega arith in
    ap (strip_end test str start) last
    ∙ strip_end-steps test str start (stop + k) (omega arith) (good k (omega arith))
    ∙ strip_end-passes test str start stop k (λ i h. good i (omega arith)) le

all_of-elements :
    (test : ℕ → Bool) (xs : Text) (i : ℕ)
    → all_of test xs ≡ true
    → i < length xs
    → satisfies test (get_elem? xs i) ≡ true
all_of-elements test [] i e h = absurd (omega arith)
all_of-elements test (x ∷ xs) zero e h = ground arith
all_of-elements test (x ∷ xs) (suc i) e h = all_of-elements test xs i (ground arith) (omega arith)

get_elem?-append : (xs ys : Text) (i : ℕ) → get_elem? (xs ++ ys) (length xs + i) ≡ get_elem? ys i
get_elem?-append [] ys i = ground arith
get_elem?-append (x ∷ xs) ys i = ground (arith, get_elem?-append xs ys i)

-- The last byte of a text that is not empty.
last_fails-element :
    (test : ℕ → Bool) (x : ℕ) (xs ys : Text)
    → last_fails test x xs ≡ true
    → satisfies test (get_elem? (x ∷ xs ++ ys) (length xs)) ≡ false
last_fails-element test x [] ys e = ground arith
last_fails-element test x (y ∷ xs) ys e = last_fails-element test y xs ys e

all_of-append :
    (test : ℕ → Bool) (xs ys : Text)
    → all_of test xs ≡ true
    → all_of test ys ≡ true
    → all_of test (xs ++ ys) ≡ true
all_of-append test [] ys e f = f
all_of-append test (x ∷ xs) ys e f = ground (arith, all_of-append test xs ys (ground arith) f)

-- `end` comes to where the stripped text ends.
strip_end-middle :
    (test : ℕ → Bool) (front : Text) (x : ℕ) (xs back : Text)
    → is_stripped test (x ∷ xs) ≡ true
    → all_of test back ≡ true
    → strip_end test (front ++ (x ∷ xs ++ back)) (length front) (length (front ++ (x ∷ xs ++ back)))
      ≡ suc (length front + length xs)
strip_end-middle test front x xs back f g =
    let before : Text = front ++ (x ∷ xs) in
    let str : Text = front ++ (x ∷ xs ++ back) in
    let stop : ℕ = suc (length front + length xs) in
    let size : length before ≡ stop = omega (arith, length-append front (x ∷ xs)) in
    let total : length str ≡ stop + length back =
      omega (arith, length-append front (x ∷ xs ++ back), length-append xs back) in
    let good : (i : ℕ) → i < length back → satisfies test (get_elem? str (stop + i)) ≡ true = λ i h.
      ground (
        arith,
        append_assoc front (x ∷ xs) back,
        size,
        get_elem?-append before back i,
        all_of-elements test back i g h,
      ) in
    let ends : satisfies test (get_elem? str (length front + length xs)) ≡ false = ground (
      arith,
      get_elem?-append front (x ∷ xs ++ back) (length xs),
      last_fails-element test x xs back (ground arith),
    ) in
    ground (
      arith,
      total,
      strip_end-passes test str (length front) stop (length back) good (omega arith),
      strip_end-stays test str (length front) (length front + length xs) ends,
    )

-- What stands before and behind a stripped text is taken off it, when all its bytes satisfy the test.
pub strip-middle :
    (test : ℕ → Bool) (front middle back : Text)
    → all_of test front ≡ true
    → is_stripped test middle ≡ true
    → all_of test back ≡ true
    → strip test (front ++ (middle ++ back)) ≡ middle
unfolding strip
strip-middle test front [] back e f g =
    let str : Text = front ++ back in
    let start = strip_start-all test str (all_of-append test front back e g) in
    let end = strip_end-start test str (length str) in
    ground (arith, start, end, drop-length (length str) str (omega arith))
strip-middle test front (x ∷ xs) back e f g =
    let str : Text = front ++ (x ∷ xs ++ back) in
    let start = strip_start-stops test front x (xs ++ back) e (ground arith) in
    let size : suc (length front + length xs) - length front ≡ suc (length xs) = omega arith in
    ground (
      arith,
      start,
      size,
      strip_end-middle test front x xs back f g,
      drop-append (length front) front (x ∷ xs ++ back) refl,
      take-append (suc (length xs)) (x ∷ xs) back refl,
    )
