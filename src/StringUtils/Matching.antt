-- ===== src/StringUtils/Matching.antt =====
-- src/common/utils/StringUtils.cc: letters in one case, prefixes, suffixes and the comparisons.
use libpinggy.Prelude.{
  ℕ, ◌+◌, ◌-◌, ◌≡◌, refl, Bool, true, false, ◌&&◌, ◌||◌, if◌then◌else◌, [], ◌∷◌, ◌++◌, length,
  length-append, drop, ltb, leb, ◌==◌, arith,
}
use libpinggy.Message.{Text}

-- `::tolower` in the C locale.
unfoldable pub to_lower : ℕ → ℕ
to_lower c = if leb 65 c && leb c 90 then c + 32 else c

unfoldable pub to_upper : ℕ → ℕ
to_upper c = if leb 97 c && leb c 122 then c - 32 else c

unfoldable pub string_to_lower : Text → Text
string_to_lower [] = []
string_to_lower (c ∷ cs) = to_lower c ∷ string_to_lower cs

unfoldable pub string_to_upper : Text → Text
string_to_upper [] = []
string_to_upper (c ∷ cs) = to_upper c ∷ string_to_upper cs

abbrev pub text_equal : Text → Text → Bool
text_equal [] [] = true
text_equal [] (y ∷ ys) = false
text_equal (x ∷ xs) [] = false
text_equal (x ∷ xs) (y ∷ ys) = x == y && text_equal xs ys

-- `compare` and `strncasecmp` on the bytes of the second text, which the first one has at least as many of. The
-- latter ends at a zero byte of both.
abbrev equal_up_to : Text → Text → Bool
equal_up_to xs [] = true
equal_up_to [] (y ∷ ys) = false
equal_up_to (x ∷ xs) (y ∷ ys) = x == y && equal_up_to xs ys

unfoldable pub caseless_up_to : Text → Text → Bool
caseless_up_to xs [] = true
caseless_up_to [] (y ∷ ys) = false
caseless_up_to (x ∷ xs) (y ∷ ys) = to_lower x == to_lower y && (x == 0 || caseless_up_to xs ys)

unfoldable pub starts_with : Text → Text → Bool → Bool
starts_with full_string starting case_sensitive =
    if ltb (length full_string) (length starting)
    then false
    else if case_sensitive
    then equal_up_to full_string starting
    else caseless_up_to full_string starting

unfoldable pub ends_with : Text → Text → Bool → Bool
ends_with full_string ending case_sensitive =
    let end = drop (length full_string - length ending) full_string in
    if ltb (length full_string) (length ending)
    then false
    else if case_sensitive
    then equal_up_to end ending
    else caseless_up_to end ending

unfoldable pub case_insensitive_string_compare : Text → Text → Bool
case_insensitive_string_compare a b = text_equal (string_to_lower a) (string_to_lower b)

abbrev text_less : Text → Text → Bool
text_less xs [] = false
text_less [] (y ∷ ys) = true
text_less (x ∷ xs) (y ∷ ys) = ltb x y || (x == y && text_less xs ys)

unfoldable pub case_insensitive_less : Text → Text → Bool
case_insensitive_less a b = text_less (string_to_lower a) (string_to_lower b)

equal_up_to-append : (xs ys : Text) → equal_up_to (xs ++ ys) xs ≡ true
equal_up_to-append [] ys = refl
equal_up_to-append (x ∷ xs) ys = ground (arith, equal_up_to-append xs ys)

caseless_up_to-append : (xs ys : Text) → caseless_up_to (xs ++ ys) xs ≡ true
unfolding caseless_up_to
caseless_up_to-append [] ys = refl
caseless_up_to-append (x ∷ xs) ys = ground (arith, caseless_up_to-append xs ys)

-- A text starts with what it was put before, in either mode.
pub starts_with-append : (xs ys : Text) (mode : Bool) → starts_with (xs ++ ys) xs mode ≡ true
unfolding starts_with
starts_with-append xs ys mode =
    ground (arith, length-append xs ys, equal_up_to-append xs ys, caseless_up_to-append xs ys)

text_less-either :
    (xs ys : Text) → text_less xs ys ≡ false → text_less ys xs ≡ false → text_equal xs ys ≡ true
text_less-either [] [] e f = refl
text_less-either [] (y ∷ ys) e f = ground arith
text_less-either (x ∷ xs) [] e f = ground arith
text_less-either (x ∷ xs) (y ∷ ys) e f = ground (arith, text_less-either xs ys)

-- Two keys of a map that the comparator orders neither way are equal without regard to case.
pub case_insensitive_less-either :
    (a b : Text)
    → case_insensitive_less a b ≡ false
    → case_insensitive_less b a ≡ false
    → case_insensitive_string_compare a b ≡ true
unfolding case_insensitive_less case_insensitive_string_compare
case_insensitive_less-either a b e f = text_less-either (string_to_lower a) (string_to_lower b) e f
