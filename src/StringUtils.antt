-- ===== src/StringUtils.antt =====
-- src/common/utils/StringUtils.cc: `ShlexSplitString` and `ShlexJoinStrings`.
-- The loops over positions are loops over what is left of the text. The inner loop of the split ends
-- in several ways, so the places in it are modes; a mode holds the token so far.
pub mod Shlex
pub mod Splitting
pub mod Stripping
pub mod Matching
pub mod Replacing
use libpinggy.Prelude.{
  ℕ, Bool, true, false, ◌&&◌, ◌||◌, leb, ◌==◌, List, [], ◌∷◌, ◌++◌, if◌then◌else◌,
}
use libpinggy.Message.{Text}

-- `std::isspace` in the C locale.
unfoldable pub is_space : ℕ → Bool
is_space c = (c == 32) || (leb 9 c && leb c 13)

abbrev single_quote : ℕ
single_quote = 39

abbrev pub double_quote : ℕ
double_quote = 34

abbrev backslash : ℕ
backslash = 92

unfoldable pub is_quote : ℕ → Bool
is_quote c = (c == single_quote) || (c == double_quote)

pub data Mode : Type 0 where
  between : Mode
  in_word word_escape : (token : Text) → Mode
  in_quotes quotes_escape : (quote_char : ℕ) (token : Text) → Mode

-- The tokens, or the exception.
pub data Tokens : Type 0 where
  tokens : List Text → Tokens
  trailing_backslash : Tokens
  unmatched_quote : (quote_char : ℕ) → Tokens

-- Only a token that is not empty is added.
unfoldable pub push_token : Text → List Text
push_token [] = []
push_token (c ∷ cs) = (c ∷ cs) ∷ []

-- One character: the mode after it, and the tokens that it completes.
unfoldable pub step : Mode → ℕ → Mode × List Text
unfolding is_quote is_space push_token
step between c =
    if is_space c
    then (between, [])
    else if is_quote c
    then (in_quotes c [], [])
    else if c == backslash
    then (word_escape [], [])
    else (in_word (c ∷ []), [])
step (in_word token) c =
    if is_space c
    then (between, push_token token)
    else if c == backslash
    then (word_escape token, [])
    else if is_quote c
    then (in_quotes c [], push_token token)
    else (in_word (token ++ (c ∷ [])), [])
step (in_quotes q token) c =
    if c == backslash
    then (quotes_escape q token, [])
    else if c == q
    then (between, push_token token)
    else (in_quotes q (token ++ (c ∷ [])), [])
step (word_escape token) c = (in_word (token ++ (c ∷ [])), [])
step (quotes_escape q token) c = (in_quotes q (token ++ (c ∷ [])), [])

unfoldable pub finish : Mode → Tokens
unfolding push_token
finish between = tokens []
finish (in_word token) = tokens (push_token token)
finish (word_escape token) = trailing_backslash
finish (in_quotes q token) = unmatched_quote q
finish (quotes_escape q token) = trailing_backslash

unfoldable pub prepend : List Text → Tokens → Tokens
prepend ts (tokens us) = tokens (ts ++ us)
prepend ts trailing_backslash = trailing_backslash
prepend ts (unmatched_quote q) = unmatched_quote q

unfoldable pub scan : Mode → Text → Tokens
unfolding step finish prepend
scan m [] = finish m
scan m (c ∷ cs) = let (n, ts) = step m c in prepend ts (scan n cs)

unfoldable pub shlex_split_string : Text → Tokens
unfolding scan
shlex_split_string input = scan between input

unfoldable pub needs_quotes : Text → Bool
unfolding is_space is_quote
needs_quotes [] = false
needs_quotes (c ∷ cs) = (is_space c || (is_quote c || (c == backslash))) || needs_quotes cs

-- Behind a backslash: itself, the double quote, `$` and the backquote.
unfoldable pub is_escaped : ℕ → Bool
is_escaped c = ((c == backslash) || (c == double_quote)) || ((c == 36) || (c == 96))

unfoldable pub escape : Text → Text
unfolding is_escaped
escape [] = []
escape (c ∷ cs) = let rest = escape cs in if is_escaped c then backslash ∷ c ∷ rest else c ∷ rest

unfoldable pub quote : Text → Text
unfolding needs_quotes escape
quote [] = double_quote ∷ double_quote ∷ []
quote (c ∷ cs) =
    if needs_quotes (c ∷ cs)
    then double_quote ∷ (escape (c ∷ cs) ++ (double_quote ∷ []))
    else c ∷ cs

unfoldable pub shlex_join_strings : List Text → Text
unfolding quote
shlex_join_strings [] = []
shlex_join_strings (t ∷ []) = quote t
shlex_join_strings (t ∷ u ∷ ts) = quote t ++ (32 ∷ shlex_join_strings (u ∷ ts))
