-- ===== src/Tests/Texts.antt =====
-- Runs of the helpers on texts.
use libpinggy.Prelude.{◌≡◌, refl, [], ◌∷◌, bytes}
use libpinggy.StringUtils.{
  tokens, shlex_split_string, shlex_join_strings, scan, step, finish, is_space, is_quote,
  push_token, prepend,
}
use libpinggy.StringUtils.Shlex.{shlex_split-join}

split_two : shlex_split_string (bytes "a \"b c\"") ≡ tokens (bytes "a" ∷ bytes "b c" ∷ [])
unfolding shlex_split_string scan step finish is_space is_quote push_token prepend
split_two = refl

shlex_split-join_example :
    shlex_split_string (shlex_join_strings (bytes "ab" ∷ [] ∷ bytes "c d\"" ∷ []))
    ≡ tokens (bytes "ab" ∷ bytes "c d\"" ∷ [])
shlex_split-join_example = shlex_split-join (bytes "ab" ∷ [] ∷ bytes "c d\"" ∷ [])
