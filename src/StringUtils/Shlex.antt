-- ===== src/StringUtils/Shlex.antt =====
-- src/common/utils/StringUtils.cc: what the split makes of a joined text.
use libpinggy.Prelude.{
  ◌≡◌, refl, ap, ◌∙◌, sym, Bool, true, false, List, [], ◌∷◌, ◌++◌, append_assoc, append-nil, arith,
  Bool-cases, inl, inr,
}
use libpinggy.Message.{Text}
use libpinggy.StringUtils.{
  is_space, is_quote, double_quote, between, in_word, in_quotes, Tokens, tokens, trailing_backslash,
  unmatched_quote, push_token, step, finish, prepend, scan, shlex_split_string, needs_quotes,
  is_escaped, escape, quote, shlex_join_strings,
}

prepend-nil : (r : Tokens) → prepend [] r ≡ r
unfolding prepend
prepend-nil (tokens ts) = refl
prepend-nil trailing_backslash = refl
prepend-nil (unmatched_quote q) = refl

-- The rest of a plain word is added to it.
scan-word :
    (w token rest : Text)
    → needs_quotes w ≡ false
    → scan (in_word token) (w ++ rest) ≡ scan (in_word (token ++ w)) rest
unfolding scan step needs_quotes
scan-word [] token rest h = ap (λ t. scan (in_word t) rest) (sym (append-nil token))
scan-word (c ∷ w) token rest h = ground (
  arith,
  scan-word w (token ++ (c ∷ [])) rest,
  append_assoc token (c ∷ []) w,
  prepend-nil (scan (in_word (token ++ (c ∷ []))) (w ++ rest)),
)

-- What stands between double quotes is read back without its backslashes.
scan-escape :
    (w token rest : Text)
    → scan (in_quotes double_quote token) (escape w ++ rest)
      ≡ scan (in_quotes double_quote (token ++ w)) rest
unfolding scan step escape is_escaped
scan-escape [] token rest = ap (λ t. scan (in_quotes double_quote t) rest) (sym (append-nil token))
scan-escape (c ∷ w) token rest =
    let token' = token ++ (c ∷ []) in
    let more = scan (in_quotes double_quote token') (escape w ++ rest) in
    ground (
      arith,
      scan-escape w token' rest,
      append_assoc token (c ∷ []) w,
      prepend-nil more,
      prepend-nil (prepend [] more),
    )

-- What the split has done when it stands behind a quoted token.
behind : Text → Text → Tokens
behind t [] = tokens (push_token t)
behind t (c ∷ rest) = prepend (push_token t) (scan between rest)

-- The text behind a token: none, or a space and more.
space_and : Bool → Text → Text
space_and true rest = 32 ∷ rest
space_and false rest = []

scan-behind_word :
    (t : Text) (more : Bool) (rest : Text)
    → scan (in_word t) (space_and more rest) ≡ behind t (space_and more rest)
unfolding scan step finish behind space_and is_space
scan-behind_word t true rest = refl
scan-behind_word t false rest = refl

scan-behind_quotes :
    (t : Text) (more : Bool) (rest : Text)
    → scan (in_quotes double_quote t) (double_quote ∷ space_and more rest)
      ≡ behind t (space_and more rest)
unfolding scan step finish behind space_and is_space prepend
scan-behind_quotes t true rest = ap (prepend (push_token t)) (prepend-nil (scan between rest))
scan-behind_quotes t false rest = ap tokens (append-nil (push_token t))

scan-quote :
    (t : Text) (more : Bool) (rest : Text)
    → scan between (quote t ++ space_and more rest) ≡ behind t (space_and more rest)
unfolding quote
scan-quote [] more rest =
    unfold scan step is_space is_quote in
    prepend-nil (scan (in_quotes double_quote []) (double_quote ∷ space_and more rest))
    ∙ scan-behind_quotes [] more rest
scan-quote (c ∷ cs) more rest = elim (Bool-cases (needs_quotes (c ∷ cs))) [
  | inl h ↦
      let behind_it = double_quote ∷ space_and more rest in
      let start : scan between
            (double_quote ∷ ((escape (c ∷ cs) ++ (double_quote ∷ [])) ++ space_and more rest))
          ≡ scan (in_quotes double_quote [])
              ((escape (c ∷ cs) ++ (double_quote ∷ [])) ++ space_and more rest) =
        unfold scan step is_space is_quote in prepend-nil _ in
      rw h (
        start
        ∙ ap (scan (in_quotes double_quote []))
            (append_assoc (escape (c ∷ cs)) (double_quote ∷ []) (space_and more rest))
        ∙ scan-escape (c ∷ cs) [] behind_it
        ∙ scan-behind_quotes (c ∷ cs) more rest)
  | inr h ↦
      let plain : scan between (c ∷ (cs ++ space_and more rest))
          ≡ scan (in_word (c ∷ [])) (cs ++ space_and more rest) =
        unfold scan step needs_quotes in
        ground (arith, prepend-nil (scan (in_word (c ∷ [])) (cs ++ space_and more rest))) in
      let tail : needs_quotes cs ≡ false = unfold needs_quotes in ground arith in
      rw h (
        plain
        ∙ scan-word cs (c ∷ []) (space_and more rest) tail
        ∙ scan-behind_word (c ∷ cs) more rest)
]

-- The tokens that are not empty.
abbrev non_empty : List Text → List Text
non_empty [] = []
non_empty ([] ∷ ts) = non_empty ts
non_empty ((c ∷ cs) ∷ ts) = (c ∷ cs) ∷ non_empty ts

push_token-non_empty :
    (t : Text) (ts : List Text) → push_token t ++ non_empty ts ≡ non_empty (t ∷ ts)
unfolding push_token
push_token-non_empty [] ts = refl
push_token-non_empty (c ∷ cs) ts = refl

-- Splitting what was joined never fails, and gives back the tokens, whatever characters they hold,
-- without those that are empty.
pub shlex_split-join :
    (ts : List Text) → shlex_split_string (shlex_join_strings ts) ≡ tokens (non_empty ts)
unfolding shlex_split_string shlex_join_strings behind space_and
shlex_split-join [] = unfold scan finish in refl
shlex_split-join (t ∷ []) =
    ap (scan between) (sym (append-nil (quote t)))
    ∙ scan-quote t false []
    ∙ ap tokens (sym (append-nil (push_token t)) ∙ push_token-non_empty t [])
shlex_split-join (t ∷ u ∷ ts) =
    scan-quote t true (shlex_join_strings (u ∷ ts))
    ∙ ap (prepend (push_token t)) (shlex_split-join (u ∷ ts))
    ∙ unfold prepend in ap tokens (push_token-non_empty t (u ∷ ts))
