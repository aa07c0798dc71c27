-- ===== src/SdkConfig/Forwardings.antt =====
-- src/sdk/SdkConfig.cc: what the parsers make of written forwardings.
use libpinggy.Prelude.{
  ℕ, suc, ◌+◌, ◌%◌, ◌^◌, ◌≡◌, refl, Bool, true, false, not, ◌&&◌, [], ◌∷◌, ◌++◌, append_assoc,
  bytes, length, length-append, drop, take-append, drop-append, ltb, ◌==◌, none, some, pos, arith,
  Option-cases, inl, inr,
}
use libpinggy.Message.{Text}
use libpinggy.StringUtils.{is_space}
use libpinggy.StringUtils.Matching.{string_to_lower}
use libpinggy.StringUtils.Splitting.{
  find, starts_with, split_string, split_from, last_piece, free_of, find-some,
}
use libpinggy.SdkConfig.{
  parsed, split_once, host_port, parse_forward_to, stoi, stoi_signed, read_digits, is_digit,
}

-- Nothing is looked for behind the last piece.
split_from-last :
    (fuel : ℕ) (deli : Text) (x : ℕ) (xs : Text)
    → split_from (suc fuel) deli 0 false true (x ∷ xs) ≡ some ((x ∷ xs) ∷ [])
unfolding split_from last_piece
split_from-last fuel deli x xs = elim (Option-cases (find deli (x ∷ xs))) [
  | inl lost ↦ ground (arith, lost)
  | inr (i, found) ↦ ground (arith, found)
]

-- A text that is found with something behind it parts the text in two.
pub split_once-found :
    (before deli after : Text) (x : ℕ)
    → find deli (before ++ (deli ++ (x ∷ after))) ≡ some (length before)
    → split_once (before ++ (deli ++ (x ∷ after))) deli ≡ parsed (some before, x ∷ after)
unfolding split_once split_string split_from last_piece
split_once-found before deli after x e =
    let rest : Text = x ∷ after in
    let whole : Text = before ++ (deli ++ rest) in
    let (n, size) : (n : ℕ) × (length whole ≡ suc n) = (
      length before + length deli + length after,
      omega (arith, length-append before (deli ++ rest), length-append deli rest),
    ) in
    let cut : drop (length before + length deli) whole ≡ rest = ground (
      arith,
      append_assoc before deli rest,
      drop-append (length before + length deli) (before ++ deli) rest
          (omega (arith, length-append before deli)),
    ) in
    ground (
      arith,
      e,
      size,
      cut,
      take-append (length before) before (deli ++ rest) refl,
      split_from-last n deli x after,
    )

pub split_once-lost :
    (d : ℕ) (deli xs : Text)
    → find (d ∷ deli) xs ≡ none
    → split_once xs (d ∷ deli) ≡ parsed (none, xs)
unfolding split_once split_string split_from last_piece
split_once-lost d deli [] e = ground arith
split_once-lost d deli (x ∷ xs) e = ground (arith, e)

-- Behind a schema without a colon.
find-schema :
    (schema rest : Text)
    → free_of 58 schema ≡ true
    → find (bytes "://") (schema ++ (bytes "://" ++ rest)) ≡ some (length schema)
unfolding find starts_with
find-schema [] rest e = ground arith
find-schema (c ∷ cs) rest e = ground (arith, find-schema cs rest (ground arith))

abbrev pub all_digits : Text → Bool
all_digits [] = true
all_digits (c ∷ cs) = is_digit c && all_digits cs

-- A port as it is written: digits of a number below 2^31.
abbrev pub is_port : Text → Bool
is_port ds = ltb 0 (length ds) && (all_digits ds && ltb (read_digits 0 ds) (2 ^ 31))

pub stoi-digits : (ds : Text) → is_port ds ≡ true → stoi ds ≡ parsed (pos (read_digits 0 ds))
unfolding stoi stoi_signed is_space
stoi-digits [] e = ground arith
stoi-digits (c ∷ cs) e = ground arith

pub find-digits :
    (d : ℕ) (ds : Text) → all_digits (d ∷ ds) ≡ true → find (bytes "://") (d ∷ ds) ≡ none
unfolding find starts_with
find-digits d [] e = ground arith
find-digits d (x ∷ xs) e = ground (arith, find-digits x xs (ground arith))

-- No schema is found in a host and a port.
pub find-host_port :
    (host : Text) (d : ℕ) (ds : Text)
    → free_of 58 host ≡ true
    → all_digits (d ∷ ds) ≡ true
    → find (bytes "://") (host ++ (58 ∷ d ∷ ds)) ≡ none
unfolding find starts_with
find-host_port [] d ds e f = ground (arith, find-digits d ds f)
find-host_port (c ∷ cs) d ds e f = ground (arith, find-host_port cs d ds (ground arith) f)

split_once-schema :
    (schema host : Text) (d : ℕ) (ds : Text)
    → free_of 58 schema ≡ true
    → split_once (schema ++ (bytes "://" ++ (host ++ (58 ∷ d ∷ ds)))) (bytes "://")
      ≡ parsed (some schema, host ++ (58 ∷ d ∷ ds))
split_once-schema schema [] d ds e =
    split_once-found schema (bytes "://") (d ∷ ds) 58 (find-schema schema (58 ∷ d ∷ ds) e)
split_once-schema schema (c ∷ cs) d ds e =
    split_once-found schema (bytes "://") (cs ++ (58 ∷ d ∷ ds)) c
      (find-schema schema (c ∷ cs ++ (58 ∷ d ∷ ds)) e)

abbrev pub bare_host : Text → Bool
bare_host [] = true
bare_host (c ∷ cs) = not (c == 91) && free_of 58 (c ∷ cs)

pub host_port-written :
    (whole host : Text) (d : ℕ) (ds : Text)
    → bare_host host ≡ true
    → host_port whole (host ++ (58 ∷ d ∷ ds)) ≡ parsed (host, d ∷ ds)
unfolding host_port
host_port-written whole [] d ds e =
    ground (arith, split_once-found [] (58 ∷ []) ds d (find-some 58 [] (d ∷ ds) refl))
host_port-written whole (c ∷ cs) d ds e = ground (
  arith,
  split_once-found (c ∷ cs) (58 ∷ []) ds d (find-some 58 (c ∷ cs) (d ∷ ds) (ground arith)),
)

-- A schema without a colon, a host that has no colon and does not begin with a bracket, and a port are read back as they
-- were written, the schema in small letters and the port by its last 16 bits.
pub parse_forward_to-written :
    (schema host ds : Text)
    → free_of 58 schema ≡ true
    → bare_host host ≡ true
    → is_port ds ≡ true
    → parse_forward_to (schema ++ (bytes "://" ++ (host ++ (bytes ":" ++ ds))))
      ≡ parsed record {
        fwd_to_schema = string_to_lower schema;
        fwd_to_host = host;
        local_port_str = ds;
        local_port = read_digits 0 ds % 2 ^ 16;
      }
unfolding parse_forward_to
parse_forward_to-written schema host [] e f g = ground arith
parse_forward_to-written schema host (d ∷ ds) e f g = ground (
  arith,
  split_once-schema schema host d ds e,
  host_port-written (schema ++ (bytes "://" ++ (host ++ (58 ∷ d ∷ ds)))) host d ds f,
  stoi-digits (d ∷ ds) g,
)
