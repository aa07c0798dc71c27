-- ===== src/SdkConfig/User.antt =====
-- src/sdk/SdkConfig.cc: `getUser` on a token that is made of parts.
use libpinggy.Prelude.{
  ℕ, suc, ◌-◌, ◌<◌, ◌^◌, ◌≡◌, refl, Bool, true, false, if◌then◌else◌, List, [], ◌∷◌, ◌++◌,
  append_assoc, append-nil, bytes, length, drop, some, arith,
}
use libpinggy.Message.{Text}
use libpinggy.StringUtils.Matching.{string_to_lower}
use libpinggy.StringUtils.Splitting.{all_pieces, join_string, split_string-join, join-longer}
use libpinggy.SdkConfig.{get_user, user_parts, is_tunnel_type}

-- The parts that name no type of tunnel.
abbrev kept_parts : List Text → List Text
kept_parts [] = []
kept_parts (x ∷ xs) =
    let later = kept_parts xs in if is_tunnel_type (string_to_lower x) then later else x ∷ later

abbrev forced_part : Bool → List Text
forced_part force = if force then bytes "force" ∷ [] else []

-- Each part behind a plus sign.
abbrev behind_plus : List Text → Text
behind_plus [] = []
behind_plus (x ∷ xs) = 43 ∷ (x ++ behind_plus xs)

user_parts-kept : (ps : List Text) → user_parts ps ≡ behind_plus (kept_parts ps)
unfolding user_parts
user_parts-kept [] = refl
user_parts-kept (x ∷ xs) = ground (arith, user_parts-kept xs)

behind_plus-append : (ps qs : List Text) → behind_plus (ps ++ qs) ≡ behind_plus ps ++ behind_plus qs
behind_plus-append [] qs = refl
behind_plus-append (x ∷ xs) qs =
    ground (arith, behind_plus-append xs qs, append_assoc x (behind_plus xs) (behind_plus qs))

join_string-behind : (ps : List Text) → drop 1 (behind_plus ps) ≡ join_string ps (bytes "+")
unfolding join_string
join_string-behind [] = refl
join_string-behind (x ∷ []) = append-nil x
join_string-behind (x ∷ y ∷ ys) = ground (arith, join_string-behind (y ∷ ys))

-- The user name has the parts of the token that name no type of tunnel in any case of letters, in their order and
-- joined by plus signs, and `force` behind them when it is set, for a token of parts that are not empty.
pub get_user-join :
    (ps : List Text) (force : Bool)
    → all_pieces 43 ps ≡ true
    → length ps < 2 ^ 64
    → get_user (join_string ps (bytes "+")) force
      ≡ some (join_string (kept_parts ps ++ forced_part force) (bytes "+"))
unfolding get_user
get_user-join [] true e few = unfold user_parts join_string in refl
get_user-join [] false e few = unfold user_parts join_string in refl
get_user-join (p ∷ ps) force e few =
    let token : Text = join_string (p ∷ ps) (bytes "+") in
    let (n, size) : (n : ℕ) × (length token ≡ suc n) =
      (length token - 1, omega (arith, join-longer 43 (p ∷ ps) e)) in
    let forced : (if force then bytes "+force" else []) ≡ behind_plus (forced_part force) =
      ground arith in
    ground (
      arith,
      size,
      forced,
      split_string-join 43 (p ∷ ps) e few,
      user_parts-kept (p ∷ ps),
      behind_plus-append (kept_parts (p ∷ ps)) (forced_part force),
      join_string-behind (kept_parts (p ∷ ps) ++ forced_part force),
    )
