-- ===== src/Tests/References.antt =====
-- Runs of the table of references.
use libpinggy.Prelude.{ℕ, ◌≡◌, refl, true, [], ◌∷◌, none, some, if◌then◌else◌, ◌==◌, arith}
use libpinggy.RefTable.{RefTable, get_ref, get_obj, remove_ref}
use libpinggy.RefTable.Ownership.{IsSound, get_ref-fresh, remove_ref-frees, removed_twice-shared}

-- Object 7 has reference 1; 0 and 2 are free.
abbrev small : RefTable
small = record { table = none ∷ some 7 ∷ none ∷ []; free_list = 2 ∷ 0 ∷ [] }

small-IsSound : IsSound small
small-IsSound = record {
  vacant = (refl, (refl, tt));
  distinct = (((λ e. absurd (omega arith)), tt), (tt, tt));
}

get_ref-fresh_example :
    (u : RefTable) × (ref : ℕ) × (get_ref 9 small ≡ (u, ref))
    × (get_obj ref small ≡ none)
    × (get_obj 1 u ≡ (if 1 == ref then some 9 else get_obj 1 small))
    × IsSound u
get_ref-fresh_example = get_ref-fresh 9 1 small small-IsSound

small-has : get_obj 1 small ≡ some 7
unfolding get_obj
small-has = refl

remove_ref-frees_example :
    (u : RefTable) × (remove_ref 1 small ≡ (u, true)) × (get_obj 1 u ≡ none) × IsSound u
remove_ref-frees_example = remove_ref-frees 1 7 1 small small-IsSound small-has

abbrev full : RefTable
full = record { table = some 7 ∷ []; free_list = [] }

full-has : get_obj 0 full ≡ some 7
unfolding get_obj
full-has = refl

removed_twice-shared_example :
    ((get_ref 3 (remove_ref 0 (remove_ref 0 full).0).0).1 ≡ 0)
    × ((get_ref 4 (get_ref 3 (remove_ref 0 (remove_ref 0 full).0).0).0).1 ≡ 0)
removed_twice-shared_example = removed_twice-shared 0 7 3 4 full full-has refl
