-- ===== src/RefTable.antt =====
-- src/sdk/RefTable.hh: the references that C callers hold in place of objects.
-- An object is a number here. The mutex makes each call one step.
pub mod Ownership
use libpinggy.Prelude.{
  ℕ, zero, suc, ◌+◌, ◌-◌, ◌*◌, Bool, true, false, leb, ◌==◌, List, [], ◌∷◌, ◌++◌, if◌then◌else◌,
  length, get_elem?, set, Option, none, some,
}

pub record RefTable : Type 0 where
  pub table : List (Option ℕ)
  pub free_list : List ℕ  -- oldest first

unfoldable pub nothings : ℕ → List (Option ℕ)
nothings zero = []
nothings (suc n) = none ∷ nothings n

-- The numbers from `i` on.
unfoldable pub numbers_from : ℕ → ℕ → List ℕ
numbers_from i zero = []
numbers_from i (suc n) = i ∷ numbers_from (suc i) n

unfoldable pub grow : RefTable → RefTable
unfolding nothings numbers_from
grow t =
    let old_size = length t.table in
    let new_size = if old_size == 0 then 1024 else old_size * 2 in
    record {
      table = t.table ++ nothings (new_size - old_size);
      free_list = t.free_list ++ numbers_from old_size (new_size - old_size);
    }

unfoldable pub new_ref_table : RefTable
unfolding grow
new_ref_table = grow (record { table = []; free_list = [] })

-- The front of an empty queue is never asked for, since a table that grows has free references.
unfoldable pub take_ref : List ℕ → ℕ → RefTable → RefTable × ℕ
take_ref [] ptr t = (t, 0)
take_ref (ref ∷ refs) ptr t = (record { table = set t.table ref (some ptr); free_list = refs }, ref)

unfoldable pub grow_if_empty : List ℕ → RefTable → RefTable
unfolding grow
grow_if_empty [] t = grow t
grow_if_empty (ref ∷ refs) t = t

unfoldable pub get_ref : ℕ → RefTable → RefTable × ℕ
unfolding take_ref grow_if_empty
get_ref ptr t = let u = grow_if_empty t.free_list t in take_ref u.free_list ptr u

-- No object, or the one that the reference stands for.
abbrev pub entry : Option (Option ℕ) → Option ℕ
entry none = none
entry (some e) = e

unfoldable pub get_obj : ℕ → RefTable → Option ℕ
get_obj ref t = entry (get_elem? t.table ref)

unfoldable pub remove_ref : ℕ → RefTable → RefTable × Bool
remove_ref ref t =
    if leb (length t.table) ref
    then (t, false)
    else (record { table = set t.table ref none; free_list = t.free_list ++ (ref ∷ []) }, true)
