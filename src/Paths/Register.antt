-- ===== src/Paths/Register.antt =====
-- src/protocol/transport/PathRegistry.cc: the paths that one side registers, as the other side resolves their numbers.
use libpinggy.Prelude.{
  ℕ, ◌+◌, ◌%◌, ◌^◌, ◌≤◌, ◌<◌, ◌≡◌, refl, Bool, true, false, ◌&&◌, ◌||◌, List, [], ◌∷◌, ◌++◌, length,
  leb, ltb, ◌==◌, Option, none, some, Option-cases, Outcome, ok, ◌>>=◌, >>=-eq-ok, arith, All, ap,
  inl, inr,
}
use libpinggy.Message.{Text}
use libpinggy.Transport.State.{high_first, msg_type_type}
use libpinggy.Literals.{uint8, serialize_lit, memory, low_bytes, byte_swap}
use libpinggy.Paths.{
  PathDefinition, Key, PathRegistry, root_path_id, new_path_registry, find_id, find_key, get_path,
  new_path, add_path, register_path, add_all, add_read, has_parent, have_parents, paths_bytes,
  update_path_registry_from_stream, get_path_def_for_id, new_paths_of, get_n_clear_newly_added_path,
}
use libpinggy.Paths.Wire.{all_fit, has_id, unique_ids, written_paths_resolve}

-- The arguments of a call of `RegisterPath`.
pub record Want : Type 0 where
  pub name : Text
  pub val_type : ℕ
  pub parent : ℕ

unfoldable pub register_all : List Want → PathRegistry → Outcome PathRegistry
register_all [] r = ok r
register_all (w ∷ ws) r = register_path r w.name w.val_type w.parent >>= λ p. register_all ws p.0

abbrev pub all_named : List Want → Bool
all_named [] = true
all_named (w ∷ ws) = ltb 0 (length w.name) && all_named ws

abbrev ids_upto : ℕ → List PathDefinition → Bool
ids_upto n [] = true
ids_upto n (d ∷ ds) = leb d.path_id n && ids_upto n ds

-- What the numbers resolve to here is what they resolve to at a new reader of all new paths.
record IsKept (r : PathRegistry) : Type 0 where
  same :
      r.id_to_path_definition
      ≡ (add_all r.newly_added_paths new_path_registry).id_to_path_definition
  upto : ids_upto r.current_id r.newly_added_paths ≡ true
  unique : unique_ids r.newly_added_paths ≡ true
  parents : have_parents (add_all r.newly_added_paths new_path_registry) r.newly_added_paths ≡ true

add_all-snoc :
    (ds : List PathDefinition) (d : PathDefinition) (r : PathRegistry)
    → add_all (ds ++ (d ∷ [])) r ≡ add_read d (add_all ds r)
unfolding add_all
add_all-snoc [] d r = refl
add_all-snoc (e ∷ ds) d r = add_all-snoc ds d (add_read e r)

ids_upto-more :
    (n m : ℕ) (ds : List PathDefinition) → n ≤ m → ids_upto n ds ≡ true → ids_upto m ds ≡ true
ids_upto-more n m [] h e = refl
ids_upto-more n m (d ∷ ds) h e = ground (arith, ids_upto-more n m ds h (ground arith))

ids_upto-snoc :
    (n : ℕ) (ds : List PathDefinition) (d : PathDefinition)
    → ids_upto n ds ≡ true
    → d.path_id ≤ n
    → ids_upto n (ds ++ (d ∷ [])) ≡ true
ids_upto-snoc n [] d e h = ground arith
ids_upto-snoc n (c ∷ ds) d e h = ground (arith, ids_upto-snoc n ds d (ground arith) h)

has_id-snoc :
    (n : ℕ) (ds : List PathDefinition) (d : PathDefinition)
    → has_id n (ds ++ (d ∷ [])) ≡ (has_id n ds || n == d.path_id)
has_id-snoc n [] d = ground arith
has_id-snoc n (c ∷ ds) d = ground (arith, has_id-snoc n ds d)

unique_ids-snoc :
    (n : ℕ) (ds : List PathDefinition) (d : PathDefinition)
    → unique_ids ds ≡ true
    → ids_upto n ds ≡ true
    → n < d.path_id
    → unique_ids (ds ++ (d ∷ [])) ≡ true
unique_ids-snoc n [] d e u h = ground arith
unique_ids-snoc n (c ∷ ds) d e u h =
    ground
      (arith, has_id-snoc c.path_id ds d, unique_ids-snoc n ds d (ground arith) (ground arith) h)

-- A reader that knows more has every parent that it had.
has_parent-more :
    (e d : PathDefinition) (r : PathRegistry)
    → has_parent r d ≡ true
    → has_parent (add_read e r) d ≡ true
unfolding find_id
has_parent-more e d r h = ground arith

have_parents-snoc :
    (ds : List PathDefinition) (e d : PathDefinition) (r : PathRegistry)
    → have_parents r ds ≡ true
    → has_parent (add_read e r) d ≡ true
    → have_parents (add_read e r) (ds ++ (d ∷ [])) ≡ true
have_parents-snoc [] e d r h p = ground arith
have_parents-snoc (c ∷ ds) e d r h p =
    ground
      (arith, has_parent-more e c r (ground arith), have_parents-snoc ds e d r (ground arith) p)

add_path-IsKept :
    (r : PathRegistry) (name : Text) (kind parent : ℕ) (path : List Text)
    → IsKept r
    → r.current_id + 1 < 2 ^ 16
    → (leb parent root_path_id
        || elim (find_id parent r.id_to_path_definition) [ none ↦ false | some p ↦ true ])
      ≡ true
    → IsKept (add_path r name kind parent path).0
unfolding add_path
add_path-IsKept r name kind parent path k room known =
    let ds = r.newly_added_paths in
    let id = (r.current_id + 1) % 2 ^ 16 in
    let d : PathDefinition = record {
      path_id = id;
      basename = name;
      path = path;
      parent = parent;
      val_type = kind;
    } in
    let u = add_all ds new_path_registry in
    let there : has_parent u d ≡ true = ground (arith, known, ap (find_id parent) k.same) in
    record {
      same = ground (arith, add_all-snoc ds d new_path_registry, k.same);
      upto =
          ids_upto-snoc id ds d (ids_upto-more r.current_id id ds (omega arith) k.upto)
            (omega arith);
      unique = unique_ids-snoc r.current_id ds d k.unique k.upto (omega arith);
      parents =
          rw (add_all-snoc ds d new_path_registry)
            (have_parents-snoc ds d d u k.parents (has_parent-more d d u there));
    }

get_path-known :
    (r : PathRegistry) (parent : ℕ) {path : List Text}
    → get_path r parent ≡ ok path
    → (leb parent root_path_id
        || elim (find_id parent r.id_to_path_definition) [ none ↦ false | some p ↦ true ])
      ≡ true
unfolding get_path
get_path-known r parent e = elim (Option-cases (find_id parent r.id_to_path_definition)) [
  | inl absent ↦ ground arith
  | inr (d, found) ↦ ground arith
]

new_path-known :
    (r : PathRegistry) (name : Text) (parent : ℕ) {path : List Text}
    → ltb 0 (length name) ≡ true
    → new_path r name parent ≡ ok path
    → (leb parent root_path_id
        || elim (find_id parent r.id_to_path_definition) [ none ↦ false | some p ↦ true ])
      ≡ true
new_path-known r [] parent named e = absurd (ground arith)
new_path-known r (c ∷ cs) parent named e =
    let (path, found, rest) =
      >>=-eq-ok (get_path r parent) (λ path. ok (path ++ ((c ∷ cs) ∷ []))) e in
    get_path-known r parent found

add_path-id :
    (r : PathRegistry) (name : Text) (kind parent : ℕ) (path : List Text)
    → (add_path r name kind parent path).0.current_id ≤ r.current_id + 1
unfolding add_path
add_path-id r name kind parent path = omega arith

-- What follows the look-up of the key.
after_path :
    (r : PathRegistry) (w : Want) (path : List Text) (o : Option PathDefinition)
    {q : PathRegistry × ℕ}
    → IsKept r
    → IsKept (add_path r w.name w.val_type w.parent path).0
    → elim o [ some d ↦ ok (r, d.path_id) | none ↦ ok (add_path r w.name w.val_type w.parent path) ]
      ≡ ok q
    → IsKept q.0 × (q.0.current_id ≤ r.current_id + 1)
after_path r w path none k k' e = ground (arith, add_path-id r w.name w.val_type w.parent path)
after_path r w path (some d) k k' e = ground arith

register_path-IsKept :
    (r : PathRegistry) (w : Want) {q : PathRegistry × ℕ}
    → ltb 0 (length w.name) ≡ true
    → IsKept r
    → r.current_id + 1 < 2 ^ 16
    → register_path r w.name w.val_type w.parent ≡ ok q
    → IsKept q.0 × (q.0.current_id ≤ r.current_id + 1)
unfolding register_path
register_path-IsKept r w named k room e =
    let key : Key = record { base = w.name; number = w.parent; kind = w.val_type } in
    let (path, found, rest) =
      >>=-eq-ok (new_path r w.name w.parent)
        (λ path. elim (find_key key r.path_to_path_definition) [
          | some d ↦ ok (r, d.path_id)
          | none ↦ ok (add_path r w.name w.val_type w.parent path)
        ])
        e in
    let known = new_path-known r w.name w.parent named found in
    let added = add_path-IsKept r w.name w.val_type w.parent path k room known in
    after_path r w path (find_key key r.path_to_path_definition) k added rest

register_all-IsKept :
    (ws : List Want) (r : PathRegistry) {q : PathRegistry}
    → all_named ws ≡ true
    → IsKept r
    → r.current_id + length ws < 2 ^ 16
    → register_all ws r ≡ ok q
    → IsKept q
unfolding register_all
register_all-IsKept [] r named k room e = ground arith
register_all-IsKept (w ∷ ws) r named k room e =
    let (p, first, rest) =
      >>=-eq-ok (register_path r w.name w.val_type w.parent) (λ p. register_all ws p.0) e in
    let (k', less) = register_path-IsKept r w (ground arith) k (omega arith) first in
    register_all-IsKept ws p.0 (ground arith) k' (omega arith) rest

type_byte :
    (from from_swaps : Bool) (xs : List ℕ)
    → serialize_lit from from_swaps uint8 msg_type_type ++ xs ≡ msg_type_type ∷ xs
unfolding serialize_lit memory low_bytes byte_swap
type_byte from from_swaps xs = ground arith

-- The bytes behind the one that says that they are paths.
sent-paths_bytes :
    (from from_swaps : Bool) (ds : List PathDefinition) {t : ℕ} {xs : List ℕ}
    → new_paths_of from from_swaps ds ≡ some (t ∷ xs)
    → xs ≡ paths_bytes from from_swaps ds
sent-paths_bytes from from_swaps [] e = absurd (ground arith)
sent-paths_bytes from from_swaps (d ∷ ds) e =
    ground (arith, type_byte from from_swaps (paths_bytes from from_swaps (d ∷ ds)))

-- One side registers fewer than 65408 paths in a new registry, each with a name, and no call throws. It then sends
-- what `GetNClearNewlyAddedPath` gives, whose numbers and strings fit the wire and whose names have no dot; and the other side, which does
-- not swap and puts the same byte first, reads what stands behind the first byte into a new registry. Then the
-- update returns, and the other side's registry gives, for the number of each path that was added, the definition
-- that the first side has: path, name, parent and type.
pub registered_paths_resolve :
    (from from_swaps to : Bool) (ws : List Want) (r : PathRegistry) (t : ℕ) (xs : List ℕ)
    → high_first from from_swaps ≡ high_first to false
    → all_named ws ≡ true
    → length ws < 65408
    → register_all ws new_path_registry ≡ ok r
    → all_fit r.newly_added_paths ≡ true
    → (get_n_clear_newly_added_path from from_swaps r).1 ≡ some (t ∷ xs)
    → (u : PathRegistry) × (update_path_registry_from_stream to false xs new_path_registry ≡ ok u)
      × All (λ d. get_path_def_for_id u d.path_id ≡ ok d) r.newly_added_paths
unfolding get_n_clear_newly_added_path
registered_paths_resolve from from_swaps to ws r t xs same named few e fit sent =
    let k = register_all-IsKept ws new_path_registry named begin few' e in
    let (u, read, found) =
      written_paths_resolve from from_swaps to r.newly_added_paths new_path_registry same fit
        k.unique k.parents in
    (u, rw (sent-paths_bytes from from_swaps r.newly_added_paths sent) read, found)
  where
    begin : IsKept new_path_registry
    begin = unfold new_path_registry add_all in ground arith

    few' : new_path_registry.current_id + length ws < 2 ^ 16
    few' = unfold new_path_registry in omega arith
