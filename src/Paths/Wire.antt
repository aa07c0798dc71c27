-- ===== src/Paths/Wire.antt =====
-- src/protocol/transport/PathRegistry.cc: new paths that one side sends, as the other side reads them.
use libpinggy.Prelude.{
  ℕ, zero, suc, ◌^◌, ◌≤◌, ◌<◌, ◌≡◌, refl, Bool, true, false, not, ◌&&◌, ◌||◌, List, [], ◌∷◌, ◌++◌,
  append_assoc, length, length-append, take-length, drop-length, ltb, ◌==◌, some, ok, arith, All,
  ap,
}
use libpinggy.Message.{Text}
use libpinggy.Transport.State.{high_first}
use libpinggy.Literals.{
  uint8, uint16, serialize_lit, serialize_string, deserialize_string, memory, low_bytes,
}
use libpinggy.Literals.Integers.{literal_roundtrip}
use libpinggy.Literals.Strings.{string_roundtrip}
use libpinggy.StringUtils.Splitting.{all_pieces, split_string-join}
use libpinggy.Paths.{
  PathDefinition, PathRegistry, find_id, get_path_def_for_id, path_string, path_bytes, paths_bytes,
  read_path, parse_path, parse_paths, add_all, add_read, have_parents,
  update_path_registry_from_stream,
}

string_back :
    (from from_swaps to : Bool) (item rest : List ℕ)
    → high_first from from_swaps ≡ high_first to false
    → length item < 2 ^ 16
    → deserialize_string to false (serialize_string from from_swaps item ++ rest)
      ≡ some (item, rest)
string_back from from_swaps to item rest same short = ground (
  arith,
  string_roundtrip from from_swaps to item rest same,
  take-length (length item) item,
  drop-length (length item) item,
)

-- Numbers and strings within what the wire holds, and a path of names that are not empty and have no dot.
abbrev pub fits_wire : PathDefinition → Bool
fits_wire d =
    ((ltb d.path_id (2 ^ 16) && ltb d.parent (2 ^ 16)) && ltb d.val_type (2 ^ 8))
    && ((ltb (length d.basename) (2 ^ 16) && ltb (length (path_string d.path)) (2 ^ 16))
        && (all_pieces 46 d.path && ltb (length d.path) (2 ^ 64)))

abbrev pub all_fit : List PathDefinition → Bool
all_fit [] = true
all_fit (d ∷ ds) = fits_wire d && all_fit ds

read_path-string :
    (ps : List Text)
    → all_pieces 46 ps ≡ true
    → length ps < 2 ^ 64
    → read_path (path_string ps) ≡ some ps
unfolding read_path path_string
read_path-string [] e few = refl
read_path-string (p ∷ ps) e few = split_string-join 46 (p ∷ ps) e few

assoc5 :
    (a b c d e rest : List ℕ)
    → (a ++ (b ++ (c ++ (d ++ e)))) ++ rest ≡ a ++ (b ++ (c ++ (d ++ (e ++ rest))))
assoc5 a b c d e rest = simp (append_assoc)

parse_path-bytes :
    (from from_swaps to : Bool) (d : PathDefinition) (rest : List ℕ)
    → high_first from from_swaps ≡ high_first to false
    → fits_wire d ≡ true
    → parse_path to false (path_bytes from from_swaps d ++ rest) ≡ some (d, rest)
unfolding parse_path path_bytes
parse_path-bytes from from_swaps to d rest same fits =
    let id = serialize_lit from from_swaps uint16 d.path_id in
    let str = serialize_string from from_swaps (path_string d.path) in
    let parent = serialize_lit from from_swaps uint16 d.parent in
    let kind = serialize_lit from from_swaps uint8 d.val_type in
    let name = serialize_string from from_swaps d.basename in
    rw (
      assoc5 id str parent kind name rest,
      literal_roundtrip from from_swaps to false uint16 d.path_id
          (str ++ (parent ++ (kind ++ (name ++ rest)))) (ground arith) same refl,
      string_back from from_swaps to (path_string d.path) (parent ++ (kind ++ (name ++ rest))) same
          (ground arith),
      literal_roundtrip from from_swaps to false uint16 d.parent (kind ++ (name ++ rest))
          (ground arith) same refl,
      literal_roundtrip from from_swaps to false uint8 d.val_type (name ++ rest) (ground arith) same
          refl,
      string_back from from_swaps to d.basename rest same (ground arith),
      read_path-string d.path (ground arith) (ground arith),
    )

-- A definition takes at least a byte.
path_bytes-some :
    (from from_swaps : Bool) (d : PathDefinition) (rest : List ℕ)
    → (x : ℕ) × (xs : List ℕ) × (path_bytes from from_swaps d ++ rest ≡ x ∷ xs)
unfolding path_bytes serialize_lit memory low_bytes
path_bytes-some true from_swaps d rest = (_, _, refl)
path_bytes-some false from_swaps d rest = (_, _, refl)

parse_paths-bytes :
    (fuel : ℕ) (from from_swaps to : Bool) (ds : List PathDefinition)
    → high_first from from_swaps ≡ high_first to false
    → all_fit ds ≡ true
    → length ds < fuel
    → parse_paths fuel to false (paths_bytes from from_swaps ds) ≡ some ds
unfolding parse_paths paths_bytes
parse_paths-bytes zero from from_swaps to ds same fit enough = absurd (omega arith)
parse_paths-bytes (suc fuel) from from_swaps to [] same fit enough = refl
parse_paths-bytes (suc fuel) from from_swaps to (d ∷ ds) same fit enough =
    let rest = paths_bytes from from_swaps ds in
    let (x, xs, e) = path_bytes-some from from_swaps d rest in
    let read = parse_path-bytes from from_swaps to d rest same (ground arith) in
    let later = parse_paths-bytes fuel from from_swaps to ds same (ground arith) (omega arith) in
    let read' : parse_path to false (x ∷ xs) ≡ some (d, rest) = rw e at read in rw (e, read', later)

paths_bytes-length :
    (from from_swaps : Bool) (ds : List PathDefinition)
    → length ds ≤ length (paths_bytes from from_swaps ds)
unfolding paths_bytes
paths_bytes-length from from_swaps [] = omega arith
paths_bytes-length from from_swaps (d ∷ ds) =
    let (x, xs, e) = path_bytes-some from from_swaps d [] in
    let some_bytes : 0 < length (path_bytes from from_swaps d) =
      omega (arith, ap length e, length-append (path_bytes from from_swaps d) []) in
    omega (
      arith,
      some_bytes,
      paths_bytes-length from from_swaps ds,
      length-append (path_bytes from from_swaps d) (paths_bytes from from_swaps ds),
    )

abbrev pub has_id : ℕ → List PathDefinition → Bool
has_id n [] = false
has_id n (d ∷ ds) = n == d.path_id || has_id n ds

-- No two definitions have the same number.
abbrev pub unique_ids : List PathDefinition → Bool
unique_ids [] = true
unique_ids (d ∷ ds) = not (has_id d.path_id ds) && unique_ids ds

add_all-others :
    (n : ℕ) (ds : List PathDefinition) (r : PathRegistry)
    → has_id n ds ≡ false
    → find_id n (add_all ds r).id_to_path_definition ≡ find_id n r.id_to_path_definition
unfolding add_all find_id
add_all-others n [] r e = refl
add_all-others n (d ∷ ds) r e = ground (arith, add_all-others n ds (add_read d r) (ground arith))

add_all-finds :
    (ds : List PathDefinition) (r : PathRegistry)
    → unique_ids ds ≡ true
    → All (λ d. find_id d.path_id (add_all ds r).id_to_path_definition ≡ some d) ds
unfolding add_all find_id
add_all-finds [] r e = tt
add_all-finds (d ∷ ds) r e = (
  ground (arith, add_all-others d.path_id ds (add_read d r) (ground arith)),
  add_all-finds ds (add_read d r) (ground arith),
)

All-found :
    (ds : List PathDefinition) (r : PathRegistry)
    → All (λ d. find_id d.path_id r.id_to_path_definition ≡ some d) ds
    → All (λ d. get_path_def_for_id r d.path_id ≡ ok d) ds
unfolding get_path_def_for_id
All-found [] r h = tt
All-found (d ∷ ds) r h = (rw h.0, All-found ds r h.1)

-- Definitions that one side writes and another, which does not swap and puts the same byte first, reads into its
-- registry: the numbers are different from each other; numbers and strings fit the wire; the names in a path are not empty and have
-- no dot; and after the definitions were added, each parent above the root's number is there. Then the update returns,
-- and the reader's registry gives, for each number, the definition that was written: its path, name, parent and type.
pub written_paths_resolve :
    (from from_swaps to : Bool) (ds : List PathDefinition) (r : PathRegistry)
    → high_first from from_swaps ≡ high_first to false
    → all_fit ds ≡ true
    → unique_ids ds ≡ true
    → have_parents (add_all ds r) ds ≡ true
    → (u : PathRegistry) × (update_path_registry_from_stream to false
          (paths_bytes from from_swaps ds)
          r
        ≡ ok u)
      × All (λ d. get_path_def_for_id u d.path_id ≡ ok d) ds
unfolding update_path_registry_from_stream
written_paths_resolve from from_swaps to ds r same fit unique parents =
    let xs = paths_bytes from from_swaps ds in
    let enough = paths_bytes-length from from_swaps ds in
    let read = parse_paths-bytes (suc (length xs)) from from_swaps to ds same fit (omega arith) in
    (
      add_all ds r,
      ground (arith, read, parents),
      All-found ds (add_all ds r) (add_all-finds ds r unique),
    )
