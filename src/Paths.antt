-- ===== src/Paths.antt =====
-- src/protocol/transport/PathRegistry.cc and PathRegistry.hh: the numbers that stand for the paths of a message's
-- fields. The maps are association lists with the newest entry first. `aborted` is an exception, or the use of a
-- null pointer. The `Children` of a definition, which only `DumpPaths` reads, are left out.
pub mod Wire
pub mod Register
use libpinggy.Prelude.{
  ℕ, zero, suc, ◌+◌, ◌%◌, ◌^◌, Bool, true, false, ◌&&◌, ◌||◌, if◌then◌else◌, List, [], ◌∷◌, ◌++◌,
  length, drop, leb, ◌==◌, Option, none, some, Outcome, ok, aborted, ◌>>=◌, negsuc,
}
use libpinggy.Message.{Text}
use libpinggy.Literals.{
  uint8, uint16, serialize_lit, deserialize_lit, serialize_string, deserialize_string,
}
use libpinggy.StringUtils.Splitting.{split_string, join_string}
use libpinggy.Transport.State.{msg_type_type}

pub record PathDefinition : Type 0 where
  pub path_id : ℕ  -- uint16
  pub basename : Text
  pub path : List Text
  pub parent : ℕ  -- uint16
  pub val_type : ℕ  -- uint8

-- A key of `pathToPathDefinition`.
pub record Key : Type 0 where
  pub base : Text
  pub number : ℕ
  pub kind : ℕ

pub record PathRegistry : Type 0 where
  pub path_to_path_definition : List (Key × PathDefinition)
  pub id_to_path_definition : List (ℕ × PathDefinition)
  pub newly_added_paths : List PathDefinition  -- oldest first
  pub current_id : ℕ  -- uint16

abbrev pub root_path_id : ℕ
root_path_id = 128

unfoldable pub new_path_registry : PathRegistry
new_path_registry = record {
  path_to_path_definition = [];
  id_to_path_definition = [];
  newly_added_paths = [];
  current_id = root_path_id;
}

abbrev pub same_text : Text → Text → Bool
same_text [] [] = true
same_text (x ∷ xs) (y ∷ ys) = x == y && same_text xs ys
same_text xs ys = false

abbrev pub same_key : Key → Key → Bool
same_key a b = same_text a.base b.base && (a.number == b.number && a.kind == b.kind)

unfoldable pub find_key : Key → List (Key × PathDefinition) → Option PathDefinition
find_key k [] = none
find_key k ((l, d) ∷ ds) = if same_key k l then some d else find_key k ds

unfoldable pub find_id : ℕ → List (ℕ × PathDefinition) → Option PathDefinition
find_id n [] = none
find_id n ((m, d) ∷ ds) = if n == m then some d else find_id n ds

-- `at`, which throws for a number that is not there.
abbrev pub at : Option PathDefinition → Outcome PathDefinition
at none = aborted
at (some d) = ok d

unfoldable pub get_path_def_for_id : PathRegistry → ℕ → Outcome PathDefinition
get_path_def_for_id r n = at (find_id n r.id_to_path_definition)

unfoldable pub get_path : PathRegistry → ℕ → Outcome (List Text)
get_path r parent =
    if leb parent root_path_id
    then ok []
    else at (find_id parent r.id_to_path_definition) >>= λ d. ok d.path

-- The path of a new definition.
abbrev pub new_path : PathRegistry → Text → ℕ → Outcome (List Text)
new_path r [] parent = ok []
new_path r (c ∷ cs) parent = get_path r parent >>= λ path. ok (path ++ ((c ∷ cs) ∷ []))

unfoldable pub add_path : PathRegistry → Text → ℕ → ℕ → List Text → PathRegistry × ℕ
add_path r basepath val_type parent path =
    let id = (r.current_id + 1) % 2 ^ 16 in
    let d : PathDefinition = record {
      path_id = id;
      basename = basepath;
      path = path;
      parent = parent;
      val_type = val_type;
    } in
    let key : Key = record { base = basepath; number = parent; kind = val_type } in
    (
      record {
        path_to_path_definition = (key, d) ∷ r.path_to_path_definition;
        id_to_path_definition = (id, d) ∷ r.id_to_path_definition;
        newly_added_paths = r.newly_added_paths ++ (d ∷ []);
        current_id = id;
      },
      id,
    )

unfoldable pub register_path : PathRegistry → Text → ℕ → ℕ → Outcome (PathRegistry × ℕ)
register_path r basepath val_type parent =
    let key : Key = record { base = basepath; number = parent; kind = val_type } in
    new_path r basepath parent >>= λ path. elim (find_key key r.path_to_path_definition) [
      | some d ↦ ok (r, d.path_id)
      | none ↦ ok (add_path r basepath val_type parent path)
    ]

abbrev pub dot : Text
dot = 46 ∷ []

unfoldable pub path_string : List Text → Text
path_string [] = []
path_string (p ∷ ps) = dot ++ join_string (p ∷ ps) dot

-- One definition on the wire.
unfoldable pub path_bytes : (big_endian swap : Bool) → PathDefinition → List ℕ
path_bytes big_endian swap d =
    serialize_lit big_endian swap uint16 d.path_id
    ++ (serialize_string big_endian swap (path_string d.path)
        ++ (serialize_lit big_endian swap uint16 d.parent
            ++ (serialize_lit big_endian swap uint8 d.val_type
                ++ serialize_string big_endian swap d.basename)))

unfoldable pub paths_bytes : (big_endian swap : Bool) → List PathDefinition → List ℕ
paths_bytes big_endian swap [] = []
paths_bytes big_endian swap (d ∷ ds) =
    path_bytes big_endian swap d ++ paths_bytes big_endian swap ds

abbrev pub new_paths_of : (big_endian swap : Bool) → List PathDefinition → Option (List ℕ)
new_paths_of big_endian swap [] = none
new_paths_of big_endian swap (d ∷ ds) =
    some (serialize_lit big_endian swap uint8 msg_type_type ++ paths_bytes big_endian swap (d ∷ ds))

unfoldable pub get_n_clear_newly_added_path :
    (big_endian swap : Bool) → PathRegistry → PathRegistry × Option (List ℕ)
get_n_clear_newly_added_path big_endian swap r =
    (record r { newly_added_paths = [] }, new_paths_of big_endian swap r.newly_added_paths)

-- The rest of a chain of reads runs only if none of them has thrown.
infixl 5 ◌>=>◌
abbrev pub ◌>=>◌ {κ ℓ} :
    {A : Type κ} {B : Type ℓ} → Option (A × List ℕ) → (A → List ℕ → Option B) → Option B
none >=> rest = none
some (a, xs) >=> rest = rest a xs

-- `substr(1)` and the split, of a path string that is not empty.
unfoldable pub read_path : Text → Option (List Text)
read_path [] = some []
read_path (c ∷ cs) = split_string cs dot (negsuc 0) false true

abbrev pub with_path :
    ℕ → ℕ → ℕ → Text → List ℕ → Option (List Text) → Option (PathDefinition × List ℕ)
with_path id parent val_type basename xs none = none
with_path id parent val_type basename xs (some path) = some (
  record { path_id = id; basename = basename; path = path; parent = parent; val_type = val_type },
  xs,
)

unfoldable pub parse_path : (big_endian swap : Bool) → List ℕ → Option (PathDefinition × List ℕ)
parse_path big_endian swap xs = deserialize_lit big_endian swap uint16 xs >=> λ id xs.
    deserialize_string big_endian swap xs >=> λ str xs.
    deserialize_lit big_endian swap uint16 xs >=> λ parent xs.
    deserialize_lit big_endian swap uint8 xs >=> λ val_type xs.
    deserialize_string big_endian swap xs >=> λ basename xs.
    with_path id parent val_type basename xs (read_path str)

-- The loop over the stream; `none`: an exception, or not enough fuel.
unfoldable pub parse_paths : ℕ → (big_endian swap : Bool) → List ℕ → Option (List PathDefinition)
parse_paths zero big_endian swap xs = none
parse_paths (suc fuel) big_endian swap [] = some []
parse_paths (suc fuel) big_endian swap (x ∷ xs) = parse_path big_endian swap (x ∷ xs) >=> λ d rest.
    elim (parse_paths fuel big_endian swap rest) [ none ↦ none | some ds ↦ some (d ∷ ds) ]

-- A definition that was read. Its key holds its own number, not its parent's.
abbrev pub add_read : PathDefinition → PathRegistry → PathRegistry
add_read d r = record r {
  path_to_path_definition =
      (record { base = d.basename; number = d.path_id; kind = d.val_type }, d)
      ∷ r.path_to_path_definition;
  id_to_path_definition = (d.path_id, d) ∷ r.id_to_path_definition;
}

unfoldable pub add_all : List PathDefinition → PathRegistry → PathRegistry
add_all [] r = r
add_all (d ∷ ds) r = add_all ds (add_read d r)

-- The parents of the definitions that were read are there. A null one is used for a parent that is not.
abbrev pub has_parent : PathRegistry → PathDefinition → Bool
has_parent r d =
    leb d.parent root_path_id
    || elim (find_id d.parent r.id_to_path_definition) [ none ↦ false | some p ↦ true ]

abbrev pub have_parents : PathRegistry → List PathDefinition → Bool
have_parents r [] = true
have_parents r (d ∷ ds) = has_parent r d && have_parents r ds

unfoldable pub update_path_registry_from_stream :
    (big_endian swap : Bool) → List ℕ → PathRegistry → Outcome PathRegistry
update_path_registry_from_stream big_endian swap xs r =
    elim (parse_paths (suc (length xs)) big_endian swap xs) [
      | none ↦ aborted
      | some ds ↦ (let u = add_all ds r in if have_parents u ds then ok u else aborted)
    ]
