-- ===== src/Tests/Literals.antt =====
-- Literals between hosts of two byte orders, and strings.
use libpinggy.Prelude.{
  ℕ, ◌≡◌, refl, true, false, List, [], ◌∷◌, ◌++◌, some, none, negsuc, arith, ok, bytes, All,
}
use libpinggy.StringUtils.Splitting.{join_string}
use libpinggy.Paths.{
  PathDefinition, PathRegistry, new_path_registry, find_id, get_path_def_for_id, path_string,
  paths_bytes, update_path_registry_from_stream, Key, register_path, add_path, get_path, find_key,
  path_bytes, get_n_clear_newly_added_path,
}
use libpinggy.Paths.Wire.{all_fit}
use libpinggy.Literals.{
  memory, low_bytes, uint32, int8, int16, bits, serialize_lit, deserialize_lit, serialize_string,
  deserialize_string, deserialize_literal_with_type,
}
use libpinggy.Paths.Register.{Want, register_all, registered_paths_resolve}
use libpinggy.Literals.Integers.{literal_roundtrip}
use libpinggy.Literals.Strings.{string_roundtrip, string_swapped_twice}
use libpinggy.Literals.Conversions.{read_as_other_type}

literal_roundtrip_example :
    deserialize_lit true true uint32 (serialize_lit false false uint32 305419896 ++ (9 ∷ []))
    ≡ some (305419896, 9 ∷ [])
literal_roundtrip_example =
    literal_roundtrip false false true true uint32 305419896 (9 ∷ []) (omega arith) refl refl

abbrev word : List ℕ
word = 119 ∷ 101 ∷ 98 ∷ []

string_roundtrip_example :
    deserialize_string false false (serialize_string false false word ++ (7 ∷ []))
    ≡ some (word, 7 ∷ [])
string_roundtrip_example = string_roundtrip false false false word (7 ∷ []) refl

string_swapped_twice_example :
    deserialize_string true true (serialize_string false false word ++ (7 ∷ [])) ≡ none
string_swapped_twice_example =
    string_swapped_twice false true word (7 ∷ []) refl (omega arith) (omega arith) (omega arith)

-- A negative number and one that is too large.
read_as_other_type_example :
    deserialize_literal_with_type true true int8 int16
      (serialize_lit false false int16 (bits int16 (negsuc 4)) ++ [])
    ≡ some (negsuc 4, [])
read_as_other_type_example =
    read_as_other_type false false true true int8 int16 (negsuc 4) [] refl refl refl

-- The first two paths of a message: an object, and a text in it.
abbrev outer : PathDefinition
outer = record {
  path_id = 129;
  basename = bytes "a";
  path = bytes "a" ∷ [];
  parent = 128;
  val_type = 21;
}

abbrev inner : PathDefinition
inner = record {
  path_id = 130;
  basename = bytes "b";
  path = bytes "a" ∷ bytes "b" ∷ [];
  parent = 129;
  val_type = 31;
}

-- The names "a" and "b", the second registered twice, and the bytes that are sent.
abbrev wants : List Want
wants =
    record { name = bytes "a"; val_type = 21; parent = 128 }
    ∷ record { name = bytes "b"; val_type = 31; parent = 129 }
    ∷ record { name = bytes "b"; val_type = 31; parent = 129 }
    ∷ []

abbrev key_of : PathDefinition → Key
key_of d = record { base = d.basename; number = d.parent; kind = d.val_type }

abbrev registered : PathRegistry
registered = record {
  path_to_path_definition = (key_of inner, inner) ∷ (key_of outer, outer) ∷ [];
  id_to_path_definition = (130, inner) ∷ (129, outer) ∷ [];
  newly_added_paths = outer ∷ inner ∷ [];
  current_id = 130;
}

registers : register_all wants new_path_registry ≡ ok registered
unfolding register_all register_path add_path get_path find_id find_key new_path_registry
registers = refl

both_fit : all_fit (outer ∷ inner ∷ []) ≡ true
unfolding path_string join_string
both_fit = refl

abbrev on_wire : List ℕ
on_wire =
    129 ∷ 0 ∷ 2 ∷ 0 ∷ 46 ∷ 97 ∷ 128 ∷ 0 ∷ 21 ∷ 1 ∷ 0 ∷ 97 ∷ 130 ∷ 0 ∷ 4 ∷ 0 ∷ 46 ∷ 97 ∷ 46 ∷ 98
    ∷ 129 ∷ 0 ∷ 31 ∷ 1 ∷ 0 ∷ 98 ∷ []

sends : (get_n_clear_newly_added_path false false registered).1 ≡ some (2 ∷ on_wire)
unfolding get_n_clear_newly_added_path paths_bytes path_bytes path_string join_string serialize_lit
    serialize_string memory low_bytes
sends = refl

registered_paths_resolve_example :
    (u : PathRegistry) × (update_path_registry_from_stream false false on_wire new_path_registry
      ≡ ok u)
    × All (λ d. get_path_def_for_id u d.path_id ≡ ok d) (outer ∷ inner ∷ [])
registered_paths_resolve_example =
    registered_paths_resolve false false false wants registered 2 on_wire refl refl (omega arith)
      registers both_fit sends
