-- ===== src/Json.antt =====
-- JSON values and the mappings of Python that the program reads, with the functions of
-- master_a_dynamic_v4/models.py on them. The functions of Python's library that print, hash and
-- capitalise are parameters.
use model_lib.Prelude.{ℕ, zero, suc, String, Bool, true, false, ◌==◌, string_eq, if◌then◌else◌}
use model_lib.Text.{decimal}

mutual
  pub data Json : Type 0 where
    null : Json
    flag : Bool → Json
    num : ℕ → Json
    str : String → Json
    arr : Items → Json
    obj : Fields → Json

  pub data Items : Type 0 where
    nil : Items
    cons : Json → Items → Items

  pub data Fields : Type 0 where
    end : Fields
    field : String → Json → Fields → Fields

-- `json.dumps` with sorted keys, and also with `ensure_ascii` as it is by default, the hexadecimal SHA-256 of a text's UTF-8, `str` of a list or a
-- mapping, `str.upper` and `str.lower`
pub record Codec : Type 0 where
  pub canonical_json : Json → String
  pub ascii_json : Json → String
  pub sha256_hex : String → String
  pub repr : Json → String
  pub upper : String → String
  pub lower : String → String

unfoldable pub sha256_json : Codec → Json → String
sha256_json codec value = codec.sha256_hex (codec.canonical_json value)

abbrev pub is_mapping : Json → Bool
is_mapping (obj fields) = true
is_mapping _ = false

-- `isinstance(value, Mapping) and value`
abbrev pub is_nonempty_mapping : Json → Bool
is_nonempty_mapping (obj (field k v rest)) = true
is_nonempty_mapping _ = false

-- `value.get(key)`, `null` where there is no such key
unfoldable pub get_field : String → Fields → Json
get_field key end = null
get_field key (field k v rest) = if k == key then v else get_field key rest

-- `value[key] = item`
unfoldable pub set_field : String → Json → Fields → Fields
set_field key item end = field key item end
set_field key item (field k v rest) =
    if k == key then field k item rest else field k v (set_field key item rest)

-- `str(value or default)`
unfoldable pub text_or : Codec → String → Json → String
text_or codec default null = default
text_or codec default (flag true) = "True"
text_or codec default (flag false) = default
text_or codec default (num zero) = default
text_or codec default (num (suc n)) = decimal (suc n)
text_or codec default (str s) = if s == "" then default else s
text_or codec default (arr nil) = default
text_or codec default (arr (cons x xs)) = codec.repr (arr (cons x xs))
text_or codec default (obj end) = default
text_or codec default (obj (field k v rest)) = codec.repr (obj (field k v rest))
