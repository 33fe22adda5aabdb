-- ===== src/Json.antt =====
-- JSON values, and their canonical text: `canonicalJson` of src/solver/import-provenance.ts and
-- `canonical` of src/application/public-api.ts.
pub mod Canonical
mod Examples
use gto_poker_daily_spots_ba.Prelude.{
  ℕ, Bool, true, false, if◌then◌else◌, List, [], ◌∷◌, ◌++◌, map, Option, none, some, Text,
  same_text, sort_by,
}

-- A number is the text that it is printed as.
mutual
  pub data Json : Type 0 where
    null : Json
    boolean : Bool → Json
    number : Text → Json
    text : Text → Json
    array : Items → Json
    object : Fields → Json

  pub data Items : Type 0 where
    nil : Items
    cons : Json → Items → Items

  pub data Fields : Type 0 where
    end : Fields
    field : Text → Json → Fields → Fields

-- `value[key]`, on fields with distinct keys.
unfoldable pub get_field : Text → Fields → Option Json
get_field k end = none
get_field k (field j v fs) = if same_text j k then some v else get_field k fs

-- `undefined` on a value without such a field.
abbrev pub get : Text → Json → Option Json
get k (object fs) = get_field k fs
get k _ = none

abbrev pub comma : ℕ
comma = 44

-- `Array.prototype.join`.
unfoldable pub join : ℕ → List Text → Text
join c [] = []
join c (t ∷ []) = t
join c (t ∷ u ∷ rest) = t ++ c ∷ join c (u ∷ rest)

-- `before` is the order of `localeCompare`, `quote` is `JSON.stringify` of a text.
module _ (before : Text → Text → Bool) (quote : Text → Text) where
  abbrev pub key_order : Text × Text → Text × Text → Bool
  key_order a b = before a.0 b.0

  abbrev pub entry_text : Text × Text → Text
  entry_text (k, v) = quote k ++ 58 ∷ v

  abbrev pub object_text : List (Text × Text) → Text
  object_text entries = 123 ∷ join comma (map entry_text (sort_by key_order entries)) ++ 125 ∷ []

  unfoldable mutual
    pub canonical : Json → Text
    canonical null = 110 ∷ 117 ∷ 108 ∷ 108 ∷ []
    canonical (boolean true) = 116 ∷ 114 ∷ 117 ∷ 101 ∷ []
    canonical (boolean false) = 102 ∷ 97 ∷ 108 ∷ 115 ∷ 101 ∷ []
    canonical (number t) = t
    canonical (text t) = quote t
    canonical (array xs) = 91 ∷ join comma (canonical_items xs) ++ 93 ∷ []
    canonical (object fs) = object_text (canonical_fields fs)

    pub canonical_items : Items → List Text
    canonical_items nil = []
    canonical_items (cons x xs) = canonical x ∷ canonical_items xs

    pub canonical_fields : Fields → List (Text × Text)
    canonical_fields end = []
    canonical_fields (field k v fs) = (k, canonical v) ∷ canonical_fields fs
