-- ===== src/PrivateFields.antt =====
-- `assertNoPrivateFields` of src/solver/normalized.ts: no field of a public payload has the name of a
-- private one, at any depth.
pub mod Found
mod Examples
use gto_poker_daily_spots_ba.Prelude.{
  ℕ, suc, Bool, true, false, List, [], ◌∷◌, ◌++◌, Option, none, some, Result, ok, err, any, Text,
  same_text,
}
use gto_poker_daily_spots_ba.Json.{
  Json, null, boolean, number, text, array, object, Items, nil, cons, Fields, end, field,
}

pub data Step : Type 0 where
  key : Text → Step
  index : ℕ → Step

-- "privateSolutionPayload", "gtoFrequencies", "frequencies", "reachedRanges",
-- "reachWeight", "strategy", "solution".
abbrev pub forbidden_public_keys : List Text
forbidden_public_keys =
    (112 ∷ 114 ∷ 105 ∷ 118 ∷ 97 ∷ 116 ∷ 101 ∷ 83 ∷ 111 ∷ 108 ∷ 117 ∷ 116 ∷ 105 ∷ 111 ∷ 110 ∷ 80 ∷ 97
      ∷ 121 ∷ 108 ∷ 111 ∷ 97 ∷ 100 ∷ [])
    ∷ (103 ∷ 116 ∷ 111 ∷ 70 ∷ 114 ∷ 101 ∷ 113 ∷ 117 ∷ 101 ∷ 110 ∷ 99 ∷ 105 ∷ 101 ∷ 115 ∷ [])
    ∷ (102 ∷ 114 ∷ 101 ∷ 113 ∷ 117 ∷ 101 ∷ 110 ∷ 99 ∷ 105 ∷ 101 ∷ 115 ∷ [])
    ∷ (114 ∷ 101 ∷ 97 ∷ 99 ∷ 104 ∷ 101 ∷ 100 ∷ 82 ∷ 97 ∷ 110 ∷ 103 ∷ 101 ∷ 115 ∷ [])
    ∷ (114 ∷ 101 ∷ 97 ∷ 99 ∷ 104 ∷ 87 ∷ 101 ∷ 105 ∷ 103 ∷ 104 ∷ 116 ∷ [])
    ∷ (115 ∷ 116 ∷ 114 ∷ 97 ∷ 116 ∷ 101 ∷ 103 ∷ 121 ∷ [])
    ∷ (115 ∷ 111 ∷ 108 ∷ 117 ∷ 116 ∷ 105 ∷ 111 ∷ 110 ∷ [])
    ∷ []

abbrev pub is_forbidden : Text → Bool
is_forbidden k = any (same_text k) forbidden_public_keys

abbrev pub or_later : Option (List Step) → Option (List Step) → Option (List Step)
or_later (some p) later = some p
or_later none later = later

abbrev pub this_or : Bool → List Step → Option (List Step) → Option (List Step)
this_or true path later = some path
this_or false path later = later

-- The path of the first private field, below a value at `path`.
unfoldable mutual
  pub private_field : List Step → Json → Option (List Step)
  private_field path null = none
  private_field path (boolean b) = none
  private_field path (number t) = none
  private_field path (text t) = none
  private_field path (array xs) = private_item path 0 xs
  private_field path (object fs) = private_entry path fs

  pub private_item : List Step → ℕ → Items → Option (List Step)
  private_item path i nil = none
  private_item path i (cons x xs) =
      or_later (private_field (path ++ index i ∷ []) x) (private_item path (suc i) xs)

  pub private_entry : List Step → Fields → Option (List Step)
  private_entry path end = none
  private_entry path (field k v fs) =
      this_or (is_forbidden k) (path ++ key k ∷ [])
        (or_later (private_field (path ++ key k ∷ []) v) (private_entry path fs))

unfoldable pub assert_no_private_fields : Json → Result (List Step) (Unit {0})
assert_no_private_fields value = elim (private_field [] value) [
  | none ↦ ok tt
  | some path ↦ err path
]
