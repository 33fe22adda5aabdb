-- ===== src/Migration/Forward.antt =====
-- What a complete run of src/solver/migrate-v3.ts leaves, and a second run.
use gto_poker_daily_spots_ba.Prelude.{
  suc, ◌+◌, Bool, true, false, ◌≡◌, refl, ◌∙◌, ap, inl, inr, List, [], ◌∷◌, ◌++◌, Option, none,
  some, Key, Result, ok, find, find-append, select, sort_by, subst, length-sort_by, All, All-append,
  length, arith, Option-cases, Result-cases, ==_self,
}
use gto_poker_daily_spots_ba.Store.{SpotVersion, Db}
use gto_poker_daily_spots_ba.Pipeline.{version_key, latest_version}
use gto_poker_daily_spots_ba.PublicSpot.{PublicSpot, SpotError, read_public_spot}
use gto_poker_daily_spots_ba.Migration.{
  MigrationCounts, is_chosen, by_spot, forward_copy, migrate_version, migrate_versions,
  migrate_legacy_spot_versions,
}

-- The versions that were there are as they were; the new ones have schema 3.
pub record IsForward (db db' : Db) : Type 0 where
  pub copies : List SpotVersion
  pub versions : db'.versions ≡ db.versions ++ copies
  pub current : All (λ (v : SpotVersion). v.schema_version ≡ 3) copies

append_nil : (xs : List SpotVersion) → xs ≡ xs ++ []
append_nil [] = refl
append_nil (x ∷ xs) = ap (λ t. x ∷ t) (append_nil xs)

append_assoc :
    (xs : List SpotVersion) (v : SpotVersion) (ys : List SpotVersion)
    → (xs ++ v ∷ []) ++ ys ≡ xs ++ v ∷ ys
append_assoc [] v ys = refl
append_assoc (x ∷ xs) v ys = ap (λ t. x ∷ t) (append_assoc xs v ys)

is_there : Option SpotVersion → Bool
is_there none = false
is_there (some v) = true

there_append :
    (k : Key) (vs more : List SpotVersion)
    → is_there (find version_key k vs) ≡ true
    → is_there (find version_key k (vs ++ more)) ≡ true
unfolding is_there
there_append k vs more e = elim (Option-cases (find version_key k vs)) [
  | inl n ↦ absurd (let missing : false ≡ true = rw n at e in cc)
  | inr (v, n) ↦ rw (find-append version_key k vs more, n) refl
]

there_new :
    (k : Key) (vs : List SpotVersion) (c : SpotVersion)
    → c.id ≡ k
    → is_there (find version_key k (vs ++ c ∷ [])) ≡ true
unfolding is_there find
there_new k [] c e = ground (arith, ==_self k)
there_new k (v ∷ vs) c e = ground (arith, there_new k vs c e)

legacy_append :
    (vs copies : List SpotVersion)
    → All (λ (v : SpotVersion). v.schema_version ≡ 3) copies
    → select (is_chosen none) (vs ++ copies) ≡ select (is_chosen none) vs
legacy_append [] [] all = refl
legacy_append [] (c ∷ copies) all = ground (arith, legacy_append [] copies all.1, all.0)
legacy_append (v ∷ vs) copies all = ground (arith, legacy_append vs copies all)

module _ (migrated_id : Key → Key) (payload : Key → PublicSpot) (store : PublicSpot → Key)
    (hash : Key → Key) (parse : PublicSpot → Result SpotError PublicSpot) where
  abbrev HasCopy : Db → SpotVersion → Type 0
  HasCopy db old = is_there (find version_key (migrated_id old.id) db.versions) ≡ true

  migrate_version-IsForward :
      (old : SpotVersion) (db db' : Db)
      → migrate_version migrated_id payload store hash parse old db ≡ ok db'
      → IsForward db db' × HasCopy db' old
  unfolding migrate_version forward_copy
  migrate_version-IsForward old db db' e =
      elim (Result-cases (read_public_spot parse (payload old.public_payload))) [
        | inr (thrown, n) ↦ absurd (ground arith)
        | inl (spot, n) ↦
            let copy =
              forward_copy migrated_id payload store hash parse old spot
                (suc (latest_version old.spot_id db.versions)) in
            let versions : db'.versions ≡ db.versions ++ copy ∷ [] = ground arith in
            (
              record { copies = copy ∷ []; versions = versions; current = (refl, tt) },
              ap (λ vs. is_there (find version_key (migrated_id old.id) vs)) versions
                  ∙ there_new (migrated_id old.id) db.versions copy refl,
            )
      ]

  append-IsForward : (a b c : Db) → IsForward a b → IsForward b c → IsForward a c
  append-IsForward a b c f g = record {
    copies = f.copies ++ g.copies;
    versions =
        g.versions ∙ ap (λ vs. vs ++ g.copies) f.versions ∙ assoc a.versions f.copies g.copies;
    current =
        All-append (λ (v : SpotVersion). v.schema_version ≡ 3) f.copies g.copies f.current
          g.current;
  }
    where
      assoc : (xs ys zs : List SpotVersion) → (xs ++ ys) ++ zs ≡ xs ++ (ys ++ zs)
      assoc = elim [ [] ↦ λ ys zs. refl | x ∷ (xs → ih) ↦ λ ys zs. ap (λ t. x ∷ t) (ih ys zs) ]

  keep_copy : (a b : Db) (old : SpotVersion) → IsForward a b → HasCopy a old → HasCopy b old
  keep_copy a b old f h =
      ap (λ vs. is_there (find version_key (migrated_id old.id) vs)) f.versions
      ∙ there_append (migrated_id old.id) a.versions f.copies h

  migrate_versions-IsForward :
      (olds : List SpotVersion) (counts counts' : MigrationCounts) (db db' : Db)
      → migrate_versions migrated_id payload store hash parse olds counts db ≡ ok (counts', db')
      → IsForward db db' × All (HasCopy db') olds
  unfolding migrate_versions is_there
  migrate_versions-IsForward [] counts counts' db db' e =
      let same : db ≡ db' = ground arith in
      (
        subst (IsForward db) same
            record { copies = []; versions = append_nil db.versions; current = tt },
        tt,
      )
  migrate_versions-IsForward (old ∷ rest) counts counts' db db' e =
      elim (Option-cases (find version_key (migrated_id old.id) db.versions)) [
        | inr (v, n) ↦
            let later =
              migrate_versions-IsForward rest
                (record counts { already_migrated = suc counts.already_migrated }) counts' db db'
                (ground arith) in
            let here : HasCopy db old = rw n refl in
            (later.0, (keep_copy db db' old later.0 here, later.1))
        | inl n ↦
            elim (Result-cases (migrate_version migrated_id payload store hash parse old db)) [
              | inr (thrown, m) ↦ absurd (ground arith)
              | inl (db1, m) ↦
                  let first = migrate_version-IsForward old db db1 m in
                  let later =
                    migrate_versions-IsForward rest
                      (record counts { migrated = suc counts.migrated }) counts' db1 db'
                      (ground arith) in
                  (
                    append-IsForward db db1 db' first.0 later.0,
                    (keep_copy db1 db' old later.0 first.1, later.1),
                  )
            ]
      ]

  skip_all :
      (olds : List SpotVersion) (counts : MigrationCounts) (db : Db)
      → All (HasCopy db) olds
      → migrate_versions migrated_id payload store hash parse olds counts db
        ≡ ok (record counts { already_migrated = counts.already_migrated + length olds }, db)
  unfolding migrate_versions is_there
  skip_all [] counts db all = ground arith
  skip_all (old ∷ rest) counts db all = ground (
    arith,
    skip_all rest (record counts { already_migrated = suc counts.already_migrated }) db all.1,
    all.0,
  )

  -- A complete migration leaves every version as it was and adds versions of schema 3 only. A second
  -- migration then finds the copy of each version of schema 2: it counts all of them as migrated
  -- already, and changes nothing.
  pub migrate_again :
      (db db' : Db) (counts : MigrationCounts)
      → migrate_legacy_spot_versions migrated_id payload store hash parse none db ≡ ok (counts, db')
      → IsForward db db'
        × (migrate_legacy_spot_versions migrated_id payload store hash parse none db'
            ≡ ok (
              record {
                migrated = 0;
                already_migrated = length (select (is_chosen none) db.versions);
              },
              db',
            ))
  unfolding migrate_legacy_spot_versions
  migrate_again db db' counts e =
      let olds = sort_by by_spot (select (is_chosen none) db.versions) in
      let none_yet : MigrationCounts = record { migrated = 0; already_migrated = 0 } in
      let done = migrate_versions-IsForward olds none_yet counts db db' e in
      let f = done.0 in
      let same : select (is_chosen none) db'.versions ≡ select (is_chosen none) db.versions =
        ap (select (is_chosen none)) f.versions ∙ legacy_append db.versions f.copies f.current in
      (
        f,
        rw (same) (
            skip_all olds none_yet db' done.1
            ∙ rw (length-sort_by by_spot (select (is_chosen none) db.versions)) (ground arith)),
      )
