-- ===== src/Pipeline/Immutable.antt =====
-- `persistValidatedDraft` of src/solver/pipeline.ts never changes a version or a run.
use gto_poker_daily_spots_ba.Prelude.{
  ℕ, ◌<◌, ◌≤◌, Bool, false, ◌≡◌, refl, ◌∙◌, ◌⊎◌, inl, inr, List, [], ◌∷◌, ◌++◌, none, some, Key,
  Time, ok, find, find-append, All, All-map, bit, arith, Option-cases, Result-cases,
}
use gto_poker_daily_spots_ba.Store.{VersionStatus, SpotVersion, Db}
use gto_poker_daily_spots_ba.Publication.Moves.{status_of, holds, awaits, appears}
use gto_poker_daily_spots_ba.Publication.Consistent.{Consistent}
use gto_poker_daily_spots_ba.Normalized.{validate_normalized_envelope}
use gto_poker_daily_spots_ba.Pipeline.{
  SolverRun, PipelineTables, PersistRunInput, Draft, run_source, version_key, latest_version,
  Persisted, persist_validated_draft,
}
use gto_poker_daily_spots_ba.Pipeline.Shape.{
  IsReplay, RunIs, reused, created, IsNew, existing-IsReplay, persist_new-IsNew,
}

-- A run that returns took one of the two branches.
pub persist-cases :
    (hash : Key → Key) (input : PersistRunInput) (d : Draft) (now : Time) (t t' : PipelineTables)
    (p : Persisted)
    → persist_validated_draft hash input d now t ≡ ok (p, t')
    → IsReplay hash d t t' p ⊎ IsNew hash d now t t' p
unfolding persist_validated_draft
persist-cases hash input d now t t' p h =
    elim (Result-cases (validate_normalized_envelope d.envelope)) [
      | inr (x, q) ↦ absurd (ground arith)
      | inl (e, q) ↦ elim (Option-cases (find version_key d.spot_version_id t.db.versions)) [
        | inr (v, n) ↦ inl (existing-IsReplay hash input d v now t t' p n (ground arith))
        | inl n ↦ inr (persist_new-IsNew hash input d now t t' p n (ground arith))
      ]
    ]

latest-bounds :
    (spot : Key) (vs : List SpotVersion)
    → All (λ v. v.spot_id ≡ spot → v.version ≤ latest_version spot vs) vs
unfolding latest_version
latest-bounds spot [] = tt
latest-bounds spot (v ∷ vs) =
    (λ e. ground arith, All-map _ _ vs (λ w q e. ground (arith, q e)) (latest-bounds spot vs))

find-append_old :
    {A : Type 0} (id : A → ℕ) (k : ℕ) (xs ys : List A) (x : A)
    → find id k xs ≡ some x
    → find id k (xs ++ ys) ≡ some x
find-append_old id k xs ys x e = find-append id k xs ys ∙ rw e refl

-- What holds after a draft has been persisted.
pub record IsPersisted (hash : Key → Key) (d : Draft) (t t' : PipelineTables) (p : Persisted)
    : Type 0 where
  pub stored : find version_key d.spot_version_id t'.db.versions ≡ some p.version
  pub public_hash : p.version.public_payload_sha256 ≡ hash d.public_payload
  pub private_hash : p.version.private_payload_sha256 ≡ hash d.private_payload
  pub kept_versions :
      (k : Key) (v : SpotVersion)
      → find version_key k t.db.versions ≡ some v
      → find version_key k t'.db.versions ≡ some v
  pub kept_runs :
      (source : Key) (r : SolverRun)
      → find run_source source t.runs ≡ some r
      → find run_source source t'.runs ≡ some r
  pub agrees : Consistent t'.db
  pub numbered :
      find version_key d.spot_version_id t.db.versions ≡ none
      → All (λ v. v.spot_id ≡ p.version.spot_id → v.version < p.version.version) t.db.versions

kept_by_run :
    (source : Key) (t t' : PipelineTables) (r : SolverRun)
    → RunIs source t t' r
    → (k : Key) (x : SolverRun) → find run_source k t.runs ≡ some x
    → find run_source k t'.runs ≡ some x
kept_by_run source t t' r (reused f e) k x q = rw e q
kept_by_run source t t' r (created f i s e) k x q =
    rw e (find-append_old run_source k t.runs (r ∷ []) x q)

IsReplay-IsPersisted :
    (hash : Key → Key) (d : Draft) (t t' : PipelineTables) (p : Persisted)
    → Consistent t.db
    → IsReplay hash d t t' p
    → IsPersisted hash d t t' p
IsReplay-IsPersisted hash d t t' p c x = record {
  stored = rw x.db x.row;
  public_hash = x.public_hash;
  private_hash = x.private_hash;
  kept_versions = λ k v q. rw x.db q;
  kept_runs = λ k r q. rw x.runs q;
  agrees = rw x.db c;
  numbered = λ n. absurd (ground (arith, x.row));
}

-- A version that is neither scheduled nor published leaves the calendar in agreement.
validated-Consistent :
    (db db' : Db) (v : SpotVersion)
    → v.status ≡ VersionStatus.validated
    → db'.versions ≡ db.versions ++ v ∷ []
    → db'.slots ≡ db.slots
    → Consistent db
    → Consistent db'
unfolding find
validated-Consistent db db' v s e same c = record {
  scheduled_once = λ k. rw same (c.scheduled_once k ∙ quiet awaits refl k);
  published_once = λ k. rw same (c.published_once k ∙ quiet appears refl k);
  held_never = λ k. rw same (c.held_never k);
}
  where
    quiet :
        (p : VersionStatus → Bool)
        → p VersionStatus.validated ≡ false
        → (k : Key) → bit (holds p (status_of k db)) ≡ bit (holds p (status_of k db'))
    quiet p off k = rw e (ground (arith, s, off, find-append version_key k db.versions (v ∷ [])))

IsNew-IsPersisted :
    (hash : Key → Key) (d : Draft) (now : Time) (t t' : PipelineTables) (p : Persisted)
    → Consistent t.db
    → IsNew hash d now t t' p
    → IsPersisted hash d t t' p
unfolding find
IsNew-IsPersisted hash d now t t' p c x = record {
  stored = rw x.versions (
      find-append version_key d.spot_version_id t.db.versions (p.version ∷ [])
      ∙ rw x.absent (rw x.version (ground arith)));
  public_hash = ground (arith, x.version);
  private_hash = ground (arith, x.version);
  kept_versions =
      λ k v q. rw x.versions (find-append_old version_key k t.db.versions (p.version ∷ []) v q);
  kept_runs = kept_by_run d.envelope.source_hash t t' p.run x.run;
  agrees =
      validated-Consistent t.db t'.db p.version (ground (arith, x.version)) x.versions x.slots c;
  numbered = λ n.
      All-map _ _ t.db.versions (λ v q e. ground (arith, x.version, q))
        (latest-bounds d.spot_id t.db.versions);
}

-- On a calendar that agrees with the versions, a draft that is persisted leaves every version and
-- every run as it was. Its version is there afterwards, with the hashes of its payloads. A new
-- version has a greater number than all others of its spot, and the calendar still agrees.
pub persist-IsPersisted :
    (hash : Key → Key) (input : PersistRunInput) (d : Draft) (now : Time) (t t' : PipelineTables)
    (p : Persisted)
    → Consistent t.db
    → persist_validated_draft hash input d now t ≡ ok (p, t')
    → IsPersisted hash d t t' p
persist-IsPersisted hash input d now t t' p c h = elim (persist-cases hash input d now t t' p h) [
  | inl x ↦ IsReplay-IsPersisted hash d t t' p c x
  | inr x ↦ IsNew-IsPersisted hash d now t t' p c x
]
