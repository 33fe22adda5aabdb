-- ===== src/Pipeline/Shape.antt =====
-- What a `persistValidatedDraft` of src/solver/pipeline.ts that returns has done, by its branch.
use gto_poker_daily_spots_ba.Prelude.{
  suc, ◌≡◌, refl, inl, inr, [], ◌∷◌, ◌++◌, none, some, Key, Time, ok, find, arith, Option-cases,
  Result-cases, id-find, find-append, ◌∙◌, ==_self, subst,
}
use gto_poker_daily_spots_ba.Store.{Spot, SpotVersion}
use gto_poker_daily_spots_ba.Jobs.{job_id}
use gto_poker_daily_spots_ba.Pipeline.{
  SolverRun, PipelineTables, PersistRunInput, Draft, run_id, run_source, version_key, spot_key,
  finish_job, latest_version, ensure_run, ensure_spot, Persisted, new_version, persist_existing,
  persist_new,
}

-- Only the job's row has changed.
pub record IsReplay (hash : Key → Key) (d : Draft) (t t' : PipelineTables) (p : Persisted)
    : Type 0 where
  pub row : find version_key d.spot_version_id t.db.versions ≡ some p.version
  pub public_hash : p.version.public_payload_sha256 ≡ hash d.public_payload
  pub private_hash : p.version.private_payload_sha256 ≡ hash d.private_payload
  pub run : find run_id p.version.solver_run_id t.runs ≡ some p.run
  pub spot : find spot_key p.version.spot_id t.db.spots ≡ some p.spot
  pub db : t'.db ≡ t.db
  pub runs : t'.runs ≡ t.runs

-- The run was there, or it is the one new row.
pub data RunIs (source : Key) (t t' : PipelineTables) (r : SolverRun) : Type 0 where
  reused : find run_source source t.runs ≡ some r → t'.runs ≡ t.runs → RunIs source t t' r
  created :
      find run_source source t.runs ≡ none
      → r.id ≡ t.next_run_id
      → r.source_hash ≡ source
      → t'.runs ≡ t.runs ++ r ∷ []
      → RunIs source t t' r

pub record IsNew (hash : Key → Key) (d : Draft) (now : Time) (t t' : PipelineTables) (p : Persisted)
    : Type 0 where
  pub absent : find version_key d.spot_version_id t.db.versions ≡ none
  pub version :
      p.version
      ≡ new_version hash d d.spot_id (suc (latest_version d.spot_id t.db.versions)) p.run.id now
  pub versions : t'.db.versions ≡ t.db.versions ++ p.version ∷ []
  pub slots : t'.db.slots ≡ t.db.slots
  pub run : RunIs d.envelope.source_hash t t' p.run
  pub spot : find spot_key d.spot_id t'.db.spots ≡ some p.spot

pub existing-IsReplay :
    (hash : Key → Key) (input : PersistRunInput) (d : Draft) (v : SpotVersion) (now : Time)
    (t t' : PipelineTables) (p : Persisted)
    → find version_key d.spot_version_id t.db.versions ≡ some v
    → persist_existing hash input d v now t ≡ ok (p, t')
    → IsReplay hash d t t' p
unfolding persist_existing finish_job
existing-IsReplay hash input d v now t t' p e h =
    elim (Option-cases (find run_id v.solver_run_id t.runs)) [
      | inl n ↦ absurd (ground arith)
      | inr (r, n) ↦ elim (Option-cases (find spot_key v.spot_id t.db.spots)) [
        | inl m ↦ absurd (ground arith)
        | inr (s, m) ↦ elim (Option-cases (find job_id input.job_id t.jobs)) [
          | inl j ↦ absurd (ground arith)
          | inr (j, q) ↦ record {
            row = ground arith;
            public_hash = ground arith;
            private_hash = ground arith;
            run = ground arith;
            spot = ground arith;
            db = ground arith;
            runs = ground arith;
          }
        ]
      ]
    ]

-- The rows that `ensure_run` and `ensure_spot` give.
ensure_run-RunIs :
    (input : PersistRunInput) (source : Key) (t t1 : PipelineTables) (r : SolverRun)
    → ensure_run input source t ≡ ok (r, t1)
    → RunIs source t t1 r × (t1.db ≡ t.db)
unfolding ensure_run
ensure_run-RunIs input source t t1 r h = elim (Option-cases (find run_source source t.runs)) [
  | inr (x, e) ↦ (reused (ground arith) (ground arith), ground arith)
  | inl e ↦ (created e (ground arith) (ground arith) (ground arith), ground arith)
]

pub record IsEnsured (id : Key) (t t' : PipelineTables) (s : Spot) : Type 0 where
  pub key : s.id ≡ id
  pub row : find spot_key id t'.db.spots ≡ some s
  pub versions : t'.db.versions ≡ t.db.versions
  pub slots : t'.db.slots ≡ t.db.slots
  pub runs : t'.runs ≡ t.runs
  pub jobs : t'.jobs ≡ t.jobs

ensure_spot-IsEnsured :
    (id : Key) (t : PipelineTables) → IsEnsured id t (ensure_spot id t).1 (ensure_spot id t).0
unfolding ensure_spot find
ensure_spot-IsEnsured id t = elim (Option-cases (find spot_key id t.db.spots)) [
  | inr (s, e) ↦
      rw (ensure_spot, e)
        (record {
          key = id-find spot_key id t.db.spots s e;
          row = e;
          versions = refl;
          slots = refl;
          runs = refl;
          jobs = refl;
        })
  | inl e ↦
      rw (ensure_spot, e)
        (record {
          key = refl;
          row = find-append spot_key id t.db.spots _ ∙ rw (e, find, ==_self id) refl;
          versions = refl;
          slots = refl;
          runs = refl;
          jobs = refl;
        })
]

pub persist_new-IsNew :
    (hash : Key → Key) (input : PersistRunInput) (d : Draft) (now : Time) (t t' : PipelineTables)
    (p : Persisted)
    → find version_key d.spot_version_id t.db.versions ≡ none
    → persist_new hash input d now t ≡ ok (p, t')
    → IsNew hash d now t t' p
unfolding persist_new finish_job
persist_new-IsNew hash input d now t t' p e h =
    elim (Result-cases (ensure_run input d.envelope.source_hash t)) [
      | inr (x, q) ↦ absurd (ground arith)
      | inl ((r, t1), q) ↦ after_run r t1 q (ensure_run-RunIs input d.envelope.source_hash t t1 r q)
    ]
  where
    moved :
        (r : SolverRun) (t1 : PipelineTables)
        → t'.runs ≡ t1.runs
        → RunIs d.envelope.source_hash t t1 r
        → RunIs d.envelope.source_hash t t' r
    moved r t1 e (reused f u) = reused f (e ∙ u)
    moved r t1 e (created f k s u) = created f k s (e ∙ u)

    after_run :
        (r : SolverRun) (t1 : PipelineTables)
        → ensure_run input d.envelope.source_hash t ≡ ok (r, t1)
        → RunIs d.envelope.source_hash t t1 r × (t1.db ≡ t.db)
        → IsNew hash d now t t' p
    after_run r t1 q w =
        let z = ensure_spot-IsEnsured d.spot_id t1 in
        let (s, t2) = ensure_spot d.spot_id t1 in
        elim (Option-cases (find job_id input.job_id t1.jobs)) [
          | inl n ↦ absurd (ground (arith, z.jobs))
          | inr (j, n) ↦ record {
            absent = e;
            version = ground (arith, w.1, z);
            versions = ground (arith, w.1, z);
            slots = ground (arith, w.1, z);
            run =
                subst (RunIs d.envelope.source_hash t t') (ground (arith, z))
                  (moved r t1 (ground (arith, z)) w.0);
            spot = ground (arith, z);
          }
        ]
