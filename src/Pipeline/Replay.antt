-- ===== src/Pipeline/Replay.antt =====
-- Persisting a draft of src/solver/pipeline.ts once more.
use gto_poker_daily_spots_ba.Prelude.{
  ◌<◌, ◌==◌, ◌≡◌, refl, ◌∙◌, ◌⊎◌, inl, inr, List, [], ◌∷◌, none, some, Key, Time, ok, find, update,
  find-append, find-cons, DistinctKeys, All, arith, Bool-cases, Result-cases, subst, ==_self,
}
use gto_poker_daily_spots_ba.Jobs.{Job, job_id}
use gto_poker_daily_spots_ba.Normalized.{validate_normalized_envelope}
use gto_poker_daily_spots_ba.Pipeline.{
  SolverRun, PipelineTables, PersistRunInput, Draft, run_id, run_source, version_key, spot_key,
  finish_job, succeed, Persisted, persist_existing, persist_validated_draft,
}
use gto_poker_daily_spots_ba.Pipeline.Shape.{IsReplay, RunIs, reused, created, IsNew}
use gto_poker_daily_spots_ba.Pipeline.Immutable.{persist-cases}

-- Run keys differ, and the ones to come are new.
pub record HasRunKeys (t : PipelineTables) : Type 0 where
  pub distinct : DistinctKeys run_id t.runs
  pub fresh : All (λ r. r.id < t.next_run_id) t.runs

find-by_id :
    (k : Key) (xs : List SolverRun) (x : SolverRun)
    → DistinctKeys run_id xs
    → find run_source k xs ≡ some x
    → find run_id x.id xs ≡ some x
unfolding find
find-by_id k [] x d e = absurd (cc)
find-by_id k (y ∷ xs) x d e = elim (Bool-cases (y.source_hash == k)) [
  | inl q ↦
      (let same : y ≡ x = ground arith in
        subst (λ z. find run_id z.id (y ∷ xs) ≡ some z) same (rw (find, ==_self y.id) refl))
  | inr q ↦ find-cons run_id y xs x d.0 (find-by_id k xs x d.1 (rw q at e))
]

find-fresh : (k : Key) (xs : List SolverRun) → All (λ r. r.id < k) xs → find run_id k xs ≡ none
unfolding find
find-fresh k [] h = refl
find-fresh k (x ∷ xs) h = ground (arith, h.0, find-fresh k xs h.1)

run-there :
    (source : Key) (t t' : PipelineTables) (r : SolverRun)
    → HasRunKeys t
    → RunIs source t t' r
    → find run_id r.id t'.runs ≡ some r
unfolding find
run-there source t t' r k (reused f e) = rw e (find-by_id source t.runs r k.distinct f)
run-there source t t' r k (created f i s e) = rw e (
    find-append run_id r.id t.runs (r ∷ [])
    ∙ rw (rw (← i) at (find-fresh t.next_run_id t.runs k.fresh)) (ground arith))

-- The rows that the second run reads are there after the first.
pub record IsReady (hash : Key → Key) (d : Draft) (t' : PipelineTables) (p : Persisted)
    : Type 0 where
  pub row : find version_key d.spot_version_id t'.db.versions ≡ some p.version
  pub public_hash : p.version.public_payload_sha256 ≡ hash d.public_payload
  pub private_hash : p.version.private_payload_sha256 ≡ hash d.private_payload
  pub run : find run_id p.version.solver_run_id t'.runs ≡ some p.run
  pub spot : find spot_key p.version.spot_id t'.db.spots ≡ some p.spot

IsReplay-IsReady :
    (hash : Key → Key) (d : Draft) (t t' : PipelineTables) (p : Persisted)
    → IsReplay hash d t t' p
    → IsReady hash d t' p
IsReplay-IsReady hash d t t' p x = record {
  row = rw x.db x.row;
  public_hash = x.public_hash;
  private_hash = x.private_hash;
  run = rw x.runs x.run;
  spot = rw x.db x.spot;
}

IsNew-IsReady :
    (hash : Key → Key) (d : Draft) (now : Time) (t t' : PipelineTables) (p : Persisted)
    → HasRunKeys t
    → IsNew hash d now t t' p
    → IsReady hash d t' p
unfolding find
IsNew-IsReady hash d now t t' p k x = record {
  row = rw x.versions (
      find-append version_key d.spot_version_id t.db.versions (p.version ∷ [])
      ∙ rw x.absent (rw x.version (ground arith)));
  public_hash = ground (arith, x.version);
  private_hash = ground (arith, x.version);
  run =
      (let e : p.run.id ≡ p.version.solver_run_id = ground (arith, x.version) in
        subst (λ i. find run_id i t'.runs ≡ some p.run) e
          (run-there d.envelope.source_hash t t' p.run k x.run));
  spot =
      (let e : d.spot_id ≡ p.version.spot_id = ground (arith, x.version) in
        subst (λ i. find spot_key i t'.db.spots ≡ some p.spot) e x.spot);
}

again :
    (hash : Key → Key) (input : PersistRunInput) (d : Draft) (now : Time) (t : PipelineTables)
    (p : Persisted) (j : Job)
    → IsReady hash d t p
    → find job_id input.job_id t.jobs ≡ some j
    → persist_existing hash input d p.version now t
      ≡ ok (
        p,
        record t {
          jobs = update job_id input.job_id (succeed input.attempt_number none now) t.jobs;
        },
      )
unfolding persist_existing finish_job
again hash input d now t p j x f = ground (
  arith,
  x.public_hash,
  x.private_hash,
  x.run,
  x.spot,
  f,
  ==_self (hash d.public_payload),
  ==_self (hash d.private_payload),
)

-- Persisting the same draft again, for any job that is there, returns the same version, run and spot,
-- and changes nothing but the row of that job, which succeeds without taking the run over.
pub persist-again :
    (hash : Key → Key) (input input' : PersistRunInput) (d : Draft) (now later : Time)
    (t t' : PipelineTables) (p : Persisted) (j : Job)
    → HasRunKeys t
    → persist_validated_draft hash input d now t ≡ ok (p, t')
    → find job_id input'.job_id t'.jobs ≡ some j
    → persist_validated_draft hash input' d later t'
      ≡ ok (
        p,
        record t' {
          jobs = update job_id input'.job_id (succeed input'.attempt_number none later) t'.jobs;
        },
      )
unfolding persist_validated_draft
persist-again hash input input' d now later t t' p j k h f =
    elim (Result-cases (validate_normalized_envelope d.envelope)) [
      | inr (x, q) ↦ absurd (ground arith)
      | inl (e, q) ↦
          let ready = is_ready (persist-cases hash input d now t t' p h) in
          rw (persist_validated_draft, q, ready.row) (again hash input' d later t' p j ready f)
    ]
  where
    is_ready : IsReplay hash d t t' p ⊎ IsNew hash d now t t' p → IsReady hash d t' p
    is_ready (inl x) = IsReplay-IsReady hash d t t' p x
    is_ready (inr x) = IsNew-IsReady hash d now t t' p k x
