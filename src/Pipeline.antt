-- ===== src/Pipeline.antt =====
-- `persistValidatedDraft` of src/solver/pipeline.ts: a solved spot becomes a validated version. The
-- hash of a payload is a parameter; payloads and hashes are texts that are only compared.
pub mod Shape
pub mod Immutable
pub mod Replay
mod Examples
use gto_poker_daily_spots_ba.Prelude.{
  ℕ, suc, ◌+◌, max, ◌==◌, not, ◌||◌, ◌&&◌, Bool, true, false, if◌then◌else◌, List, [], ◌∷◌, ◌++◌,
  Option, none, some, Key, Time, Result, ok, err, guard, or_throw, ◌>>=◌, ◌>>◌, find, update, any,
}
use gto_poker_daily_spots_ba.Store.{VersionStatus, SpotStatus, Spot, SpotVersion, Db}
use gto_poker_daily_spots_ba.Jobs.{Job, JobStatus, job_id}
use gto_poker_daily_spots_ba.Normalized.{Envelope, EnvelopeError, validate_normalized_envelope}

-- The columns of `SolverRun` that this code compares.
pub record SolverRun : Type 0 where
  pub id : Key
  pub job_id : Key
  pub attempt_number : ℕ
  pub source_hash : Key
  pub input_sha256 : Option Key
  pub output_sha256 : Option Key

pub record PipelineTables : Type 0 where
  pub db : Db
  pub runs : List SolverRun
  pub jobs : List Job
  pub next_run_id : Key

pub record PersistRunInput : Type 0 where
  pub job_id : Key
  pub attempt_number : ℕ
  pub input_sha256 : Option Key
  pub output_sha256 : Option Key

-- An envelope with the identifiers and payloads that are stored.
pub record Draft : Type 0 where
  pub envelope : Envelope
  pub spot_id : Key
  pub spot_version_id : Key
  pub public_payload : Key
  pub private_payload : Key

pub data PipelineError : Type 0 where
  invalid_envelope : EnvelopeError → PipelineError
  different_content source_conflict job_not_found run_not_found spot_not_found unique_violation :
      PipelineError

abbrev pub run_id : SolverRun → Key
run_id r = r.id

abbrev pub run_source : SolverRun → Key
run_source r = r.source_hash

abbrev pub version_key : SpotVersion → Key
version_key v = v.id

abbrev pub spot_key : Spot → Key
spot_key s = s.id

-- `given && existing !== given`.
abbrev pub mismatch : Option Key → Option Key → Bool
mismatch none existing = false
mismatch (some given) none = true
mismatch (some given) (some existing) = not (existing == given)

-- The update of the job, in either branch; `run` is the new value of `successfulRunId`, if it is set.
abbrev pub succeed : ℕ → Option Key → Time → Job → Job
succeed attempt run now j = record j {
  status = JobStatus.succeeded;
  attempt_count = attempt;
  finished_at = some now;
  successful_run_id = elim run [ none ↦ j.successful_run_id | some r ↦ some r ];
}

unfoldable pub finish_job :
    PersistRunInput → Option Key → Time → PipelineTables → Result PipelineError PipelineTables
finish_job input run now t = do
  j ← or_throw (find job_id input.job_id t.jobs) job_not_found
  ok (record t { jobs = update job_id input.job_id (succeed input.attempt_number run now) t.jobs })

-- The greatest version number of a spot, 0 if it has none.
unfoldable pub latest_version : Key → List SpotVersion → ℕ
latest_version spot [] = 0
latest_version spot (v ∷ rest) =
    if v.spot_id == spot then max v.version (latest_version spot rest) else latest_version spot rest

-- The run with the source hash, which has to agree, or a new one.
unfoldable pub ensure_run :
    PersistRunInput → Key → PipelineTables → Result PipelineError (SolverRun × PipelineTables)
ensure_run input source t = elim (find run_source source t.runs) [
  | some r ↦
      if mismatch input.input_sha256 r.input_sha256 || mismatch input.output_sha256 r.output_sha256
      then err source_conflict
      else ok (r, t)
  | none ↦
      let r : SolverRun = record {
        id = t.next_run_id;
        job_id = input.job_id;
        attempt_number = input.attempt_number;
        source_hash = source;
        input_sha256 = input.input_sha256;
        output_sha256 = input.output_sha256;
      } in
      if any
        (λ (x : SolverRun). x.job_id == input.job_id && x.attempt_number == input.attempt_number)
        t.runs
      then err unique_violation
      else ok (r, record t { runs = t.runs ++ r ∷ []; next_run_id = suc t.next_run_id })
]

unfoldable pub ensure_spot : Key → PipelineTables → Spot × PipelineTables
ensure_spot id t = elim (find spot_key id t.db.spots) [
  | some s ↦ (s, t)
  | none ↦
      let s : Spot = record { id = id; status = SpotStatus.draft; current_version_id = none } in
      (s, record t { db = record t.db { spots = t.db.spots ++ s ∷ [] } })
]

pub record Persisted : Type 0 where
  pub run : SolverRun
  pub spot : Spot
  pub version : SpotVersion

abbrev pub new_version : (Key → Key) → Draft → Key → ℕ → Key → Time → SpotVersion
new_version hash d spot number run now = record {
  id = d.spot_version_id;
  spot_id = spot;
  version = number;
  schema_version = 3;
  solver_run_id = run;
  public_payload = d.public_payload;
  private_payload = d.private_payload;
  public_payload_sha256 = hash d.public_payload;
  private_payload_sha256 = hash d.private_payload;
  status = VersionStatus.validated;
  validated_at = some now;
  approved_at = none;
  scheduled_at = none;
  published_at = none;
  superseded_at = none;
}

-- The branch for a version that is there already.
unfoldable pub persist_existing :
    (Key → Key)
    → PersistRunInput
    → Draft
    → SpotVersion
    → Time
    → PipelineTables
    → Result PipelineError (Persisted × PipelineTables)
persist_existing hash input d v now t = do
  guard
      (v.public_payload_sha256 == hash d.public_payload
        && v.private_payload_sha256 == hash d.private_payload)
      different_content
  r ← or_throw (find run_id v.solver_run_id t.runs) run_not_found
  s ← or_throw (find spot_key v.spot_id t.db.spots) spot_not_found
  t1 ← finish_job input none now t
  ok (record { run = r; spot = s; version = v }, t1)

-- `existingRun ? {} : { successfulRunId: run.id }`.
abbrev pub owned_run : Option SolverRun → Key → Option Key
owned_run none run = some run
owned_run (some existing) run = none

-- The branch for a new version.
unfoldable pub persist_new :
    (Key → Key)
    → PersistRunInput
    → Draft
    → Time
    → PipelineTables
    → Result PipelineError (Persisted × PipelineTables)
persist_new hash input d now t = do
  (r, t1) ← ensure_run input d.envelope.source_hash t
  let (s, t2) = ensure_spot d.spot_id t1
  let v = new_version hash d s.id (suc (latest_version s.id t2.db.versions)) r.id now
  let t3 = record t2 { db = record t2.db { versions = t2.db.versions ++ v ∷ [] } }
  let owned = owned_run (find run_source d.envelope.source_hash t.runs) r.id
  t4 ← finish_job input owned now t3
  ok (record { run = r; spot = s; version = v }, t4)

abbrev pub checked : {A : Type 0} → Result EnvelopeError A → Result PipelineError A
checked (ok a) = ok a
checked (err e) = err (invalid_envelope e)

unfoldable pub persist_validated_draft :
    (Key → Key)
    → PersistRunInput
    → Draft
    → Time
    → PipelineTables
    → Result PipelineError (Persisted × PipelineTables)
persist_validated_draft hash input d now t = do
  e ← checked (validate_normalized_envelope d.envelope)
  elim (find version_key d.spot_version_id t.db.versions) [
    | some v ↦ persist_existing hash input d v now t
    | none ↦ persist_new hash input d now t
  ]
