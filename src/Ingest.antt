-- ===== src/Ingest.antt =====
-- `ingestSpot` of src/solver/ingest.ts: the files of a solver run are archived and checked, and become
-- a template, a job and a validated version. What `Outside` holds is not modelled here.
pub mod Sources
pub mod Stored
mod Examples
use gto_poker_daily_spots_ba.Prelude.{
  ℕ, zero, suc, ◌-◌, ◌==◌, leb, not, ◌&&◌, ◌||◌, Bool, true, false, if◌then◌else◌, List, [], ◌∷◌,
  ◌++◌, max, Option, none, some, Key, Time, Result, ok, err, guard, ◌>>=◌, ◌>>◌, length, get_or,
  find_first, Text,
}
use gto_poker_daily_spots_ba.Prelude.Int.{pos}
use gto_poker_daily_spots_ba.Archive.{
  ArchiveArtifact, ArchivedArtifact, ArchivedRun, ArchiveError, Files, Line, input_txt,
  output_result_json, solver_log, metadata_json, ArtifactName, same_name, archive_run,
  verify_archive,
}
use gto_poker_daily_spots_ba.Json.{Json, number, object, get}
use gto_poker_daily_spots_ba.Normalized.{EnvelopeError}
use gto_poker_daily_spots_ba.Normalized.Diversity.{assert_publishable_strategy_quality}
use gto_poker_daily_spots_ba.Quality
use gto_poker_daily_spots_ba.Quality.{QualityReport, QualityError, assess_solver_log}
use gto_poker_daily_spots_ba.Provenance.{ProvenanceError, get_of, assert_import_provenance}
use gto_poker_daily_spots_ba.Jobs.{Job, JobStatus}
use gto_poker_daily_spots_ba.Pipeline.{
  PipelineTables, PersistRunInput, Draft, Persisted, PipelineError, persist_validated_draft,
}
use gto_poker_daily_spots_ba.Replenish.{
  Template, TemplateConfig, CreateTemplateInput, ReplenishTables, ReplenishError,
  create_solver_template,
}
unfoldable pub use Sources.*

-- The options that are used after the paths are resolved; `name` and `title` are not modelled.
pub record IngestOptions : Type 0 where
  pub family_id : Key
  pub seed : Option Key

pub data IngestError : Type 0 where
  rejected : Rejection → IngestError
  archive_failed : ArchiveError → IngestError
  template_failed : ReplenishError → IngestError
  persist_failed : PipelineError → IngestError

-- The archive and the tables.
pub record IngestTables : Type 0 where
  pub files : Files
  pub templates : List Template
  pub next_template_id : Key
  pub pipeline : PipelineTables
  pub next_job_id : Key

pub record IngestResult : Type 0 where
  pub template_id : Key
  pub job_id : Key
  pub persisted : Persisted
  pub archive : ArchivedRun

abbrev pub Call : Type 0 → Type 0
Call A = Result IngestError A × IngestTables

abbrev pub then_call : {A B : Type 0} → Call A → (A → IngestTables → Call B) → Call B
then_call (ok a, w) next = next a w
then_call (err e, w) next = (err e, w)

-- The tables after a call of another component, or its error.
abbrev pub archived_in : IngestTables → Result ArchiveError (ArchivedRun × Files) → Call ArchivedRun
archived_in w (ok (run, files)) = (ok run, record w { files = files })
archived_in w (err e) = (err (archive_failed e), w)

abbrev pub verified_in :
    IngestTables → ArchivedRun → Result ArchiveError (Unit {0}) → Call ArchivedRun
verified_in w run (ok done) = (ok run, w)
verified_in w run (err e) = (err (archive_failed e), w)

abbrev pub template_in : IngestTables → ℕ → Result ReplenishError ReplenishTables → Call ℕ
template_in w version (ok t) =
    (ok version, record w { templates = t.templates; next_template_id = t.next_id })
template_in w version (err e) = (err (template_failed e), w)

abbrev pub persisted_in :
    IngestTables
    → (template job : Key) → ArchivedRun
    → Result PipelineError (Persisted × PipelineTables)
    → Call IngestResult
persisted_in w template job run (ok (p, t)) = (
  ok (record { template_id = template; job_id = job; persisted = p; archive = run }),
  record w { pipeline = t },
)
persisted_in w template job run (err e) = (err (persist_failed e), w)

abbrev pub same_template_family : Key → Template → Bool
same_template_family family t = t.family_id == family

unfoldable pub latest_template : Key → List Template → ℕ
latest_template family [] = 0
latest_template family (t ∷ rest) =
    let later = latest_template family rest in
    if same_template_family family t then max t.version later else later

-- The tables that `createSolverTemplate` works on.
abbrev pub template_tables : IngestTables → ReplenishTables
template_tables w = record {
  templates = w.templates;
  jobs = [];
  sent = [];
  next_id = w.next_template_id;
}

module _ (out : Outside) where
  -- `archiveRun`; a run that cannot be archived leaves the files as they are.
  abbrev pub archive_step : List ArchiveArtifact → IngestTables → Call ArchivedRun
  archive_step artifacts w = archived_in w (archive_run out.sha out.sha_lines artifacts w.files)

  abbrev pub verify_step : ArchivedRun → IngestTables → Call ArchivedRun
  verify_step run w = verified_in w run (verify_archive out.sha out.sha_lines run w.files)

  -- The `catch`: the metadata with the reason is archived, and the error thrown again.
  unfoldable pub reject_run :
      {A : Type 0} → SourceFiles → ArchivedRun → Rejection → IngestTables → Call A
  reject_run s archived r w =
      then_call
        (archive_step
          (with_metadata s (out.rejected_metadata archived.source_hash r (missing_artifacts s))) w)
        (λ run w1. then_call (verify_step run w1) (λ verified w2. (err (rejected r), w2)))

  abbrev pub sha_named : ArtifactName → List ArchivedArtifact → Option Key
  sha_named n artifacts =
      elim (find_first (λ (a : ArchivedArtifact). same_name a.name n) artifacts) [
        | none ↦ none
        | some a ↦ some a.sha256
      ]

  abbrev pub run_input : Key → ArchivedRun → PersistRunInput
  run_input job archived = record {
    job_id = job;
    attempt_number = 1;
    input_sha256 = sha_named input_txt archived.artifacts;
    output_sha256 = sha_named output_result_json archived.artifacts;
  }

  abbrev pub template_input : IngestOptions → Json → IngestTables → CreateTemplateInput
  template_input o provenance w = record {
    family_id = o.family_id;
    version = suc (latest_template o.family_id w.templates);
    config = out.read_config (config_of provenance);
    default_seed = o.seed;
  }

  -- The template and the job are created, each by a statement of its own.
  unfoldable pub create_template : IngestOptions → Json → Time → IngestTables → Call ℕ
  create_template o provenance now w =
      template_in w (suc (latest_template o.family_id w.templates))
        (create_solver_template (template_input o provenance w) now (template_tables w))

  abbrev pub seed_or_default : IngestOptions → ℕ → Key
  seed_or_default o version = elim o.seed [
    | some k ↦ k
    | none ↦ out.default_seed o.family_id version
  ]

  -- `solverJob.create`: the other columns have their defaults.
  abbrev pub imported_job : Key → Key → Key → Time → Job
  imported_job id template seed now = record {
    id = id;
    template_id = template;
    effective_seed = seed;
    pg_boss_job_id = none;
    status = JobStatus.queued;
    priority = pos 0;
    attempt_count = 0;
    max_attempts = 3;
    next_attempt_at = now;
    lease_owner = none;
    lease_expires_at = none;
    heartbeat_at = none;
    last_error_code = none;
    last_error_message = none;
    successful_run_id = none;
    created_at = now;
    started_at = none;
    finished_at = none;
  }

  unfoldable pub create_job : IngestOptions → (template : Key) → ℕ → Time → IngestTables → Call Key
  create_job o template version now w = (
    ok w.next_job_id,
    record w {
      pipeline = record w.pipeline {
        jobs =
            w.pipeline.jobs
            ++ imported_job w.next_job_id template (seed_or_default o version) now ∷ [];
      };
      next_job_id = suc w.next_job_id;
    },
  )

  -- `template` is the key of the new template.
  unfoldable pub store_draft :
      SourceFiles
      → ArchivedRun
      → Draft
      → (template job : Key) → Time
      → IngestTables
      → Call IngestResult
  store_draft s archived draft template job now w =
      then_call (archive_step (with_metadata s (out.metadata archived.source_hash template job)) w)
        (λ run w1. then_call (verify_step run w1) (λ verified w2. persisted_in w2 template job run (
          persist_validated_draft out.payload_hash (run_input job archived) draft now w2.pipeline)))

  unfoldable pub accept_run :
      IngestOptions
      → SourceFiles
      → ArchivedRun
      → Json
      → Draft
      → Time
      → IngestTables
      → Call IngestResult
  accept_run o s archived provenance draft now w =
      then_call (create_template o provenance now w) (λ version w1.
        then_call (create_job o w.next_template_id version now w1)
          (λ job w2. store_draft s archived draft w.next_template_id job now w2))

  abbrev pub decide :
      IngestOptions
      → SourceFiles
      → ArchivedRun
      → Result Rejection (Json × Draft × QualityReport)
      → Time
      → IngestTables
      → Call IngestResult
  decide o s archived (ok (provenance, draft, quality)) now w =
      accept_run o s archived provenance draft now w
  decide o s archived (err r) now w = reject_run s archived r w

  unfoldable pub ingest_spot : IngestOptions → SourceFiles → Time → IngestTables → Call IngestResult
  ingest_spot o s now w =
      then_call (archive_step (source_artifacts s) w)
        (λ archived w1. decide o s archived (check_sources out s) now w1)
