-- ===== src/Ingest/Stored.antt =====
-- What an import leaves behind, however it ends.
use gto_poker_daily_spots_ba.Prelude.{
  ℕ, ◌≡◌, refl, sym, subst, List, Key, Time, Result, ok, err, length,
}
use gto_poker_daily_spots_ba.Archive.{
  ArchiveArtifact, ArchivedRun, ArchiveError, Files, archive_run, verify_archive,
}
use gto_poker_daily_spots_ba.Archive.Verified.{Keeps, verify_archive-archive_run}
use gto_poker_daily_spots_ba.Archive.Repeated.{read-archive_run}
use gto_poker_daily_spots_ba.Json.{Json}
use gto_poker_daily_spots_ba.Quality.{QualityReport}
use gto_poker_daily_spots_ba.Publication.Consistent.{Consistent}
use gto_poker_daily_spots_ba.Pipeline.{
  PipelineTables, PipelineError, Persisted, Draft, persist_validated_draft,
}
use gto_poker_daily_spots_ba.Pipeline.Immutable.{IsPersisted, persist-IsPersisted}
use gto_poker_daily_spots_ba.Replenish.{ReplenishTables, ReplenishError, create_solver_template}
use gto_poker_daily_spots_ba.Ingest.{
  IngestOptions, SourceFiles, Rejection, IngestError, rejected, archive_failed, template_failed,
  IngestTables, IngestResult, Outside, Call, then_call, archived_in, verified_in, template_in,
  template_input, template_tables, persisted_in, source_artifacts, with_metadata, missing_artifacts,
  check_sources, archive_step, verify_step, reject_run, run_input, create_template, create_job,
  store_draft, accept_run, decide, ingest_spot,
}

-- The files do not pass: no template, job, run or version is made, and the sources are archived.
pub record IsRejected (out : Outside) (s : SourceFiles) (r : Rejection) (w w' : IngestTables)
    : Type 0 where
  pub refused : check_sources out s ≡ err r
  pub no_template : w'.templates ≡ w.templates
  pub no_row : w'.pipeline ≡ w.pipeline
  pub sources : ArchivedRun
  pub files : Files
  pub archived :
      archive_run out.sha out.sha_lines (source_artifacts s) w.files ≡ ok (sources, files)
  pub readable : verify_archive out.sha out.sha_lines sources w'.files ≡ ok tt

-- The files pass: the draft that they give is persisted, and the archive of the run is readable.
pub record IsStored (out : Outside) (s : SourceFiles) (result : IngestResult) (w w' : IngestTables)
    : Type 0 where
  pub provenance : Json
  pub draft : Draft
  pub quality : QualityReport
  pub passed : check_sources out s ≡ ok (provenance, draft, quality)
  pub before : PipelineTables
  pub same_db : before.db ≡ w.pipeline.db
  pub same_runs : before.runs ≡ w.pipeline.runs
  pub persisted : IsPersisted out.payload_hash draft before w'.pipeline result.persisted
  pub readable : verify_archive out.sha out.sha_lines result.archive w'.files ≡ ok tt

abbrev pub Outcome :
    Outside → SourceFiles → IngestTables → Result IngestError IngestResult → IngestTables → Type 0
Outcome out s w (ok result) w' = IsStored out s result w w'
Outcome out s w (err (rejected r)) w' = IsRejected out s r w w'
Outcome out s w (err _) w' = (w'.pipeline.db ≡ w.pipeline.db) × (w'.pipeline.runs ≡ w.pipeline.runs)

-- What is archived already stays, and the outcome is as it says.
abbrev pub IsIngested : Outside → SourceFiles → IngestTables → Call IngestResult → Type 0
IsIngested out s w c = Keeps w.files c.1.files × Outcome out s w c.0 c.1

module _ (out : Outside) {B : Type 0} (P : Call B → Type 0) where
  archive_step_rule :
      (artifacts : List ArchiveArtifact) (w : IngestTables)
      (next : ArchivedRun → IngestTables → Call B)
      → ((e : ArchiveError) → P (err (archive_failed e), w))
      → ((run : ArchivedRun) (files : Files)
          → archive_run out.sha out.sha_lines artifacts w.files ≡ ok (run, files)
          → P (next run (record w { files = files })))
      → P (then_call (archive_step out artifacts w) next)
  archive_step_rule artifacts w next f g =
      by_result (archive_run out.sha out.sha_lines artifacts w.files) refl
    where
      by_result :
          (r : Result ArchiveError (ArchivedRun × Files))
          → archive_run out.sha out.sha_lines artifacts w.files ≡ r
          → P (then_call (archived_in w r) next)
      by_result (ok (run, files)) q = g run files q
      by_result (err e) q = f e

  verify_step_rule :
      (run : ArchivedRun) (w : IngestTables) (next : ArchivedRun → IngestTables → Call B)
      → verify_archive out.sha out.sha_lines run w.files ≡ ok tt
      → P (next run w)
      → P (then_call (verify_step out run w) next)
  verify_step_rule run w next q p = subst (λ r. P (then_call (verified_in w run r) next)) (sym q) p

  create_template_rule :
      (o : IngestOptions) (provenance : Json) (now : Time) (w : IngestTables)
      (next : ℕ → IngestTables → Call B)
      → ((e : ReplenishError) → P (err (template_failed e), w))
      → ((version : ℕ) (t : ReplenishTables)
          → P (next version (record w { templates = t.templates; next_template_id = t.next_id })))
      → P (then_call (create_template out o provenance now w) next)
  unfolding create_template
  create_template_rule o provenance now w next f g =
      by_result _
        (create_solver_template (template_input out o provenance w) now (template_tables w))
    where
      by_result :
          (version : ℕ) (r : Result ReplenishError ReplenishTables)
          → P (then_call (template_in w version r) next)
      by_result version (ok t) = g version t
      by_result version (err e) = f e

module _ (out : Outside)
    (sizes : (a b : List ℕ) → out.sha a ≡ out.sha b → length a ≡ length b) where
  verified_later :
      (artifacts : List ArchiveArtifact) (files files' more : Files) (run : ArchivedRun)
      → archive_run out.sha out.sha_lines artifacts files ≡ ok (run, files')
      → Keeps files' more
      → verify_archive out.sha out.sha_lines run more ≡ ok tt
  verified_later = verify_archive-archive_run out.sha out.sha_lines sizes

  archive_run-Keeps :
      (artifacts : List ArchiveArtifact) (files files' : Files) (run : ArchivedRun)
      → archive_run out.sha out.sha_lines artifacts files ≡ ok (run, files')
      → Keeps files files'
  archive_run-Keeps artifacts files files' run h =
      λ k c. read-archive_run out.sha out.sha_lines artifacts files files' run h k c

  module _ (s : SourceFiles) (w : IngestTables) (archived : ArchivedRun) (files : Files)
      (h : archive_run out.sha out.sha_lines (source_artifacts s) w.files
        ≡ ok (archived, files)) where
    abbrev after_sources : IngestTables
    after_sources = record w { files = files }

    kept_sources : Keeps w.files files
    kept_sources = archive_run-Keeps (source_artifacts s) w.files files archived h

    reject_run-IsIngested :
        (r : Rejection)
        → check_sources out s ≡ err r
        → IsIngested out s w (reject_run out s archived r after_sources)
    unfolding reject_run
    reject_run-IsIngested r refused =
        archive_step_rule out (IsIngested out s w)
          (with_metadata s (out.rejected_metadata archived.source_hash r (missing_artifacts s)))
          after_sources _ (λ e. (kept_sources, (refl, refl)))
          (λ run files2 q.
            let kept = archive_run-Keeps _ files files2 run q in
            verify_step_rule out (IsIngested out s w) run (record after_sources { files = files2 })
              _ (verified_later _ files files2 files2 run q (λ k c x. x))
              (
                λ k c x. kept k c (kept_sources k c x),
                record {
                  refused = refused;
                  no_template = refl;
                  no_row = refl;
                  sources = archived;
                  files = files;
                  archived = h;
                  readable =
                      verified_later (source_artifacts s) w.files files files2 archived h kept;
                },
              ))

    persist-IsIngested :
        (provenance : Json) (draft : Draft) (quality : QualityReport)
        → check_sources out s ≡ ok (provenance, draft, quality)
        → Consistent w.pipeline.db
        → (template job : Key) (now : Time) (w1 : IngestTables) → Keeps w.files w1.files
        → w1.pipeline.db ≡ w.pipeline.db
        → w1.pipeline.runs ≡ w.pipeline.runs
        → (run : ArchivedRun) → verify_archive out.sha out.sha_lines run w1.files ≡ ok tt
        → (r : Result PipelineError (Persisted × PipelineTables))
        → persist_validated_draft out.payload_hash
            (run_input out job archived)
            draft
            now
            w1.pipeline
          ≡ r
        → IsIngested out s w (persisted_in w1 template job run r)
    persist-IsIngested provenance draft quality passed c template job now w1 kept db runs run
          readable (ok (p, t)) q =
        (
          kept,
          record {
            provenance = provenance;
            draft = draft;
            quality = quality;
            passed = passed;
            before = w1.pipeline;
            same_db = db;
            same_runs = runs;
            persisted =
                persist-IsPersisted out.payload_hash (run_input out job archived) draft now
                  w1.pipeline t p (subst Consistent (sym db) c) q;
            readable = readable;
          },
        )
    persist-IsIngested provenance draft quality passed c template job now w1 kept db runs run
          readable (err e) q =
        (kept, (db, runs))

    store_draft-IsIngested :
        (provenance : Json) (draft : Draft) (quality : QualityReport)
        → check_sources out s ≡ ok (provenance, draft, quality)
        → Consistent w.pipeline.db
        → (template job : Key) (now : Time) (w1 : IngestTables) → Keeps w.files w1.files
        → w1.pipeline.db ≡ w.pipeline.db
        → w1.pipeline.runs ≡ w.pipeline.runs
        → IsIngested out s w (store_draft out s archived draft template job now w1)
    unfolding store_draft
    store_draft-IsIngested provenance draft quality passed c template job now w1 kept db runs =
        archive_step_rule out (IsIngested out s w)
          (with_metadata s (out.metadata archived.source_hash template job)) w1 _
          (λ e. (kept, (db, runs)))
          (λ run files2 q.
            let grown = archive_run-Keeps _ w1.files files2 run q in
            let readable = verified_later _ w1.files files2 files2 run q (λ k x y. y) in
            verify_step_rule out (IsIngested out s w) run (record w1 { files = files2 }) _ readable
              (persist-IsIngested provenance draft quality passed c template job now
                (record w1 { files = files2 }) (λ k x y. grown k x (kept k x y)) db runs run
                readable
                (persist_validated_draft out.payload_hash (run_input out job archived) draft now
                  w1.pipeline)
                refl))

    accept_run-IsIngested :
        (o : IngestOptions) (provenance : Json) (draft : Draft) (quality : QualityReport)
        → check_sources out s ≡ ok (provenance, draft, quality)
        → Consistent w.pipeline.db
        → (now : Time)
        → IsIngested out s w (accept_run out o s archived provenance draft now after_sources)
    unfolding accept_run create_template create_job
    accept_run-IsIngested o provenance draft quality passed c now =
        create_template_rule out (IsIngested out s w) o provenance now after_sources
          (λ version w1.
            then_call (create_job out o w.next_template_id version now w1)
              (λ job w2. store_draft out s archived draft w.next_template_id job now w2))
          (λ e. (kept_sources, (refl, refl)))
          (λ version t.
            store_draft-IsIngested provenance draft quality passed c w.next_template_id
              w.next_job_id now
              (create_job out o w.next_template_id version now
                (record after_sources { templates = t.templates; next_template_id = t.next_id })).1
              kept_sources refl refl)

    decide-IsIngested :
        (o : IngestOptions) (now : Time)
        → Consistent w.pipeline.db
        → (r : Result Rejection (Json × Draft × QualityReport)) → check_sources out s ≡ r
        → IsIngested out s w (decide out o s archived r now after_sources)
    decide-IsIngested o now c (ok (provenance, draft, quality)) q =
        accept_run-IsIngested o provenance draft quality q c now
    decide-IsIngested o now c (err r) q = reject_run-IsIngested r q

  -- An import keeps every file of the archive, on every path. If the files of the run do not pass the
  -- checks, no template, job, run or version is made, and their archive is there and verifies. If it
  -- succeeds, they have passed, the draft that they give is persisted on tables with the spots,
  -- versions, slots and runs from before, and the archive that it returns verifies. If a later step
  -- fails, the spots, versions, slots and runs are as before. The hash has to tell apart contents of
  -- different lengths, and the calendar agrees with the versions.
  pub ingest_spot-IsIngested :
      (o : IngestOptions) (s : SourceFiles) (now : Time) (w : IngestTables)
      → Consistent w.pipeline.db
      → IsIngested out s w (ingest_spot out o s now w)
  unfolding ingest_spot
  ingest_spot-IsIngested o s now w c =
      archive_step_rule out (IsIngested out s w) (source_artifacts s) w _
        (λ e. (λ k x y. y, (refl, refl)))
        (λ archived files h.
          decide-IsIngested s w archived files h o now c (check_sources out s) refl)
