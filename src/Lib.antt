-- ===== src/Lib.antt =====
-- A model of the back end of a daily poker trainer: spots solved by a native solver are put on a
-- calendar, players submit their strategies for them, and the back end grades these.
--
-- The program's parts, and the files that model them:
-- * src/scoring.ts scores one hand by the L1 distance of an allocation from the solution: Scoring.
--   `l1Metric.score` is `score`, `scoreHands` is `score_hands`. The floats of the code are exact
--   here: a similarity counts half basis points, 20,000 of them are 100 percent. The code's float can
--   miss the exact value by some units in its last place, which can turn the rounding of an exact half
--   of a basis point around; no theorem says of the code that its float is the exact value.
-- * src/solver/provider.ts turns the solver's frequencies into basis points: Provider/Apportion.
--   `basisPointFrequencies` is `basis_point_frequencies`. Frequencies are multiples of one unit, so
--   a fraction is a numerator over the total. Array.prototype.sort with a comparison that never
--   ties is an insertion sort. `reachedComboRecords` and `findReach` are in Provider/Reached, and the
--   part of `normalizeProviderEnvelope` that reads the strategies and the combos that may be selected
--   is `read_catalog` of Provider/Catalog, the part that seats the players is `seat` of
--   Provider/Positions; all read JSON values (Json), the value of a number's text
--   being a parameter.
-- * src/publication.ts moves versions of spots through their life and publishes the slots of a
--   Pacific day: Publication. `approveSpotVersion`, `scheduleSpotVersion`, `replacePublishedSlot`,
--   `quarantinePublishedVersion` and `publishPacificDate` have the same names in snake case. The
--   tables of prisma/schema.prisma are the lists of Store.Db. A transaction is a function that
--   returns the new tables, or an error, which stands for the rollback. The partial unique indexes
--   of the migrations are the guard of `create_slot`. Rows carry the columns that matter here.
--   `POST /versions/:versionId/hold` of src/admin.ts is `hold_spot_version`, without its audit row.
--   Publication/Lifecycle joins the transactions in one data type. `nextAvailablePacificDate` is in
--   Dates, with its 3,661 candidates as fuel: the code has the same bound.
-- * src/solver/host-worker.ts leases solver jobs to workers: Jobs. A call is a function on the table
--   of jobs with the time as an argument. Jobs/Steps makes the calls steps of a sequence.
--   The job operations of src/admin.ts are `retry_job`, `hold_job` and `cancel_job`.
-- * src/application/public-api.ts grades a submission and stores the attempt: Attempts. `grade` is
--   the grading, `submit` the storing. The table is an argument of `submit` three times, as it is at
--   the first look-up, in the transaction's snapshot and at its write, so that the requests that
--   come in between are explicit, and how each Serializable transaction ends is an argument too: it
--   is committed, or thrown out with an error that is not P2002 (as P2034), which ends the request. An attempt's key, hash and identifier are numbers that are only
--   compared. src/solver/reach.ts is Reach. Requests is the whole of `createAttempt`, from the
--   request on, and `getSpot`: the version that a spot is served from, its payload as it is read
--   (PublicSpot), the contracts' check of the request as a parameter, then Attempts.
--   The streaks of `getStats` are Streaks, on the numbers of the completed days.
-- * src/solver/normalized.ts checks an envelope before it becomes a spot: Normalized, where
--   `validateNormalizedEnvelope` is `validate_normalized_envelope`, after its schema and the scan
--   for private fields (PrivateFields). Normalized/Diversity is the report on the strategies and the quality gate.
-- * src/solver/quality.ts reads a solver's log: Quality. The regular expressions are left out: a
--   line is what they find in it.
-- * src/solver/candidate.ts ranks the candidates of a run: Candidate, where `rankCandidates` is
--   `rank_candidates`. The quotient of logarithms in `entropy` and the digest of `tieBreak` are
--   parameters, and numbers are exact.
-- * src/solver/pipeline.ts stores a validated draft: Pipeline, where `persistValidatedDraft` is
--   `persist_validated_draft` on the tables of runs, jobs, spots and versions.
-- * src/solver/archive.ts keeps a run's files under the hash of its sources: Archive. A file's key is
--   that hash with a name, the files are a list, and both hashes are parameters.
-- * src/solver/migrate-v3.ts copies versions of schema 2 forward: Migration.
-- * src/solver/template.ts and src/jobs.ts queue solver jobs: Replenish. The queue's answer to each
--   message is an argument; the tables are returned with an error too, as the statements before it
--   are not rolled back. `countFutureCoverage` of src/publication.ts is there too.
-- * src/application/public-api.ts serves what is published: PublicSpot is `readPublicSpot`, with the
--   schema of the contracts as a parameter; Games has `progressFor`, `getDailyGame` and
--   `getDailyGameRange`; History has `getAttempt` and `getAttemptHistory`; Stats has `getStats` and
--   `summarizeBreakdowns`, with the Pacific date of a time as a parameter. A `Map` is the list of its
--   entries (Prelude/Maps), an `orderBy` a stable sort (Prelude/Sorting).
-- * scripts/list-spots.mjs lists the slots of a window: Options, which parses its command line. The
--   conversions of texts to numbers and days are parameters.
-- * scripts/publish-spot.mjs imports a version and puts it on a date: Publishing;
--   scripts/repair-spot.mjs puts one in the place of a bad one: Repair. Both are sequences of
--   transactions of Publication, with the steps that they share in Calls. A command line is given as
--   a record, and the import (`ingestSpot` of src/solver/ingest.ts) is a parameter.
-- * scripts/manage-spot.mjs reads an operator's command and runs one transaction of the calendar:
--   Manage. `manage` is the script, on the transactions of Publication/Lifecycle.
-- * scripts/retire-synthetic-spot.mjs takes a spot out of the calendar and of serving: Synthetic.
-- * src/solver/ingest.ts is Ingest: the files of a run are archived (Archive), checked
--   (Ingest/Sources, with Provenance and Quality), and stored as a template (Replenish), a job and a
--   version (Pipeline). `normalizeProviderEnvelope`, JSON.parse and the hashes are parameters.
-- * src/solver/import-provenance.ts compares an envelope with its configuration and the solver's
--   input: Provenance, on the JSON values of Json, which has the canonical text of a value too.
--   PrivateFields is the scan of src/solver/normalized.ts for private fields in a public payload.
-- * src/http/visitor.ts tells guests and accounts apart: Visitor. `resolveVisitor` works on the
--   tables of accounts and sessions; the hash of tokens is a parameter, a cookie is its token.
-- * src/http/public-router.ts limits the attempts of a client: RateLimit. A sequence of requests
--   with their times runs on the map of windows.
--
-- Every other loop is a structural recursion. Key and Time of Prelude are natural
-- numbers. Prisma itself, the HTTP server, Redis and pg-boss are not modelled: what the code
-- relies on is primary keys, unique indexes and transactions, and these are written out, but for the
-- unique index on Spot.currentVersionId, which refuses an update only if a version is the current one
-- of a spot that is not its own. Dates are
-- day numbers. Parsing of JSON payloads, the schemas of the shared contracts, hashes and random
-- identifiers, and the files that only start processes or read settings are not modelled.
pub mod Prelude
pub mod Store
pub mod Publication
pub mod Jobs
pub mod Reach
pub mod RateLimit
pub mod Attempts
pub mod Scoring
pub mod Provider
pub mod Normalized
pub mod PublicSpot
pub mod Games
pub mod History
pub mod Stats
pub mod Options
pub mod Replenish
pub mod Migration
pub mod Pipeline
pub mod Archive
pub mod Quality
pub mod Streaks
pub mod Visitor
pub mod Dates
pub mod Publishing
pub mod Candidate
pub mod Calls
pub mod Json
pub mod Provenance
pub mod PrivateFields
pub mod Repair
pub mod Ingest
pub mod Synthetic
pub mod Requests
pub mod Manage
