-- ===== src/Replenish.antt =====
-- New solver jobs: src/solver/template.ts, `countFutureCoverage` of src/publication.ts and the
-- handlers of src/jobs.ts. The hash of a seed and the answers of the queue are parameters.
pub mod Enqueued
pub mod Oldest
pub mod Replenished
mod Examples
use gto_poker_daily_spots_ba.Prelude.{
  ℕ, suc, ◌+◌, ◌==◌, ltb, leb, not, ◌||◌, ◌&&◌, Bool, true, false, if◌then◌else◌, List, [], ◌∷◌,
  ◌++◌, map, Option, none, some, Key, Time, Result, ok, err, guard, or_throw, ◌>>=◌, ◌>>◌, find,
  update, select, any, length, take, sort_by, has,
}
use gto_poker_daily_spots_ba.Prelude.Int.{ℤ, pos}
use gto_poker_daily_spots_ba.Store.{
  VersionStatus, SlotStatus, SpotVersion, Slot, Db, PublicationError,
}
use gto_poker_daily_spots_ba.Jobs.{Job, JobStatus, job_id, Plan, replenishment_plan, JobError}
use gto_poker_daily_spots_ba.Publication.{publish_pacific_date}

-- A card: its rank's place in "23456789TJQKA" and its suit's in "cdhs".
pub record Card : Type 0 where
  pub rank : ℕ
  pub suit : ℕ

-- An entry of the board of a configuration: the regular expression may not match.
pub data BoardEntry : Type 0 where
  card : Card → BoardEntry
  other_text not_a_text : BoardEntry

-- A JSON number is a finite one, in some unit.
pub record TemplateConfig : Type 0 where
  pub pot : Option ℤ
  pub stack : Option ℤ
  pub board : Option (List BoardEntry)
  pub has_range_profile : Bool
  pub has_ranges : Bool

pub data TemplateIssue : Type 0 where
  bad_pot bad_stack bad_board_size bad_card repeated_card no_ranges : TemplateIssue

abbrev pub is_not_negative : Option ℤ → Bool
is_not_negative (some (pos n)) = true
is_not_negative _ = false

abbrev pub is_positive : Option ℤ → Bool
is_positive (some (pos (suc n))) = true
is_positive _ = false

abbrev pub has_board_size : List BoardEntry → Bool
has_board_size board = length board == 3 || length board == 4 || length board == 5

abbrev pub is_card : BoardEntry → Bool
is_card (card c) = true
is_card _ = false

abbrev pub same_card : Card → Card → Bool
same_card a b = a.rank == b.rank && a.suit == b.suit

-- A text that is not a card is reported as `bad_card`, whether it is repeated or not.
abbrev pub repeats : Card → List BoardEntry → Bool
repeats c board =
    any (λ e. elim e [ card d ↦ same_card c d | other_text ↦ false | not_a_text ↦ false ]) board

unfoldable pub has_repeat : List BoardEntry → Bool
has_repeat [] = false
has_repeat (card c ∷ rest) = repeats c rest || has_repeat rest
has_repeat (_ ∷ rest) = has_repeat rest

abbrev pub issue_unless : Bool → TemplateIssue → List TemplateIssue
issue_unless true i = []
issue_unless false i = i ∷ []

unfoldable pub board_issues : Option (List BoardEntry) → List TemplateIssue
board_issues none = bad_board_size ∷ []
board_issues (some board) =
    if has_board_size board
    then issue_unless (not (any (λ e. not (is_card e)) board)) bad_card
      ++ issue_unless (not (has_repeat board)) repeated_card
    else bad_board_size ∷ []

-- `solverTemplateConfigSchema`: the configuration is accepted if there is no issue.
unfoldable pub template_issues : TemplateConfig → List TemplateIssue
template_issues c =
    issue_unless (is_not_negative c.pot) bad_pot
    ++ issue_unless (is_positive c.stack) bad_stack
    ++ board_issues c.board
    ++ issue_unless (c.has_range_profile || c.has_ranges) no_ranges

pub data TemplateStatus : Type 0 where
  active held retired : TemplateStatus

pub record Template : Type 0 where
  pub id : Key
  pub family_id : Key
  pub version : ℕ
  pub status : TemplateStatus
  pub default_seed : Option Key
  pub created_at : Time

pub record ReplenishTables : Type 0 where
  pub templates : List Template
  pub jobs : List Job
  pub sent : List Key
  pub next_id : Key

pub data ReplenishError : Type 0 where
  invalid_config : List TemplateIssue → ReplenishError
  template_taken template_not_found template_not_active queue_failed : ReplenishError
  bad_plan : JobError → ReplenishError

pub record CreateTemplateInput : Type 0 where
  pub family_id : Key
  pub version : ℕ
  pub config : TemplateConfig
  pub default_seed : Option Key

abbrev pub is_empty : List TemplateIssue → Bool
is_empty [] = true
is_empty _ = false

-- Family and version are unique together.
unfoldable pub create_solver_template :
    CreateTemplateInput → Time → ReplenishTables → Result ReplenishError ReplenishTables
create_solver_template input now t = do
  guard (is_empty (template_issues input.config)) (invalid_config (template_issues input.config))
  guard
      (not (
        any (λ (x : Template). x.family_id == input.family_id && x.version == input.version)
          t.templates))
      template_taken
  ok (record t {
    templates =
        t.templates
        ++ record {
          id = t.next_id;
          family_id = input.family_id;
          version = input.version;
          status = TemplateStatus.active;
          default_seed = input.default_seed;
          created_at = now;
        }
          ∷ [];
    next_id = suc t.next_id;
  })

abbrev pub is_active : TemplateStatus → Bool
is_active TemplateStatus.active = true
is_active _ = false

-- What the queue does with a message: it throws, takes no message, or gives it an identifier.
pub data SendOutcome : Type 0 where
  throws : Key → SendOutcome
  not_sent : SendOutcome
  sent_as : Key → SendOutcome

abbrev pub first_given : Option Key → Option Key → Option Key
first_given (some a) b = some a
first_given none b = b

abbrev pub mark_failed : Key → Key → Job → Job
mark_failed code message j = record j {
  status = JobStatus.failed;
  last_error_code = some code;
  last_error_message = some message;
}

abbrev pub mark_sent : Key → Job → Job
mark_sent k j = record j { pg_boss_job_id = some k }

-- What follows a call that has returned; an error ends the loop.
abbrev pub after_call :
    (ReplenishTables → Result ReplenishError (Unit {0}) × ReplenishTables)
    → Result ReplenishError Job × ReplenishTables
    → Result ReplenishError (Unit {0}) × ReplenishTables
after_call next (ok job, t) = next t
after_call next (err e, t) = (err e, t)

-- `seed` is the hash of a template's key and a configured seed, `failed_code` the text
-- "QUEUE_SEND_FAILED".
module _ (seed : Key → Option Key → Key) (failed_code : Key) where
  unfoldable pub new_job : Template → Option Key → ℤ → Time → Key → Job
  new_job template configured priority now id = record {
    id = id;
    template_id = template.id;
    effective_seed = seed template.id (first_given configured template.default_seed);
    pg_boss_job_id = none;
    status = JobStatus.queued;
    priority = priority;
    attempt_count = 0;
    max_attempts = 3;
    next_attempt_at = now;
    lease_owner = none;
    lease_expires_at = none;
    heartbeat_at = none;
    last_error_code = none;
    last_error_message = none;
    successful_run_id = none;
    created_at = now;
    started_at = none;
    finished_at = none;
  }

  -- What follows the creation of the job.
  unfoldable pub send_job :
      SendOutcome → Job → ReplenishTables → Result ReplenishError Job × ReplenishTables
  send_job (throws message) job t = (
    err queue_failed,
    record t { jobs = update job_id job.id (mark_failed failed_code message) t.jobs },
  )
  send_job not_sent job t = (ok job, t)
  send_job (sent_as k) job t = (
    ok (record job { pg_boss_job_id = some k }),
    record t { jobs = update job_id job.id (mark_sent k) t.jobs; sent = t.sent ++ job.id ∷ [] },
  )

  -- The job is created before the message is sent, in a statement of its own: the tables are
  -- returned with an error too.
  unfoldable pub enqueue_for :
      Template
      → Option Key
      → ℤ
      → SendOutcome
      → Time
      → ReplenishTables
      → Result ReplenishError Job × ReplenishTables
  enqueue_for template configured priority outcome now t =
      let job = new_job template configured priority now t.next_id in
      if is_active template.status
      then send_job outcome job (record t { jobs = t.jobs ++ job ∷ []; next_id = suc t.next_id })
      else (err template_not_active, t)

  unfoldable pub enqueue_solver_job :
      Key
      → Option Key
      → ℤ
      → SendOutcome
      → Time
      → ReplenishTables
      → Result ReplenishError Job × ReplenishTables
  enqueue_solver_job template_id configured priority outcome now t =
      elim (find (λ (x : Template). x.id) template_id t.templates) [
        | none ↦ (err template_not_found, t)
        | some template ↦ enqueue_for template configured priority outcome now t
      ]

  -- The loop of the replenishment handler; `queue` answers for each job.
  unfoldable pub enqueue_templates :
      (Key → SendOutcome)
      → Time
      → List Template
      → ReplenishTables
      → Result ReplenishError (Unit {0}) × ReplenishTables
  enqueue_templates queue now [] t = (ok tt, t)
  enqueue_templates queue now (x ∷ rest) t =
      after_call (λ t1. enqueue_templates queue now rest t1)
        (enqueue_solver_job x.id none (pos 0) (queue t.next_id) now t)

abbrev pub counts_as_coverage : ℕ → Slot → Bool
counts_as_coverage today s = ltb today s.publication_date && (elim s.status [
  | SlotStatus.scheduled ↦ true
  | SlotStatus.held ↦ false
  | SlotStatus.published ↦ true
  | SlotStatus.cancelled ↦ false
])

abbrev pub is_approved : SpotVersion → Bool
is_approved v = elim v.status [
  | VersionStatus.draft ↦ false
  | VersionStatus.validated ↦ false
  | VersionStatus.approved ↦ true
  | VersionStatus.scheduled ↦ false
  | VersionStatus.published ↦ false
  | VersionStatus.rejected ↦ false
  | VersionStatus.superseded ↦ false
]

-- The size of a `Set` of keys.
unfoldable pub set_size : List Key → ℕ
set_size [] = 0
set_size (k ∷ ks) = let later = set_size ks in if has k ks then later else suc later

unfoldable pub count_future_coverage : ℕ → Db → ℕ
count_future_coverage today db = set_size (
    map (λ (s : Slot). s.spot_version_id) (select (counts_as_coverage today) db.slots)
    ++ map (λ (v : SpotVersion). v.id) (select is_approved db.versions))

abbrev pub oldest_template : Template → Template → Bool
oldest_template a b = leb a.created_at b.created_at

abbrev pub active_templates : ℕ → List Template → List Template
active_templates n templates =
    take n (sort_by oldest_template (select (λ (x : Template). is_active x.status) templates))

pub data JobOutcome (A : Type 0) : Type 0 where
  completed : A → JobOutcome A
  failed : JobOutcome A

abbrev pub report :
    Plan → Result ReplenishError (Unit {0}) × ReplenishTables → JobOutcome Plan × ReplenishTables
report plan (ok done, t) = (completed plan, t)
report plan (err e, t) = (failed, t)

-- `seed`, `failed_code` and `queue` are those of `enqueue_solver_job`.
module _ (seed : Key → Option Key → Key) (failed_code : Key) (queue : Key → SendOutcome) where
  unfoldable pub carry_out :
      Result JobError Plan → Time → ReplenishTables → JobOutcome Plan × ReplenishTables
  carry_out (err e) now t = (failed, t)
  carry_out (ok plan) now t =
      report plan
        (enqueue_templates seed failed_code queue now (active_templates plan.deficit t.templates) t)

  -- The replenishment handler, with the defaults of `replenishmentPlan`: a target of 7 and an alert
  -- below 3.
  unfoldable pub replenish :
      (today : ℕ) → Time → Db → ReplenishTables → JobOutcome Plan × ReplenishTables
  replenish today now db t =
      carry_out (replenishment_plan (count_future_coverage today db) 7 3) now t

-- `job.data?.date ?? addPacificDays(pacificDate(), 1)`.
abbrev pub day_of : ℕ → Option ℕ → ℕ
day_of today none = suc today
day_of today (some day) = day

-- The publication handler: a failed transaction leaves the tables as they were.
unfoldable pub publish_job : Option ℕ → (today : ℕ) → Time → Db → JobOutcome ℕ × Db
publish_job date today now db = elim (publish_pacific_date (day_of today date) now db) [
  | ok db' ↦ (completed (day_of today date), db')
  | err e ↦ (failed, db)
]
