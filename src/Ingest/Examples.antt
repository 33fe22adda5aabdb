-- ===== src/Ingest/Examples.antt =====
-- A run without a log: it is archived and refused.
use gto_poker_daily_spots_ba.Prelude.{
  ◌+◌, ◌≡◌, refl, [], ◌∷◌, none, some, Key, Result, err, length, leb_text, true, false, find,
}
use gto_poker_daily_spots_ba.Prelude.Int.{pos}
use gto_poker_daily_spots_ba.Archive.{
  read, insert_line, sort_lines, has_distinct_names, source_lines, source_hash_of, put_version,
  put_artifact, put_artifacts, archive_run, verify_artifacts, verify_archive,
}
use gto_poker_daily_spots_ba.Json.{Json, object, end}
use gto_poker_daily_spots_ba.Publication.Consistent.{Consistent}
use gto_poker_daily_spots_ba.Pipeline.{Draft}
use gto_poker_daily_spots_ba.Ingest.{
  IngestOptions, SourceFiles, log_file, missing_files, rejected, IngestTables, Outside,
  missing_artifacts, check_sources, reject_run, ingest_spot,
}
use gto_poker_daily_spots_ba.Ingest.Stored.{IsIngested, ingest_spot-IsIngested}

abbrev refuse : Json → Result Key Draft
refuse envelope = err 1

-- The digest of a content is its length here.
abbrev outside : Outside
outside = record {
  sha = λ content. length content;
  sha_lines = λ lines. length lines;
  payload_hash = λ k. k;
  parse_json = λ content. some (object end);
  decode = λ content. content;
  log_lines = λ content. [];
  value_of = λ t. length t;
  read_config = λ j. record {
    pot = some (pos 6);
    stack = some (pos 97);
    board = none;
    has_range_profile = true;
    has_ranges = false;
  };
  normalize = refuse;
  metadata = λ source template job. source ∷ template ∷ job ∷ [];
  rejected_metadata = λ source r missing. source ∷ length missing ∷ [];
  default_seed = λ family version. family + version;
  before = leb_text;
  quote = λ t. t;
}

abbrev sources : SourceFiles
sources = record {
  provenance = some (object end);
  input = some (1 ∷ []);
  output = some (2 ∷ 3 ∷ []);
  log = none;
  envelope = some (4 ∷ []);
}

abbrev tables : IngestTables
tables = record {
  files = [];
  templates = [];
  next_template_id = 1;
  pipeline = record {
    db = record { spots = []; versions = []; slots = []; attempts = []; audits = []; next_id = 1 };
    runs = [];
    jobs = [];
    next_run_id = 1;
  };
  next_job_id = 1;
}

tables-Consistent : Consistent tables.pipeline.db
unfolding find
tables-Consistent = record {
  scheduled_once = λ k. refl;
  published_once = λ k. refl;
  held_never = λ k. refl;
}

abbrev options : IngestOptions
options = record { family_id = 9; seed = none }

no_log-rejected :
    (ingest_spot outside options sources 1000 tables).0
    ≡ err (rejected (missing_files (log_file ∷ [])))
unfolding ingest_spot check_sources missing_artifacts reject_run archive_run put_artifacts
    put_artifact put_version read has_distinct_names source_lines source_hash_of sort_lines
    insert_line verify_archive verify_artifacts
no_log-rejected = refl

ingest_spot-IsIngested_example :
    IsIngested outside sources tables (ingest_spot outside options sources 1000 tables)
ingest_spot-IsIngested_example =
    ingest_spot-IsIngested outside (λ a b e. e) options sources 1000 tables tables-Consistent
