-- ===== src/Ingest/Sources.antt =====
-- What `ingestSpot` of src/solver/ingest.ts asks of the files of a run.
use gto_poker_daily_spots_ba.Prelude.{
  ℕ, zero, suc, ◌-◌, ◌==◌, leb, not, ◌&&◌, ◌||◌, Bool, true, false, if◌then◌else◌, List, [], ◌∷◌,
  ◌++◌, Option, none, some, Key, Result, ok, err, guard, ◌>>=◌, ◌>>◌, length, get_or, Text,
}
use gto_poker_daily_spots_ba.Archive.{
  ArchiveArtifact, Line, input_txt, output_result_json, solver_log, metadata_json,
}
use gto_poker_daily_spots_ba.Json.{Json, number, object, get}
use gto_poker_daily_spots_ba.Normalized.{EnvelopeError}
use gto_poker_daily_spots_ba.Normalized.Diversity.{assert_publishable_strategy_quality}
use gto_poker_daily_spots_ba.Quality
use gto_poker_daily_spots_ba.Quality.{QualityReport, QualityError, assess_solver_log}
use gto_poker_daily_spots_ba.Provenance.{ProvenanceError, get_of, assert_import_provenance}
use gto_poker_daily_spots_ba.Pipeline.{Draft}
use gto_poker_daily_spots_ba.Replenish.{TemplateConfig}

-- A file that is not there is `none`, the provenance also if it is malformed.
pub record SourceFiles : Type 0 where
  pub provenance : Option Json
  pub input : Option (List ℕ)
  pub output : Option (List ℕ)
  pub log : Option (List ℕ)
  pub envelope : Option (List ℕ)

pub data SourceName : Type 0 where
  configuration_json provider_envelope_json input_file output_file log_file : SourceName

pub data Rejection : Type 0 where
  missing_files : List SourceName → Rejection
  malformed_envelope malformed_output not_an_object no_settings : Rejection
  bad_provenance : ProvenanceError → Rejection
  bad_quality : QualityError → Rejection
  provider_refused : Key → Rejection
  bad_strategies : EnvelopeError → Rejection

-- The hashes, `JSON.parse`, the decoding of UTF-8, the regular expressions on the log, the value of a
-- JSON number, the schema of a template's configuration, `normalizeProviderEnvelope`, the texts of the
-- metadata and of a default seed, and the order and the quoting of `canonicalJson`.
pub record Outside : Type 0 where
  pub sha : List ℕ → Key
  pub sha_lines : List Line → Key
  pub payload_hash : Key → Key
  pub parse_json : List ℕ → Option Json
  pub decode : List ℕ → Text
  pub log_lines : List ℕ → List Quality.Line
  pub value_of : Text → ℕ
  pub read_config : Json → TemplateConfig
  pub normalize : Json → Result Key Draft
  pub metadata : (source template job : Key) → List ℕ
  pub rejected_metadata : Key → Rejection → List SourceName → List ℕ
  pub default_seed : Key → ℕ → Key
  pub before : Text → Text → Bool
  pub quote : Text → Text

abbrev pub if_null : Json → Json → Json
if_null Json.null j = j
if_null c j = c

abbrev pub content_of : Option (List ℕ) → List ℕ
content_of none = []
content_of (some c) = c

abbrev pub missing_bytes : SourceName → Option (List ℕ) → List SourceName → List SourceName
missing_bytes n none rest = n ∷ rest
missing_bytes n (some c) rest = rest

abbrev pub missing_json : Option Json → List SourceName → List SourceName
missing_json none rest = configuration_json ∷ rest
missing_json (some j) rest = rest

unfoldable pub missing_artifacts : SourceFiles → List SourceName
missing_artifacts s = missing_json s.provenance (
    missing_bytes provider_envelope_json s.envelope (
      missing_bytes input_file s.input
        (missing_bytes output_file s.output (missing_bytes log_file s.log []))))

abbrev pub source_artifacts : SourceFiles → List ArchiveArtifact
source_artifacts s =
    record { name = input_txt; content = content_of s.input }
    ∷ record { name = output_result_json; content = content_of s.output }
    ∷ record { name = solver_log; content = content_of s.log }
    ∷ []

abbrev pub with_metadata : SourceFiles → List ℕ → List ArchiveArtifact
with_metadata s metadata =
    source_artifacts s ++ record { name = metadata_json; content = metadata } ∷ []

-- 64 MiB.
abbrev pub max_in_memory_output : ℕ
max_in_memory_output = 67108864

abbrev pub is_json_blank : ℕ → Bool
is_json_blank c = c == 32 || c == 9 || c == 10 || c == 13

-- The first loop over a large output: how many blanks it begins with.
unfoldable pub skip_start : List ℕ → ℕ
skip_start [] = 0
skip_start (c ∷ cs) = elim (is_json_blank c) [ true ↦ suc (skip_start cs) | false ↦ 0 ]

-- The second loop: the end, one past the last byte that is no blank, not below `start`.
unfoldable pub skip_end : List ℕ → (start : ℕ) → (stop : ℕ) → ℕ
skip_end content start zero = zero
skip_end content start (suc n) = elim (leb start n && is_json_blank (get_or content n 0)) [
  | true ↦ skip_end content start n
  | false ↦ suc n
]

unfoldable pub has_object_ends : List ℕ → Bool
has_object_ends content =
    let start = skip_start content in
    let stop = skip_end content start (length content) in
    not (leb stop start) && get_or content start 0 == 123 && get_or content (stop - 1) 0 == 125

abbrev pub is_object : Option Json → Result Rejection (Unit {0})
is_object none = err malformed_output
is_object (some (object fs)) = ok tt
is_object (some _) = err not_an_object

unfoldable pub assert_solver_output_json :
    (List ℕ → Option Json) → List ℕ → Result Rejection (Unit {0})
assert_solver_output_json parse_json content =
    if leb (length content) max_in_memory_output
    then is_object (parse_json content)
    else guard (has_object_ends content) malformed_output

-- "authoredConfig", "solver", "minimum_iterations" and "accuracy_percent".
abbrev pub authored_config : Text
authored_config =
    97 ∷ 117 ∷ 116 ∷ 104 ∷ 111 ∷ 114 ∷ 101 ∷ 100 ∷ 67 ∷ 111 ∷ 110 ∷ 102 ∷ 105 ∷ 103 ∷ []

abbrev pub solver_key : Text
solver_key = 115 ∷ 111 ∷ 108 ∷ 118 ∷ 101 ∷ 114 ∷ []

abbrev pub minimum_iterations : Text
minimum_iterations =
    109 ∷ 105 ∷ 110 ∷ 105 ∷ 109 ∷ 117 ∷ 109 ∷ 95 ∷ 105 ∷ 116 ∷ 101 ∷ 114 ∷ 97 ∷ 116 ∷ 105 ∷ 111
    ∷ 110 ∷ 115 ∷ []

abbrev pub accuracy_percent : Text
accuracy_percent =
    97 ∷ 99 ∷ 99 ∷ 117 ∷ 114 ∷ 97 ∷ 99 ∷ 121 ∷ 95 ∷ 112 ∷ 101 ∷ 114 ∷ 99 ∷ 101 ∷ 110 ∷ 116 ∷ []

abbrev pub number_in : (Text → ℕ) → Json → Option ℕ
number_in value_of (number t) = some (value_of t)
number_in value_of _ = none

abbrev pub number_at : (Text → ℕ) → Text → Option Json → Option ℕ
number_at value_of k j = elim (get_of k j) [ none ↦ none | some v ↦ number_in value_of v ]

-- `provenance?.authoredConfig ?? provenance`.
abbrev pub config_of : Json → Json
config_of provenance = elim (get authored_config provenance) [
  | none ↦ provenance
  | some c ↦ if_null c provenance
]

abbrev pub settings_from : Option ℕ → Option ℕ → Option (ℕ × ℕ)
settings_from (some minimum) (some target) = some (minimum, target)
settings_from _ _ = none

unfoldable pub solver_settings : (Text → ℕ) → Json → Option (ℕ × ℕ)
solver_settings value_of provenance =
    let solver = get_of solver_key (get authored_config provenance) in
    settings_from (number_at value_of minimum_iterations solver)
      (number_at value_of accuracy_percent solver)

abbrev pub reject_as : {E A : Type 0} → (E → Rejection) → Result E A → Result Rejection A
reject_as f (ok a) = ok a
reject_as f (err e) = err (f e)

abbrev pub or_reject : {A : Type 0} → Option A → Rejection → Result Rejection A
or_reject none r = err r
or_reject (some a) r = ok a

abbrev pub no_missing : List SourceName → Bool
no_missing [] = true
no_missing (n ∷ rest) = false

module _ (out : Outside) where
  -- The body of the `try`: what the files have to satisfy.
  unfoldable pub check_sources : SourceFiles → Result Rejection (Json × Draft × QualityReport)
  check_sources s = do
    guard (no_missing (missing_artifacts s)) (missing_files (missing_artifacts s))
    provenance ← or_reject s.provenance (missing_files (missing_artifacts s))
    raw_envelope ← or_reject (out.parse_json (content_of s.envelope)) malformed_envelope
    assert_solver_output_json out.parse_json (content_of s.output)
    reject_as bad_provenance (
        assert_import_provenance out.before out.quote raw_envelope provenance
          (out.decode (content_of s.input)))
    (minimum, target) ← or_reject (solver_settings out.value_of provenance) no_settings
    quality ←
        reject_as bad_quality (assess_solver_log (out.log_lines (content_of s.log)) minimum target)
    draft ← reject_as provider_refused (out.normalize raw_envelope)
    reject_as bad_strategies (assert_publishable_strategy_quality draft.envelope)
    ok (provenance, draft, quality)
