-- ===== src/Archive/Examples.antt =====
-- Archived runs: a hash that keeps the contents apart stands in for SHA-256.
use gto_poker_daily_spots_ba.Prelude.{ℕ, ◌+◌, ◌*◌, ◌≡◌, refl, List, [], ◌∷◌, ◌++◌, Key, ok, length}
use gto_poker_daily_spots_ba.Archive.{
  ArtifactName, input_txt, output_result_json, solver_log, metadata_json, ArchiveArtifact,
  ArchivedRun, Files, Line, archive_run, verify_archive, put_artifacts, put_artifact, put_version,
  source_hash_of, source_lines, sort_lines, insert_line, has_distinct_names, read, ArchiveKey,
  ArchivedArtifact, named, version_of_metadata,
}
use gto_poker_daily_spots_ba.Archive.Verified.{verify_archive-archive_run}

-- The length of a content, as a hash.
abbrev sha : List ℕ → Key
sha = length

abbrev sha_lines : List Line → Key
sha_lines [] = 0
sha_lines ((n, k) ∷ rest) = k + 100 * sha_lines rest

abbrev artifact : ArtifactName → List ℕ → ArchiveArtifact
artifact n c = record { name = n; content = c }

abbrev four : List ArchiveArtifact
four =
    artifact solver_log (3 ∷ 3 ∷ [])
    ∷ artifact metadata_json (9 ∷ [])
    ∷ artifact input_txt (1 ∷ [])
    ∷ artifact output_result_json []
    ∷ []

abbrev key_of : ArtifactName → ArchiveKey
key_of n = record { directory = 20001; file = named n }

abbrev entry_of : ArtifactName → ℕ → ArchivedArtifact
entry_of n size = record { name = n; key = key_of n; sha256 = size; bytes = size }

abbrev archived : ArchivedRun
archived = record {
  source_hash = 20001;
  artifacts =
      entry_of solver_log 2
      ∷ entry_of metadata_json 1
      ∷ entry_of input_txt 1
      ∷ entry_of output_result_json 0
      ∷ [];
}

abbrev left : Files
left =
    (key_of solver_log, 3 ∷ 3 ∷ [])
    ∷ (key_of metadata_json, 9 ∷ [])
    ∷ (key_of input_txt, 1 ∷ [])
    ∷ (key_of output_result_json, [])
    ∷ []

-- The same run with other metadata, which get a file of their own.
abbrev retried : List ArchiveArtifact
retried =
    artifact metadata_json (9 ∷ 9 ∷ [])
    ∷ artifact solver_log (3 ∷ 3 ∷ [])
    ∷ artifact input_txt (1 ∷ [])
    ∷ artifact output_result_json []
    ∷ []

abbrev version_key : ArchiveKey
version_key = record { directory = 20001; file = version_of_metadata 2 }

abbrev archived_again : ArchivedRun
archived_again = record {
  source_hash = 20001;
  artifacts =
      record { name = metadata_json; key = version_key; sha256 = 2; bytes = 2 }
      ∷ entry_of solver_log 2
      ∷ entry_of input_txt 1
      ∷ entry_of output_result_json 0
      ∷ [];
}

abbrev left_again : Files
left_again = left ++ (version_key, 9 ∷ 9 ∷ []) ∷ []

first_run : archive_run sha sha_lines four [] ≡ ok (archived, left)
unfolding archive_run put_artifacts put_artifact put_version source_hash_of source_lines sort_lines
    insert_line has_distinct_names read
first_run = refl

second_run : archive_run sha sha_lines retried left ≡ ok (archived_again, left_again)
unfolding archive_run put_artifacts put_artifact put_version source_hash_of source_lines sort_lines
    insert_line has_distinct_names read
second_run = refl

verify_archive-archive_run_example : verify_archive sha sha_lines archived_again left_again ≡ ok tt
verify_archive-archive_run_example =
    verify_archive-archive_run sha sha_lines (λ a b e. e) retried left left_again left_again
      archived_again second_run (λ k c e. e)
