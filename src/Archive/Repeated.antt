-- ===== src/Archive/Repeated.antt =====
-- A second `archiveRun` of src/solver/archive.ts on the same artifacts.
use gto_poker_daily_spots_ba.Prelude.{
  ℕ, ◌==◌, ◌≡◌, ◌∙◌, ap, sym, inl, inr, List, [], ◌∷◌, some, Key, ok, arith, Bool-cases,
  Option-cases, Result-cases, ==_self,
}
use gto_poker_daily_spots_ba.Archive.{
  ArchiveArtifact, named, version_of_metadata, ArchiveKey, Files, read, ArchivedArtifact, Line,
  put_version, put_artifact, put_artifacts, source_hash_of, archive_run, ArchivedRun,
}
use gto_poker_daily_spots_ba.Archive.Grows.{put_artifact-IsPut, read-write}
use gto_poker_daily_spots_ba.Archive.Verified.{Keeps, put_artifacts-Keeps}

module _ (sha : List ℕ → Key) (sha_lines : List Line → Key) where
  put_version_again :
      (directory : Key) (content : List ℕ) (files files' more : Files) (key : ArchiveKey)
      → put_version sha sha_lines directory content files ≡ ok (key, files')
      → Keeps files' more
      → put_version sha sha_lines directory content more ≡ ok (key, more)
  unfolding put_version
  put_version_again directory content files files' more key h kept =
      elim (Option-cases (read at_version files)) [
        | inl n ↦
            let there =
              kept at_version content (ground (arith, read-write at_version content files n)) in
            let key_is : at_version ≡ key = ground arith in
            let self = ==_self (sha content) in ground arith
        | inr (existing, n) ↦
            let same : files ≡ files' = ground arith in
            let there = kept at_version existing (ap (read at_version) (sym same) ∙ n) in
            ground arith
      ]
    where
      at_version : ArchiveKey
      at_version = record { directory = directory; file = version_of_metadata (sha content) }

  put_artifact_again :
      (directory : Key) (a : ArchiveArtifact) (files files' more : Files) (key : ArchiveKey)
      → put_artifact sha sha_lines directory a files ≡ ok (key, files')
      → Keeps files' more
      → put_artifact sha sha_lines directory a more ≡ ok (key, more)
  unfolding put_artifact
  put_artifact_again directory a files files' more key h kept =
      elim (Option-cases (read at_name files)) [
        | inl n ↦
            let there =
              kept at_name a.content (ground (arith, read-write at_name a.content files n)) in
            let key_is : at_name ≡ key = ground arith in
            let self = ==_self (sha a.content) in ground arith
        | inr (existing, n) ↦
            let there = kept at_name existing (
              (put_artifact-IsPut sha sha_lines directory a files files' key h).grows at_name
                existing n) in
            elim (Bool-cases (sha existing == sha a.content)) [
              | inl same ↦ ground arith
              | inr other ↦
                  let versioned : put_version sha sha_lines directory a.content files
                      ≡ ok (key, files') =
                    ground arith in
                  let again =
                    put_version_again directory a.content files files' more key versioned kept in
                  ground arith
            ]
      ]
    where
      at_name : ArchiveKey
      at_name = record { directory = directory; file = named a.name }

  put_artifacts_again :
      (directory : Key) (artifacts : List ArchiveArtifact) (files files' more : Files)
      (entries : List ArchivedArtifact)
      → put_artifacts sha sha_lines directory artifacts files ≡ ok (entries, files')
      → Keeps files' more
      → put_artifacts sha sha_lines directory artifacts more ≡ ok (entries, more)
  unfolding put_artifacts
  put_artifacts_again directory [] files files' more entries h kept = ground arith
  put_artifacts_again directory (a ∷ rest) files files' more entries h kept =
      elim (Result-cases (put_artifact sha sha_lines directory a files)) [
        | inr (thrown, n) ↦ absurd (ground arith)
        | inl ((key, files1), n) ↦
            elim (Result-cases (put_artifacts sha sha_lines directory rest files1)) [
              | inr (thrown, m) ↦ absurd (ground arith)
              | inl ((later, files2), m) ↦
                  let same : files2 ≡ files' = ground arith in
                  let later_kept : Keeps files2 more =
                    λ k c e. kept k c (ap (read k) (sym same) ∙ e) in
                  let first = put_artifact_again directory a files files1 more key n (λ k c e.
                    later_kept k c (
                      put_artifacts-Keeps sha sha_lines directory rest files1 files2 later m k c
                        e)) in
                  let others =
                    put_artifacts_again directory rest files1 files2 more later m later_kept in
                  ground arith
            ]
      ]

-- Archiving the same artifacts a second time, on any later state of the files that keeps those
-- that the first time left, returns the same run and changes no file: the versions of the metadata
-- do not pile up.
pub archive_run_again :
    (sha : List ℕ → Key) (sha_lines : List Line → Key) (artifacts : List ArchiveArtifact)
    (files files' more : Files) (run : ArchivedRun)
    → archive_run sha sha_lines artifacts files ≡ ok (run, files')
    → Keeps files' more
    → archive_run sha sha_lines artifacts more ≡ ok (run, more)
unfolding archive_run
archive_run_again sha sha_lines artifacts files files' more run h kept =
    elim (Result-cases
      (put_artifacts sha sha_lines (source_hash_of sha sha_lines artifacts) artifacts files)) [
        | inr (thrown, n) ↦ absurd (ground arith)
        | inl ((entries, files1), n) ↦
            let same : files1 ≡ files' = ground arith in
            let again =
              put_artifacts_again sha sha_lines (source_hash_of sha sha_lines artifacts) artifacts
                files files1 more entries n (λ k c e. kept k c (ap (read k) (sym same) ∙ e)) in
            ground arith
      ]

-- Archiving a run changes no file that is there and removes none, also when the artifacts are not
-- those that were archived under the same sources before.
pub read-archive_run :
    (sha : List ℕ → Key) (sha_lines : List Line → Key) (artifacts : List ArchiveArtifact)
    (files files' : Files) (run : ArchivedRun)
    → archive_run sha sha_lines artifacts files ≡ ok (run, files')
    → (k : ArchiveKey) (c : List ℕ) → read k files ≡ some c
    → read k files' ≡ some c
unfolding archive_run
read-archive_run sha sha_lines artifacts files files' run h k c e =
    elim (Result-cases
      (put_artifacts sha sha_lines (source_hash_of sha sha_lines artifacts) artifacts files)) [
        | inr (thrown, n) ↦ absurd (ground arith)
        | inl ((entries, files1), n) ↦
            let same : files1 ≡ files' = ground arith in
            ap (read k) (sym same)
            ∙ put_artifacts-Keeps sha sha_lines (source_hash_of sha sha_lines artifacts) artifacts
                files files1 entries n k c e
      ]
