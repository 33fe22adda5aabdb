-- ===== src/Archive.antt =====
-- src/solver/archive.ts: the archive of a run's artifacts, under the hash of the sources. The hash of
-- a content, and that of the lines that name the digests, are parameters. A path below the root is
-- the hash of its directory with a file name, so it cannot leave the root.
pub mod Grows
pub mod Verified
pub mod Repeated
mod Examples
use gto_poker_daily_spots_ba.Prelude.{
  ℕ, suc, ◌==◌, leb, not, ◌||◌, ◌&&◌, Bool, true, false, if◌then◌else◌, List, [], ◌∷◌, ◌++◌, map,
  Option, none, some, Key, Result, ok, err, guard, or_throw, ◌>>=◌, ◌>>◌, length, any, select,
}

pub data ArtifactName : Type 0 where
  input_txt output_result_json solver_log metadata_json : ArtifactName

abbrev pub rank : ArtifactName → ℕ
rank input_txt = 0
rank output_result_json = 1
rank solver_log = 2
rank metadata_json = 3

abbrev pub same_name : ArtifactName → ArtifactName → Bool
same_name a b = rank a == rank b

-- A content is its bytes.
pub record ArchiveArtifact : Type 0 where
  pub name : ArtifactName
  pub content : List ℕ

-- `metadata-<digest>.json` is a version of the metadata.
pub data FileName : Type 0 where
  named : ArtifactName → FileName
  version_of_metadata : Key → FileName

pub record ArchiveKey : Type 0 where
  pub directory : Key
  pub file : FileName

abbrev pub same_file : FileName → FileName → Bool
same_file (named a) (named b) = same_name a b
same_file (version_of_metadata k) (version_of_metadata j) = k == j
same_file _ _ = false

abbrev pub same_key : ArchiveKey → ArchiveKey → Bool
same_key a b = a.directory == b.directory && same_file a.file b.file

abbrev pub Files : Type 0
Files = List (ArchiveKey × List ℕ)

-- `readFile`, which fails on a file that is not there.
unfoldable pub read : ArchiveKey → Files → Option (List ℕ)
read k [] = none
read k ((j, c) ∷ rest) = if same_key j k then some c else read k rest

-- A write to a temporary file that is renamed; nothing was there.
abbrev pub write : ArchiveKey → List ℕ → Files → Files
write k c files = files ++ (k, c) ∷ []

pub record ArchivedArtifact : Type 0 where
  pub name : ArtifactName
  pub key : ArchiveKey
  pub sha256 : Key
  pub bytes : ℕ

pub record ArchivedRun : Type 0 where
  pub source_hash : Key
  pub artifacts : List ArchivedArtifact

pub data ArchiveError : Type 0 where
  duplicate_name missing_artifact conflicting_replacement : ArchiveError
  missing_file checksum_mismatch size_mismatch missing_source source_hash_mismatch : ArchiveError

-- A line `name:digest`, and the order of such lines: the names differ.
abbrev pub Line : Type 0
Line = ArtifactName × Key

unfoldable pub insert_line : Line → List Line → List Line
insert_line l [] = l ∷ []
insert_line l (m ∷ rest) =
    if leb (rank l.0) (rank m.0) then l ∷ m ∷ rest else m ∷ insert_line l rest

unfoldable pub sort_lines : List Line → List Line
sort_lines [] = []
sort_lines (l ∷ rest) = insert_line l (sort_lines rest)

abbrev pub is_source : ArtifactName → Bool
is_source metadata_json = false
is_source _ = true

abbrev pub supplies : ArtifactName → List ArchiveArtifact → Bool
supplies n artifacts = any (λ (a : ArchiveArtifact). same_name a.name n) artifacts

-- `supplied.size === artifacts.length`.
unfoldable pub has_distinct_names : List ArchiveArtifact → Bool
has_distinct_names [] = true
has_distinct_names (a ∷ rest) = not (supplies a.name rest) && has_distinct_names rest

-- `sha` is the hash of a content, `sha_lines` the hash of the joined lines.
module _ (sha : List ℕ → Key) (sha_lines : List Line → Key) where
  unfoldable pub source_lines : List ArchiveArtifact → List Line
  source_lines [] = []
  source_lines (a ∷ rest) =
      let later = source_lines rest in
      if is_source a.name then (a.name, sha a.content) ∷ later else later

  unfoldable pub source_hash_of : List ArchiveArtifact → Key
  source_hash_of artifacts = sha_lines (sort_lines (source_lines artifacts))

  -- The file that holds an artifact, after it was written if it was not there.
  unfoldable pub put_version : Key → List ℕ → Files → Result ArchiveError (ArchiveKey × Files)
  put_version directory content files =
      let key : ArchiveKey = record {
        directory = directory;
        file = version_of_metadata (sha content);
      } in
      elim (read key files) [
        | none ↦ ok (key, write key content files)
        | some existing ↦
            if sha existing == sha content then ok (key, files) else err conflicting_replacement
      ]

  unfoldable pub put_artifact :
      Key → ArchiveArtifact → Files → Result ArchiveError (ArchiveKey × Files)
  put_artifact directory a files =
      let key : ArchiveKey = record { directory = directory; file = named a.name } in
      elim (read key files) [
        | none ↦ ok (key, write key a.content files)
        | some existing ↦
            if sha existing == sha a.content
            then ok (key, files)
            else if is_source a.name
            then err conflicting_replacement
            else put_version directory a.content files
      ]

  unfoldable pub put_artifacts :
      Key → List ArchiveArtifact → Files → Result ArchiveError (List ArchivedArtifact × Files)
  put_artifacts directory [] files = ok ([], files)
  put_artifacts directory (a ∷ rest) files = do
    (key, files1) ← put_artifact directory a files
    (later, files2) ← put_artifacts directory rest files1
    ok (
      record { name = a.name; key = key; sha256 = sha a.content; bytes = length a.content } ∷ later,
      files2,
    )

  unfoldable pub archive_run :
      List ArchiveArtifact → Files → Result ArchiveError (ArchivedRun × Files)
  archive_run artifacts files = do
    guard (has_distinct_names artifacts) duplicate_name
    guard
        (supplies input_txt artifacts
          && supplies output_result_json artifacts
          && supplies solver_log artifacts)
        missing_artifact
    let hash = source_hash_of artifacts
    (archived, files') ← put_artifacts hash artifacts files
    ok (record { source_hash = hash; artifacts = archived }, files')

  -- The loop of `verifyArchive`, which collects the lines of the sources.
  unfoldable pub verify_artifacts : List ArchivedArtifact → Files → Result ArchiveError (List Line)
  verify_artifacts [] files = ok []
  verify_artifacts (a ∷ rest) files = do
    file ← or_throw (read a.key files) missing_file
    guard (sha file == a.sha256) checksum_mismatch
    guard (length file == a.bytes) size_mismatch
    later ← verify_artifacts rest files
    ok (if is_source a.name then (a.name, sha file) ∷ later else later)

  unfoldable pub verify_archive : ArchivedRun → Files → Result ArchiveError (Unit {0})
  verify_archive run files = do
    lines ← verify_artifacts run.artifacts files
    guard (length lines == 3) missing_source
    guard (sha_lines (sort_lines lines) == run.source_hash) source_hash_mismatch
