-- ===== src/Archive/Verified.antt =====
-- `verifyArchive` of src/solver/archive.ts on what `archiveRun` left.
use gto_poker_daily_spots_ba.Prelude.{
  ℕ, suc, ◌+◌, ◌==◌, true, false, if◌then◌else◌, ◌≡◌, refl, ◌∙◌, ap, sym, inl, inr, List, [], ◌∷◌,
  some, Key, ok, length, arith, Bool-cases, Result-cases, ==_self, ==_iff,
}
use gto_poker_daily_spots_ba.Archive.{
  ArtifactName, input_txt, output_result_json, solver_log, metadata_json, ArchiveArtifact,
  ArchiveKey, Files, read, rank, same_name, supplies, has_distinct_names, ArchivedArtifact, Line,
  put_artifact, put_artifacts, source_lines, source_hash_of, archive_run, verify_artifacts,
  verify_archive, ArchivedRun,
}
use gto_poker_daily_spots_ba.Archive.Grows.{put_artifact-IsPut}

-- The files of `files` are in `more`, as they were.
abbrev pub Keeps : (files more : Files) → Type 0
Keeps files more = (k : ArchiveKey) (c : List ℕ) → read k files ≡ some c → read k more ≡ some c

count : ArtifactName → List ArchiveArtifact → ℕ
count n [] = 0
count n (a ∷ rest) = if same_name a.name n then suc (count n rest) else count n rest

not_supplied :
    (n m : ArtifactName) (artifacts : List ArchiveArtifact)
    → rank m ≡ rank n
    → supplies m artifacts ≡ false
    → count n artifacts ≡ 0
unfolding count
not_supplied n m [] same e = refl
not_supplied n m (a ∷ rest) same e = ground (arith, not_supplied n m rest same)

count-distinct :
    (n : ArtifactName) (artifacts : List ArchiveArtifact)
    → has_distinct_names artifacts ≡ true
    → supplies n artifacts ≡ true
    → count n artifacts ≡ 1
unfolding count has_distinct_names
count-distinct n [] d e = absurd (cc)
count-distinct n (a ∷ rest) d e = elim (Bool-cases (rank a.name == rank n)) [
  | inl same ↦
      let equal : rank a.name ≡ rank n = (==_iff (rank a.name) (rank n)).0 same in
      let fresh : supplies a.name rest ≡ false = ground arith in
      ground (arith, not_supplied n a.name rest equal fresh)
  | inr other ↦ ground (arith, count-distinct n rest)
]

module _ (sha : List ℕ → Key) (sha_lines : List Line → Key) where
  length-source_lines :
      (artifacts : List ArchiveArtifact)
      → length (source_lines sha sha_lines artifacts)
        ≡ count input_txt artifacts
          + count output_result_json artifacts
          + count solver_log artifacts
  unfolding count source_lines
  length-source_lines [] = refl
  length-source_lines (a ∷ rest) = added a.name a.content (length-source_lines rest)
    where
      added :
          (n : ArtifactName) (c : List ℕ)
          → length (source_lines sha sha_lines rest)
            ≡ count input_txt rest + count output_result_json rest + count solver_log rest
          → length (source_lines sha sha_lines (record { name = n; content = c } ∷ rest))
            ≡ count input_txt (record { name = n; content = c } ∷ rest)
              + count output_result_json (record { name = n; content = c } ∷ rest)
              + count solver_log (record { name = n; content = c } ∷ rest)
      added input_txt c e = ground arith
      added output_result_json c e = ground arith
      added solver_log c e = ground arith
      added metadata_json c e = e

  pub put_artifacts-Keeps :
      (directory : Key) (artifacts : List ArchiveArtifact) (files files' : Files)
      (entries : List ArchivedArtifact)
      → put_artifacts sha sha_lines directory artifacts files ≡ ok (entries, files')
      → Keeps files files'
  unfolding put_artifacts
  put_artifacts-Keeps directory [] files files' entries h = λ k c e. ground arith
  put_artifacts-Keeps directory (a ∷ rest) files files' entries h =
      elim (Result-cases (put_artifact sha sha_lines directory a files)) [
        | inr (thrown, n) ↦ absurd (ground arith)
        | inl ((key, files1), n) ↦
            elim (Result-cases (put_artifacts sha sha_lines directory rest files1)) [
              | inr (thrown, m) ↦ absurd (ground arith)
              | inl ((later, files2), m) ↦ λ k c e.
                  let put = put_artifact-IsPut sha sha_lines directory a files files1 key n in
                  let kept = put_artifacts-Keeps directory rest files1 files2 later m in
                  let same : files2 ≡ files' = ground arith in
                  ap (read k) (sym same) ∙ kept k c (put.grows k c e)
            ]
      ]

  verify_artifacts-put_artifacts :
      (sizes : (a b : List ℕ) → sha a ≡ sha b → length a ≡ length b) (directory : Key)
      (artifacts : List ArchiveArtifact) (files files' more : Files)
      (entries : List ArchivedArtifact)
      → put_artifacts sha sha_lines directory artifacts files ≡ ok (entries, files')
      → Keeps files' more
      → verify_artifacts sha sha_lines entries more ≡ ok (source_lines sha sha_lines artifacts)
  unfolding put_artifacts verify_artifacts source_lines
  verify_artifacts-put_artifacts sizes directory [] files files' more entries h kept = ground arith
  verify_artifacts-put_artifacts sizes directory (a ∷ rest) files files' more entries h kept =
      elim (Result-cases (put_artifact sha sha_lines directory a files)) [
        | inr (thrown, n) ↦ absurd (ground arith)
        | inl ((key, files1), n) ↦
            elim (Result-cases (put_artifacts sha sha_lines directory rest files1)) [
              | inr (thrown, m) ↦ absurd (ground arith)
              | inl ((later, files2), m) ↦
                  let put = put_artifact-IsPut sha sha_lines directory a files files1 key n in
                  let same : files2 ≡ files' = ground arith in
                  let later_kept : Keeps files2 more =
                    λ k c e. kept k c (ap (read k) (sym same) ∙ e) in
                  let there = later_kept key put.content (
                    put_artifacts-Keeps directory rest files1 files2 later m key put.content
                      put.there) in
                  let verified =
                    verify_artifacts-put_artifacts sizes directory rest files1 files2 more later m
                      later_kept in
                  let size = sizes put.content a.content put.digest_is in
                  let listed : entries
                      ≡ record {
                        name = a.name;
                        key = key;
                        sha256 = sha a.content;
                        bytes = length a.content;
                      }
                        ∷ later =
                    ground arith in
                  rw
                    (
                      listed,
                      there,
                      put.digest_is,
                      size,
                      ==_self (sha a.content),
                      ==_self (length a.content),
                      verified,
                    )
                    refl
            ]
      ]

  length_three :
      (artifacts : List ArchiveArtifact)
      → has_distinct_names artifacts ≡ true
      → supplies input_txt artifacts ≡ true
      → supplies output_result_json artifacts ≡ true
      → supplies solver_log artifacts ≡ true
      → length (source_lines sha sha_lines artifacts) ≡ 3
  length_three artifacts d a b c =
      rw
        (
          length-source_lines artifacts,
          count-distinct input_txt artifacts d a,
          count-distinct output_result_json artifacts d b,
          count-distinct solver_log artifacts d c,
        )
        refl

-- A run that has been archived is verified, as long as no file is changed or removed: on every
-- later state of the files that keeps those that the archiving left, `verifyArchive` accepts what
-- `archiveRun` returned. The hash must not give contents of different lengths one digest.
pub verify_archive-archive_run :
    (sha : List ℕ → Key) (sha_lines : List Line → Key)
    (sizes : (a b : List ℕ) → sha a ≡ sha b → length a ≡ length b)
    (artifacts : List ArchiveArtifact) (files files' more : Files) (run : ArchivedRun)
    → archive_run sha sha_lines artifacts files ≡ ok (run, files')
    → Keeps files' more
    → verify_archive sha sha_lines run more ≡ ok tt
unfolding archive_run verify_archive source_hash_of
verify_archive-archive_run sha sha_lines sizes artifacts files files' more run h kept =
    elim (Result-cases
      (put_artifacts sha sha_lines (source_hash_of sha sha_lines artifacts) artifacts files)) [
        | inr (thrown, n) ↦ absurd (ground arith)
        | inl ((entries, files1), n) ↦
            let distinct : has_distinct_names artifacts ≡ true = ground arith in
            let a : supplies input_txt artifacts ≡ true = ground arith in
            let b : supplies output_result_json artifacts ≡ true = ground arith in
            let c : supplies solver_log artifacts ≡ true = ground arith in
            let same : files1 ≡ files' = ground arith in
            let run_is : run ≡ record {
              source_hash = source_hash_of sha sha_lines artifacts;
              artifacts = entries;
            } =
              ground arith in
            let verified =
              verify_artifacts-put_artifacts sha sha_lines sizes
                (source_hash_of sha sha_lines artifacts) artifacts files files1 more entries n
                (λ k c e. kept k c (ap (read k) (sym same) ∙ e)) in
            rw
              (
                run_is,
                verified,
                length_three sha sha_lines artifacts distinct a b c,
                ==_self (source_hash_of sha sha_lines artifacts),
              )
              refl
      ]
