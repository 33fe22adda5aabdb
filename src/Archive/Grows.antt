-- ===== src/Archive/Grows.antt =====
-- The files that `archiveRun` of src/solver/archive.ts leaves.
use gto_poker_daily_spots_ba.Prelude.{
  ℕ, ◌==◌, true, ◌≡◌, refl, inl, inr, List, [], ◌∷◌, ◌++◌, none, some, Key, ok, arith, Bool-cases,
  Option-cases, ==_self,
}
use gto_poker_daily_spots_ba.Archive.{
  ArchiveArtifact, FileName, named, version_of_metadata, ArchiveKey, same_key, same_file, Files,
  read, write, rank, Line, put_version, put_artifact,
}

same_key_self : (k : ArchiveKey) → same_key k k ≡ true
same_key_self k = rw (==_self k.directory) (self k.file)
  where
    self : (f : FileName) → same_file f f ≡ true
    self (named n) = ==_self (rank n)
    self (version_of_metadata j) = ==_self j

pub read-append :
    (k : ArchiveKey) (files more : Files) (c : List ℕ)
    → read k files ≡ some c
    → read k (files ++ more) ≡ some c
unfolding read
read-append k [] more c e = absurd (cc)
read-append k ((j, d) ∷ files) more c e = ground (arith, read-append k files more c)

pub read-write :
    (k : ArchiveKey) (c : List ℕ) (files : Files)
    → read k files ≡ none
    → read k (write k c files) ≡ some c
unfolding read
read-write k c [] e = rw (same_key_self k) refl
read-write k c ((j, d) ∷ files) e = ground (arith, read-write k c files)

-- No file that is there changes, and the file at `key` has the digest `digest`.
pub record IsPut (sha : List ℕ → Key) (files files' : Files) (key : ArchiveKey) (digest : Key)
    : Type 0 where
  pub content : List ℕ
  pub there : read key files' ≡ some content
  pub digest_is : sha content ≡ digest
  pub grows : (k : ArchiveKey) (c : List ℕ) → read k files ≡ some c → read k files' ≡ some c

module _ (sha : List ℕ → Key) (sha_lines : List Line → Key) where
  put_version-IsPut :
      (directory : Key) (content : List ℕ) (files files' : Files) (key : ArchiveKey)
      → put_version sha sha_lines directory content files ≡ ok (key, files')
      → IsPut sha files files' key (sha content)
  unfolding put_version
  put_version-IsPut directory content files files' key h =
      elim (Option-cases (read at_version files)) [
        | inl n ↦ record {
          content = content;
          there = ground (arith, read-write at_version content files n);
          digest_is = refl;
          grows = λ k c e. ground (arith, read-append k files ((at_version, content) ∷ []) c e);
        }
        | inr (existing, n) ↦ record {
          content = existing;
          there = ground arith;
          digest_is = ground arith;
          grows = λ k c e. ground arith;
        }
      ]
    where
      at_version : ArchiveKey
      at_version = record { directory = directory; file = version_of_metadata (sha content) }

  pub put_artifact-IsPut :
      (directory : Key) (a : ArchiveArtifact) (files files' : Files) (key : ArchiveKey)
      → put_artifact sha sha_lines directory a files ≡ ok (key, files')
      → IsPut sha files files' key (sha a.content)
  unfolding put_artifact
  put_artifact-IsPut directory a files files' key h = elim (Option-cases (read at_name files)) [
    | inl n ↦ record {
      content = a.content;
      there = ground (arith, read-write at_name a.content files n);
      digest_is = refl;
      grows = λ k c e. ground (arith, read-append k files ((at_name, a.content) ∷ []) c e);
    }
    | inr (existing, n) ↦ elim (Bool-cases (sha existing == sha a.content)) [
      | inl same ↦ record {
        content = existing;
        there = ground arith;
        digest_is = ground arith;
        grows = λ k c e. ground arith;
      }
      | inr other ↦ put_version-IsPut directory a.content files files' key (grind (arith))
    ]
  ]
    where
      at_name : ArchiveKey
      at_name = record { directory = directory; file = named a.name }
