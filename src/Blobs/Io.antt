-- ===== src/Blobs/Io.antt =====
-- The interfaces `source_blob_io` and `target_blob_io` of source/modules/eagine/core/blobs.cpp,
-- through which a blob is read and an incoming blob is stored.
use eagine_msgbus.Prelude.{ℕ, ◌-◌, ◌≤◌, ◌<◌, ◌≡◌, Bool, true, false, List, leb, take, drop, length}
use eagine_msgbus.Core.{Priority}

pub record BlobInfo : Type 0 where
  pub source_id : ℕ
  pub target_id : ℕ
  pub total_size : ℕ
  pub options : ℕ
  pub priority : Priority

-- The calls that `pending_blob` makes of its target while fragments come in. `S` is the state of
-- the I/O objects. `check_stored` changes nothing in any class of the sources.
pub record TargetIo (S : Type 0) : Type 0 where
  pub store_fragment : S → ℕ → List ℕ → BlobInfo → S × Bool
  pub check_stored : S → ℕ → List ℕ → Bool

-- The bytes from `a` up to `b`.
abbrev pub slice : List ℕ → ℕ → ℕ → List ℕ
slice blob a b = take (b - a) (drop a blob)

-- A target takes pieces of `blob` in any order: once a byte is there, it stays, and a piece whose
-- bytes are all there passes the check. `Ready` is what the target keeps, `Has s x` says that the
-- byte at `x` is there.
pub record Collects {S : Type 0} (io : TargetIo S) (blob : List ℕ) : Type 1 where
  pub Ready : S → Type 0
  pub Has : S → ℕ → Type 0
  pub store-ok :
      (s : S) (a b : ℕ) (info : BlobInfo)
      → Ready s
      → a ≤ b
      → b ≤ length blob
      → (io.store_fragment s a (slice blob a b) info).1 ≡ true
  pub store-Ready :
      (s : S) (a b : ℕ) (info : BlobInfo)
      → Ready s
      → a ≤ b
      → b ≤ length blob
      → Ready (io.store_fragment s a (slice blob a b) info).0
  pub store_keeps :
      (s : S) (a b x : ℕ) (info : BlobInfo)
      → Ready s
      → a ≤ b
      → b ≤ length blob
      → Has s x
      → Has (io.store_fragment s a (slice blob a b) info).0 x
  pub store_adds :
      (s : S) (a b x : ℕ) (info : BlobInfo)
      → Ready s
      → a ≤ b
      → b ≤ length blob
      → a ≤ x
      → x < b
      → Has (io.store_fragment s a (slice blob a b) info).0 x
  pub check-ok :
      (s : S) (a b : ℕ)
      → Ready s
      → a ≤ b
      → b ≤ length blob
      → ((x : ℕ) → a ≤ x → x < b → Has s x)
      → io.check_stored s a (slice blob a b) ≡ true

pub data BlobPreparationStatus : Type 0 where
  finished working failed : BlobPreparationStatus

pub record BlobPreparationResult (F : Type 0) : Type 0 where
  pub progress : F
  pub status : BlobPreparationStatus

abbrev pub is_working : BlobPreparationStatus → Bool
is_working working = true
is_working _ = false

abbrev pub has_finished : BlobPreparationStatus → Bool
has_finished finished = true
has_finished _ = false

abbrev pub has_failed : BlobPreparationStatus → Bool
has_failed failed = true
has_failed _ = false

-- `fetch_fragment` is given the size of the destination and returns the bytes it has written. The
-- questions `is_at_eod` and `total_size` change nothing in any class of the sources.
pub record SourceIo (S F : Type 0) : Type 0 where
  pub prepare : S → S × BlobPreparationResult F
  pub is_at_eod : S → ℕ → Bool
  pub total_size : S → ℕ
  pub fetch_fragment : S → ℕ → ℕ → S × List ℕ

-- A source that holds `blob` and is prepared.
pub record Provides {S F : Type 0} (io : SourceIo S F) (blob : List ℕ) : Type 1 where
  pub Ready : S → Type 0
  pub prepare-finished : (s : S) → Ready s → (io.prepare s).1.status ≡ finished
  pub prepare-Ready : (s : S) → Ready s → Ready (io.prepare s).0
  pub is_at_eod_lem : (s : S) (offs : ℕ) → Ready s → io.is_at_eod s offs ≡ leb (length blob) offs
  pub fetch_fragment_lem :
      (s : S) (offs size : ℕ)
      → Ready s
      → (io.fetch_fragment s offs size).1 ≡ take size (drop offs blob)
  pub fetch_fragment-Ready :
      (s : S) (offs size : ℕ) → Ready s → Ready (io.fetch_fragment s offs size).0
