-- ===== src/Blobs/Pending/Knowing.antt =====
-- One store or check of `merge_fragment` (source/modules/eagine/core/blobs_impl.cpp) when the fragment
-- is a piece of a given blob and the target collects that blob.
use eagine_msgbus.Prelude.{
  ℕ, ◌+◌, ◌-◌, ◌≤◌, ◌<◌, ◌≡◌, ap, ◌∙◌, ◌⊎◌, inl, inr, true, List, arith, length, take, drop,
  take-take, drop-take, drop-drop,
}
use eagine_msgbus.Core.{Memory}
use eagine_msgbus.Blobs.Io.{BlobInfo, TargetIo, Collects, slice}
use eagine_msgbus.Blobs.Pending.{Transfer, store, check}

module _ (blob : List ℕ) (mem : Memory) where
  head-slice : (a b k : ℕ) → a + k ≤ b → mem.head (slice blob a b) k ≡ slice blob a (a + k)
  head-slice a b k h =
      mem.head_lem (slice blob a b) k
      ∙ take-take k (b - a) (drop a blob) (omega arith)
      ∙ ap (λ n. take n (drop a blob)) {x = k} (omega arith)

  skip-slice : (a b k : ℕ) → mem.skip (slice blob a b) k ≡ slice blob (a + k) b
  skip-slice a b k =
      mem.skip_lem (slice blob a b) k
      ∙ drop-take k (b - a) (drop a blob)
      ∙ ap (take (b - a - k)) (drop-drop k a blob)
      ∙ ap (λ n. take n (drop (a + k) blob)) {x = b - a - k} (omega arith)

  pub head_to : (a b c : ℕ) → a ≤ c → c ≤ b → mem.head (slice blob a b) (c - a) ≡ slice blob a c
  head_to a b c h k =
      head-slice a b (c - a) (omega arith)
      ∙ ap (λ n. slice blob a n) {x = a + (c - a)} (omega arith)

  pub skip_from : (a b c : ℕ) → a ≤ c → mem.skip (slice blob a b) (c - a) ≡ slice blob c b
  skip_from a b c h =
      skip-slice a b (c - a) ∙ ap (λ n. slice blob n b) {x = a + (c - a)} (omega arith)

  pub head-skip :
      (a b c d : ℕ)
      → a ≤ c
      → c ≤ d
      → d ≤ b
      → mem.head (mem.skip (slice blob a b) (c - a)) (d - c) ≡ slice blob c d
  head-skip a b c d h k l = ap (λ f. mem.head f (d - c)) (skip_from a b c h) ∙ head_to c b d k l

module _ {Tgt : Type 0} (mem : Memory) (target : TargetIo Tgt) (info : BlobInfo) (blob : List ℕ)
    (collects : Collects target blob) where
  open collects use {Ready, Has}

  -- Nothing has failed, and the bytes of `K` are there.
  abbrev pub Knows : Transfer Tgt → (ℕ → Type 0) → Type 0
  Knows t K = Ready t.io × (t.result ≡ true) × ((x : ℕ) → K x → Has t.io x)

  pub store-Knows :
      (t : Transfer Tgt) (K L : ℕ → Type 0) (a b : ℕ)
      → a ≤ b
      → b ≤ length blob
      → ((x : ℕ) → L x → K x ⊎ ((a ≤ x) × (x < b)))
      → Knows t K
      → Knows (store mem target info a (slice blob a b) t) L
  unfolding store
  store-Knows t K L a b h fits incl v = (
    collects.store-Ready t.io a b info v.0 h fits,
    ground (arith, collects.store-ok t.io a b info v.0 h fits),
    λ x l. elim (incl x l) [
      | inl k ↦ collects.store_keeps t.io a b x info v.0 h fits (v.2 x k)
      | inr r ↦ collects.store_adds t.io a b x info v.0 h fits r.0 r.1
    ],
  )

  pub check-Knows :
      (t : Transfer Tgt) (K : ℕ → Type 0) (a b : ℕ)
      → a ≤ b
      → b ≤ length blob
      → ((x : ℕ) → a ≤ x → x < b → K x)
      → Knows t K
      → Knows (check mem target info a (slice blob a b) t) K
  unfolding check
  check-Knows t K a b h fits has v =
      (v.0, ground (arith, collects.check-ok t.io a b v.0 h fits (λ x p q. v.2 x (has x p q))), v.2)
