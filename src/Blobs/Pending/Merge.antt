-- ===== src/Blobs/Pending/Merge.antt =====
-- `merge_fragment` of source/modules/eagine/core/blobs_impl.cpp on the pieces of one blob, in any
-- order, with repetitions and overlaps.
use eagine_msgbus.Prelude.{
  ℕ, ◌+◌, ◌-◌, ◌≤◌, ◌<◌, ◌≡◌, refl, ◌⊎◌, inl, inr, true, false, ◌||◌, List, [], arith, length, drop,
  length-take, length-drop,
}
use eagine_msgbus.Core.{Memory, DoubleBuffer}
use eagine_msgbus.Blobs.Parts.{Part, merge_parts}
use eagine_msgbus.Blobs.Parts.Gaps.{Gaps, merge_parts-Gaps}
use eagine_msgbus.Blobs.Parts.Coverage.{
  covers, within, covers-merge_parts, EndsBy, merge_parts-EndsBy,
}
use eagine_msgbus.Blobs.Io.{TargetIo, Collects, slice}
use eagine_msgbus.Blobs.Pending.{PendingBlob, done_parts, merge_fragment}
use eagine_msgbus.Blobs.Pending.Collecting.{transfer_all-Knows}

module _ {Msg Src Tgt Timeout F : Type 0} (buffers : DoubleBuffer (List Part)) (mem : Memory)
    (target : TargetIo Tgt) (blob : List ℕ) (collects : Collects target blob) where
  open collects use {Ready, Has}

  -- The state of an incoming blob: sorted parts with gaps between them, inside the blob, and every
  -- byte that they cover is there.
  pub record IsAssembling (p : PendingBlob Msg Src Tgt Timeout F) : Type 0 where
    pub gaps : Gaps 0 (done_parts p)
    pub inside : EndsBy (length blob) (done_parts p)
    pub total : p.info.total_size ≡ length blob
    pub ready : Ready p.target_io
    pub has : (x : ℕ) → covers (done_parts p) x ≡ true → Has p.target_io x

  -- A piece of the blob merges without a failure, wherever it lies and whatever came before: the
  -- state stays as described, and an offset is covered afterwards exactly if it was covered before
  -- or lies in the piece.
  pub merge_fragment-IsAssembling :
      (p : PendingBlob Msg Src Tgt Timeout F) (bgn fin now : ℕ)
      → bgn ≤ fin
      → fin ≤ length blob
      → IsAssembling p
      → let r = merge_fragment buffers mem target p bgn (slice blob bgn fin) now in
        (r.1 ≡ true)
        × IsAssembling r.0
        × ((x : ℕ) → covers (done_parts r.0) x ≡ (covers (done_parts p) x || within bgn fin x))
  unfolding merge_fragment
  merge_fragment-IsAssembling p bgn fin now h k v =
      let size : bgn + length (slice blob bgn fin) ≡ fin =
        omega (arith, length-take {0} (fin - bgn) (drop bgn blob), length-drop {0} bgn blob) in
      let known =
        transfer_all-Knows mem target p.info blob collects (λ x. covers (done_parts p) x ≡ true) bgn
          fin 0 (done_parts p) (record { dst = []; new_done = false })
          (record { io = p.target_io; result = true }) h k v.gaps (λ x c. c)
          (v.ready, refl, λ x l. elim l [ inl c ↦ v.has x c | inr r ↦ cc ]) in
      rw (size, buffers.swap_lem (done_parts p) p.fragment_parts.1, merge_fragment)
        (
          known.1,
          record {
            gaps = merge_parts-Gaps bgn fin (done_parts p) h v.gaps;
            inside = merge_parts-EndsBy (length blob) bgn fin (done_parts p) k v.inside;
            total = v.total;
            ready = known.0;
            has = λ x c. known.2 x (split x c);
          },
          λ x. covers-merge_parts bgn fin (done_parts p) x h v.gaps,
        )
    where
      split :
          (x : ℕ)
          → covers (merge_parts bgn fin (done_parts p)) x ≡ true
          → (covers (done_parts p) x ≡ true) ⊎ ((bgn ≤ x) × (x < fin))
      split x c = ground (arith, covers-merge_parts bgn fin (done_parts p) x h v.gaps)
