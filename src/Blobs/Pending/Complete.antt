-- ===== src/Blobs/Pending/Complete.antt =====
-- When an incoming blob of source/modules/eagine/core/blobs_impl.cpp is complete, and what it holds
-- then.
use eagine_msgbus.Prelude.{
  ℕ, ◌≤◌, ◌<◌, ◌≡◌, ◌≢◌, ◌↔◌, refl, true, ◌||◌, List, [], ◌∷◌, arith, length, eq_of_get_elem?,
}
use eagine_msgbus.Core.{Memory, DoubleBuffer}
use eagine_msgbus.Blobs.Parts.{Part}
use eagine_msgbus.Blobs.Parts.Coverage.{covers, whole, whole_of_covers, covers_of_whole}
use eagine_msgbus.Blobs.Io.{TargetIo, Collects, slice}
use eagine_msgbus.Blobs.Buffer.{buffer_target, buffer-Collects}
use eagine_msgbus.Blobs.Pending.{
  PendingBlob, done_parts, merge_fragment, received_everything, received_parts,
}
use eagine_msgbus.Blobs.Pending.Merge.{IsAssembling, merge_fragment-IsAssembling}

-- Ranges of a blob of `total` bytes.
abbrev pub ArePieces : ℕ → List Part → Type 0
ArePieces total [] = Unit {0}
ArePieces total ((bgn, fin) ∷ pieces) = (bgn ≤ fin) × (fin ≤ total) × ArePieces total pieces

received_parts-whole :
    (total : ℕ) (l : List Part) → 0 < total → l ≢ [] → received_parts total l ≡ whole l total
unfolding received_parts
received_parts-whole total [] h n = absurd (n refl)
received_parts-whole total ((b, e) ∷ []) h n = ground arith
received_parts-whole total (p ∷ q ∷ l) h n = refl

module _ {Msg Src Tgt Timeout F : Type 0} (buffers : DoubleBuffer (List Part)) (mem : Memory)
    (target : TargetIo Tgt) (blob : List ℕ) (collects : Collects target blob) where
  open collects use {Has}

  -- A blob of which something was received is complete exactly if every offset is covered.
  pub received_everything_iff :
      (p : PendingBlob Msg Src Tgt Timeout F)
      → 0 < length blob
      → done_parts p ≢ []
      → IsAssembling buffers mem target blob collects p
      → (received_everything p ≡ true)
        ↔ ((x : ℕ) → x < length blob → covers (done_parts p) x ≡ true)
  unfolding received_everything
  received_everything_iff p pos some_part v =
      let e = received_parts-whole (length blob) (done_parts p) pos some_part in
      rw (v.total, e)
        (
          λ w x h. covers_of_whole (length blob) (done_parts p) x w h,
          λ all. whole_of_covers (length blob) (done_parts p) pos v.gaps v.inside all,
        )

  -- Pieces of the blob, merged one after another.
  pub merge_all :
      PendingBlob Msg Src Tgt Timeout F → ℕ → List Part → PendingBlob Msg Src Tgt Timeout F
  merge_all p now [] = p
  merge_all p now ((bgn, fin) ∷ pieces) =
      merge_all (merge_fragment buffers mem target p bgn (slice blob bgn fin) now).0 now pieces

  merge_all-IsAssembling :
      (p : PendingBlob Msg Src Tgt Timeout F) (now : ℕ) (pieces : List Part)
      → ArePieces (length blob) pieces
      → IsAssembling buffers mem target blob collects p
      → IsAssembling buffers mem target blob collects (merge_all p now pieces)
        × ((x : ℕ)
            → covers (done_parts (merge_all p now pieces)) x
              ≡ (covers (done_parts p) x || covers pieces x))
  unfolding merge_all
  merge_all-IsAssembling p now [] a v = (v, λ x. ground arith)
  merge_all-IsAssembling p now ((bgn, fin) ∷ pieces) a v =
      let (_, v', c) =
        merge_fragment-IsAssembling buffers mem target blob collects p bgn fin now a.0 a.1 v in
      let p' = (merge_fragment buffers mem target p bgn (slice blob bgn fin) now).0 in
      let (v'', d) = merge_all-IsAssembling p' now pieces a.2 v' in
      (v'', λ x. ground (arith, c x, d x))

pub covered-ne-nil : (l : List Part) (x : ℕ) → covers l x ≡ true → l ≢ []
covered-ne-nil [] x h = cc
covered-ne-nil (p ∷ l) x h = λ e. cc

module _ {Msg Src Timeout F : Type 0} (buffers : DoubleBuffer (List Part)) (mem : Memory)
    (blob : List ℕ) where
  -- A buffer of the blob's size, of which nothing is done yet, receives pieces of the blob in any
  -- order, some of them more than once or overlapping. If together they make up the blob, the blob
  -- is complete afterwards and the buffer holds exactly the bytes of the blob.
  pub buffer_reassembles :
      (p : PendingBlob Msg Src (List ℕ) Timeout F) (now : ℕ) (pieces : List Part)
      → 0 < length blob
      → done_parts p ≡ []
      → p.info.total_size ≡ length blob
      → length p.target_io ≡ length blob
      → ArePieces (length blob) pieces
      → ((x : ℕ) → x < length blob → covers pieces x ≡ true)
      → let q =
          merge_all buffers mem (buffer_target mem) blob (buffer-Collects mem blob) p now pieces in
        (received_everything q ≡ true) × (q.target_io ≡ blob)
  buffer_reassembles p now pieces pos fresh total size are all =
      let collects = buffer-Collects mem blob in
      let target = buffer_target mem in
      let (v, c) =
        merge_all-IsAssembling buffers mem target blob collects p now pieces are (record {
          gaps = rw fresh tt;
          inside = rw fresh tt;
          total = total;
          ready = size;
          has = λ x h. absurd (covered-ne-nil _ x h fresh);
        }) in
      let q = merge_all buffers mem target blob collects p now pieces in
      let filled : (x : ℕ) → x < length blob → covers (done_parts q) x ≡ true =
        λ x h. ground (arith, c x, all x h) in
      (
        (received_everything_iff buffers mem target blob collects q pos
              (covered-ne-nil _ 0 (filled 0 pos)) v).1
            filled,
        eq_of_get_elem? q.target_io blob v.ready (λ i h. v.has i (filled i h)),
      )
