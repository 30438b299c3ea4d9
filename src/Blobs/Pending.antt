-- ===== src/Blobs/Pending.antt =====
-- `pending_blob` of source/modules/eagine/core/blobs.cpp and blobs_impl.cpp: one transfer, with the
-- parts of the blob that are done (incoming) or to be sent (outgoing). The offsets of a blob fit
-- `span_size_t`, so they are plain numbers.
pub mod Knowing
pub mod Collecting
pub mod Merge
pub mod Complete
pub mod Resend
pub mod Source
pub mod Advance
use eagine_msgbus.Prelude.{
  ℕ, ◌+◌, ◌-◌, ◌≡◌, Bool, true, false, not, ◌&&◌, ◌||◌, List, [], ◌∷◌, ltb, leb, ◌==◌,
  if◌then◌else◌, length,
}
use eagine_msgbus.Core.{Memory, DoubleBuffer}
use eagine_msgbus.Blobs.Parts.{Part, Merging, place, place_last, merge_parts}
use eagine_msgbus.Blobs.Io.{BlobInfo, TargetIo}

-- `Src` and `Tgt` hold the I/O objects, a missing one included; `Msg` is the type of message ids
-- `Timeout` that of
-- the timers and `F` that of `float`. The first of `fragment_parts` is the current buffer.
pub record PendingBlob (Msg Src Tgt Timeout F : Type 0) : Type 0 where
  pub msg_id : Msg
  pub info : BlobInfo
  pub source_io : Src
  pub target_io : Tgt
  pub fragment_parts : List Part × List Part
  pub latest_update : ℕ
  pub linger_time : Timeout
  pub prepare_update_time : Timeout
  pub max_time : Timeout
  pub source_blob_id : ℕ
  pub target_blob_id : ℕ
  pub prepare_progress : F
  pub previous_progress : F

-- The sum of the lengths of parts.
unfoldable pub parts_size : List Part → ℕ
parts_size [] = 0
parts_size ((bgn, end) ∷ parts) = (end - bgn) + parts_size parts

-- The target and the conjunction of what its calls return.
pub record Transfer (Tgt : Type 0) : Type 0 where
  pub io : Tgt
  pub result : Bool

module _ {Tgt : Type 0} (mem : Memory) (target : TargetIo Tgt) (info : BlobInfo) where
  -- `result &= store(offs, src)`
  pub store : ℕ → List ℕ → Transfer Tgt → Transfer Tgt
  store offs src t =
      let (io, ok) = target.store_fragment t.io offs src info in
      record { io = io; result = t.result && ok }

  -- `result &= check(offs, blk)`
  pub check : ℕ → List ℕ → Transfer Tgt → Transfer Tgt
  check offs blk t = record t { result = t.result && target.check_stored t.io offs blk }

  -- What one round of the loop of `merge_fragment` stores and checks.
  pub transfer : ℕ → List ℕ → ℕ → ℕ → ℕ → Bool → Transfer Tgt → Transfer Tgt
  transfer bgn fragment end src_bgn src_end new_done t =
      if ltb bgn src_bgn
      then (if ltb end src_bgn
          then (if new_done then t else store bgn fragment t)
          else if leb end src_end
          then check src_bgn (mem.skip fragment (src_bgn - bgn))
              (if new_done then t else store bgn (mem.head fragment (src_bgn - bgn)) t)
          else check src_bgn (mem.head (mem.skip fragment (src_bgn - bgn)) (src_end - src_bgn)) (
              if new_done
              then t
              else store src_end (mem.skip fragment (src_end - bgn))
                  (store bgn (mem.head fragment (src_bgn - bgn)) t)))
      else if leb bgn src_end
      then (if leb end src_end
          then check bgn fragment t
          else check bgn (mem.head fragment (src_end - bgn))
              (store src_end (mem.skip fragment (src_end - bgn)) t))
      else t

  pub transfer_all : ℕ → List ℕ → ℕ → List Part → Merging → Transfer Tgt → Transfer Tgt
  transfer_all bgn fragment end [] m t = if m.new_done then t else store bgn fragment t
  transfer_all bgn fragment end ((src_bgn, src_end) ∷ src) m t =
      transfer_all bgn fragment end src (place bgn end src_bgn src_end m)
        (transfer bgn fragment end src_bgn src_end m.new_done t)

-- The test of `received_everything`.
pub received_parts : ℕ → List Part → Bool
received_parts total [] = not (total == 0)
received_parts total ((bgn, end) ∷ []) = (bgn == 0) && (not (total == 0) && leb total end)
received_parts total (_ ∷ _ ∷ _) = false

module _ {Msg Src Tgt Timeout F : Type 0} where
  abbrev pub done_parts : PendingBlob Msg Src Tgt Timeout F → List Part
  done_parts p = p.fragment_parts.0

  abbrev pub todo_parts : PendingBlob Msg Src Tgt Timeout F → List Part
  todo_parts p = p.fragment_parts.1

  -- `span_size_t` subtraction: the parts to do never exceed the blob.
  pub sent_size : PendingBlob Msg Src Tgt Timeout F → ℕ
  sent_size p = p.info.total_size - parts_size (todo_parts p)

  pub received_size : PendingBlob Msg Src Tgt Timeout F → ℕ
  received_size p = parts_size (done_parts p)

  unfoldable pub total_size_mismatch : PendingBlob Msg Src Tgt Timeout F → ℕ → Bool
  total_size_mismatch p size = not (p.info.total_size == 0) && not (p.info.total_size == size)

  pub received_everything : PendingBlob Msg Src Tgt Timeout F → Bool
  unfolding received_parts
  received_everything p = received_parts p.info.total_size (done_parts p)

module _ {Msg Src Tgt Timeout F : Type 0} (buffers : DoubleBuffer (List Part)) where
  -- `merge_fragment`, at the time `now`: the new state and what the function returns.
  unfoldable pub merge_fragment :
      Memory
      → TargetIo Tgt
      → PendingBlob Msg Src Tgt Timeout F
      → ℕ
      → List ℕ
      → ℕ
      → PendingBlob Msg Src Tgt Timeout F × Bool
  unfolding transfer_all
  merge_fragment mem target p bgn fragment now =
      let end = bgn + length fragment in
      let (_, src) = buffers.swap p.fragment_parts in
      let start : Merging = record { dst = []; new_done = false } in
      let t : Transfer Tgt = record { io = p.target_io; result = true } in
      let t' = transfer_all mem target p.info bgn fragment end src start t in
      (
        record p {
          fragment_parts = (merge_parts bgn end src, src);
          target_io = t'.io;
          latest_update = now;
        },
        t'.result,
      )

  -- `merge_resend_request`
  unfoldable pub merge_resend_request :
      PendingBlob Msg Src Tgt Timeout F → ℕ → ℕ → PendingBlob Msg Src Tgt Timeout F
  merge_resend_request p bgn requested_end =
      let end = if requested_end == 0 then p.info.total_size else requested_end in
      if ltb bgn end
      then (let (src, _) = buffers.swap p.fragment_parts in
          record p { fragment_parts = (src, merge_parts bgn end src) })
      else p
