-- ===== src/Blobs/Tests.antt =====
-- Runs of the blob components on concrete pieces
-- (source/modules/eagine/core/blobs_impl.cpp).
mod Manipulators
use eagine_msgbus.Prelude.{
  ℕ, ◌+◌, ◌<◌, ◌≤◌, ◌≡◌, refl, true, ◌||◌, ltb, if◌then◌else◌, List, [], ◌∷◌, ◌++◌, arith,
}
use eagine_msgbus.Core.{normal}
use eagine_msgbus.Samples.{memory, buffers}
use eagine_msgbus.Blobs.Io.{BlobInfo, slice}
use eagine_msgbus.Blobs.Parts.{Part, merge_parts}
use eagine_msgbus.Blobs.Parts.Gaps.{Gaps, merge_parts-Gaps}
use eagine_msgbus.Blobs.Parts.Coverage.{covers, within, covers-merge_parts}
use eagine_msgbus.Blobs.Buffer.{buffer_target, buffer-Collects}
use eagine_msgbus.Blobs.Pending.{
  PendingBlob, done_parts, todo_parts, merge_fragment, merge_resend_request, received_everything,
}
use eagine_msgbus.Blobs.Pending.Merge.{IsAssembling, merge_fragment-IsAssembling}
use eagine_msgbus.Blobs.Pending.Complete.{merge_all, buffer_reassembles}
use eagine_msgbus.Blobs.Pending.Resend.{requested_to, merge_resend_request-covers}
use eagine_msgbus.Blobs.Stream.{BlobStream, store_fragment}
use eagine_msgbus.Blobs.Stream.Order.{IsStreaming, store_fragment-IsStreaming}
use eagine_msgbus.Blobs.Stream.Stall.{store_all, in_sequence, overlap_stalls}

abbrev some_parts : List Part
some_parts = (0, 3) ∷ (6, 9) ∷ []

merge_parts-Gaps_example : Gaps 0 (merge_parts 2 5 some_parts)
merge_parts-Gaps_example =
    merge_parts-Gaps 2 5 some_parts (omega arith)
      (omega arith, omega arith, (omega arith, omega arith, tt))

covers-merge_parts_example :
    covers (merge_parts 2 5 some_parts) 4 ≡ (covers some_parts 4 || within 2 5 4)
covers-merge_parts_example =
    covers-merge_parts 2 5 some_parts 4 (omega arith)
      (omega arith, omega arith, (omega arith, omega arith, tt))

abbrev blob : List ℕ
blob = 7 ∷ 8 ∷ 9 ∷ []

abbrev info : BlobInfo
info = record { source_id = 1; target_id = 2; total_size = 3; options = 0; priority = normal }

abbrev pending : PendingBlob ℕ ℕ (List ℕ) ℕ ℕ
pending = record {
  msg_id = 0;
  info = info;
  source_io = 0;
  target_io = 0 ∷ 0 ∷ 0 ∷ [];
  fragment_parts = ([], (0, 1) ∷ []);
  latest_update = 0;
  linger_time = 0;
  prepare_update_time = 0;
  max_time = 0;
  source_blob_id = 1;
  target_blob_id = 2;
  prepare_progress = 0;
  previous_progress = 0;
}

pending-IsAssembling :
    IsAssembling {Src = ℕ} buffers memory
      (buffer_target memory)
      blob
      (buffer-Collects memory blob)
      pending
pending-IsAssembling = record {
  gaps = tt;
  inside = tt;
  total = refl;
  ready = refl;
  has = λ x h. ground arith;
}

merge_fragment-IsAssembling_example :
    let r = merge_fragment buffers memory (buffer_target memory) pending 1 (slice blob 1 3) 5 in
    (r.1 ≡ true)
    × IsAssembling buffers memory (buffer_target memory) blob (buffer-Collects memory blob) r.0
    × ((x : ℕ) → covers (done_parts r.0) x ≡ (covers (done_parts pending) x || within 1 3 x))
merge_fragment-IsAssembling_example =
    merge_fragment-IsAssembling buffers memory (buffer_target memory) blob
      (buffer-Collects memory blob) pending 1 3 5 (omega arith) (omega arith) pending-IsAssembling

abbrev pieces : List Part
pieces = (1, 3) ∷ (0, 2) ∷ []

pieces_cover : (x : ℕ) → x < 3 → covers pieces x ≡ true
pieces_cover x h = ground arith

buffer_reassembles_example :
    let q =
      merge_all buffers memory
        (buffer_target memory)
        blob
        (buffer-Collects memory blob)
        pending
        5
        pieces in
    (received_everything q ≡ true) × (q.target_io ≡ blob)
buffer_reassembles_example =
    buffer_reassembles buffers memory blob pending 5 pieces (omega arith) refl refl refl
      (omega arith, omega arith, (omega arith, omega arith, tt)) pieces_cover

merge_resend_request-covers_example :
    let q = merge_resend_request buffers pending 2 3 in
    Gaps 0 (todo_parts q)
    × ((x : ℕ)
        → covers (todo_parts q) x
          ≡ (covers (todo_parts pending) x || within 2 (requested_to 3 3) x))
    × (done_parts q ≡ (if ltb 2 (requested_to 3 3) then todo_parts pending else done_parts pending))
    × (q ≡ record pending { fragment_parts = q.fragment_parts })
merge_resend_request-covers_example =
    merge_resend_request-covers buffers pending 2 3 (omega arith, omega arith, tt)

abbrev stream : BlobStream
stream = record { offs_done = 0; unmerged = []; appended = [] }

store_fragment-IsStreaming_example :
    let s' = (store_fragment memory stream 0 (slice blob 0 2) info).0 in
    IsStreaming blob s' × (2 ≤ s'.offs_done)
store_fragment-IsStreaming_example =
    store_fragment-IsStreaming memory blob stream 0 2 info (omega arith) (omega arith)
      (omega arith, omega arith) (record { pieces = tt; inside = omega arith; follows = refl })

abbrev waiting : BlobStream
waiting = record { offs_done = 0; unmerged = (2, 9 ∷ []) ∷ []; appended = [] }

overlap_stalls_example :
    (store_all memory waiting info ((0, 7 ∷ 8 ∷ 9 ∷ []) ∷ (3, 4 ∷ []) ∷ [])).appended
    ≡ ([] ++ record { offset = 0; blocks = (7 ∷ 8 ∷ 9 ∷ []) ∷ [] } ∷ [])
      ++ in_sequence memory (0 + 3) ((3, 4 ∷ []) ∷ [])
overlap_stalls_example =
    overlap_stalls memory waiting 2 (9 ∷ []) (7 ∷ 8 ∷ 9 ∷ []) [] info ((3, 4 ∷ []) ∷ []) refl
      (omega arith) (omega arith)
