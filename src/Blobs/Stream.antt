-- ===== src/Blobs/Stream.antt =====
-- `blob_stream_io` of source/modules/eagine/core/blobs_impl.cpp: a target that hands a blob on in
-- order, as it comes in.
pub mod Order
pub mod Stall
use eagine_msgbus.Prelude.{
  ℕ, ◌+◌, ◌<◌, ◌≤◌, Bool, true, List, [], ◌∷◌, ◌++◌, ltb, ◌==◌, if◌then◌else◌, length,
}
use eagine_msgbus.Core.{Memory}
use eagine_msgbus.Blobs.Io.{BlobInfo, TargetIo}

-- `blob_stream_chunk`: consecutive blocks from an offset on.
pub record Chunk : Type 0 where
  pub offset : ℕ
  pub blocks : List (List ℕ)

-- `_offs_done`, `_unmerged` in the order of its keys, and the chunks that were signalled, the oldest
-- first. `_merged` and `_consecutive` are empty between two calls.
pub record BlobStream : Type 0 where
  pub offs_done : ℕ
  pub unmerged : List (ℕ × List ℕ)
  pub appended : List Chunk

-- `_unmerged[offset] = buf`
pub set_unmerged : ℕ → List ℕ → List (ℕ × List ℕ) → List (ℕ × List ℕ)
set_unmerged k buf [] = (k, buf) ∷ []
set_unmerged k buf ((j, old) ∷ m) =
    if k == j
    then (k, buf) ∷ m
    else if ltb k j
    then (k, buf) ∷ (j, old) ∷ m
    else (j, old) ∷ set_unmerged k buf m

-- The loop over `_unmerged`: the blocks that continue at `data_end`, the new end, and what stays.
pub record Run : Type 0 where
  pub blocks : List (List ℕ)
  pub data_end : ℕ
  pub rest : List (ℕ × List ℕ)

pub consecutive : ℕ → List (ℕ × List ℕ) → Run
consecutive data_end [] = record { blocks = []; data_end = data_end; rest = [] }
consecutive data_end ((merge_offs, buf) ∷ m) =
    let run = consecutive (merge_offs + length buf) m in
    if merge_offs == data_end
    then record run { blocks = buf ∷ run.blocks }
    else record { blocks = []; data_end = data_end; rest = (merge_offs, buf) ∷ m }

-- What the assertions at the begin of `store_fragment` demand of a call: the block has bytes, and it
-- does not begin before the end of what was handed on.
abbrev pub IsAsserted : BlobStream → ℕ → List ℕ → Type 0
IsAsserted s offset blk = (0 < length blk) × (s.offs_done ≤ offset)

-- `store_fragment` behind these assertions; a build with assertions stops at a call that is not
-- `IsAsserted`, one without them goes on as here. With nothing unmerged the loop makes no round, and one
-- block is signalled.
pub store_fragment : Memory → BlobStream → ℕ → List ℕ → BlobInfo → BlobStream × Bool
unfolding consecutive set_unmerged
store_fragment mem s offset blk info =
    if offset == s.offs_done
    then (let run = consecutive (offset + length blk) s.unmerged in
        (
          record {
            offs_done = run.data_end;
            unmerged = run.rest;
            appended = s.appended ++ record { offset = offset; blocks = blk ∷ run.blocks } ∷ [];
          },
          true,
        ))
    else (
      record s {
        unmerged = set_unmerged offset (mem.copy blk (mem.get_buffer (length blk))) s.unmerged;
      },
      true,
    )

-- `check_stored` is the default of the interface.
abbrev pub stream_target : Memory → TargetIo BlobStream
stream_target mem = record {
  store_fragment = store_fragment mem;
  check_stored = λ s offset blk. true;
}
