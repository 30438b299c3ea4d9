-- ===== src/Blobs/Manipulator.antt =====
-- `blob_manipulator` of source/modules/eagine/core/blobs.cpp and blobs_impl.cpp: the outgoing and
-- the incoming blobs of a node. The buffer pool is not part of the state: what it recycles is never
-- read again. A source or target is not shared between pending blobs.
pub mod Outgoing
pub mod Incoming
pub mod Upkeep
pub mod Pieces
pub mod Sending
pub mod Rounds
pub mod Receiving
pub mod Delivery
pub mod Transfer
pub mod Refused
pub mod Stalled
pub mod Missing
pub mod Fetching
use eagine_msgbus.Prelude.{
  ℕ, ◌+◌, ◌-◌, ◌*◌, ◌/◌, ◌^◌, ◌%◌, ◌≤◌, ◌≡◌, Bool, true, false, Option, none, some, List, [], ◌∷◌,
  ◌++◌, length, map, ltb, ◌==◌, if◌then◌else◌,
}
use eagine_msgbus.Prelude.Int.{ℤ}
use eagine_msgbus.Core.{
  Priority, idle, low, normal, high, critical, Memory, DoubleBuffer, Timers, Floats, broadcast_id,
}
use eagine_msgbus.Message.Info.{Message}
use eagine_msgbus.Router.Ident.{MessageId}
use eagine_msgbus.Blobs.Parts.{Part}
use eagine_msgbus.Blobs.Io.{SourceIo, TargetIo}
use eagine_msgbus.Blobs.Pending.{PendingBlob, todo_parts}

-- What stands before the bytes of a fragment in a message; the offset and the size are of type
-- `std::int64_t`. The message id is written as its class and its method.
pub record FragmentHeader : Type 0 where
  pub msg_id : MessageId
  pub source_blob_id : ℕ
  pub target_blob_id : ℕ
  pub offset : ℤ
  pub total_size : ℤ
  pub options : ℕ

-- The serialization of eagine.core. `write_header h size` is the header in a block of the given
-- size, if there is room; `read_header` gives a header and the bytes behind it. The other pairs of
-- functions are the parameters of a resend request (the blob id, begin and end) and of a progress
-- message (the blob id and the progress), in a buffer of their own size.
pub record BlobCodec (F : Type 0) : Type 0 where
  pub write_header : FragmentHeader → ℕ → Option (List ℕ)
  pub read_header : List ℕ → Option (FragmentHeader × List ℕ)
  pub read-write_header :
      (h : FragmentHeader) (size : ℕ) (bytes rest : List ℕ)
      → write_header h size ≡ some bytes
      → read_header (bytes ++ rest) ≡ some (h, rest)
  pub max_header_size : ℕ
  pub write_header-some :
      (h : FragmentHeader) (size : ℕ)
      → max_header_size ≤ size
      → (bytes : List ℕ) × (write_header h size ≡ some bytes) × (length bytes ≤ max_header_size)
  pub write_resend : ℕ → ℕ → ℕ → List ℕ
  pub read_resend : List ℕ → Option (ℕ × ℕ × ℕ)
  pub read-write_resend :
      (id bgn end : ℕ) → read_resend (write_resend id bgn end) ≡ some (id, bgn, end)
  pub write_progress : ℕ → F → List ℕ
  pub read_progress : List ℕ → Option (ℕ × F)

-- What the operations call, and the I/O objects of a `pending_blob` that has none yet.
pub record BlobEnvironment (Src Tgt Timeout F : Type 0) : Type 0 where
  pub mem : Memory
  pub buffers : DoubleBuffer (List Part)
  pub timers : Timers Timeout
  pub floats : Floats F
  pub codec : BlobCodec F
  pub source : SourceIo Src F
  pub target : TargetIo Tgt
  pub handle_prepared : Tgt → F → Tgt
  pub no_source : Src
  pub no_target : Tgt

-- A message that is handed to the send handler.
abbrev pub Sent : Type 0
Sent = MessageId × Message

pub record BlobManipulator (Src Tgt Timeout F : Type 0) : Type 0 where
  pub fragment_msg_id : MessageId
  pub resend_msg_id : MessageId
  pub prepare_msg_id : MessageId
  pub max_blob_size : ℕ
  pub blob_id_sequence : ℕ
  pub outgoing_index : ℕ
  pub outgoing : List (PendingBlob MessageId Src Tgt Timeout F)
  pub incoming : List (PendingBlob MessageId Src Tgt Timeout F)

-- The largest `blob_id_t`.
abbrev pub max_blob_id : ℕ
max_blob_id = 2 ^ 32 - 1

-- The sizes are at least 92, the room for a header with the priority high.
unfoldable pub message_size : Priority → ℕ → ℕ
message_size critical max_message_size = max_message_size - 92
message_size high max_message_size = max_message_size - 92
message_size normal max_message_size = max_message_size * 3 / 4
message_size low max_message_size = max_message_size * 2 / 3
message_size idle max_message_size = max_message_size / 2

-- `_next_blob_id`: the new sequence, which is the id.
unfoldable pub next_blob_id : ℕ → ℕ
next_blob_id sequence = (if sequence == max_blob_id then 0 else sequence) + 1

module _ {Src Tgt Timeout F : Type 0} (env : BlobEnvironment Src Tgt Timeout F) where
  open env use {mem, timers, floats, source, no_source, no_target}

  -- A `pending_blob` as it is created, at the time `now`.
  unfoldable pub new_pending_blob : MessageId → ℕ → PendingBlob MessageId Src Tgt Timeout F
  new_pending_blob msg_id now = record {
    msg_id = msg_id;
    info = record {
      source_id = broadcast_id;
      target_id = broadcast_id;
      total_size = 0;
      options = 0;
      priority = normal;
    };
    source_io = no_source;
    target_io = no_target;
    fragment_parts = ([], []);
    latest_update = 0;
    linger_time = timers.timer now 15;
    prepare_update_time = timers.timer now 5;
    max_time = timers.unset;
    source_blob_id = 0;
    target_blob_id = 0;
    prepare_progress = floats.zero;
    previous_progress = floats.zero;
  }

  -- `push_outgoing` of a source; the result is the id of the blob, or 0.
  unfoldable pub push_outgoing :
      ℕ
      → MessageId
      → ℕ
      → ℕ
      → ℕ
      → Src
      → ℕ
      → ℕ
      → Priority
      → BlobManipulator Src Tgt Timeout F
      → BlobManipulator Src Tgt Timeout F × ℕ
  push_outgoing now msg_id source_id target_id target_blob_id io max_time options priority m =
      let total = source.total_size io in
      let id = next_blob_id m.blob_id_sequence in
      let fresh = new_pending_blob msg_id now in
      if ltb 0 total
      then (
        record m {
          blob_id_sequence = id;
          outgoing =
              m.outgoing
              ++ record fresh {
                info = record {
                  source_id = source_id;
                  target_id = target_id;
                  total_size = total;
                  options = options;
                  priority = priority;
                };
                source_io = io;
                fragment_parts = ([], (0, total) ∷ []);
                linger_time = timers.reset now fresh.linger_time;
                max_time = timers.timer now max_time;
                source_blob_id = id;
                target_blob_id = target_blob_id;
              }
                ∷ [];
        },
        id,
      )
      else (m, 0)

  -- `expect_incoming`
  pub expect_incoming :
      ℕ
      → MessageId
      → ℕ
      → ℕ
      → Tgt
      → ℕ
      → BlobManipulator Src Tgt Timeout F
      → BlobManipulator Src Tgt Timeout F × Bool
  expect_incoming now msg_id source_id target_blob_id io max_time m =
      let fresh = new_pending_blob msg_id now in
      (
        record m {
          incoming =
              m.incoming
              ++ record fresh {
                info = record fresh.info { source_id = source_id; priority = normal };
                source_blob_id = 0;
                target_blob_id = target_blob_id;
                target_io = io;
                latest_update = now;
                max_time = timers.timer now max_time;
              }
                ∷ [];
        },
        true,
      )

  -- `make_target_io` for targets in memory, the buffer filled with zeros.
  unfoldable pub make_target_io : BlobManipulator Src Tgt Timeout F → ℕ → Option (List ℕ)
  make_target_io m total_size =
      if ltb total_size m.max_blob_size
      then some (map (λ _. 0) (mem.get_buffer total_size))
      else none
