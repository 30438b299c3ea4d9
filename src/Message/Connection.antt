-- ===== src/Message/Connection.antt =====
-- What a connection keeps: `connection_outgoing_messages` and `connection_incoming_messages`, and
-- `serialize_message` and `deserialize_message`, of source/modules/eagine/core/message.cpp and
-- message_impl.cpp.
pub mod Queued
pub mod Unpacked
pub mod Hop
mod Tests
use eagine_msgbus.Prelude.{
  ℕ, zero, ◌-◌, ◌≡◌, ◌<◌, Bool, true, false, Option, none, some, List, [], ◌∷◌, ◌++◌, ◌==◌,
  if◌then◌else◌, length,
}
use eagine_msgbus.Core.{Memory, Priority, normal}
use eagine_msgbus.Message.Info.{Message, MessageInfo}
use eagine_msgbus.Message.Sweep.{erase_if}
use eagine_msgbus.Message.Storage.{Stored, push_if, fetch_all}
use eagine_msgbus.Message.Serialized.{Serialized, Packing, push_serialized, fetch_serialized}

-- The serialization of eagine.core for the tuple of the header: `write_header` into a sink with the
-- given room, and what is read back from a source with the bytes behind it. `write` tells
-- whether a sink with the given room takes a block; `no_id` is `message_id{}`.
pub record HeaderCodec (Msg : Type 0) : Type 0 where
  pub no_id : Msg
  pub write_header : Msg → MessageInfo → ℕ → Option (List ℕ)
  pub write : ℕ → List ℕ → Bool
  pub read_header : List ℕ → Option (Msg × MessageInfo × List ℕ)
  pub read-write_header :
      (msg_id : Msg) (info : MessageInfo) (room : ℕ) (bytes rest : List ℕ)
      → write_header msg_id info room ≡ some bytes
      → read_header (bytes ++ rest) ≡ some (msg_id, info, rest)
  pub length-write_header :
      (msg_id : Msg) (info : MessageInfo) (room : ℕ) (bytes : List ℕ)
      → write_header msg_id info room ≡ some bytes
      → 0 < length bytes

-- Whether a block is empty.
abbrev pub is_empty : List ℕ → Bool
is_empty blk = length blk == 0

-- `for_each_data_with_size` of eagine.core: the blocks that `store_data_with_size` has written one after
-- the other. A size of zero stands for an empty block.
pub record Unpacking (packing : Packing) : Type 0 where
  pub for_each_data : List ℕ → List (List ℕ)
  pub for_each_data-store :
      (src dst packed rest : List ℕ)
      → packing.store_data_with_size src dst ≡ some packed
      → for_each_data (packed ++ rest) ≡ src ∷ for_each_data rest
  pub for_each_data-zeroed :
      (blk : List ℕ) → erase_if is_empty (for_each_data (packing.zeroed blk)) ≡ []

-- `connection_incoming_messages`
pub record IncomingMessages (Msg : Type 0) : Type 0 where
  pub packed : List Serialized
  pub unpacked : List (Stored Msg)

abbrev pub no_messages : {Msg : Type 0} → IncomingMessages Msg
no_messages = record { packed = []; unpacked = [] }

module _ {Msg : Type 0} (codec : HeaderCodec Msg) where
  -- `serialize_message`, into a sink of `room` bytes
  unfoldable pub serialize_message : ℕ → Msg → Message → Option (List ℕ)
  serialize_message room msg_id message = elim (codec.write_header msg_id message.info room) [
    | none ↦ none
    | some header ↦
        if codec.write (room - length header) message.content
        then some (header ++ message.content)
        else none
  ]

  -- `deserialize_message`: the id, and the message with all that follows the header.
  unfoldable pub deserialize_message : List ℕ → Option (Msg × Message)
  deserialize_message blk = elim (codec.read_header blk) [
    | none ↦ none
    | some (msg_id, info, rest) ↦ some (msg_id, record { info = info; content = rest })
  ]

  -- The function that `fetch_messages` gives to `push_if`.
  unfoldable pub fill_message : ℕ → List ℕ → Stored Msg → Stored Msg × Bool
  fill_message data_ts blk fresh = elim (deserialize_message blk) [
    | none ↦ (fresh, false)
    | some (msg_id, message) ↦
        (record { msg_id = msg_id; message = message; insert_time = data_ts }, true)
  ]

  module _ (mem : Memory) where
    -- `connection_outgoing_messages::enqueue`; `temp` is the size of the block to serialize into.
    unfoldable pub enqueue : ℕ → ℕ → Msg → Message → List Serialized → List Serialized × Bool
    enqueue now temp msg_id message queue = elim (serialize_message temp msg_id message) [
      | none ↦ (queue, false)
      | some bytes ↦ (push_serialized mem queue bytes message.info.priority now, true)
    ]

    -- `connection_incoming_messages::push`
    unfoldable pub push_block : ℕ → List ℕ → IncomingMessages Msg → IncomingMessages Msg
    push_block now block incoming = record incoming {
      packed = push_serialized mem incoming.packed block normal now;
    }

    -- The callback of `for_each_data_with_size`,
    unfoldable pub unpack_one : ℕ → ℕ → List ℕ → List (Stored Msg) → List (Stored Msg)
    unpack_one now data_ts blk unpacked =
        if is_empty blk
        then unpacked
        else (push_if mem (fill_message data_ts blk) codec.no_id unpacked now).0

    -- and its calls.
    unfoldable pub unpack_all : ℕ → ℕ → List (List ℕ) → List (Stored Msg) → List (Stored Msg)
    unpack_all now data_ts [] unpacked = unpacked
    unpack_all now data_ts (blk ∷ blks) unpacked =
        unpack_all now data_ts blks (unpack_one now data_ts blk unpacked)

    module _ {packing : Packing} (unpacking : Unpacking packing) where
      -- `unpacker`
      unfoldable pub unpacker :
          ℕ → List (Stored Msg) → ℕ → Priority → List ℕ → List (Stored Msg) × Bool
      unpacker now unpacked data_ts priority block =
          (unpack_all now data_ts (unpacking.for_each_data block) unpacked, true)

      -- `connection_incoming_messages::fetch_messages`, whose result is always false. Messages that
      -- a handler refuses wait until the next block comes.
      unfoldable pub fetch_messages :
          {S : Type 0}
          → ℕ
          → (ℕ → ℕ)
          → (S → Msg → ℕ → Message → S × Bool)
          → S
          → IncomingMessages Msg
          → S × IncomingMessages Msg × Bool
      fetch_messages now age_of handler s incoming =
          let (unpacked, left, fetched) =
            fetch_serialized (unpacker now) incoming.unpacked incoming.packed in
          let (s', waiting, _) = fetch_all age_of handler s unpacked in
          if fetched
          then (s', record { packed = left; unpacked = waiting }, false)
          else (s, record { packed = left; unpacked = unpacked }, false)
