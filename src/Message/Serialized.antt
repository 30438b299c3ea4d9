-- ===== src/Message/Serialized.antt =====
-- `serialized_message_storage`, `message_packing_context` and `message_pack_info` of
-- source/modules/eagine/core/message.cpp and message_impl.cpp: the messages that wait on a
-- connection, and how several of them are packed into one block.
mod Bits
pub mod Marked
pub mod Packed
use eagine_msgbus.Prelude.{
  ℕ, zero, suc, ◌+◌, ◌*◌, ◌/◌, ◌%◌, ◌^◌, ◌≡◌, Bool, true, false, Option, none, some, List, [], ◌∷◌,
  ◌++◌, ◌==◌, if◌then◌else◌, length, bit_and, bit_or,
}
use eagine_msgbus.Core.{Memory, Priority, idle, max_priority}
use eagine_msgbus.Message.Sweep.{sweep, remaining, erase_if}

-- An element of `serialized_message_storage::_messages`.
pub record Serialized : Type 0 where
  pub message : List ℕ
  pub timestamp : ℕ
  pub priority : Priority

-- What packing calls in eagine.core. `store_data_with_size(data, dst)` writes the size of `data` and
-- `data` to the begin of `dst` and returns what it has written, nothing if there is no room;
-- `zero(blk)` fills a block; `limit_cast<std::uint16_t>`.
pub record Packing : Type 0 where
  pub store_data_with_size : List ℕ → List ℕ → Option (List ℕ)
  pub zeroed : List ℕ → List ℕ
  pub limit_uint16 : ℕ → ℕ

-- `message_pack_info`; the bit set is a `std::uintmax_t` of 64 bits.
pub record PackInfo : Type 0 where
  pub packed_bits : ℕ
  pub packed_size : ℕ
  pub total_size : ℕ
  pub highest_priority : Priority

-- `message_pack_info::add`
unfoldable pub add_packed : Packing → ℕ → Priority → ℕ → PackInfo → PackInfo
add_packed packing msg_size priority current_bit info = record info {
  packed_size = (info.packed_size + packing.limit_uint16 msg_size) % 2 ^ 16;
  packed_bits = bit_or info.packed_bits current_bit;
  highest_priority = max_priority info.highest_priority priority;
}

-- `message_packing_context`; `written` is what `_blk` has left behind.
pub record PackingContext : Type 0 where
  pub current_bit : ℕ
  pub written : List ℕ
  pub blk : List ℕ
  pub info : PackInfo

unfoldable pub new_packing : Packing → List ℕ → PackingContext
new_packing packing blk = record {
  current_bit = 1;
  written = [];
  blk = blk;
  info = record {
    packed_bits = 0;
    packed_size = 0;
    total_size = packing.limit_uint16 (length blk);
    highest_priority = idle;
  };
}

unfoldable pub is_full : PackingContext → Bool
is_full c = c.current_bit == 0

-- `_current_bit <<= 1U`
unfoldable pub next_bit : PackingContext → PackingContext
next_bit c = record c { current_bit = (c.current_bit * 2) % 2 ^ 64 }

-- The elements whose bits are set lose their buffers; a bit behind the last element would be
-- an access out of range.
unfoldable pub eat_marked : ℕ → List Serialized → List Serialized
eat_marked to_be_removed [] = []
eat_marked to_be_removed (e ∷ es) =
    let rest = eat_marked (to_be_removed / 2) es in
    if to_be_removed == 0
    then e ∷ es
    else (if bit_and to_be_removed 1 == 1 then record e { message = [] } else e) ∷ rest

unfoldable pub has_no_buffer : Serialized → Bool
has_no_buffer e = length e.message == 0

-- `cleanup`
unfoldable pub cleanup_packed : PackInfo → List Serialized → List Serialized
cleanup_packed packed messages =
    if packed.packed_bits == 0
    then messages
    else erase_if has_no_buffer (eat_marked packed.packed_bits messages)

module _ (mem : Memory) where
  -- `push`, at the time `now`
  unfoldable pub push_serialized : List Serialized → List ℕ → Priority → ℕ → List Serialized
  push_serialized messages message priority now =
      if length message == 0
      then messages
      else messages
        ++ record {
          message = mem.copy_into message (mem.get_buffer (length message));
          timestamp = now;
          priority = priority;
        }
          ∷ []

  module _ (packing : Packing) where
    -- `message_packing_context::add`, with the bytes that stand in the block.
    unfoldable pub add_message : List ℕ → Priority → PackingContext → PackingContext
    add_message packed priority c = record c {
      written = c.written ++ packed;
      blk = mem.skip c.blk (length packed);
      info = add_packed packing (length packed) priority c.current_bit c.info;
    }

    -- The body of the loop of `pack_into`.
    unfoldable pub pack_one : Serialized → PackingContext → PackingContext
    pack_one e c = elim (packing.store_data_with_size e.message c.blk) [
      | none ↦ next_bit c
      | some packed ↦ next_bit (add_message packed e.priority c)
    ]

    unfoldable pub pack_rest : PackingContext → List Serialized → PackingContext
    pack_rest c [] = c
    pack_rest c (e ∷ es) = let rest = pack_rest (pack_one e c) es in if is_full c then c else rest

    -- `pack_into`: the bytes of the block, and what has been packed.
    unfoldable pub pack_into : List ℕ → List Serialized → List ℕ × PackInfo
    pack_into dest messages =
        let c = pack_rest (new_packing packing dest) messages in
        (c.written ++ packing.zeroed c.blk, c.info)

module _ {S : Type 0} where
  -- `fetch_all`
  unfoldable pub fetch_serialized :
      (S → ℕ → Priority → List ℕ → S × Bool) → S → List Serialized → S × List Serialized × Bool
  fetch_serialized handler s messages =
      let w =
        sweep (λ s e. handler s e.timestamp e.priority e.message) (λ e. record e { message = [] }) s
          messages in
      (w.state, remaining has_no_buffer w, w.some_handled)
