-- ===== src/Message/Tests.antt =====
-- Runs of the message components on concrete messages
-- (source/modules/eagine/core/message_impl.cpp).
use eagine_msgbus.Prelude.{
  ℕ, ◌+◌, ◌≡◌, Bool, true, false, List, [], ◌∷◌, ◌++◌, ◌==◌, if◌then◌else◌, length, arith,
}
use mathlib.Core.List.{cons≢nil}
use eagine_msgbus.Prelude.Int.{pos}
use eagine_msgbus.Core.{Priority, low, normal, high}
use eagine_msgbus.Samples.{memory, packing}
use eagine_msgbus.Message.Info.{Message, too_many_hops}
use eagine_msgbus.Message.Sweep.{erase_if, refused}
use eagine_msgbus.Message.Queue.{push, process_one, process_all}
use eagine_msgbus.Message.Queue.Lanes.{
  pri, lane, Ascends, AllAtMost, push_lem, process_one_lem, process_all_lem,
}
use eagine_msgbus.Message.Serialized.{Serialized, pack_into, cleanup_packed}
use eagine_msgbus.Message.Serialized.Marked.{HaveBuffers}
use eagine_msgbus.Message.Serialized.Packed.{pack_first, cleanup-pack_into}
use eagine_msgbus.Message.Storage.{Stored}

abbrev message_of : Priority → Message
message_of p = record {
  info = record {
    source_id = 1;
    target_id = 2;
    serializer_id = 0;
    sequence_no = 5;
    hop_count = pos 0;
    age_quarter_seconds = pos 100;
    priority = p;
    crypto_flags = 0;
  };
  content = 1 ∷ 2 ∷ [];
}

abbrev two_messages : List Message
two_messages = message_of low ∷ message_of high ∷ []

-- A handler that counts what it is offered and takes every other message.
abbrev every_other : Bool → Message → Bool × Bool
every_other taken m = if taken then (false, false) else (true, true)

push_lem_example :
    Ascends 0 (push memory two_messages (message_of normal))
    × ((p : ℕ)
        → lane p (push memory two_messages (message_of normal)) ≡ (
            if pri (message_of normal) == p
            then message_of normal ∷ lane p two_messages
            else lane p two_messages))
push_lem_example = push_lem memory two_messages (message_of normal) (omega arith, (omega arith, tt))

process_one_lem_example :
    (rest : List Message) × (b : Message) × (two_messages ≡ rest ++ b ∷ [])
    × AllAtMost (pri b) rest
    × (lane (pri b) two_messages ≡ lane (pri b) rest ++ b ∷ [])
    × (process_one every_other false two_messages ≡ (
        if (every_other false b).1
        then ((every_other false b).0, rest, true)
        else ((every_other false b).0, two_messages, false)))
process_one_lem_example =
    process_one_lem every_other false two_messages cons≢nil (omega arith, (omega arith, tt))

process_all_lem_example :
    let (_, left, gone) = process_all every_other false two_messages in
    (left ≡ erase_if (λ m. too_many_hops m.info) (refused every_other false two_messages))
    × (gone + length left ≡ length two_messages)
process_all_lem_example = process_all_lem every_other false two_messages

abbrev stored : List (Stored ℕ)
stored = record { msg_id = 3; message = message_of low; insert_time = 0 } ∷ []

abbrev refuse : ℕ → ℕ → ℕ → Message → ℕ × Bool
refuse count msg_id age m = (count + 1, false)

abbrev waiting : List ℕ → Serialized
waiting content = record { message = content; timestamp = 7; priority = normal }

-- The second message does not fit into a block of 7 bytes, the others do.
abbrev three_waiting : List Serialized
three_waiting = waiting (1 ∷ 2 ∷ []) ∷ waiting (1 ∷ 2 ∷ 3 ∷ 4 ∷ []) ∷ waiting (5 ∷ []) ∷ []

abbrev seven_bytes : List ℕ
seven_bytes = 9 ∷ 9 ∷ 9 ∷ 9 ∷ 9 ∷ 9 ∷ 9 ∷ []

cleanup-pack_into_example :
    let (bytes, rest, left) = pack_first packing 64 seven_bytes three_waiting in
    let (block, packed) = pack_into memory packing seven_bytes three_waiting in
    (block ≡ bytes ++ packing.zeroed rest)
    × (cleanup_packed packed (three_waiting ++ waiting (8 ∷ []) ∷ [])
        ≡ left ++ waiting (8 ∷ []) ∷ [])
unfolding HaveBuffers
cleanup-pack_into_example =
    cleanup-pack_into memory packing seven_bytes three_waiting (waiting (8 ∷ []) ∷ [])
      (omega arith, (omega arith, (omega arith, (omega arith, tt))))
