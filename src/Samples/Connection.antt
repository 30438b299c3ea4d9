-- ===== src/Samples/Connection.antt =====
-- A header as eleven numbers, and blocks that are read back one after the other, for the tests of
-- connections.
use eagine_msgbus.Prelude.{
  ℕ, zero, suc, ◌+◌, ◌≡◌, ◌<◌, refl, ap, ◌∙◌, arith, Option, none, some, List, [], ◌∷◌, ◌++◌,
  length, if◌then◌else◌, leb, if-some, map,
}
use mathlib.Core.Path.{subst}
use mathlib.Core.List.{append_assoc}
use eagine_msgbus.Prelude.Int.{ℤ, pos, negsuc}
use eagine_msgbus.Core.{Priority, idle, low, normal, high, critical}
use eagine_msgbus.Message.Info.{Message, MessageInfo, default_info}
use eagine_msgbus.Message.Sweep.{erase_if}
use eagine_msgbus.Message.Connection.{HeaderCodec, Unpacking, is_empty, serialize_message}
use eagine_msgbus.Message.Connection.Queued.{Holds, nothing, first}
use eagine_msgbus.Message.Serialized.{
  Serialized, pack_into, pack_rest, pack_one, new_packing, is_full, next_bit, add_message,
  add_packed,
}
use eagine_msgbus.Samples.{packing, zero_bytes, memory}

int_sign : ℤ → ℕ
int_sign (pos n) = 0
int_sign (negsuc n) = 1

int_size : ℤ → ℕ
int_size (pos n) = n
int_size (negsuc n) = n

int_of : ℕ → ℕ → ℤ
int_of zero n = pos n
int_of (suc s) n = negsuc n

int_of-int_sign : (z : ℤ) → int_of (int_sign z) (int_size z) ≡ z
unfolding int_of int_sign int_size
int_of-int_sign (pos n) = refl
int_of-int_sign (negsuc n) = refl

priority_code : Priority → ℕ
priority_code idle = 0
priority_code low = 1
priority_code normal = 2
priority_code high = 3
priority_code critical = 4

priority_of : ℕ → Priority
priority_of zero = idle
priority_of (suc zero) = low
priority_of (suc (suc zero)) = normal
priority_of (suc (suc (suc zero))) = high
priority_of (suc (suc (suc (suc n)))) = critical

priority_of-priority_code : (p : Priority) → priority_of (priority_code p) ≡ p
unfolding priority_of priority_code
priority_of-priority_code idle = refl
priority_of-priority_code low = refl
priority_of-priority_code normal = refl
priority_of-priority_code high = refl
priority_of-priority_code critical = refl

header_bytes : ℕ → MessageInfo → List ℕ
header_bytes msg_id i =
    msg_id
    ∷ i.source_id
    ∷ i.target_id
    ∷ i.serializer_id
    ∷ i.sequence_no
    ∷ int_sign i.hop_count
    ∷ int_size i.hop_count
    ∷ int_sign i.age_quarter_seconds
    ∷ int_size i.age_quarter_seconds
    ∷ priority_code i.priority
    ∷ i.crypto_flags
    ∷ []

read_bytes : List ℕ → Option (ℕ × MessageInfo × List ℕ)
read_bytes (m ∷ s ∷ t ∷ z ∷ q ∷ hs ∷ h ∷ ags ∷ ag ∷ p ∷ f ∷ rest) = some (
  m,
  record {
    source_id = s;
    target_id = t;
    serializer_id = z;
    sequence_no = q;
    hop_count = int_of hs h;
    age_quarter_seconds = int_of ags ag;
    priority = priority_of p;
    crypto_flags = f;
  },
  rest,
)
read_bytes l = none

read_bytes-header_bytes :
    (msg_id : ℕ) (i : MessageInfo) (rest : List ℕ)
    → read_bytes (header_bytes msg_id i ++ rest) ≡ some (msg_id, i, rest)
unfolding read_bytes header_bytes
read_bytes-header_bytes msg_id i rest =
    rw
      (
        int_of-int_sign i.hop_count,
        int_of-int_sign i.age_quarter_seconds,
        priority_of-priority_code i.priority,
      )
      refl

write_bytes : ℕ → MessageInfo → ℕ → Option (List ℕ)
write_bytes msg_id i room = if leb 11 room then some (header_bytes msg_id i) else none

write_bytes-some :
    (msg_id : ℕ) (i : MessageInfo) (room : ℕ) (bytes : List ℕ)
    → write_bytes msg_id i room ≡ some bytes
    → header_bytes msg_id i ≡ bytes
unfolding write_bytes
write_bytes-some msg_id i room bytes h = if-some (leb 11 room) _ _ h

length-header_bytes : (msg_id : ℕ) (i : MessageInfo) → 0 < length (header_bytes msg_id i)
unfolding header_bytes
length-header_bytes msg_id i = omega arith

pub header_codec : HeaderCodec ℕ
header_codec = record {
  no_id = 0;
  write_header = write_bytes;
  write = λ room blk. leb (length blk) room;
  read_header = read_bytes;
  read-write_header = λ msg_id i room bytes rest h.
      subst (λ b. read_bytes (b ++ rest) ≡ some (msg_id, i, rest))
        (write_bytes-some msg_id i room bytes h) (read_bytes-header_bytes msg_id i rest);
  length-write_header = λ msg_id i room bytes h.
      subst (λ b. 0 < length b) (write_bytes-some msg_id i room bytes h)
        (length-header_bytes msg_id i);
}

-- The blocks that begin with their sizes; `missing` bytes of a block are still to come.
blocks : ℕ → List ℕ → List ℕ → List (List ℕ)
blocks missing part [] = []
blocks zero part (zero ∷ bytes) = [] ∷ blocks 0 [] bytes
blocks zero part (suc n ∷ bytes) = blocks (suc n) [] bytes
blocks (suc zero) part (b ∷ bytes) = (part ++ b ∷ []) ∷ blocks 0 [] bytes
blocks (suc (suc k)) part (b ∷ bytes) = blocks (suc k) (part ++ b ∷ []) bytes

blocks-rest :
    (part : List ℕ) (b : ℕ) (block rest : List ℕ)
    → blocks (suc (length block)) part ((b ∷ block) ++ rest)
      ≡ (part ++ b ∷ block) ∷ blocks 0 [] rest
unfolding blocks
blocks-rest part b [] rest = refl
blocks-rest part b (c ∷ block) rest =
    blocks-rest (part ++ b ∷ []) c block rest
    ∙ ap (λ l. l ∷ blocks 0 [] rest) (append_assoc part (b ∷ []) (c ∷ block))

blocks-first :
    (block rest : List ℕ) → blocks 0 [] ((length block ∷ block) ++ rest) ≡ block ∷ blocks 0 [] rest
unfolding blocks
blocks-first [] rest = refl
blocks-first (b ∷ block) rest = blocks-rest [] b block rest

blocks-store :
    (src dst packed rest : List ℕ)
    → packing.store_data_with_size src dst ≡ some packed
    → blocks 0 [] (packed ++ rest) ≡ src ∷ blocks 0 [] rest
unfolding packing
blocks-store src dst packed rest h =
    subst (λ p. blocks 0 [] (p ++ rest) ≡ src ∷ blocks 0 [] rest)
      (if-some (leb (length src + 1) (length dst)) (length src ∷ src) packed h)
      (blocks-first src rest)

blocks-zeros : (n : ℕ) → erase_if is_empty (blocks 0 [] (zero_bytes n)) ≡ []
unfolding blocks erase_if zero_bytes
blocks-zeros zero = refl
blocks-zeros (suc n) = blocks-zeros n

pub unpacking : Unpacking packing
unfolding packing
unpacking = record {
  for_each_data = blocks 0 [];
  for_each_data-store = blocks-store;
  for_each_data-zeroed = λ blk. blocks-zeros (length blk);
}

-- Three messages that were sent and wait. The second one does not fit with the first one into a block of
-- 30 bytes, the third one does.
abbrev message_with : List ℕ → Message
message_with content = record { info = default_info; content = content }

abbrev pub three_sent : List (ℕ × Message)
three_sent =
    (4, message_with (1 ∷ []))
    ∷ (5, message_with (1 ∷ 2 ∷ 3 ∷ 4 ∷ 5 ∷ 6 ∷ 7 ∷ 8 ∷ []))
    ∷ (6, message_with (9 ∷ 9 ∷ []))
    ∷ []

waiting : ℕ × Message → Serialized
waiting x = record {
  message = header_bytes x.0 x.1.info ++ x.1.content;
  timestamp = 7;
  priority = normal;
}

pub three_waiting : List Serialized
three_waiting = map waiting three_sent

pub three_waiting-Holds : Holds header_codec three_waiting three_sent
unfolding three_waiting waiting header_codec serialize_message write_bytes header_bytes
three_waiting-Holds = first 100 refl (first 100 refl (first 100 refl nothing))

pub three_packed-HasBytes : 0 < length (pack_into memory packing (zero_bytes 30) three_waiting).0
unfolding three_waiting waiting header_bytes int_sign int_size priority_code pack_into pack_rest
    pack_one new_packing is_full next_bit add_message add_packed packing zero_bytes memory
three_packed-HasBytes = omega arith
