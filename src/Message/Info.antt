-- ===== src/Message/Info.antt =====
-- `message_info` and `message_view` of source/modules/eagine/core/message.cpp and message_impl.cpp.
pub mod Age
use eagine_msgbus.Prelude.{ℕ, ◌*◌, ◌≡◌, Bool, false, not, ◌&&◌, Option, none, some, List}
use eagine_msgbus.Prelude.Int.{ℤ, pos, negsuc, ◌+ℤ◌, ◌≤ℤ◌, ltb_ℤ, div_ℤ}
use eagine_msgbus.Core.{Priority, idle, low, normal, high, critical, broadcast_id}

-- `hop_count` and `age_quarter_seconds` are of type `std::int8_t`; a received header may hold any of
-- its values.
pub record MessageInfo : Type 0 where
  pub source_id : ℕ
  pub target_id : ℕ
  pub serializer_id : ℕ
  pub sequence_no : ℕ
  pub hop_count : ℤ
  pub age_quarter_seconds : ℤ
  pub priority : Priority
  pub crypto_flags : ℕ

-- The default member values.
unfoldable pub default_info : MessageInfo
default_info = record {
  source_id = broadcast_id;
  target_id = broadcast_id;
  serializer_id = 0;
  sequence_no = 0;
  hop_count = pos 0;
  age_quarter_seconds = pos 0;
  priority = normal;
  crypto_flags = 0;
}

abbrev pub max_hops : ℤ
max_hops = pos 64

-- `std::numeric_limits<std::int8_t>`
abbrev pub int8_min : ℤ
int8_min = negsuc 127

abbrev pub int8_max : ℤ
int8_max = pos 127

unfoldable pub mark_too_old : MessageInfo → MessageInfo
mark_too_old m = record m { hop_count = max_hops }

unfoldable pub too_many_hops : MessageInfo → Bool
too_many_hops m = not (ltb_ℤ m.hop_count max_hops)

-- `++hop_count`; the assertion before it holds wherever `too_many_hops` was tested.
unfoldable pub add_hop : MessageInfo → MessageInfo
add_hop m = record m { hop_count = m.hop_count +ℤ pos 1 }

old_for : Priority → ℤ → Bool
old_for idle age = ltb_ℤ (pos (10 * 4)) age
old_for low age = ltb_ℤ (pos (20 * 4)) age
old_for normal age = ltb_ℤ (pos (30 * 4)) age
old_for high age = not (ltb_ℤ age int8_max) && not (ltb_ℤ int8_max age)
old_for critical age = false

unfoldable pub too_old : MessageInfo → Bool
unfolding old_for
too_old m = old_for m.priority m.age_quarter_seconds

-- `convert_if_fits<age_t>` of eagine.core: the value, if the type can hold it.
pub record Int8 : Type 0 where
  pub if_fits : ℤ → Option ℤ
  pub fits : (n : ℤ) → int8_min ≤ℤ n → n ≤ℤ int8_max → if_fits n ≡ some n
  pub exceeds : (n : ℤ) → int8_max +ℤ pos 1 ≤ℤ n → if_fits n ≡ none
  pub falls_below : (n : ℤ) → n +ℤ pos 1 ≤ℤ int8_min → if_fits n ≡ none

-- The value, or the largest one if it does not fit.
pub limited : Int8 → ℤ → ℤ
limited int8 n = elim (int8.if_fits n) [ none ↦ int8_max | some new_age ↦ new_age ]

-- `add_age`; an age is a count of hundredths of a second.
unfoldable pub add_age : Int8 → ℤ → MessageInfo → MessageInfo
add_age int8 age m =
    let added_quarter_seconds = div_ℤ (age +ℤ pos 20) 25 in
    record m { age_quarter_seconds = limited int8 (m.age_quarter_seconds +ℤ added_quarter_seconds) }

unfoldable pub setup_response : MessageInfo → MessageInfo → MessageInfo
setup_response m info = record m {
  target_id = info.source_id;
  sequence_no = info.sequence_no;
  age_quarter_seconds = info.age_quarter_seconds;
  priority = info.priority;
}

-- `message_view`, and `stored_message` with its buffer.
pub record Message : Type 0 where
  pub info : MessageInfo
  pub content : List ℕ
