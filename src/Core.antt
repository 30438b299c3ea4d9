-- ===== src/Core.antt =====
-- What the components share (source/modules/eagine/core/types.cpp and message.cpp): priorities and
-- message ids; and the memory blocks of the library eagine.core, which is not part of the sources.
-- An endpoint id, a process instance id and a sequence number are numbers; 0 is the broadcast
-- id, which no endpoint has.
use eagine_msgbus.Prelude.{
  ℕ, ◌≤◌, ◌≡◌, ◌↔◌, Bool, true, false, List, ◌++◌, ltb, ◌==◌, length, take, drop,
}

pub data Priority : Type 0 where
  idle low normal high critical : Priority

-- The order of the enumerators.
abbrev pub rank : Priority → ℕ
rank idle = 0
rank low = 1
rank normal = 2
rank high = 3
rank critical = 4

-- `std::max` returns its first argument unless it is less than the second.
unfoldable pub max_priority : Priority → Priority → Priority
max_priority a b = elim (ltb (rank a) (rank b)) [ true ↦ b | false ↦ a ]

abbrev pub broadcast_id : ℕ
broadcast_id = 0

-- `is_valid_id`
abbrev pub is_valid_id : ℕ → Bool
is_valid_id i = elim (i == broadcast_id) [ true ↦ false | false ↦ true ]

-- Blocks of bytes of eagine.core, as far as the bus uses them: `head(blk, n)` is the first `n`
-- bytes of a block, or all of it if it is shorter, and `skip(blk, n)` is what follows them;
-- `copy(src, dst)` overwrites the first bytes of `dst`, which must have room; `copy_into(src, buf)`
-- makes `buf` a copy of `src`; `get_buffer(n)` is a
-- buffer of `n` bytes from a `buffer_pool`; `are_equal` compares. Bytes are only moved and compared, so a byte is a number.
pub record Memory : Type 0 where
  pub head : List ℕ → ℕ → List ℕ
  pub skip : List ℕ → ℕ → List ℕ
  pub head_lem : (blk : List ℕ) (n : ℕ) → head blk n ≡ take n blk
  pub skip_lem : (blk : List ℕ) (n : ℕ) → skip blk n ≡ drop n blk
  pub copy : List ℕ → List ℕ → List ℕ
  pub copy_lem :
      (src dst : List ℕ) → length src ≤ length dst → copy src dst ≡ src ++ drop (length src) dst
  pub copy_into : List ℕ → List ℕ → List ℕ
  pub copy_into_lem : (src buf : List ℕ) → copy_into src buf ≡ src
  pub get_buffer : ℕ → List ℕ
  pub get_buffer_lem : (n : ℕ) → length (get_buffer n) ≡ n
  pub are_equal : List ℕ → List ℕ → Bool
  pub are_equal_iff : (l r : List ℕ) → (are_equal l r ≡ true) ↔ (l ≡ r)

-- The two values of a `double_buffer` of eagine.core, the current one first.
pub record DoubleBuffer (A : Type 0) : Type 0 where
  pub swap : A × A → A × A
  pub swap_lem : (current next : A) → swap (current, next) ≡ (next, current)

-- `timeout` of eagine.core; the times are when the clock is read. `timer secs` is `timeout{secs}`,
-- started at the given time.
pub record Timers (Timeout : Type 0) : Type 0 where
  pub unset : Timeout
  pub timer : ℕ → ℕ → Timeout
  pub reset : ℕ → Timeout → Timeout
  pub is_expired : ℕ → Timeout → Bool

-- The operations and constants of `float` that the bus uses: `<`, `-`, 0.F, 1.F and 0.001F.
pub record Floats (F : Type 0) : Type 0 where
  pub less : F → F → Bool
  pub minus : F → F → F
  pub zero : F
  pub one : F
  pub thousandth : F
