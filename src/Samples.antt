-- ===== src/Samples.antt =====
-- Concrete instances of the parameters that stand for the library eagine.core, for the tests: blocks
-- as lists, a double buffer as a pair, and the conversion to `std::int8_t`.
pub mod Blobs
pub mod Ssl
pub mod Connection
use eagine_msgbus.Prelude.{
  ℕ, zero, suc, ◌+◌, ◌≡◌, refl, Bool, true, false, none, some, List, [], ◌∷◌, ◌++◌, ◌==◌,
  if◌then◌else◌, take, drop, length, leb, min, arith,
}
use mathlib.Core.Path.{ap₂}
use eagine_msgbus.Prelude.Int.{ℤ, pos, negsuc, ◌+ℤ◌, ◌≤ℤ◌, ltb_ℤ}
use eagine_msgbus.Core.{Memory, DoubleBuffer}
use eagine_msgbus.Message.Serialized.{Packing}
use eagine_msgbus.Message.Info.{Int8, int8_min, int8_max}

bytes_equal : List ℕ → List ℕ → Bool
bytes_equal [] [] = true
bytes_equal (x ∷ l) (y ∷ r) = let rest = bytes_equal l r in if x == y then rest else false
bytes_equal l r = false

equal_sound : (l r : List ℕ) → bytes_equal l r ≡ true → l ≡ r
unfolding bytes_equal
equal_sound [] [] h = refl
equal_sound (x ∷ l) (y ∷ r) h =
    ap₂ (◌∷◌) {x = x} {y = y} {u = l} {v = r} (ground arith) (equal_sound l r (ground arith))
equal_sound [] (y ∷ r) h = ground arith
equal_sound (x ∷ l) [] h = ground arith

equal_refl : (l : List ℕ) → bytes_equal l l ≡ true
unfolding bytes_equal
equal_refl [] = refl
equal_refl (x ∷ l) = ground (arith, equal_refl l)

equal_complete : (l r : List ℕ) → l ≡ r → bytes_equal l r ≡ true
equal_complete l r h = rw (← h) (equal_refl l)

unfoldable pub zero_bytes : ℕ → List ℕ
zero_bytes zero = []
zero_bytes (suc n) = 0 ∷ zero_bytes n

length-zero_bytes : (n : ℕ) → length (zero_bytes n) ≡ n
unfolding zero_bytes
length-zero_bytes zero = refl
length-zero_bytes (suc n) = omega (arith, length-zero_bytes n)

pub memory : Memory
memory = record {
  head = λ blk n. take n blk;
  skip = λ blk n. drop n blk;
  head_lem = λ blk n. refl;
  skip_lem = λ blk n. refl;
  copy = λ src dst. src ++ drop (length src) dst;
  copy_lem = λ src dst h. refl;
  copy_into = λ src buf. src;
  copy_into_lem = λ src buf. refl;
  get_buffer = zero_bytes;
  get_buffer_lem = length-zero_bytes;
  are_equal = bytes_equal;
  are_equal_iff = λ l r. (equal_sound l r, equal_complete l r);
}

pub buffers : DoubleBuffer (List (ℕ × ℕ))
buffers = record { swap = λ b. (b.1, b.0); swap_lem = λ c n. refl }

in_range : ℤ → Bool
in_range n = if ltb_ℤ n int8_min then false else if ltb_ℤ int8_max n then false else true

pub int8 : Int8
unfolding in_range
int8 = record {
  if_fits = λ n. if in_range n then some n else none;
  fits = fits_lem;
  exceeds = exceeds_lem;
  falls_below = falls_below_lem;
}
  where
    fits_lem :
        (n : ℤ) → int8_min ≤ℤ n → n ≤ℤ int8_max → (if in_range n then some n else none) ≡ some n
    fits_lem (pos n) l h = ground arith
    fits_lem (negsuc n) l h = ground arith

    exceeds_lem : (n : ℤ) → int8_max +ℤ pos 1 ≤ℤ n → (if in_range n then some n else none) ≡ none
    exceeds_lem (pos n) h = ground arith
    exceeds_lem (negsuc n) h = ground arith

    falls_below_lem :
        (n : ℤ) → n +ℤ pos 1 ≤ℤ int8_min → (if in_range n then some n else none) ≡ none
    falls_below_lem (pos n) h = ground arith
    falls_below_lem (negsuc n) h = ground arith

-- The size is stored in one byte.
unfoldable pub packing : Packing
packing = record {
  store_data_with_size =
      λ src dst. if leb (length src + 1) (length dst) then some (length src ∷ src) else none;
  zeroed = λ blk. zero_bytes (length blk);
  limit_uint16 = λ n. min n 65535;
}
