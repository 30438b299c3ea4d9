-- ===== src/Message/Serialized/Bits.antt =====
-- The bits of `message_pack_info` (source/modules/eagine/core/message.cpp) as numbers: setting the
-- bit above those set, the lowest bit, and the bit that moves up until it leaves the word.
use Prim.Native.Nat.{min, max, digits, bit_and-bitwise, bit_or-bitwise}
use native.Mathlib.Nat.{pow-suc, one-le-pow, pow-le-pow_right, mul_assoc, mul_left_comm}
use eagine_msgbus.Prelude.{
  ℕ, zero, suc, ◌+◌, ◌*◌, ◌/◌, ◌%◌, ◌^◌, ◌-◌, ◌≡◌, ◌≤◌, ◌<◌, refl, arith, true, false, ◌==◌,
  bit_and, bit_or,
}

or_digits : (i n a : ℕ) → a ≤ n → a < 2 ^ i → digits (λ b. b) max n a (2 ^ i) ≡ a + 2 ^ i
or_digits i zero zero p q = omega arith
or_digits i (suc n) zero p q = omega arith
or_digits zero (suc n) (suc a) p q = absurd (omega arith)
or_digits (suc i) (suc n) (suc a) p q =
    let half : 2 ^ suc i / 2 ≡ 2 ^ i = omega (arith, pow-suc 2 i) in
    rw half (
      omega
        (arith, pow-suc 2 i, or_digits i n (suc a / 2) (omega arith) (omega (arith, pow-suc 2 i))))
or_digits i zero (suc a) p q = absurd (omega arith)

-- A bit above all of `a` is added.
pub bit_or_above : (i a : ℕ) → a < 2 ^ i → bit_or a (2 ^ i) ≡ a + 2 ^ i
bit_or_above i a h = simp bit_or-bitwise (or_digits i a a (omega arith) h)

and_zero : (n c : ℕ) → digits (λ b. 0) min n c 0 ≡ 0
and_zero zero c = refl
and_zero (suc n) zero = refl
and_zero (suc n) (suc c) = omega (arith, and_zero n (suc c / 2))

pub bit_and_one : (a : ℕ) → bit_and a 1 ≡ a % 2
bit_and_one zero = simp bit_and-bitwise refl
bit_and_one (suc a) = simp bit_and-bitwise (omega (arith, and_zero a (suc a / 2)))

-- The bits that are above those set when `k` messages may still be packed.
unfoldable pub above : ℕ → ℕ
above k = 2 ^ (64 - k)

pub above-suc : (k : ℕ) → k ≤ 63 → above k ≡ 2 * above (suc k)
unfolding above
above-suc k h =
    let e : 64 - k ≡ suc (64 - suc k) = omega arith in rw e (omega (arith, pow-suc 2 (64 - suc k)))

pub above-le : (k : ℕ) → above (suc k) ≤ 2 ^ 63
unfolding above
above-le k = pow-le-pow_right {n = 2} (omega arith) {i = 64 - suc k} {j = 63} (omega arith)

pub above-pos : (k : ℕ) → 0 < above k
unfolding above
above-pos k = one-le-pow (64 - k) 2 (omega arith)

-- The current bit then.
unfoldable pub current : ℕ → ℕ
current zero = 0
current (suc k) = above (suc k)

pub current-next : (k : ℕ) → k ≤ 63 → (current (suc k) * 2) % 2 ^ 64 ≡ current k
unfolding current above
current-next zero h = refl
current-next (suc k) h = omega (arith, above-suc (suc k) h, above-le k)

pub shifts : (x m : ℕ) → 2 * x * m ≡ x * (2 * m)
shifts x m = omega (arith, mul_assoc 2 x m, mul_left_comm 2 x m)

pub above-mul : (k m : ℕ) → k ≤ 63 → above k * m ≡ above (suc k) * (2 * m)
above-mul k m h = rw (above-suc k h) (shifts (above (suc k)) m)

pub even : (m : ℕ) → ((2 * m) % 2 == 1) ≡ false
even m = ground arith

pub odd : (m : ℕ) → ((1 + 2 * m) % 2 == 1) ≡ true
odd m = ground arith

pub half_even : (m : ℕ) → (2 * m) / 2 ≡ m
half_even m = omega arith

pub half_odd : (m : ℕ) → (1 + 2 * m) / 2 ≡ m
half_odd m = omega arith
