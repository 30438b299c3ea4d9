-- ===== src/Message/Info/Age.antt =====
-- How the age of a message (source/modules/eagine/core/message_impl.cpp) grows, and when it is too
-- old.
use eagine_msgbus.Prelude.{ℕ, ◌+◌, ◌/◌, ◌≡◌, min, arith, dec_le, leb, ap, ◌∙◌}
use eagine_msgbus.Prelude.Int.{pos, ◌+ℤ◌, div_ℤ}
use eagine_msgbus.Core.{Priority, idle, low, normal, high, critical}
use eagine_msgbus.Message.Info.{MessageInfo, Int8, limited, add_age, old_for, too_old}

-- The age, in quarters of a second, from which on a message of a priority is too old.
abbrev pub age_limit : Priority → ℕ
age_limit idle = 41
age_limit low = 81
age_limit normal = 121
age_limit high = 127
age_limit critical = 128

old_from : (p : Priority) (n : ℕ) → old_for p (pos (min 127 n)) ≡ leb (age_limit p) (min 127 n)
unfolding old_for
old_from idle n = ground arith
old_from low n = ground arith
old_from normal n = ground arith
old_from high n = ground arith
old_from critical n = ground arith

module _ (int8 : Int8) where
  limited-min : (n : ℕ) → limited int8 (pos n) ≡ pos (min 127 n)
  unfolding limited
  limited-min n = elim (dec_le n 127) [
    | yes h ↦ ground (arith, int8.fits (pos n) (omega arith) (omega arith))
    | no h ↦ ground (arith, int8.exceeds (pos n) (omega arith))
  ]

  pos-add : (a b : ℕ) → pos a +ℤ pos b ≡ pos (a + b)
  pos-add a b = ground arith

  new_age : (age a : ℕ) → pos a +ℤ div_ℤ (pos age +ℤ pos 20) 25 ≡ pos (a + (age + 20) / 25)
  new_age age a = ap (λ n. pos a +ℤ div_ℤ n 25) (pos-add age 20) ∙ pos-add a ((age + 20) / 25)

  -- The age of a message is counted in quarters of a second, rounded as written, and stops at the
  -- largest value of its type; nothing else of the message changes.
  pub add_age_saturates :
      (m : MessageInfo) (age a : ℕ)
      → m.age_quarter_seconds ≡ pos a
      → add_age int8 (pos age) m
        ≡ record m { age_quarter_seconds = pos (min 127 (a + (age + 20) / 25)) }
  unfolding add_age
  add_age_saturates m age a e =
      ap (λ n. record m { age_quarter_seconds = n })
        (ap (λ n. limited int8 (n +ℤ div_ℤ (pos age +ℤ pos 20) 25)) e
          ∙ ap (limited int8) (new_age age a)
          ∙ limited-min (a + (age + 20) / 25))

  -- After some time in a queue a message is too old exactly if its total age has reached the limit
  -- of its priority: 10, 20 and 30 seconds have passed for the lower three, the counter is full
  -- for a high priority, and a critical message never is.
  pub too_old-add_age :
      (m : MessageInfo) (age a : ℕ)
      → m.age_quarter_seconds ≡ pos a
      → too_old (add_age int8 (pos age) m)
        ≡ leb (age_limit m.priority) (min 127 (a + (age + 20) / 25))
  unfolding too_old
  too_old-add_age m age a e =
      rw (add_age_saturates m age a e) (old_from m.priority (a + (age + 20) / 25))
