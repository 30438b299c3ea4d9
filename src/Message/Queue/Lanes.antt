-- ===== src/Message/Queue/Lanes.antt =====
-- The queue of source/modules/eagine/core/message.cpp as one lane for each priority: the highest
-- priority is served first, and each lane in the order of arrival.
use mathlib.Core.Path.{subst}
use eagine_msgbus.Prelude.{
  ℕ, ◌+◌, ◌≤◌, ◌≡◌, ◌≢◌, refl, ap, ◌∙◌, Bool, true, false, some, List, [], ◌∷◌, ◌++◌, ◌==◌,
  if◌then◌else◌, length, arith,
}
use eagine_msgbus.Core.{Memory, rank}
use eagine_msgbus.Message.Info.{Message, too_many_hops, mark_too_old}
use eagine_msgbus.Message.Sweep.{refused, erase_if, remaining-sweep, erased-add-remaining}
use eagine_msgbus.Message.Queue.{push, split_back, release, process_one, process_all}

abbrev pub pri : Message → ℕ
pri m = rank m.info.priority

-- Ascending from `lo` on.
abbrev pub Ascends : ℕ → List Message → Type 0
Ascends lo [] = Unit {0}
Ascends lo (m ∷ ms) = (lo ≤ pri m) × Ascends (pri m) ms

-- The messages of one priority, the one that came last first.
pub lane : ℕ → List Message → List Message
lane p [] = []
lane p (m ∷ ms) = let rest = lane p ms in if pri m == p then m ∷ rest else rest

module _ (mem : Memory) where
  stored_lem :
      (m : Message)
      → record m { content = mem.copy_into m.content (mem.get_buffer (length m.content)) } ≡ m
  stored_lem m = ap (λ c. record m { content = c }) (mem.copy_into_lem m.content _)

  push-Ascends :
      (lo : ℕ) (q : List Message) (m : Message)
      → lo ≤ pri m
      → Ascends lo q
      → Ascends lo (push mem q m)
  unfolding push
  push-Ascends lo [] m h a = (h, tt)
  push-Ascends lo (x ∷ xs) m h a =
      ground (arith, λ (k : pri x ≤ pri m). push-Ascends (pri x) xs m k a.1)

  lane-push :
      (p : ℕ) (q : List Message) (m : Message)
      → lane p (push mem q m) ≡ (if pri m == p then m ∷ lane p q else lane p q)
  unfolding push lane
  lane-push p [] m = ground (arith, stored_lem m)
  lane-push p (x ∷ xs) m = ground (arith, stored_lem m, lane-push p xs m)

  -- A pushed message keeps the queue in the order of priorities, and goes to the end of the lane of
  -- its own priority; the other lanes stay as they are.
  pub push_lem :
      (q : List Message) (m : Message)
      → Ascends 0 q
      → Ascends 0 (push mem q m)
        × ((p : ℕ) → lane p (push mem q m) ≡ (if pri m == p then m ∷ lane p q else lane p q))
  push_lem q m a = (push-Ascends 0 q m (omega arith) a, λ p. lane-push p q m)

abbrev pub AllAtMost : ℕ → List Message → Type 0
AllAtMost p [] = Unit {0}
AllAtMost p (m ∷ ms) = (pri m ≤ p) × AllAtMost p ms

lane-append : (p : ℕ) (xs ys : List Message) → lane p (xs ++ ys) ≡ lane p xs ++ lane p ys
unfolding lane
lane-append p [] ys = refl
lane-append p (x ∷ xs) ys = ground (arith, lane-append p xs ys)

split_back-append : (xs : List Message) (b : Message) → split_back (xs ++ b ∷ []) ≡ some (xs, b)
unfolding split_back
split_back-append [] b = refl
split_back-append (x ∷ xs) b = rw (split_back-append xs b, split_back) refl

split_back-cons :
    (x : Message) (xs : List Message)
    → (rest : List Message) × (b : Message) × (x ∷ xs ≡ rest ++ b ∷ [])
split_back-cons x [] = ([], x, refl)
split_back-cons x (y ∷ ys) = let (rest, b, e) = split_back-cons y ys in (x ∷ rest, b, ap (◌∷◌ x) e)

Ascends-AtMost :
    (lo : ℕ) (xs : List Message) (b : Message)
    → Ascends lo (xs ++ b ∷ [])
    → (lo ≤ pri b) × AllAtMost (pri b) xs
Ascends-AtMost lo [] b a = (a.0, tt)
Ascends-AtMost lo (x ∷ xs) b a =
    let (h, l) = Ascends-AtMost (pri x) xs b a.1 in (omega arith, (h, l))

module _ {S : Type 0} (handler : S → Message → S × Bool) (s : S) where
  served :
      (q rest : List Message) (b : Message)
      → split_back q ≡ some (rest, b)
      → process_one handler s q
        ≡ (if (handler s b).1 then ((handler s b).0, rest, true) else ((handler s b).0, q, false))
  unfolding process_one
  served q rest b e = rw (e, process_one) refl

  -- In a queue that is not empty one message is offered to the handler: no other has a higher
  -- priority, and in the lane of its own priority it is the one that came first. It is removed
  -- exactly if the handler takes it.
  pub process_one_lem :
      (q : List Message)
      → q ≢ []
      → Ascends 0 q
      → (rest : List Message) × (b : Message) × (q ≡ rest ++ b ∷ [])
        × AllAtMost (pri b) rest
        × (lane (pri b) q ≡ lane (pri b) rest ++ b ∷ [])
        × (process_one handler s q ≡ (
            if (handler s b).1 then ((handler s b).0, rest, true) else ((handler s b).0, q, false)))
  process_one_lem [] n a = absurd (n refl)
  process_one_lem (x ∷ xs) n a =
      let (rest, b, e) = split_back-cons x xs in
      let (_, most) = Ascends-AtMost 0 rest b (subst (Ascends 0) e a) in
      (
        rest,
        b,
        e,
        most,
        ap (lane (pri b)) e
            ∙ lane-append (pri b) rest (b ∷ [])
            ∙ ap (◌++◌ (lane (pri b) rest)) (own b),
        served (x ∷ xs) rest b (ap split_back e ∙ split_back-append rest b),
      )
    where
      own : (b : Message) → lane (pri b) (b ∷ []) ≡ b ∷ []
      own b = unfold lane in ground arith

is_released : (m : Message) → too_many_hops (release m).info ≡ true
unfolding release too_many_hops mark_too_old
is_released m = refl

module _ {S : Type 0} (handler : S → Message → S × Bool) (s : S) (q : List Message) where
  -- What stays after a round over all messages are those that the handler refused, in their order,
  -- but for those that had made too many hops before; the result is the number of messages gone.
  pub process_all_lem :
      let (_, left, gone) = process_all handler s q in
      (left ≡ erase_if (λ m. too_many_hops m.info) (refused handler s q))
      × (gone + length left ≡ length q)
  unfolding process_all
  process_all_lem = (
    remaining-sweep handler release (λ m. too_many_hops m.info) is_released s q,
    erased-add-remaining handler release (λ m. too_many_hops m.info) is_released s q,
  )
