-- ===== src/Message/Sweep.antt =====
-- The loop that `message_storage::fetch_all`, `serialized_message_storage::fetch_all` and
-- `message_priority_queue::process_all` (source/modules/eagine/core/message_impl.cpp) share: every
-- entry goes to a handler; one that is handled is emptied and marked in place, and the marked entries
-- are erased after the loop.
use eagine_msgbus.Prelude.{
  ◌+◌, ◌-◌, ◌≤◌, ◌≡◌, refl, inl, inr, Bool, true, false, List, [], ◌∷◌, arith, Bool-cases,
  if◌then◌else◌, length, ltb,
}

-- The state, the entries, and the two flags of the loop.
pub record Swept (S E : Type 0) : Type 0 where
  pub state : S
  pub entries : List E
  pub some_handled : Bool
  pub all_handled : Bool

module _ {E : Type 0} where
  -- `std::erase_if`
  unfoldable pub erase_if : (E → Bool) → List E → List E
  erase_if test [] = []
  erase_if test (e ∷ es) = let rest = erase_if test es in if test e then rest else e ∷ rest

-- The handler may change the state `S` of the program.
module _ {S E : Type 0} where
  unfoldable pub sweep : (S → E → S × Bool) → (E → E) → S → List E → Swept S E
  sweep handler mark s [] = record {
    state = s;
    entries = [];
    some_handled = false;
    all_handled = true;
  }
  sweep handler mark s (e ∷ es) =
      let (s', handled) = handler s e in
      let rest = sweep handler mark s' es in
      record {
        state = rest.state;
        entries = (if handled then mark e else e) ∷ rest.entries;
        some_handled = if handled then true else rest.some_handled;
        all_handled = if handled then rest.all_handled else false;
      }

  -- What is left after the loop.
  unfoldable pub remaining : (E → Bool) → Swept S E → List E
  unfolding erase_if
  remaining is_marked w = if w.all_handled then [] else erase_if is_marked w.entries

  -- The entries that the handler refuses, as it meets them.
  pub refused : (S → E → S × Bool) → S → List E → List E
  refused handler s [] = []
  refused handler s (e ∷ es) =
      let (s', handled) = handler s e in
      let rest = refused handler s' es in if handled then rest else e ∷ rest

  module _ (handler : S → E → S × Bool) (mark : E → E) (is_marked : E → Bool)
      (marks : (e : E) → is_marked (mark e) ≡ true) where
    erase_if-sweep :
        (s : S) (es : List E)
        → erase_if is_marked (sweep handler mark s es).entries
          ≡ erase_if is_marked (refused handler s es)
    unfolding sweep refused erase_if
    erase_if-sweep s [] = refl
    erase_if-sweep s (e ∷ es) = ground (arith, marks e, erase_if-sweep (handler s e).0 es)

    all_handled-refused :
        (s : S) (es : List E)
        → (sweep handler mark s es).all_handled ≡ true
        → refused handler s es ≡ []
    unfolding sweep refused
    all_handled-refused s [] h = refl
    all_handled-refused s (e ∷ es) h = ground (arith, all_handled-refused (handler s e).0 es)

    -- What is left are the refused entries, in order, without those that were marked before.
    pub remaining-sweep :
        (s : S) (es : List E)
        → remaining is_marked (sweep handler mark s es) ≡ erase_if is_marked (refused handler s es)
    unfolding remaining
    remaining-sweep s es = elim (Bool-cases (sweep handler mark s es).all_handled) [
      | inl e ↦ rw (e, all_handled-refused s es e) refl
      | inr e ↦ rw e (erase_if-sweep s es)
    ]

    length-refused-le : (s : S) (es : List E) → length (refused handler s es) ≤ length es
    unfolding refused
    length-refused-le s [] = omega arith
    length-refused-le s (e ∷ es) = ground (arith, length-refused-le (handler s e).0 es)

    -- The flag tells whether some entry was not refused.
    pub some_handled-sweep :
        (s : S) (es : List E)
        → (sweep handler mark s es).some_handled ≡ ltb (length (refused handler s es)) (length es)
    unfolding sweep refused
    some_handled-sweep s [] = refl
    some_handled-sweep s (e ∷ es) =
        ground (arith, some_handled-sweep (handler s e).0 es, length-refused-le (handler s e).0 es)

    length-sweep : (s : S) (es : List E) → length (sweep handler mark s es).entries ≡ length es
    unfolding sweep
    length-sweep s [] = refl
    length-sweep s (e ∷ es) = omega (arith, length-sweep (handler s e).0 es)

    length-erase_if-le : (es : List E) → length (erase_if is_marked es) ≤ length es
    unfolding erase_if
    length-erase_if-le [] = omega arith
    length-erase_if-le (e ∷ es) = ground (arith, length-erase_if-le es)

    -- The entries erased and those left make up all.
    pub erased-add-remaining :
        (s : S) (es : List E)
        → let w = sweep handler mark s es in
          (if w.all_handled then length es else length w.entries - length (remaining is_marked w))
            + length (remaining is_marked w)
          ≡ length es
    unfolding remaining
    erased-add-remaining s es =
        ground (arith, length-sweep s es, length-erase_if-le (sweep handler mark s es).entries)
