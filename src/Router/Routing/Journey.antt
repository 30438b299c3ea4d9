-- ===== src/Router/Routing/Journey.antt =====
-- How far a message can travel from router to router
-- (source/modules/eagine/core/router_impl.cpp and message_impl.cpp).
use eagine_msgbus.Prelude.{
  ℕ, suc, ◌≤◌, ◌≡◌, false, not, List, [], ◌∷◌, ◌++◌, arith, Bool-cases, inl, inr, ap, ◌∙◌, sym,
}
use mathlib.Core.Path.{subst}
use mathlib.Core.List.{cons≢nil, head-eq_of_cons-eq, tail-eq_of_cons-eq}
use eagine_msgbus.Prelude.Int.{ℤ, pos, negsuc, ◌+ℤ◌, ◌≤ℤ◌, ltb_ℤ}
use eagine_msgbus.Router.Ident.{MessageId}
use eagine_msgbus.Router.Wire.{Wire, Sending, Accepts}
use eagine_msgbus.Message.Info.{Message, add_hop, too_many_hops, max_hops}
use eagine_msgbus.Router.Routing.{Router, Traffic, hopped, route_message}
use eagine_msgbus.Router.Routing.Reach.{sendings, append_nil}
use eagine_msgbus.Router.Routing.Hops.{Spreads, route_message-dropped, route_message-Spreads}

-- A message after a number of routings, each by any router in any state: one of the messages that
-- a routing sent is routed next.
pub data Journey : ℕ → Message → Message → Type 0 where
  start : (m : Message) → Journey 0 m m
  routed :
      {n : ℕ} {m m' : Message} (accepts : Accepts) (r : Router) (incoming_id : ℕ)
      (msg_id : MessageId) (t : Traffic) (before following : Wire) (s : Sending)
      → Journey n m m'
      → (route_message accepts r incoming_id msg_id m' t).0.wire
        ≡ t.wire ++ (before ++ s ∷ following)
      → Journey (suc n) m s.message

append_cancel : {A : Type 0} (xs ys zs : List A) → xs ++ ys ≡ xs ++ zs → ys ≡ zs
append_cancel [] ys zs h = h
append_cancel (x ∷ xs) ys zs h = append_cancel xs ys zs (tail-eq_of_cons-eq h)

among :
    (msg_id : MessageId) (m : Message) (cs : List ℕ) (before following : Wire) (s : Sending)
    → sendings msg_id m cs ≡ before ++ s ∷ following
    → s.message ≡ m
unfolding sendings
among msg_id m [] [] following s h = absurd (cons≢nil (sym h))
among msg_id m [] (b ∷ before) following s h = absurd (cons≢nil (sym h))
among msg_id m (c ∷ cs) [] following s h = sym (ap (λ x. x.message) (head-eq_of_cons-eq h))
among msg_id m (c ∷ cs) (b ∷ before) following s h =
    among msg_id m cs before following s (tail-eq_of_cons-eq h)

middle-ne-nil : (before following : Wire) (s : Sending) → ¬ (before ++ s ∷ following ≡ [])
middle-ne-nil [] following s h = cons≢nil h
middle-ne-nil (b ∷ before) following s h = cons≢nil h

add_zero : (a : ℤ) → a +ℤ pos 0 ≡ a
add_zero (pos n) = ground arith
add_zero (negsuc n) = ground arith

add_suc : (a : ℤ) (n : ℕ) → (a +ℤ pos n) +ℤ pos 1 ≡ a +ℤ pos (suc n)
add_suc (pos k) n = ground arith
add_suc (negsuc k) n = ground arith

below_max : (a : ℤ) → not (ltb_ℤ a max_hops) ≡ false → a +ℤ pos 1 ≤ℤ max_hops
below_max (pos n) h = ground arith
below_max (negsuc n) h = ground arith

-- What a routing sent is the message after a hop, which it had not too many of.
routed_lem :
    (accepts : Accepts) (r : Router) (incoming_id : ℕ) (msg_id : MessageId) (m : Message)
    (t : Traffic) (before following : Wire) (s : Sending)
    → (route_message accepts r incoming_id msg_id m t).0.wire ≡ t.wire ++ (before ++ s ∷ following)
    → (too_many_hops m.info ≡ false) × (s.message ≡ hopped m)
unfolding Spreads
routed_lem accepts r incoming_id msg_id m t before following s h =
    let drops = route_message-dropped accepts r incoming_id msg_id m t in
    let sends = route_message-Spreads accepts r incoming_id msg_id m t in
    elim (Bool-cases (too_many_hops m.info)) [
      | inl many ↦ absurd (
          middle-ne-nil before following s (
            sym (
              append_cancel t.wire [] (before ++ s ∷ following)
                (append_nil t.wire ∙ sym (ap (λ u. u.0.wire) (drops many)) ∙ h))))
      | inr few ↦
          let ((cs, p), _) = sends few in
          (
            few,
            among msg_id (hopped m) cs before following s (
                append_cancel t.wire (sendings msg_id (hopped m) cs) (before ++ s ∷ following)
                  (sym p ∙ h)),
          )
    ]

hops_lem :
    {n : ℕ} {m m' : Message}
    → Journey n m m'
    → (m'.info.hop_count ≡ m.info.hop_count +ℤ pos n)
      × (1 ≤ n → m.info.hop_count +ℤ pos n ≤ℤ max_hops)
unfolding too_many_hops add_hop
hops_lem (start m) = (sym (add_zero m.info.hop_count), λ h. absurd (omega arith))
hops_lem (routed {n} {m} {m'} accepts r incoming_id msg_id t before following s j h) =
    let (few, p) = routed_lem accepts r incoming_id msg_id m' t before following s h in
    let (counts, _) = hops_lem j in
    let sum = ap (λ a. a +ℤ pos 1) counts ∙ add_suc m.info.hop_count n in
    (
      ap (λ x. x.info.hop_count) p ∙ sum,
      λ _. subst (λ a. a ≤ℤ max_hops) sum (below_max m'.info.hop_count few),
    )

-- On a journey of at least one routing the hop counter of a message counts the routings, and it does
-- not exceed the limit: a message that starts with the counter 0 is routed at most 64 times.
pub hops_bounded :
    {n : ℕ} {m m' : Message}
    → Journey n m m'
    → 1 ≤ n
    → (m'.info.hop_count ≡ m.info.hop_count +ℤ pos n) × (m.info.hop_count +ℤ pos n ≤ℤ max_hops)
hops_bounded j h = ((hops_lem j).0, (hops_lem j).1 h)
