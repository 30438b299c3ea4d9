-- ===== src/Blobs/Parts/Gaps.antt =====
-- Sorted parts with a gap between any two, and the invariant of the loop of
-- source/modules/eagine/core/blobs_impl.cpp that merges one range into them.
use mathlib.Core.List.{reverse-cons, reverse-reverse, append_assoc, append-nil}
use mathlib.Core.Path.{subst}
use eagine_msgbus.Prelude.{
  ℕ, suc, ◌+◌, ◌≤◌, ◌<◌, ◌≡◌, ◌≢◌, sym, ap, ◌∙◌, ◌⊎◌, inl, inr, Bool, true, false, List, [], ◌∷◌,
  ◌++◌, reverse, arith,
}
use eagine_msgbus.Blobs.Parts.{Part, Merging, place, place_all, place_last, merge_parts}

-- In order from `lo` on, each part after a gap of at least one offset.
abbrev pub Gaps : ℕ → List Part → Type 0
Gaps lo [] = Unit {0}
Gaps lo ((b, e) ∷ l) = (lo ≤ b) × (b ≤ e) × Gaps (suc e) l

-- The same read from the back, all below `hi`.
abbrev pub Stack : ℕ → List Part → Type 0
Stack hi [] = Unit {0}
Stack hi ((b, e) ∷ l) = (e < hi) × (b ≤ e) × Stack b l

-- The last part placed holds the whole range and ends with it.
abbrev pub IsOpen : ℕ → ℕ → ℕ → List Part → Type 0
IsOpen bgn end lo [] = ⊥
IsOpen bgn end lo ((b, e) ∷ l) = (b ≤ bgn) × (e ≡ end) × (bgn < lo) × Stack b l

-- What the loop keeps when the parts still to come begin at `lo` or later.
abbrev pub Inv : ℕ → ℕ → ℕ → List Part → Bool → Type 0
Inv bgn end lo dst false = Stack bgn dst × Stack lo dst
Inv bgn end lo dst true = ((end < lo) × Stack lo dst) ⊎ IsOpen bgn end lo dst

Stack-mono : {h k : ℕ} (l : List Part) → h ≤ k → Stack h l → Stack k l
Stack-mono [] h s = tt
Stack-mono ((b, e) ∷ l) h s = (omega arith, s.1, s.2)

module _ (bgn end lo sb se : ℕ) (range : bgn ≤ end) (from : lo ≤ sb) (ordered : sb ≤ se) where
  place-waiting :
      (dst : List Part)
      → Inv bgn end lo dst false
      → let m = place bgn end sb se (record { dst = dst; new_done = false }) in
        Inv bgn end (suc se) m.dst m.new_done
  unfolding place
  place-waiting dst v =
      ground (arith, Stack-mono {h = lo} {k = sb} dst, Stack-mono {h = lo} {k = bgn} dst)

  place-closed :
      (dst : List Part)
      → (end < lo) × Stack lo dst
      → let m = place bgn end sb se (record { dst = dst; new_done = true }) in
        Inv bgn end (suc se) m.dst m.new_done
  unfolding place
  place-closed dst v = ground (arith, Stack-mono {h = lo} {k = sb} dst)

  place-open :
      (dst : List Part)
      → IsOpen bgn end lo dst
      → let m = place bgn end sb se (record { dst = dst; new_done = true }) in
        Inv bgn end (suc se) m.dst m.new_done
  unfolding place
  place-open [] v = absurd v
  place-open ((b, e) ∷ dst) v = ground arith

  -- One round keeps the invariant.
  pub place-Inv :
      (dst : List Part) (new_done : Bool)
      → Inv bgn end lo dst new_done
      → let m = place bgn end sb se (record { dst = dst; new_done = new_done }) in
        Inv bgn end (suc se) m.dst m.new_done
  place-Inv dst false v = place-waiting dst v
  place-Inv dst true (inl v) = place-closed dst v
  place-Inv dst true (inr v) = place-open dst v

-- Where the next part may begin.
pub past : ℕ → List Part → ℕ
past lo [] = lo
past lo ((b, e) ∷ src) = past (suc e) src

pub place_all-Inv :
    (bgn end lo : ℕ) (src : List Part) (m : Merging)
    → bgn ≤ end
    → Gaps lo src
    → Inv bgn end lo m.dst m.new_done
    → let m' = place_all bgn end src m in Inv bgn end (past lo src) m'.dst m'.new_done
unfolding place_all past
place_all-Inv bgn end lo [] m h g v = v
place_all-Inv bgn end lo ((b, e) ∷ src) m h g v =
    place_all-Inv bgn end (suc e) src (place bgn end b e m) h g.2
      (place-Inv bgn end lo b e h g.0 g.1 m.dst m.new_done v)

place_last-Stack :
    (bgn end lo : ℕ) (dst : List Part) (new_done : Bool)
    → bgn ≤ end
    → Inv bgn end lo dst new_done
    → Stack (suc (lo + end)) (place_last bgn end (record { dst = dst; new_done = new_done }))
unfolding place_last
place_last-Stack bgn end lo dst false h v = (omega arith, h, v.0)
place_last-Stack bgn end lo dst true h (inl v) = Stack-mono dst (omega arith) v.1
place_last-Stack bgn end lo [] true h (inr v) = absurd v
place_last-Stack bgn end lo ((b, e) ∷ dst) true h (inr v) = (omega arith, omega arith, v.3)

Gaps-mono : {h k : ℕ} (l : List Part) → h ≤ k → Gaps k l → Gaps h l
Gaps-mono [] h g = tt
Gaps-mono (p ∷ l) h g = (omega arith, g.1, g.2)

Gaps-reverse-append :
    (hi : ℕ) (l acc : List Part) → Stack hi l → Gaps hi acc → Gaps 0 (reverse l ++ acc)
Gaps-reverse-append hi [] acc s g = Gaps-mono acc (omega arith) g
Gaps-reverse-append hi ((b, e) ∷ l) acc s g =
    rw (reverse-cons (b, e) l, append_assoc)
      (Gaps-reverse-append b l ((b, e) ∷ acc) s.2 (omega arith, s.1, Gaps-mono acc s.0 g))

-- Merging a range into parts that are sorted and have gaps between them leaves them so.
pub merge_parts-Gaps :
    (bgn end : ℕ) (src : List Part) → bgn ≤ end → Gaps 0 src → Gaps 0 (merge_parts bgn end src)
unfolding merge_parts
merge_parts-Gaps bgn end src h g =
    let m : Merging = record { dst = []; new_done = false } in
    let final = place_all bgn end src m in
    subst (Gaps 0) (append-nil _) (
      Gaps-reverse-append _ _ []
        (place_last-Stack bgn end (past 0 src) final.dst final.new_done h
          (place_all-Inv bgn end 0 src m h g (tt, tt)))
        tt)

abbrev IsPlaced : List Part → Bool → Type 0
IsPlaced [] true = ⊥
IsPlaced dst new_done = Unit {0}

place-IsPlaced :
    (bgn end sb se : ℕ) (dst : List Part) (new_done : Bool)
    → IsPlaced dst new_done
    → let m = place bgn end sb se (record { dst = dst; new_done = new_done }) in
      IsPlaced m.dst m.new_done
unfolding place
place-IsPlaced bgn end sb se [] false h = ground arith
place-IsPlaced bgn end sb se [] true h = absurd h
place-IsPlaced bgn end sb se (x ∷ dst) new_done h = ground arith

place_all-IsPlaced :
    (bgn end : ℕ) (src : List Part) (m : Merging)
    → IsPlaced m.dst m.new_done
    → IsPlaced (place_all bgn end src m).dst (place_all bgn end src m).new_done
unfolding place_all
place_all-IsPlaced bgn end [] m h = h
place_all-IsPlaced bgn end ((sb, se) ∷ src) m h =
    place_all-IsPlaced bgn end src (place bgn end sb se m)
      (place-IsPlaced bgn end sb se m.dst m.new_done h)

reverse-ne-nil : (l : List Part) → l ≢ [] → reverse l ≢ []
reverse-ne-nil l h e = h (sym (reverse-reverse l) ∙ ap reverse e)

place_last-ne-nil :
    (bgn end : ℕ) (dst : List Part) (new_done : Bool)
    → IsPlaced dst new_done
    → place_last bgn end (record { dst = dst; new_done = new_done }) ≢ []
unfolding place_last
place_last-ne-nil bgn end [] true h = absurd h
place_last-ne-nil bgn end [] false h = λ e. cc
place_last-ne-nil bgn end (x ∷ dst) new_done h = ground arith

-- There is a part after a merge.
pub merge_parts-ne-nil : (bgn end : ℕ) (src : List Part) → merge_parts bgn end src ≢ []
unfolding merge_parts
merge_parts-ne-nil bgn end src =
    let m : Merging = record { dst = []; new_done = false } in
    let final = place_all bgn end src m in
    reverse-ne-nil _
      (place_last-ne-nil bgn end final.dst final.new_done (place_all-IsPlaced bgn end src m tt))
