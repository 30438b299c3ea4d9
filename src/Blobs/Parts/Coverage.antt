-- ===== src/Blobs/Parts/Coverage.antt =====
-- Which offsets the parts of source/modules/eagine/core/blobs_impl.cpp cover when a range has been
-- merged into them.
use mathlib.Core.List.{reverse-cons}
use eagine_msgbus.Prelude.{
  ℕ, suc, ◌≤◌, ◌<◌, ◌≡◌, refl, inl, inr, Bool, true, false, ◌||◌, ◌&&◌, List, [], ◌∷◌, ◌++◌,
  reverse, arith, leb, ltb, ◌==◌, if◌then◌else◌, dec_lt,
}
use eagine_msgbus.Blobs.Parts.{Part, Merging, place, place_all, place_last, merge_parts}
use eagine_msgbus.Blobs.Parts.Gaps.{Gaps, IsOpen, Inv, place-Inv}

abbrev pub within : ℕ → ℕ → ℕ → Bool
within b e x = leb b x && ltb x e

abbrev pub covers : List Part → ℕ → Bool
covers [] x = false
covers ((b, e) ∷ l) x = within b e x || covers l x

-- What the parts placed and, once placed, the range cover.
abbrev covered : ℕ → ℕ → List Part → Bool → ℕ → Bool
covered bgn end dst new_done x = covers dst x || (if new_done then false else within bgn end x)

module _ (bgn end lo sb se x : ℕ) (range : bgn ≤ end) (from : lo ≤ sb) (ordered : sb ≤ se) where
  place-waiting :
      (dst : List Part)
      → let m = place bgn end sb se (record { dst = dst; new_done = false }) in
        covered bgn end m.dst m.new_done x ≡ (covered bgn end dst false x || within sb se x)
  unfolding place
  place-waiting dst = ground arith

  place-closed :
      (dst : List Part)
      → end < lo
      → let m = place bgn end sb se (record { dst = dst; new_done = true }) in
        covered bgn end m.dst m.new_done x ≡ (covered bgn end dst true x || within sb se x)
  unfolding place
  place-closed dst v = ground arith

  place-open :
      (dst : List Part)
      → IsOpen bgn end lo dst
      → let m = place bgn end sb se (record { dst = dst; new_done = true }) in
        covered bgn end m.dst m.new_done x ≡ (covered bgn end dst true x || within sb se x)
  unfolding place
  place-open [] v = absurd v
  place-open ((b, e) ∷ dst) v = ground arith

  place-covered :
      (dst : List Part) (new_done : Bool)
      → Inv bgn end lo dst new_done
      → let m = place bgn end sb se (record { dst = dst; new_done = new_done }) in
        covered bgn end m.dst m.new_done x ≡ (covered bgn end dst new_done x || within sb se x)
  place-covered dst false v = place-waiting dst
  place-covered dst true (inl v) = place-closed dst v.0
  place-covered dst true (inr v) = place-open dst v

place_all-covered :
    (bgn end lo x : ℕ) (src : List Part) (m : Merging)
    → bgn ≤ end
    → Gaps lo src
    → Inv bgn end lo m.dst m.new_done
    → let m' = place_all bgn end src m in
      covered bgn end m'.dst m'.new_done x ≡ (covered bgn end m.dst m.new_done x || covers src x)
unfolding place_all
place_all-covered bgn end lo x [] m h g v = ground arith
place_all-covered bgn end lo x ((b, e) ∷ src) m h g v = ground (
  arith,
  place_all-covered bgn end (suc e) x src (place bgn end b e m) h g.2
      (place-Inv bgn end lo b e h g.0 g.1 m.dst m.new_done v),
  place-covered bgn end lo b e x h g.0 g.1 m.dst m.new_done v,
)

pub covers-append : (l r : List Part) (x : ℕ) → covers (l ++ r) x ≡ (covers l x || covers r x)
covers-append [] r x = refl
covers-append (p ∷ l) r x = ground (arith, covers-append l r x)

covers-reverse : (l : List Part) (x : ℕ) → covers (reverse l) x ≡ covers l x
covers-reverse [] x = refl
covers-reverse (p ∷ l) x = rw (reverse-cons p l, covers-append) (ground (arith, covers-reverse l x))

-- An offset is covered after a merge exactly if it was covered before or lies in the merged range.
pub covers-merge_parts :
    (bgn end : ℕ) (src : List Part) (x : ℕ)
    → bgn ≤ end
    → Gaps 0 src
    → covers (merge_parts bgn end src) x ≡ (covers src x || within bgn end x)
unfolding merge_parts place_last
covers-merge_parts bgn end src x h g =
    let m : Merging = record { dst = []; new_done = false } in
    let final = place_all bgn end src m in
    rw covers-reverse (ground (arith, place_all-covered bgn end 0 x src m h g (tt, tt)))

-- Nothing ends after `total`.
abbrev pub EndsBy : ℕ → List Part → Type 0
EndsBy total [] = Unit {0}
EndsBy total ((b, e) ∷ l) = (e ≤ total) × EndsBy total l

abbrev pub whole : List Part → ℕ → Bool
whole ((b, e) ∷ []) total = (b == 0) && leb total e
whole _ total = false

pub covers-below : (lo x : ℕ) (l : List Part) → Gaps lo l → x < lo → covers l x ≡ false
covers-below lo x [] g h = refl
covers-below lo x ((b, e) ∷ l) g h = ground (arith, covers-below (suc e) x l g.2 (omega arith))

-- Parts that cover every offset below `total` are one part, from 0 to `total`.
pub whole_of_covers :
    (total : ℕ) (l : List Part)
    → 0 < total
    → Gaps 0 l
    → EndsBy total l
    → ((x : ℕ) → x < total → covers l x ≡ true)
    → whole l total ≡ true
whole_of_covers total [] pos g d all = cc (all 0 pos)
whole_of_covers total ((b, e) ∷ []) pos g d all = elim (dec_lt e total) [
  | yes h ↦ absurd (ground (arith, all e h))
  | no h ↦ ground (arith, all 0 pos)
]
whole_of_covers total ((b, e) ∷ (b', e') ∷ l) pos g d all =
    absurd (ground (arith, all e (omega arith), covers-below (suc e') e l g.2.2 (omega arith)))

-- One part from 0 to `total` covers every offset below `total`.
pub covers_of_whole :
    (total : ℕ) (l : List Part) (x : ℕ) → whole l total ≡ true → x < total → covers l x ≡ true
covers_of_whole total [] x w h = cc
covers_of_whole total ((b, e) ∷ []) x w h = ground arith
covers_of_whole total (p ∷ q ∷ l) x w h = cc

EndsBy-append :
    (total : ℕ) (l r : List Part) → EndsBy total l → EndsBy total r → EndsBy total (l ++ r)
EndsBy-append total [] r p q = q
EndsBy-append total (x ∷ l) r p q = (p.0, EndsBy-append total l r p.1 q)

EndsBy-reverse : (total : ℕ) (l : List Part) → EndsBy total l → EndsBy total (reverse l)
EndsBy-reverse total [] p = tt
EndsBy-reverse total (x ∷ l) p =
    rw (reverse-cons x l)
      (EndsBy-append total (reverse l) (x ∷ []) (EndsBy-reverse total l p.1) (p.0, tt))

EndsBy-place :
    (total bgn end sb se : ℕ) (dst : List Part) (new_done : Bool)
    → end ≤ total
    → se ≤ total
    → EndsBy total dst
    → EndsBy total (place bgn end sb se (record { dst = dst; new_done = new_done })).dst
unfolding place
EndsBy-place total bgn end sb se [] new_done h k d = ground arith
EndsBy-place total bgn end sb se (x ∷ dst) new_done h k d = ground arith

EndsBy-place_all :
    (total bgn end : ℕ) (src : List Part) (m : Merging)
    → end ≤ total
    → EndsBy total src
    → EndsBy total m.dst
    → EndsBy total (place_all bgn end src m).dst
unfolding place_all
EndsBy-place_all total bgn end [] m h s d = d
EndsBy-place_all total bgn end ((sb, se) ∷ src) m h s d =
    EndsBy-place_all total bgn end src (place bgn end sb se m) h s.1
      (EndsBy-place total bgn end sb se m.dst m.new_done h s.0 d)

-- Merging keeps the parts inside the blob.
pub merge_parts-EndsBy :
    (total bgn end : ℕ) (src : List Part)
    → end ≤ total
    → EndsBy total src
    → EndsBy total (merge_parts bgn end src)
unfolding merge_parts place_last
merge_parts-EndsBy total bgn end src h s =
    let m : Merging = record { dst = []; new_done = false } in
    let final = place_all bgn end src m in
    EndsBy-reverse total (place_last bgn end final)
      (ground (arith, EndsBy-place_all total bgn end src m h s tt))
