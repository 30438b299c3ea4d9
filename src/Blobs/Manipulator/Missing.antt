-- ===== src/Blobs/Manipulator/Missing.antt =====
-- The range that `update` requests again (`_done_begin_end`,
-- source/modules/eagine/core/blobs_impl.cpp).
use eagine_msgbus.Prelude.{
  ℕ, zero, suc, ◌+◌, ◌-◌, ◌*◌, ◌/◌, ◌≤◌, ◌<◌, ◌≡◌, ◌≢◌, refl, true, false, not, ◌&&◌, List, [], ◌∷◌,
  arith, min, ltb, if◌then◌else◌, dec_lt, lt→ltb,
}
use eagine_msgbus.Blobs.Parts.{Part}
use eagine_msgbus.Blobs.Parts.Gaps.{Gaps}
use eagine_msgbus.Blobs.Parts.Coverage.{covers, within, EndsBy, whole, covers-below}
use eagine_msgbus.Blobs.Manipulator.Upkeep.{done_begin_end}

-- What is asked of a range that is requested.
abbrev pub IsMissing : List Part → ℕ → ℕ → Part → Type 0
IsMissing parts total limit (bgn, end) =
    (bgn ≤ end)
    × (end ≤ total)
    × (end - bgn ≤ limit)
    × ((x : ℕ) → (ltb x bgn && not (covers parts x)) ≡ false)
    × ((x : ℕ) → (within bgn end x && covers parts x) ≡ false)
    × ((if ltb bgn end then true else whole parts total) ≡ true)

gap_before :
    (b e total limit : ℕ) (l : List Part)
    → 0 < b
    → 0 < limit
    → Gaps 0 ((b, e) ∷ l)
    → EndsBy total ((b, e) ∷ l)
    → IsMissing ((b, e) ∷ l) total limit (0, min b limit)
gap_before b e total limit l h k g d = (
  omega arith,
  omega arith,
  omega arith,
  λ x. ground arith,
  λ x. elim (dec_lt x b) [
    | yes p ↦ ground (arith, covers-below b x ((b, e) ∷ l) (omega arith, g.1, g.2) p)
    | no p ↦ ground arith
  ],
  ground arith,
)

gap_after :
    (e total limit : ℕ)
    → 0 < limit
    → e ≤ total
    → IsMissing ((0, e) ∷ []) total limit (e, e + min (total - e) limit)
gap_after e total limit k d =
    (omega arith, omega arith, omega arith, λ x. ground arith, λ x. ground arith, ground arith)

gap_between :
    (e b' e' total limit : ℕ) (l : List Part)
    → 0 < limit
    → Gaps 0 ((0, e) ∷ (b', e') ∷ l)
    → EndsBy total ((0, e) ∷ (b', e') ∷ l)
    → IsMissing ((0, e) ∷ (b', e') ∷ l) total limit (e, e + min (b' - e) limit)
gap_between e b' e' total limit l k g d = (
  omega arith,
  omega arith,
  omega arith,
  λ x. ground arith,
  λ x. elim (dec_lt x b') [
    | yes p ↦ ground (arith, covers-below b' x ((b', e') ∷ l) (omega arith, g.2.1, g.2.2) p)
    | no p ↦ ground arith
  ],
  ground arith,
)

-- For parts of which something is done, sorted with gaps between them and inside of the blob, and a
-- message of at least two bytes: the range that is requested begins with the first offset that is
-- missing, holds no offset that is done, stays inside of the blob and is at most two thirds of a
-- message long; it is empty only if nothing is missing.
pub done_begin_end-IsMissing :
    (parts : List Part) (total max_message_size : ℕ)
    → parts ≢ []
    → Gaps 0 parts
    → EndsBy total parts
    → 2 ≤ max_message_size
    → IsMissing parts total (2 * max_message_size / 3) (done_begin_end parts total max_message_size)
unfolding done_begin_end
done_begin_end-IsMissing [] total max_message_size ne g d two = absurd (ne refl)
done_begin_end-IsMissing ((suc b, e) ∷ []) total max_message_size ne g d two =
    rw (done_begin_end, lt→ltb 0 (suc b) (omega arith))
      (gap_before (suc b) e total (2 * max_message_size / 3) [] (omega arith) (omega arith) g d)
done_begin_end-IsMissing ((zero, e) ∷ []) total max_message_size ne g d two =
    gap_after e total (2 * max_message_size / 3) (omega arith) d.0
done_begin_end-IsMissing ((suc b, e) ∷ (b', e') ∷ l) total max_message_size ne g d two =
    rw (done_begin_end, lt→ltb 0 (suc b) (omega arith))
      (gap_before (suc b) e total (2 * max_message_size / 3) ((b', e') ∷ l) (omega arith)
        (omega arith) g d)
done_begin_end-IsMissing ((zero, e) ∷ (b', e') ∷ l) total max_message_size ne g d two =
    gap_between e b' e' total (2 * max_message_size / 3) l (omega arith) g d
