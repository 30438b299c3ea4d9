-- ===== src/Blobs/Pending/Advance.antt =====
-- The last part that is to be sent, when some bytes of it are sent
-- (`_process_finished_outgoing`, source/modules/eagine/core/blobs_impl.cpp).
use eagine_msgbus.Prelude.{ℕ, ◌+◌, ◌≤◌, ◌<◌, ◌≡◌, ◌≢◌, refl, true, ◌||◌, some, List, [], ◌∷◌, arith}
use eagine_msgbus.Blobs.Parts.{Part}
use eagine_msgbus.Blobs.Parts.Coverage.{covers, within}
use eagine_msgbus.Blobs.Pending.{parts_size}
use eagine_msgbus.Blobs.Pending.Source.{back, advance_back}

-- No part is empty, and none ends after `total`.
abbrev pub AreFull : ℕ → List Part → Type 0
AreFull total [] = Unit {0}
AreFull total ((b, e) ∷ l) = (b < e) × (e ≤ total) × AreFull total l

-- There is a last part, it begins inside the blob.
pub back-some :
    (total : ℕ) (l : List Part)
    → l ≢ []
    → AreFull total l
    → (b : ℕ) × (e : ℕ) × (back l ≡ some (b, e)) × (b < total)
unfolding back
back-some total [] n f = absurd (n refl)
back-some total ((b, e) ∷ []) n f = (b, e, refl, omega arith)
back-some total (p ∷ q ∷ l) n f = back-some total (q ∷ l) (λ e. cc) f.2

pub advance_back-AreFull :
    (total n : ℕ) (l : List Part) → AreFull total l → AreFull total (advance_back n l)
unfolding advance_back
advance_back-AreFull total n [] f = tt
advance_back-AreFull total n ((b, e) ∷ []) f = ground arith
advance_back-AreFull total n (p ∷ q ∷ l) f = (f.0, f.1, advance_back-AreFull total n (q ∷ l) f.2)

pub size-advance_back :
    (total n : ℕ) (l : List Part)
    → l ≢ []
    → 0 < n
    → AreFull total l
    → parts_size (advance_back n l) < parts_size l
unfolding advance_back parts_size
size-advance_back total n [] ne pos f = absurd (ne refl)
size-advance_back total n ((b, e) ∷ []) ne pos f = ground arith
size-advance_back total n ((b, e) ∷ q ∷ l) ne pos f =
    omega (arith, size-advance_back total n (q ∷ l) (λ e. cc) pos f.2)

-- What was to be sent is still to be sent or lies in the range that is sent.
pub covers-advance_back :
    (n b e x : ℕ) (l : List Part)
    → back l ≡ some (b, e)
    → covers l x ≡ true
    → (covers (advance_back n l) x || within b (b + n) x) ≡ true
unfolding back advance_back
covers-advance_back n b e x [] h c = cc
covers-advance_back n b e x ((b', e') ∷ []) h c = ground arith
covers-advance_back n b e x (p ∷ q ∷ l) h c = ground (arith, covers-advance_back n b e x (q ∷ l) h)
