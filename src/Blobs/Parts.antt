-- ===== src/Blobs/Parts.antt =====
-- The loop over `fragment_parts` in `pending_blob::merge_fragment` and `merge_resend_request`
-- (source/modules/eagine/core/blobs_impl.cpp). A part is a half-open range of offsets.
pub mod Gaps
pub mod Coverage
use eagine_msgbus.Prelude.{ℕ, Bool, true, false, List, [], ◌∷◌, reverse, ltb, leb, if◌then◌else◌}

-- `std::tuple<span_size_t, span_size_t>`: begin and end.
abbrev pub Part : Type 0
Part = ℕ × ℕ

-- The variables of the loop. The head of `dst` is the back of the vector.
pub record Merging : Type 0 where
  pub dst : List Part
  pub new_done : Bool

-- `std::get<1>(dst.back()) = e`
unfoldable pub set_back_end : List Part → ℕ → List Part
set_back_end [] e = []
set_back_end ((b, _) ∷ dst) e = (b, e) ∷ dst

-- One round of the loop for the range from `bgn` to `end`.
unfoldable pub place : ℕ → ℕ → ℕ → ℕ → Merging → Merging
unfolding set_back_end
place bgn end src_bgn src_end m =
    if ltb bgn src_bgn
    then (if ltb end src_bgn
        then record {
          dst = (src_bgn, src_end) ∷ (if new_done then dst else (bgn, end) ∷ dst);
          new_done = true;
        }
        else if leb end src_end
        then (if new_done
            then record { dst = set_back_end dst src_end; new_done = true }
            else record { dst = (bgn, src_end) ∷ dst; new_done = true })
        else if new_done
        then m
        else record { dst = (bgn, end) ∷ dst; new_done = true })
    else if leb bgn src_end
    then (if leb end src_end
        then record { dst = (src_bgn, src_end) ∷ dst; new_done = true }
        else record { dst = (src_bgn, end) ∷ dst; new_done = true })
    else record { dst = (src_bgn, src_end) ∷ dst; new_done = new_done }
  where
    open m use {dst, new_done}

unfoldable pub place_all : ℕ → ℕ → List Part → Merging → Merging
place_all bgn end [] m = m
place_all bgn end ((src_bgn, src_end) ∷ src) m =
    place_all bgn end src (place bgn end src_bgn src_end m)

-- The range itself, if no round has placed it.
unfoldable pub place_last : ℕ → ℕ → Merging → List Part
place_last bgn end m = if m.new_done then m.dst else (bgn, end) ∷ m.dst

-- The parts after the loop.
unfoldable pub merge_parts : ℕ → ℕ → List Part → List Part
unfolding place_last place_all
merge_parts bgn end src =
    reverse (place_last bgn end (place_all bgn end src (record { dst = []; new_done = false })))
