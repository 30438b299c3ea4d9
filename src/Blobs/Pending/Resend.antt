-- ===== src/Blobs/Pending/Resend.antt =====
-- `merge_resend_request` of source/modules/eagine/core/blobs_impl.cpp: what is to be sent again.
use eagine_msgbus.Prelude.{
  ℕ, ◌≤◌, ◌≡◌, refl, inl, inr, false, ◌||◌, List, arith, ltb, ltb→lt, ltb→ge, ◌==◌, if◌then◌else◌,
  Bool-cases,
}
use eagine_msgbus.Core.{DoubleBuffer}
use eagine_msgbus.Blobs.Parts.{Part}
use eagine_msgbus.Blobs.Parts.Gaps.{Gaps, merge_parts-Gaps}
use eagine_msgbus.Blobs.Parts.Coverage.{covers, within, covers-merge_parts}
use eagine_msgbus.Blobs.Pending.{PendingBlob, todo_parts, done_parts, merge_resend_request}

-- The end of a request; 0 stands for the end of the blob.
abbrev pub requested_to : ℕ → ℕ → ℕ
requested_to total end = if end == 0 then total else end

within_empty : (bgn end x : ℕ) → end ≤ bgn → within bgn end x ≡ false
within_empty bgn end x h = ground arith

module _ {Msg Src Tgt Timeout F : Type 0} (buffers : DoubleBuffer (List Part)) where
  -- After a resend request exactly the offsets are to be sent that were to be sent before or are
  -- requested, also for an empty request; these parts stay sorted with gaps between them. A request that
  -- is not empty leaves the parts that were to be sent before in the other one of the two buffers, an
  -- empty one leaves it as it was; no other member of the pending blob changes.
  pub merge_resend_request-covers :
      (p : PendingBlob Msg Src Tgt Timeout F) (bgn end : ℕ)
      → Gaps 0 (todo_parts p)
      → let q = merge_resend_request buffers p bgn end in
        Gaps 0 (todo_parts q)
        × ((x : ℕ)
            → covers (todo_parts q) x
              ≡ (covers (todo_parts p) x || within bgn (requested_to p.info.total_size end) x))
        × (done_parts q
            ≡ (if ltb bgn (requested_to p.info.total_size end) then todo_parts p else done_parts p))
        × (q ≡ record p { fragment_parts = q.fragment_parts })
  unfolding merge_resend_request
  merge_resend_request-covers p bgn end g =
      let fin = requested_to p.info.total_size end in
      elim (Bool-cases (ltb bgn fin)) [
        | inl h ↦
            let k : bgn ≤ fin = omega (arith, ltb→lt bgn fin h) in
            rw (h, merge_resend_request, buffers.swap_lem p.fragment_parts.0 (todo_parts p))
              (
                merge_parts-Gaps bgn fin (todo_parts p) k g,
                λ x. covers-merge_parts bgn fin (todo_parts p) x k g,
                refl,
                refl,
              )
        | inr h ↦
            rw (h, merge_resend_request)
              (g, λ x. ground (arith, within_empty bgn fin x (ltb→ge bgn fin h)), refl, refl)
      ]
