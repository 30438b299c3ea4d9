-- ===== src/Blobs/Pending/Source.antt =====
-- `pending_blob` as a sender (source/modules/eagine/core/blobs_impl.cpp): the preparation of its
-- source, and what is still to be sent. The front of a vector of parts is the head of the list.
use eagine_msgbus.Prelude.{
  ℕ, ◌+◌, Bool, true, Option, none, some, List, [], ◌∷◌, leb, if◌then◌else◌,
}
use eagine_msgbus.Core.{Timers, Floats}
use eagine_msgbus.Blobs.Parts.{Part}
use eagine_msgbus.Blobs.Io.{SourceIo, BlobPreparationResult, is_working, has_failed}
use eagine_msgbus.Blobs.Pending.{PendingBlob, done_parts, todo_parts}

-- `back()`, if there is one.
unfoldable pub back : List Part → Option Part
back [] = none
back (p ∷ []) = some p
back (p ∷ q ∷ l) = back (q ∷ l)

-- `std::get<1>(back()) = e`
pub end_at : ℕ → List Part → List Part
end_at e [] = []
end_at e ((b, _) ∷ []) = (b, e) ∷ []
end_at e (p ∷ q ∷ l) = p ∷ end_at e (q ∷ l)

-- The begin of the last part moves on, and the part is removed when nothing of it is left.
unfoldable pub advance_back : ℕ → List Part → List Part
advance_back written [] = []
advance_back written ((bgn, fin) ∷ []) =
    if leb fin (bgn + written) then [] else (bgn + written, fin) ∷ []
advance_back written (p ∷ q ∷ l) = p ∷ advance_back written (q ∷ l)

module _ {Msg Src Tgt Timeout F : Type 0} (timers : Timers Timeout) (floats : Floats F)
    (source : SourceIo Src F) where
  pub handle_source_preparing :
      ℕ → F → PendingBlob Msg Src Tgt Timeout F → PendingBlob Msg Src Tgt Timeout F
  handle_source_preparing now new_progress p =
      let total = source.total_size p.source_io in
      elim (todo_parts p) [
        | [] ↦ record p { prepare_progress = new_progress }
        | _ ∷ _ ↦ record p {
          linger_time = timers.reset now p.linger_time;
          info = record p.info { total_size = total };
          fragment_parts = (done_parts p, end_at total (todo_parts p));
          prepare_progress = new_progress;
        }
      ]

  -- `pending_blob::prepare`
  unfoldable pub prepare_source :
      ℕ
      → PendingBlob Msg Src Tgt Timeout F
      → PendingBlob Msg Src Tgt Timeout F × BlobPreparationResult F
  prepare_source now p =
      let (io, result) = source.prepare p.source_io in
      let q : PendingBlob Msg Src Tgt Timeout F = record p { source_io = io } in
      (
        if is_working result.status
            then handle_source_preparing now result.progress q
            else record q {
              fragment_parts =
                  if has_failed result.status then (done_parts q, []) else q.fragment_parts;
              prepare_progress = floats.one;
            },
        result,
      )

module _ {Msg Src Tgt Timeout F : Type 0} (source : SourceIo Src F) where
  -- Only the first part is looked at.
  unfoldable pub sent_everything : PendingBlob Msg Src Tgt Timeout F → Bool
  sent_everything p = elim (todo_parts p) [
    | [] ↦ true
    | (bgn, _) ∷ _ ↦ source.is_at_eod p.source_io bgn
  ]

module _ {Msg Src Tgt Timeout F : Type 0} (timers : Timers Timeout) (floats : Floats F)
    (handle_prepared : Tgt → F → Tgt) where
  pub handle_target_preparing :
      ℕ → F → PendingBlob Msg Src Tgt Timeout F → PendingBlob Msg Src Tgt Timeout F
  handle_target_preparing now new_progress p =
      let reset = timers.reset now p.linger_time in
      if floats.less p.prepare_progress new_progress
      then record p {
        previous_progress = p.prepare_progress;
        prepare_progress = new_progress;
        target_io = handle_prepared p.target_io new_progress;
        linger_time = reset;
      }
      else record p { linger_time = reset }
