-- ===== src/Blobs/Manipulator/Upkeep.antt =====
-- The other operations of `blob_manipulator` (source/modules/eagine/core/blobs_impl.cpp): requests
-- of the other side, the removal of old blobs, and the blobs that are complete. What an operation
-- calls of a target or a handler for each blob is a list beside the new state.
use eagine_msgbus.Prelude.{
  ℕ, ◌+◌, ◌-◌, ◌*◌, ◌/◌, min, Bool, true, false, ◌&&◌, ◌||◌, Option, none, some, List, [], ◌∷◌,
  ◌++◌, length, ltb, ◌==◌, if◌then◌else◌,
}
use eagine_msgbus.Message.Info.{Message, MessageInfo, default_info}
use eagine_msgbus.Router.Ident.{MessageId}
use eagine_msgbus.Blobs.Parts.{Part}
use eagine_msgbus.Blobs.Pending.{PendingBlob, done_parts, merge_resend_request, received_everything}
use eagine_msgbus.Blobs.Pending.Source.{sent_everything, handle_target_preparing}
use eagine_msgbus.Blobs.Manipulator.{BlobEnvironment, BlobManipulator, Sent}
use eagine_msgbus.Blobs.Manipulator.Incoming.{change_first}

-- `std::erase_if`: what is kept, and what is removed.
unfoldable pub erase_all {ℓ} : {A : Type ℓ} → (A → Bool) → List A → List A × List A
erase_all test [] = ([], [])
erase_all test (x ∷ l) =
    let (kept, removed) = erase_all test l in
    if test x then (kept, x ∷ removed) else (x ∷ kept, removed)

-- The first element that passes the test, and the list without it.
unfoldable pub erase_first {ℓ} : {A : Type ℓ} → (A → Bool) → List A → Option (A × List A)
erase_first test [] = none
erase_first test (x ∷ l) =
    let rest = erase_first test l in
    if test x then some (x, l) else elim rest [ none ↦ none | some (y, l') ↦ some (y, x ∷ l') ]

-- `_done_begin_end`: a range that is to be requested again, of at most two thirds of a message. It
-- is called with at least one part.
unfoldable pub done_begin_end : List Part → ℕ → ℕ → Part
done_begin_end [] total_size max_message_size = (0, 0)
done_begin_end ((bgn, end) ∷ []) total_size max_message_size =
    let limit = 2 * max_message_size / 3 in
    if ltb 0 bgn then (0, min bgn limit) else (end, end + min (total_size - end) limit)
done_begin_end ((bgn, end) ∷ (bgn', _) ∷ _) total_size max_message_size =
    let limit = 2 * max_message_size / 3 in
    if ltb 0 bgn then (0, min bgn limit) else (end, end + min (bgn' - end) limit)

module _ {Src Tgt Timeout F : Type 0} (env : BlobEnvironment Src Tgt Timeout F) where
  open env use {buffers, timers, codec, source}

  -- `_cleanup_outgoing`: the new state and the blobs removed.
  pub cleanup_outgoing :
      ℕ
      → BlobManipulator Src Tgt Timeout F
      → BlobManipulator Src Tgt Timeout F × List (PendingBlob MessageId Src Tgt Timeout F)
  cleanup_outgoing now m =
      let (kept, removed) =
        erase_all
          (λ p.
            timers.is_expired now p.max_time
            || (sent_everything source p && timers.is_expired now p.linger_time))
          m.outgoing in
      (record m { outgoing = kept }, removed)

  -- `_cleanup_incoming`: the targets of the blobs removed are told that they are cancelled.
  pub cleanup_incoming :
      ℕ
      → BlobManipulator Src Tgt Timeout F
      → BlobManipulator Src Tgt Timeout F × List (PendingBlob MessageId Src Tgt Timeout F)
  cleanup_incoming now m =
      let (kept, removed) = erase_all (λ p. timers.is_expired now p.max_time) m.incoming in
      (record m { incoming = kept }, removed)

  -- The loop of `update` over the incoming blobs. The bounds of a request are of type
  -- `std::uint64_t`.
  pub request_missing :
      (List Sent → Sent → Bool)
      → ℕ
      → ℕ
      → MessageId
      → List (PendingBlob MessageId Src Tgt Timeout F)
      → List Sent
      → Bool
      → List (PendingBlob MessageId Src Tgt Timeout F) × List Sent × Bool
  request_missing do_send now max_message_size resend_msg_id [] sent something_done =
      ([], sent, something_done)
  request_missing do_send now max_message_size resend_msg_id (p ∷ l) sent something_done =
      let (bgn, end) = done_begin_end (done_parts p) p.info.total_size max_message_size in
      let message : Message = record {
        info = record default_info { target_id = p.info.source_id };
        content = codec.write_resend p.source_blob_id bgn end;
      } in
      elim (if length (done_parts p) == 0 then false else ltb 250 (now - p.latest_update)) [
        | true ↦
            let (l', sent', something_done') =
              request_missing do_send now max_message_size resend_msg_id l
                (sent ++ (resend_msg_id, message) ∷ [])
                (something_done || do_send sent (resend_msg_id, message)) in
            (record p { latest_update = now } ∷ l', sent', something_done')
        | false ↦
            let (l', sent', something_done') =
              request_missing do_send now max_message_size resend_msg_id l sent something_done in
            (p ∷ l', sent', something_done')
      ]

  -- `update`; the third component of the result is whether something was done.
  pub update :
      (List Sent → Sent → Bool)
      → ℕ
      → ℕ
      → BlobManipulator Src Tgt Timeout F
      → List Sent
      → BlobManipulator Src Tgt Timeout F × List Sent × Bool
  update do_send now max_message_size m sent =
      let (m1, erased_outgoing) = cleanup_outgoing now m in
      let (m2, erased_incoming) = cleanup_incoming now m1 in
      let (requested, sent', something_done) =
        request_missing do_send now max_message_size m.resend_msg_id m2.incoming sent
          (ltb 0 (length erased_outgoing) || ltb 0 (length erased_incoming)) in
      (record m2 { incoming = requested }, sent', something_done)

  -- `process_resend`, which always returns true. Only the id of the blob is looked at.
  unfoldable pub process_resend :
      Message → BlobManipulator Src Tgt Timeout F → BlobManipulator Src Tgt Timeout F
  process_resend message m = elim (codec.read_resend message.content) [
    | none ↦ m
    | some (id, bgn, end) ↦
        elim (change_first (λ p. p.source_blob_id == id)
          (λ p. merge_resend_request buffers p bgn end) m.outgoing) [
            | none ↦ m
            | some changed ↦ record m { outgoing = changed }
          ]
  ]

  -- `process_prepare`, which always returns true.
  pub process_prepare :
      ℕ → Message → BlobManipulator Src Tgt Timeout F → BlobManipulator Src Tgt Timeout F
  process_prepare now message m = elim (codec.read_progress message.content) [
    | none ↦ m
    | some (id, progress) ↦
        elim (change_first (λ p. p.target_blob_id == id)
          (handle_target_preparing timers env.floats env.handle_prepared now progress) m.incoming) [
            | none ↦ m
            | some changed ↦ record m { incoming = changed }
          ]
  ]

-- A call of `handle_finished` or of the fetch handler: the blob and the info of its message.
pub record Completed (Src Tgt Timeout F : Type 0) : Type 0 where
  pub blob : PendingBlob MessageId Src Tgt Timeout F
  pub message : MessageInfo

module _ {Src Tgt Timeout F : Type 0} where
  -- `cancel_incoming`: the blob whose target is told, if there is one.
  pub cancel_incoming :
      ℕ
      → BlobManipulator Src Tgt Timeout F
      → BlobManipulator Src Tgt Timeout F × Option (PendingBlob MessageId Src Tgt Timeout F)
  cancel_incoming target_blob_id m =
      elim (erase_first (λ p. p.target_blob_id == target_blob_id) m.incoming) [
        | none ↦ (m, none)
        | some (p, rest) ↦ (record m { incoming = rest }, some p)
      ]

  -- What a target or a handler is given for a complete blob.
  unfoldable pub completed : PendingBlob MessageId Src Tgt Timeout F → Completed Src Tgt Timeout F
  completed p = record {
    blob = p;
    message = record default_info {
      source_id = p.info.source_id;
      target_id = p.info.target_id;
      sequence_no = p.target_blob_id;
      priority = p.info.priority;
    };
  }

  unfoldable pub completed_all :
      List (PendingBlob MessageId Src Tgt Timeout F) → List (Completed Src Tgt Timeout F)
  completed_all [] = []
  completed_all (p ∷ l) = completed p ∷ completed_all l

  -- `handle_complete`; the result of the function is the length of the list of calls.
  unfoldable pub handle_complete :
      BlobManipulator Src Tgt Timeout F
      → BlobManipulator Src Tgt Timeout F × List (Completed Src Tgt Timeout F)
  handle_complete m =
      let (kept, removed) = erase_all received_everything m.incoming in
      (record m { incoming = kept }, completed_all removed)

-- What `fetch_all` calls for a complete blob: the fetch handler with the buffer as a message, or
-- `handle_finished` of a target that is not a buffer.
pub data Fetched (Src Tgt Timeout F : Type 0) : Type 0 where
  fetched_message : MessageId → Message → Fetched Src Tgt Timeout F
  finished_target : Completed Src Tgt Timeout F → Fetched Src Tgt Timeout F

module _ {Src Tgt Timeout F : Type 0} (target_buffer_io : Tgt → Option (List ℕ)) where
  unfoldable pub fetched_blob : PendingBlob MessageId Src Tgt Timeout F → Fetched Src Tgt Timeout F
  fetched_blob p = elim (target_buffer_io p.target_io) [
    | none ↦ finished_target (completed p)
    | some bytes ↦
        fetched_message p.msg_id (record { info = (completed p).message; content = bytes })
  ]

  unfoldable pub fetched_all :
      List (PendingBlob MessageId Src Tgt Timeout F) → List (Fetched Src Tgt Timeout F)
  fetched_all [] = []
  fetched_all (p ∷ l) = fetched_blob p ∷ fetched_all l

  -- `fetch_all` of the manipulator; the result of the function is the length of the list of calls.
  unfoldable pub fetch_blobs :
      BlobManipulator Src Tgt Timeout F
      → BlobManipulator Src Tgt Timeout F × List (Fetched Src Tgt Timeout F)
  fetch_blobs m =
      let (kept, removed) = erase_all received_everything m.incoming in
      (record m { incoming = kept }, fetched_all removed)
