-- ===== src/Blobs/Manipulator/Outgoing.antt =====
-- Sending blobs with `blob_manipulator` (source/modules/eagine/core/blobs_impl.cpp): progress
-- messages, fragments, and the rounds over the outgoing blobs. `do_send` tells whether a message is
-- accepted after what was sent before.
use eagine_msgbus.Prelude.{
  ℕ, zero, suc, ◌+◌, ◌-◌, ◌^◌, ◌%◌, Bool, false, not, ◌&&◌, ◌||◌, none, some, List, [], ◌∷◌, ◌++◌,
  length, get_elem?, min, ◌==◌, if◌then◌else◌,
}
use eagine_msgbus.Prelude.Int.{pos}
use eagine_msgbus.Core.{normal}
use eagine_msgbus.Message.Info.{Message, default_info}
use eagine_msgbus.Router.Ident.{MessageId}
use eagine_msgbus.Blobs.Io.{is_working, has_finished}
use eagine_msgbus.Blobs.Pending.{PendingBlob, done_parts, todo_parts}
use eagine_msgbus.Blobs.Pending.Source.{back, advance_back, prepare_source, sent_everything}
use eagine_msgbus.Blobs.Manipulator.{
  FragmentHeader, BlobEnvironment, BlobManipulator, Sent, message_size,
}

-- The list with another element at an index.
unfoldable pub replace_at {ℓ} : {A : Type ℓ} → ℕ → A → List A → List A
replace_at i x [] = []
replace_at zero x (_ ∷ l) = x ∷ l
replace_at (suc i) x (y ∷ l) = y ∷ replace_at i x l

module _ {Src Tgt Timeout F : Type 0} where
  -- The header of the fragment at an offset.
  unfoldable pub fragment_header : PendingBlob MessageId Src Tgt Timeout F → ℕ → FragmentHeader
  fragment_header p bgn = record {
    msg_id = p.msg_id;
    source_blob_id = p.source_blob_id;
    target_blob_id = p.target_blob_id;
    offset = pos bgn;
    total_size = pos p.info.total_size;
    options = p.info.options;
  }

  -- The message with the given content, from the source to the target of the blob.
  unfoldable pub fragment_message : PendingBlob MessageId Src Tgt Timeout F → List ℕ → Message
  fragment_message p bytes = record {
    info = record default_info {
      source_id = p.info.source_id;
      target_id = p.info.target_id;
      priority = p.info.priority;
    };
    content = bytes;
  }

module _ {Src Tgt Timeout F : Type 0} (env : BlobEnvironment Src Tgt Timeout F)
    (do_send : List Sent → Sent → Bool) where
  open env use {timers, floats, codec, source}

  -- `_process_preparing_outgoing`
  pub process_preparing_outgoing :
      ℕ
      → MessageId
      → PendingBlob MessageId Src Tgt Timeout F
      → List Sent
      → PendingBlob MessageId Src Tgt Timeout F × List Sent × Bool
  process_preparing_outgoing now prepare_msg_id p sent =
      let should_notify =
        timers.is_expired now p.prepare_update_time
        || not (floats.less p.prepare_progress floats.one)
        || not
            (floats.less (floats.minus p.prepare_progress p.previous_progress) floats.thousandth) in
      let message : Message = record {
        info = record default_info {
          source_id = p.info.source_id;
          target_id = p.info.target_id;
          priority = normal;
        };
        content = codec.write_progress p.target_blob_id p.prepare_progress;
      } in
      if should_notify
      then (
        record p {
          previous_progress = p.prepare_progress;
          prepare_update_time = timers.reset now p.prepare_update_time;
        },
        sent ++ (prepare_msg_id, message) ∷ [],
        do_send sent (prepare_msg_id, message),
      )
      else (p, sent, false)

  -- `_process_finished_outgoing`: a fragment from the begin of the last part, as long as the room
  -- behind the header and the source allow. It is called with a part to do.
  unfoldable pub process_finished_outgoing :
      ℕ
      → MessageId
      → ℕ
      → PendingBlob MessageId Src Tgt Timeout F
      → List Sent
      → PendingBlob MessageId Src Tgt Timeout F × List Sent × Bool
  process_finished_outgoing now fragment_msg_id max_message_size p sent =
      let linger = timers.reset now p.linger_time in
      let size = message_size p.info.priority max_message_size in
      elim (back (todo_parts p)) [
        | none ↦ (p, sent, false)
        | some (bgn, _) ↦ elim (codec.write_header (fragment_header p bgn) size) [
          | none ↦ (record p { linger_time = linger }, sent, false)
          | some header ↦
              let (io, written) = source.fetch_fragment p.source_io bgn (size - length header) in
              let message : Sent = (fragment_msg_id, fragment_message p (header ++ written)) in
              if length written == 0
              then (record p { source_io = io; linger_time = linger }, sent, false)
              else (
                record p {
                  source_io = io;
                  linger_time = linger;
                  fragment_parts = (done_parts p, advance_back (length written) (todo_parts p));
                },
                sent ++ message ∷ [],
                do_send sent message,
              )
        ]
      ]

  -- The body of the loop of `process_outgoing`, on one pending blob.
  unfoldable pub process_pending :
      ℕ
      → MessageId
      → MessageId
      → ℕ
      → PendingBlob MessageId Src Tgt Timeout F
      → List Sent
      → PendingBlob MessageId Src Tgt Timeout F × List Sent × Bool
  process_pending now fragment_msg_id prepare_msg_id max_message_size p sent =
      let (q, preparation) = prepare_source timers floats source now p in
      if has_finished preparation.status && not (sent_everything source q)
      then process_finished_outgoing now fragment_msg_id max_message_size q sent
      else if is_working preparation.status
      then process_preparing_outgoing now prepare_msg_id q sent
      else (q, sent, false)

  -- The rounds of the loop, one blob after another from the index on, which is a `std::size_t`.
  unfoldable pub process_rounds :
      ℕ
      → ℕ
      → ℕ
      → BlobManipulator Src Tgt Timeout F
      → List Sent
      → Bool
      → BlobManipulator Src Tgt Timeout F × List Sent × Bool
  process_rounds now max_message_size zero m sent something_done = (m, sent, something_done)
  process_rounds now max_message_size (suc rounds) m sent something_done =
      let i = m.outgoing_index % length m.outgoing in
      let next = (m.outgoing_index + 1) % 2 ^ 64 in
      elim (get_elem? m.outgoing i) [
        | none ↦ (m, sent, something_done)
        | some p ↦
            let r =
              process_pending now m.fragment_msg_id m.prepare_msg_id max_message_size p sent in
            process_rounds now max_message_size rounds
              (record m { outgoing_index = next; outgoing = replace_at i r.0 m.outgoing }) r.1
              (something_done || r.2)
      ]

  -- `process_outgoing`
  unfoldable pub process_outgoing :
      ℕ
      → ℕ
      → ℕ
      → BlobManipulator Src Tgt Timeout F
      → List Sent
      → BlobManipulator Src Tgt Timeout F × List Sent × Bool
  process_outgoing now max_message_size max_messages m sent =
      process_rounds now max_message_size (min max_messages (length m.outgoing)) m sent false
