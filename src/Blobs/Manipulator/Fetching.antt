-- ===== src/Blobs/Manipulator/Fetching.antt =====
-- Which blobs `fetch_all` hands over, and which stay
-- (`blob_manipulator`, source/modules/eagine/core/blobs_impl.cpp).
use eagine_msgbus.Prelude.{ℕ, ◌≡◌, refl, Bool, true, Option, some, List, [], ◌∷◌, ◌++◌}
use eagine_msgbus.Message.Info.{default_info}
use eagine_msgbus.Router.Ident.{MessageId}
use eagine_msgbus.Blobs.Pending.{PendingBlob, received_everything}
use eagine_msgbus.Blobs.Manipulator.{BlobManipulator}
use eagine_msgbus.Blobs.Manipulator.Upkeep.{
  erase_all, fetched_message, completed, fetched_blob, fetched_all, fetch_blobs,
}
use eagine_msgbus.Blobs.Manipulator.Receiving.{NonePass}

pub erase_all-last {ℓ} :
    {A : Type ℓ} (test : A → Bool) (l : List A) (x : A)
    → NonePass test l
    → test x ≡ true
    → erase_all test (l ++ x ∷ []) ≡ (l, x ∷ [])
unfolding erase_all
erase_all-last test [] x h p = rw p refl
erase_all-last test (y ∷ l) x h p = rw (erase_all-last test l x h.1 p, h.0) refl

-- If a complete blob in a buffer follows blobs of which none is complete, it is handed over, its
-- buffer as the content of a message with the ids and the priority of the blob, and the others stay.
pub fetch_blobs-last :
    {Src Tgt Timeout F : Type 0} (target_buffer_io : Tgt → Option (List ℕ))
    (m : BlobManipulator Src Tgt Timeout F)
    (before : List (PendingBlob MessageId Src Tgt Timeout F))
    (q : PendingBlob MessageId Src Tgt Timeout F) (bytes : List ℕ)
    → m.incoming ≡ before ++ q ∷ []
    → NonePass received_everything before
    → received_everything q ≡ true
    → target_buffer_io q.target_io ≡ some bytes
    → let r = fetch_blobs target_buffer_io m in
      (r.0.incoming ≡ before)
      × (r.1
          ≡ fetched_message q.msg_id (record {
            info = record default_info {
              source_id = q.info.source_id;
              target_id = q.info.target_id;
              sequence_no = q.target_blob_id;
              priority = q.info.priority;
            };
            content = bytes;
          })
            ∷ [])
unfolding fetch_blobs fetched_all fetched_blob completed
fetch_blobs-last target_buffer_io m before q bytes here others complete buffer =
    rw
      (
        fetch_blobs,
        here,
        erase_all-last received_everything before q others complete,
        fetched_all,
        fetched_blob,
        buffer,
      )
      (refl, refl)
