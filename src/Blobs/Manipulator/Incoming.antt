-- ===== src/Blobs/Manipulator/Incoming.antt =====
-- Receiving fragments with `blob_manipulator` (source/modules/eagine/core/blobs_impl.cpp). A
-- `target_io_getter` is a function that may have no target to give.
use eagine_msgbus.Prelude.{
  ℕ, ◌-◌, max, Bool, true, false, not, ◌&&◌, ◌||◌, Option, none, some, List, [], ◌∷◌, ◌++◌, length,
  leb, ◌==◌, if◌then◌else◌,
}
use eagine_msgbus.Prelude.Int.{pos, pos_part, ltb_ℤ}
use eagine_msgbus.Core.{Priority, broadcast_id, max_priority}
use eagine_msgbus.Message.Info.{Message}
use eagine_msgbus.Router.Ident.{MessageId, same}
use eagine_msgbus.Blobs.Pending.{PendingBlob, merge_fragment, total_size_mismatch}
use eagine_msgbus.Blobs.Manipulator.{
  FragmentHeader, BlobEnvironment, BlobManipulator, new_pending_blob,
}

-- `std::find_if` and a change of the element found, if there is one.
unfoldable pub change_first {ℓ} : {A : Type ℓ} → (A → Bool) → (A → A) → List A → Option (List A)
change_first test f [] = none
change_first test f (x ∷ l) =
    let rest = change_first test f l in
    if test x then some (f x ∷ l) else elim rest [ none ↦ none | some l' ↦ some (x ∷ l') ]

-- The arguments of `push_incoming_fragment` but for the getter. The offset is at least 0 and less
-- than the size of the blob.
pub record Incoming : Type 0 where
  pub msg_id : MessageId
  pub source_id : ℕ
  pub source_blob_id : ℕ
  pub target_blob_id : ℕ
  pub offset : ℕ
  pub total_size : ℕ
  pub fragment : List ℕ
  pub options : ℕ
  pub priority : Priority

-- What `process_incoming` hands on of a message with this header and these bytes behind it.
unfoldable pub incoming_of : Message → FragmentHeader → List ℕ → Incoming
incoming_of message h fragment = record {
  msg_id = h.msg_id;
  source_id = message.info.source_id;
  source_blob_id = h.source_blob_id;
  target_blob_id = h.target_blob_id;
  offset = pos_part h.offset;
  total_size = pos_part h.total_size;
  fragment = fragment;
  options = h.options;
  priority = message.info.priority;
}

module _ {Src Tgt Timeout F : Type 0} where
  -- The blob that the fragment is a part of, by its source.
  unfoldable pub comes_from : Incoming → PendingBlob MessageId Src Tgt Timeout F → Bool
  comes_from x p = (p.info.source_id == x.source_id) && (p.source_blob_id == x.source_blob_id)

  -- A blob that is expected, by its target.
  unfoldable pub is_expected : Incoming → PendingBlob MessageId Src Tgt Timeout F → Bool
  is_expected x p =
      same p.msg_id x.msg_id
      && ((p.target_blob_id == x.target_blob_id)
          && ((p.info.source_id == x.source_id) || (p.info.source_id == broadcast_id)))

  -- The first fragment of an expected blob tells its source and its size.
  unfoldable pub update_expected :
      Incoming → PendingBlob MessageId Src Tgt Timeout F → PendingBlob MessageId Src Tgt Timeout F
  update_expected x p = record p {
    source_blob_id = x.source_blob_id;
    info = record p.info {
      source_id = if p.info.source_id == broadcast_id then x.source_id else p.info.source_id;
      priority = x.priority;
      options = x.options;
      total_size = x.total_size;
    };
  }

module _ {Src Tgt Timeout F : Type 0} (env : BlobEnvironment Src Tgt Timeout F) where
  open env use {mem, buffers, timers, target}

  -- The fragment is merged unless its size or message id are not those of the pending blob.
  unfoldable pub accept_fragment :
      ℕ
      → Incoming
      → PendingBlob MessageId Src Tgt Timeout F
      → PendingBlob MessageId Src Tgt Timeout F
  accept_fragment now x p =
      let fed : PendingBlob MessageId Src Tgt Timeout F = record p {
        max_time = timers.reset now p.max_time;
        info = record p.info {
          priority = max_priority p.info.priority x.priority;
          total_size = max p.info.total_size x.total_size;
        };
      } in
      let merged = (merge_fragment buffers mem target fed x.offset x.fragment now).0 in
      if not (total_size_mismatch p x.total_size)
      then (if same p.msg_id x.msg_id then merged else p)
      else p

  -- A blob of which this is the first fragment.
  unfoldable pub first_fragment : ℕ → Incoming → Tgt → PendingBlob MessageId Src Tgt Timeout F
  first_fragment now x io =
      let fresh : PendingBlob MessageId Src Tgt Timeout F = new_pending_blob env x.msg_id now in
      let started : PendingBlob MessageId Src Tgt Timeout F = record fresh {
        info = record fresh.info {
          source_id = x.source_id;
          total_size = x.total_size;
          priority = x.priority;
          options = x.options;
        };
        source_blob_id = x.source_blob_id;
        target_blob_id = x.target_blob_id;
        target_io = io;
        max_time = timers.timer now 60;
        fragment_parts = ([], fresh.fragment_parts.1);
      } in
      (merge_fragment buffers mem target started x.offset x.fragment now).0

  -- `push_incoming_fragment`, which always returns true.
  unfoldable pub push_incoming_fragment :
      ℕ
      → (MessageId → ℕ → Option Tgt)
      → Incoming
      → BlobManipulator Src Tgt Timeout F
      → BlobManipulator Src Tgt Timeout F × Bool
  push_incoming_fragment now get_io x m =
      elim (change_first (comes_from x) (accept_fragment now x) m.incoming) [
        | some changed ↦ (record m { incoming = changed }, true)
        | none ↦
            elim (change_first (is_expected x) (λ p. accept_fragment now x (update_expected x p))
              m.incoming) [
                | some changed ↦ (record m { incoming = changed }, true)
                | none ↦ elim (x.source_id == broadcast_id) [
                  | true ↦ (m, true)
                  | false ↦ elim (get_io x.msg_id x.total_size) [
                    | none ↦ (m, true)
                    | some io ↦
                        (record m { incoming = m.incoming ++ first_fragment now x io ∷ [] }, true)
                  ]
                ]
              ]
      ]

  -- `process_incoming` with a getter.
  unfoldable pub process_incoming :
      ℕ
      → (MessageId → ℕ → Option Tgt)
      → Message
      → BlobManipulator Src Tgt Timeout F
      → BlobManipulator Src Tgt Timeout F × Bool
  process_incoming now get_io message m = elim (env.codec.read_header message.content) [
    | none ↦ (m, false)
    | some (h, fragment) ↦
        let pushed = push_incoming_fragment now get_io (incoming_of message h fragment) m in
        if not (ltb_ℤ h.offset (pos 0)) && ltb_ℤ h.offset h.total_size
        then (if leb (length fragment) (pos_part h.total_size - pos_part h.offset)
            then pushed
            else (m, false))
        else (m, false)
  ]
