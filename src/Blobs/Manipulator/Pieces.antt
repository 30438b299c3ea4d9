-- ===== src/Blobs/Manipulator/Pieces.antt =====
-- The messages in which the fragments of a blob travel (source/modules/eagine/core/blobs_impl.cpp).
use eagine_msgbus.Prelude.{ℕ, ◌≤◌, ◌<◌, ◌≡◌, ◌∙◌, some, List, [], ◌∷◌, ◌++◌, length}
use eagine_msgbus.Router.Ident.{MessageId}
use eagine_msgbus.Blobs.Parts.{Part}
use eagine_msgbus.Blobs.Io.{slice}
use eagine_msgbus.Blobs.Pending.{PendingBlob}
use eagine_msgbus.Blobs.Manipulator.{BlobEnvironment, Sent}
use eagine_msgbus.Blobs.Manipulator.Outgoing.{fragment_header, fragment_message}

module _ {Src Tgt Timeout F : Type 0} where
  -- What the messages tell of a blob is the same.
  abbrev pub SameBlob :
      PendingBlob MessageId Src Tgt Timeout F → PendingBlob MessageId Src Tgt Timeout F → Type 0
  SameBlob p q =
      (p.info ≡ q.info)
      × (p.msg_id ≡ q.msg_id)
      × (p.source_blob_id ≡ q.source_blob_id)
      × (p.target_blob_id ≡ q.target_blob_id)

  pub same_trans :
      (p q r : PendingBlob MessageId Src Tgt Timeout F) → SameBlob p q → SameBlob q r → SameBlob p r
  same_trans p q r h k = (h.0 ∙ k.0, h.1 ∙ k.1, h.2 ∙ k.2, h.3 ∙ k.3)

module _ {Src Tgt Timeout F : Type 0} (env : BlobEnvironment Src Tgt Timeout F)
    (blob : List ℕ) where
  open env use {codec}

  -- A message that carries the piece of the blob from `b` to `e`.
  abbrev pub Carries : PendingBlob MessageId Src Tgt Timeout F → MessageId → Sent → Part → Type 0
  Carries p fragment_msg_id (msg_id, message) (b, e) =
      (msg_id ≡ fragment_msg_id)
      × (message ≡ fragment_message p message.content)
      × (codec.read_header message.content ≡ some (fragment_header p b, slice blob b e))
      × (b < e)
      × (e ≤ length blob)

  pub Carries-SameBlob :
      (p q : PendingBlob MessageId Src Tgt Timeout F) (fragment_msg_id : MessageId) (s : Sent)
      (part : Part)
      → SameBlob p q
      → Carries q fragment_msg_id s part
      → Carries p fragment_msg_id s part
  unfolding fragment_message fragment_header
  Carries-SameBlob p q fragment_msg_id s part (i, m, b, t) c = rw (i, m, b, t) c

  -- Messages that carry the pieces, one each and in this order.
  abbrev pub CarryAll :
      PendingBlob MessageId Src Tgt Timeout F → MessageId → List Sent → List Part → Type 0
  CarryAll p fragment_msg_id [] [] = Unit {0}
  CarryAll p fragment_msg_id (s ∷ sent) (part ∷ parts) =
      Carries p fragment_msg_id s part × CarryAll p fragment_msg_id sent parts
  CarryAll p fragment_msg_id _ _ = ⊥

  pub CarryAll-SameBlob :
      (p q : PendingBlob MessageId Src Tgt Timeout F) (fragment_msg_id : MessageId)
      (sent : List Sent) (parts : List Part)
      → SameBlob p q
      → CarryAll q fragment_msg_id sent parts
      → CarryAll p fragment_msg_id sent parts
  CarryAll-SameBlob p q f [] [] h c = tt
  CarryAll-SameBlob p q f [] (part ∷ parts) h c = elim c [ ]
  CarryAll-SameBlob p q f (s ∷ sent) [] h c = elim c [ ]
  CarryAll-SameBlob p q f (s ∷ sent) (part ∷ parts) h c =
      (Carries-SameBlob p q f s part h c.0, CarryAll-SameBlob p q f sent parts h c.1)

  pub CarryAll-append :
      (p : PendingBlob MessageId Src Tgt Timeout F) (fragment_msg_id : MessageId)
      (sent sent' : List Sent) (parts parts' : List Part)
      → CarryAll p fragment_msg_id sent parts
      → CarryAll p fragment_msg_id sent' parts'
      → CarryAll p fragment_msg_id (sent ++ sent') (parts ++ parts')
  CarryAll-append p f [] sent' [] parts' c d = d
  CarryAll-append p f [] sent' (part ∷ parts) parts' c d = elim c [ ]
  CarryAll-append p f (s ∷ sent) sent' [] parts' c d = elim c [ ]
  CarryAll-append p f (s ∷ sent) sent' (part ∷ parts) parts' c d =
      (c.0, CarryAll-append p f sent sent' parts parts' c.1 d)
