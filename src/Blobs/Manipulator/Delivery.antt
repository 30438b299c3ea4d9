-- ===== src/Blobs/Manipulator/Delivery.antt =====
-- The messages of a blob that reach a node one after another (`process_incoming`,
-- source/modules/eagine/core/blobs_impl.cpp).
use eagine_msgbus.Prelude.{
  ℕ, ◌+◌, ◌<◌, ◌≡◌, ◌≢◌, refl, ap, ◌∙◌, true, ◌||◌, Option, some, List, [], ◌∷◌, ◌++◌, arith,
  length,
}
use eagine_msgbus.Core.{broadcast_id}
use eagine_msgbus.Router.Ident.{MessageId}
use eagine_msgbus.Blobs.Parts.{Part}
use eagine_msgbus.Blobs.Parts.Coverage.{covers}
use eagine_msgbus.Blobs.Io.{Collects}
use eagine_msgbus.Blobs.Pending.{PendingBlob, done_parts, received_everything}
use eagine_msgbus.Blobs.Pending.Complete.{received_everything_iff, covered-ne-nil}
use eagine_msgbus.Blobs.Manipulator.{BlobEnvironment, BlobManipulator, Sent}
use eagine_msgbus.Blobs.Manipulator.Incoming.{
  comes_from, is_expected, first_fragment, process_incoming,
}
use eagine_msgbus.Blobs.Manipulator.Pieces.{CarryAll}
use eagine_msgbus.Blobs.Manipulator.Receiving.{
  NonePass, IsReceiving, piece, process_incoming-piece, push-known, push-first,
  accept_fragment-IsReceiving, first_fragment-IsReceiving,
}

module _ {Src Tgt Timeout F : Type 0} (env : BlobEnvironment Src Tgt Timeout F)
    (get_io : MessageId → ℕ → Option Tgt) where
  -- The messages arrive at the times of the clock.
  pub deliver :
      (ℕ → ℕ) → List Sent → BlobManipulator Src Tgt Timeout F → BlobManipulator Src Tgt Timeout F
  deliver clock [] m = m
  deliver clock (s ∷ rest) m =
      deliver (λ i. clock (i + 1)) rest (process_incoming env (clock 0) get_io s.1 m).0

  module _ (blob : List ℕ) (collects : Collects env.target blob) where
    open collects use {Ready}

    -- Fragments after the first.
    deliver-known :
        (clock : ℕ → ℕ) (f : MessageId) (p q : PendingBlob MessageId Src Tgt Timeout F)
        (before : List (PendingBlob MessageId Src Tgt Timeout F)) (received : List Sent)
        (pieces : List Part) (m : BlobManipulator Src Tgt Timeout F)
        → p.info.total_size ≡ length blob
        → CarryAll env blob p f received pieces
        → m.incoming ≡ before ++ q ∷ []
        → NonePass (comes_from (piece env blob p 0 0)) before
        → IsReceiving env blob collects p q
        → (q' : PendingBlob MessageId Src Tgt Timeout F) × ((deliver clock received m).incoming
            ≡ before ++ q' ∷ [])
          × IsReceiving env blob collects p q'
          × ((x : ℕ) → covers (done_parts q') x ≡ (covers (done_parts q) x || covers pieces x))
    unfolding deliver
    deliver-known clock f p q before [] [] m total c here others v = (q, here, v, λ x. ground arith)
    deliver-known clock f p q before [] (part ∷ pieces) m total c here others v = elim c [ ]
    deliver-known clock f p q before (s ∷ received) [] m total c here others v = elim c [ ]
    deliver-known clock f p q before (s ∷ received) ((b, e) ∷ pieces) m total c here others v =
        let now = clock 0 in
        let m' = (process_incoming env now get_io s.1 m).0 in
        let (v', grown) =
          accept_fragment-IsReceiving env blob collects now p q b e total c.0.3 c.0.4 v in
        let here' =
          ap (λ r. r.0.incoming) (process_incoming-piece env blob now get_io f p s b e m total c.0)
          ∙ push-known env blob collects now get_io p q before b e m here others v in
        let (q', last, w, grown') =
          deliver-known (λ i. clock (i + 1)) f p _ before received pieces m' total c.1 here' others
            v' in
        (q', last, w, λ x. ground (arith, grown x, grown' x))

    -- Messages that carry pieces of a blob reach a node, in any order, some of them more than once or
    -- overlapping. The node knows no blob with the same source and id and expects none that fits, and
    -- gets a target that has nothing yet. If together the pieces make up the blob, then the node has
    -- exactly one incoming blob more, which is complete, and of which every byte is there.
    pub blob_is_received :
        (clock : ℕ → ℕ) (f : MessageId) (p : PendingBlob MessageId Src Tgt Timeout F) (io : Tgt)
        (received : List Sent) (pieces : List Part) (m : BlobManipulator Src Tgt Timeout F)
        → p.info.total_size ≡ length blob
        → 0 < length blob
        → p.info.source_id ≢ broadcast_id
        → CarryAll env blob p f received pieces
        → ((x : ℕ) → x < length blob → covers pieces x ≡ true)
        → NonePass (comes_from (piece env blob p 0 0)) m.incoming
        → NonePass (is_expected (piece env blob p 0 0)) m.incoming
        → get_io p.msg_id p.info.total_size ≡ some io
        → Ready io
        → (q : PendingBlob MessageId Src Tgt Timeout F) × ((deliver clock received m).incoming
            ≡ m.incoming ++ q ∷ [])
          × (received_everything q ≡ true)
          × ((x : ℕ) → x < length blob → collects.Has q.target_io x)
          × IsReceiving env blob collects p q
    unfolding deliver
    blob_is_received clock f p io [] [] m total pos known c all fresh unexpected target ready =
        absurd (covered-ne-nil [] 0 (all 0 pos) refl)
    blob_is_received clock f p io [] (part ∷ pieces) m total pos known c all fresh unexpected target
          ready =
        elim c [ ]
    blob_is_received clock f p io (s ∷ received) [] m total pos known c all fresh unexpected target
          ready =
        elim c [ ]
    blob_is_received clock f p io (s ∷ received) ((b, e) ∷ pieces) m total pos known c all fresh
          unexpected target ready =
        let now = clock 0 in
        let m' = (process_incoming env now get_io s.1 m).0 in
        let q = first_fragment env now (piece env blob p b e) io in
        let (v, grown) =
          first_fragment-IsReceiving env blob collects now p io b e total c.0.3 c.0.4 ready in
        let here =
          ap (λ r. r.0.incoming) (process_incoming-piece env blob now get_io f p s b e m total c.0)
          ∙ push-first env blob collects now get_io p io b e m fresh unexpected known target in
        let (q', last, w, grown') =
          deliver-known (λ i. clock (i + 1)) f p q m.incoming received pieces m' total c.1 here
            fresh v in
        let filled : (x : ℕ) → x < length blob → covers (done_parts q') x ≡ true =
          λ x h. ground (arith, all x h, grown x, grown' x) in
        (
          q',
          last,
          (received_everything_iff env.buffers env.mem env.target blob collects q' pos
                (covered-ne-nil _ 0 (filled 0 pos)) w.assembling).1
              filled,
          λ x h. w.assembling.has x (filled x h),
          w,
        )
