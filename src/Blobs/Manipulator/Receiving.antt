-- ===== src/Blobs/Manipulator/Receiving.antt =====
-- What a node does with the fragments of one blob (`process_incoming`,
-- source/modules/eagine/core/blobs_impl.cpp).
use eagine_msgbus.Prelude.{
  ℕ, ◌-◌, ◌≤◌, ◌<◌, max, ◌≡◌, ◌≢◌, refl, ap, Bool, true, false, not, ◌&&◌, ◌||◌, Option, none, some,
  List, [], ◌∷◌, ◌++◌, arith, leb, length, drop, length-take, length-drop, ne→==,
}
use eagine_msgbus.Prelude.Int.{pos, ltb_ℤ}
use eagine_msgbus.Core.{broadcast_id, max_priority}
use eagine_msgbus.Router.Ident.{MessageId, same, same_refl}
use eagine_msgbus.Blobs.Parts.Coverage.{covers, within}
use eagine_msgbus.Blobs.Io.{Collects, slice}
use eagine_msgbus.Blobs.Pending.{PendingBlob, done_parts, merge_fragment, total_size_mismatch}
use eagine_msgbus.Blobs.Pending.Merge.{IsAssembling, merge_fragment-IsAssembling}
use eagine_msgbus.Blobs.Manipulator.{BlobEnvironment, BlobManipulator, Sent, new_pending_blob}
use eagine_msgbus.Blobs.Manipulator.Outgoing.{fragment_header, fragment_message}
use eagine_msgbus.Blobs.Manipulator.Incoming.{
  Incoming, change_first, comes_from, is_expected, accept_fragment, first_fragment, incoming_of,
  update_expected, push_incoming_fragment, process_incoming,
}
use eagine_msgbus.Blobs.Manipulator.Pieces.{Carries}

-- No element passes the test.
abbrev pub NonePass {ℓ} : {A : Type ℓ} → (A → Bool) → List A → Type 0
NonePass test [] = Unit {0}
NonePass test (x ∷ l) = (test x ≡ false) × NonePass test l

pub change_first-none {ℓ} :
    {A : Type ℓ} (test : A → Bool) (f : A → A) (l : List A)
    → NonePass test l
    → change_first test f l ≡ none
unfolding change_first
change_first-none test f [] h = refl
change_first-none test f (x ∷ l) h = rw (h.0, change_first-none test f l h.1) refl

pub change_first-last {ℓ} :
    {A : Type ℓ} (test : A → Bool) (f : A → A) (l : List A) (x : A)
    → NonePass test l
    → test x ≡ true
    → change_first test f (l ++ x ∷ []) ≡ some (l ++ f x ∷ [])
unfolding change_first
change_first-last test f [] x h p = rw p refl
change_first-last test f (y ∷ l) x h p = rw (h.0, change_first-last test f l x h.1 p) refl

module _ {Src Tgt Timeout F : Type 0} (env : BlobEnvironment Src Tgt Timeout F)
    (blob : List ℕ) where
  -- The fragment from `b` to `e`, as `process_incoming` hands it on.
  unfoldable pub piece : PendingBlob MessageId Src Tgt Timeout F → ℕ → ℕ → Incoming
  piece p b e = incoming_of (fragment_message p []) (fragment_header p b) (slice blob b e)

  -- The message of a piece passes the guards.
  pub process_incoming-piece :
      (now : ℕ) (get_io : MessageId → ℕ → Option Tgt) (f : MessageId)
      (p : PendingBlob MessageId Src Tgt Timeout F) (s : Sent) (b e : ℕ)
      (m : BlobManipulator Src Tgt Timeout F)
      → p.info.total_size ≡ length blob
      → Carries env blob p f s (b, e)
      → process_incoming env now get_io s.1 m
        ≡ push_incoming_fragment env now get_io (piece p b e) m
  unfolding process_incoming incoming_of fragment_message fragment_header piece
  process_incoming-piece now get_io f p s b e m total c =
      let n : length (slice blob b e) ≡ e - b =
        omega (arith, length-take {0} (e - b) (drop b blob), length-drop {0} b blob) in
      let i : s.1.info ≡ (fragment_message p []).info = ap (λ t. t.info) c.1 in
      let in_blob : (not (ltb_ℤ (pos b) (pos 0)) && ltb_ℤ (pos b) (pos p.info.total_size)) ≡ true =
        ground (arith, c.3, c.4, total) in
      let fits : leb (length (slice blob b e)) (p.info.total_size - b) ≡ true =
        ground (arith, n, c.3, c.4, total) in
      rw (process_incoming, c.2, in_blob, fits, i) refl

  module _ (collects : Collects env.target blob) where
    open collects use {Ready}

    -- An incoming blob that is the other end of `p`.
    pub record IsReceiving (p q : PendingBlob MessageId Src Tgt Timeout F) : Type 0 where
      pub source : q.info.source_id ≡ p.info.source_id
      pub source_blob : q.source_blob_id ≡ p.source_blob_id
      pub msg : q.msg_id ≡ p.msg_id
      pub assembling : IsAssembling env.buffers env.mem env.target blob collects q

    -- The fragment is merged.
    pub accept_fragment-IsReceiving :
        (now : ℕ) (p q : PendingBlob MessageId Src Tgt Timeout F) (b e : ℕ)
        → p.info.total_size ≡ length blob
        → b < e
        → e ≤ length blob
        → IsReceiving p q
        → let q' = accept_fragment env now (piece p b e) q in
          IsReceiving p q'
          × ((x : ℕ) → covers (done_parts q') x ≡ (covers (done_parts q) x || within b e x))
    unfolding piece incoming_of fragment_message fragment_header accept_fragment merge_fragment
    accept_fragment-IsReceiving now p q b e total h k v =
        let a = v.assembling in
        let fed : PendingBlob MessageId Src Tgt Timeout F = record q {
          max_time = env.timers.reset now q.max_time;
          info = record q.info {
            priority = max_priority q.info.priority p.info.priority;
            total_size = max q.info.total_size p.info.total_size;
          };
        } in
        let (_, merged, grown) =
          merge_fragment-IsAssembling env.buffers env.mem env.target blob collects fed b e now
            (omega arith) k
            (record {
              gaps = a.gaps;
              inside = a.inside;
              total = omega (arith, a.total, total);
              ready = a.ready;
              has = a.has;
            }) in
        let same_size : total_size_mismatch q p.info.total_size ≡ false =
          unfold total_size_mismatch in ground (arith, a.total, total) in
        let same_id : same q.msg_id p.msg_id ≡ true = rw v.msg (same_refl p.msg_id) in
        rw (accept_fragment, same_size, same_id)
          (
            record {
              source = v.source;
              source_blob = v.source_blob;
              msg = v.msg;
              assembling = merged;
            },
            grown,
          )

    -- A target that has nothing yet is given the first fragment.
    pub first_fragment-IsReceiving :
        (now : ℕ) (p : PendingBlob MessageId Src Tgt Timeout F) (io : Tgt) (b e : ℕ)
        → p.info.total_size ≡ length blob
        → b < e
        → e ≤ length blob
        → Ready io
        → let q = first_fragment env now (piece p b e) io in
          IsReceiving p q × ((x : ℕ) → covers (done_parts q) x ≡ within b e x)
    unfolding piece incoming_of fragment_message fragment_header first_fragment merge_fragment
        new_pending_blob
    first_fragment-IsReceiving now p io b e total h k ready =
        let fresh : PendingBlob MessageId Src Tgt Timeout F = new_pending_blob env p.msg_id now in
        let started : PendingBlob MessageId Src Tgt Timeout F = record fresh {
          info = record fresh.info {
            source_id = p.info.source_id;
            total_size = p.info.total_size;
            priority = p.info.priority;
            options = p.info.options;
          };
          source_blob_id = p.source_blob_id;
          target_blob_id = p.target_blob_id;
          target_io = io;
          max_time = env.timers.timer now 60;
          fragment_parts = ([], fresh.fragment_parts.1);
        } in
        let (_, merged, grown) =
          merge_fragment-IsAssembling env.buffers env.mem env.target blob collects started b e now
            (omega arith) k
            (record {
              gaps = tt;
              inside = tt;
              total = total;
              ready = ready;
              has = λ x c. ground arith;
            }) in
        (
          record { source = refl; source_blob = refl; msg = refl; assembling = merged },
          λ x. grown x,
        )

    -- A fragment of a blob of which something was received before.
    pub push-known :
        (now : ℕ) (get_io : MessageId → ℕ → Option Tgt)
        (p q : PendingBlob MessageId Src Tgt Timeout F)
        (before : List (PendingBlob MessageId Src Tgt Timeout F)) (b e : ℕ)
        (m : BlobManipulator Src Tgt Timeout F)
        → m.incoming ≡ before ++ q ∷ []
        → NonePass (comes_from (piece p 0 0)) before
        → IsReceiving p q
        → (push_incoming_fragment env now get_io (piece p b e) m).0.incoming
          ≡ before ++ accept_fragment env now (piece p b e) q ∷ []
    unfolding piece incoming_of fragment_message fragment_header push_incoming_fragment comes_from
    push-known now get_io p q before b e m here others v =
        let mine : comes_from (piece p b e) q ≡ true = ground (arith, v.source, v.source_blob) in
        rw
          (
            push_incoming_fragment,
            here,
            change_first-last (comes_from (piece p b e)) (accept_fragment env now (piece p b e))
                before q others mine,
          )
          refl

    -- The first fragment of a blob that is not expected.
    pub push-first :
        (now : ℕ) (get_io : MessageId → ℕ → Option Tgt)
        (p : PendingBlob MessageId Src Tgt Timeout F) (io : Tgt) (b e : ℕ)
        (m : BlobManipulator Src Tgt Timeout F)
        → NonePass (comes_from (piece p 0 0)) m.incoming
        → NonePass (is_expected (piece p 0 0)) m.incoming
        → p.info.source_id ≢ broadcast_id
        → get_io p.msg_id p.info.total_size ≡ some io
        → (push_incoming_fragment env now get_io (piece p b e) m).0.incoming
          ≡ m.incoming ++ first_fragment env now (piece p b e) io ∷ []
    unfolding piece incoming_of fragment_message fragment_header push_incoming_fragment comes_from
        is_expected
    push-first now get_io p io b e m fresh unexpected known target =
        rw
          (
            push_incoming_fragment,
            change_first-none (comes_from (piece p b e)) (accept_fragment env now (piece p b e))
                m.incoming fresh,
            change_first-none (is_expected (piece p b e))
                (λ q. accept_fragment env now (piece p b e) (update_expected (piece p b e) q))
                m.incoming unexpected,
            ne→== p.info.source_id 0 known,
            target,
          )
          refl
