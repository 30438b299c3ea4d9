-- ===== src/Blobs/Manipulator/Sending.antt =====
-- That a blob is sent whole: the rounds of `process_outgoing` for one blob
-- (source/modules/eagine/core/blobs_impl.cpp).
use eagine_msgbus.Prelude.{
  ℕ, zero, suc, ◌+◌, ◌-◌, ◌<◌, ◌≡◌, ◌≢◌, refl, sym, ap, ◌∙◌, Bool, true, false, ◌||◌, some, List,
  [], ◌∷◌, ◌++◌, arith, length, take, drop, length-take, length-drop, ne→==, gt→leb, min,
}
use eagine_msgbus.Router.Ident.{MessageId}
use eagine_msgbus.Blobs.Parts.{Part}
use eagine_msgbus.Blobs.Parts.Coverage.{covers, within}
use eagine_msgbus.Blobs.Io.{Provides, slice}
use eagine_msgbus.Blobs.Pending.{PendingBlob, done_parts, todo_parts, parts_size}
use eagine_msgbus.Blobs.Pending.Source.{back, advance_back, prepare_source, sent_everything}
use eagine_msgbus.Blobs.Pending.Advance.{
  AreFull, back-some, advance_back-AreFull, size-advance_back, covers-advance_back,
}
use eagine_msgbus.Blobs.Manipulator.{BlobEnvironment, Sent, message_size}
use eagine_msgbus.Blobs.Manipulator.Pieces.{Carries, SameBlob}
use eagine_msgbus.Blobs.Manipulator.Outgoing.{
  fragment_header, fragment_message, process_finished_outgoing, process_pending,
}

take_exactly : (k : ℕ) (xs : List ℕ) → take k xs ≡ take (length (take k xs)) xs
take_exactly zero xs = refl
take_exactly (suc k) [] = refl
take_exactly (suc k) (x ∷ xs) = ap (◌∷◌ x) (take_exactly k xs)

-- What is fetched at an offset is a piece of the blob.
fetched-slice :
    (blob w : List ℕ) (k b : ℕ) → w ≡ take k (drop b blob) → w ≡ slice blob b (b + length w)
fetched-slice blob w k b h =
    h
    ∙ take_exactly k (drop b blob)
    ∙ ap (λ n. take n (drop b blob)) {y = b + length w - b} (ap length (sym h) ∙ omega arith)

module _ {Src Tgt Timeout F : Type 0} (env : BlobEnvironment Src Tgt Timeout F) (blob : List ℕ)
    (provides : Provides env.source blob) where
  open env use {timers, floats, codec, source}
  open provides use {Ready}

  -- A blob that is being sent: its parts to do are not empty and inside the blob, and the source
  -- holds the blob.
  pub record IsSending (p : PendingBlob MessageId Src Tgt Timeout F) : Type 0 where
    pub full : AreFull (length blob) (todo_parts p)
    pub total : p.info.total_size ≡ length blob
    pub ready : Ready p.source_io

  -- A source that is prepared.
  pub prepared :
      (now : ℕ) (p : PendingBlob MessageId Src Tgt Timeout F)
      → Ready p.source_io
      → prepare_source timers floats source now p ≡ (
        record p { source_io = (source.prepare p.source_io).0; prepare_progress = floats.one },
        (source.prepare p.source_io).1,
      )
  unfolding prepare_source
  prepared now p ready = rw (prepare_source, provides.prepare-finished p.source_io ready) refl

  module _ (do_send : List Sent → Sent → Bool) (now : ℕ) (fragment_msg_id : MessageId)
      (max_message_size : ℕ) where
    not_sent :
        (p : PendingBlob MessageId Src Tgt Timeout F)
        → IsSending p
        → todo_parts p ≢ []
        → sent_everything source p ≡ false
    unfolding sent_everything
    not_sent p v ne = first_left (todo_parts p) v.full ne
      where
        first_left :
            (l : List Part)
            → AreFull (length blob) l
            → l ≢ []
            → elim l [ [] ↦ true | (bgn, _) ∷ _ ↦ source.is_at_eod p.source_io bgn ] ≡ false
        first_left [] f ne = absurd (ne refl)
        first_left ((b, e) ∷ l) f ne =
            provides.is_at_eod_lem p.source_io b v.ready ∙ gt→leb (length blob) b (omega arith)

    -- The state and the message after a call with a part to do, written out.
    finished_run :
        (p : PendingBlob MessageId Src Tgt Timeout F) (sent : List Sent) (b e : ℕ) (header : List ℕ)
        → let size = message_size p.info.priority max_message_size in
          let fetched = source.fetch_fragment p.source_io b (size - length header) in
          back (todo_parts p) ≡ some (b, e)
          → codec.write_header (fragment_header p b) size ≡ some header
          → 0 < length fetched.1
          → process_finished_outgoing env do_send now fragment_msg_id max_message_size p sent ≡ (
            record p {
              source_io = fetched.0;
              linger_time = timers.reset now p.linger_time;
              fragment_parts = (done_parts p, advance_back (length fetched.1) (todo_parts p));
            },
            sent ++ (fragment_msg_id, fragment_message p (header ++ fetched.1)) ∷ [],
            do_send sent (fragment_msg_id, fragment_message p (header ++ fetched.1)),
          )
    unfolding process_finished_outgoing
    finished_run p sent b e header last wrote pos =
        let size = message_size p.info.priority max_message_size in
        let n = length (source.fetch_fragment p.source_io b (size - length header)).1 in
        rw (process_finished_outgoing, last, wrote, ne→== n 0 (omega arith)) refl

    finished_step :
        (p : PendingBlob MessageId Src Tgt Timeout F) (sent : List Sent)
        → codec.max_header_size < message_size p.info.priority max_message_size
        → IsSending p
        → todo_parts p ≢ []
        → let r =
            process_finished_outgoing env do_send now fragment_msg_id max_message_size p sent in
          (s : Sent) × (b : ℕ) × (e : ℕ) × (r.1 ≡ sent ++ s ∷ [])
          × Carries env blob p fragment_msg_id s (b, e)
          × IsSending r.0
          × SameBlob p r.0
          × (parts_size (todo_parts r.0) < parts_size (todo_parts p))
          × ((x : ℕ)
              → covers (todo_parts p) x ≡ true
              → (covers (todo_parts r.0) x || within b e x) ≡ true)
    unfolding fragment_header fragment_message
    finished_step p sent room v ne =
        let (b, e, last, below) = back-some (length blob) (todo_parts p) ne v.full in
        let size = message_size p.info.priority max_message_size in
        let (header, wrote, short) =
          codec.write_header-some (fragment_header p b) size (omega arith) in
        let k = size - length header in
        let w = (source.fetch_fragment p.source_io b k).1 in
        let got : w ≡ take k (drop b blob) = provides.fetch_fragment_lem p.source_io b k v.ready in
        let n : length w ≡ min k (length blob - b) =
          ap length got ∙ omega (arith, length-take {0} k (drop b blob), length-drop {0} b blob) in
        let piece : w ≡ slice blob b (b + length w) = fetched-slice blob w k b got in
        rw (finished_run p sent b e header last wrote (omega arith)) (
          (fragment_msg_id, fragment_message p (header ++ w)),
          b,
          b + length w,
          refl,
          (
            refl,
            refl,
            codec.read-write_header (fragment_header p b) size header w wrote
                ∙ ap (λ c. some (fragment_header p b, c)) piece,
            omega arith,
            omega arith,
          ),
          record {
            full = advance_back-AreFull (length blob) (length w) (todo_parts p) v.full;
            total = v.total;
            ready = provides.fetch_fragment-Ready p.source_io b k v.ready;
          },
          (refl, refl, refl, refl),
          size-advance_back (length blob) (length w) (todo_parts p) ne (omega arith) v.full,
          λ x c. covers-advance_back (length w) b e x (todo_parts p) last c,
        )

    -- One round for a blob of which something is to be sent.
    pub process_pending_step :
        (prepare_msg_id : MessageId) (p : PendingBlob MessageId Src Tgt Timeout F)
        (sent : List Sent)
        → codec.max_header_size < message_size p.info.priority max_message_size
        → IsSending p
        → todo_parts p ≢ []
        → let r =
            process_pending env do_send now fragment_msg_id prepare_msg_id max_message_size p
              sent in
          (s : Sent) × (b : ℕ) × (e : ℕ) × (r.1 ≡ sent ++ s ∷ [])
          × Carries env blob p fragment_msg_id s (b, e)
          × IsSending r.0
          × SameBlob p r.0
          × (parts_size (todo_parts r.0) < parts_size (todo_parts p))
          × ((x : ℕ)
              → covers (todo_parts p) x ≡ true
              → (covers (todo_parts r.0) x || within b e x) ≡ true)
    unfolding process_pending fragment_message fragment_header
    process_pending_step prepare_msg_id p sent room v ne =
        let q : PendingBlob MessageId Src Tgt Timeout F = record p {
          source_io = (source.prepare p.source_io).0;
          prepare_progress = floats.one;
        } in
        let u : IsSending q = record {
          full = v.full;
          total = v.total;
          ready = provides.prepare-Ready p.source_io v.ready;
        } in
        rw
          (
            process_pending,
            prepared now p v.ready,
            provides.prepare-finished p.source_io v.ready,
            not_sent q u ne,
          )
          (finished_step q sent room u ne)

    -- One round for a blob that is all sent: no message.
    pub process_pending_idle :
        (prepare_msg_id : MessageId) (p : PendingBlob MessageId Src Tgt Timeout F)
        (sent : List Sent)
        → IsSending p
        → todo_parts p ≡ []
        → let r =
            process_pending env do_send now fragment_msg_id prepare_msg_id max_message_size p
              sent in
          (r.1 ≡ sent) × IsSending r.0 × SameBlob p r.0 × (todo_parts r.0 ≡ [])
    unfolding process_pending sent_everything
    process_pending_idle prepare_msg_id p sent v e =
        rw
          (
            process_pending,
            prepared now p v.ready,
            sent_everything,
            e,
            provides.prepare-finished p.source_io v.ready,
          )
          (
            refl,
            record {
              full = tt;
              total = v.total;
              ready = provides.prepare-Ready p.source_io v.ready;
            },
            (refl, refl, refl, refl),
            refl,
          )
