-- ===== src/Blobs/Manipulator/Rounds.antt =====
-- That the calls of `process_outgoing` (source/modules/eagine/core/blobs_impl.cpp) come to an end
-- with the whole blob sent.
use eagine_msgbus.Prelude.{
  ℕ, zero, suc, min, ◌%◌, ◌-◌, ◌≤◌, ◌<◌, ◌≡◌, ◌≢◌, refl, sym, ap, ◌∙◌, ◌⊎◌, inl, inr, Bool, true,
  false, not, ◌&&◌, ◌||◌, List, [], ◌∷◌, ◌++◌, arith, length,
}
use mathlib.Core.List.{append_assoc, append-nil, cons≢nil}
use eagine_msgbus.Router.Ident.{MessageId}
use eagine_msgbus.Blobs.Parts.{Part}
use eagine_msgbus.Blobs.Parts.Coverage.{covers, covers-append}
use eagine_msgbus.Blobs.Io.{Provides}
use eagine_msgbus.Blobs.Pending.{PendingBlob, todo_parts, parts_size}
use eagine_msgbus.Blobs.Pending.Advance.{AreFull}
use eagine_msgbus.Blobs.Manipulator.{BlobEnvironment, BlobManipulator, Sent, message_size}
use eagine_msgbus.Blobs.Manipulator.Outgoing.{
  process_pending, process_rounds, process_outgoing, replace_at,
}
use eagine_msgbus.Blobs.Manipulator.Sending.{IsSending, process_pending_step, process_pending_idle}
use eagine_msgbus.Blobs.Manipulator.Pieces.{
  SameBlob, same_trans, CarryAll, CarryAll-SameBlob, CarryAll-append,
}

nil_or_not : (l : List Part) → (l ≡ []) ⊎ (l ≢ [])
nil_or_not [] = inl refl
nil_or_not (x ∷ l) = inr (λ e. cc)

not_covered : (l : List Part) (x : ℕ) → l ≡ [] → covers l x ≢ true
not_covered [] x h = λ c. cc
not_covered (y ∷ l) x h = absurd (cons≢nil h)

all_covered :
    (before after sent : Bool)
    → (before ≡ true → (after || sent) ≡ true)
    → after ≢ true
    → (before && not sent) ≡ false
all_covered true true sent h n = absurd (n refl)
all_covered true false true h n = refl
all_covered true false false h n = sym (h refl)
all_covered false after sent h n = refl

nothing_left : (total : ℕ) (l : List Part) → AreFull total l → parts_size l ≤ 0 → l ≡ []
unfolding parts_size
nothing_left total [] f h = refl
nothing_left total ((b, e) ∷ l) f h = absurd (omega arith)

replace_only {ℓ} : {A : Type ℓ} (i : ℕ) (x y : A) → i ≡ 0 → replace_at i x (y ∷ []) ≡ x ∷ []
unfolding replace_at
replace_only zero x y h = refl
replace_only (suc i) x y h = absurd (omega arith)

module _ {Src Tgt Timeout F : Type 0} (env : BlobEnvironment Src Tgt Timeout F)
    (do_send : List Sent → Sent → Bool) (max_message_size : ℕ) where
  -- Calls of `process_outgoing`, one at each of the times.
  pub process_calls :
      ℕ
      → List ℕ
      → BlobManipulator Src Tgt Timeout F
      → List Sent
      → BlobManipulator Src Tgt Timeout F × List Sent
  process_calls max_messages [] m sent = (m, sent)
  process_calls max_messages (now ∷ times) m sent =
      let r = process_outgoing env do_send now max_message_size max_messages m sent in
      process_calls max_messages times r.0 r.1

module _ {Src Tgt Timeout F : Type 0} (env : BlobEnvironment Src Tgt Timeout F) (blob : List ℕ)
    (provides : Provides env.source blob) where
  -- What rounds may do that turn `p` into `q` and `sent` into `sent'`: they send pieces of the blob,
  -- in each round something, as long as there is something to do.
  record Progress (fragment_msg_id : MessageId) (p : PendingBlob MessageId Src Tgt Timeout F)
      (sent : List Sent) (rounds : ℕ) (q : PendingBlob MessageId Src Tgt Timeout F)
      (sent' : List Sent) : Type 0 where
    pub new : List Sent
    pub pieces : List Part
    pub appended : sent' ≡ sent ++ new
    pub carried : CarryAll env blob p fragment_msg_id new pieces
    pub sending : IsSending env blob provides q
    pub same : SameBlob p q
    pub less : parts_size (todo_parts q) ≤ parts_size (todo_parts p) - rounds
    pub kept :
        (x : ℕ)
        → covers (todo_parts p) x ≡ true
        → (covers (todo_parts q) x || covers pieces x) ≡ true

  Progress-trans :
      (f : MessageId) (p q r : PendingBlob MessageId Src Tgt Timeout F)
      (sent sent' sent'' : List Sent) (n : ℕ)
      → Progress f p sent 1 q sent'
      → Progress f q sent' n r sent''
      → Progress f p sent (suc n) r sent''
  Progress-trans f p q r sent sent' sent'' n h k = record {
    new = h.new ++ k.new;
    pieces = h.pieces ++ k.pieces;
    appended = k.appended ∙ ap (λ l. l ++ k.new) h.appended ∙ append_assoc sent h.new k.new;
    carried =
        CarryAll-append env blob p f h.new k.new h.pieces k.pieces h.carried
          (CarryAll-SameBlob env blob p q f k.new k.pieces h.same k.carried);
    sending = k.sending;
    same = same_trans p q r h.same k.same;
    less = omega (arith, h.less, k.less);
    kept = λ x c. ground (arith, covers-append h.pieces k.pieces x, h.kept x c, k.kept x);
  }

  module _ (do_send : List Sent → Sent → Bool) (max_message_size : ℕ)
      (fragment_msg_id prepare_msg_id : MessageId) where
    -- Whether something is to be sent or not.
    process_pending-Progress :
        (now : ℕ) (p : PendingBlob MessageId Src Tgt Timeout F) (sent : List Sent)
        → env.codec.max_header_size < message_size p.info.priority max_message_size
        → IsSending env blob provides p
        → let r =
            process_pending env do_send now fragment_msg_id prepare_msg_id max_message_size p
              sent in
          Progress fragment_msg_id p sent 1 r.0 r.1
    unfolding parts_size
    process_pending-Progress now p sent room v = elim (nil_or_not (todo_parts p)) [
      | inl e ↦
          let (quiet, sending, same, idle) =
            process_pending_idle env blob provides do_send now fragment_msg_id max_message_size
              prepare_msg_id p sent v e in
          record {
            new = [];
            pieces = [];
            appended = quiet ∙ sym (append-nil sent);
            carried = tt;
            sending = sending;
            same = same;
            less = rw (idle, parts_size) (omega arith);
            kept = λ x c. absurd (not_covered (todo_parts p) x e c);
          }
      | inr ne ↦
          let (s, b, e, appended, carries, sending, same, less, kept) =
            process_pending_step env blob provides do_send now fragment_msg_id max_message_size
              prepare_msg_id p sent room v ne in
          record {
            new = s ∷ [];
            pieces = (b, e) ∷ [];
            appended = appended;
            carried = (carries, tt);
            sending = sending;
            same = same;
            less = omega arith;
            kept = λ x c. ground (arith, kept x c);
          }
    ]

    single_round :
        (now max_messages : ℕ) (m : BlobManipulator Src Tgt Timeout F)
        (p : PendingBlob MessageId Src Tgt Timeout F) (sent : List Sent)
        → m.outgoing ≡ p ∷ []
        → 0 < max_messages
        → m.fragment_msg_id ≡ fragment_msg_id
        → m.prepare_msg_id ≡ prepare_msg_id
        → let r =
            process_pending env do_send now fragment_msg_id prepare_msg_id max_message_size p
              sent in
          let (m', sent', _) =
            process_outgoing env do_send now max_message_size max_messages m sent in
          (m'.outgoing ≡ r.0 ∷ [])
          × (sent' ≡ r.1)
          × (m'.fragment_msg_id ≡ fragment_msg_id)
          × (m'.prepare_msg_id ≡ prepare_msg_id)
    unfolding process_outgoing process_rounds replace_at
    single_round now max_messages m p sent one pos f g =
        let e : min max_messages 1 ≡ 1 = omega arith in
        let i : m.outgoing_index % 1 ≡ 0 = omega arith in
        rw (process_outgoing, one, e, process_rounds, i, f, g)
          (replace_only _ _ p i, refl, refl, refl)

    calls-Progress :
        (max_messages : ℕ) (times : List ℕ) (m : BlobManipulator Src Tgt Timeout F)
        (p : PendingBlob MessageId Src Tgt Timeout F) (sent : List Sent)
        → m.outgoing ≡ p ∷ []
        → 0 < max_messages
        → m.fragment_msg_id ≡ fragment_msg_id
        → m.prepare_msg_id ≡ prepare_msg_id
        → env.codec.max_header_size < message_size p.info.priority max_message_size
        → IsSending env blob provides p
        → let r = process_calls env do_send max_message_size max_messages times m sent in
          (q : PendingBlob MessageId Src Tgt Timeout F) × (r.0.outgoing ≡ q ∷ [])
          × Progress fragment_msg_id p sent (length times) q r.1
    unfolding process_calls
    calls-Progress max_messages [] m p sent one pos f g room v = (
      p,
      one,
      record {
        new = [];
        pieces = [];
        appended = sym (append-nil sent);
        carried = tt;
        sending = v;
        same = (refl, refl, refl, refl);
        less = omega arith;
        kept = λ x c. ground arith;
      },
    )
    calls-Progress max_messages (now ∷ times) m p sent one pos f g room v =
        let r = process_outgoing env do_send now max_message_size max_messages m sent in
        let s =
          process_pending env do_send now fragment_msg_id prepare_msg_id max_message_size p sent in
        let (one', sent', f', g') = single_round now max_messages m p sent one pos f g in
        let h : Progress fragment_msg_id p sent 1 s.0 r.1 =
          rw sent' (process_pending-Progress now p sent room v) in
        let (q, last, k) =
          calls-Progress max_messages times r.0 s.0 r.1 one' pos f' g' (rw (← h.same.0) room)
            h.sending in
        (q, last, Progress-trans fragment_msg_id p s.0 q sent r.1 _ (length times) h k)

    -- A node sends one blob, from a source that is prepared, and the parts to do are not empty and
    -- inside the blob. A header has room in a message. Then after as many calls of `process_outgoing`
    -- as there are bytes to do, or more, whatever the handler answers, nothing is left to do; the
    -- messages sent since carry pieces of the blob, none of them empty, and together these pieces
    -- cover all that was to be sent.
    pub blob_is_sent :
        (max_messages : ℕ) (times : List ℕ) (m : BlobManipulator Src Tgt Timeout F)
        (p : PendingBlob MessageId Src Tgt Timeout F) (sent : List Sent)
        → m.outgoing ≡ p ∷ []
        → 0 < max_messages
        → m.fragment_msg_id ≡ fragment_msg_id
        → m.prepare_msg_id ≡ prepare_msg_id
        → env.codec.max_header_size < message_size p.info.priority max_message_size
        → IsSending env blob provides p
        → parts_size (todo_parts p) ≤ length times
        → let r = process_calls env do_send max_message_size max_messages times m sent in
          (q : PendingBlob MessageId Src Tgt Timeout F) × (new : List Sent) × (pieces : List Part)
          × (r.0.outgoing ≡ q ∷ [])
          × (todo_parts q ≡ [])
          × (r.1 ≡ sent ++ new)
          × CarryAll env blob p fragment_msg_id new pieces
          × ((x : ℕ) → (covers (todo_parts p) x && not (covers pieces x)) ≡ false)
    blob_is_sent max_messages times m p sent one pos f g room v enough =
        let (q, last, h) = calls-Progress max_messages times m p sent one pos f g room v in
        let done : todo_parts q ≡ [] =
          nothing_left (length blob) (todo_parts q) h.sending.full (omega (arith, h.less)) in
        (
          q,
          h.new,
          h.pieces,
          last,
          done,
          h.appended,
          h.carried,
          λ x.
              all_covered (covers (todo_parts p) x) (covers (todo_parts q) x) (covers h.pieces x)
                (h.kept x) (not_covered (todo_parts q) x done),
        )
