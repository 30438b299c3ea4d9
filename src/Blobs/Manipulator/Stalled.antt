-- ===== src/Blobs/Manipulator/Stalled.antt =====
-- A transfer that a resend request stops (`process_resend`, `merge_resend_request` and
-- `_process_finished_outgoing`, source/modules/eagine/core/blobs_impl.cpp): the end of a request is
-- not compared with the size of the blob.
use eagine_msgbus.Prelude.{
  ℕ, ◌-◌, ◌≤◌, ◌<◌, ◌≡◌, ◌≢◌, refl, ap, ◌∙◌, Bool, false, some, List, [], ◌∷◌, arith, inl, inr,
  gt→leb, ge→ltb, eq→==, ne→==, lt→ltb, Option-cases, length-take, length-drop, length, take, drop,
}
use eagine_msgbus.Router.Ident.{MessageId}
use eagine_msgbus.Blobs.Parts.{merge_parts, place_all, place, place_last}
use eagine_msgbus.Blobs.Io.{Provides}
use eagine_msgbus.Blobs.Pending.{PendingBlob, todo_parts, merge_resend_request}
use eagine_msgbus.Blobs.Pending.Source.{back, sent_everything}
use eagine_msgbus.Blobs.Manipulator.{BlobEnvironment, Sent, message_size}
use eagine_msgbus.Blobs.Manipulator.Sending.{prepared}
use eagine_msgbus.Blobs.Manipulator.Outgoing.{
  process_finished_outgoing, process_pending, fragment_header,
}

merge_parts_behind :
    (b e bgn end : ℕ)
    → b < e
    → e < bgn
    → merge_parts bgn end ((b, e) ∷ []) ≡ (b, e) ∷ (bgn, end) ∷ []
unfolding merge_parts place_all place place_last
merge_parts_behind b e bgn end h k = rw (ge→ltb bgn b (omega arith), gt→leb bgn e k) refl

module _ {Src Tgt Timeout F : Type 0} (env : BlobEnvironment Src Tgt Timeout F) (blob : List ℕ)
    (provides : Provides env.source blob) (do_send : List Sent → Sent → Bool)
    (fragment_msg_id prepare_msg_id : MessageId) (max_message_size : ℕ) where
  open env use {timers, floats, codec, source}
  open provides use {Ready}

  -- The rounds of `process_outgoing` for one blob, at the given times.
  pub process_pending_at :
      List ℕ
      → PendingBlob MessageId Src Tgt Timeout F
      → List Sent
      → PendingBlob MessageId Src Tgt Timeout F × List Sent
  process_pending_at [] p sent = (p, sent)
  process_pending_at (now ∷ times) p sent =
      let r =
        process_pending env do_send now fragment_msg_id prepare_msg_id max_message_size p sent in
      process_pending_at times r.0 r.1

  -- A last part behind the end of the blob: nothing is fetched.
  nothing_fetched :
      (now : ℕ) (p : PendingBlob MessageId Src Tgt Timeout F) (sent : List Sent) (b' e' : ℕ)
      → Ready p.source_io
      → back (todo_parts p) ≡ some (b', e')
      → length blob ≤ b'
      → let r = process_finished_outgoing env do_send now fragment_msg_id max_message_size p sent in
        (r.1 ≡ sent) × (todo_parts r.0 ≡ todo_parts p) × Ready r.0.source_io
  unfolding process_finished_outgoing
  nothing_fetched now p sent b' e' ready last beyond =
      let size = message_size p.info.priority max_message_size in
      elim (Option-cases (codec.write_header (fragment_header p b') size)) [
        | inl w ↦ rw (process_finished_outgoing, last, w) (refl, refl, ready)
        | inr (header, w) ↦
            let k = size - length header in
            let fetched = (source.fetch_fragment p.source_io b' k).1 in
            let got : fetched ≡ take k (drop b' blob) =
              provides.fetch_fragment_lem p.source_io b' k ready in
            let empty : length fetched ≡ 0 =
              ap length got
              ∙ omega (arith, length-take {0} k (drop b' blob), length-drop {0} b' blob) in
            rw (process_finished_outgoing, last, w, eq→== (length fetched) 0 empty)
              (refl, refl, provides.fetch_fragment-Ready p.source_io b' k ready)
      ]

  stalled_round :
      (now : ℕ) (p : PendingBlob MessageId Src Tgt Timeout F) (sent : List Sent) (b e b' e' : ℕ)
      → Ready p.source_io
      → todo_parts p ≡ (b, e) ∷ (b', e') ∷ []
      → b < length blob
      → length blob ≤ b'
      → let r =
          process_pending env do_send now fragment_msg_id prepare_msg_id max_message_size p sent in
        (r.1 ≡ sent) × (todo_parts r.0 ≡ (b, e) ∷ (b', e') ∷ []) × Ready r.0.source_io
  unfolding process_pending sent_everything back
  stalled_round now p sent b e b' e' ready parts inside beyond =
      let q : PendingBlob MessageId Src Tgt Timeout F = record p {
        source_io = (source.prepare p.source_io).0;
        prepare_progress = floats.one;
      } in
      let ready' = provides.prepare-Ready p.source_io ready in
      let left : sent_everything source q ≡ false =
        rw (sent_everything, parts)
          (provides.is_at_eod_lem q.source_io b ready' ∙ gt→leb (length blob) b inside) in
      let (quiet, same_parts, ready'') =
        nothing_fetched now q sent b' e' ready' (ap back parts) beyond in
      rw
        (
          process_pending,
          prepared env blob provides now p ready,
          provides.prepare-finished p.source_io ready,
          left,
        )
        (quiet, same_parts ∙ parts, ready'')

  stays_stalled :
      (times : List ℕ) (p : PendingBlob MessageId Src Tgt Timeout F) (sent : List Sent)
      (b e b' e' : ℕ)
      → Ready p.source_io
      → todo_parts p ≡ (b, e) ∷ (b', e') ∷ []
      → b < length blob
      → length blob ≤ b'
      → (process_pending_at times p sent).1 ≡ sent
  unfolding process_pending_at
  stays_stalled [] p sent b e b' e' ready parts inside beyond = refl
  stays_stalled (now ∷ times) p sent b e b' e' ready parts inside beyond =
      let r =
        process_pending env do_send now fragment_msg_id prepare_msg_id max_message_size p sent in
      let (quiet, parts', ready') = stalled_round now p sent b e b' e' ready parts inside beyond in
      stays_stalled times r.0 r.1 b e b' e' ready' parts' inside beyond ∙ quiet

  -- One part of the blob is to be sent, and a request comes for a range that begins behind the end of
  -- the blob. Then the rounds for this blob that follow send nothing, however many there are, as long
  -- as no other request comes in between.
  pub resend_stalls :
      (times : List ℕ) (p : PendingBlob MessageId Src Tgt Timeout F) (sent : List Sent)
      (b e bgn end : ℕ)
      → Ready p.source_io
      → todo_parts p ≡ (b, e) ∷ []
      → b < e
      → e ≤ length blob
      → length blob < bgn
      → bgn < end
      → (process_pending_at times (merge_resend_request env.buffers p bgn end) sent).1 ≡ sent
  unfolding merge_resend_request
  resend_stalls times p sent b e bgn end ready parts ordered inside behind some_bytes =
      let start : end ≢ 0 = λ z. omega arith in
      let two : merge_parts bgn end (todo_parts p) ≡ (b, e) ∷ (bgn, end) ∷ [] =
        ap (merge_parts bgn end) parts ∙ merge_parts_behind b e bgn end ordered (omega arith) in
      let q = merge_resend_request env.buffers p bgn end in
      let asked : todo_parts q ≡ (b, e) ∷ (bgn, end) ∷ [] =
        rw
          (
            merge_resend_request,
            ne→== end 0 start,
            lt→ltb bgn end some_bytes,
            env.buffers.swap_lem p.fragment_parts.0 (todo_parts p),
          )
          two in
      let source_ready : Ready q.source_io =
        rw (merge_resend_request, ne→== end 0 start, lt→ltb bgn end some_bytes) ready in
      stays_stalled times q sent b e bgn end source_ready asked (omega arith) (omega arith)
