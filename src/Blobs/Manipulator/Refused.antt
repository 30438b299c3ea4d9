-- ===== src/Blobs/Manipulator/Refused.antt =====
-- The guards of `process_incoming` (source/modules/eagine/core/blobs_impl.cpp).
use eagine_msgbus.Prelude.{
  ℕ, ◌+◌, ◌-◌, ◌≡◌, refl, inl, inr, Bool, true, false, not, ◌&&◌, Option, none, some, List, arith,
  length, leb, ◌==◌, if◌then◌else◌, Bool-cases, Option-cases,
}
use eagine_msgbus.Prelude.Int.{ℤ, pos, negsuc, pos_part, ltb_ℤ}
use eagine_msgbus.Core.{broadcast_id}
use eagine_msgbus.Message.Info.{Message}
use eagine_msgbus.Router.Ident.{MessageId}
use eagine_msgbus.Blobs.Manipulator.{FragmentHeader, BlobEnvironment, BlobManipulator}
use eagine_msgbus.Blobs.Manipulator.Incoming.{
  Incoming, change_first, comes_from, is_expected, accept_fragment, update_expected,
  push_incoming_fragment, incoming_of, process_incoming,
}

-- The header is that of a blob with at least one byte from the offset on, and the fragment ends
-- inside of the blob.
unfoldable pub is_inside : FragmentHeader → List ℕ → Bool
is_inside h fragment =
    not (ltb_ℤ h.offset (pos 0))
    && (ltb_ℤ h.offset h.total_size
        && leb (pos_part h.offset + length fragment) (pos_part h.total_size))

room_behind :
    (o t : ℤ) (n : ℕ)
    → (not (ltb_ℤ o (pos 0)) && ltb_ℤ o t) ≡ true
    → leb (pos_part o + n) (pos_part t) ≡ leb n (pos_part t - pos_part o)
room_behind (pos o) (pos t) n h = ground arith
room_behind (pos o) (negsuc t) n h = ground arith
room_behind (negsuc o) t n h = ground arith

-- A message whose header can be read and whose fragment is inside.
unfoldable pub is_well_formed : Option (FragmentHeader × List ℕ) → Bool
unfolding is_inside
is_well_formed none = false
is_well_formed (some (h, fragment)) = is_inside h fragment

module _ {Src Tgt Timeout F : Type 0} (env : BlobEnvironment Src Tgt Timeout F)
    (get_io : MessageId → ℕ → Option Tgt) where
  push-true :
      (now : ℕ) (x : Incoming) (m : BlobManipulator Src Tgt Timeout F)
      → (push_incoming_fragment env now get_io x m).1 ≡ true
  unfolding push_incoming_fragment
  push-true now x m =
      elim (Option-cases (change_first (comes_from x) (accept_fragment env now x) m.incoming)) [
        | inr (l, e) ↦ rw (push_incoming_fragment, e) refl
        | inl e ↦
            elim (Option-cases (
              change_first (is_expected x) (λ p. accept_fragment env now x (update_expected x p))
                m.incoming)) [
                  | inr (l, f) ↦ rw (push_incoming_fragment, e, f) refl
                  | inl f ↦ elim (Bool-cases (x.source_id == broadcast_id)) [
                    | inl b ↦ rw (push_incoming_fragment, e, f, b) refl
                    | inr b ↦ elim (Option-cases (get_io x.msg_id x.total_size)) [
                      | inl g ↦ rw (push_incoming_fragment, e, f, b, g) refl
                      | inr (io, g) ↦ rw (push_incoming_fragment, e, f, b, g) refl
                    ]
                  ]
                ]
      ]

  -- `process_incoming` returns true exactly for messages whose header can be read, of a blob that
  -- has bytes from the offset on, and whose fragment ends inside of that blob; every other message
  -- changes nothing.
  pub process_incoming_lem :
      (now : ℕ) (message : Message) (m : BlobManipulator Src Tgt Timeout F)
      → let r = process_incoming env now get_io message m in
        (r.1 ≡ is_well_formed (env.codec.read_header message.content))
        × (if r.1 then Unit {0} else r.0 ≡ m)
  unfolding process_incoming is_well_formed is_inside
  process_incoming_lem now message m = elim (Option-cases (env.codec.read_header message.content)) [
    | inl e ↦ rw (process_incoming, e) (refl, refl)
    | inr ((h, fragment), e) ↦
        let p = push-true now (incoming_of message h fragment) m in
        elim (Bool-cases (not (ltb_ℤ h.offset (pos 0)) && ltb_ℤ h.offset h.total_size)) [
          | inl a ↦
              let room = room_behind h.offset h.total_size (length fragment) a in
              elim (Bool-cases
                (leb (length fragment) (pos_part h.total_size - pos_part h.offset))) [
                  | inl b ↦ rw (process_incoming, e, a, b, p) (ground (arith, a, b, room), tt)
                  | inr b ↦ rw (process_incoming, e, a, b) (ground (arith, a, b, room), refl)
                ]
          | inr a ↦ rw (process_incoming, e, a) (ground (arith, a), refl)
        ]
  ]
