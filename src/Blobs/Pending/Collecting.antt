-- ===== src/Blobs/Pending/Collecting.antt =====
-- The stores and checks of `merge_fragment` (source/modules/eagine/core/blobs_impl.cpp) when the
-- fragment is a piece of a given blob and the target collects that blob.
use eagine_msgbus.Prelude.{
  ℕ, suc, ◌≤◌, ◌<◌, ◌≡◌, ◌⊎◌, inl, inr, Bool, true, false, List, [], ◌∷◌, arith, ltb, leb, dec_lt,
  if◌then◌else◌, length, Bool-cases, ltb→lt, ltb→ge, leb→le, leb→gt,
}
use eagine_msgbus.Core.{Memory}
use eagine_msgbus.Blobs.Parts.{Part, Merging, place}
use eagine_msgbus.Blobs.Parts.Gaps.{Gaps}
use eagine_msgbus.Blobs.Parts.Coverage.{covers}
use eagine_msgbus.Blobs.Io.{BlobInfo, TargetIo, Collects, slice}
use eagine_msgbus.Blobs.Pending.{Transfer, store, check, transfer, transfer_all}
use eagine_msgbus.Blobs.Pending.Knowing.{
  Knows, store-Knows, check-Knows, head_to, skip_from, head-skip,
}

module _ {Tgt : Type 0} (mem : Memory) (target : TargetIo Tgt) (info : BlobInfo) (blob : List ℕ)
    (collects : Collects target blob) where
  module _ (K : ℕ → Type 0) (bgn fin sb se : ℕ) (range : bgn ≤ fin) (fits : fin ≤ length blob)
      (ordered : sb ≤ se) (part : (x : ℕ) → sb ≤ x → x < se → K x) where
    -- `K`, and the range once it is placed.
    abbrev KnownRange : Bool → ℕ → Type 0
    KnownRange new_done x = K x ⊎ ((new_done ≡ true) × (bgn ≤ x) × (x < fin))

    -- What the rounds below need of an offset of the range that is not just being stored.
    in_part : (x : ℕ) (new_done : Bool) → sb ≤ x → x < se → KnownRange new_done x
    in_part x new_done h k = inl (part x h k)

    whole_range :
        (x a b : ℕ)
        → ((bgn ≤ x) × (x < fin) → K x ⊎ ((a ≤ x) × (x < b)))
        → KnownRange true x
        → KnownRange false x ⊎ ((a ≤ x) × (x < b))
    whole_range x a b f (inl k) = inl (inl k)
    whole_range x a b f (inr r) = elim (f (r.1, r.2)) [ inl k ↦ inl (inl k) | inr q ↦ inr q ]

    -- The range ends before the part.
    before :
        (new_done : Bool) (t : Transfer Tgt)
        → Knows mem target info blob collects t (KnownRange new_done)
        → Knows mem target info blob collects
            (if new_done then t else store mem target info bgn (slice blob bgn fin) t)
            (KnownRange true)
    before true t v = v
    before false t v =
        store-Knows mem target info blob collects t (KnownRange false) (KnownRange true) bgn fin
          range fits (λ x. whole_range x bgn fin inr) v

    -- The range ends in the part.
    ends_in :
        (new_done : Bool) (t : Transfer Tgt)
        → bgn ≤ sb
        → sb ≤ fin
        → fin ≤ se
        → Knows mem target info blob collects t (KnownRange new_done)
        → Knows mem target info blob collects
            (check mem target info sb
              (slice blob sb fin)
              (if new_done then t else store mem target info bgn (slice blob bgn sb) t))
            (KnownRange true)
    ends_in true t h k l v =
        check-Knows mem target info blob collects t (KnownRange true) sb fin k fits
          (λ x p q. in_part x true p (omega arith)) v
    ends_in false t h k l v =
        check-Knows mem target info blob collects _ (KnownRange true) sb fin k fits
          (λ x p q. in_part x true p (omega arith))
          (store-Knows mem target info blob collects t (KnownRange false) (KnownRange true) bgn sb h
            (omega arith)
            (λ x. whole_range x bgn sb (λ r. elim (dec_lt x sb) [
              | yes p ↦ inr (r.0, p)
              | no p ↦ inl (part x (omega arith) (omega arith))
            ]))
            v)

    -- The range holds the part.
    holds_part :
        (new_done : Bool) (t : Transfer Tgt)
        → bgn ≤ sb
        → se ≤ fin
        → Knows mem target info blob collects t (KnownRange new_done)
        → Knows mem target info blob collects
            (check mem target info sb (slice blob sb se) (
              if new_done
              then t
              else store mem target info se
                  (slice blob se fin)
                  (store mem target info bgn (slice blob bgn sb) t)))
            (KnownRange true)
    holds_part true t h k v =
        check-Knows mem target info blob collects t (KnownRange true) sb se ordered (omega arith)
          (λ x. in_part x true) v
    holds_part false t h k v =
        check-Knows mem target info blob collects _ (KnownRange true) sb se ordered (omega arith)
          (λ x. in_part x true)
          (store-Knows mem target info blob collects _ (λ x. K x ⊎ ((bgn ≤ x) × (x < sb)))
            (KnownRange true) se fin k fits
            (λ x l. elim l [
              | inl kx ↦ inl (inl kx)
              | inr r ↦ elim (dec_lt x sb) [
                | yes p ↦ inl (inr (r.1, p))
                | no p ↦ elim (dec_lt x se) [
                  | yes q ↦ inl (inl (part x (omega arith) q))
                  | no q ↦ inr (omega arith, r.2)
                ]
              ]
            ])
            (store-Knows mem target info blob collects t (KnownRange false) _ bgn sb h (omega arith)
              (λ x l. elim l [ inl kx ↦ inl (inl kx) | inr r ↦ inr r ]) v))

    -- The range begins in the part and ends in it.
    inside :
        (new_done : Bool) (t : Transfer Tgt)
        → sb ≤ bgn
        → fin ≤ se
        → Knows mem target info blob collects t (KnownRange new_done)
        → Knows mem target info blob collects
            (check mem target info bgn (slice blob bgn fin) t)
            (KnownRange true)
    inside new_done t h k v =
        check-Knows mem target info blob collects t (KnownRange true) bgn fin range fits
          (λ x p q. in_part x true (omega arith) (omega arith))
          (
            v.0,
            v.1,
            λ x l. elim l [
              | inl kx ↦ v.2 x (inl kx)
              | inr r ↦ v.2 x (in_part x new_done (omega arith) (omega arith))
            ],
          )

    -- The range begins in the part and ends after it.
    begins_in :
        (new_done : Bool) (t : Transfer Tgt)
        → sb ≤ bgn
        → bgn ≤ se
        → se ≤ fin
        → Knows mem target info blob collects t (KnownRange new_done)
        → Knows mem target info blob collects
            (check mem target info bgn
              (slice blob bgn se)
              (store mem target info se (slice blob se fin) t))
            (KnownRange true)
    begins_in new_done t h k l v =
        check-Knows mem target info blob collects _ (KnownRange true) bgn se k (omega arith)
          (λ x p q. in_part x true (omega arith) q)
          (store-Knows mem target info blob collects t (KnownRange new_done) (KnownRange true) se
            fin l fits
            (λ x r. elim r [
              | inl kx ↦ inl (inl kx)
              | inr r ↦ elim (dec_lt x se) [
                | yes p ↦ inl (in_part x new_done (omega arith) p)
                | no p ↦ inr (omega arith, r.2)
              ]
            ])
            v)

    -- A round after the range begins: what it leaves `new_done` at.
    new_done-place :
        (dst : List Part) (new_done : Bool)
        → ltb bgn sb ≡ true
        → (place bgn fin sb se (record { dst = dst; new_done = new_done })).new_done ≡ true
    unfolding place
    new_done-place dst new_done p = ground arith

    transfer_ahead :
        (new_done : Bool) (t : Transfer Tgt)
        → ltb bgn sb ≡ true
        → Knows mem target info blob collects t (KnownRange new_done)
        → Knows mem target info blob collects
            (transfer mem target info bgn (slice blob bgn fin) fin sb se new_done t)
            (KnownRange true)
    unfolding transfer
    transfer_ahead new_done t p v =
        let h : bgn ≤ sb = omega (arith, ltb→lt bgn sb p) in
        elim (Bool-cases (ltb fin sb)) [
          | inl q ↦ rw (p, q) (before new_done t v)
          | inr q ↦ elim (Bool-cases (leb fin se)) [
            | inl r ↦
                rw
                  (
                    p,
                    q,
                    r,
                    skip_from blob mem bgn fin sb h,
                    head_to blob mem bgn fin sb h,
                    ltb→ge fin sb q,
                  )
                  (ends_in new_done t h (ltb→ge fin sb q) (leb→le fin se r) v)
            | inr r ↦
                let k : se ≤ fin = omega (arith, leb→gt fin se r) in
                let l : sb ≤ fin = omega arith in
                let m : bgn ≤ se = omega arith in
                rw
                  (
                    p,
                    q,
                    r,
                    head-skip blob mem bgn fin sb se h ordered k,
                    skip_from blob mem bgn fin se m,
                    head_to blob mem bgn fin sb h l,
                  )
                  (holds_part new_done t h k v)
          ]
        ]

    -- A round of the loop of `merge_fragment`.
    transfer-Knows :
        (dst : List Part) (new_done : Bool) (t : Transfer Tgt)
        → Knows mem target info blob collects t (KnownRange new_done)
        → Knows mem target info blob collects
            (transfer mem target info bgn (slice blob bgn fin) fin sb se new_done t)
            (KnownRange (place bgn fin sb se (record { dst = dst; new_done = new_done })).new_done)
    transfer-Knows dst new_done t v = elim (Bool-cases (ltb bgn sb)) [
      | inl p ↦ rw (new_done-place dst new_done p) (transfer_ahead new_done t p v)
      | inr p ↦ elim (Bool-cases (leb bgn se)) [
        | inl q ↦ elim (Bool-cases (leb fin se)) [
          | inl r ↦
              unfold place transfer in
              rw (p, q, r) (inside new_done t (ltb→ge bgn sb p) (leb→le fin se r) v)
          | inr r ↦
              let h : bgn ≤ se = leb→le bgn se q in
              let k : se ≤ fin = omega (arith, leb→gt fin se r) in
              unfold place transfer in
              rw (p, q, r, skip_from blob mem bgn fin se h, head_to blob mem bgn fin se h k)
                (begins_in new_done t (ltb→ge bgn sb p) h k v)
        ]
        | inr q ↦ unfold place transfer in rw (p, q) v
      ]
    ]

  -- The whole loop, and the store after it.
  pub transfer_all-Knows :
      (K : ℕ → Type 0) (bgn fin lo : ℕ) (src : List Part) (m : Merging) (t : Transfer Tgt)
      → bgn ≤ fin
      → fin ≤ length blob
      → Gaps lo src
      → ((x : ℕ) → covers src x ≡ true → K x)
      → Knows mem target info blob collects t
          (λ x. K x ⊎ ((m.new_done ≡ true) × (bgn ≤ x) × (x < fin)))
      → Knows mem target info blob collects
          (transfer_all mem target info bgn (slice blob bgn fin) fin src m t)
          (λ x. K x ⊎ ((bgn ≤ x) × (x < fin)))
  unfolding transfer_all
  transfer_all-Knows K bgn fin lo [] m t range fits g parts v = elim (Bool-cases m.new_done) [
    | inl p ↦ rw p (v.0, v.1, λ x l. v.2 x (elim l [ inl k ↦ inl k | inr r ↦ inr (p, r.0, r.1) ]))
    | inr p ↦ rw p (
        store-Knows mem target info blob collects t _ (λ x. K x ⊎ ((bgn ≤ x) × (x < fin))) bgn fin
          range fits (λ x l. elim l [ inl k ↦ inl (inl k) | inr r ↦ inr r ]) v)
  ]
  transfer_all-Knows K bgn fin lo ((sb, se) ∷ src) m t range fits g parts v =
      transfer_all-Knows K bgn fin (suc se) src (place bgn fin sb se m)
        (transfer mem target info bgn (slice blob bgn fin) fin sb se m.new_done t) range fits g.2
        (λ x c. parts x (ground arith))
        (transfer-Knows K bgn fin sb se range fits g.1 (λ x h k. parts x (ground arith)) m.dst
          m.new_done t v)
