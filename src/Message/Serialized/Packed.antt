-- ===== src/Message/Serialized/Packed.antt =====
-- What packing and the clean-up after it do together (`serialized_message_storage` of
-- source/modules/eagine/core/message_impl.cpp), and a packing without bits to compare with.
use native.Mathlib.Nat.{mul-add}
use eagine_msgbus.Prelude.{
  ℕ, zero, suc, ◌+◌, ◌*◌, ◌-◌, ◌≡◌, ◌≤◌, ◌<◌, refl, sym, ap, ◌∙◌, arith, inl, inr, none, some, List,
  [], ◌∷◌, ◌++◌, length, bit_or, drop, Option-cases,
}
use mathlib.Core.Path.{ap₂}
use mathlib.Core.List.{append-nil, append_assoc}
use eagine_msgbus.Core.{Memory}
use eagine_msgbus.Message.Sweep.{erase_if}
use eagine_msgbus.Message.Serialized.{
  Serialized, Packing, PackingContext, is_full, next_bit, add_message, add_packed, pack_one,
  pack_rest, pack_into, new_packing, cleanup_packed, eat_marked, has_no_buffer,
}
use eagine_msgbus.Message.Serialized.Bits.{
  bit_or_above, above, above-suc, above-pos, above-mul, current, current-next, even, odd, half_even,
  half_odd,
}
use eagine_msgbus.Message.Serialized.Marked.{
  HaveBuffers, erase_if-kept, erase_if-emptied, keep_all, eat_marked-zero, eat_marked-cons,
  cleanup_packed-eat_marked,
}

-- Packing without bits: of the first `k` messages those that fit are put one after the other.
-- The bytes, what is left of the block, and the messages that stay.
unfoldable pub pack_first :
    Packing → ℕ → List ℕ → List Serialized → List ℕ × List ℕ × List Serialized
pack_first packing zero blk es = ([], blk, es)
pack_first packing (suc k) blk [] = ([], blk, [])
pack_first packing (suc k) blk (e ∷ es) = elim (packing.store_data_with_size e.message blk) [
  | none ↦ let (bytes, rest, left) = pack_first packing k blk es in (bytes, rest, e ∷ left)
  | some packed ↦
      let (bytes, rest, left) = pack_first packing k (drop (length packed) blk) es in
      (packed ++ bytes, rest, left)
]

-- The bits of the packed among the first `k` messages, the lowest for the first.
mask : Packing → ℕ → List ℕ → List Serialized → ℕ
mask packing zero blk es = 0
mask packing (suc k) blk [] = 0
mask packing (suc k) blk (e ∷ es) = elim (packing.store_data_with_size e.message blk) [
  | none ↦ 2 * mask packing k blk es
  | some packed ↦ 1 + 2 * mask packing k (drop (length packed) blk) es
]

module _ (mem : Memory) (packing : Packing) where
  not_full :
      (k : ℕ) (e : Serialized) (es : List Serialized) (c : PackingContext)
      → c.current_bit ≡ current (suc k)
      → pack_rest mem packing c (e ∷ es) ≡ pack_rest mem packing (pack_one mem packing e c) es
  unfolding pack_rest is_full current
  not_full k e es c h = ground (arith, above-pos (suc k))

  pack_one-none :
      (e : Serialized) (c : PackingContext)
      → packing.store_data_with_size e.message c.blk ≡ none
      → pack_one mem packing e c ≡ next_bit c
  unfolding pack_one
  pack_one-none e c n = rw (pack_one, n) refl

  pack_one-some :
      (e : Serialized) (c : PackingContext) (packed : List ℕ)
      → packing.store_data_with_size e.message c.blk ≡ some packed
      → pack_one mem packing e c ≡ next_bit (add_message mem packing packed e.priority c)
  unfolding pack_one
  pack_one-some e c packed n = rw (pack_one, n) refl

  -- What the loop has packed in the end, with the bits at their places.
  PacksAs : ℕ → PackingContext → PackingContext → List ℕ × List ℕ × List Serialized → ℕ → Type 0
  PacksAs place c r (bytes, rest, left) bits =
      (r.written ≡ c.written ++ bytes)
      × (r.blk ≡ rest)
      × (r.info.packed_bits ≡ c.info.packed_bits + place * bits)

  packs-none :
      (k : ℕ) (e : Serialized) (es : List Serialized) (c r : PackingContext)
      → k ≤ 63
      → packing.store_data_with_size e.message c.blk ≡ none
      → PacksAs (above k) (next_bit c) r (pack_first packing k c.blk es) (mask packing k c.blk es)
      → PacksAs
          (above (suc k))
          c
          r
          (pack_first packing (suc k) c.blk (e ∷ es))
          (mask packing (suc k) c.blk (e ∷ es))
  unfolding PacksAs next_bit pack_first mask
  packs-none k e es c r h n (w, b, i) =
      let i' : r.info.packed_bits ≡ c.info.packed_bits + above k * mask packing k c.blk es = i in
      rw (pack_first, mask, n) (w, b, omega (arith, i', above-mul k (mask packing k c.blk es) h))

  packs-some :
      (k : ℕ) (e : Serialized) (es : List Serialized) (c r : PackingContext) (packed : List ℕ)
      → k ≤ 63
      → packing.store_data_with_size e.message c.blk ≡ some packed
      → bit_or c.info.packed_bits c.current_bit ≡ c.info.packed_bits + above (suc k)
      → PacksAs
          (above k)
          (next_bit (add_message mem packing packed e.priority c))
          r
          (pack_first packing k (drop (length packed) c.blk) es)
          (mask packing k (drop (length packed) c.blk) es)
      → PacksAs
          (above (suc k))
          c
          r
          (pack_first packing (suc k) c.blk (e ∷ es))
          (mask packing (suc k) c.blk (e ∷ es))
  unfolding PacksAs next_bit add_message add_packed pack_first mask
  packs-some k e es c r packed h n o (w, b, i) =
      let m = mask packing k (drop (length packed) c.blk) es in
      let i' : r.info.packed_bits ≡ bit_or c.info.packed_bits c.current_bit + above k * m = i in
      rw (pack_first, mask, n)
        (
          w ∙ append_assoc c.written packed _,
          b,
          omega (arith, i', o, above-mul k m h, mul-add (above (suc k)) 1 (2 * m)),
        )

  current_bit-next :
      (k : ℕ) (c : PackingContext)
      → k ≤ 63
      → c.current_bit ≡ current (suc k)
      → (next_bit c).current_bit ≡ current k
  unfolding next_bit
  current_bit-next k c h cur = rw cur (current-next k h)

  sets_bit :
      (k : ℕ) (c : PackingContext)
      → c.current_bit ≡ current (suc k)
      → c.info.packed_bits < above (suc k)
      → bit_or c.info.packed_bits c.current_bit ≡ c.info.packed_bits + above (suc k)
  unfolding current above
  sets_bit k c cur low = rw cur (bit_or_above (64 - suc k) c.info.packed_bits low)

  pack_rest-lem :
      (k : ℕ) (es : List Serialized) (c : PackingContext)
      → k ≤ 64
      → c.current_bit ≡ current k
      → c.info.packed_bits < above k
      → PacksAs
          (above k)
          c
          (pack_rest mem packing c es)
          (pack_first packing k c.blk es)
          (mask packing k c.blk es)
  unfolding PacksAs pack_rest is_full current pack_first mask next_bit add_message add_packed
  pack_rest-lem zero [] c h cur low = (sym (append-nil _), refl, omega arith)
  pack_rest-lem zero (e ∷ es) c h cur low =
      rw (pack_rest, is_full, cur) (sym (append-nil _), refl, omega arith)
  pack_rest-lem (suc k) [] c h cur low = (sym (append-nil _), refl, omega arith)
  pack_rest-lem (suc k) (e ∷ es) c h cur low =
      rw (not_full k e es c cur)
        (elim (Option-cases (packing.store_data_with_size e.message c.blk)) [
          | inl n ↦ rw (pack_one-none e c n) (
              packs-none k e es c (pack_rest mem packing (next_bit c) es) (omega arith) n (
                pack_rest-lem k es (next_bit c) (omega arith)
                  (current_bit-next k c (omega arith) cur)
                  (let l : c.info.packed_bits < above k =
                      omega (arith, low, above-suc k (omega arith)) in
                    l)))
          | inr (packed, n) ↦
              let c' = add_message mem packing packed e.priority c in
              let set = sets_bit k c cur low in
              let l : bit_or c.info.packed_bits c.current_bit < above k =
                omega (arith, low, set, above-suc k (omega arith)) in
              rw (pack_one-some e c packed n) (
                packs-some k e es c (pack_rest mem packing (next_bit c') es) packed (omega arith) n
                  set
                  (rw (← mem.skip_lem c.blk (length packed)) (
                    pack_rest-lem k es (next_bit c') (omega arith)
                      (current_bit-next k c' (omega arith) cur) l)))
        ])

module _ (packing : Packing) (late : List Serialized) where
  erase_if-eat_marked :
      (k : ℕ) (blk : List ℕ) (es : List Serialized)
      → HaveBuffers (es ++ late)
      → erase_if has_no_buffer (eat_marked (mask packing k blk es) (es ++ late))
        ≡ (pack_first packing k blk es).2 ++ late
  unfolding pack_first mask HaveBuffers
  erase_if-eat_marked zero blk es h = rw (eat_marked-zero (es ++ late)) (keep_all (es ++ late) h)
  erase_if-eat_marked (suc k) blk [] h = rw (eat_marked-zero late) (keep_all late h)
  erase_if-eat_marked (suc k) blk (e ∷ es) (p, h) =
      rw (eat_marked-cons (mask packing (suc k) blk (e ∷ es)) e (es ++ late))
        (elim (Option-cases (packing.store_data_with_size e.message blk)) [
          | inl n ↦
              rw
                (
                  pack_first,
                  mask,
                  n,
                  even (mask packing k blk es),
                  half_even (mask packing k blk es),
                )
                (rw (erase_if-kept e (eat_marked (mask packing k blk es) (es ++ late)) p)
                  (ap (λ l. e ∷ l) (erase_if-eat_marked k blk es h)))
          | inr (packed, n) ↦
              let m = mask packing k (drop (length packed) blk) es in
              rw (pack_first, mask, n, odd m, half_odd m)
                (erase_if-emptied e (eat_marked m (es ++ late))
                  ∙ erase_if-eat_marked k (drop (length packed) blk) es h)
        ])

first-packs :
    (mem : Memory) (packing : Packing) (dest : List ℕ) (messages : List Serialized)
    → let c = pack_rest mem packing (new_packing packing dest) messages in
      let (bytes, rest, left) = pack_first packing 64 dest messages in
      (c.written ≡ bytes) × (c.blk ≡ rest) × (c.info.packed_bits ≡ mask packing 64 dest messages)
unfolding new_packing PacksAs current above
first-packs mem packing dest messages =
    let (w, b, i) =
      pack_rest-lem mem packing 64 messages (new_packing packing dest) (omega arith) refl
        (above-pos 64) in
    (w, b, omega (arith, i))

-- `pack_into` and then `cleanup` do what a packing without bits does: of the first 64 messages
-- those that fit are put one after the other into the block, whose rest is filled with zeros, and
-- exactly these are gone after the clean-up; the order of the others, and messages that came in between,
-- are kept. Every message has a buffer, as `push` gives it.
pub cleanup-pack_into :
    (mem : Memory) (packing : Packing) (dest : List ℕ) (messages late : List Serialized)
    → HaveBuffers (messages ++ late)
    → let (bytes, rest, left) = pack_first packing 64 dest messages in
      let (block, packed) = pack_into mem packing dest messages in
      (block ≡ bytes ++ packing.zeroed rest)
      × (cleanup_packed packed (messages ++ late) ≡ left ++ late)
unfolding pack_into
cleanup-pack_into mem packing dest messages late h =
    let (w, b, i) = first-packs mem packing dest messages in
    (
      ap₂ (λ x y. x ++ packing.zeroed y) w b,
      cleanup_packed-eat_marked _ _ h ∙ rw i (erase_if-eat_marked packing late 64 dest messages h),
    )
