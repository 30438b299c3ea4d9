-- ===== src/Blobs/Buffer.antt =====
-- `buffer_blob_io` of source/modules/eagine/core/blobs_impl.cpp: a blob in one memory buffer, as a
-- source and as a target.
use eagine_msgbus.Prelude.{
  ℕ, ◌+◌, ◌-◌, ◌≤◌, ◌<◌, ◌≡◌, refl, sym, ap, ◌∙◌, ◌⊎◌, inl, inr, Bool, true, false, List, ◌++◌,
  arith, leb, dec_lt, if◌then◌else◌, length, get_elem?, take, drop, length-append, length-take,
  length-drop, get_elem?-take, get_elem?-drop, get_elem?-append_left, get_elem?-append_right,
  eq_of_get_elem?,
}
use eagine_msgbus.Core.{Memory}
use eagine_msgbus.Blobs.Io.{BlobInfo, TargetIo, Collects, slice, SourceIo, Provides, finished}

module _ (mem : Memory) where
  pub is_at_eod : List ℕ → ℕ → Bool
  is_at_eod buf offs = leb (length buf) offs

  unfoldable pub total_size : List ℕ → ℕ
  total_size buf = length buf

  -- The bytes that are copied into a destination of the given size, and their number.
  pub fetch_fragment : List ℕ → ℕ → ℕ → List ℕ × ℕ
  fetch_fragment buf offs dst_size =
      let src = mem.head (mem.skip buf offs) dst_size in (src, length src)

  -- What follows `offs` in the buffer is overwritten in place.
  pub store_fragment : List ℕ → ℕ → List ℕ → BlobInfo → List ℕ × Bool
  store_fragment buf offs src info =
      let dst = mem.skip buf offs in
      if leb (length src) (length dst)
      then (mem.head buf offs ++ mem.copy src dst, true)
      else (buf, false)

  pub check_stored : List ℕ → ℕ → List ℕ → Bool
  check_stored buf offs blk = mem.are_equal (mem.head (mem.skip buf offs) (length blk)) blk

  abbrev pub buffer_target : TargetIo (List ℕ)
  buffer_target = record { store_fragment = store_fragment; check_stored = check_stored }

  -- The default `prepare` of a source: finished, with the progress 1.
  abbrev pub buffer_source : {F : Type 0} → F → SourceIo (List ℕ) F
  buffer_source one = record {
    prepare = λ buf. (buf, record { progress = one; status = finished });
    is_at_eod = is_at_eod;
    total_size = total_size;
    fetch_fragment = λ buf offs dst_size. (buf, (fetch_fragment buf offs dst_size).0);
  }

  -- A store that fits, written out.
  store_fragment-fits :
      (buf : List ℕ) (offs : ℕ) (src : List ℕ) (info : BlobInfo)
      → offs + length src ≤ length buf
      → store_fragment buf offs src info
        ≡ (take offs buf ++ (src ++ drop (length src) (drop offs buf)), true)
  unfolding store_fragment
  store_fragment-fits buf offs src info h =
      let room : length src ≤ length (drop offs buf) = omega (arith, length-drop {0} offs buf) in
      rw (mem.skip_lem, mem.head_lem, mem.copy_lem src (drop offs buf) room) (ground (arith, room))

  module _ (blob : List ℕ) where
    pub is_at_eod-blob :
        (s : List ℕ) (offs : ℕ) → s ≡ blob → is_at_eod s offs ≡ leb (length blob) offs
    unfolding is_at_eod
    is_at_eod-blob s offs h = rw h refl

    pub fetched :
        (s : List ℕ) (offs size : ℕ)
        → s ≡ blob
        → (fetch_fragment s offs size).0 ≡ take size (drop offs blob)
    unfolding fetch_fragment
    fetched s offs size h = rw (mem.skip_lem, mem.head_lem, h) refl

    length-slice : (a b : ℕ) → a ≤ b → b ≤ length blob → length (slice blob a b) ≡ b - a
    length-slice a b h k =
        omega (arith, length-take {0} (b - a) (drop a blob), length-drop {0} a blob)

    get_elem?-slice :
        (a b x : ℕ) → a ≤ x → x < b → get_elem? (slice blob a b) (x - a) ≡ get_elem? blob x
    get_elem?-slice a b x h k =
        get_elem?-take (b - a) (x - a) (drop a blob) (omega arith)
        ∙ get_elem?-drop a (x - a) blob
        ∙ ap (get_elem? blob) {x = a + (x - a)} (omega arith)

    module _ (s : List ℕ) (a b : ℕ) (info : BlobInfo) (size : length s ≡ length blob)
        (order : a ≤ b) (fits : b ≤ length blob) where
      pub stored :
          store_fragment s a (slice blob a b) info
          ≡ (take a s ++ (slice blob a b ++ drop (length (slice blob a b)) (drop a s)), true)
      stored =
          store_fragment-fits s a (slice blob a b) info (omega (arith, length-slice a b order fits))

      pub length-stored : length (store_fragment s a (slice blob a b) info).0 ≡ length blob
      length-stored = rw stored (
          omega (
            arith,
            length-append {0} (take a s)
                (slice blob a b ++ drop (length (slice blob a b)) (drop a s)),
            length-append {0} (slice blob a b) (drop (length (slice blob a b)) (drop a s)),
            length-drop {0} (length (slice blob a b)) (drop a s),
            length-drop {0} a s,
            length-take {0} a s,
            length-slice a b order fits,
          ))

      -- Offsets outside of the piece keep their bytes.
      get_elem?-stored_outside :
          (x : ℕ)
          → (x < a) ⊎ (b ≤ x)
          → get_elem? (store_fragment s a (slice blob a b) info).0 x ≡ get_elem? s x
      get_elem?-stored_outside x (inl h) = rw stored (
          get_elem?-append_left (take a s) _ x (omega (arith, length-take {0} a s))
          ∙ get_elem?-take a x s h)
      get_elem?-stored_outside x (inr h) =
          let n : length (slice blob a b) ≡ b - a = length-slice a b order fits in
          let m : length (take a s) ≡ a = omega (arith, length-take {0} a s) in
          rw stored (
            get_elem?-append_right (take a s) _ x (omega arith)
            ∙ get_elem?-append_right (slice blob a b) _ (x - length (take a s)) (omega arith)
            ∙ get_elem?-drop (length (slice blob a b)) _ (drop a s)
            ∙ get_elem?-drop a _ s
            ∙ ap (get_elem? s)
                {x = a
                  + (length (slice blob a b) + (x - length (take a s) - length (slice blob a b)))}
                (omega arith))

      -- The piece is there afterwards.
      pub get_elem?-stored_inside :
          (x : ℕ)
          → a ≤ x
          → x < b
          → get_elem? (store_fragment s a (slice blob a b) info).0 x ≡ get_elem? blob x
      get_elem?-stored_inside x h k =
          let n : length (slice blob a b) ≡ b - a = length-slice a b order fits in
          let m : length (take a s) ≡ a = omega (arith, length-take {0} a s) in
          rw stored (
            get_elem?-append_right (take a s) _ x (omega arith)
            ∙ get_elem?-append_left (slice blob a b) _ (x - length (take a s)) (omega arith)
            ∙ ap (get_elem? (slice blob a b)) {x = x - length (take a s)} {y = x - a} (omega arith)
            ∙ get_elem?-slice a b x h k)

    pub keeps :
        (s : List ℕ) (a b x : ℕ) (info : BlobInfo)
        → length s ≡ length blob
        → a ≤ b
        → b ≤ length blob
        → get_elem? s x ≡ get_elem? blob x
        → get_elem? (store_fragment s a (slice blob a b) info).0 x ≡ get_elem? blob x
    keeps s a b x info r h f e = elim (dec_lt x a) [
      | yes p ↦ get_elem?-stored_outside s a b info r h f x (inl p) ∙ e
      | no p ↦ elim (dec_lt x b) [
        | yes q ↦ get_elem?-stored_inside s a b info r h f x (omega arith) q
        | no q ↦ get_elem?-stored_outside s a b info r h f x (inr (omega arith)) ∙ e
      ]
    ]

    pub check-slice :
        (s : List ℕ) (a b : ℕ)
        → length s ≡ length blob
        → a ≤ b
        → b ≤ length blob
        → ((x : ℕ) → a ≤ x → x < b → get_elem? s x ≡ get_elem? blob x)
        → check_stored s a (slice blob a b) ≡ true
    unfolding check_stored
    check-slice s a b size order fits same =
        let n : length (slice blob a b) ≡ b - a = length-slice a b order fits in
        rw (check_stored, mem.skip_lem, mem.head_lem, n)
          ((mem.are_equal_iff _ _).1 (
            eq_of_get_elem? _ _
              (omega (arith, length-take {0} (b - a) (drop a s), length-drop {0} a s))
              (λ i h.
                let k : i < b - a = omega arith in
                get_elem?-take (b - a) i (drop a s) k
                ∙ get_elem?-drop a i s
                ∙ same (a + i) (omega arith) (omega arith)
                ∙ sym (get_elem?-drop a i blob)
                ∙ sym (get_elem?-take (b - a) i (drop a blob) k))))

    -- A buffer of the blob's size collects the blob.
    abbrev pub buffer-Collects : Collects buffer_target blob
    buffer-Collects = record {
      Ready = λ s. length s ≡ length blob;
      Has = λ s x. get_elem? s x ≡ get_elem? blob x;
      store-ok = λ s a b info r h f. ap (λ p. p.1) (stored s a b info r h f);
      store-Ready = λ s a b info r h f. length-stored s a b info r h f;
      store_keeps = λ s a b x info r h f e. keeps s a b x info r h f e;
      store_adds = λ s a b x info r h f p q. get_elem?-stored_inside s a b info r h f x p q;
      check-ok = check-slice;
    }

    -- A buffer that holds the blob is a source of it.
    abbrev pub buffer-Provides : {F : Type 0} (one : F) → Provides (buffer_source one) blob
    buffer-Provides one = record {
      Ready = λ s. s ≡ blob;
      prepare-finished = λ s h. refl;
      prepare-Ready = λ s h. h;
      is_at_eod_lem = λ s offs h. is_at_eod-blob s offs h;
      fetch_fragment_lem = λ s offs size h. fetched s offs size h;
      fetch_fragment-Ready = λ s offs size h. h;
    }
