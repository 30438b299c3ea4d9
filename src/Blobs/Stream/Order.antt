-- ===== src/Blobs/Stream/Order.antt =====
-- What `blob_stream_io` (source/modules/eagine/core/blobs_impl.cpp) has signalled.
use mathlib.Core.List.{append-nil}
use mathlib.Core.Path.{subst}
use eagine_msgbus.Prelude.{
  ℕ, ◌+◌, ◌-◌, ◌≤◌, ◌≡◌, refl, sym, ap, ◌∙◌, List, [], ◌∷◌, ◌++◌, arith, ◌==◌, if◌then◌else◌,
  Bool-cases, length, take, drop, length-append, length-take, length-drop, drop-length, take-add,
  drop-drop, inl, inr,
}
use eagine_msgbus.Core.{Memory}
use eagine_msgbus.Blobs.Io.{BlobInfo, slice}
use eagine_msgbus.Blobs.Stream.{
  Chunk, BlobStream, IsAsserted, set_unmerged, consecutive, store_fragment,
}

abbrev pub joined : List (List ℕ) → List ℕ
joined [] = []
joined (b ∷ bs) = b ++ joined bs

-- Chunks that follow one another from `from` to `to`, with the bytes of the blob.
abbrev pub Follows : List ℕ → ℕ → List Chunk → ℕ → Type 0
Follows blob from [] to = from ≡ to
Follows blob from (c ∷ cs) to =
    (c.offset ≡ from)
    × (joined c.blocks ≡ slice blob from (from + length (joined c.blocks)))
    × Follows blob (from + length (joined c.blocks)) cs to

-- Every entry is a piece of the blob.
abbrev pub ArePiecesOf : List ℕ → List (ℕ × List ℕ) → Type 0
ArePiecesOf blob [] = Unit {0}
ArePiecesOf blob ((o, d) ∷ m) =
    (o + length d ≤ length blob) × (d ≡ slice blob o (o + length d)) × ArePiecesOf blob m

pub record IsStreaming (blob : List ℕ) (s : BlobStream) : Type 0 where
  pub pieces : ArePiecesOf blob s.unmerged
  pub inside : s.offs_done ≤ length blob
  pub follows : Follows blob 0 s.appended s.offs_done

set_unmerged-ArePiecesOf :
    (blob : List ℕ) (o : ℕ) (d : List ℕ) (m : List (ℕ × List ℕ))
    → o + length d ≤ length blob
    → d ≡ slice blob o (o + length d)
    → ArePiecesOf blob m
    → ArePiecesOf blob (set_unmerged o d m)
unfolding set_unmerged
set_unmerged-ArePiecesOf blob o d [] h e a = (h, e, tt)
set_unmerged-ArePiecesOf blob o d ((j, b) ∷ m) h e a =
    ground (arith, set_unmerged-ArePiecesOf blob o d m h e a.2)

slice-nil : (blob : List ℕ) (a : ℕ) → [] ≡ slice blob a a
slice-nil blob a = ap (λ k. take k (drop a blob)) {x = 0} {y = a - a} (omega arith)

slice-append :
    (blob : List ℕ) (a b e : ℕ) → a ≤ b → b ≤ e → slice blob a b ++ slice blob b e ≡ slice blob a e
slice-append blob a b e h k =
    ap (λ l. slice blob a b ++ take (e - b) l)
      (ap (λ n. drop n blob) {x = b} {y = a + (b - a)} (omega arith)
        ∙ sym (drop-drop (b - a) a blob))
    ∙ sym (take-add (b - a) (e - b) (drop a blob))
    ∙ ap (λ k. take k (drop a blob)) {x = b - a + (e - b)} {y = e - a} (omega arith)

joined_slice :
    (blob : List ℕ) (a b e : ℕ) (d r : List ℕ)
    → a ≤ b
    → b ≤ e
    → d ≡ slice blob a b
    → r ≡ slice blob b e
    → d ++ r ≡ slice blob a e
joined_slice blob a b e d r h k p q = rw (p, q) (slice-append blob a b e h k)

-- The blocks of a run from the first offset of `m` on are the bytes up to its end.
consecutive-slice :
    (blob : List ℕ) (at : ℕ) (m : List (ℕ × List ℕ))
    → at ≤ length blob
    → ArePiecesOf blob m
    → let run = consecutive at m in
      (at + length (joined run.blocks) ≡ run.data_end)
      × (run.data_end ≤ length blob)
      × (joined run.blocks ≡ slice blob at run.data_end)
      × ArePiecesOf blob run.rest
unfolding consecutive
consecutive-slice blob at [] h a = (omega arith, h, slice-nil blob at, tt)
consecutive-slice blob at ((o, d) ∷ m) h a = elim (Bool-cases (o == at)) [
  | inl e ↦
      let run = consecutive (o + length d) m in
      let (size, inside, same, pieces) = consecutive-slice blob (o + length d) m a.0 a.2 in
      let here : o ≡ at = ground arith in
      rw (e, consecutive)
        (
          omega (arith, length-append {0} d (joined run.blocks)),
          inside,
          rw (← here) (
              joined_slice blob o (o + length d) run.data_end d (joined run.blocks) (omega arith)
                (omega arith) a.1 same),
          pieces,
        )
  | inr e ↦ rw (e, consecutive) (omega arith, h, slice-nil blob at, a)
]

Follows-snoc :
    (blob : List ℕ) (from to : ℕ) (cs : List Chunk) (c : Chunk)
    → Follows blob from cs to
    → c.offset ≡ to
    → joined c.blocks ≡ slice blob to (to + length (joined c.blocks))
    → Follows blob from (cs ++ c ∷ []) (to + length (joined c.blocks))
Follows-snoc blob from to [] c f e s = rw f (e, s, refl)
Follows-snoc blob from to (x ∷ cs) c f e s =
    (f.0, f.1, Follows-snoc blob (from + length (joined x.blocks)) to cs c f.2 e s)

-- A copy into a buffer of its own size.
copy_into : (mem : Memory) (d : List ℕ) → mem.copy d (mem.get_buffer (length d)) ≡ d
copy_into mem d =
    let buf = mem.get_buffer (length d) in
    let size : length buf ≡ length d = mem.get_buffer_lem (length d) in
    mem.copy_lem d buf (omega arith)
    ∙ ap (λ n. d ++ drop n buf) (sym size)
    ∙ ap (◌++◌ d) (drop-length buf)
    ∙ append-nil d

length-slice : (blob : List ℕ) (a b : ℕ) → a ≤ b → b ≤ length blob → a + length (slice blob a b) ≡ b
length-slice blob a b h k =
    omega (arith, length-take {0} (b - a) (drop a blob), length-drop {0} a blob)

in_order :
    (blob : List ℕ) (s : BlobStream) (offset end : ℕ)
    → offset ≤ end
    → end ≤ length blob
    → offset ≡ s.offs_done
    → IsStreaming blob s
    → let run = consecutive end s.unmerged in
      IsStreaming blob (record {
        offs_done = run.data_end;
        unmerged = run.rest;
        appended =
            s.appended
            ++ record { offset = offset; blocks = slice blob offset end ∷ run.blocks } ∷ [];
      })
in_order blob s offset end h fits e v =
    let run = consecutive end s.unmerged in
    let (size, inside, same, pieces) = consecutive-slice blob end s.unmerged fits v.pieces in
    let all = slice blob offset end ++ joined run.blocks in
    let bytes : all ≡ slice blob offset run.data_end =
      joined_slice blob offset end run.data_end _ (joined run.blocks) h (omega arith) refl same in
    let total : s.offs_done + length all ≡ run.data_end = omega (
      arith,
      length-append {0} (slice blob offset end) (joined run.blocks),
      length-slice blob offset end h fits,
    ) in
    record {
      pieces = pieces;
      inside = inside;
      follows =
          subst (Follows blob 0 _) total
            (Follows-snoc blob 0 s.offs_done s.appended _ v.follows e (rw (total, ← e) bytes));
    }

consecutive-grows : (at : ℕ) (m : List (ℕ × List ℕ)) → at ≤ (consecutive at m).data_end
unfolding consecutive
consecutive-grows at [] = omega arith
consecutive-grows at ((o, d) ∷ m) = ground (arith, consecutive-grows (o + length d) m)

-- A store hands on at least its own block, if it continues the data, and never takes anything back.
offs_done-grows :
    (mem : Memory) (s : BlobStream) (offset : ℕ) (blk : List ℕ) (info : BlobInfo)
    → let s' = (store_fragment mem s offset blk info).0 in
      (if offset == s.offs_done then s.offs_done + length blk else s.offs_done) ≤ s'.offs_done
unfolding store_fragment
offs_done-grows mem s offset blk info = elim (Bool-cases (offset == s.offs_done)) [
  | inl e ↦
      let grown = consecutive-grows (offset + length blk) s.unmerged in
      let here : offset ≡ s.offs_done = ground arith in
      rw (e, store_fragment) (omega (arith, grown, here))
  | inr e ↦ rw (e, store_fragment) (omega arith)
]

keeps-IsStreaming :
    (mem : Memory) (blob : List ℕ) (s : BlobStream) (offset end : ℕ) (info : BlobInfo)
    → offset ≤ end
    → end ≤ length blob
    → IsStreaming blob s
    → IsStreaming blob (store_fragment mem s offset (slice blob offset end) info).0
unfolding store_fragment
keeps-IsStreaming mem blob s offset end info h fits v = elim (Bool-cases (offset == s.offs_done)) [
  | inl e ↦
      rw (e, store_fragment, length-slice blob offset end h fits)
        (in_order blob s offset end h fits (ground arith) v)
  | inr e ↦
      let size = length-slice blob offset end h fits in
      rw (e, store_fragment, copy_into mem (slice blob offset end))
        (record {
          pieces =
              set_unmerged-ArePiecesOf blob offset (slice blob offset end) s.unmerged (omega arith)
                (ap (slice blob offset) (sym size)) v.pieces;
          inside = v.inside;
          follows = v.follows;
        })
]

-- A piece of a blob is stored, in any order, with the assertions of `store_fragment` fulfilled: it has bytes and
-- does not begin before the end of what was handed on. Then the signalled chunks still follow one another from offset 0
-- up to `offs_done`, each at its own offset and with the bytes of the blob from there on;
-- `offs_done` moves behind the piece at least if the piece begins there, and never back.
pub store_fragment-IsStreaming :
    (mem : Memory) (blob : List ℕ) (s : BlobStream) (offset end : ℕ) (info : BlobInfo)
    → offset ≤ end
    → end ≤ length blob
    → IsAsserted s offset (slice blob offset end)
    → IsStreaming blob s
    → let s' = (store_fragment mem s offset (slice blob offset end) info).0 in
      IsStreaming blob s' × ((if offset == s.offs_done then end else s.offs_done) ≤ s'.offs_done)
store_fragment-IsStreaming mem blob s offset end info h fits asserted v =
    let grown = offs_done-grows mem s offset (slice blob offset end) info in
    let size = length-slice blob offset end h fits in
    (keeps-IsStreaming mem blob s offset end info h fits v, ground (arith, grown, size))
