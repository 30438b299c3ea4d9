-- ===== src/Blobs/Stream/Stall.antt =====
-- Overlapping pieces in `blob_stream_io` (source/modules/eagine/core/blobs_impl.cpp): the loop over
-- `_unmerged` stops at an entry that begins before the data that was handed on, and such an entry is
-- never removed.
use mathlib.Core.List.{append-nil, append_assoc}
use eagine_msgbus.Prelude.{
  ℕ, ◌+◌, ◌<◌, ◌≡◌, refl, List, [], ◌∷◌, ◌++◌, arith, ◌==◌, if◌then◌else◌, length, sym, ◌∙◌, inl,
  inr, Bool-cases,
}
use eagine_msgbus.Core.{Memory}
use eagine_msgbus.Blobs.Io.{BlobInfo}
use eagine_msgbus.Blobs.Stream.{Chunk, BlobStream, store_fragment}

-- The first entry begins before the end of what was handed on.
abbrev pub IsStalled : List (ℕ × List ℕ) → ℕ → Type 0
IsStalled [] done = ⊥
IsStalled ((o, d) ∷ m) done = o < done

module _ (mem : Memory) where
  overlapped :
      (s : BlobStream) (o : ℕ) (d blk : List ℕ) (m : List (ℕ × List ℕ)) (info : BlobInfo)
      → s.unmerged ≡ (o, d) ∷ m
      → o < s.offs_done + length blk
      → let s' = (store_fragment mem s s.offs_done blk info).0 in IsStalled s'.unmerged s'.offs_done
  unfolding store_fragment
  overlapped s o d blk m info e h = rw (e, store_fragment) (ground arith)

  -- In a stalled stream a store hands on its own block at most, and nothing that waits.
  store-IsStalled :
      (s : BlobStream) (offset : ℕ) (blk : List ℕ) (info : BlobInfo)
      → IsStalled s.unmerged s.offs_done
      → let s' = (store_fragment mem s offset blk info).0 in
        IsStalled s'.unmerged s'.offs_done
        × (s'.appended ≡ (
            if offset == s.offs_done
            then s.appended ++ record { offset = offset; blocks = blk ∷ [] } ∷ []
            else s.appended))
        × (s'.offs_done ≡ (if offset == s.offs_done then offset + length blk else s.offs_done))
  unfolding store_fragment
  store-IsStalled s offset blk info h = stalled s.unmerged refl h
    where
      stalled :
          (m : List (ℕ × List ℕ))
          → s.unmerged ≡ m
          → IsStalled m s.offs_done
          → let s' = (store_fragment mem s offset blk info).0 in
            IsStalled s'.unmerged s'.offs_done
            × (s'.appended ≡ (
                if offset == s.offs_done
                then s.appended ++ record { offset = offset; blocks = blk ∷ [] } ∷ []
                else s.appended))
            × (s'.offs_done ≡ (if offset == s.offs_done then offset + length blk else s.offs_done))
      stalled [] e h = absurd h
      stalled ((o, d) ∷ m) e h = rw (e, store_fragment) (ground arith)

  pub store_all : BlobStream → BlobInfo → List (ℕ × List ℕ) → BlobStream
  store_all s info [] = s
  store_all s info ((offset, blk) ∷ l) = store_all (store_fragment mem s offset blk info).0 info l

  -- What a stream signals that drops each block which does not continue the data at once.
  pub in_sequence : ℕ → List (ℕ × List ℕ) → List Chunk
  in_sequence done [] = []
  in_sequence done ((offset, blk) ∷ l) =
      if offset == done
      then record { offset = offset; blocks = blk ∷ [] } ∷ in_sequence (offset + length blk) l
      else in_sequence done l

  store_all_stalled :
      (s : BlobStream) (info : BlobInfo) (l : List (ℕ × List ℕ))
      → IsStalled s.unmerged s.offs_done
      → (store_all s info l).appended ≡ s.appended ++ in_sequence s.offs_done l
  unfolding store_all in_sequence
  store_all_stalled s info [] h = sym (append-nil s.appended)
  store_all_stalled s info ((offset, blk) ∷ l) h =
      let s' = (store_fragment mem s offset blk info).0 in
      let (h', out, done) = store-IsStalled s offset blk info h in
      store_all_stalled s' info l h' ∙ elim (Bool-cases (offset == s.offs_done)) [
        | inl e ↦ ground (
          arith,
          out,
          done,
          append_assoc s.appended (record { offset = offset; blocks = blk ∷ [] } ∷ [])
              (in_sequence (offset + length blk) l),
        )
        | inr e ↦ ground (arith, out, done)
      ]

  overlapped_first :
      (s : BlobStream) (o : ℕ) (d blk : List ℕ) (m : List (ℕ × List ℕ)) (info : BlobInfo)
      (l : List (ℕ × List ℕ))
      → s.unmerged ≡ (o, d) ∷ m
      → o < s.offs_done + length blk
      → let s' = (store_fragment mem s s.offs_done blk info).0 in
        s'.appended ++ in_sequence s'.offs_done l
        ≡ (s.appended ++ record { offset = s.offs_done; blocks = blk ∷ [] } ∷ [])
          ++ in_sequence (s.offs_done + length blk) l
  unfolding store_fragment
  overlapped_first s o d blk m info l e h = rw (e, store_fragment) (ground arith)

  -- If a block is stored where the data ends and reaches beyond the begin of the first block that
  -- waits, then whatever is stored later, also where assertions are not built in, the waiting blocks and all that is stored out of order are
  -- never handed on: from then on the stream signals only the blocks that continue the data when
  -- they are stored.
  pub overlap_stalls :
      (s : BlobStream) (o : ℕ) (d blk : List ℕ) (m : List (ℕ × List ℕ)) (info : BlobInfo)
      (l : List (ℕ × List ℕ))
      → s.unmerged ≡ (o, d) ∷ m
      → s.offs_done < o
      → o < s.offs_done + length blk
      → (store_all s info ((s.offs_done, blk) ∷ l)).appended
        ≡ (s.appended ++ record { offset = s.offs_done; blocks = blk ∷ [] } ∷ [])
          ++ in_sequence (s.offs_done + length blk) l
  unfolding store_all
  overlap_stalls s o d blk m info l e ahead h =
      store_all_stalled _ info l (overlapped s o d blk m info e h)
      ∙ overlapped_first s o d blk m info l e h
