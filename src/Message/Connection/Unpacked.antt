-- ===== src/Message/Connection/Unpacked.antt =====
-- What is read from a block that was packed (the unpacker of `connection_incoming_messages` in
-- source/modules/eagine/core/message_impl.cpp).
use eagine_msgbus.Prelude.{
  ℕ, zero, suc, ◌≡◌, ◌<◌, refl, sym, ap, arith, inl, inr, false, some, List, [], ◌∷◌, ◌++◌, map,
  drop, length, Option-cases, Bool-cases, ◌==◌,
}
use mathlib.Core.List.{append-nil, append_assoc}
use eagine_msgbus.Core.{Memory}
use eagine_msgbus.Message.Info.{Message}
use eagine_msgbus.Message.Sweep.{erase_if}
use eagine_msgbus.Message.Storage.{Stored, push_if}
use eagine_msgbus.Message.Serialized.{Serialized, Packing}
use eagine_msgbus.Message.Serialized.Packed.{pack_first}
use eagine_msgbus.Message.Connection.{
  HeaderCodec, Unpacking, is_empty, deserialize_message, fill_message, unpack_one, unpack_all,
}
use eagine_msgbus.Message.Connection.Queued.{Holds, nothing, first, parted, serialized_lem}

module _ {Msg : Type 0} (codec : HeaderCodec Msg) where
  unfoldable pub stored_at : ℕ → Msg × Message → Stored Msg
  stored_at data_ts x = record { msg_id = x.0; message = x.1; insert_time = data_ts }

  module _ (mem : Memory) (now data_ts : ℕ) where
    unpack_one-some :
        (blk : List ℕ) (x : Msg × Message) (unpacked : List (Stored Msg))
        → 0 < length blk
        → deserialize_message codec blk ≡ some x
        → unpack_one codec mem now data_ts blk unpacked ≡ unpacked ++ stored_at data_ts x ∷ []
    unfolding unpack_one push_if fill_message stored_at
    unpack_one-some blk x unpacked p d =
        let b : (length blk == 0) ≡ false = ground (arith, p) in
        rw (unpack_one, b, push_if, fill_message, d) refl

    pub unpack_all-empty :
        (blks : List (List ℕ)) (unpacked : List (Stored Msg))
        → erase_if is_empty blks ≡ []
        → unpack_all codec mem now data_ts blks unpacked ≡ unpacked
    unfolding unpack_all unpack_one erase_if
    unpack_all-empty [] unpacked h = refl
    unpack_all-empty (blk ∷ blks) unpacked h = elim (Bool-cases (length blk == 0)) [
      | inl e ↦
          let h' : erase_if is_empty blks ≡ [] = ground (arith, h) in
          rw (unpack_all, unpack_one, e) (unpack_all-empty blks unpacked h')
      | inr n ↦ ground (arith, h)
    ]

    -- What is read from the packed messages.
    pub unpack_all-packed :
        {packing : Packing} (unpacking : Unpacking packing) (k : ℕ) (blk : List ℕ)
        (queue : List Serialized) (sent : List (Msg × Message)) (tail : List ℕ)
        (unpacked : List (Stored Msg))
        → Holds codec queue sent
        → unpack_all codec mem now data_ts
            (unpacking.for_each_data ((pack_first packing k blk queue).0 ++ tail))
            unpacked
          ≡ unpack_all codec mem now data_ts
              (unpacking.for_each_data tail)
              (unpacked ++ map (stored_at data_ts) (parted packing k blk queue sent).0)
    unfolding unpack_all pack_first parted
    unpack_all-packed unpacking zero blk queue sent tail unpacked h =
        ap (unpack_all codec mem now data_ts (unpacking.for_each_data tail))
          (sym (append-nil unpacked))
    unpack_all-packed unpacking (suc k) blk [] [] tail unpacked nothing =
        ap (unpack_all codec mem now data_ts (unpacking.for_each_data tail))
          (sym (append-nil unpacked))
    unpack_all-packed unpacking (suc k) blk [] (x ∷ xs) tail unpacked h = elim h [ ]
    unpack_all-packed unpacking (suc k) blk (e ∷ es) [] tail unpacked h = elim h [ ]
    unpack_all-packed {packing} unpacking (suc k) blk (e ∷ es) (x ∷ xs) tail unpacked
          (first room s h) =
        elim (Option-cases (packing.store_data_with_size e.message blk)) [
          | inl n ↦
              rw (pack_first, parted, n) (unpack_all-packed unpacking k blk es xs tail unpacked h)
          | inr (packed, n) ↦
              let (p, d) = serialized_lem codec room x.0 x.1 e.message s in
              let bytes = (pack_first packing k (drop (length packed) blk) es).0 in
              let read = unpacking.for_each_data-store e.message blk packed (bytes ++ tail) n in
              rw
                (
                  pack_first,
                  parted,
                  n,
                  append_assoc packed bytes tail,
                  read,
                  unpack_one-some e.message x unpacked p d,
                  unpack_all-packed unpacking k (drop (length packed) blk) es xs tail
                      (unpacked ++ stored_at data_ts x ∷ []) h,
                )
                (ap (unpack_all codec mem now data_ts (unpacking.for_each_data tail))
                  (append_assoc unpacked (stored_at data_ts x ∷ []) _))
        ]
