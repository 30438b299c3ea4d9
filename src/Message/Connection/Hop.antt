-- ===== src/Message/Connection/Hop.antt =====
-- One hop of messages over a connection: they are enqueued and packed on one side, and pushed and fetched on
-- the other (source/modules/eagine/core/message_impl.cpp).
use eagine_msgbus.Prelude.{
  ℕ, ◌≡◌, ◌<◌, refl, sym, ap, ◌∙◌, arith, Bool, true, false, List, [], ◌∷◌, map, length, ◌==◌,
}
use mathlib.Core.Path.{subst}
use mathlib.Core.List.{append-nil}
use eagine_msgbus.Core.{Memory}
use eagine_msgbus.Message.Info.{Message}
use eagine_msgbus.Message.Sweep.{sweep, remaining}
use eagine_msgbus.Message.Storage.{fetch_all, release_stored, is_released}
use eagine_msgbus.Message.Serialized.{
  Serialized, Packing, push_serialized, fetch_serialized, pack_into, cleanup_packed,
}
use eagine_msgbus.Message.Serialized.Marked.{HaveBuffers}
use eagine_msgbus.Message.Serialized.Packed.{pack_first, cleanup-pack_into}
use eagine_msgbus.Message.Connection.{
  HeaderCodec, Unpacking, no_messages, push_block, unpack_all, unpacker, fetch_messages,
}
use eagine_msgbus.Message.Connection.Queued.{Holds, parted, pack_first-Holds, Holds-HaveBuffers}
use eagine_msgbus.Message.Connection.Unpacked.{stored_at, unpack_all-empty, unpack_all-packed}

-- A handler takes the messages one after the other; all of them have the age `age`.
pub deliver :
    {Msg S : Type 0} → (S → Msg → ℕ → Message → S × Bool) → ℕ → S → List (Msg × Message) → S
deliver handler age s [] = s
deliver handler age s (x ∷ xs) = deliver handler age (handler s x.0 age x.1).0 xs

module _ {E S : Type 0} (handler : S → E → S × Bool) (mark : E → E) (is_marked : E → Bool)
    (takes : (s : S) (e : E) → (handler s e).1 ≡ true) where
  -- A handler that takes every entry.
  sweep-taken : (s : S) (es : List E) → (sweep handler mark s es).all_handled ≡ true
  unfolding sweep
  sweep-taken s [] = refl
  sweep-taken s (e ∷ es) = rw (sweep, takes s e) (sweep-taken (handler s e).0 es)

  remaining-taken : (s : S) (es : List E) → remaining is_marked (sweep handler mark s es) ≡ []
  unfolding remaining
  remaining-taken s es = rw (remaining, sweep-taken s es) refl

module _ {Msg S : Type 0} (codec : HeaderCodec Msg) (handler : S → Msg → ℕ → Message → S × Bool)
    (takes : (s : S) (msg_id : Msg) (age : ℕ) (message : Message)
      → (handler s msg_id age message).1 ≡ true)
    (age_of : ℕ → ℕ) (data_ts : ℕ) where
  state_lem :
      (s : S) (xs : List (Msg × Message))
      → (sweep
          (λ t e. handler t e.msg_id (age_of e.insert_time) e.message)
          release_stored
          s
          (map (stored_at codec data_ts) xs)).state
        ≡ deliver handler (age_of data_ts) s xs
  unfolding sweep deliver stored_at
  state_lem s [] = refl
  state_lem s (x ∷ xs) = state_lem (handler s x.0 (age_of data_ts) x.1).0 xs

  fetch_all-deliver :
      (s : S) (xs : List (Msg × Message))
      → let (s', left, _) = fetch_all age_of handler s (map (stored_at codec data_ts) xs) in
        (s' ≡ deliver handler (age_of data_ts) s xs) × (left ≡ [])
  unfolding fetch_all
  fetch_all-deliver s xs =
      (state_lem s xs, remaining-taken _ release_stored is_released (λ s e. takes s _ _ _) s _)

module _ {Msg S : Type 0} (codec : HeaderCodec Msg) (mem : Memory) {packing : Packing}
    (unpacking : Unpacking packing) (handler : S → Msg → ℕ → Message → S × Bool)
    (takes : (s : S) (msg_id : Msg) (age : ℕ) (message : Message)
      → (handler s msg_id age message).1 ≡ true)
    (age_of : ℕ → ℕ) where
  -- What is read from a packed block.
  block_unpacked :
      (now data_ts : ℕ) (dest : List ℕ) (queue : List Serialized) (sent : List (Msg × Message))
      → Holds codec queue sent
      → unpack_all codec mem now data_ts
          (unpacking.for_each_data (pack_into mem packing dest queue).0)
          []
        ≡ map (stored_at codec data_ts) (parted packing 64 dest queue sent).0
  block_unpacked now data_ts dest queue sent h =
      let rest = (pack_first packing 64 dest queue).1 in
      let written =
        (cleanup-pack_into mem packing dest queue []
          (subst HaveBuffers (sym (append-nil queue)) (Holds-HaveBuffers codec queue sent h))).0 in
      rw
        (
          written,
          unpack_all-packed codec mem now data_ts unpacking 64 dest queue sent (packing.zeroed rest)
              [] h,
        )
        (unpack_all-empty codec mem now data_ts _ _ (unpacking.for_each_data-zeroed rest))

  waiting_lem :
      (dest : List ℕ) (queue : List Serialized) (sent : List (Msg × Message))
      → Holds codec queue sent
      → Holds codec
          (cleanup_packed (pack_into mem packing dest queue).1 queue)
          (parted packing 64 dest queue sent).1
  waiting_lem dest queue sent h =
      let buffers =
        subst HaveBuffers (sym (append-nil queue)) (Holds-HaveBuffers codec queue sent h) in
      let cleaned = (cleanup-pack_into mem packing dest queue [] buffers).1 in
      let left : cleanup_packed (pack_into mem packing dest queue).1 queue
          ≡ (pack_first packing 64 dest queue).2 =
        ap (cleanup_packed (pack_into mem packing dest queue).1) (sym (append-nil queue))
        ∙ (cleaned ∙ append-nil _) in
      rw left (pack_first-Holds codec packing 64 dest queue sent h)

  -- The fetch of a single block.
  fetched_lem :
      (now data_ts : ℕ) (block : List ℕ) (s : S)
      → (length block == 0) ≡ false
      → fetch_messages codec mem unpacking now age_of handler s
          (push_block codec mem data_ts block no_messages)
        ≡ (let (s', waiting, _) =
              fetch_all age_of handler s
                (unpack_all codec mem now data_ts (unpacking.for_each_data block) []) in
            (s', record { packed = []; unpacked = waiting }, false))
  unfolding fetch_messages push_block push_serialized fetch_serialized sweep remaining unpacker
  fetched_lem now data_ts block s n =
      rw (push_block, push_serialized, n, mem.copy_into_lem block (mem.get_buffer (length block)))
        refl

  -- A hop over a connection, to a side where no message waits. Of the first 64 messages of the queue
  -- those that fit into the block are handed over by the other side, each once, unchanged, in order, and
  -- nothing of them is left there; the others wait, in order, for the next block. The
  -- handler takes what it is offered, and the block has bytes.
  pub hop_delivers :
      (now data_ts : ℕ) (dest : List ℕ) (queue : List Serialized) (sent : List (Msg × Message))
      (s : S)
      → Holds codec queue sent
      → 0 < length (pack_into mem packing dest queue).0
      → let (block, packed) = pack_into mem packing dest queue in
        let (fit, wait) = parted packing 64 dest queue sent in
        let (s', incoming, _) =
          fetch_messages codec mem unpacking now age_of handler s
            (push_block codec mem data_ts block no_messages) in
        (s' ≡ deliver handler (age_of data_ts) s fit)
        × (incoming ≡ no_messages)
        × Holds codec (cleanup_packed packed queue) wait
  hop_delivers now data_ts dest queue sent s h bytes =
      let (taken, left) =
        fetch_all-deliver codec handler takes age_of data_ts s
          (parted packing 64 dest queue sent).0 in
      let n : (length (pack_into mem packing dest queue).0 == 0) ≡ false = ground (arith, bytes) in
      rw
        (
          fetched_lem now data_ts (pack_into mem packing dest queue).0 s n,
          block_unpacked now data_ts dest queue sent h,
        )
        (taken, ap (λ u. record { packed = []; unpacked = u }) left, waiting_lem dest queue sent h)
