-- ===== src/Message/Connection/Queued.antt =====
-- The messages that wait on a connection, serialized (`connection_outgoing_messages` of
-- source/modules/eagine/core/message.cpp and message_impl.cpp).
use eagine_msgbus.Prelude.{
  ℕ, zero, suc, ◌≡◌, ◌<◌, refl, sym, ap, ◌∙◌, arith, inl, inr, false, none, some, List, [], ◌∷◌,
  ◌++◌, drop, length, Option-cases, if-some, if◌then◌else◌, ◌==◌, ◌-◌, length-append,
}
use mathlib.Core.Path.{subst}
use mathlib.Core.Option.{none-ne-some}
use eagine_msgbus.Core.{Memory}
use eagine_msgbus.Message.Info.{Message}
use eagine_msgbus.Message.Serialized.{Serialized, Packing, push_serialized}
use eagine_msgbus.Message.Serialized.Marked.{HaveBuffers}
use eagine_msgbus.Message.Serialized.Packed.{pack_first}
use eagine_msgbus.Message.Connection.{HeaderCodec, serialize_message, deserialize_message, enqueue}

-- The queue holds the serialized messages that were sent, in order.
pub data Holds {Msg : Type 0} (codec : HeaderCodec Msg)
    : List Serialized → List (Msg × Message) → Type 0 where
  nothing : Holds codec [] []
  first :
      {e : Serialized} {es : List Serialized} {x : Msg × Message} {xs : List (Msg × Message)}
      (room : ℕ)
      → serialize_message codec room x.0 x.1 ≡ some e.message
      → Holds codec es xs
      → Holds codec (e ∷ es) (x ∷ xs)

-- The messages that are packed and those that wait, as `pack_first` decides it.
unfoldable pub parted :
    {Msg : Type 0}
    → Packing
    → ℕ
    → List ℕ
    → List Serialized
    → List (Msg × Message)
    → List (Msg × Message) × List (Msg × Message)
parted packing (suc k) blk (e ∷ es) (x ∷ xs) = elim (packing.store_data_with_size e.message blk) [
  | none ↦ let (fit, wait) = parted packing k blk es xs in (fit, x ∷ wait)
  | some packed ↦
      let (fit, wait) = parted packing k (drop (length packed) blk) es xs in (x ∷ fit, wait)
]
parted packing k blk es xs = ([], xs)

module _ {Msg : Type 0} (codec : HeaderCodec Msg) where
  -- What was serialized is not empty, and is read back as it was.
  written_lem :
      (room : ℕ) (msg_id : Msg) (message : Message) (header : List ℕ)
      → codec.write_header msg_id message.info room ≡ some header
      → (0 < length (header ++ message.content))
        × (deserialize_message codec (header ++ message.content) ≡ some (msg_id, message))
  unfolding deserialize_message
  written_lem room msg_id message header h = (
    omega (
      arith,
      length-append {0} header message.content,
      codec.length-write_header msg_id message.info room header h,
    ),
    rw
        (
          deserialize_message,
          codec.read-write_header msg_id message.info room header message.content h,
        )
        refl,
  )

  pub serialized_lem :
      (room : ℕ) (msg_id : Msg) (message : Message) (bytes : List ℕ)
      → serialize_message codec room msg_id message ≡ some bytes
      → (0 < length bytes) × (deserialize_message codec bytes ≡ some (msg_id, message))
  unfolding serialize_message
  serialized_lem room msg_id message bytes h =
      elim (Option-cases (codec.write_header msg_id message.info room)) [
        | inl n ↦
            let fails : serialize_message codec room msg_id message ≡ none =
              rw (serialize_message, n) refl in
            elim (none-ne-some _ (sym fails ∙ h)) [ ]
        | inr (header, n) ↦
            let opened : serialize_message codec room msg_id message ≡ (
                if codec.write (room - length header) message.content
                then some (header ++ message.content)
                else none) =
              rw (serialize_message, n) refl in
            subst (λ b. (0 < length b) × (deserialize_message codec b ≡ some (msg_id, message)))
              (if-some _ _ _ (sym opened ∙ h)) (written_lem room msg_id message header n)
      ]

  -- What waits after the clean-up.
  pub pack_first-Holds :
      (packing : Packing) (k : ℕ) (blk : List ℕ) (queue : List Serialized)
      (sent : List (Msg × Message))
      → Holds codec queue sent
      → Holds codec (pack_first packing k blk queue).2 (parted packing k blk queue sent).1
  unfolding pack_first parted
  pack_first-Holds packing zero blk queue sent h = h
  pack_first-Holds packing (suc k) blk [] [] nothing = nothing
  pack_first-Holds packing (suc k) blk [] (x ∷ xs) h = elim h [ ]
  pack_first-Holds packing (suc k) blk (e ∷ es) [] h = elim h [ ]
  pack_first-Holds packing (suc k) blk (e ∷ es) (x ∷ xs) (first room s h) =
      elim (Option-cases (packing.store_data_with_size e.message blk)) [
        | inl n ↦ rw (pack_first, parted, n) (first room s (pack_first-Holds packing k blk es xs h))
        | inr (packed, n) ↦
            rw (pack_first, parted, n)
              (pack_first-Holds packing k (drop (length packed) blk) es xs h)
      ]

  pub Holds-HaveBuffers :
      (queue : List Serialized) (sent : List (Msg × Message))
      → Holds codec queue sent
      → HaveBuffers queue
  unfolding HaveBuffers
  Holds-HaveBuffers [] [] nothing = tt
  Holds-HaveBuffers [] (x ∷ xs) h = elim h [ ]
  Holds-HaveBuffers (e ∷ es) [] h = elim h [ ]
  Holds-HaveBuffers (e ∷ es) (x ∷ xs) (first room s h) =
      ((serialized_lem room x.0 x.1 e.message s).0, Holds-HaveBuffers es xs h)

  append-Holds :
      (queue : List Serialized) (sent : List (Msg × Message)) (e : Serialized) (msg_id : Msg)
      (message : Message) (room : ℕ)
      → serialize_message codec room msg_id message ≡ some e.message
      → Holds codec queue sent
      → Holds codec (queue ++ e ∷ []) (sent ++ (msg_id, message) ∷ [])
  append-Holds [] [] e msg_id message room s nothing = first room s nothing
  append-Holds [] (x ∷ xs) e msg_id message room s h = elim h [ ]
  append-Holds (q ∷ queue) [] e msg_id message room s h = elim h [ ]
  append-Holds (q ∷ queue) (x ∷ xs) e msg_id message room s (first r s' h) =
      first r s' (append-Holds queue xs e msg_id message room s h)

  -- A message that is enqueued waits behind the others, one that is not changes nothing.
  pub enqueue-Holds :
      (mem : Memory) (now temp : ℕ) (msg_id : Msg) (message : Message) (queue : List Serialized)
      (sent : List (Msg × Message))
      → Holds codec queue sent
      → let (queue', enqueued) = enqueue codec mem now temp msg_id message queue in
        Holds codec queue' (if enqueued then sent ++ (msg_id, message) ∷ [] else sent)
  unfolding enqueue push_serialized
  enqueue-Holds mem now temp msg_id message queue sent h =
      elim (Option-cases (serialize_message codec temp msg_id message)) [
        | inl n ↦ rw (enqueue, n) h
        | inr (bytes, n) ↦
            let b : (length bytes == 0) ≡ false =
              ground (arith, (serialized_lem temp msg_id message bytes n).0) in
            rw (enqueue, n, push_serialized, b)
              (append-Holds queue sent _ msg_id message temp
                (n ∙ ap some (sym (mem.copy_into_lem bytes _))) h)
      ]
