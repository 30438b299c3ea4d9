-- ===== src/Message/Connection/Tests.antt =====
-- Messages on their way over a connection (source/modules/eagine/core/message_impl.cpp).
use eagine_msgbus.Prelude.{ℕ, ◌+◌, ◌≡◌, refl, Bool, true, List, [], ◌∷◌, ◌++◌}
use eagine_msgbus.Samples.{memory, packing, zero_bytes}
use eagine_msgbus.Samples.Connection.{
  header_codec, unpacking, three_sent, three_waiting, three_waiting-Holds, three_packed-HasBytes,
}
use eagine_msgbus.Message.Info.{Message}
use eagine_msgbus.Message.Serialized.{pack_into, cleanup_packed}
use eagine_msgbus.Message.Connection.{push_block, fetch_messages, no_messages}
use eagine_msgbus.Message.Connection.Queued.{Holds, parted}
use eagine_msgbus.Message.Connection.Hop.{deliver, hop_delivers}

-- The handler collects what it is offered.
abbrev collect : List (ℕ × Message) → ℕ → ℕ → Message → List (ℕ × Message) × Bool
collect seen msg_id age message = (seen ++ (msg_id, message) ∷ [], true)

hop_delivers_example :
    let (block, packed) = pack_into memory packing (zero_bytes 30) three_waiting in
    let (fit, wait) = parted packing 64 (zero_bytes 30) three_waiting three_sent in
    let (seen, incoming, _) =
      fetch_messages header_codec memory unpacking 9
        (λ t. t + 1)
        collect
        []
        (push_block header_codec memory 8 block no_messages) in
    (seen ≡ deliver collect 9 [] fit)
    × (incoming ≡ no_messages)
    × Holds header_codec (cleanup_packed packed three_waiting) wait
hop_delivers_example =
    hop_delivers header_codec memory unpacking collect (λ s msg_id age message. refl) (λ t. t + 1) 9
      8 (zero_bytes 30) three_waiting three_sent [] three_waiting-Holds three_packed-HasBytes
