-- ===== src/Endpoint/Signed.antt =====
-- Messages that are to be signed: `endpoint::post_signed` of
-- source/modules/eagine/core/endpoint_impl.cpp and `stored_message::store_and_sign` of
-- source/modules/eagine/core/message_impl.cpp.
use eagine_msgbus.Prelude.{
  ℕ, ◌-◌, ◌≡◌, refl, sym, ap, ◌∙◌, Bool, true, false, ◌&&◌, ◌||◌, Option, none, some, List, [], ◌∷◌,
  ◌++◌, ◌==◌, not, if◌then◌else◌, length, bit_or, bit_and,
}
use eagine_msgbus.Core.{Memory}
use eagine_msgbus.Message.Info.{Message, MessageInfo}
use eagine_msgbus.Message.Serialized.{Packing}
use eagine_msgbus.Message.Storage.{Stored, push_if}
use eagine_msgbus.Message.Storage
use eagine_msgbus.Router.Ident.{MessageId}
use eagine_msgbus.Context.{Context, Ssl}
use eagine_msgbus.Context.Steps.{Reachable, Reachable-own_pkey}
use eagine_msgbus.Endpoint.{EndpointEnvironment, State}
use eagine_msgbus.Endpoint.Update.{max_data_size}

-- `is_signed`: the header or the content.
unfoldable pub is_signed : MessageInfo → Bool
is_signed info = not (bit_and info.crypto_flags 4 == 0) || not (bit_and info.crypto_flags 2 == 0)

-- What else is called: of eagine.core, `store_data_with_size` and `get_data_with_size`; of
-- eagine.sslplus, the end of a signature into a block with the given room. `no_id` is `message_id{}`.
pub record Signing (Key : Type 0) : Type 0 where
  pub packing : Packing
  pub get_data_with_size : List ℕ → List ℕ
  pub sign_final : Key → List ℕ → ℕ → Option (List ℕ)
  pub no_id : MessageId

module _ {Cert Key Store : Type 0} (signing : Signing Key) (mem : Memory)
    (ssl : Ssl Cert Key Store) where
  -- `message_view::content`
  unfoldable pub content_of : Message → List ℕ
  content_of message =
      if is_signed message.info then signing.get_data_with_size message.content else message.content

  -- The flags and the content of a message that was signed.
  unfoldable pub with_signature : List ℕ → List ℕ → Message → Message
  with_signature used signature message = record {
    info = record message.info { crypto_flags = bit_or (bit_or message.info.crypto_flags 1) 4 };
    content = used ++ signature;
  }

  -- `store_and_sign`, which returns true on every path: what cannot be signed is stored as it is.
  unfoldable pub store_and_sign : List ℕ → ℕ → Context Cert Key Store → Message → Message
  store_and_sign block max_size c message =
      let plain : Message = record message { content = mem.copy_into block message.content } in
      elim c.own_pkey [
        | none ↦ plain
        | some key ↦ elim (signing.packing.store_data_with_size block (mem.get_buffer max_size)) [
          | none ↦ plain
          | some used ↦ elim (signing.sign_final key block (max_size - length used)) [
            | none ↦ plain
            | some signature ↦
                if ssl.message_digest_sha256
                  && (ssl.new_message_digest && (ssl.sign_init key && ssl.sign_update key block))
                then with_signature used signature message
                else plain
          ]
        ]
      ]

module _ {Timeout F Cert Key Store : Type 0} (signing : Signing Key)
    (env : EndpointEnvironment Timeout F Cert Key Store) where
  open env use {blob_env, ssl}
  open blob_env use {mem}

  -- The function that `post_signed` gives to `push_if`.
  unfoldable pub fill_signed :
      MessageId → Message → ℕ → Context Cert Key Store → Stored MessageId → Stored MessageId × Bool
  fill_signed msg_id message max_size c fresh = (
    record {
      msg_id = msg_id;
      message =
          store_and_sign signing mem ssl (content_of signing mem ssl message) max_size c
            (record fresh.message { info = message.info });
      insert_time = fresh.insert_time;
    },
    true,
  )

  -- `post_signed`; the connection says whether it is usable and which size it takes.
  unfoldable pub post_signed :
      ℕ → Bool → Option ℕ → MessageId → Message → State env → State env × Bool
  post_signed now usable size msg_id message e = elim (max_data_size usable size e) [
    | none ↦ (e, false)
    | some max_size ↦
        let (outgoing, kept) =
          push_if mem (fill_signed msg_id message max_size e.context) signing.no_id e.outgoing
            now in
        (record e { outgoing = outgoing }, kept)
  ]

  fill_signed-plain :
      (msg_id : MessageId) (message : Message) (max_size : ℕ) (c : Context Cert Key Store)
      (fresh : Stored MessageId)
      → c.own_pkey ≡ none
      → is_signed message.info ≡ false
      → fill_signed msg_id message max_size c fresh
        ≡ (record { msg_id = msg_id; message = message; insert_time = fresh.insert_time }, true)
  unfolding fill_signed store_and_sign content_of
  fill_signed-plain msg_id message max_size c fresh no_key plain =
      let content : content_of signing mem ssl message ≡ message.content =
        rw (content_of, plain) refl in
      let stored : store_and_sign signing mem ssl (content_of signing mem ssl message) max_size c
            (record fresh.message { info = message.info })
          ≡ message =
        rw
          (store_and_sign, no_key, content, mem.copy_into_lem message.content fresh.message.content)
          refl in
      ap (λ m. (record { msg_id = msg_id; message = m; insert_time = fresh.insert_time }, true))
        stored

  pushed_plain :
      (now : ℕ) (msg_id : MessageId) (message : Message) (max_size : ℕ) (c : Context Cert Key Store)
      (outgoing : List (Stored MessageId))
      → c.own_pkey ≡ none
      → is_signed message.info ≡ false
      → push_if mem (fill_signed msg_id message max_size c) signing.no_id outgoing now
        ≡ (Storage.push mem outgoing msg_id message now, true)
  unfolding push_if Storage.push
  pushed_plain now msg_id message max_size c outgoing no_key plain =
      ap (λ x. if x.1 then (outgoing ++ x.0 ∷ [], true) else (outgoing, false))
        (fill_signed-plain msg_id message max_size c _ no_key plain)
      ∙ ap
          (λ content. (
            outgoing
                ++ record {
                  msg_id = msg_id;
                  message = record message { content = content };
                  insert_time = now;
                }
                  ∷ [],
            true,
          ))
          (sym (mem.copy_into_lem message.content (mem.get_buffer (length message.content))))

  -- On a connection that takes messages, whatever the context of the endpoint was told before,
  -- `post_signed` succeeds for a message that is not signed, and stores it without a signature: just what `push`
  -- does with a message that was not to be signed.
  pub posts_unsigned :
      (now : ℕ) (usable : Bool) (size : Option ℕ) (msg_id : MessageId) (message : Message)
      (e : State env) (max_size : ℕ)
      → Reachable mem ssl e.context
      → max_data_size usable size e ≡ some max_size
      → is_signed message.info ≡ false
      → post_signed now usable size msg_id message e
        ≡ (record e { outgoing = Storage.push mem e.outgoing msg_id message now }, true)
  unfolding post_signed
  posts_unsigned now usable size msg_id message e max_size known ready plain =
      rw
        (
          post_signed,
          ready,
          pushed_plain now msg_id message max_size e.context e.outgoing
              (Reachable-own_pkey mem ssl known) plain,
        )
        refl
