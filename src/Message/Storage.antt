-- ===== src/Message/Storage.antt =====
-- `message_storage` of source/modules/eagine/core/message.cpp and
-- message_impl.cpp. The clock is an argument of each call.
use eagine_msgbus.Prelude.{
  ℕ, ◌≡◌, refl, Bool, true, false, List, [], ◌∷◌, ◌++◌, ltb, if◌then◌else◌, length,
}
use eagine_msgbus.Core.{Memory}
use eagine_msgbus.Message.Info.{Message, default_info, mark_too_old, too_many_hops}
use eagine_msgbus.Message.Sweep.{
  sweep, remaining, refused, erase_if, remaining-sweep, some_handled-sweep,
}
use eagine_msgbus.Message.Queue.{release}

-- An element of `message_storage::_messages`.
pub record Stored (Msg : Type 0) : Type 0 where
  pub msg_id : Msg
  pub message : Message
  pub insert_time : ℕ

module _ {Msg : Type 0} where
  unfoldable pub push : Memory → List (Stored Msg) → Msg → Message → ℕ → List (Stored Msg)
  push mem messages msg_id message now =
      messages
      ++ record {
        msg_id = msg_id;
        message = record message {
          content = mem.copy_into message.content (mem.get_buffer (length message.content));
        };
        insert_time = now;
      }
        ∷ []

  -- `push_if`: `function` fills a fresh message, or refuses it; an exception counts as a refusal.
  unfoldable pub push_if :
      Memory
      → (Stored Msg → Stored Msg × Bool)
      → Msg
      → List (Stored Msg)
      → ℕ
      → List (Stored Msg) × Bool
  push_if mem function no_id messages now =
      let fresh : Message = record {
        info = default_info;
        content = mem.copy_into [] (mem.get_buffer 0);
      } in
      let (filled, keep) =
        function (record { msg_id = no_id; message = fresh; insert_time = now }) in
      if keep then (messages ++ filled ∷ [], true) else (messages, false)

  -- What handling leaves in the vector.
  pub release_stored : Stored Msg → Stored Msg
  release_stored e = record e { message = release e.message }

  abbrev pub is_released : Stored Msg → Bool
  is_released e = too_many_hops e.message.info

  module _ {S : Type 0} where
    -- `fetch_all`, with the age of a message as a function of its time of insertion.
    unfoldable pub fetch_all :
        (ℕ → ℕ)
        → (S → Msg → ℕ → Message → S × Bool)
        → S
        → List (Stored Msg)
        → S × List (Stored Msg) × Bool
    fetch_all age_of handler s messages =
        let w =
          sweep (λ s e. handler s e.msg_id (age_of e.insert_time) e.message) release_stored s
            messages in
        (w.state, remaining is_released w, w.some_handled)

  -- `cleanup`
  pub cleanup : (ℕ → ℕ) → (ℕ → Bool) → List (Stored Msg) → List (Stored Msg)
  cleanup age_of predicate messages = erase_if (λ e. predicate (age_of e.insert_time)) messages

  release_stored_lem : (e : Stored Msg) → is_released (release_stored e) ≡ true
  unfolding release_stored release too_many_hops mark_too_old
  release_stored_lem e = refl

  module _ {S : Type 0} (age_of : ℕ → ℕ) (handler : S → Msg → ℕ → Message → S × Bool) where
    -- The messages that the handler refuses, each with its age.
    abbrev pub refused_messages : S → List (Stored Msg) → List (Stored Msg)
    refused_messages = refused (λ s e. handler s e.msg_id (age_of e.insert_time) e.message)

    -- `fetch_all` keeps the refused messages, in order, but for those that had made too many hops
    -- before; it reports whether any message was not refused.
    pub fetch_all_lem :
        (s : S) (messages : List (Stored Msg))
        → let (_, left, fetched_some) = fetch_all age_of handler s messages in
          (left ≡ erase_if is_released (refused_messages s messages))
          × (fetched_some ≡ ltb (length (refused_messages s messages)) (length messages))
    unfolding fetch_all
    fetch_all_lem s messages = (
      remaining-sweep _ release_stored is_released release_stored_lem s messages,
      some_handled-sweep _ release_stored is_released release_stored_lem s messages,
    )
