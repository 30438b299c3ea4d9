-- ===== src/Message/Queue.antt =====
-- `message_priority_queue` of source/modules/eagine/core/message.cpp and message_impl.cpp.
pub mod Lanes
use eagine_msgbus.Prelude.{
  ℕ, ◌-◌, Bool, true, false, Option, none, some, List, [], ◌∷◌, ltb, if◌then◌else◌, length,
}
use eagine_msgbus.Core.{Memory, rank}
use eagine_msgbus.Message.Info.{MessageInfo, Message, mark_too_old, too_many_hops}
use eagine_msgbus.Message.Sweep.{Swept, sweep, remaining}

-- The messages in the order of the vector, in ascending priority. `push` looks for the first message
-- whose priority is not lower (`std::lower_bound`) and puts the new one before it.
pub push : Memory → List Message → Message → List Message
push mem [] message =
    record message {
      content = mem.copy_into message.content (mem.get_buffer (length message.content));
    }
    ∷ []
push mem (x ∷ xs) message =
    if ltb (rank x.info.priority) (rank message.info.priority)
    then x ∷ push mem xs message
    else record message {
      content = mem.copy_into message.content (mem.get_buffer (length message.content));
    }
      ∷ x
      ∷ xs

-- All messages but the last, and the last: `back()` and `pop_back()`.
pub split_back : List Message → Option (List Message × Message)
split_back [] = none
split_back (x ∷ xs) = elim (split_back xs) [ none ↦ some ([], x) | some (ys, y) ↦ some (x ∷ ys, y) ]

-- What handling does to a message that stays in the vector: its buffer is released, and it is marked.
unfoldable pub release : Message → Message
release m = record { info = mark_too_old m.info; content = [] }

module _ {S : Type 0} where
  -- `process_one`: the state of the handler, the queue, and whether a message was handled.
  pub process_one : (S → Message → S × Bool) → S → List Message → S × List Message × Bool
  unfolding split_back
  process_one handler s q = elim (split_back q) [
    | none ↦ (s, q, false)
    | some (rest, back) ↦
        let (s', handled) = handler s back in if handled then (s', rest, true) else (s', q, false)
  ]

  -- `process_all`: the number of messages that are gone.
  pub process_all : (S → Message → S × Bool) → S → List Message → S × List Message × ℕ
  process_all handler s q =
      let w = sweep handler release s q in
      let left = remaining (λ m. too_many_hops m.info) w in
      (w.state, left, if w.all_handled then length q else length w.entries - length left)
