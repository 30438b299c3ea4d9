-- ===== src/Router/Wire.antt =====
-- What leaves the router: the messages that it hands to connections, in order
-- (`connection::send`, source/modules/eagine/core/types.cpp). A connection is known by a number; it
-- may accept or refuse a message depending on all that was sent before.
use eagine_msgbus.Prelude.{ℕ, Bool, List, [], ◌∷◌, ◌++◌}
use eagine_msgbus.Router.Ident.{MessageId}
use eagine_msgbus.Message.Info.{Message}

pub record Sending : Type 0 where
  pub link : ℕ
  pub msg_id : MessageId
  pub message : Message

abbrev pub Wire : Type 0
Wire = List Sending

-- Whether `connection::send` returns true.
abbrev pub Accepts : Type 0
Accepts = Wire → Sending → Bool

-- The call of `connection::send`.
unfoldable pub send_on : Accepts → ℕ → MessageId → Message → Wire → Wire × Bool
send_on accepts link msg_id message wire =
    let sending : Sending = record { link = link; msg_id = msg_id; message = message } in
    (wire ++ sending ∷ [], accepts wire sending)
