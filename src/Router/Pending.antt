-- ===== src/Router/Pending.antt =====
-- `router_pending` of source/modules/eagine/core/router.cpp and router_impl.cpp: an accepted
-- connection until the router adopts it as a node.
pub mod Password
use eagine_msgbus.Prelude.{
  ℕ, zero, suc, ◌+◌, Bool, true, false, not, ◌&&◌, ◌||◌, Option, none, some, List, [], ◌∷◌, ◌==◌,
  leb, if◌then◌else◌,
}
use eagine_msgbus.Core.{is_valid_id}
use eagine_msgbus.Message.Info.{Message, default_info}
use eagine_msgbus.Router.Ident.{
  MessageId, special, user, request_id, assign_id, announce_id, ann_endpt_id, req_rutr_pwd,
  enc_rutr_pwd,
}

-- The timeouts are the times when they expire.
pub record RouterPending : Type 0 where
  pub id : ℕ
  pub too_old_at : ℕ
  pub should_request_pwd_at : ℕ
  pub connection : Option ℕ
  pub nonce : List ℕ
  pub password_verified : Bool
  pub maybe_router : Bool

unfoldable pub zeros : ℕ → List ℕ
zeros zero = []
zeros (suc n) = let rest = zeros n in 0 ∷ rest

-- The constructor, at the time `now`.
unfoldable pub new_pending : Bool → Bool → ℕ → ℕ → RouterPending
unfolding zeros
new_pending password_is_required in_process connection now = record {
  id = 0;
  too_old_at = now + 30;
  should_request_pwd_at = now;
  connection = some connection;
  nonce = if password_is_required && not in_process then zeros 128 else [];
  password_verified = false;
  maybe_router = true;
}

unfoldable pub password_is_required : RouterPending → Bool
password_is_required p = elim p.nonce [ [] ↦ false | b ∷ bs ↦ true ]

pub should_request_password : ℕ → RouterPending → Bool
unfolding password_is_required
should_request_password now p =
    is_valid_id p.id
    && password_is_required p
    && leb p.should_request_pwd_at now
    && not p.password_verified

pub has_timeouted : ℕ → RouterPending → Bool
has_timeouted now p = leb p.too_old_at now

unfoldable pub should_be_removed : ℕ → RouterPending → Bool
unfolding has_timeouted
should_be_removed now p = has_timeouted now p || elim p.connection [ none ↦ true | some c ↦ false ]

unfoldable pub can_be_adopted : ℕ → RouterPending → Bool
unfolding password_is_required
can_be_adopted now p =
    is_valid_id p.id
    && not (leb p.too_old_at now)
    && (not (password_is_required p) || p.password_verified)

-- A message view without content, or with one, between two ids.
abbrev pub message_between : ℕ → ℕ → List ℕ → Message
message_between source_id target_id content = record {
  info = record default_info { source_id = source_id; target_id = target_id };
  content = content;
}

-- What is sent to the connection.
abbrev pub Outgoing : Type 0
Outgoing = List (MessageId × Message)

-- `try_request_password`: `random` are the bytes that replace the nonce.
pub try_request_password : ℕ → ℕ → List ℕ → RouterPending → RouterPending × Outgoing × Bool
unfolding should_request_password
try_request_password own_id now random p =
    if should_request_password now p
    then (
      record p { nonce = random; should_request_pwd_at = now + 3 },
      (special req_rutr_pwd, message_between own_id p.id random) ∷ [],
      true,
    )
    else (p, [], false)

-- `_assign_id`: `next_id` is what `_get_next_id` returned.
unfoldable pub send_assigned_id : ℕ → ℕ → Outgoing
send_assigned_id own_id next_id =
    if next_id == 0 then [] else (special assign_id, message_between own_id next_id []) ∷ []

-- `matches_encrypted_shared_password` of the main context tells whether data is the encryption of
-- the nonce with the shared password.
abbrev pub Matches : Type 0
Matches = List ℕ → List ℕ → Bool

-- `_handle_msg`
unfoldable pub handle_msg :
    Matches → ℕ → ℕ → MessageId → Message → RouterPending → RouterPending × Outgoing × Bool
unfolding send_assigned_id
handle_msg matches own_id next_id (special request_id) m p =
    (p, send_assigned_id own_id next_id, true)
handle_msg matches own_id next_id (special ann_endpt_id) m p =
    (record p { id = m.info.source_id; maybe_router = false }, [], true)
handle_msg matches own_id next_id (special announce_id) m p =
    (record p { id = m.info.source_id }, [], true)
handle_msg matches own_id next_id (special enc_rutr_pwd) m p =
    (if matches p.nonce m.content then record p { password_verified = true } else p, [], true)
handle_msg matches own_id next_id msg_id m p = (p, [], false)
