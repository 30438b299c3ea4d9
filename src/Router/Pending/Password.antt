-- ===== src/Router/Pending/Password.antt =====
-- Which pending connections the router adopts
-- (source/modules/eagine/core/router_impl.cpp).
use eagine_msgbus.Prelude.{
  ℕ, ◌≡◌, refl, Bool, true, false, ◌||◌, List, ◌∷◌, arith, Bool-cases, inl, inr, length, ap, ◌∙◌,
}
use eagine_msgbus.Message.Info.{Message}
use eagine_msgbus.Router.Ident.{MessageId, special, enc_rutr_pwd}
use eagine_msgbus.Router.Pending.{
  RouterPending, Matches, new_pending, handle_msg, try_request_password, can_be_adopted,
  password_is_required,
}

-- A message that proves the knowledge of the password.
unfoldable pub proves : Matches → MessageId → Message → RouterPending → Bool
proves matches (special enc_rutr_pwd) m p = matches p.nonce m.content
proves matches msg_id m p = false

-- A connection that needs a password, after any messages and any requests, and whether one of the
-- messages was a proof. Random bytes fill the nonce, so it keeps its length.
pub data Run (matches : Matches) : RouterPending → Bool → Type 0 where
  accepted : (connection now : ℕ) → Run matches (new_pending true false connection now) false
  received :
      {p : RouterPending} {proved : Bool} (own_id next_id : ℕ) (msg_id : MessageId) (m : Message)
      → Run matches p proved
      → Run matches
          (handle_msg matches own_id next_id msg_id m p).0
          (proved || proves matches msg_id m p)
  requested :
      {p : RouterPending} {proved : Bool} (own_id now : ℕ) (b : ℕ) (bs : List ℕ)
      → length (b ∷ bs) ≡ length p.nonce
      → Run matches p proved
      → Run matches (try_request_password own_id now (b ∷ bs) p).0 proved

or_false : (b : Bool) → b ≡ (b || false)
or_false true = refl
or_false false = refl

or_true : (b : Bool) → true ≡ (b || true)
or_true true = refl
or_true false = refl

handle_msg-nonce :
    (matches : Matches) (own_id next_id : ℕ) (msg_id : MessageId) (m : Message) (p : RouterPending)
    → password_is_required (handle_msg matches own_id next_id msg_id m p).0 ≡ password_is_required p
unfolding handle_msg password_is_required
handle_msg-nonce matches own_id next_id (special enc_rutr_pwd) m p = ground arith
handle_msg-nonce matches own_id next_id msg_id m p = refl

request-required :
    (own_id now b : ℕ) (bs : List ℕ) (p : RouterPending)
    → password_is_required p ≡ true
    → password_is_required (try_request_password own_id now (b ∷ bs) p).0 ≡ true
unfolding try_request_password password_is_required
request-required own_id now b bs p h = ground arith

request-verified :
    (own_id now : ℕ) (random : List ℕ) (p : RouterPending)
    → (try_request_password own_id now random p).0.password_verified ≡ p.password_verified
unfolding try_request_password
request-verified own_id now random p = ground arith

-- A password counts as verified only by a proof.
handle_msg-verified :
    (matches : Matches) (own_id next_id : ℕ) (msg_id : MessageId) (m : Message) (p : RouterPending)
    → (handle_msg matches own_id next_id msg_id m p).0.password_verified
      ≡ (p.password_verified || proves matches msg_id m p)
unfolding handle_msg proves
handle_msg-verified matches own_id next_id (special enc_rutr_pwd) m p =
    elim (Bool-cases (matches p.nonce m.content)) [
      | inl e ↦ rw (e) (or_true p.password_verified)
      | inr e ↦ rw (e) (or_false p.password_verified)
    ]
handle_msg-verified matches own_id next_id msg_id m p = or_false p.password_verified

Run-required :
    {matches : Matches} {p : RouterPending} {proved : Bool}
    → Run matches p proved
    → password_is_required p ≡ true
unfolding new_pending password_is_required
Run-required (accepted connection now) = refl
Run-required {matches = matches} (received {p} own_id next_id msg_id m r) =
    handle_msg-nonce matches own_id next_id msg_id m p ∙ Run-required r
Run-required (requested {p} own_id now b bs h r) =
    request-required own_id now b bs p (Run-required r)

-- Whether the password counts as verified says exactly whether there was a proof.
pub Run-verified :
    {matches : Matches} {p : RouterPending} {proved : Bool}
    → Run matches p proved
    → p.password_verified ≡ proved
unfolding new_pending
Run-verified (accepted connection now) = refl
Run-verified {matches = matches} (received {p} {proved} own_id next_id msg_id m r) =
    handle_msg-verified matches own_id next_id msg_id m p
    ∙ ap (λ v. v || proves matches msg_id m p) (Run-verified r)
Run-verified (requested {p} own_id now b bs h r) =
    request-verified own_id now (b ∷ bs) p ∙ Run-verified r

-- Where a password is required, a connection that is not within the process is adopted only if it
-- proved the knowledge of the password: one of its messages was the encryption of the nonce that
-- the router held when the message came.
pub adopted-proved :
    {matches : Matches} {p : RouterPending} {proved : Bool} (now : ℕ)
    → Run matches p proved
    → can_be_adopted now p ≡ true
    → proved ≡ true
unfolding can_be_adopted
adopted-proved now r h = ground (arith, Run-required r, Run-verified r)
