-- ===== src/Router/Subscriptions/Valid.antt =====
-- The two lists of `router_endpoint_info` stay sets without a common element
-- (source/modules/eagine/core/router.cpp and router_impl.cpp).
use eagine_msgbus.Prelude.{
  ℕ, ◌≡◌, ◌≢◌, refl, true, false, [], ◌==◌, Bool-cases, inl, inr, sym, ◌∙◌, if◌then◌else◌,
}
use mathlib.Core.Bool.{false≢true}
use mathlib.Core.Path.{subst}
use eagine_msgbus.Router.Ident.{MessageId, MessageId-discrete, same, same_refl, ≢→same}
use eagine_msgbus.Router.Subscriptions.Lists.{
  Unique, contains-add_self, contains-add_other, contains-remove_self, contains-remove_other,
  add-Unique, remove-Unique,
}
use eagine_msgbus.Router.Subscriptions.{
  EndpointInfo, contains, add_subscription, remove_subscription, is_subscribed_to,
  is_not_subscribed_to, assign_instance_id,
}

-- What the router does to the info of an endpoint.
pub data Step : EndpointInfo → EndpointInfo → Type 0 where
  subscribes : {info : EndpointInfo} (m : MessageId) → Step info (add_subscription m info)
  unsubscribes : {info : EndpointInfo} (m : MessageId) → Step info (remove_subscription m info)
  assigns :
      {info : EndpointInfo} (now timeout sequence_no : ℕ)
      → Step info (assign_instance_id now timeout sequence_no info)

pub data Reachable : EndpointInfo → Type 0 where
  initial :
      (outdated_at : ℕ)
      → Reachable record {
        subscriptions = [];
        unsubscriptions = [];
        instance_id = 0;
        outdated_at = outdated_at;
      }
  after : {info info' : EndpointInfo} → Reachable info → Step info info' → Reachable info'

unfoldable pub IsConsistent : EndpointInfo → Type 0
IsConsistent info =
    Unique info.subscriptions
    × Unique info.unsubscriptions
    × ((m : MessageId) → is_subscribed_to info m ≡ true → is_not_subscribed_to info m ≡ false)

module _ (info : EndpointInfo) (m : MessageId) where
  add_subscription_parts :
      IsConsistent info
      → (is_subscribed_to (add_subscription m info) m ≡ true)
        × (is_not_subscribed_to (add_subscription m info) m ≡ false)
        × ((x : MessageId)
            → m ≢ x
            → (is_subscribed_to (add_subscription m info) x ≡ is_subscribed_to info x)
              × (is_not_subscribed_to (add_subscription m info) x ≡ is_not_subscribed_to info x))
  unfolding IsConsistent add_subscription is_subscribed_to is_not_subscribed_to
  add_subscription_parts (us, uu, d) = (
    contains-add_self info.subscriptions m,
    contains-remove_self info.unsubscriptions m uu,
    λ x ne. (
      contains-add_other info.subscriptions m x ne,
      contains-remove_other info.unsubscriptions m x ne,
    ),
  )

  remove_subscription_parts :
      IsConsistent info
      → (is_subscribed_to (remove_subscription m info) m ≡ false)
        × (is_not_subscribed_to (remove_subscription m info) m ≡ true)
        × ((x : MessageId)
            → m ≢ x
            → (is_subscribed_to (remove_subscription m info) x ≡ is_subscribed_to info x)
              × (is_not_subscribed_to (remove_subscription m info) x ≡ is_not_subscribed_to info x))
  unfolding IsConsistent remove_subscription is_subscribed_to is_not_subscribed_to
  remove_subscription_parts (us, uu, d) = (
    contains-remove_self info.subscriptions m us,
    contains-add_self info.unsubscriptions m,
    λ x ne. (
      contains-remove_other info.subscriptions m x ne,
      contains-add_other info.unsubscriptions m x ne,
    ),
  )

  -- After a subscription the router knows the endpoint as subscribed to the message id and no
  -- longer as not subscribed; of every other id it knows what it knew.
  pub add_subscription_lem :
      (x : MessageId)
      → IsConsistent info
      → (is_subscribed_to (add_subscription m info) x
          ≡ (if same m x then true else is_subscribed_to info x))
        × (is_not_subscribed_to (add_subscription m info) x
            ≡ (if same m x then false else is_not_subscribed_to info x))
  add_subscription_lem x c =
      let (on, off, same_else) = add_subscription_parts c in
      elim (MessageId-discrete m x) [
        | yes p ↦
            let e : same m x ≡ true = subst (λ z. same m z ≡ true) p (same_refl m) in
            (
              rw (e) (subst (λ z. is_subscribed_to (add_subscription m info) z ≡ true) p on),
              rw (e) (subst (λ z. is_not_subscribed_to (add_subscription m info) z ≡ false) p off),
            )
        | no ne ↦ (rw (≢→same m x ne) (same_else x ne).0, rw (≢→same m x ne) (same_else x ne).1)
      ]

  -- After an end of subscription the router knows the endpoint as not subscribed to the message id
  -- and no longer as subscribed; of every other id it knows what it knew.
  pub remove_subscription_lem :
      (x : MessageId)
      → IsConsistent info
      → (is_subscribed_to (remove_subscription m info) x
          ≡ (if same m x then false else is_subscribed_to info x))
        × (is_not_subscribed_to (remove_subscription m info) x
            ≡ (if same m x then true else is_not_subscribed_to info x))
  remove_subscription_lem x c =
      let (off, on, same_else) = remove_subscription_parts c in
      elim (MessageId-discrete m x) [
        | yes p ↦
            let e : same m x ≡ true = subst (λ z. same m z ≡ true) p (same_refl m) in
            (
              rw (e) (subst (λ z. is_subscribed_to (remove_subscription m info) z ≡ false) p off),
              rw (e) (subst (λ z. is_not_subscribed_to (remove_subscription m info) z ≡ true) p on),
            )
        | no ne ↦ (rw (≢→same m x ne) (same_else x ne).0, rw (≢→same m x ne) (same_else x ne).1)
      ]

  add-apart :
      IsConsistent info
      → (x : MessageId) → is_subscribed_to (add_subscription m info) x ≡ true
      → is_not_subscribed_to (add_subscription m info) x ≡ false
  unfolding IsConsistent
  add-apart (us, uu, d) x h =
      let (_, off, same_else) = add_subscription_parts (us, uu, d) in
      elim (MessageId-discrete m x) [
        | yes p ↦ rw (← p) off
        | no ne ↦ (same_else x ne).1 ∙ d x (sym (same_else x ne).0 ∙ h)
      ]

  remove-apart :
      IsConsistent info
      → (x : MessageId) → is_subscribed_to (remove_subscription m info) x ≡ true
      → is_not_subscribed_to (remove_subscription m info) x ≡ false
  unfolding IsConsistent
  remove-apart (us, uu, d) x h =
      let (off, _, same_else) = remove_subscription_parts (us, uu, d) in
      elim (MessageId-discrete m x) [
        | yes p ↦ absurd (
            false≢true (
              sym off
              ∙ subst (λ z. is_subscribed_to (remove_subscription m info) z ≡ true) (sym p) h))
        | no ne ↦ (same_else x ne).1 ∙ d x (sym (same_else x ne).0 ∙ h)
      ]

  Step-add : IsConsistent info → IsConsistent (add_subscription m info)
  unfolding IsConsistent add_subscription
  Step-add (us, uu, d) = (
    add-Unique info.subscriptions m us,
    remove-Unique info.unsubscriptions m uu,
    add-apart (us, uu, d),
  )

  Step-remove : IsConsistent info → IsConsistent (remove_subscription m info)
  unfolding IsConsistent remove_subscription
  Step-remove (us, uu, d) = (
    remove-Unique info.subscriptions m us,
    add-Unique info.unsubscriptions m uu,
    remove-apart (us, uu, d),
  )

Step-assign :
    (info : EndpointInfo) (now timeout n : ℕ)
    → IsConsistent info
    → IsConsistent (assign_instance_id now timeout n info)
unfolding IsConsistent assign_instance_id is_subscribed_to is_not_subscribed_to Unique contains
Step-assign info now timeout n c = elim (Bool-cases (info.instance_id == n)) [
  | inl e ↦ rw (e) c
  | inr e ↦ rw (e) (tt, tt, λ m h. refl)
]

Step-IsConsistent :
    {info info' : EndpointInfo} → Step info info' → IsConsistent info → IsConsistent info'
Step-IsConsistent (subscribes {info} m) c = Step-add info m c
Step-IsConsistent (unsubscribes {info} m) c = Step-remove info m c
Step-IsConsistent (assigns {info} now timeout n) c = Step-assign info now timeout n c

-- In every state that the operations reach no id stands twice in a list, and none in both.
pub Reachable-IsConsistent : {info : EndpointInfo} → Reachable info → IsConsistent info
unfolding IsConsistent Unique is_subscribed_to is_not_subscribed_to contains
Reachable-IsConsistent (initial o) = (tt, tt, λ m h. refl)
Reachable-IsConsistent (after r s) = Step-IsConsistent s (Reachable-IsConsistent r)
