-- ===== src/Router/Subscriptions.antt =====
-- The lists of message ids and `router_endpoint_info`
-- (source/modules/eagine/core/router.cpp and router_impl.cpp).
pub mod Lists
pub mod Valid
use eagine_msgbus.Prelude.{ℕ, ◌+◌, Bool, true, false, not, List, [], ◌∷◌, ◌++◌, ◌==◌, if◌then◌else◌}
use eagine_msgbus.Router.Ident.{MessageId, same}

-- `message_id_list_contains`, with `std::find`
unfoldable pub contains : List MessageId → MessageId → Bool
contains [] entry = false
contains (m ∷ list) entry = let rest = contains list entry in if same m entry then true else rest

-- `message_id_list_add`
unfoldable pub add : List MessageId → MessageId → List MessageId
add list entry = if contains list entry then list else list ++ entry ∷ []

-- `message_id_list_remove`: the first entry that is found.
unfoldable pub remove : List MessageId → MessageId → List MessageId
remove [] entry = []
remove (m ∷ list) entry = let rest = remove list entry in if same m entry then list else m ∷ rest

-- `router_endpoint_info`; `outdated_at` is when its timeout expires.
pub record EndpointInfo : Type 0 where
  pub subscriptions : List MessageId
  pub unsubscriptions : List MessageId
  pub instance_id : ℕ
  pub outdated_at : ℕ

unfoldable pub add_subscription : MessageId → EndpointInfo → EndpointInfo
add_subscription msg_id info = record info {
  subscriptions = add info.subscriptions msg_id;
  unsubscriptions = remove info.unsubscriptions msg_id;
}

unfoldable pub remove_subscription : MessageId → EndpointInfo → EndpointInfo
remove_subscription msg_id info = record info {
  subscriptions = remove info.subscriptions msg_id;
  unsubscriptions = add info.unsubscriptions msg_id;
}

unfoldable pub is_subscribed_to : EndpointInfo → MessageId → Bool
is_subscribed_to info msg_id = contains info.subscriptions msg_id

unfoldable pub is_not_subscribed_to : EndpointInfo → MessageId → Bool
is_not_subscribed_to info msg_id = contains info.unsubscriptions msg_id

unfoldable pub has_instance_id : EndpointInfo → Bool
has_instance_id info = not (info.instance_id == 0)

-- `subscriptions()`
unfoldable pub known_subscriptions : EndpointInfo → List MessageId
known_subscriptions info = if has_instance_id info then info.subscriptions else []

-- `assign_instance_id`, at the time `now` and with the timeout of the member `_is_outdated`: a new
-- instance of the endpoint starts without subscriptions.
unfoldable pub assign_instance_id : ℕ → ℕ → ℕ → EndpointInfo → EndpointInfo
assign_instance_id now timeout sequence_no info =
    let kept = record info { outdated_at = now + timeout } in
    if info.instance_id == sequence_no
    then kept
    else record kept { instance_id = sequence_no; subscriptions = []; unsubscriptions = [] }
