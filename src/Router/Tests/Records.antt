-- ===== src/Router/Tests/Records.antt =====
-- Runs of what the router keeps about endpoints, connections and ids
-- (source/modules/eagine/core/router_impl.cpp).
use eagine_msgbus.Prelude.{
  ℕ, ◌+◌, ◌<◌, ◌≡◌, refl, Bool, true, false, Option, none, some, List, [], ◌∷◌, ◌==◌, ◌||◌,
  if◌then◌else◌, arith,
}
use eagine_msgbus.Router.Ids.{RouterIds, get_next_id}
use eagine_msgbus.Router.Ids.Found.{Returns, get_next_id-IsFree}
use eagine_msgbus.Router.Ids.Faults.{get_next_id_hangs, call_ids, get_next_id_leaves}
use eagine_msgbus.Router.Ident.{MessageId, special, user, enc_rutr_pwd, ann_endpt_id}
use eagine_msgbus.Router.Subscriptions.{
  EndpointInfo, add_subscription, is_subscribed_to, is_not_subscribed_to, contains,
}
use eagine_msgbus.Router.Subscriptions.Lists.{Unique}
use eagine_msgbus.Router.Subscriptions.Valid.{
  IsConsistent, Reachable, initial, after, subscribes, Reachable-IsConsistent,
}
use eagine_msgbus.Router.Routing.{Router}
use eagine_msgbus.Router.Pending.{
  RouterPending, new_pending, handle_msg, can_be_adopted, password_is_required, zeros,
}
use eagine_msgbus.Router.Pending.Password.{Run, accepted, received, proves, adopted-proved}
use eagine_msgbus.Router.Tests.{nodes, router, message_to, id}

abbrev known : EndpointInfo
known = record { subscriptions = id ∷ []; unsubscriptions = []; instance_id = 3; outdated_at = 90 }

abbrev fresh : EndpointInfo
fresh = record { subscriptions = []; unsubscriptions = []; instance_id = 0; outdated_at = 90 }

abbrev reached : Reachable (add_subscription id fresh)
reached = after (initial 90) (subscribes id)

reached-IsConsistent : IsConsistent (add_subscription id fresh)
reached-IsConsistent = Reachable-IsConsistent reached

abbrev other : MessageId
other = user 1 3

abbrev matches : List ℕ → List ℕ → Bool
matches nonce content = true

abbrev announced : RouterPending
announced =
    (handle_msg matches 1 0 (special ann_endpt_id) (message_to 1) (new_pending true false 70 0)).0

abbrev seen : Bool
seen =
    (false || proves matches (special ann_endpt_id) (message_to 1) (new_pending true false 70 0))
    || proves matches (special enc_rutr_pwd) (message_to 1) announced

proof_run :
    Run matches (handle_msg matches 1 0 (special enc_rutr_pwd) (message_to 1) announced).0 seen
proof_run =
    received 1 0 (special enc_rutr_pwd) (message_to 1)
      (received 1 0 (special ann_endpt_id) (message_to 1) (accepted 70 0))

adopted-proved_example : seen ≡ true
unfolding can_be_adopted handle_msg new_pending password_is_required zeros
adopted-proved_example = adopted-proved 5 proof_run refl

abbrev informed : Router
informed = record router { nodes = record nodes { endpoint_infos = (9, known) ∷ [] } }

known-IsConsistent : IsConsistent known
unfolding IsConsistent Unique is_subscribed_to is_not_subscribed_to contains
known-IsConsistent = ((refl, tt), tt, λ m h. refl)

abbrev deserialize : List ℕ → Option MessageId
deserialize content = some id

abbrev ids : RouterIds
ids = record { id_base = 0; id_end = 3; id_sequence = 1 }

abbrev used : ℕ → Bool
used x = if x == 1 then true else x == 2

get_next_id_hangs_example : get_next_id 7 used ids ≡ none
get_next_id_hangs_example =
    get_next_id_hangs used ids (omega arith) 7 (λ x b e. ground arith) refl (omega arith)

get_next_id_leaves_example :
    call_ids 2 5 used (record ids { id_sequence = 3 })
    ≡ some (record ids { id_sequence = 3 + 2 + 1 }, 3 + 2)
get_next_id_leaves_example =
    get_next_id_leaves used 2 4 (record ids { id_sequence = 3 }) (λ x h. ground arith) (omega arith)
      (omega arith)

abbrev first_used : ℕ → Bool
first_used x = x == 1

get_next_id-IsFree_example :
    (n : ℕ) × ((0 < n) × (n < 3) × (first_used n ≡ false))
    × Returns ids (get_next_id 7 first_used ids) n
get_next_id-IsFree_example =
    get_next_id-IsFree first_used ids (omega arith) 7 2 (omega arith) (omega arith)
      (omega arith, omega arith, refl) (omega arith)
