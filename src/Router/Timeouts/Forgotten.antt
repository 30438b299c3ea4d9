-- ===== src/Router/Timeouts/Forgotten.antt =====
-- What is left of an outdated endpoint (source/modules/eagine/core/router_impl.cpp).
use eagine_msgbus.Prelude.{
  ℕ, ◌≡◌, refl, true, none, some, List, [], ◌∷◌, ◌==◌, if◌then◌else◌, arith, Bool-cases, inl, inr,
  ap,
}
use eagine_msgbus.Router.Subscriptions.{EndpointInfo}
use eagine_msgbus.Router.Nodes.{RouterNodes, find, find_outgoing, erase_key, erase_where, mark_lost}
use eagine_msgbus.Router.Timeouts.{is_outdated, forget_outdated, remove_timeouted}
use eagine_msgbus.Router.Pending.{RouterPending}
use mathlib.Core.Path.{subst}

pub find-erase_key_self :
    {V : Type 0} (id : ℕ) (es : List (ℕ × V)) → find (erase_key id es) id ≡ none
unfolding find erase_key
find-erase_key_self id [] = refl
find-erase_key_self id (e ∷ es) = ground (arith, find-erase_key_self id es)

find-erase_key-none :
    {V : Type 0} (id x : ℕ) (es : List (ℕ × V)) → find es x ≡ none → find (erase_key id es) x ≡ none
unfolding find erase_key
find-erase_key-none id x [] h = refl
find-erase_key-none id x (e ∷ es) h = ground (arith, find-erase_key-none id x es)

module _ (now : ℕ) where
  infos-forget_outdated :
      (es : List (ℕ × EndpointInfo)) (idx lost : List (ℕ × ℕ))
      → (forget_outdated now es idx lost).infos ≡ erase_where (λ e. is_outdated now e.1) es
  unfolding forget_outdated erase_where
  infos-forget_outdated [] idx lost = refl
  infos-forget_outdated (e ∷ es) idx lost =
      ap (λ kept. if is_outdated now e.1 then kept else e ∷ kept)
        (infos-forget_outdated es (if is_outdated now e.1 then erase_key e.0 idx else idx)
          (if is_outdated now e.1 then mark_lost now e.0 lost else lost))

  none-forget_outdated :
      (es : List (ℕ × EndpointInfo)) (idx lost : List (ℕ × ℕ)) (x : ℕ)
      → find idx x ≡ none
      → find (forget_outdated now es idx lost).idx x ≡ none
  unfolding forget_outdated
  none-forget_outdated [] idx lost x h = h
  none-forget_outdated (e ∷ es) idx lost x h =
      none-forget_outdated es (if is_outdated now e.1 then erase_key e.0 idx else idx)
        (if is_outdated now e.1 then mark_lost now e.0 lost else lost) x
        (ground (arith, find-erase_key-none e.0 x idx h))

  idx-forget_outdated :
      (es : List (ℕ × EndpointInfo)) (idx lost : List (ℕ × ℕ)) (x : ℕ) (info : EndpointInfo)
      → find es x ≡ some info
      → is_outdated now info ≡ true
      → find (forget_outdated now es idx lost).idx x ≡ none
  unfolding forget_outdated find
  idx-forget_outdated [] idx lost x info f o = ground arith
  idx-forget_outdated (e ∷ es) idx lost x info f o = elim (Bool-cases (e.0 == x)) [
    | inl here ↦
        let gone : is_outdated now e.1 ≡ true = ground arith in
        none-forget_outdated es (if is_outdated now e.1 then erase_key e.0 idx else idx)
          (if is_outdated now e.1 then mark_lost now e.0 lost else lost) x
          (rw (gone) (
            subst (λ z. find (erase_key z idx) x ≡ none) {x = x} {y = e.0} (ground arith)
              (find-erase_key_self x idx)))
    | inr there ↦
        idx-forget_outdated es (if is_outdated now e.1 then erase_key e.0 idx else idx)
          (if is_outdated now e.1 then mark_lost now e.0 lost else lost) x info (ground arith) o
  ]

module _ (now : ℕ) (pending : List RouterPending) (ns : RouterNodes) where
  -- After the removal the router has exactly the infos that are not outdated, unchanged and in their
  -- order.
  pub remove_timeouted-infos :
      (remove_timeouted now pending ns).1.endpoint_infos
      ≡ erase_where (λ e. is_outdated now e.1) ns.endpoint_infos
  unfolding remove_timeouted
  remove_timeouted-infos =
      infos-forget_outdated now ns.endpoint_infos ns.endpoint_idx ns.recently_disconnected

  -- An endpoint whose info is outdated has no way to it after the removal.
  pub remove_timeouted-find_outgoing :
      (x : ℕ) (info : EndpointInfo)
      → find ns.endpoint_infos x ≡ some info
      → is_outdated now info ≡ true
      → find_outgoing (remove_timeouted now pending ns).1 x ≡ 0
  unfolding remove_timeouted find_outgoing
  remove_timeouted-find_outgoing x info f o =
      rw
        (
          idx-forget_outdated now ns.endpoint_infos ns.endpoint_idx ns.recently_disconnected x info
              f o,
          find_outgoing,
        )
        refl
