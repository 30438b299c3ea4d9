-- ===== src/Router/Ids/Faults.antt =====
-- `get_next_id` (source/modules/eagine/core/router_impl.cpp) when all ids are in use, and when the
-- sequence has left the range.
use mathlib.Core.Path.{ap₂}
use eagine_msgbus.Prelude.{
  ℕ, zero, suc, ◌+◌, ◌^◌, ◌≤◌, ◌<◌, ◌≡◌, refl, Bool, true, false, Option, none, some, arith, dec_lt,
  ◌∙◌, ap,
}
use eagine_msgbus.Router.Ids.{RouterIds, next, search_id, get_next_id}
use eagine_msgbus.Router.Ids.Found.{at, search-forward, search-wrap}

module _ (has_node_id : ℕ → Bool) (ids : RouterIds) (small : ids.id_end < 2 ^ 64) where
  hangs :
      (fuel n : ℕ)
      → ((x : ℕ) → ids.id_base < x → x < ids.id_end → has_node_id x ≡ true)
      → ids.id_base < n
      → n < ids.id_end
      → search_id fuel has_node_id (ids.id_base + 1) (at ids n) ≡ none
  unfolding search_id
  hangs zero n used b e = refl
  hangs (suc fuel) n used b e = elim (dec_lt (n + 1) ids.id_end) [
    | yes inside ↦
        search-forward has_node_id ids small fuel (ids.id_base + 1) n (used n b e) inside
          (omega arith)
        ∙ hangs fuel (n + 1) used (omega arith) inside
    | no last ↦
        search-wrap has_node_id ids small fuel (ids.id_base + 1) n (used n b e) (omega arith) b
        ∙ hangs fuel (ids.id_base + 1) used (omega arith) (omega arith)
  ]

  -- If every id of the range is in use and the sequence stands at the first one, the loop never ends:
  -- the wrap to the first id skips the comparison with the start, and no amount of fuel is enough.
  pub get_next_id_hangs :
      (fuel : ℕ)
      → ((x : ℕ) → ids.id_base < x → x < ids.id_end → has_node_id x ≡ true)
      → ids.id_sequence ≡ ids.id_base + 1
      → ids.id_sequence < ids.id_end
      → get_next_id fuel has_node_id ids ≡ none
  unfolding get_next_id
  get_next_id_hangs fuel used s e =
      ap (λ n. search_id fuel has_node_id n (at ids n)) s
      ∙ hangs fuel (ids.id_base + 1) used (omega arith) (omega arith)

-- The ids that a number of calls return, as long as the ids in use stay the same.
pub call_ids : ℕ → ℕ → (ℕ → Bool) → RouterIds → Option (RouterIds × ℕ)
call_ids zero fuel has_node_id ids = get_next_id fuel has_node_id ids
call_ids (suc calls) fuel has_node_id ids = elim (get_next_id fuel has_node_id ids) [
  | none ↦ none
  | some (ids', _) ↦ call_ids calls fuel has_node_id ids'
]

module _ (has_node_id : ℕ → Bool) where
  beyond :
      (fuel : ℕ) (ids : RouterIds)
      → has_node_id ids.id_sequence ≡ false
      → get_next_id (suc fuel) has_node_id ids
        ≡ some (record ids { id_sequence = next ids.id_sequence }, ids.id_sequence)
  unfolding get_next_id
  beyond fuel ids h = rw (h, search_id) refl

  -- Once the sequence has reached the end of the range and no node has an id beyond it, every
  -- further call returns the next id beyond the range: there is no way back, whichever ids of the
  -- range are free.
  pub get_next_id_leaves :
      (calls fuel : ℕ) (ids : RouterIds)
      → ((x : ℕ) → ids.id_end ≤ x → has_node_id x ≡ false)
      → ids.id_end ≤ ids.id_sequence
      → ids.id_sequence + calls + 1 < 2 ^ 64
      → call_ids calls (suc fuel) has_node_id ids
        ≡ some (record ids { id_sequence = ids.id_sequence + calls + 1 }, ids.id_sequence + calls)
  unfolding call_ids
  get_next_id_leaves zero fuel ids free s h =
      let q = ids.id_sequence in
      beyond fuel ids (free q s)
      ∙ ap₂ {A = ℕ} {B = ℕ} (λ a b. some (record ids { id_sequence = a }, b)) {x = next q}
          {y = q + 0 + 1} {u = q} {v = q + 0} (omega arith) (omega arith)
  get_next_id_leaves (suc calls) fuel ids free s h =
      let q = ids.id_sequence in
      rw (beyond fuel ids (free q s), call_ids)
        (get_next_id_leaves calls fuel (record ids { id_sequence = next q }) free (omega arith)
            (omega arith)
          ∙ ap₂ {A = ℕ} {B = ℕ} (λ a b. some (record ids { id_sequence = a }, b))
              {x = next q + calls + 1} {y = q + suc calls + 1} {u = next q + calls}
              {v = q + suc calls} (omega arith) (omega arith))
