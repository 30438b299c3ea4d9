-- ===== src/Router/Ids.antt =====
-- `router_ids` of source/modules/eagine/core/router.cpp and router_impl.cpp: the ids that a router
-- hands out to its nodes.
pub mod Found
pub mod Faults
use eagine_msgbus.Prelude.{
  ℕ, zero, suc, ◌+◌, ◌%◌, ◌^◌, Bool, true, false, Option, none, some, leb, ◌==◌, if◌then◌else◌,
}

pub record RouterIds : Type 0 where
  pub id_base : ℕ
  pub id_end : ℕ
  pub id_sequence : ℕ

-- An id is a `std::uint64_t`.
abbrev pub next : ℕ → ℕ
next id = (id + 1) % 2 ^ 64

-- `setup_from_config`, with the values that the configuration and the system give or their defaults.
pub setup_from_config : ℕ → ℕ → ℕ → RouterIds
setup_from_config id_count id_major id_minor =
    let id_base = (id_major + id_minor) % 2 ^ 64 in
    if id_base == 0
    then record { id_base = 1; id_end = id_count; id_sequence = next 1 }
    else record {
      id_base = id_base;
      id_end = (id_base + id_count) % 2 ^ 64;
      id_sequence = next id_base;
    }

-- The loop of `get_next_id`; `has_node_id` tells the ids in use, and `none` means that the fuel ran
-- out. The result is the id with the state after the call.
pub search_id : ℕ → (ℕ → Bool) → ℕ → RouterIds → Option (RouterIds × ℕ)
search_id zero has_node_id seq_orig ids = none
search_id (suc fuel) has_node_id seq_orig ids =
    let wrapped =
      search_id fuel has_node_id seq_orig (record ids { id_sequence = next ids.id_base }) in
    let forward =
      search_id fuel has_node_id seq_orig (record ids { id_sequence = next ids.id_sequence }) in
    if has_node_id ids.id_sequence
    then (if leb ids.id_end (next ids.id_sequence)
        then wrapped
        else if next ids.id_sequence == seq_orig
        then some (record ids { id_sequence = next ids.id_sequence }, 0)
        else forward)
    else some (record ids { id_sequence = next ids.id_sequence }, ids.id_sequence)

pub get_next_id : ℕ → (ℕ → Bool) → RouterIds → Option (RouterIds × ℕ)
unfolding search_id
get_next_id fuel has_node_id ids = search_id fuel has_node_id ids.id_sequence ids
