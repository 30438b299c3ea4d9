-- ===== src/Router/Ids/Found.antt =====
-- `get_next_id` (source/modules/eagine/core/router_impl.cpp) within its range of ids.
use eagine_msgbus.Prelude.{
  ℕ, zero, suc, ◌+◌, ◌^◌, ◌≤◌, ◌<◌, ◌≡◌, inl, inr, refl, Bool, true, false, Option, some, arith,
  Bool-cases, dec_le, dec_lt, gt→leb, le→leb, ne→==, ◌≢◌, ◌∙◌,
}
use eagine_msgbus.Router.Ids.{RouterIds, next, search_id, get_next_id}

abbrev pub at : RouterIds → ℕ → RouterIds
at ids n = record ids { id_sequence = n }

-- A call returned the id `n` and goes on after it the next time.
abbrev pub Returns : RouterIds → Option (RouterIds × ℕ) → ℕ → Type 0
Returns ids r n = r ≡ some (record ids { id_sequence = next n }, n)

module _ (has_node_id : ℕ → Bool) (ids : RouterIds) (small : ids.id_end < 2 ^ 64) where
  -- One round, when the id is in use.
  pub search-free :
      (fuel orig n : ℕ)
      → has_node_id n ≡ false
      → Returns ids (search_id (suc fuel) has_node_id orig (at ids n)) n
  unfolding search_id
  search-free fuel orig n h = rw (h, search_id) refl

  pub search-forward :
      (fuel orig n : ℕ)
      → has_node_id n ≡ true
      → n + 1 < ids.id_end
      → n + 1 ≢ orig
      → search_id (suc fuel) has_node_id orig (at ids n)
        ≡ search_id fuel has_node_id orig (at ids (n + 1))
  unfolding search_id
  search-forward fuel orig n h k other =
      let e : next n ≡ n + 1 = omega arith in
      rw (h, search_id, e, gt→leb ids.id_end (n + 1) k, ne→== (n + 1) orig other) refl

  pub search-wrap :
      (fuel orig n : ℕ)
      → has_node_id n ≡ true
      → n + 1 ≡ ids.id_end
      → ids.id_base < n
      → search_id (suc fuel) has_node_id orig (at ids n)
        ≡ search_id fuel has_node_id orig (at ids (ids.id_base + 1))
  unfolding search_id
  search-wrap fuel orig n h k other =
      let e : next n ≡ n + 1 = omega arith in
      let e' : next ids.id_base ≡ ids.id_base + 1 = omega arith in
      rw (h, search_id, e, e', le→leb ids.id_end (n + 1) (omega arith)) refl

  -- A free id of the range.
  abbrev IsFree : ℕ → Type 0
  IsFree n = (ids.id_base < n) × (n < ids.id_end) × (has_node_id n ≡ false)

  climb :
      (fuel orig n x : ℕ)
      → ids.id_base < n
      → n ≤ x
      → x < ids.id_end
      → has_node_id x ≡ false
      → (n < orig → x < orig)
      → x < fuel + n
      → (id : ℕ) × IsFree id × Returns ids (search_id fuel has_node_id orig (at ids n)) id
  climb zero orig n x b h k free other f = absurd (omega arith)
  climb (suc fuel) orig n x b h k free other f = elim (Bool-cases (has_node_id n)) [
    | inl used ↦
        let below : n < x = ground arith in
        let (id, found, returned) =
          climb fuel orig (n + 1) x (omega arith) (omega arith) k free (λ l. other (omega arith))
            (omega arith) in
        (
          id,
          found,
          search-forward fuel orig n used (omega arith)
                (λ e. absurd (let l : x < orig = other (omega arith) in omega arith))
              ∙ returned,
        )
    | inr unused ↦ (n, (b, omega arith, unused), search-free fuel orig n unused)
  ]

  around :
      (fuel orig n x : ℕ)
      → ids.id_base < x
      → x < orig
      → orig ≤ n
      → n < ids.id_end
      → has_node_id x ≡ false
      → ids.id_end + x < fuel + n
      → (id : ℕ) × IsFree id × Returns ids (search_id fuel has_node_id orig (at ids n)) id
  around zero orig n x b h k l free f = absurd (omega arith)
  around (suc fuel) orig n x b h k l free f = elim (Bool-cases (has_node_id n)) [
    | inl used ↦ elim (dec_lt (n + 1) ids.id_end) [
      | yes inside ↦
          let (id, found, returned) =
            around fuel orig (n + 1) x b h (omega arith) inside free (omega arith) in
          (id, found, search-forward fuel orig n used inside (omega arith) ∙ returned)
      | no last ↦
          let (id, found, returned) =
            climb fuel orig (ids.id_base + 1) x (omega arith) (omega arith) (omega arith) free
              (λ _. h) (omega arith) in
          (id, found, search-wrap fuel orig n used (omega arith) (omega arith) ∙ returned)
    ]
    | inr unused ↦ (n, (omega arith, l, unused), search-free fuel orig n unused)
  ]

  -- If some id of the range is free and the sequence stands inside the range, then with enough fuel
  -- the call returns a free id of the range, and the sequence goes on behind it.
  pub get_next_id-IsFree :
      (fuel x : ℕ)
      → ids.id_base < ids.id_sequence
      → ids.id_sequence < ids.id_end
      → IsFree x
      → ids.id_end + ids.id_end < fuel
      → (id : ℕ) × IsFree id × Returns ids (get_next_id fuel has_node_id ids) id
  unfolding get_next_id
  get_next_id-IsFree fuel x b e free f = elim (dec_le ids.id_sequence x) [
    | yes h ↦
        climb fuel ids.id_sequence ids.id_sequence x b h free.1 free.2 (λ l. absurd (omega arith))
          (omega arith)
    | no h ↦
        around fuel ids.id_sequence ids.id_sequence x free.0 (omega arith) (omega arith) e free.2
          (omega arith)
  ]
