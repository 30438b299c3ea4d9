-- ===== src/Router/Subscriptions/Lists.antt =====
-- The lists of message ids as sets (source/modules/eagine/core/router_impl.cpp).
use eagine_msgbus.Prelude.{
  ◌≡◌, ◌≢◌, refl, true, false, List, [], ◌∷◌, ◌++◌, arith, Bool-cases, inl, inr, if◌then◌else◌,
}
use eagine_msgbus.Router.Ident.{MessageId, same, same_refl, same→≡, ≢→same}
use eagine_msgbus.Router.Subscriptions.{contains, add, remove}

-- No id stands twice.
unfoldable pub Unique : List MessageId → Type 0
Unique [] = Unit
Unique (m ∷ list) = (contains list m ≡ false) × Unique list

contains-snoc :
    (list : List MessageId) (m x : MessageId)
    → contains (list ++ m ∷ []) x ≡ (if contains list x then true else same m x)
unfolding contains
contains-snoc [] m x = ground arith
contains-snoc (y ∷ list) m x = ground (arith, contains-snoc list m x)

pub contains-add_self : (list : List MessageId) (m : MessageId) → contains (add list m) m ≡ true
unfolding add
contains-add_self list m = ground (arith, contains-snoc list m m, same_refl m)

pub contains-add_other :
    (list : List MessageId) (m x : MessageId) → m ≢ x → contains (add list m) x ≡ contains list x
unfolding add
contains-add_other list m x ne = ground (arith, contains-snoc list m x, ≢→same m x ne)

pub contains-remove_other :
    (list : List MessageId) (m x : MessageId) → m ≢ x → contains (remove list m) x ≡ contains list x
unfolding remove contains
contains-remove_other [] m x ne = refl
contains-remove_other (y ∷ list) m x ne =
    ground (arith, contains-remove_other list m x ne, same→≡ y m, same→≡ y x, ≢→same m x ne)

pub contains-remove_self :
    (list : List MessageId) (m : MessageId) → Unique list → contains (remove list m) m ≡ false
unfolding remove contains Unique
contains-remove_self [] m u = refl
contains-remove_self (y ∷ list) m (f, u) = ground (arith, contains-remove_self list m u, same→≡ y m)

contains_of-remove :
    (list : List MessageId) (m x : MessageId)
    → contains list x ≡ false
    → contains (remove list m) x ≡ false
unfolding remove contains
contains_of-remove [] m x h = refl
contains_of-remove (y ∷ list) m x h = ground (arith, contains_of-remove list m x)

pub remove-Unique : (list : List MessageId) (m : MessageId) → Unique list → Unique (remove list m)
unfolding remove Unique
remove-Unique [] m u = u
remove-Unique (y ∷ list) m (f, u) =
    ground (arith, contains_of-remove list m y f, remove-Unique list m u)

snoc-Unique :
    (list : List MessageId) (m : MessageId)
    → contains list m ≡ false
    → Unique list
    → Unique (list ++ m ∷ [])
unfolding Unique contains
snoc-Unique [] m h u = (refl, tt)
snoc-Unique (y ∷ list) m h (f, u) = (
  ground (arith, contains-snoc list m y, same→≡ m y, same_refl y),
  ground (arith, snoc-Unique list m),
)

pub add-Unique : (list : List MessageId) (m : MessageId) → Unique list → Unique (add list m)
unfolding add
add-Unique list m u = elim (Bool-cases (contains list m)) [
  | inl e ↦ rw (e) u
  | inr e ↦ rw (e) (snoc-Unique list m e u)
]
