-- ===== src/Base/Dict.antt =====
-- A JavaScript `Map` as the list of its entries in insertion order.
use mathlib.Core.Path.{◌≡◌, refl}
use mathlib.Core.Logic.{◌≢◌}
use mathlib.Core.List.{List, [], ◌∷◌}
use mathlib.Core.Option.{Option, none, some}
use native.Mathlib.Omega.{arith}
use cursor_claw.Base.Tests.{if◌then◌else◌, Eq, ◌==◌, ==_refl}

-- `undefined ?? d`.
abbrev pub or_else {ℓ} : {A : Type ℓ} → Option A → A → A
or_else none d = d
or_else (some a) d = a

abbrev pub map_option {ℓ κ} : {A : Type ℓ} {B : Type κ} → (A → B) → Option A → Option B
map_option f none = none
map_option f (some v) = some (f v)

module _ {ℓ κ} {K : Type ℓ} {V : Type κ} where
  unfoldable pub values : List (K × V) → List V
  values [] = []
  values ((j, w) ∷ m) = w ∷ values m

  -- A write to every value, in place.
  unfoldable pub map_values : (V → V) → List (K × V) → List (K × V)
  map_values f [] = []
  map_values f ((j, w) ∷ m) = (j, f w) ∷ map_values f m

module _ {ℓ κ} {K : Type ℓ} {V : Type κ} ⦃e : Eq K⦄ where
  unfoldable pub get : K → List (K × V) → Option V
  get k [] = none
  get k ((j, v) ∷ m) = if j == k then some v else get k m

  -- An existing key keeps its place.
  unfoldable pub set : K → V → List (K × V) → List (K × V)
  set k v [] = (k, v) ∷ []
  set k v ((j, w) ∷ m) = if j == k then (k, v) ∷ m else (j, w) ∷ set k v m

  unfoldable pub delete : K → List (K × V) → List (K × V)
  delete k [] = []
  delete k ((j, w) ∷ m) = if j == k then delete k m else (j, w) ∷ delete k m

  pub get-set :
      (k j : K) (v : V) (m : List (K × V))
      → get j (set k v m) ≡ (if k == j then some v else get j m)
  unfolding get set
  get-set k j v [] = refl
  get-set k j v ((i, w) ∷ m) =
      ground (arith, e.is_same_iff k j, e.is_same_iff i k, e.is_same_iff i j, get-set k j v m)

  pub get-set_self : (k : K) (v : V) (m : List (K × V)) → get k (set k v m) ≡ some v
  get-set_self k v m = rw (get-set k k v m, ==_refl k)

  pub get-delete :
      (k j : K) (m : List (K × V)) → get j (delete k m) ≡ (if k == j then none else get j m)
  unfolding get delete
  get-delete k j [] = ground arith
  get-delete k j ((i, w) ∷ m) =
      ground (arith, e.is_same_iff k j, e.is_same_iff i k, e.is_same_iff i j, get-delete k j m)

  pub get-map_values :
      (f : V → V) (j : K) (m : List (K × V)) → get j (map_values f m) ≡ map_option f (get j m)
  unfolding get map_values
  get-map_values f j [] = refl
  get-map_values f j ((i, w) ∷ m) = ground (arith, get-map_values f j m)

  pub get-set_ne : (k j : K) (v : V) (m : List (K × V)) → k ≢ j → get j (set k v m) ≡ get j m
  get-set_ne k j v m n = ground (arith, get-set k j v m, e.is_same_iff k j)
