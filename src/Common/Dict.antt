-- ===== src/Common/Dict.antt =====
-- A JavaScript `Map`: its entries in the order of insertion.
use mathlib.Core.Bool.{not, ◌&&◌, ◌||◌}
use mathlib.Core.List.{List, [], ◌∷◌, map}
use mathlib.Core.Option.{Option, none, some}
use mathlib.Core.Path.{◌≡◌, refl}
use native.Mathlib.Omega.{arith}
use socket_io_deno.Common.KeySet.{has, Distinct}
use socket_io_deno.Common.Tests.{same, if◌then◌else◌}

module _ {ℓ κ} {K : Type ℓ} {V : Type κ} (dec : Discrete K) where
  -- `m.get(k)`
  unfoldable pub get : K → List (K × V) → Option V
  get k [] = none
  get k ((j, v) ∷ m) = if same dec k j then some v else get k m

  -- `m.set(k, v)`: an entry keeps its place, a new one goes to the end
  unfoldable pub set : K → V → List (K × V) → List (K × V)
  set k v [] = (k, v) ∷ []
  set k v ((j, w) ∷ m) = if same dec k j then (k, v) ∷ m else (j, w) ∷ set k v m

  -- `m.delete(k)`, without its result
  unfoldable pub delete : K → List (K × V) → List (K × V)
  delete k [] = []
  delete k ((j, w) ∷ m) = if same dec k j then delete k m else (j, w) ∷ delete k m

  pub get-set :
      (k j : K) (v : V) (m : List (K × V))
      → get k (set j v m) ≡ (if same dec k j then some v else get k m)
  unfolding get set
  get-set k j v [] = refl
  get-set k j v ((i, w) ∷ m) = ground (arith, get-set k j v m)

  pub get-delete :
      (k j : K) (m : List (K × V)) → get k (delete j m) ≡ (if same dec k j then none else get k m)
  unfolding get delete
  get-delete k j [] = ground arith
  get-delete k j ((i, w) ∷ m) = ground (arith, get-delete k j m)

abbrev pub keys {ℓ κ} : {K : Type ℓ} {V : Type κ} → List (K × V) → List K
keys = map (λ e. e.0)

module _ {ℓ κ} {K : Type ℓ} {V : Type κ} (dec : Discrete K) where
  pub has-keys-set :
      (k j : K) (v : V) (m : List (K × V))
      → has dec k (keys (set dec j v m)) ≡ (same dec k j || has dec k (keys m))
  unfolding set has
  has-keys-set k j v [] = refl
  has-keys-set k j v ((i, w) ∷ m) = ground (arith, has-keys-set k j v m)

  pub has-keys-delete :
      (k j : K) (m : List (K × V))
      → has dec k (keys (delete dec j m)) ≡ (not (same dec k j) && has dec k (keys m))
  unfolding delete has
  has-keys-delete k j [] = ground arith
  has-keys-delete k j ((i, w) ∷ m) = ground (arith, has-keys-delete k j m)

  pub set-Distinct :
      (j : K) (v : V) (m : List (K × V))
      → Distinct dec (keys m)
      → Distinct dec (keys (set dec j v m))
  unfolding set has
  set-Distinct j v [] d = (refl, tt)
  set-Distinct j v ((i, w) ∷ m) d = ground (arith, d, set-Distinct j v m d.1, has-keys-set i j v m)

  pub delete-Distinct :
      (j : K) (m : List (K × V)) → Distinct dec (keys m) → Distinct dec (keys (delete dec j m))
  unfolding delete has
  delete-Distinct j [] d = tt
  delete-Distinct j ((i, w) ∷ m) d =
      ground (arith, d, delete-Distinct j m d.1, has-keys-delete i j m)

-- A map of sets: `m.get(k)`, with the empty set for a key that is missing.
abbrev pub or_empty {ℓ} : {A : Type ℓ} → Option (List A) → List A
or_empty none = []
or_empty (some s) = s

module _ {ℓ κ} {K : Type ℓ} {A : Type κ} (dec : Discrete K) where
  pub or_empty-set :
      (k j : K) (v : List A) (m : List (K × List A))
      → or_empty (get dec k (set dec j v m)) ≡ (if same dec k j then v else or_empty (get dec k m))
  or_empty-set k j v m = ground (arith, get-set dec k j v m)

  pub or_empty-delete :
      (k j : K) (m : List (K × List A))
      → or_empty (get dec k (delete dec j m))
        ≡ (if same dec k j then [] else or_empty (get dec k m))
  or_empty-delete k j m = ground (arith, get-delete dec k j m)
