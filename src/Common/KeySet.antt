-- ===== src/Common/KeySet.antt =====
-- A JavaScript `Set`: its elements in the order of insertion.
use mathlib.Core.Bool.{Bool, false, not, ◌&&◌, ◌||◌}
use mathlib.Core.List.{List, [], ◌∷◌, ◌++◌}
use mathlib.Core.Path.{◌≡◌, refl}
use native.Mathlib.Omega.{arith}
use socket_io_deno.Common.Tests.{same, if◌then◌else◌}

module _ {ℓ} {K : Type ℓ} (dec : Discrete K) where
  -- `s.has(k)`
  unfoldable pub has : K → List K → Bool
  has k [] = false
  has k (j ∷ s) = same dec k j || has k s

  -- `s.add(k)`
  unfoldable pub add : K → List K → List K
  unfolding has
  add k s = if has k s then s else s ++ k ∷ []

  -- `s.delete(k)`, without its result
  unfoldable pub delete : K → List K → List K
  delete k [] = []
  delete k (j ∷ s) = if same dec k j then delete k s else j ∷ delete k s

  pub has-append : (k : K) (s t : List K) → has k (s ++ t) ≡ (has k s || has k t)
  unfolding has
  has-append k [] t = refl
  has-append k (j ∷ s) t = ground (arith, has-append k s t)

  pub has-add : (k j : K) (s : List K) → has k (add j s) ≡ (same dec k j || has k s)
  unfolding add has
  has-add k j s = ground (arith, has-append k s (j ∷ []))

  pub has-delete : (k j : K) (s : List K) → has k (delete j s) ≡ (not (same dec k j) && has k s)
  unfolding delete has
  has-delete k j [] = ground arith
  has-delete k j (i ∷ s) = ground (arith, has-delete k j s)

  -- No element stands twice.
  abbrev pub Distinct : List K → Type 0
  Distinct [] = Unit
  Distinct (k ∷ s) = (has k s ≡ false) × Distinct s

  pub append-Distinct : (s : List K) (k : K) → Distinct s → has k s ≡ false → Distinct (s ++ k ∷ [])
  unfolding has
  append-Distinct [] k d h = (refl, tt)
  append-Distinct (j ∷ s) k d h =
      (ground (arith, d.0, has-append j s (k ∷ [])), append-Distinct s k d.1 (ground arith))
