-- ===== src/Base/Maps.antt =====
-- Go maps as association lists: a write puts the new entry in place of the first of its key.
use mathlib.Core.Path.{◌≡◌, refl}
use Prim.Native.Nat.{◌+◌, ◌≤◌}
use mathlib.Core.Bool.{Bool}
use mathlib.Core.List.{List, [], ◌∷◌}
use mathlib.Core.Option.{Option, none, some}
use native.Mathlib.Omega.{arith}
use opencode_rush_free.Base.Tests.{if◌then◌else◌, Eq, ◌==◌}
use opencode_rush_free.Base.Lists.{length, filter}

module _ {ℓ κ} {K : Type ℓ} {V : Type κ} ⦃e : Eq K⦄ where
  unfoldable pub lookup : K → List (K × V) → Option V
  lookup k [] = none
  lookup k ((j, x) ∷ es) = if j == k then some x else lookup k es

  unfoldable pub insert : K → V → List (K × V) → List (K × V)
  insert k x [] = (k, x) ∷ []
  insert k x ((j, y) ∷ es) = if j == k then (k, x) ∷ es else (j, y) ∷ insert k x es

  unfoldable pub delete : K → List (K × V) → List (K × V)
  delete k [] = []
  delete k ((j, y) ∷ es) = let rest = delete k es in if j == k then rest else (j, y) ∷ rest

  pub lookup-insert :
      (k j : K) (x : V) (es : List (K × V))
      → lookup j (insert k x es) ≡ (if k == j then some x else lookup j es)
  unfolding lookup insert
  lookup-insert k j x [] = refl
  lookup-insert k j x ((i, y) ∷ es) =
      ground (arith, e.eqb_iff k j, e.eqb_iff i k, e.eqb_iff i j, lookup-insert k j x es)

  pub lookup-insert_self : (k : K) (x : V) (es : List (K × V)) → lookup k (insert k x es) ≡ some x
  lookup-insert_self k x es = ground (arith, lookup-insert k k x es, e.eqb_iff k k)

  pub lookup-delete :
      (k j : K) (es : List (K × V))
      → lookup j (delete k es) ≡ (if k == j then none else lookup j es)
  unfolding lookup delete
  lookup-delete k j [] = ground arith
  lookup-delete k j ((i, y) ∷ es) =
      ground (arith, e.eqb_iff k j, e.eqb_iff i k, e.eqb_iff i j, lookup-delete k j es)

  pub length-insert-le :
      (k : K) (x : V) (es : List (K × V)) → length (insert k x es) ≤ length es + 1
  unfolding insert
  length-insert-le k x [] = omega arith
  length-insert-le k x ((j, y) ∷ es) = ground (arith, length-insert-le k x es)

  -- No key twice, as in any Go map.
  abbrev pub UniqueKeys : List (K × V) → Type κ
  UniqueKeys [] = Unit
  UniqueKeys ((k, x) ∷ es) = (lookup k es ≡ none) × UniqueKeys es

  abbrev pub keep_if : (K × V → Bool) → K → Option V → Option V
  keep_if p k none = none
  keep_if p k (some x) = if p (k, x) then some x else none

  pub lookup-filter :
      (p : K × V → Bool) (k : K) (es : List (K × V))
      → UniqueKeys es
      → lookup k (filter p es) ≡ keep_if p k (lookup k es)
  unfolding lookup
  lookup-filter p k [] u = refl
  lookup-filter p k ((j, x) ∷ es) u = ground (arith, e.eqb_iff j k, lookup-filter p k es u.1)

  pub UniqueKeys-insert :
      (k : K) (x : V) (es : List (K × V)) → UniqueKeys es → UniqueKeys (insert k x es)
  unfolding lookup insert
  UniqueKeys-insert k x [] u = (refl, tt)
  UniqueKeys-insert k x ((j, y) ∷ es) u =
      ground
        (arith, e.eqb_iff j k, e.eqb_iff k j, lookup-insert k j x es, UniqueKeys-insert k x es u.1)

  pub UniqueKeys-filter :
      (p : K × V → Bool) (es : List (K × V)) → UniqueKeys es → UniqueKeys (filter p es)
  UniqueKeys-filter p [] u = tt
  UniqueKeys-filter p ((j, x) ∷ es) u =
      ground (arith, lookup-filter p j es u.1, UniqueKeys-filter p es u.1)
