-- ===== src/Common/Map.antt =====
-- Go maps, as association lists: a key stands at most once in a list built by `insert`.
use mathlib.Core.Path.{◌≡◌, refl}
use mathlib.Core.List.{List, [], ◌∷◌}
use mathlib.Core.Option
use mathlib.Core.Option.{Option, none, some, get_or}
use native.Mathlib.Omega.{arith}
use attachcloudip.Common.Tests.{Comparable, ◌==◌, if◌then◌else◌}

abbrev pub Map {ℓ κ} : Type ℓ → Type κ → Type (ℓ ⊔ κ)
Map K V = List (K × V)

module _ {ℓ κ} {K : Type ℓ} {V : Type κ} ⦃e : Comparable K⦄ where
  -- `v, ok := m[k]`
  unfoldable pub lookup : K → Map K V → Option V
  lookup key [] = none
  lookup key ((j, v) ∷ rest) = if j == key then some v else lookup key rest

  -- `m[k]`, where `d` is the zero value of the type
  unfoldable pub lookup_or : K → V → Map K V → V
  unfolding lookup
  lookup_or k d m = elim (lookup k m) [ some v ↦ v | none ↦ d ]

  -- `delete(m, k)`
  unfoldable pub delete : K → Map K V → Map K V
  delete key [] = []
  delete key ((j, v) ∷ rest) = if j == key then delete key rest else (j, v) ∷ delete key rest

  -- `m[k] = v`
  unfoldable pub insert : K → V → Map K V → Map K V
  insert key new [] = (key, new) ∷ []
  insert key new ((j, v) ∷ rest) =
      if j == key then (j, new) ∷ rest else (j, v) ∷ insert key new rest

  -- `for k, v := range m { m[k] = f(v) }`
  unfoldable pub map_values : (V → V) → Map K V → Map K V
  map_values f [] = []
  map_values f ((j, v) ∷ rest) = (j, f v) ∷ map_values f rest

  pub lookup-delete :
      (k j : K) (m : Map K V) → lookup j (delete k m) ≡ (if k == j then none else lookup j m)
  unfolding lookup delete
  lookup-delete k j [] = ground arith
  lookup-delete k j ((i, v) ∷ rest) =
      ground (arith, e.equal_iff k j, e.equal_iff i k, e.equal_iff i j, lookup-delete k j rest)

  pub lookup-insert :
      (at read : K) (new : V) (m : Map K V)
      → lookup read (insert at new m) ≡ (if at == read then some new else lookup read m)
  unfolding insert lookup
  lookup-insert at read new [] = refl
  lookup-insert at read new ((i, v) ∷ rest) = ground (
    arith,
    lookup-insert at read new rest,
    e.equal_iff i at,
    e.equal_iff i read,
    e.equal_iff at read,
  )

  pub lookup-map_values :
      (f : V → V) (k : K) (m : Map K V) → lookup k (map_values f m) ≡ Option.map f (lookup k m)
  unfolding lookup map_values
  lookup-map_values f k [] = refl
  lookup-map_values f k ((i, v) ∷ rest) = ground (arith, lookup-map_values f k rest)

  pub lookup_or-insert :
      (k j : K) (v d : V) (m : Map K V)
      → lookup_or j d (insert k v m) ≡ (if k == j then v else lookup_or j d m)
  unfolding lookup_or
  lookup_or-insert k j v d m = ground (arith, lookup-insert k j v m)

  pub lookup_or-delete :
      (k j : K) (d : V) (m : Map K V)
      → lookup_or j d (delete k m) ≡ (if k == j then d else lookup_or j d m)
  unfolding lookup_or
  lookup_or-delete k j d m = ground (arith, lookup-delete k j m)
