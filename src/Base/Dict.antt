-- ===== src/Base/Dict.antt =====
-- std::map with unsigned keys, as an association list.
use Prim.Native.Nat.{ℕ, compare, Ordering}
use mathlib.Core.Path.{◌≡◌}
use mathlib.Core.Bool.{true, false}
use mathlib.Core.List.{List, [], ◌∷◌}
use mathlib.Core.Option
use mathlib.Core.Option.{Option, none, some}
use native.Mathlib.Omega.{arith}
use jamera_server.Base.Tests.{◌==◌, if◌then◌else◌}

abbrev pub Dict {ℓ} : Type ℓ → Type ℓ
Dict V = List (ℕ × V)

-- find, and m[key] = value, which keeps the place of a key that is there.
module _ {ℓ} {V : Type ℓ} where
  unfoldable pub lookup : ℕ → Dict V → Option V
  lookup key [] = none
  lookup key (entry ∷ rest) = elim (entry.0 == key) [
    | true ↦ some entry.1
    | false ↦ lookup key rest
  ]

  unfoldable pub insert : ℕ → V → Dict V → Dict V
  insert key value [] = (key, value) ∷ []
  insert key value (entry ∷ rest) = elim (entry.0 == key) [
    | true ↦ (key, value) ∷ rest
    | false ↦ entry ∷ insert key value rest
  ]

  pub lookup-insert :
      (key other : ℕ) (value : V) (m : Dict V)
      → lookup other (insert key value m) ≡ (if key == other then some value else lookup other m)
  unfolding lookup insert
  lookup-insert key other value [] = ground arith
  lookup-insert key other value (entry ∷ rest) = ground (arith, lookup-insert key other value rest)

  -- erase
  unfoldable pub erase : ℕ → Dict V → Dict V
  erase key [] = []
  erase key (entry ∷ rest) = elim (entry.0 == key) [
    | true ↦ erase key rest
    | false ↦ entry ∷ erase key rest
  ]

  pub lookup-erase :
      (key other : ℕ) (m : Dict V)
      → lookup other (erase key m) ≡ (if key == other then none else lookup other m)
  unfolding lookup erase
  lookup-erase key other [] = ground arith
  lookup-erase key other (entry ∷ rest) = ground (arith, lookup-erase key other rest)

  -- m[key] = value with the entries in the order of their keys, and a change of the value at a key.
  unfoldable pub emplace : ℕ → V → Dict V → Dict V
  emplace key value [] = (key, value) ∷ []
  emplace key value (entry ∷ rest) = elim (compare key entry.0) [
    | Ordering.lt ↦ (key, value) ∷ entry ∷ rest
    | Ordering.eq ↦ (key, value) ∷ rest
    | Ordering.gt ↦ entry ∷ emplace key value rest
  ]

  pub lookup-emplace :
      (key other : ℕ) (value : V) (m : Dict V)
      → lookup other (emplace key value m) ≡ (if key == other then some value else lookup other m)
  unfolding lookup emplace
  lookup-emplace key other value [] = ground arith
  lookup-emplace key other value (entry ∷ rest) =
      ground (arith, lookup-emplace key other value rest)

  unfoldable pub adjust : ℕ → (V → V) → Dict V → Dict V
  adjust key f [] = []
  adjust key f (entry ∷ rest) = elim (entry.0 == key) [
    | true ↦ (key, f entry.1) ∷ rest
    | false ↦ entry ∷ adjust key f rest
  ]

  pub lookup-adjust :
      (key other : ℕ) (f : V → V) (m : Dict V)
      → lookup other (adjust key f m)
        ≡ (if key == other then Option.map f (lookup other m) else lookup other m)
  unfolding lookup adjust
  lookup-adjust key other f [] = ground arith
  lookup-adjust key other f (entry ∷ rest) = ground (arith, lookup-adjust key other f rest)
