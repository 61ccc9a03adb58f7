-- ===== src/Base/Maps.antt =====
-- `alloc::collections::BTreeMap` with numbers as keys: `get`, `insert` and `remove`.
use native.Mathlib.Decide.{ℕ_discrete}
use Prim.Native.Nat.{ℕ, ◌+◌, ◌≤◌}
use mathlib.Core.Path.{◌≡◌, refl, sym, ap, ◌∙◌}
use mathlib.Core.Logic.{◌≢◌, ◌⊎◌, inl, inr}
use mathlib.Core.Bool.{true, false}
use mathlib.Core.Option.{Option, none, some, some-injective}
use mathlib.Core.List.{List, [], ◌∷◌}
use native.Mathlib.Omega.{arith}
use blog_os.Base.Compare.{◌==◌, if◌then◌else◌}

abbrev pub Map {ℓ} : Type ℓ → Type ℓ
Map A = List (ℕ × A)

module _ {ℓ} {A : Type ℓ} where
  abbrev pub lookup : Map A → ℕ → Option A
  lookup [] k = none
  lookup ((j, a) ∷ m) k = let rest = lookup m k in if k == j then some a else rest

  -- The old value of the key, which Rust's `insert` returns, is `lookup` before the call.
  abbrev pub insert : Map A → ℕ → A → Map A
  insert [] k b = (k, b) ∷ []
  insert ((j, a) ∷ m) k b = let rest = insert m k b in if k == j then (k, b) ∷ m else (j, a) ∷ rest

  abbrev pub remove : Map A → ℕ → Map A
  remove [] k = []
  remove ((j, a) ∷ m) k = let rest = remove m k in if k == j then rest else (j, a) ∷ rest

  -- The sum of a measure of the values.
  abbrev pub total : (A → ℕ) → Map A → ℕ
  total f [] = 0
  total f ((j, a) ∷ m) = f a + total f m

  pub lookup-insert : (m : Map A) (k : ℕ) (b : A) → lookup (insert m k b) k ≡ some b
  lookup-insert [] k b = ground arith
  lookup-insert ((j, a) ∷ m) k b = ground (arith, lookup-insert m k b)

  pub lookup-insert_other :
      (m : Map A) (k i : ℕ) (b : A) → i ≢ k → lookup (insert m k b) i ≡ lookup m i
  lookup-insert_other [] k i b ne = ground (arith, ne)
  lookup-insert_other ((j, a) ∷ m) k i b ne = ground (arith, ne, lookup-insert_other m k i b ne)

  pub lookup-remove : (m : Map A) (k : ℕ) → lookup (remove m k) k ≡ none
  lookup-remove [] k = refl
  lookup-remove ((j, a) ∷ m) k = ground (arith, lookup-remove m k)

  pub lookup-remove_other : (m : Map A) (k i : ℕ) → i ≢ k → lookup (remove m k) i ≡ lookup m i
  lookup-remove_other [] k i ne = refl
  lookup-remove_other ((j, a) ∷ m) k i ne = ground (arith, ne, lookup-remove_other m k i ne)

  pub total-insert :
      (f : A → ℕ) (m : Map A) (k : ℕ) (a b : A)
      → lookup m k ≡ some a
      → total f (insert m k b) + f a ≡ total f m + f b
  total-insert f [] k a b h = absurd cc
  total-insert f ((j, c) ∷ m) k a b h = elim (ℕ_discrete k j) [
    | yes e ↦
        let t : (k == j) ≡ true = ground (arith, e) in
        let found = rw t at h in
        let same : f c ≡ f a = ap f (some-injective _ _ found) in rw t (omega (arith, same))
    | no ne ↦
        let t : (k == j) ≡ false = ground (arith, ne) in
        let found = rw t at h in rw t (omega (arith, total-insert f m k a b found))
  ]

  total-remove-le : (f : A → ℕ) (m : Map A) (k : ℕ) → total f (remove m k) ≤ total f m
  total-remove-le f [] k = omega arith
  total-remove-le f ((j, c) ∷ m) k = ground (arith, total-remove-le f m k)

  pub total-remove :
      (f : A → ℕ) (m : Map A) (k : ℕ) (a : A)
      → lookup m k ≡ some a
      → total f (remove m k) + f a ≤ total f m
  total-remove f [] k a h = absurd cc
  total-remove f ((j, c) ∷ m) k a h = elim (ℕ_discrete k j) [
    | yes e ↦
        let t : (k == j) ≡ true = ground (arith, e) in
        let found = rw t at h in
        let same : f c ≡ f a = ap f (some-injective _ _ found) in
        rw t (omega (arith, same, total-remove-le f m k))
    | no ne ↦
        let t : (k == j) ≡ false = ground (arith, ne) in
        let found = rw t at h in rw t (omega (arith, total-remove f m k a found))
  ]

  pub lookup-insert-cases :
      (m : Map A) (k i : ℕ) (a b : A)
      → lookup (insert m k b) i ≡ some a
      → ((i ≡ k) × (a ≡ b)) ⊎ ((i ≢ k) × (lookup m i ≡ some a))
  lookup-insert-cases m k i a b h = elim (ℕ_discrete i k) [
    | yes e ↦
        inl (e, some-injective _ _ (sym h ∙ ap (lookup (insert m k b)) e ∙ lookup-insert m k b))
    | no ne ↦ inr (ne, sym (lookup-insert_other m k i b ne) ∙ h)
  ]

  pub lookup-insert-known :
      (m : Map A) (k i : ℕ) (a b : A)
      → lookup m i ≡ some a
      → (c : A) × (lookup (insert m k b) i ≡ some c)
  lookup-insert-known m k i a b h = elim (ℕ_discrete i k) [
    | yes e ↦ (b, ap (lookup (insert m k b)) e ∙ lookup-insert m k b)
    | no ne ↦ (a, lookup-insert_other m k i b ne ∙ h)
  ]

  pub lookup-remove-cases :
      (m : Map A) (k i : ℕ) (a : A)
      → lookup (remove m k) i ≡ some a
      → (i ≢ k) × (lookup m i ≡ some a)
  lookup-remove-cases m k i a h = elim (ℕ_discrete i k) [
    | yes e ↦
        let gone : lookup (remove m k) i ≡ none = ap (lookup (remove m k)) e ∙ lookup-remove m k in
        absurd cc
    | no ne ↦ (ne, sym (lookup-remove_other m k i ne) ∙ h)
  ]
