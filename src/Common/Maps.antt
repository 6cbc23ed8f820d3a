-- ===== src/Common/Maps.antt =====
-- A hash map as an association list with a unique entry for each key.
use mathlib.Core.Path.{◌≡◌, refl}
use mathlib.Core.Bool.{Bool, true, false, not, ◌&&◌, ◌||◌}
use mathlib.Core.List.{List, [], ◌∷◌}
use mathlib.Core.Option.{Option, none, some}
use native.Mathlib.Omega.{arith}
use net_policy.Common.Tests.{KeyEq, ◌==◌, if◌then◌else◌}

abbrev pub Map {ℓ κ} : Type ℓ → Type κ → Type (ℓ ⊔ κ)
Map K V = List (K × V)

module _ {ℓ κ} {K : Type ℓ} {V : Type κ} ⦃e : KeyEq K⦄ where
  unfoldable pub lookup : K → Map K V → Option V
  lookup k [] = none
  lookup k ((i, w) ∷ m) = let rest = lookup k m in if i == k then some w else rest

  unfoldable pub contains_key : K → Map K V → Bool
  unfolding lookup
  contains_key k m = elim (lookup k m) [ none ↦ false | some v ↦ true ]

  unfoldable pub insert : K → V → Map K V → Map K V
  insert k v [] = (k, v) ∷ []
  insert k v ((i, w) ∷ m) = let rest = insert k v m in if i == k then (i, v) ∷ m else (i, w) ∷ rest

  unfoldable pub erase : K → Map K V → Map K V
  erase k [] = []
  erase k ((j, w) ∷ m) = let rest = erase k m in if j == k then rest else (j, w) ∷ rest

  -- The entries that a test on key and value keeps.
  unfoldable pub retain : (K → V → Bool) → Map K V → Map K V
  retain p [] = []
  retain p ((j, w) ∷ m) = let rest = retain p m in if p j w then (j, w) ∷ rest else rest

  pub lookup-insert :
      (key other : K) (value : V) (table : Map K V)
      → lookup other (insert key value table)
        ≡ (if key == other then some value else lookup other table)
  unfolding insert lookup
  lookup-insert key other value [] = refl
  lookup-insert key other value ((first, w) ∷ table) = ground (
    arith,
    lookup-insert key other value table,
    e.same_iff first other,
    e.same_iff key other,
    e.same_iff first key,
  )

  pub lookup-erase :
      (k j : K) (m : Map K V) → lookup j (erase k m) ≡ (if k == j then none else lookup j m)
  unfolding lookup erase
  lookup-erase k j [] = ground arith
  lookup-erase k j ((i, w) ∷ m) =
      ground (arith, e.same_iff k j, e.same_iff i k, e.same_iff i j, lookup-erase k j m)

  pub contains_key-insert :
      (k j : K) (v : V) (m : Map K V) → contains_key j (insert k v m) ≡ (k == j || contains_key j m)
  unfolding contains_key
  contains_key-insert k j v m = ground (arith, lookup-insert k j v m)

  pub contains_key-erase :
      (k j : K) (m : Map K V) → contains_key j (erase k m) ≡ (not (k == j) && contains_key j m)
  unfolding contains_key
  contains_key-erase k j m = ground (arith, lookup-erase k j m)

  pub lookup→contains_key :
      (k : K) (m : Map K V) {v : V} → lookup k m ≡ some v → contains_key k m ≡ true
  unfolding contains_key
  lookup→contains_key k m h = rw (h, contains_key)

  -- No key occurs twice.
  abbrev pub Unique : Map K V → Type κ
  Unique [] = Unit
  Unique ((k, v) ∷ m) = (lookup k m ≡ none) × Unique m

-- What is found after a sweep is what was found before and passes the test.
abbrev pub keep_if {κ} : {V : Type κ} → (V → Bool) → Option V → Option V
keep_if p none = none
keep_if p (some v) = if p v then some v else none

module _ {ℓ κ} {K : Type ℓ} {V : Type κ} ⦃e : KeyEq K⦄ where
  pub insert-Unique : (k : K) (v : V) (m : Map K V) → Unique m → Unique (insert k v m)
  unfolding lookup insert
  insert-Unique k v [] u = (refl, tt)
  insert-Unique k v ((i, w) ∷ m) u =
      ground (arith, e.same_iff i k, e.same_iff k i, lookup-insert k i v m, insert-Unique k v m u.1)

  pub erase-Unique : (k : K) (m : Map K V) → Unique m → Unique (erase k m)
  unfolding lookup erase
  erase-Unique k [] u = tt
  erase-Unique k ((i, w) ∷ m) u =
      ground (arith, e.same_iff i k, e.same_iff k i, lookup-erase k i m, erase-Unique k m u.1)

  pub lookup-retain-none :
      (p : K → V → Bool) (k : K) (m : Map K V) → lookup k m ≡ none → lookup k (retain p m) ≡ none
  unfolding lookup retain
  lookup-retain-none p k [] h = refl
  lookup-retain-none p k ((i, w) ∷ m) h = ground (arith, lookup-retain-none p k m)

  pub retain-Unique : (p : K → V → Bool) (m : Map K V) → Unique m → Unique (retain p m)
  unfolding lookup retain
  retain-Unique p [] u = tt
  retain-Unique p ((i, w) ∷ m) u =
      ground (arith, lookup-retain-none p i m u.0, retain-Unique p m u.1)

  pub lookup-retain :
      (p : K → V → Bool) (k : K) (m : Map K V)
      → Unique m
      → lookup k (retain p m) ≡ keep_if (p k) (lookup k m)
  unfolding lookup retain
  lookup-retain p k [] u = refl
  lookup-retain p k ((i, w) ∷ m) u =
      ground (arith, e.same_iff i k, lookup-retain p k m u.1, lookup-retain-none p k m)
