-- ===== src/Base/Table.antt =====
-- `HashMap` as an association list. The order of the list stands for the order in which the map is
-- iterated, on which no theorem may rest.
use tsn_fieldbus.Base.Tests.{Eq, if◌then◌else◌, Bool-cases}
use mathlib.Core.Path.{◌≡◌, refl}
use mathlib.Core.Bool.{Bool, true, false}
use mathlib.Core.Logic.{inl, inr}
use mathlib.Core.Option.{Option, none, some}
use mathlib.Core.List.{List, [], ◌∷◌, map}
use native.Mathlib.Omega.{arith}

abbrev pub Table : Type 0 → Type 0 → Type 0
Table K V = List (K × V)

abbrev pub values : {K V : Type 0} → Table K V → List V
values t = map (λ p. p.1) t

pub beq_refl {ℓ} : {K : Type ℓ} ⦃e : Eq K⦄ (k : K) → e.beq k k ≡ true
beq_refl ⦃e⦄ k = (e.beq_iff k k).1 refl

module _ {K V : Type 0} ⦃e : Eq K⦄ where
  unfoldable pub get : K → Table K V → Option V
  get k [] = none
  get k ((j, v) ∷ t) = if e.beq j k then some v else get k t

  unfoldable pub contains_key : K → Table K V → Bool
  unfolding get
  contains_key k t = elim (get k t) [ none ↦ false | some _ ↦ true ]

  unfoldable pub insert : K → V → Table K V → Table K V
  insert k v [] = (k, v) ∷ []
  insert k v ((j, w) ∷ t) = if e.beq j k then (k, v) ∷ t else (j, w) ∷ insert k v t

  unfoldable pub remove : K → Table K V → Table K V
  remove k [] = []
  remove k ((j, w) ∷ t) = let rest = remove k t in if e.beq j k then rest else (j, w) ∷ rest

  -- `retain(|_, v| keep(v))`
  unfoldable pub retain : (V → Bool) → Table K V → Table K V
  retain keep [] = []
  retain keep ((j, w) ∷ t) = let rest = retain keep t in if keep w then (j, w) ∷ rest else rest

  -- No key stands twice.
  abbrev pub IsUnique : Table K V → Type 0
  IsUnique [] = Unit {0}
  IsUnique ((j, w) ∷ t) = (get j t ≡ none) × IsUnique t

  pub get-insert :
      (k j : K) (v : V) (t : Table K V)
      → get j (insert k v t) ≡ (if e.beq k j then some v else get j t)
  unfolding get insert
  get-insert k j v [] = refl
  get-insert k j v ((i, w) ∷ t) =
      ground (arith, e.beq_iff k j, e.beq_iff i k, e.beq_iff i j, get-insert k j v t)

  pub get-insert_self : (k : K) (v : V) (t : Table K V) → get k (insert k v t) ≡ some v
  get-insert_self k v t = ground (arith, get-insert k k v t, beq_refl k)

  pub get-insert_ne :
      (k j : K) (v : V) (t : Table K V) → e.beq k j ≡ false → get j (insert k v t) ≡ get j t
  get-insert_ne k j v t h = ground (arith, get-insert k j v t)

  pub get-remove :
      (k j : K) (t : Table K V) → get j (remove k t) ≡ (if e.beq k j then none else get j t)
  unfolding get remove
  get-remove k j [] = ground arith
  get-remove k j ((i, w) ∷ t) =
      ground (arith, e.beq_iff k j, e.beq_iff i k, e.beq_iff i j, get-remove k j t)

  get-retain-none :
      (keep : V → Bool) (k : K) (t : Table K V) → get k t ≡ none → get k (retain keep t) ≡ none
  unfolding get retain
  get-retain-none keep k [] h = refl
  get-retain-none keep k ((i, w) ∷ t) h = ground (arith, get-retain-none keep k t)

  -- What `retain` keeps under a key is what was there, if the test accepts it.
  pub get-retain :
      (keep : V → Bool) (k : K) (t : Table K V)
      → IsUnique t
      → get k (retain keep t)
        ≡ elim (get k t) [ none ↦ none | some v ↦ if keep v then some v else none ]
  unfolding get retain
  get-retain keep k [] u = refl
  get-retain keep k ((i, w) ∷ t) u =
      ground (arith, get-retain keep k t, get-retain-none keep i t, e.beq_iff i k)

  pub insert-IsUnique : (k : K) (v : V) (t : Table K V) → IsUnique t → IsUnique (insert k v t)
  unfolding insert get
  insert-IsUnique k v [] u = (refl, tt)
  insert-IsUnique k v ((i, w) ∷ t) u = elim (Bool-cases (e.beq i k)) [
    | inl same ↦ rw same (ground (arith, e.beq_iff i k), u.1)
    | inr other ↦ rw other (
      ground (arith, get-insert k i v t, e.beq_iff k i, e.beq_iff i k),
      insert-IsUnique k v t u.1,
    )
  ]

  pub retain-IsUnique : (keep : V → Bool) (t : Table K V) → IsUnique t → IsUnique (retain keep t)
  unfolding retain
  retain-IsUnique keep [] u = tt
  retain-IsUnique keep ((i, w) ∷ t) u = elim (Bool-cases (keep w)) [
    | inl kept ↦ rw kept (get-retain-none keep i t u.0, retain-IsUnique keep t u.1)
    | inr gone ↦ rw gone (retain-IsUnique keep t u.1)
  ]

  remove-IsUnique_none : (k j : K) (t : Table K V) → get j t ≡ none → get j (remove k t) ≡ none
  remove-IsUnique_none k j t h = ground (arith, get-remove k j t)

  pub remove-IsUnique : (k : K) (t : Table K V) → IsUnique t → IsUnique (remove k t)
  unfolding remove
  remove-IsUnique k [] u = tt
  remove-IsUnique k ((i, w) ∷ t) u = elim (Bool-cases (e.beq i k)) [
    | inl same ↦ rw same (remove-IsUnique k t u.1)
    | inr other ↦ rw other (remove-IsUnique_none k i t u.0, remove-IsUnique k t u.1)
  ]
