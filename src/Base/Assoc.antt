-- ===== src/Base/Assoc.antt =====
-- Go's `map[string]V` as an association list with at most one entry for a key.
use Prim.Native.String.{String}
use mathlib.Core.Path.{◌≡◌, refl, sym, ap}
use mathlib.Core.Logic.{◌≢◌, ◌⊎◌, inl, inr}
use mathlib.Core.Bool.{Bool, true, false}
use mathlib.Core.Option.{Option, none, some}
use mathlib.Core.List.{List, [], ◌∷◌}
use native.Mathlib.Omega.{arith}
use text.Mathlib.Text.{◌==◌}
use text.Mathlib.TextEquality.{eq_iff}
use text.Mathlib.TextPositions.{eq_refl}
use testudo_operator.Base.Lists.{In}
use testudo_operator.Base.Tests.{Bool-cases, if◌then◌else◌}

abbrev pub Assoc : Type 0 → Type 0
Assoc V = List (String × V)

module _ {V : Type 0} where
  -- `v, ok := m[k]`.
  unfoldable pub lookup : String → Assoc V → Option V
  lookup k [] = none
  lookup k ((j, v) ∷ m) = if j == k then some v else lookup k m

  -- `m[k] = v`.
  unfoldable pub insert : String → V → Assoc V → Assoc V
  insert k v [] = (k, v) ∷ []
  insert k v ((j, w) ∷ m) = if j == k then (j, v) ∷ m else (j, w) ∷ insert k v m

  -- `_, ok := m[k]`.
  unfoldable pub has_key : String → Assoc V → Bool
  has_key k [] = false
  has_key k ((j, v) ∷ m) = if j == k then true else has_key k m

  pub lookup-insert :
      (written read : String) (v : V) (m : Assoc V)
      → lookup read (insert written v m) ≡ (if written == read then some v else lookup read m)
  unfolding lookup insert
  lookup-insert written read v [] = refl
  lookup-insert written read v ((key, old) ∷ m) = ground (
    arith,
    lookup-insert written read v m,
    eq_iff key written,
    eq_iff key read,
    eq_iff written read,
  )

  pub lookup-insert_self : (k : String) (v : V) (m : Assoc V) → lookup k (insert k v m) ≡ some v
  lookup-insert_self k v m = simp (lookup-insert, eq_refl)

  pub lookup-insert_cases :
      (k j : String) (v : V) (m : Assoc V)
      → ((k ≡ j) × (lookup j (insert k v m) ≡ some v))
        ⊎ ((k ≢ j) × (lookup j (insert k v m) ≡ lookup j m))
  lookup-insert_cases k j v m = elim (Bool-cases (k == j)) [
    | inl e ↦ inl ((eq_iff k j).0 e, rw lookup-insert (rw e))
    | inr e ↦ inr ((λ p. ground (arith, eq_iff k j)), rw lookup-insert (rw e))
  ]

  pub lookup-of_has_key : (k : String) (m : Assoc V) → has_key k m ≡ false → lookup k m ≡ none
  unfolding lookup has_key
  lookup-of_has_key k [] h = refl
  lookup-of_has_key k ((j, v) ∷ m) h = ground (arith, lookup-of_has_key k m)

  -- The keys of a map.
  abbrev pub names : Assoc V → List String
  names [] = []
  names ((k, v) ∷ m) = k ∷ names m

  pub lookup-In : (k : String) (v : V) (m : Assoc V) → lookup k m ≡ some v → In (k, v) m
  unfolding lookup
  lookup-In k v [] h = cc
  lookup-In k v ((j, w) ∷ m) h = elim (Bool-cases (j == k)) [
    | inl e ↦ let q : w ≡ v = ground (arith, h) in inl (cc (sym ((eq_iff j k).0 e), sym q))
    | inr e ↦ inr (lookup-In k v m (ground (arith, h)))
  ]

  pub In-names : (k : String) (m : Assoc V) → In k (names m) → lookup k m ≢ none
  unfolding lookup
  In-names k [] i e = absurd i
  In-names k ((j, w) ∷ m) i e = elim (Bool-cases (j == k)) [
    | inl f ↦ ground arith
    | inr f ↦ elim i [ inl g ↦ ground (arith, eq_iff j k) | inr l ↦ In-names k m l (ground arith) ]
  ]

  pub names-In : (k : String) (v : V) (m : Assoc V) → In (k, v) m → In k (names m)
  names-In k v [] i = absurd i
  names-In k v ((j, w) ∷ m) (inl e) = inl (ap (λ p. p.0) e)
  names-In k v ((j, w) ∷ m) (inr i) = inr (names-In k v m i)

  pub names-In_inv : (k : String) (m : Assoc V) → In k (names m) → (v : V) × In (k, v) m
  names-In_inv k [] i = absurd i
  names-In_inv k ((j, w) ∷ m) (inl e) = (w, inl (ap (λ n. (n, w)) e))
  names-In_inv k ((j, w) ∷ m) (inr i) = let (v, l) = names-In_inv k m i in (v, inr l)
