-- ===== src/Prelude/Dict.antt =====
-- A Go map as an association list: at most one entry to a key, in some order of iteration.
use Prim.Native.Nat.{ℕ, suc}
use mathlib.Core.Path.{◌≡◌, refl, sym, subst, ◌∙◌}
use mathlib.Core.Logic.{inl, inr}
use mathlib.Core.Bool.{Bool, true, false}
use mathlib.Core.Option.{Option, none, some}
use mathlib.Core.List.{List, [], ◌∷◌}
use native.Mathlib.Omega.{arith}
use mm_server.Prelude.Tests.{if◌then◌else◌, Eq, beq_self, Bool-cases}

abbrev pub Dict {ℓ κ} : Type ℓ → Type κ → Type (ℓ ⊔ κ)
Dict K V = List (K × V)

module _ {ℓ κ} {K : Type ℓ} {V : Type κ} ⦃e : Eq K⦄ where
  unfoldable pub lookup : K → Dict K V → Option V
  lookup k [] = none
  lookup k ((j, v) ∷ d) = if e.beq j k then some v else lookup k d

  -- `_, has := d[k]`
  unfoldable pub contains : K → Dict K V → Bool
  contains k d = elim (lookup k d) [ none ↦ false | some _ ↦ true ]

  -- `d[k] = v`
  unfoldable pub insert : K → V → Dict K V → Dict K V
  insert k v [] = (k, v) ∷ []
  insert k v ((j, w) ∷ d) = if e.beq j k then (j, v) ∷ d else (j, w) ∷ insert k v d

  -- `delete(d, k)`
  unfoldable pub erase : K → Dict K V → Dict K V
  erase k [] = []
  erase k ((j, v) ∷ d) = if e.beq j k then erase k d else (j, v) ∷ erase k d

  -- `len(d)`
  unfoldable pub size : Dict K V → ℕ
  size [] = 0
  size (_ ∷ d) = suc (size d)

  -- No key stands in two entries.
  abbrev pub HasUniqueKeys : Dict K V → Type κ
  HasUniqueKeys [] = Unit
  HasUniqueKeys ((k, v) ∷ d) = (lookup k d ≡ none) × HasUniqueKeys d

  pub lookup-insert :
      (k j : K) (v : V) (d : Dict K V)
      → lookup j (insert k v d) ≡ (if e.beq k j then some v else lookup j d)
  unfolding lookup insert
  lookup-insert k j v [] = refl
  lookup-insert k j v ((i, w) ∷ d) =
      ground (arith, e.beq_iff k j, e.beq_iff i k, e.beq_iff i j, lookup-insert k j v d)

  pub lookup-insert_self : (k : K) (v : V) (d : Dict K V) → lookup k (insert k v d) ≡ some v
  lookup-insert_self k v d = rw (lookup-insert, beq_self e k)

  pub lookup-erase :
      (k j : K) (d : Dict K V) → lookup j (erase k d) ≡ (if e.beq k j then none else lookup j d)
  unfolding lookup erase
  lookup-erase k j [] = ground arith
  lookup-erase k j ((i, w) ∷ d) =
      ground (arith, e.beq_iff k j, e.beq_iff i k, e.beq_iff i j, lookup-erase k j d)

  pub lookup-erase_self : (k : K) (d : Dict K V) → lookup k (erase k d) ≡ none
  lookup-erase_self k d = rw (lookup-erase, beq_self e k)

  pub insert-HasUniqueKeys :
      (k : K) (v : V) (d : Dict K V) → HasUniqueKeys d → HasUniqueKeys (insert k v d)
  unfolding insert lookup
  insert-HasUniqueKeys k v [] h = (refl, tt)
  insert-HasUniqueKeys k v ((j, w) ∷ d) h =
      ground
        (arith, e.beq_iff j k, e.beq_iff k j, lookup-insert k j v d, insert-HasUniqueKeys k v d h.1)

  pub erase-HasUniqueKeys : (k : K) (d : Dict K V) → HasUniqueKeys d → HasUniqueKeys (erase k d)
  unfolding erase lookup
  erase-HasUniqueKeys k [] h = tt
  erase-HasUniqueKeys k ((j, w) ∷ d) h =
      ground (arith, lookup-erase k j d, erase-HasUniqueKeys k d h.1)

  pub size-insert :
      (k : K) (v : V) (d : Dict K V)
      → size (insert k v d) ≡ (if contains k d then size d else suc (size d))
  unfolding insert size contains lookup
  size-insert k v [] = refl
  size-insert k v ((j, w) ∷ d) = ground (arith, size-insert k v d)

  erase_missing : (k : K) (d : Dict K V) → lookup k d ≡ none → erase k d ≡ d
  unfolding erase lookup
  erase_missing k [] h = refl
  erase_missing k ((j, w) ∷ d) h = ground (arith, erase_missing k d)

  pub size-erase :
      (k : K) (d : Dict K V)
      → HasUniqueKeys d
      → size d ≡ (if contains k d then suc (size (erase k d)) else size (erase k d))
  unfolding erase size contains lookup
  size-erase k [] h = refl
  size-erase k ((j, w) ∷ d) h = ground (arith, e.beq_iff j k, size-erase k d h.1, erase_missing k d)

  -- Every value that the map holds has the property.
  abbrev pub AllValues : (V → Type 0) → Dict K V → Type (ℓ ⊔ κ)
  AllValues P d = (k : K) (v : V) → lookup k d ≡ some v → P v

  pub insert-AllValues :
      (P : V → Type 0) (k : K) (v : V) (d : Dict K V)
      → AllValues P d
      → P v
      → AllValues P (insert k v d)
  insert-AllValues P k v d all h j w found = elim (Bool-cases (e.beq k j)) [
    | inl same ↦
        let agree : some v ≡ some w = sym (rw same at (lookup-insert k j v d)) ∙ found in
        subst P (cc) h
    | inr other ↦ all j w (sym (rw other at (lookup-insert k j v d)) ∙ found)
  ]

  pub erase-AllValues :
      (P : V → Type 0) (k : K) (d : Dict K V) → AllValues P d → AllValues P (erase k d)
  erase-AllValues P k d all j w found = elim (Bool-cases (e.beq k j)) [
    | inl same ↦ absurd (ground (arith, lookup-erase k j d))
    | inr other ↦ all j w (sym (rw other at (lookup-erase k j d)) ∙ found)
  ]

  -- Every entry has the property.
  abbrev pub AllEntries : (K × V → Type 0) → Dict K V → Type 0
  AllEntries P [] = Unit
  AllEntries P (x ∷ d) = P x × AllEntries P d

  pub insert-AllEntries :
      (P : K × V → Type 0) (k : K) (v : V) (d : Dict K V)
      → AllEntries P d
      → P (k, v)
      → AllEntries P (insert k v d)
  unfolding insert
  insert-AllEntries P k v [] all h = (h, tt)
  insert-AllEntries P k v ((j, w) ∷ d) all h = elim (Bool-cases (e.beq j k)) [
    | inl same ↦ rw same (subst (λ i. P (i, v)) (sym ((e.beq_iff j k).0 same)) h, all.1)
    | inr other ↦ rw other (all.0, insert-AllEntries P k v d all.1 h)
  ]

  pub erase-AllEntries :
      (P : K × V → Type 0) (k : K) (d : Dict K V) → AllEntries P d → AllEntries P (erase k d)
  unfolding erase
  erase-AllEntries P k [] all = tt
  erase-AllEntries P k ((j, w) ∷ d) all = elim (Bool-cases (e.beq j k)) [
    | inl same ↦ rw same (erase-AllEntries P k d all.1)
    | inr other ↦ rw other (all.0, erase-AllEntries P k d all.1)
  ]

  pub map-AllEntries :
      {P Q : K × V → Type 0} (d : Dict K V)
      → ((x : K × V) → P x → Q x)
      → AllEntries P d
      → AllEntries Q d
  map-AllEntries [] f all = tt
  map-AllEntries (x ∷ d) f all = (f x all.0, map-AllEntries d f all.1)

  pub lookup-AllEntries :
      (P : K × V → Type 0) (k : K) (v : V) (d : Dict K V)
      → AllEntries P d
      → lookup k d ≡ some v
      → P (k, v)
  unfolding lookup
  lookup-AllEntries P k v [] all found = absurd (ground arith)
  lookup-AllEntries P k v ((j, w) ∷ d) all found = elim (Bool-cases (e.beq j k)) [
    | inl same ↦
        let value : some w ≡ some v = rw same at found in
        let key : j ≡ k = (e.beq_iff j k).0 same in subst P (cc) all.0
    | inr other ↦ lookup-AllEntries P k v d all.1 (rw other at found)
  ]

  pub contains-lookup : (k : K) (d : Dict K V) → contains k d ≡ false → lookup k d ≡ none
  unfolding contains
  contains-lookup k d h = ground arith

  pub contains-head : (j k : K) (v : V) (d : Dict K V) → j ≡ k → contains j ((k, v) ∷ d) ≡ true
  unfolding contains lookup
  contains-head j k v d h = ground (arith, e.beq_iff k j)

  pub contains-tail :
      (j k : K) (v : V) (d : Dict K V) → contains j d ≡ true → contains j ((k, v) ∷ d) ≡ true
  unfolding contains lookup
  contains-tail j k v d h = elim (Bool-cases (e.beq k j)) [
    | inl same ↦ rw (same, contains) refl
    | inr other ↦ rw (other, contains) h
  ]
