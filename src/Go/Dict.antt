-- ===== src/Go/Dict.antt =====
-- Go's maps as association lists with one entry for a key. Go leaves the order of an iteration
-- open: here it is the order of the entries, so a theorem about an iteration holds for each order.
use freno.Prelude.{◌≡◌, refl, List, [], ◌∷◌, Option, none, some, arith, if◌then◌else◌, Eq, All}

abbrev pub Dict {ℓ κ} : Type ℓ → Type κ → Type (ℓ ⊔ κ)
Dict K V = List (K × V)

module _ {ℓ κ} {K : Type ℓ} {V : Type κ} ⦃e : Eq K⦄ where
  -- v, ok := m[k]
  unfoldable pub lookup : K → Dict K V → Option V
  lookup k [] = none
  lookup k ((j, v) ∷ m) = if e.beq j k then some v else lookup k m

  -- m[k] = v
  unfoldable pub insert : K → V → Dict K V → Dict K V
  insert k v [] = (k, v) ∷ []
  insert k v ((j, w) ∷ m) = if e.beq j k then (k, v) ∷ m else (j, w) ∷ insert k v m

  -- delete(m, k)
  unfoldable pub erase : K → Dict K V → Dict K V
  erase k [] = []
  erase k ((j, w) ∷ m) = let rest = erase k m in if e.beq j k then rest else (j, w) ∷ rest

  pub lookup-insert :
      (k j : K) (v : V) (m : Dict K V)
      → lookup j (insert k v m) ≡ (if e.beq k j then some v else lookup j m)
  unfolding lookup insert
  lookup-insert k j v [] = refl
  lookup-insert k j v ((i, w) ∷ m) =
      ground (arith, e.beq_iff k j, e.beq_iff i k, e.beq_iff i j, lookup-insert k j v m)

  pub lookup-erase :
      (k j : K) (m : Dict K V) → lookup j (erase k m) ≡ (if e.beq k j then none else lookup j m)
  unfolding lookup erase
  lookup-erase k j [] = ground arith
  lookup-erase k j ((i, w) ∷ m) =
      ground (arith, e.beq_iff k j, e.beq_iff i k, e.beq_iff i j, lookup-erase k j m)

  -- No key has two entries.
  abbrev pub KeysOnce : Dict K V → Type κ
  KeysOnce [] = Unit
  KeysOnce ((k, v) ∷ m) = (lookup k m ≡ none) × KeysOnce m

  pub insert-KeysOnce : (k : K) (v : V) (m : Dict K V) → KeysOnce m → KeysOnce (insert k v m)
  unfolding insert lookup
  insert-KeysOnce k v [] h = (refl, tt)
  insert-KeysOnce k v ((j, w) ∷ m) (a, h) =
      ground (arith, e.beq_iff j k, e.beq_iff k j, lookup-insert k j v m, insert-KeysOnce k v m h)

  pub erase-KeysOnce : (k : K) (m : Dict K V) → KeysOnce m → KeysOnce (erase k m)
  unfolding erase lookup
  erase-KeysOnce k [] h = tt
  erase-KeysOnce k ((j, w) ∷ m) (a, h) =
      ground (arith, e.beq_iff j k, e.beq_iff k j, lookup-erase k j m, erase-KeysOnce k m h)

  -- What holds of each key with its value holds of each entry.
  pub All-lookup {ι} :
      (P : K → V → Type ι) (m : Dict K V)
      → KeysOnce m
      → ((k : K) (v : V) → lookup k m ≡ some v → P k v)
      → All (λ item. P item.0 item.1) m
  unfolding lookup
  All-lookup P [] once h = tt
  All-lookup P ((k, v) ∷ m) (n, once) h = (
    h k v (ground (arith, e.beq_iff k k)),
    All-lookup P m once (λ j w f. h j w (ground (arith, f, n, e.beq_iff k j))),
  )
