-- ===== src/BTreeMap/Weight.antt =====
-- `BTreeMap`: what a number for each value adds up to.
use fava.Base.{ℕ, ◌+◌, ◌≤◌, ◌≡◌, refl, arith, none, some, [], ◌∷◌, is_none}
use fava.BTreeMap.{BTreeMap, Key, get, insert, remove, add, replace}

module _ {K V : Type 0} ⦃key : Key K⦄ (w : V → ℕ) where
  unfoldable pub weight : BTreeMap K V → ℕ
  weight [] = 0
  weight ((k, v) ∷ m) = w v + weight m

  weight-add : (k : K) (v : V) (m : BTreeMap K V) → weight (add k v m) ≡ w v + weight m
  unfolding add weight
  weight-add k v [] = refl
  weight-add k v ((j, x) ∷ m) = ground (arith, weight-add k v m)

  weight-replace :
      (k : K) (v old : V) (m : BTreeMap K V)
      → get k m ≡ some old
      → weight (replace k v m) + w old ≡ w v + weight m
  unfolding replace get weight
  weight-replace k v old [] h = cc
  weight-replace k v old ((j, x) ∷ m) h = ground (arith, weight-replace k v old m)

  pub weight-insert_new :
      (k : K) (v : V) (m : BTreeMap K V) → get k m ≡ none → weight (insert k v m) ≡ w v + weight m
  unfolding insert
  weight-insert_new k v m h = rw (h, is_none) (weight-add k v m)

  pub weight-insert_old :
      (k : K) (v old : V) (m : BTreeMap K V)
      → get k m ≡ some old
      → weight (insert k v m) + w old ≡ w v + weight m
  unfolding insert
  weight-insert_old k v old m h = rw (h, is_none) (weight-replace k v old m h)

  pub weight-remove-le : (k : K) (m : BTreeMap K V) → weight (remove k m) ≤ weight m
  unfolding remove weight
  weight-remove-le k [] = omega arith
  weight-remove-le k ((j, x) ∷ m) = ground (arith, weight-remove-le k m)

  pub weight-remove :
      (k : K) (v : V) (m : BTreeMap K V) → get k m ≡ some v → w v + weight (remove k m) ≤ weight m
  unfolding remove get weight
  weight-remove k v [] h = cc
  weight-remove k v ((j, x) ∷ m) h = ground (arith, weight-remove k v m, weight-remove-le k m)
