-- ===== src/BTreeMap/Count.antt =====
-- `BTreeMap`: how many values have a property.
use fava.Base.{ℕ, ◌+◌, ◌≤◌, ◌≡◌, arith, Bool, none, [], ◌∷◌, length, keep, if◌then◌else◌, is_none}
use fava.BTreeMap.{BTreeMap, Key, get, insert, remove, add, values}

module _ {K V : Type 0} ⦃key : Key K⦄ where
  unfoldable pub count : (V → Bool) → BTreeMap K V → ℕ
  count p m = length (keep p (values m))

  count-add :
      (p : V → Bool) (k : K) (v : V) (m : BTreeMap K V)
      → count p (add k v m) ≡ count p m + (if p v then 1 else 0)
  unfolding count add
  count-add p k v [] = ground arith
  count-add p k v ((i, w) ∷ m) = ground (arith, count-add p k v m)

  pub count-insert :
      (p : V → Bool) (k : K) (v : V) (m : BTreeMap K V)
      → get k m ≡ none
      → count p (insert k v m) ≡ count p m + (if p v then 1 else 0)
  unfolding insert
  count-insert p k v m miss = rw (miss, is_none) (count-add p k v m)

  pub count-remove : (p : V → Bool) (k : K) (m : BTreeMap K V) → count p (remove k m) ≤ count p m
  unfolding count remove
  count-remove p k [] = omega arith
  count-remove p k ((i, w) ∷ m) = ground (arith, count-remove p k m)
