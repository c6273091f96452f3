-- ===== src/BTreeSet.antt =====
-- `BTreeSet` of Rust's standard library: a list in ascending order.
use fava.Base.{
  ◌+◌, length, ◌≡◌, ◌↔◌, inl, inr, refl, Bool, true, false, not, ◌&&◌, ◌||◌, List, [], ◌∷◌, arith,
  if◌then◌else◌, keep, In, Bool-cases,
}
use fava.BTreeMap.{Key}

abbrev pub BTreeSet {ℓ} : Type ℓ → Type ℓ
BTreeSet K = List K

module _ {ℓ} {K : Type ℓ} ⦃key : Key K⦄ where
  unfoldable pub contains : K → BTreeSet K → Bool
  contains k [] = false
  contains k (j ∷ s) = key.beq j k || contains k s

  add : K → BTreeSet K → BTreeSet K
  add k [] = k ∷ []
  add k (j ∷ s) = if key.blt k j then k ∷ j ∷ s else j ∷ add k s

  unfoldable pub insert : K → BTreeSet K → BTreeSet K
  unfolding contains add
  insert k s = if contains k s then s else add k s

  -- `extend`, `difference` and `==`.
  unfoldable pub extend : BTreeSet K → List K → BTreeSet K
  extend s [] = s
  extend s (k ∷ ks) = extend (insert k s) ks

  unfoldable pub difference : BTreeSet K → BTreeSet K → BTreeSet K
  difference s t = keep (λ k. not (contains k t)) s

  unfoldable pub set_eq : BTreeSet K → BTreeSet K → Bool
  set_eq [] [] = true
  set_eq (a ∷ s) (b ∷ t) = key.beq a b && set_eq s t
  set_eq _ _ = false

module _ {ℓ} {K : Type ℓ} ⦃key : Key K⦄ where
  contains-add : (k j : K) (s : BTreeSet K) → contains j (add k s) ≡ (key.beq k j || contains j s)
  unfolding contains add
  contains-add k j [] = refl
  contains-add k j (i ∷ s) = ground (arith, contains-add k j s)

  pub contains-insert :
      (k j : K) (s : BTreeSet K) → contains j (insert k s) ≡ (key.beq k j || contains j s)
  unfolding insert
  contains-insert k j s = elim (Bool-cases (contains k s)) [
    | inl old ↦ ground (arith, key.beq_iff k j)
    | inr new ↦ rw new (contains-add k j s)
  ]

  pub contains-extend :
      (j : K) (s : BTreeSet K) (ks : List K)
      → contains j (extend s ks) ≡ (contains j s || contains j ks)
  unfolding extend contains
  contains-extend j s [] = ground arith
  contains-extend j s (k ∷ ks) =
      ground (arith, contains-extend j (insert k s) ks, contains-insert k j s)

  pub set_eq_iff : (s t : BTreeSet K) → (set_eq s t ≡ true) ↔ (s ≡ t)
  unfolding set_eq
  set_eq_iff [] [] = ground arith
  set_eq_iff [] (b ∷ t) = ground arith
  set_eq_iff (a ∷ s) [] = ground arith
  set_eq_iff (a ∷ s) (b ∷ t) = ground (arith, key.beq_iff a b, set_eq_iff s t)

module _ {K : Type 0} ⦃key : Key K⦄ where
  pub In-contains : (k : K) (s : BTreeSet K) → In k s → contains k s ≡ true
  unfolding contains
  In-contains k [] h = elim h [ ]
  In-contains k (j ∷ s) h = ground (arith, key.beq_iff j k, In-contains k s)

  pub contains-In : (k : K) (s : BTreeSet K) → contains k s ≡ true → In k s
  unfolding contains
  contains-In k [] h = cc
  contains-In k (j ∷ s) h = ground (arith, key.beq_iff j k, contains-In k s)

module _ {K : Type 0} ⦃key : Key K⦄ where
  length-add : (k : K) (s : BTreeSet K) → length (add k s) ≡ length s + 1
  unfolding add
  length-add k [] = refl
  length-add k (j ∷ s) = ground (arith, length-add k s)

  pub length-insert :
      (k : K) (s : BTreeSet K)
      → length (insert k s) ≡ (if contains k s then length s else length s + 1)
  unfolding insert
  length-insert k s = ground (arith, length-add k s)
