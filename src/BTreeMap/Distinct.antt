-- ===== src/BTreeMap/Distinct.antt =====
-- `BTreeMap` holds a key once: what its entries are, and that changes keep it so.
use fava.Base.{
  ◌≡◌, inl, inr, refl, arith, some, none, [], ◌∷◌, In, Bool-cases, Option-cases, is_none,
}
use fava.BTreeMap.{
  BTreeMap, Key, get, insert, remove, add, replace, get-add, get-replace, get-remove,
}

module _ {K V : Type 0} ⦃key : Key K⦄ where
  abbrev pub Distinct : BTreeMap K V → Type 0
  Distinct [] = Unit
  Distinct ((k, v) ∷ m) = (get k m ≡ none) × Distinct m

  pub get_of_In : (e : K × V) (m : BTreeMap K V) → Distinct m → In e m → get e.0 m ≡ some e.1
  unfolding get
  get_of_In e [] d h = elim h [ ]
  get_of_In e ((i, w) ∷ m) d h = elim h [
    | inl p ↦ ground (arith, key.beq_iff i e.0)
    | inr j ↦ ground (arith, key.beq_iff i e.0, get_of_In e m d.1 j)
  ]

  Distinct-add :
      (k : K) (v : V) (m : BTreeMap K V) → get k m ≡ none → Distinct m → Distinct (add k v m)
  unfolding add get
  Distinct-add k v [] h d = (refl, tt)
  Distinct-add k v ((i, w) ∷ m) h d = elim (Bool-cases (key.blt k i)) [
    | inl less ↦ rw less (h, d)
    | inr more ↦ rw more (
      ground (arith, d.0, key.beq_iff k i, key.beq_iff i k, get-add k i v m),
      Distinct-add k v m (ground arith) d.1,
    )
  ]

  Distinct-replace :
      (k : K) (v : V) {w : V} (m : BTreeMap K V)
      → get k m ≡ some w
      → Distinct m
      → Distinct (replace k v m)
  unfolding replace get
  Distinct-replace k v [] h d = d
  Distinct-replace k v {w = w'} ((i, w) ∷ m) h d = elim (Bool-cases (key.beq i k)) [
    | inl same ↦ rw same (ground (arith, d.0, key.beq_iff i k), d.1)
    | inr other ↦
        let there : get k m ≡ some w' = ground arith in
        rw other (
          ground (arith, d.0, key.beq_iff k i, key.beq_iff i k, get-replace k i v m there),
          Distinct-replace k v m there d.1,
        )
  ]

  pub Distinct-insert : (k : K) (v : V) (m : BTreeMap K V) → Distinct m → Distinct (insert k v m)
  unfolding insert
  Distinct-insert k v m d = elim (Option-cases (get k m)) [
    | inl miss ↦ rw (miss, is_none) (Distinct-add k v m miss d)
    | inr (w, hit) ↦ rw (hit, is_none) (Distinct-replace k v m hit d)
  ]

  pub Distinct-remove : (k : K) (m : BTreeMap K V) → Distinct m → Distinct (remove k m)
  unfolding remove
  Distinct-remove k [] d = d
  Distinct-remove k ((i, w) ∷ m) d = elim (Bool-cases (key.beq i k)) [
    | inl same ↦ rw same (Distinct-remove k m d.1)
    | inr other ↦ rw other (ground (arith, d.0, get-remove k i m), Distinct-remove k m d.1)
  ]
