-- ===== src/BTreeMap.antt =====
-- `BTreeMap` and `BTreeSet` of Rust's standard library: a list in ascending order of its keys.
pub mod Distinct
pub mod Count
pub mod Weight
use Prim.Native.Nat.{Ordering}
use Prim.Native.String.{compare}
use fava.Base.{
  String, str_eq, eq_iff, ◌≢◌, ℕ, ◌+◌, ◌≤◌, ◌≡◌, refl, ◌↔◌, ◌⊎◌, inl, inr, Bool, true, false, ◌&&◌,
  ◌||◌, Option, none, some, List, [], ◌∷◌, arith, ltb, ◌==◌, if◌then◌else◌, Option-cases, is_none,
  In, length, ==_iff, map,
}

-- Keys that can be compared.
pub record Key {ℓ} (K : Type ℓ) : Type ℓ where
  pub beq : K → K → Bool
  pub blt : K → K → Bool
  pub beq_iff : (a b : K) → (beq a b ≡ true) ↔ (a ≡ b)

instance abbrev pub nat_key : Key ℕ
nat_key = record { beq = ◌==◌; blt = ltb; beq_iff = ==_iff }

pub pair_beq_iff : (a b : ℕ × ℕ) → ((a.0 == b.0 && a.1 == b.1) ≡ true) ↔ (a ≡ b)
pair_beq_iff a b = ground arith

-- Pairs are compared by their first parts first.
instance abbrev pub pair_key : Key (ℕ × ℕ)
pair_key = record {
  beq = λ a b. a.0 == b.0 && a.1 == b.1;
  blt = λ a b. ltb a.0 b.0 || (a.0 == b.0 && ltb a.1 b.1);
  beq_iff = pair_beq_iff;
}

instance abbrev pub string_key : Key String
string_key = record {
  beq = str_eq;
  blt = λ a b. elim (compare a b) [ Ordering.lt ↦ true | _ ↦ false ];
  beq_iff = eq_iff;
}

abbrev pub BTreeMap {ℓ} : Type ℓ → Type ℓ → Type ℓ
BTreeMap K V = List (K × V)

module _ {ℓ} {K V : Type ℓ} where
  abbrev pub keys : BTreeMap K V → List K
  keys = map (λ e. e.0)

  abbrev pub values : BTreeMap K V → List V
  values = map (λ e. e.1)

module _ {ℓ} {K V : Type ℓ} ⦃key : Key K⦄ where
  unfoldable pub get : K → BTreeMap K V → Option V
  get k [] = none
  get k ((j, v) ∷ m) = if key.beq j k then some v else get k m

  -- A new value under a key that is there, and a new entry at its place in the order.
  replace : K → V → BTreeMap K V → BTreeMap K V
  replace k v [] = []
  replace k v ((j, w) ∷ m) = if key.beq j k then (k, v) ∷ m else (j, w) ∷ replace k v m

  add : K → V → BTreeMap K V → BTreeMap K V
  add k v [] = (k, v) ∷ []
  add k v ((j, w) ∷ m) = if key.blt k j then (k, v) ∷ (j, w) ∷ m else (j, w) ∷ add k v m

  unfoldable pub insert : K → V → BTreeMap K V → BTreeMap K V
  unfolding get replace add
  insert k v m = if is_none (get k m) then add k v m else replace k v m

  unfoldable pub remove : K → BTreeMap K V → BTreeMap K V
  remove k [] = []
  remove k ((j, v) ∷ m) = if key.beq j k then remove k m else (j, v) ∷ remove k m

module _ {ℓ} {K V : Type ℓ} ⦃key : Key K⦄ where
  get-replace :
      (k j : K) (v : V) {w : V} (m : BTreeMap K V)
      → get k m ≡ some w
      → get j (replace k v m) ≡ (if key.beq k j then some v else get j m)
  unfolding get replace
  get-replace k j v [] h = cc
  get-replace k j v {w = w'} ((i, w) ∷ m) h =
      ground
        (arith, key.beq_iff k j, key.beq_iff i k, key.beq_iff i j, get-replace k j v {w = w'} m)

  get-add :
      (k j : K) (v : V) (m : BTreeMap K V)
      → get k m ≡ none
      → get j (add k v m) ≡ (if key.beq k j then some v else get j m)
  unfolding get add
  get-add k j v [] h = refl
  get-add k j v ((i, w) ∷ m) h =
      ground (arith, key.beq_iff k j, key.beq_iff i k, key.beq_iff i j, get-add k j v m)

  pub get-insert :
      (k j : K) (v : V) (m : BTreeMap K V)
      → get j (insert k v m) ≡ (if key.beq k j then some v else get j m)
  unfolding insert
  get-insert k j v m = elim (Option-cases (get k m)) [
    | inl miss ↦ rw (miss, is_none) (get-add k j v m miss)
    | inr (w, hit) ↦ rw (hit, is_none) (get-replace k j v m hit)
  ]

  pub get-remove :
      (k j : K) (m : BTreeMap K V) → get j (remove k m) ≡ (if key.beq k j then none else get j m)
  unfolding get remove
  get-remove k j [] = ground arith
  get-remove k j ((i, w) ∷ m) =
      ground (arith, key.beq_iff k j, key.beq_iff i k, key.beq_iff i j, get-remove k j m)

  length-replace : (k : K) (v : V) (m : BTreeMap K V) → length (replace k v m) ≡ length m
  unfolding replace
  length-replace k v [] = refl
  length-replace k v ((i, w) ∷ m) = ground (arith, length-replace k v m)

  length-add : (k : K) (v : V) (m : BTreeMap K V) → length (add k v m) ≡ length m + 1
  unfolding add
  length-add k v [] = omega arith
  length-add k v ((i, w) ∷ m) = ground (arith, length-add k v m)

  -- A map grows by one entry when the key is new, and keeps its size when it is there.
  pub length-insert :
      (k : K) (v : V) (m : BTreeMap K V)
      → length (insert k v m) ≡ (if is_none (get k m) then length m + 1 else length m)
  unfolding insert
  length-insert k v m = elim (Option-cases (get k m)) [
    | inl miss ↦ rw (miss, is_none) (length-add k v m)
    | inr (w, hit) ↦ rw (hit, is_none) (length-replace k v m)
  ]

  pub length-remove-le : (k : K) (m : BTreeMap K V) → length (remove k m) ≤ length m
  unfolding remove
  length-remove-le k [] = omega arith
  length-remove-le k ((i, w) ∷ m) = ground (arith, length-remove-le k m)

  pub length-remove-lt :
      (k : K) {v : V} (m : BTreeMap K V) → get k m ≡ some v → length (remove k m) + 1 ≤ length m
  unfolding remove get
  length-remove-lt k [] h = cc
  length-remove-lt k {v = v} ((i, w) ∷ m) h =
      ground (arith, length-remove-le k m, length-remove-lt k {v = v} m)

-- The entries of a changed map.
module _ {K V : Type 0} ⦃key : Key K⦄ where
  In-replace :
      (e : K × V) (k : K) (v : V) (m : BTreeMap K V) → In e (replace k v m) → ((k, v) ≡ e) ⊎ In e m
  unfolding replace
  In-replace e k v [] h = elim h [ ]
  In-replace e k v ((i, w) ∷ m) h = ground (arith, In-replace e k v m)

  In-add : (e : K × V) (k : K) (v : V) (m : BTreeMap K V) → In e (add k v m) → ((k, v) ≡ e) ⊎ In e m
  unfolding add
  In-add e k v [] h = ground arith
  In-add e k v ((i, w) ∷ m) h = ground (arith, In-add e k v m)

  pub In-insert :
      (e : K × V) (k : K) (v : V) (m : BTreeMap K V) → In e (insert k v m) → ((k, v) ≡ e) ⊎ In e m
  unfolding insert
  In-insert e k v m h = ground (arith, In-add e k v m, In-replace e k v m)

  pub In-remove :
      (e : K × V) (k : K) (m : BTreeMap K V) → In e (remove k m) → In e m × (key.beq e.0 k ≡ false)
  unfolding remove
  In-remove e k [] h = elim h [ ]
  In-remove e k ((i, w) ∷ m) h = ground (arith, In-remove e k m)

  pub In-get : (k : K) {v : V} (m : BTreeMap K V) → get k m ≡ some v → In (k, v) m
  unfolding get
  In-get k [] h = cc
  In-get k {v} ((i, w) ∷ m) h = ground (arith, key.beq_iff i k, In-get k {v = v} m)

  pub get-ne-none_of_In : (e : K × V) (m : BTreeMap K V) → In e m → get e.0 m ≢ none
  unfolding get
  get-ne-none_of_In e [] h = elim h [ ]
  get-ne-none_of_In e ((i, w) ∷ m) h = ground (arith, key.beq_iff i e.0, get-ne-none_of_In e m)

module _ {ℓ} {K V : Type ℓ} ⦃key : Key K⦄ where
  -- An insertion under a key that is there, by the place of the key.
  pub insert-here :
      (k n : K) (u a : V) (m : BTreeMap K V)
      → key.beq n k ≡ true
      → insert k u ((n, a) ∷ m) ≡ (k, u) ∷ m
  unfolding insert
  insert-here k n u a m h = ground arith

  pub insert-there :
      (k n : K) (u a : V) {w : V} (m : BTreeMap K V)
      → key.beq n k ≡ false
      → get k m ≡ some w
      → insert k u ((n, a) ∷ m) ≡ (n, a) ∷ insert k u m
  unfolding insert
  insert-there k n u a m h hit = ground arith
