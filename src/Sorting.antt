-- ===== src/Sorting.antt =====
-- `sort_by` and `sort` of Rust's vectors, and what a sorted vector holds.
use fava.Base.{
  ℕ, ◌+◌, ◌≡◌, ◌⊎◌, refl, arith, Bool, true, false, List, [], ◌∷◌, take, All, length, In, inl, inr,
  if◌then◌else◌, Bool-cases, zero, suc,
}

-- Equal elements keep their order.
module _ {A : Type 0} (before : A → A → Bool) where
  unfoldable pub place_in_order : A → List A → List A
  place_in_order x [] = x ∷ []
  place_in_order x (y ∷ ys) = if before y x then y ∷ place_in_order x ys else x ∷ y ∷ ys

  unfoldable pub sort_by : List A → List A
  unfolding place_in_order
  sort_by [] = []
  sort_by (x ∷ xs) = place_in_order x (sort_by xs)

module _ {A : Type 0} (before : A → A → Bool) where
  place-In : (x y : A) (xs : List A) → In y (place_in_order before x xs) → (x ≡ y) ⊎ In y xs
  unfolding place_in_order
  place-In x y [] i = i
  place-In x y (z ∷ xs) i = ground (arith, place-In x y xs)

  place_of_In : (x y : A) (xs : List A) → (x ≡ y) ⊎ In y xs → In y (place_in_order before x xs)
  unfolding place_in_order
  place_of_In x y [] i = i
  place_of_In x y (z ∷ xs) i = ground (arith, place_of_In x y xs)

  pub sort_by-In : (y : A) (xs : List A) → In y (sort_by before xs) → In y xs
  unfolding sort_by
  sort_by-In y [] i = i
  sort_by-In y (x ∷ xs) i = ground (arith, place-In x y (sort_by before xs), sort_by-In y xs)

  pub sort_by_of_In : (y : A) (xs : List A) → In y xs → In y (sort_by before xs)
  unfolding sort_by
  sort_by_of_In y [] i = i
  sort_by_of_In y (x ∷ xs) i =
      ground (arith, place_of_In x y (sort_by before xs), sort_by_of_In y xs)

  length-place : (x : A) (xs : List A) → length (place_in_order before x xs) ≡ length xs + 1
  unfolding place_in_order
  length-place x [] = omega arith
  length-place x (y ∷ xs) = ground (arith, length-place x xs)

  pub length-sort_by : (xs : List A) → length (sort_by before xs) ≡ length xs
  unfolding sort_by
  length-sort_by [] = refl
  length-sort_by (x ∷ xs) = omega (arith, length-place x (sort_by before xs), length-sort_by xs)

  -- No element stands behind one that it comes before.
  abbrev pub Sorted : List A → Type 0
  Sorted [] = Unit
  Sorted (x ∷ xs) = All (λ y. before y x ≡ false) xs × Sorted xs

  All-place :
      (P : A → Type 0) (x : A) (xs : List A) → P x → All P xs → All P (place_in_order before x xs)
  unfolding place_in_order
  All-place P x [] p ps = (p, tt)
  All-place P x (y ∷ ys) p ps = elim (Bool-cases (before y x)) [
    | inl first ↦ rw first (ps.0, All-place P x ys p ps.1)
    | inr second ↦ rw second (p, ps)
  ]

  All-take : (P : A → Type 0) (n : ℕ) (xs : List A) → All P xs → All P (take n xs)
  All-take P zero xs ps = tt
  All-take P (suc n) [] ps = tt
  All-take P (suc n) (x ∷ xs) ps = (ps.0, All-take P n xs ps.1)

  pub Sorted-take : (n : ℕ) (xs : List A) → Sorted xs → Sorted (take n xs)
  Sorted-take zero xs s = tt
  Sorted-take (suc n) [] s = tt
  Sorted-take (suc n) (x ∷ xs) s =
      (All-take (λ y. before y x ≡ false) n xs s.0, Sorted-take n xs s.1)

  -- An order in which no element comes before itself.
  pub record IsOrder : Type 0 where
    pub asymmetric : (x y : A) → before x y ≡ true → before y x ≡ false
    pub transitive : (x y z : A) → before y x ≡ false → before z y ≡ false → before z x ≡ false

  behind :
      (order : IsOrder) (x y : A) (ys : List A)
      → before y x ≡ false
      → All (λ z. before z y ≡ false) ys
      → All (λ z. before z x ≡ false) ys
  behind order x y [] h ps = tt
  behind order x y (z ∷ ys) h ps = (order.transitive x y z h ps.0, behind order x y ys h ps.1)

  place-Sorted :
      (order : IsOrder) (x : A) (xs : List A) → Sorted xs → Sorted (place_in_order before x xs)
  unfolding place_in_order
  place-Sorted order x [] s = (tt, tt)
  place-Sorted order x (y ∷ ys) s = elim (Bool-cases (before y x)) [
    | inl first ↦ rw first (
      All-place (λ z. before z y ≡ false) x ys (order.asymmetric y x first) s.0,
      place-Sorted order x ys s.1,
    )
    | inr second ↦ rw second ((second, behind order x y ys second s.0), s)
  ]

  pub sort_by-Sorted : (order : IsOrder) (xs : List A) → Sorted (sort_by before xs)
  unfolding sort_by
  sort_by-Sorted order [] = tt
  sort_by-Sorted order (x ∷ xs) = place-Sorted order x (sort_by before xs) (sort_by-Sorted order xs)
