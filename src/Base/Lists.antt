-- ===== src/Base/Lists.antt =====
-- Lists measured by native numbers, with the searches of Rust's iterators as functions into Bool.
use Prim.Native.Nat.{ℕ, zero, suc, ◌≤◌, ◌+◌}
use mathlib.Core.Path.{subst, sym, ◌≡◌, refl, ap}
use mathlib.Core.Logic.{◌⊎◌, inl, inr}
use mathlib.Core.Bool.{Bool, true, false, ◌&&◌, ◌||◌}
use mathlib.Core.List.{List, [], ◌∷◌, ◌++◌, map}
use mathlib.Core.Option.{Option, none, some}
use native.Mathlib.Omega.{arith}
use fava.Base.Tests.{if◌then◌else◌, Bool-cases}

module _ {ℓ} {A : Type ℓ} where
  abbrev pub length : List A → ℕ
  length [] = 0
  length (x ∷ xs) = suc (length xs)

  -- `iter().any`, `iter().all`, `iter().filter` and `iter().find`.
  abbrev pub any : (A → Bool) → List A → Bool
  any p [] = false
  any p (x ∷ xs) = p x || any p xs

  abbrev pub all : (A → Bool) → List A → Bool
  all p [] = true
  all p (x ∷ xs) = p x && all p xs

  abbrev pub keep : (A → Bool) → List A → List A
  keep p [] = []
  keep p (x ∷ xs) = if p x then x ∷ keep p xs else keep p xs

  abbrev pub find : (A → Bool) → List A → Option A
  find p [] = none
  find p (x ∷ xs) = if p x then some x else find p xs

  -- `truncate` of a vector.
  abbrev pub take : ℕ → List A → List A
  take zero xs = []
  take (suc n) [] = []
  take (suc n) (x ∷ xs) = x ∷ take n xs

  abbrev pub drop : ℕ → List A → List A
  drop zero xs = xs
  drop (suc n) [] = []
  drop (suc n) (x ∷ xs) = drop n xs

  abbrev pub is_empty : List A → Bool
  is_empty [] = true
  is_empty (_ ∷ _) = false

  -- Every element has the property.
  abbrev pub All {κ} : (A → Type κ) → List A → Type κ
  All P [] = Unit
  All P (x ∷ xs) = P x × All P xs

  pub length-take : (n : ℕ) (xs : List A) → length (take n xs) ≤ n
  length-take zero xs = omega arith
  length-take (suc n) [] = omega arith
  length-take (suc n) (x ∷ xs) = omega (arith, length-take n xs)

  pub take-append-drop : (n : ℕ) (xs : List A) → take n xs ++ drop n xs ≡ xs
  take-append-drop zero xs = refl
  take-append-drop (suc n) [] = refl
  take-append-drop (suc n) (x ∷ xs) = ground (arith, take-append-drop n xs)

  pub length-append : (xs ys : List A) → length (xs ++ ys) ≡ length xs + length ys
  length-append [] ys = omega arith
  length-append (x ∷ xs) ys = omega (arith, length-append xs ys)

abbrev pub In : {A : Type 0} → A → List A → Type 0
In a [] = ⊥
In a (x ∷ xs) = (x ≡ a) ⊎ In a xs

module _ {A : Type 0} where
  pub In-append : (a : A) (xs ys : List A) → In a (xs ++ ys) → In a xs ⊎ In a ys
  In-append a [] ys h = inr h
  In-append a (x ∷ xs) ys h = ground (arith, In-append a xs ys)

  pub In-keep : (a : A) (p : A → Bool) (xs : List A) → In a (keep p xs) → In a xs × (p a ≡ true)
  In-keep a p [] h = elim h [ ]
  In-keep a p (x ∷ xs) h = ground (arith, In-keep a p xs)

  pub keep_of_In : (a : A) (p : A → Bool) (xs : List A) → In a xs → p a ≡ true → In a (keep p xs)
  keep_of_In a p [] h q = elim h [ ]
  keep_of_In a p (x ∷ xs) h q = ground (arith, keep_of_In a p xs)

  pub In-any : (p : A → Bool) (xs : List A) → any p xs ≡ true → (a : A) × In a xs × (p a ≡ true)
  In-any p [] h = cc
  In-any p (x ∷ xs) h = elim (Bool-cases (p x)) [
    | inl yes_x ↦ (x, inl refl, yes_x)
    | inr no_x ↦ let (a, i, q) = In-any p xs (ground arith) in (a, inr i, q)
  ]

  pub any_of_In : (a : A) (p : A → Bool) (xs : List A) → In a xs → p a ≡ true → any p xs ≡ true
  any_of_In a p [] h q = elim h [ ]
  any_of_In a p (x ∷ xs) h q = ground (arith, any_of_In a p xs)

  pub In-all : (a : A) (p : A → Bool) (xs : List A) → all p xs ≡ true → In a xs → p a ≡ true
  In-all a p [] h i = elim i [ ]
  In-all a p (x ∷ xs) h i = ground (arith, In-all a p xs)

  pub all_of_In : (p : A → Bool) (xs : List A) → ((a : A) → In a xs → p a ≡ true) → all p xs ≡ true
  all_of_In p [] h = refl
  all_of_In p (x ∷ xs) h = rw (h x (inl refl)) (all_of_In p xs (λ a i. h a (inr i)))

  pub find-some : (p : A → Bool) (xs : List A) {a : A} → find p xs ≡ some a → In a xs × (p a ≡ true)
  find-some p [] h = cc
  find-some p (x ∷ xs) {a} h = ground (arith, find-some p xs {a = a})

  pub find-none : (a : A) (p : A → Bool) (xs : List A) → find p xs ≡ none → In a xs → p a ≡ false
  find-none a p [] h i = elim i [ ]
  find-none a p (x ∷ xs) h i = ground (arith, find-none a p xs)

module _ {A B : Type 0} where
  pub In-map : (b : B) (f : A → B) (xs : List A) → In b (map f xs) → (a : A) × In a xs × (f a ≡ b)
  In-map b f [] h = elim h [ ]
  In-map b f (x ∷ xs) (inl e) = (x, inl refl, e)
  In-map b f (x ∷ xs) (inr h) = let (a, i, q) = In-map b f xs h in (a, inr i, q)

  pub map_of_In : (a : A) (f : A → B) (xs : List A) → In a xs → In (f a) (map f xs)
  map_of_In a f [] h = elim h [ ]
  map_of_In a f (x ∷ xs) (inl e) = inl (ap f e)
  map_of_In a f (x ∷ xs) (inr h) = inr (map_of_In a f xs h)

module _ {A : Type 0} where
  pub append_left : (a : A) (xs ys : List A) → In a xs → In a (xs ++ ys)
  append_left a [] ys h = elim h [ ]
  append_left a (x ∷ xs) ys (inl e) = inl e
  append_left a (x ∷ xs) ys (inr h) = inr (append_left a xs ys h)

  pub append_right : (a : A) (xs ys : List A) → In a ys → In a (xs ++ ys)
  append_right a [] ys h = h
  append_right a (x ∷ xs) ys h = inr (append_right a xs ys h)

module _ {κ} {A : Type 0} (P : A → Type κ) where
  pub All-of_In : (xs : List A) → ((a : A) → In a xs → P a) → All P xs
  All-of_In [] h = tt
  All-of_In (x ∷ xs) h = (h x (inl refl), All-of_In xs (λ a i. h a (inr i)))

  pub In-All : (xs : List A) (a : A) → All P xs → In a xs → P a
  In-All [] a h i = elim i [ ]
  In-All (x ∷ xs) a h (inl e) = subst P e h.0
  In-All (x ∷ xs) a h (inr i) = In-All xs a h.1 i

module _ {A : Type 0} where
  -- An element is in one of the two parts of a list, and what is in a part is in the list.
  pub In-half : (n : ℕ) (a : A) (xs : List A) → In a xs → In a (take n xs) ⊎ In a (drop n xs)
  In-half n a xs i =
      In-append a (take n xs) (drop n xs) (subst (In a) (sym (take-append-drop n xs)) i)

  pub In-take : (n : ℕ) (a : A) (xs : List A) → In a (take n xs) → In a xs
  In-take n a xs i = subst (In a) (take-append-drop n xs) (append_left a (take n xs) (drop n xs) i)

  pub In-drop : (n : ℕ) (a : A) (xs : List A) → In a (drop n xs) → In a xs
  In-drop n a xs i = subst (In a) (take-append-drop n xs) (append_right a (take n xs) (drop n xs) i)
