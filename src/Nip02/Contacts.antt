-- ===== src/Nip02/Contacts.antt =====
-- crates/fava-nip02/src/edit.rs, `apply`: a change decides whether its target is in the list, and
-- leaves the rest as it is.
use fava.Base.{
  ◌≡◌, refl, arith, Bool, true, false, not, ◌&&◌, ◌||◌, List, [], ◌∷◌, ◌++◌, keep, length, ok,
  ok_injective, >>=-eq-ok, Bool-cases, inl, inr, ◌⊎◌, ==_refl,
}
use fava.Nostr.{PublicKey}
use fava.Nip02.Text.{text_beq}
use fava.Nip02.Change.{Row, Operation, Change, Crate, IsDocumented}
use fava.Nip02.Rows.{
  letter_p, is_remove, tag_targets, canonical_row, keep_rows, is_found, apply, values_of,
}

pub keep-append :
    {A : Type 0} (p : A → Bool) (xs ys : List A) → keep p (xs ++ ys) ≡ keep p xs ++ keep p ys
keep-append p [] ys = refl
keep-append p (x ∷ xs) ys = ground (arith, keep-append p xs ys)

module _ (crate : Crate) (documented : IsDocumented crate) (target : PublicKey) where
  abbrev pub targets : Row → Bool
  targets = tag_targets crate target

  abbrev pub others : List Row → List Row
  others = keep (λ row. not (targets row))

  abbrev pub rows_of : List Row → List Row
  rows_of = keep targets

  pub keep_rows-others :
      (removes found : Bool) (rows : List Row)
      → others (keep_rows crate removes target found rows) ≡ others rows
  unfolding keep_rows
  keep_rows-others removes found [] = refl
  keep_rows-others removes found (row ∷ rows) =
      ground (arith, keep_rows-others removes (found || (not removes && targets row)) rows)

  -- What is left of the rows that name the target.
  abbrev pub first_row : List Row → List Row
  first_row [] = []
  first_row (row ∷ _) = row ∷ []

  abbrev pub left_of : Bool → Bool → List Row → List Row
  left_of true found rows = []
  left_of false true rows = []
  left_of false false rows = first_row rows

  pub keep_rows-rows_of :
      (removes found : Bool) (rows : List Row)
      → rows_of (keep_rows crate removes target found rows) ≡ left_of removes found (rows_of rows)
  unfolding keep_rows
  keep_rows-rows_of true found [] = refl
  keep_rows-rows_of false true [] = refl
  keep_rows-rows_of false false [] = refl
  keep_rows-rows_of true found (row ∷ rows) =
      ground (arith, keep_rows-rows_of true (found || (not true && targets row)) rows)
  keep_rows-rows_of false true (row ∷ rows) = ground (arith, keep_rows-rows_of false true rows)
  keep_rows-rows_of false false (row ∷ rows) =
      ground (arith, keep_rows-rows_of false true rows, keep_rows-rows_of false false rows)

  canonical_row-targets :
      (operation : Operation) {row : Row}
      → canonical_row crate (record { operation = operation; target = target }) ≡ ok row
      → targets row ≡ true
  unfolding canonical_row tag_targets text_beq
  canonical_row-targets operation {row} h =
      let parsed =
        documented.tag_again letter_p (crate.to_hex target ∷ values_of crate operation) in
      rw (← ok_injective (rw (parsed, canonical_row) at h))
        (rw (documented.hex_again target) (==_refl target))

  is_found-none : (rows : List Row) → is_found crate false target rows ≡ false → rows_of rows ≡ []
  unfolding is_found
  is_found-none [] h = refl
  is_found-none (row ∷ rows) h = ground (arith, is_found-none rows)

  is_found-some :
      (rows : List Row)
      → is_found crate false target rows ≡ true
      → (row : Row) × (more : List Row) × (rows_of rows ≡ row ∷ more)
  unfolding is_found
  is_found-some [] h = cc
  is_found-some (row ∷ rows) h = elim (Bool-cases (targets row)) [
    | inl named ↦ (row, rows_of rows, rw named refl)
    | inr other ↦
        let (x, more, e) = is_found-some rows (ground (arith, other)) in (x, more, rw other e)
  ]

  pub keep_rows-none :
      (removes found : Bool) (rows : List Row)
      → rows_of rows ≡ []
      → keep_rows crate removes target found rows ≡ rows
  unfolding keep_rows
  keep_rows-none removes found [] h = refl
  keep_rows-none removes found (row ∷ rows) h =
      ground (arith, keep_rows-none removes (found || (not removes && targets row)) rows)

  pub keep_rows-one :
      (rows : List Row) → length (rows_of rows) ≡ 1 → keep_rows crate false target false rows ≡ rows
  unfolding keep_rows
  keep_rows-one [] h = absurd (omega arith)
  keep_rows-one (row ∷ rows) h = elim (Bool-cases (targets row)) [
    | inl named ↦
        let none_left : rows_of rows ≡ [] = nothing (rows_of rows) (ground (arith, named, h)) in
        ground (arith, named, keep_rows-none false true rows none_left)
    | inr other ↦ ground (arith, other, h, keep_rows-one rows)
  ]
    where
      nothing : (xs : List Row) → length xs ≡ 0 → xs ≡ []
      nothing [] e = refl
      nothing (x ∷ xs) e = absurd (omega arith)

  abbrev pub change_to : Operation → Change
  change_to operation = record { operation = operation; target = target }

  -- What a change answers for each operation that adds, and for a removal.
  pub added :
      (source tags : List Row) (operation : Operation)
      → is_remove operation ≡ false
      → apply crate source (change_to operation) ≡ ok tags
      → ((row : Row) × (rows_of source ≡ [])
          × (targets row ≡ true)
          × (keep_rows crate false target false source ++ row ∷ [] ≡ tags))
        ⊎ ((row : Row) × (more : List Row) × (rows_of source ≡ row ∷ more)
            × (keep_rows crate false target false source ≡ tags))
  unfolding apply
  added source tags operation adds h = elim (Bool-cases (is_found crate false target source)) [
    | inl found ↦
        let (row, more, e) = is_found-some source found in
        inr (row, more, e, ok_injective (rw found at (rw (adds, apply) at h)))
    | inr missing ↦
        let (row, made, e) =
          >>=-eq-ok (canonical_row crate (change_to operation)) _
            (rw missing at (rw (adds, apply) at h)) in
        inl
          (row, is_found-none source missing, canonical_row-targets operation made, ok_injective e)
  ]
