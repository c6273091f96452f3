-- ===== src/Nip02/Follow.antt =====
-- crates/fava-nip02/src/edit.rs, `apply`: to follow, to unfollow, and either again.
use fava.Base.{
  ◌≡◌, refl, arith, true, false, not, List, [], ◌∷◌, any, length, if◌then◌else◌, ok, ok_injective,
  inl, inr, ap, sym, ◌∙◌,
}
use mathlib.Core.List.{append-nil}
use fava.Nostr.{PublicKey}
use fava.Nip02.Change.{Row, Operation, add, add_with_metadata, remove, Crate, IsDocumented}
use fava.Nip02.Rows.{is_remove, tag_targets, keep_rows, is_found, apply}
use fava.Nip02.Contacts.{
  others, rows_of, change_to, keep-append, keep_rows-others, keep_rows-rows_of, keep_rows-none,
  keep_rows-one, added,
}

module _ (crate : Crate) (documented : IsDocumented crate) (target : PublicKey) where
  removed :
      (source : List Row)
      → apply crate source (change_to crate documented target remove)
        ≡ ok (keep_rows crate true target false source)
  unfolding apply
  removed source = refl

  added-decides :
      (source tags : List Row) (operation : Operation)
      → is_remove operation ≡ false
      → apply crate source (change_to crate documented target operation) ≡ ok tags
      → (others crate documented target tags ≡ others crate documented target source)
        × (length (rows_of crate documented target tags) ≡ 1)
  added-decides source tags operation adds h =
      elim (added crate documented target source tags operation adds h) [
        | inr (row, more, there, e) ↦ rw (← e) (
          keep_rows-others crate documented target false false source,
          ap length (keep_rows-rows_of crate documented target false false source) ∙ rw there refl,
        )
        | inl (row, missing, named, e) ↦ rw (← e) (
          keep-append (λ r. not (tag_targets crate target r)) kept (row ∷ [])
              ∙ rw named (
                  append-nil (others crate documented target kept)
                  ∙ keep_rows-others crate documented target false false source),
          rw (keep-append (tag_targets crate target) kept (row ∷ [])) (
              rw (keep_rows-rows_of crate documented target false false source)
                (rw (missing, named) refl)),
        )
      ]
    where
      kept : List Row
      kept = keep_rows crate false target false source

  removed-decides :
      (source tags : List Row)
      → apply crate source (change_to crate documented target remove) ≡ ok tags
      → (others crate documented target tags ≡ others crate documented target source)
        × (length (rows_of crate documented target tags) ≡ 0)
  removed-decides source tags h = rw (← ok_injective (sym (removed source) ∙ h)) (
    keep_rows-others crate documented target true false source,
    ap length (keep_rows-rows_of crate documented target true false source),
  )

  -- After a change exactly one row names the target, or none if it was to be removed, and the other
  -- rows are those that there were, in their order.
  pub apply-decides :
      (source tags : List Row) (operation : Operation)
      → apply crate source (change_to crate documented target operation) ≡ ok tags
      → (others crate documented target tags ≡ others crate documented target source)
        × (length (rows_of crate documented target tags) ≡ (if is_remove operation then 0 else 1))
  apply-decides source tags add h = added-decides source tags add refl h
  apply-decides source tags (add_with_metadata relay petname) h =
      added-decides source tags (add_with_metadata relay petname) refl h
  apply-decides source tags remove h = removed-decides source tags h

  kept_again :
      (tags : List Row) (operation : Operation)
      → is_remove operation ≡ false
      → length (rows_of crate documented target tags) ≡ 1
      → apply crate tags (change_to crate documented target operation) ≡ ok tags
  unfolding apply is_found
  kept_again tags operation adds one =
      rw (adds, apply)
        (rw (some_found tags one, keep_rows-one crate documented target tags one) refl)
    where
      some_found :
          (rows : List Row)
          → length (rows_of crate documented target rows) ≡ 1
          → any (tag_targets crate target) rows ≡ true
      some_found [] e = absurd (omega arith)
      some_found (row ∷ rows) e = ground (arith, e, some_found rows)

  -- A change that is made again changes nothing.
  pub apply-again :
      (source tags : List Row) (operation : Operation)
      → apply crate source (change_to crate documented target operation) ≡ ok tags
      → apply crate tags (change_to crate documented target operation) ≡ ok tags
  apply-again source tags add h = kept_again tags add refl (added-decides source tags add refl h).1
  apply-again source tags (add_with_metadata relay petname) h =
      kept_again tags _ refl (added-decides source tags (add_with_metadata relay petname) refl h).1
  apply-again source tags remove h =
      removed tags
      ∙ ap ok (
          keep_rows-none crate documented target true false tags
            (nothing (rows_of crate documented target tags) (removed-decides source tags h).1))
    where
      nothing : (xs : List Row) → length xs ≡ 0 → xs ≡ []
      nothing [] e = refl
      nothing (x ∷ xs) e = absurd (omega arith)
