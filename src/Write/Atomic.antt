-- ===== src/Write/Atomic.antt =====
-- crates/fava-write-store-memory/src/lifecycle.rs: what a refusal leaves of the state.
use fava.Base.{
  ℕ, ◌≡◌, ◌⊎◌, inl, inr, refl, sym, subst, arith, Bool, true, false, String, none, Result, ok, err,
  if◌then◌else◌, Result-cases, Option-cases, Bool-cases, not, is_none,
}
use fava.BTreeMap.{nat_key, get, remove}
use fava.Nostr.{Nostr, Event, RelayUrl}
use fava.Routing.Plan.{RouteTarget, RoutePlan}
use fava.Write.Receipt.{Receipt, RelayDeliveryOutcome}
use fava.Write.Routes.{
  WriteStoreError, validate_receipt_text, validate_delivery_outcome, outcome_not_final,
  invalid_event,
}
use fava.Write.Store.{WriteState, next_revision}
use fava.Write.Lifecycle.{Change, unchanged, changed, changed_or_promoted, Reply, Claim}
use fava.Write.Handlers.{
  successor_receipt, promote_removed, promote_authorized_successor, is_final, handle,
  begin_attempt_current, record_outcome_current, apply_route_current, install_signed_current,
  record_signer_refusal_current, record_signer_retryable_current, authorize_signing_current,
}

-- The calls of the lifecycle.
pub data Call : Type 0 where
  begins_attempt : RelayUrl → ℕ → Call
  records_outcome : RelayUrl → ℕ → RelayDeliveryOutcome → Call
  applies_route : RoutePlan → Call
  installs_signed : Event → Call
  records_refusal : String → Call
  records_retryable : String → Call
  authorizes : String → Call

module _ (nostr : Nostr) (describe : RouteTarget → String) where
  unfoldable pub call : WriteState → Claim → Call → Reply
  call s claim (begins_attempt session attempt) =
      begin_attempt_current describe s claim session attempt
  call s claim (records_outcome session attempt outcome) =
      record_outcome_current describe s claim session attempt outcome
  call s claim (applies_route plan) = apply_route_current describe s claim plan
  call s claim (installs_signed event) = install_signed_current describe nostr s claim event
  call s claim (records_refusal reason) = record_signer_refusal_current describe s claim reason
  call s claim (records_retryable reason) = record_signer_retryable_current describe s claim reason
  call s claim (authorizes deferred) = authorize_signing_current describe s claim deferred

  -- What holds of the state before a call, and after a refused promotion, holds after each refusal.
  module _ (P : WriteState → Type 0) (s : WriteState) (same : P s) where
    handle-refusal :
        (releases : Bool) (id : ℕ) (decide : Receipt → Result WriteStoreError Change)
        {e : WriteStoreError}
        → ((next : ℕ)
            → is_none (get id s.successors) ≡ false
            → (promote_authorized_successor describe s id next).1 ≡ err e
            → P (promote_authorized_successor describe s id next).0)
        → (handle describe releases s id decide).1 ≡ err e
        → P (handle describe releases s id decide).0
    unfolding handle
    handle-refusal releases id decide {e} promoted h = elim (Option-cases (get id s.writes)) [
      | inl missing ↦ subst P (ground (arith, missing)) same
      | inr (receipt, found) ↦ elim (Result-cases (decide receipt)) [
        | inr (x, refused) ↦ subst P (ground (arith, found, refused)) same
        | inl (unchanged, decided) ↦ subst P (ground (arith, found, decided)) same
        | inl (changed updated, decided) ↦ subst P (ground (arith, found, decided, h)) same
        | inl (changed_or_promoted updated, decided) ↦ elim (Result-cases (next_revision s)) [
          | inr (x, exhausted) ↦ subst P (ground (arith, found, decided, exhausted)) same
          | inl (next, drawn) ↦ elim (Bool-cases (is_none (get id s.successors))) [
            | inl alone ↦ absurd (ground (arith, found, decided, drawn, alone, h))
            | inr waits ↦
                let eq : promote_authorized_successor describe s id next
                    ≡ handle describe releases s id decide =
                  ground (arith, found, decided, drawn, waits) in
                subst (λ reply. P reply.0) eq
                  (promoted next waits (subst (λ reply. reply.1 ≡ err e) (sym eq) h))
          ]
        ]
      ]
    ]

    guard-refusal :
        (b : Bool) (x : WriteStoreError) (reply : Reply) {e : WriteStoreError}
        → (reply.1 ≡ err e → P reply.0)
        → (if b then (s, err x) else reply).1 ≡ err e
        → P (if b then (s, err x) else reply).0
    guard-refusal true x reply keeps h = same
    guard-refusal false x reply keeps h = keeps h

    check-refusal :
        {A : Type 0} (r : Result WriteStoreError A) (reply : Reply) {e : WriteStoreError}
        → (reply.1 ≡ err e → P reply.0)
        → (elim r as (λ _. Reply) [ err x ↦ (s, err x) | ok _ ↦ reply ]).1 ≡ err e
        → P (elim r as (λ _. Reply) [ err x ↦ (s, err x) | ok _ ↦ reply ]).0
    check-refusal (ok a) reply keeps h = keeps h
    check-refusal (err x) reply keeps h = same

    call-refusal :
        (claim : Claim) (c : Call) {e : WriteStoreError}
        → ((next : ℕ)
            → is_none (get claim.receipt_id s.successors) ≡ false
            → (promote_authorized_successor describe s claim.receipt_id next).1 ≡ err e
            → P (promote_authorized_successor describe s claim.receipt_id next).0)
        → (call s claim c).1 ≡ err e
        → P (call s claim c).0
    unfolding call begin_attempt_current record_outcome_current apply_route_current
        install_signed_current record_signer_refusal_current record_signer_retryable_current
        authorize_signing_current
    call-refusal claim (begins_attempt session attempt) promoted h =
        handle-refusal false claim.receipt_id _ promoted h
    call-refusal claim (records_outcome session attempt outcome) promoted h =
        check-refusal (validate_delivery_outcome outcome) _
          (guard-refusal (not (is_final outcome)) outcome_not_final _
            (handle-refusal true claim.receipt_id _ promoted))
          h
    call-refusal claim (applies_route plan) promoted h =
        handle-refusal true claim.receipt_id _ promoted h
    call-refusal claim (installs_signed event) promoted h =
        guard-refusal (not (nostr.verify event)) invalid_event _
          (handle-refusal false claim.receipt_id _ promoted) h
    call-refusal claim (records_refusal reason) promoted h =
        check-refusal (validate_receipt_text reason) _
          (handle-refusal false claim.receipt_id _ promoted) h
    call-refusal claim (records_retryable reason) promoted h =
        check-refusal (validate_receipt_text reason) _
          (handle-refusal false claim.receipt_id _ promoted) h
    call-refusal claim (authorizes deferred) promoted h =
        handle-refusal false claim.receipt_id _ promoted h

  -- A call of the lifecycle that is refused leaves the state as it was, unless a semantic successor
  -- waits behind the receipt.
  pub call-refusal_unchanged :
      (s : WriteState) (claim : Claim) (c : Call) {e : WriteStoreError}
      → get claim.receipt_id s.successors ≡ none
      → (call s claim c).1 ≡ err e
      → (call s claim c).0 ≡ s
  call-refusal_unchanged s claim c alone h =
      call-refusal (λ t. t ≡ s) s refl claim c (λ next waits. absurd (ground (arith, alone, waits)))
        h

  promote-refusal :
      (s : WriteState) (id next : ℕ) {e : WriteStoreError}
      → (promote_authorized_successor describe s id next).1 ≡ err e
      → ((promote_authorized_successor describe s id next).0 ≡ s)
        ⊎ ((promote_authorized_successor describe s id next).0
            ≡ record s { successors = remove id s.successors })
  unfolding promote_authorized_successor promote_removed
  promote-refusal s id next h = elim (Option-cases (get id s.successors)) [
    | inl missing ↦ inl (ground (arith, missing))
    | inr (successor, waits) ↦ elim (Option-cases (get id s.writes)) [
      | inl unwritten ↦ inr (ground (arith, waits, unwritten))
      | inr (receipt, written) ↦ elim (Option-cases (get id s.edits)) [
        | inl unheld ↦ inr (ground (arith, waits, written, unheld))
        | inr (custody, held) ↦ elim (Result-cases (successor_receipt describe receipt successor)) [
          | inr (x, refused) ↦ inr (ground (arith, waits, written, held, refused))
          | inl (updated, made) ↦ absurd (ground (arith, waits, written, held, made, h))
        ]
      ]
    ]
  ]

  -- A call of the lifecycle that is refused leaves the state as it was, or as it was but for the
  -- semantic successor behind the receipt, which is gone: no receipt, edit, reservation or revision
  -- changes.
  pub call-refusal_keeps_writes :
      (s : WriteState) (claim : Claim) (c : Call) {e : WriteStoreError}
      → (call s claim c).1 ≡ err e
      → ((call s claim c).0 ≡ s)
        ⊎ ((call s claim c).0 ≡ record s { successors = remove claim.receipt_id s.successors })
  call-refusal_keeps_writes s claim c h =
      call-refusal
        (λ t. (t ≡ s) ⊎ (t ≡ record s { successors = remove claim.receipt_id s.successors })) s
        (inl refl) claim c (λ next waits. promote-refusal s claim.receipt_id next) h
