-- ===== src/Write/Cancellation.antt =====
-- crates/fava-write-store-memory/src/lib.rs, `cancel`: what may be cancelled, and what is left.
use fava.Base.{
  String, ℕ, ◌≡◌, refl, ◌∙◌, ap, arith, true, false, map, subst, All, not, none, some, List, [],
  ◌∷◌, if◌then◌else◌, ok, any, all, Result-cases, Option-cases, inl, inr, ◌==◌,
}
use fava.BTreeMap.{BTreeMap, nat_key, get, insert, keys, values, get-insert, get-remove}
use fava.Write.Receipt.{
  RelayDeliveryOutcome, pending, retryable, cancelled_before_handoff, Receipt, opened, cancelled,
  is_terminal, destinations,
}
use fava.Nostr.{RelayUrl}
use fava.Write.Store.{
  WriteState, next_revision, is_before_handoff, is_cancelled, cancel_receipt, cancel_found, cancel,
  release_semantic,
}

-- An outcome before anything was handed over.
pub data IsWaiting : RelayDeliveryOutcome → Type 0 where
  is_pending : IsWaiting pending
  is_retryable : (reason : String) → IsWaiting (retryable reason)

before-IsWaiting : (o : RelayDeliveryOutcome) → is_before_handoff o ≡ true → IsWaiting o
before-IsWaiting pending h = is_pending
before-IsWaiting (retryable reason) h = is_retryable reason
before-IsWaiting o h = absurd (ground (arith, h))

any-not-all :
    (os : List RelayDeliveryOutcome)
    → any (λ o. not (is_before_handoff o)) os ≡ not (all is_before_handoff os)
any-not-all [] = refl
any-not-all (o ∷ os) = ground (arith, any-not-all os)

all_waiting : (os : List RelayDeliveryOutcome) → all is_before_handoff os ≡ true → All IsWaiting os
all_waiting [] h = tt
all_waiting (o ∷ os) h =
    (before-IsWaiting o (ground (arith, h)), all_waiting os (ground (arith, h)))

release_semantic-writes :
    (id : ℕ) (s : WriteState)
    → ((release_semantic id s).writes ≡ s.writes)
      × (get id (release_semantic id s).successors ≡ none)
unfolding release_semantic
release_semantic-writes id s = elim (Option-cases (get id s.edits)) [
  | inl missing ↦ (ground (arith, missing), ground (arith, missing, get-remove id id s.successors))
  | inr (custody, held) ↦
      (ground (arith, held), ground (arith, held, get-remove id id s.successors))
]

all_cancelled : BTreeMap RelayUrl RelayDeliveryOutcome → BTreeMap RelayUrl RelayDeliveryOutcome
all_cancelled = map (λ e. (e.0, cancelled_before_handoff))

all_cancelled-keys : (m : BTreeMap RelayUrl RelayDeliveryOutcome) → keys (all_cancelled m) ≡ keys m
unfolding all_cancelled
all_cancelled-keys [] = refl
all_cancelled-keys (e ∷ m) = ap (λ ks. e.0 ∷ ks) (all_cancelled-keys m)

all_cancelled-values :
    (m : BTreeMap RelayUrl RelayDeliveryOutcome)
    → All (λ o. o ≡ cancelled_before_handoff) (values (all_cancelled m))
unfolding all_cancelled
all_cancelled-values [] = tt
all_cancelled-values (e ∷ m) = (refl, all_cancelled-values m)

-- A receipt that is cancelled, whole, as an earlier one was not.
pub record IsCancelled (before current : Receipt) : Type 0 where
  pub outcome : current.outcome ≡ cancelled
  pub same_relays : keys (destinations current) ≡ keys (destinations before)
  pub everywhere : All (λ o. o ≡ cancelled_before_handoff) (values (destinations current))
  pub same_attempts : current.attempts ≡ before.attempts

cancel_receipt-IsCancelled : (r : Receipt) → IsCancelled r (cancel_receipt r)
unfolding cancel_receipt all_cancelled
cancel_receipt-IsCancelled r = record {
  outcome = refl;
  same_relays = all_cancelled-keys (destinations r);
  everywhere = all_cancelled-values (destinations r);
  same_attempts = refl;
}

module _ (s : WriteState) (id : ℕ) (r : Receipt) {after : WriteState} {current : Receipt} where
  cancel-parts :
      get id s.writes ≡ some r
      → is_cancelled r ≡ false
      → cancel s id ≡ ok (after, some current)
      → (is_terminal r ≡ false)
        × (any (λ o. not (is_before_handoff o)) (values (destinations r)) ≡ false)
        × (next : ℕ) × (release_semantic id
              (record s { writes = insert id (cancel_receipt r) s.writes; revision = next })
            ≡ after)
        × (cancel_receipt r ≡ current)
  unfolding cancel cancel_found
  cancel-parts held alive h = elim (Result-cases (next_revision s)) [
    | inr (e, refused) ↦ absurd (ground (arith, refused))
    | inl (next, p) ↦ (
      ground (arith, held, alive, p),
      ground (arith, held, alive, p),
      next,
      ground (arith, held, alive, p),
      ground (arith, held, alive, p),
    )
  ]

  -- A cancellation that is not of a receipt cancelled before succeeds only if the receipt is open
  -- and no destination has been handed anything: each is pending or retryable. Then the receipt
  -- that the cancellation answers is stored for it: it is cancelled, has the same destinations as
  -- before with each of them cancelled before a handoff, and the same attempts. Its semantic
  -- successor is gone, and the other receipts are as they were.
  pub cancel_lem :
      (j : ℕ)
      → get id s.writes ≡ some r
      → is_cancelled r ≡ false
      → cancel s id ≡ ok (after, some current)
      → (r.outcome ≡ opened)
        × All IsWaiting (values (destinations r))
        × (get j after.writes ≡ (if id == j then some current else get j s.writes))
        × IsCancelled r current
        × (get id after.successors ≡ none)
  unfolding is_terminal
  cancel_lem j held alive h =
      let (unclosed, untouched, next, result, answered) = cancel-parts held alive h in
      let changed = record s { writes = insert id (cancel_receipt r) s.writes; revision = next } in
      let (writes, successors) = release_semantic-writes id changed in
      (
        ground (arith, unclosed),
        all_waiting (values (destinations r))
            (ground (arith, untouched, any-not-all (values (destinations r)))),
        rw (← answered, ← result) (ap (get j) writes ∙ get-insert id j (cancel_receipt r) s.writes),
        subst (IsCancelled r) answered (cancel_receipt-IsCancelled r),
        rw (← result) successors,
      )
