-- ===== src/Tests/Receipts.antt =====
-- crates/fava-write-store, crates/fava-write-store-memory and crates/fava-delivery-standard: runs of
-- one write, and the theorems at them.
use fava.Base.{
  ℕ, ◌≤◌, true, ◌≡◌, refl, some, none, List, [], ◌∷◌, arith, ok, Option, String, not, ◌==◌, map,
  max,
}
use fava.BTreeMap.{BTreeMap, nat_key, get}
use fava.BTreeSet.{contains}
use fava.State.Contribution.{unauthenticated}
use fava.Routing.Plan.{RouteTarget, PlannedRelay, RoutePlan, settled}
use fava.Write.Receipt.{
  UnsignedEvent, EventValue, EventEdit, automatic, SignatureState, RelayDeliveryOutcome, pending,
  attempting, acknowledged, retryable, Receipt, ReceiptOutcome, opened, complete, destinations,
  is_terminal_outcome,
}
use fava.Write.Routes.{WriteStoreError, missing_id, reset_route, apply_route_to_receipt}
use fava.Write.Store.{WriteState, Successor, Custody, initial_state}
use fava.Write.Lifecycle.{Claim, changed, begin_attempt, record_outcome, apply_route}
use fava.Write.Replay.{apply_route_replay}
use fava.Write.Steps.{begins, records, routes}
use fava.Write.Evidence.{start, next, trail-keeps_terminal}
use fava.Write.Settlement.{IsSettled, trail-IsSettled}
use fava.Delivery.Policy.{decide, attempt_now}
use fava.Delivery.Ceiling.{attempts_at, PolicyTrail, attempts-ceiling}

abbrev pub describe : RouteTarget → String
describe target = "no route"

abbrev pub note_event : Option ℕ → UnsignedEvent
note_event id = record { id = id; pubkey = 7; created_at = 4; kind = 1; tags = []; content = "" }

-- The receipt of write 1, as a route and the attempts leave it.
abbrev pub receipt_at :
    ReceiptOutcome → ℕ → List ℕ → BTreeMap ℕ ℕ → BTreeMap ℕ RelayDeliveryOutcome → Receipt
receipt_at outcome revision desired attempts lanes = record {
  write_id = 1;
  receipt_id = 1;
  current = record {
    id = 4;
    event = EventValue.unsigned (note_event (some 4));
    publication = record {
      receipt_id = 1;
      write_id = 1;
      revision_id = 1;
      revision_source = none;
      revision_failure = none;
      retired_revisions = [];
      signature = SignatureState.unsigned;
      destinations = lanes;
    };
  };
  routing = automatic;
  access = unauthenticated;
  outcome = outcome;
  route_revision = revision;
  route_settled = not (revision == 0);
  route_shortfalls = [];
  desired_destinations = desired;
  attempts = attempts;
}

abbrev pub claim : Claim
claim = record { write_id = 1; receipt_id = 1; revision_id = 1; event_id = 4 }

abbrev planned : ℕ → ℕ × PlannedRelay
planned session = (session, record { session = session; targets = []; reasons = [] })

abbrev pub plan_of : ℕ → List ℕ → RoutePlan
plan_of revision sessions = record {
  revision = revision;
  destinations = map planned sessions;
  coverage = [];
  unresolved = [];
  shortfalls = [];
}

abbrev pub fresh : Receipt
fresh = receipt_at opened 0 [] [] []

abbrev pub routed_1 : Receipt
routed_1 = receipt_at opened 1 (1 ∷ 2 ∷ []) [] ((1, pending) ∷ (2, pending) ∷ [])

abbrev begun : Receipt
begun = receipt_at opened 1 (1 ∷ 2 ∷ []) ((1, 1) ∷ []) ((1, attempting) ∷ (2, pending) ∷ [])

abbrev answered : Receipt
answered =
    receipt_at opened 1 (1 ∷ 2 ∷ []) ((1, 1) ∷ []) ((1, acknowledged "ok") ∷ (2, pending) ∷ [])

-- The second route no longer asks for the relay 2, which was never tried.
abbrev rerouted : Receipt
rerouted = receipt_at complete 2 (1 ∷ []) ((1, 1) ∷ []) ((1, acknowledged "ok") ∷ [])

route_1 : apply_route_to_receipt describe fresh (plan_of 1 (1 ∷ 2 ∷ [])) ≡ ok routed_1
unfolding apply_route_to_receipt fava.Write.Routes.apply_newer_route_to_receipt
    fava.Write.Routes.route_shortfalls fava.Write.Routes.validate_texts fava.Write.Routes.routed
    settled fava.Write.Routes.request_all fava.Write.Routes.request get
    fava.Write.Routes.withdraw_all fava.BTreeSet.difference fava.BTreeMap.insert is_terminal_outcome
route_1 = refl

begin_1 : begin_attempt claim 1 1 routed_1 ≡ ok (changed begun)
unfolding begin_attempt fava.Write.Lifecycle.require_current
    fava.Write.Routes.validate_current_revision get fava.BTreeMap.insert
begin_1 = refl

answer_1 : record_outcome claim 1 1 (acknowledged "ok") begun ≡ ok (changed answered)
unfolding record_outcome fava.Write.Lifecycle.require_current
    fava.Write.Routes.validate_current_revision get fava.Write.Receipt.outcome_eq
    fava.Write.Store.settle fava.BTreeMap.insert is_terminal_outcome
answer_1 = refl

change_2 : apply_route describe claim (plan_of 2 (1 ∷ [])) answered ≡ ok (changed rerouted)
unfolding apply_route fava.Write.Lifecycle.require_current
    fava.Write.Routes.validate_current_revision apply_route_to_receipt
    fava.Write.Routes.apply_newer_route_to_receipt fava.Write.Routes.route_shortfalls
    fava.Write.Routes.validate_texts fava.Write.Routes.same_route_effect fava.Write.Routes.routed
    settled fava.Write.Routes.request_all fava.Write.Routes.request get
    fava.Write.Routes.withdraw_all fava.BTreeSet.difference contains fava.Write.Routes.withdraw
    fava.BTreeMap.remove is_terminal_outcome
change_2 = refl

fresh_reset : reset_route fresh ≡ fresh
unfolding reset_route
fresh_reset = refl

apply_route_replay_example :
    apply_route_to_receipt describe routed_1 (plan_of 1 (1 ∷ 2 ∷ [])) ≡ ok routed_1
apply_route_replay_example =
    apply_route_replay describe (plan_of 1 (1 ∷ 2 ∷ [])) fresh fresh_reset (omega arith) route_1

is_final_answer : is_terminal_outcome (acknowledged "ok") ≡ true
unfolding is_terminal_outcome
is_final_answer = refl

acknowledged_1 : get 1 (destinations answered) ≡ some (acknowledged "ok")
unfolding get
acknowledged_1 = refl

trail-keeps_terminal_example : get 1 (destinations rerouted) ≡ some (acknowledged "ok")
trail-keeps_terminal_example =
    trail-keeps_terminal describe 1 (acknowledged "ok") is_final_answer answered
      (next start (routes claim (plan_of 2 (1 ∷ [])) change_2)) acknowledged_1

routed_1-IsSettled : IsSettled routed_1
unfolding is_terminal_outcome
routed_1-IsSettled = refl

trail-IsSettled_example : IsSettled rerouted
trail-IsSettled_example =
    trail-IsSettled describe routed_1
      (next
        (next (next start (begins claim 1 1 begin_1))
          (records claim 1 1 (acknowledged "ok") answer_1))
        (routes claim (plan_of 2 (1 ∷ [])) change_2))
      routed_1-IsSettled

two_pending : get 1 (destinations routed_1) ≡ some pending
unfolding get
two_pending = refl

tried : decide 3 (record { attempts = attempts_at 1 routed_1; outcome = pending }) ≡ attempt_now
unfolding decide get
tried = refl

attempts-ceiling_example : attempts_at 1 answered ≤ max 3 (attempts_at 1 routed_1)
attempts-ceiling_example = attempts-ceiling describe 3 routed_1 1 (
    PolicyTrail.records claim 1 1 (acknowledged "ok")
      (PolicyTrail.begins claim 1 1 pending PolicyTrail.start two_pending tried begin_1) answer_1)
