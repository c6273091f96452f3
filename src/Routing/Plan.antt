-- ===== src/Routing/Plan.antt =====
-- crates/fava-routing/src/lib.rs: targets, coverage, contributions and plans.
use fava.Base.{is_empty, ℕ, ◌≡◌, ◌↔◌, Bool, true, ◌&&◌, ◌||◌, String, List, arith, ltb, ◌==◌}
use fava.BTreeMap.{BTreeMap, Key}
use fava.BTreeSet.{BTreeSet}
use fava.Nostr.{EventId, PublicKey, RelayUrl}

pub data RouteTarget : Type 0 where
  whole_request : RouteTarget
  author : PublicKey → RouteTarget
  recipient : PublicKey → RouteTarget
  referenced_event : EventId → RouteTarget

-- The derived comparisons: by constructor, then by content.
abbrev pub rank : RouteTarget → ℕ
rank whole_request = 0
rank (author _) = 1
rank (recipient _) = 2
rank (referenced_event _) = 3

abbrev pub content : RouteTarget → ℕ
content whole_request = 0
content (author k) = k
content (recipient k) = k
content (referenced_event e) = e

abbrev pub target_eq : RouteTarget → RouteTarget → Bool
target_eq a b = rank a == rank b && content a == content b

pub target_eq_iff : (a b : RouteTarget) → (target_eq a b ≡ true) ↔ (a ≡ b)
target_eq_iff a b = ground arith

instance abbrev pub target_key : Key RouteTarget
target_key = record {
  beq = target_eq;
  blt = λ a b. ltb (rank a) (rank b) || (rank a == rank b && ltb (content a) (content b));
  beq_iff = target_eq_iff;
}

pub data CoverageState : Type 0 where
  covered : BTreeSet RelayUrl → CoverageState
  unresolved : CoverageState
  settled_absent : CoverageState

pub record RouteDestination : Type 0 where
  pub session : RelayUrl
  pub targets : BTreeSet RouteTarget
  pub router : String
  pub reason : String

pub record RouteContribution : Type 0 where
  pub destinations : List RouteDestination
  pub coverage : BTreeMap RouteTarget CoverageState
  pub unresolved : BTreeSet RouteTarget
  pub shortfalls : List String

pub record PlannedRelay : Type 0 where
  pub session : RelayUrl
  pub targets : BTreeSet RouteTarget
  pub reasons : BTreeSet (String × String)

pub record RoutePlan : Type 0 where
  pub revision : ℕ
  pub destinations : BTreeMap RelayUrl PlannedRelay
  pub coverage : BTreeMap RouteTarget CoverageState
  pub unresolved : BTreeSet RouteTarget
  pub shortfalls : List String

unfoldable pub settled : RoutePlan → Bool
settled plan = is_empty plan.unresolved
