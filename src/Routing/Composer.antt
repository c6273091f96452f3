-- ===== src/Routing/Composer.antt =====
-- crates/fava-routing/src/chain.rs: the composer of a router chain. A call that panics answers
-- nothing. `describe` is the text of an error of a router, and `discarded_text` the line that counts
-- what was discarded.
use Prim.Native.Char.{len_utf8}
use fava.Base.{
  ℕ, ◌+◌, ◌-◌, ◌^◌, suc, zero, Bool, true, false, not, String, Option, none, some, List, [], ◌∷◌,
  ◌++◌, ltb, leb, ◌==◌, if◌then◌else◌, all, length, take, is_none, Result, ok, err,
}
use fava.BTreeMap.{BTreeMap, nat_key, get, insert}
use fava.BTreeSet.{BTreeSet, extend}
use fava.Routing.Plan.{
  RouteTarget, target_key, CoverageState, unresolved, settled_absent, RouteContribution, RoutePlan,
}
use fava.Routing.Contribution.{
  RouterError, validate_bounds, merge_entry, from_contribution, max_text_bytes,
}

abbrev pub max_shortfalls : ℕ
max_shortfalls = 256

abbrev pub no_contribution : RouteContribution
no_contribution = record { destinations = []; coverage = []; unresolved = []; shortfalls = [] }

-- `combine`: the loop over the coverage of a contribution, and the loop over the contributions.
unfoldable pub merge_entries :
    List (RouteTarget × CoverageState)
    → BTreeMap RouteTarget CoverageState
    → BTreeMap RouteTarget CoverageState
merge_entries [] coverage = coverage
merge_entries (entry ∷ entries) coverage =
    merge_entries entries (merge_entry entry.0 entry.1 coverage)

unfoldable pub combine_onto : RouteContribution → List RouteContribution → RouteContribution
unfolding merge_entries
combine_onto combined [] = combined
combine_onto combined (contribution ∷ rest) =
    combine_onto
      (record {
        destinations = combined.destinations ++ contribution.destinations;
        coverage = merge_entries contribution.coverage combined.coverage;
        unresolved = extend combined.unresolved contribution.unresolved;
        shortfalls = combined.shortfalls ++ contribution.shortfalls;
      })
      rest

unfoldable pub combine : List RouteContribution → RouteContribution
unfolding combine_onto
combine contributions = combine_onto no_contribution contributions

unfoldable pub complete_target : Bool → RouteTarget → RouteContribution → RouteContribution
complete_target all_answered target contribution =
    if not (is_none (get target contribution.coverage))
    then contribution
    else if all_answered
    then record contribution { coverage = insert target settled_absent contribution.coverage }
    else record contribution {
      coverage = insert target unresolved contribution.coverage;
      unresolved = fava.BTreeSet.insert target contribution.unresolved;
    }

unfoldable pub complete_targets : Bool → List RouteTarget → RouteContribution → RouteContribution
unfolding complete_target
complete_targets all_answered [] contribution = contribution
complete_targets all_answered (target ∷ targets) contribution =
    complete_targets all_answered targets (complete_target all_answered target contribution)

pub record Composer : Type 0 where
  pub contributions : List RouteContribution
  pub answered : List Bool
  pub shortfalls : List String
  pub discarded : ℕ
  pub targets : BTreeSet RouteTarget

abbrev pub repeated {ℓ} : {A : Type ℓ} → ℕ → A → List A
repeated zero a = []
repeated (suc n) a = a ∷ repeated n a

unfoldable pub new_composer : ℕ → BTreeSet RouteTarget → Composer
new_composer routers targets = record {
  contributions = repeated routers no_contribution;
  answered = repeated routers false;
  shortfalls = [];
  discarded = 0;
  targets = targets;
}

-- `saturating_add` on a word of 64 bits.
abbrev pub saturating_add : ℕ → ℕ → ℕ
saturating_add a b = if ltb (a + b) (2 ^ 64) then a + b else 2 ^ 64 - 1

unfoldable pub record_shortfall : Composer → String → Composer
record_shortfall composer shortfall =
    if ltb (length composer.shortfalls) max_shortfalls
    then record composer { shortfalls = composer.shortfalls ++ shortfall ∷ [] }
    else record composer { discarded = saturating_add composer.discarded 1 }

abbrev pub all_answered : Composer → Bool
all_answered composer = all (λ answered. answered) composer.answered

unfoldable pub merged : Composer → RouteContribution
unfolding combine complete_targets
merged composer =
    complete_targets (all_answered composer) composer.targets (combine composer.contributions)

-- An element of a vector replaced; an index past the end panics.
abbrev pub replaced {ℓ} : {A : Type ℓ} → ℕ → A → List A → Option (List A)
replaced n a [] = none
replaced zero a (x ∷ xs) = some (a ∷ xs)
replaced (suc n) a (x ∷ xs) = elim (replaced n a xs) [ none ↦ none | some ys ↦ some (x ∷ ys) ]

-- `String::truncate`: it panics where the bound lies within a character.
unfoldable pub truncate : ℕ → String → Option String
truncate bound String.[] = some String.[]
truncate bound (String.◌∷◌ c text) =
    if bound == 0
    then some String.[]
    else if ltb bound (len_utf8 c)
    then none
    else elim (truncate (bound - len_utf8 c) text) [
      | none ↦ none
      | some kept ↦ some (String.◌∷◌ c kept)
    ]

module _ (describe : String → RouterError → String) where
  unfoldable pub bounded_error : String → RouterError → Option String
  unfolding truncate
  bounded_error router error = truncate max_text_bytes (describe router error)

  unfoldable pub record_error : String → RouterError → Composer → Option Composer
  unfolding record_shortfall
  record_error router error composer = elim (bounded_error router error) [
    | none ↦ none
    | some text ↦ some (record_shortfall composer text)
  ]

  -- The contribution is put in, and taken out again if the whole exceeds a bound.
  unfoldable pub settle_acceptance : String → Composer → Composer → Option Composer
  settle_acceptance router previous changed = elim (validate_bounds (merged changed)) [
    | ok _ ↦ some changed
    | err error ↦ record_error router error previous
  ]

  unfoldable pub accept_contribution : Composer → ℕ → String → RouteContribution → Option Composer
  unfolding settle_acceptance
  accept_contribution composer index router contribution =
      elim (replaced index contribution composer.contributions) [
        | none ↦ none
        | some contributions ↦ elim (replaced index true composer.answered) [
          | none ↦ none
          | some answered ↦
              settle_acceptance router composer
                (record composer { contributions = contributions; answered = answered })
        ]
      ]

module _ (discarded_text : ℕ → String) where
  unfoldable pub combined : Composer → RouteContribution
  combined composer =
      let whole = merged composer in
      let texts = whole.shortfalls ++ composer.shortfalls in
      let over = leb max_shortfalls (length texts) in
      let discarded =
        if over
        then saturating_add composer.discarded (length texts - max_shortfalls + 1)
        else composer.discarded in
      let kept = if over then take (max_shortfalls - 1) texts else texts in
      record whole {
        shortfalls = if ltb 0 discarded then kept ++ discarded_text discarded ∷ [] else kept;
      }

  unfoldable pub plan : ℕ → Composer → Result RouterError RoutePlan
  unfolding combined
  plan revision composer = from_contribution revision (combined composer)
