-- ===== src/Tests/Chained.antt =====
-- crates/fava-routing/src/chain.rs: a chain of two routers, and the theorems at it.
use fava.Base.{
  ℕ, ◌≤◌, ◌≡◌, refl, Bool, true, false, String, none, some, List, [], ◌∷◌, inl, inr, length,
  is_none,
}
use fava.BTreeMap.{nat_key, get}
use fava.Routing.Plan.{RouteTarget, author, target_key, covered, RouteContribution}
use fava.Routing.Contribution.{RouterError, exceeds_bound}
use fava.Routing.Composer.{
  Composer, new_composer, no_contribution, accept_contribution, record_error, combined, truncate,
}
use fava.Routing.Composition.{start, accepts, records, IsWithin, trail-IsWithin}
use fava.Routing.Shortfalls.{AnswersFor, combined_lem}

abbrev describe : String → RouterError → String
describe router error = "outbox: route refused"

abbrev discarded_text : ℕ → String
discarded_text n = "discarded"

abbrev targets : List RouteTarget
targets = author 7 ∷ author 8 ∷ []

abbrev first : RouteContribution
first = record {
  destinations =
      record { session = 1; targets = author 7 ∷ []; router = "outbox"; reason = "10002" } ∷ [];
  coverage = (author 7, covered (1 ∷ [])) ∷ [];
  unresolved = [];
  shortfalls = [];
}

abbrev composer_of : List RouteContribution → List Bool → List String → Composer
composer_of contributions answered shortfalls = record {
  contributions = contributions;
  answered = answered;
  shortfalls = shortfalls;
  discarded = 0;
  targets = targets;
}

-- The first router answers, and the second refuses.
abbrev answered_once : Composer
answered_once = composer_of (first ∷ no_contribution ∷ []) (true ∷ false ∷ []) []

abbrev refused_once : Composer
refused_once =
    composer_of (first ∷ no_contribution ∷ []) (true ∷ false ∷ []) ("outbox: route refused" ∷ [])

answers :
    accept_contribution describe (new_composer 2 targets) 0 "outbox" first ≡ some answered_once
unfolding accept_contribution new_composer fava.Routing.Contribution.validate_bounds
    fava.Routing.Contribution.bounded fava.BTreeSet.extend fava.Routing.Composer.merged get
    fava.Routing.Contribution.merge_entry fava.BTreeMap.insert fava.BTreeSet.insert
    fava.Routing.Contribution.validate_reasons fava.Routing.Contribution.validate_covered
    fava.Routing.Contribution.validate_shortfalls
answers = refl

refuses : record_error describe "outbox" exceeds_bound answered_once ≡ some refused_once
unfolding record_error fava.Routing.Composer.bounded_error
refuses = refl

-- A character of two bytes at the bound.
cuts_a_character : truncate 2 "aé" ≡ none
unfolding truncate
cuts_a_character = refl

trail-IsWithin_example : IsWithin refused_once
trail-IsWithin_example =
    trail-IsWithin describe 2 targets
      (records "outbox" exceeds_bound (accepts 0 "outbox" first start answers) refuses)

combined_lem_example :
    (is_none (get (author 8) (combined discarded_text refused_once).coverage) ≡ false)
    × (length (combined discarded_text refused_once).shortfalls ≤ 256)
    × AnswersFor discarded_text 0
        ("outbox: route refused" ∷ [])
        (combined discarded_text refused_once).shortfalls
unfolding fava.Routing.Composer.merged get fava.Routing.Contribution.merge_entry
    fava.BTreeMap.insert
combined_lem_example = combined_lem discarded_text refused_once (author 8) (inr (inl refl))
