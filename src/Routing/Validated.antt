-- ===== src/Routing/Validated.antt =====
-- crates/fava-routing/src/lib.rs, `validate_bounds`: what it lets through.
use Prim.Native.String.{len}
use fava.Base.{◌≤◌, ◌≡◌, arith, String, List, [], ◌∷◌, length, inl, inr, In, ok, ap}
use fava.BTreeMap.{BTreeMap, nat_key, values}
use fava.BTreeSet.{BTreeSet, extend}
use fava.Nostr.{RelayUrl}
use fava.Routing.Plan.{
  RouteTarget, CoverageState, covered, unresolved, settled_absent, RouteDestination,
  RouteContribution,
}
use fava.Routing.Contribution.{
  validate_bounds, validate_covered, validate_reasons, validate_shortfalls, bounded, sessions_of,
}

-- The bounds on a contribution: the sessions of its destinations, the bytes of their reasons, the
-- sessions that cover a target, and the bytes of its shortfalls.
pub record IsBounded (c : RouteContribution) : Type 0 where
  pub few_sessions : length (extend [] (sessions_of c.destinations)) ≤ 256
  pub short_reasons : (d : RouteDestination) → In d c.destinations → len d.reason ≤ 4096
  pub few_covering :
      (t : RouteTarget) (sessions : BTreeSet RelayUrl)
      → In (t, covered sessions) c.coverage
      → length sessions ≤ 256
  pub short_texts : (text : String) → In text c.shortfalls → len text ≤ 4096

reasons_bound :
    (d : RouteDestination) (ds : List RouteDestination)
    → validate_reasons ds ≡ ok tt
    → In d ds
    → len d.reason ≤ 4096
unfolding validate_reasons bounded
reasons_bound d [] h i = elim i [ ]
reasons_bound d (x ∷ ds) h (inl e) =
    ground (arith, h, ap (λ (d : RouteDestination). len d.reason) e)
reasons_bound d (x ∷ ds) h (inr i) = reasons_bound d ds (ground (arith, h)) i

texts_bound :
    (text : String) (texts : List String)
    → validate_shortfalls texts ≡ ok tt
    → In text texts
    → len text ≤ 4096
unfolding validate_shortfalls bounded
texts_bound text [] h i = elim i [ ]
texts_bound text (x ∷ texts) h (inl e) = ground (arith, h, ap len e)
texts_bound text (x ∷ texts) h (inr i) = texts_bound text texts (ground (arith, h)) i

covering_bound :
    (t : RouteTarget) (sessions : BTreeSet RelayUrl) (m : BTreeMap RouteTarget CoverageState)
    → validate_covered (values m) ≡ ok tt
    → In (t, covered sessions) m
    → length sessions ≤ 256
unfolding validate_covered bounded
covering_bound t sessions [] h i = elim i [ ]
covering_bound t sessions ((u, covered s) ∷ m) h (inl e) =
    ground (arith, h, ap (λ (e : RouteTarget × CoverageState). e.1) e)
covering_bound t sessions ((u, unresolved) ∷ m) h (inl e) =
    absurd (ground (arith, ap (λ (e : RouteTarget × CoverageState). e.1) e))
covering_bound t sessions ((u, settled_absent) ∷ m) h (inl e) =
    absurd (ground (arith, ap (λ (e : RouteTarget × CoverageState). e.1) e))
covering_bound t sessions ((u, covered s) ∷ m) h (inr i) =
    covering_bound t sessions m (ground (arith, h)) i
covering_bound t sessions ((u, unresolved) ∷ m) h (inr i) = covering_bound t sessions m h i
covering_bound t sessions ((u, settled_absent) ∷ m) h (inr i) = covering_bound t sessions m h i

module _ (c : RouteContribution) where
  parts :
      validate_bounds c ≡ ok tt
      → (length (extend [] (sessions_of c.destinations)) ≤ 256)
        × (validate_reasons c.destinations ≡ ok tt)
        × (validate_covered (values c.coverage) ≡ ok tt)
        × (validate_shortfalls c.shortfalls ≡ ok tt)
  unfolding validate_bounds bounded
  parts h = (ground (arith, h), ground (arith, h), ground (arith, h), ground (arith, h))

  pub validate_bounds-IsBounded : validate_bounds c ≡ ok tt → IsBounded c
  validate_bounds-IsBounded h =
      let (sessions, reasons, covering, texts) = parts h in
      record {
        few_sessions = sessions;
        short_reasons = λ d i. reasons_bound d c.destinations reasons i;
        few_covering = λ t s i. covering_bound t s c.coverage covering i;
        short_texts = λ text i. texts_bound text c.shortfalls texts i;
      }
