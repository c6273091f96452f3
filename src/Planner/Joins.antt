-- ===== src/Planner/Joins.antt =====
-- crates/fava-subscriptions-standard/src/attach.rs: demand that joins a running subscription is
-- among the owners that this one keeps.
use fava.Base.{
  ◌≡◌, refl, arith, Bool, true, ◌&&◌, ◌||◌, Option, none, some, List, [], ◌∷◌, any, is_none,
  if◌then◌else◌, In, inl, inr, ◌⊎◌, Bool-cases, Option-cases, In-any, append_left, append_right,
  some_injective, subst, ap, ◌∙◌,
}
use fava.BTreeMap.{nat_key, pair_key, string_key, get, get-insert}
use fava.BTreeSet.{contains, extend, contains-extend}
use fava.Subscriptions.Filter.{Filter}
use fava.Subscriptions.Coverage.{filter_covers, filter_covers-matches}
use fava.Subscriptions.Matching.{Matcher}
use fava.Subscriptions.Grouping.{RelayDemand}
use fava.Planner.Types.{
  SubscriptionId, DemandId, demand_id, InstalledSubscription, InstalledSubscriptions,
}
use fava.Planner.Attach.{
  Attached, or_empty, attach, host_among, host_for, admit_one, admit_all, admit,
}
use fava.Planner.Service.{Covers}

pub contains-attach :
    (id j : SubscriptionId) (serves : List DemandId) (attached : Attached) (k : DemandId)
    → contains k (or_empty (get j (attach id serves attached)))
      ≡ (contains k (or_empty (get j attached)) || (string_key.beq id j && contains k serves))
unfolding attach
contains-attach id j serves attached k = elim (Bool-cases (string_key.beq id j)) [
  | inr other ↦
      ground (arith, other, get-insert id j (extend (or_empty (get id attached)) serves) attached)
  | inl same ↦ ground (
    arith,
    same,
    (string_key.beq_iff id j).0 same,
    get-insert id j (extend (or_empty (get id attached)) serves) attached,
    contains-extend k (or_empty (get id attached)) serves,
  )
]

or_single : (k : DemandId) (b : Bool) → (b || (true && contains k (k ∷ []))) ≡ true
unfolding contains
or_single k b = ground (arith, pair_key.beq_iff k k)

module _ (matcher : Matcher) where
  -- The running subscription already asks for all that the demand asks for.
  pub record Carried (entry : InstalledSubscription) (d : RelayDemand) : Type 0 where
    pub filter : Filter
    pub asked : In filter entry.filters
    pub covers : Covers matcher filter d

  -- The caller's obligation: a running subscription carries the demand that it is said to serve.
  abbrev pub IsTruthful : InstalledSubscriptions → List RelayDemand → Type 0
  IsTruthful installed demand =
      (id : SubscriptionId) (entry : InstalledSubscription) (d : RelayDemand)
      → In (id, entry) installed
      → In d demand
      → contains (demand_id d) entry.serves ≡ true
      → Carried entry d

  -- Demand among the owners that join a running subscription.
  pub record Joined (installed : InstalledSubscriptions) (attached : Attached) (d : RelayDemand)
      : Type 0 where
    pub id : SubscriptionId
    pub entry : InstalledSubscription
    pub running : In (id, entry) installed
    pub named : contains (demand_id d) (or_empty (get id attached)) ≡ true
    pub carried : Carried entry d

  -- Who joined stays when others join.
  pub attach-Joined :
      (installed : InstalledSubscriptions) (id : SubscriptionId) (serves : List DemandId)
      (attached : Attached) (d : RelayDemand)
      → Joined installed attached d
      → Joined installed (attach id serves attached) d
  attach-Joined installed id serves attached d joined = record {
    id = joined.id;
    entry = joined.entry;
    running = joined.running;
    named = contains-attach id joined.id serves attached (demand_id d) ∙ rw joined.named refl;
    carried = joined.carried;
  }

  covered-Carried :
      (entry : InstalledSubscription) (d : RelayDemand)
      → any (λ f. filter_covers f d.filter) entry.filters ≡ true
      → Carried entry d
  covered-Carried entry d h =
      let (f, i, c) = In-any (λ f. filter_covers f d.filter) entry.filters h in
      record {
        filter = f;
        asked = i;
        covers = λ e a. filter_covers-matches matcher e f d.filter c a;
      }

  abbrev Hosts : InstalledSubscriptions → SubscriptionId → RelayDemand → Type 0
  Hosts running id d = (entry : InstalledSubscription) × In (id, entry) running × Carried entry d

  Hosts-later :
      (first : SubscriptionId × InstalledSubscription) (running : InstalledSubscriptions)
      (id : SubscriptionId) (d : RelayDemand)
      → Hosts running id d
      → Hosts (first ∷ running) id d
  Hosts-later first running id d (entry, i, c) = (entry, inr i, c)

  abbrev covering_or :
      RelayDemand
      → Option SubscriptionId
      → SubscriptionId
      → InstalledSubscription
      → Option SubscriptionId
  covering_or d covering j entry =
      if is_none covering && any (λ f. filter_covers f d.filter) entry.filters
      then some j
      else covering

  host_among-Hosts :
      (d : RelayDemand) (covering : Option SubscriptionId) (running : InstalledSubscriptions)
      (id : SubscriptionId)
      → IsTruthful running (d ∷ [])
      → host_among d covering running ≡ some id
      → (covering ≡ some id) ⊎ Hosts running id d
  unfolding host_among
  host_among-Hosts d covering [] id truthful h = inl h
  host_among-Hosts d covering ((j, entry) ∷ running) id truthful h =
      elim (Bool-cases (contains (demand_id d) entry.serves)) [
        | inl served ↦
            let same : j ≡ id = some_injective (rw served at h) in
            inr (
              entry,
              inl (ap (λ (x : SubscriptionId). (x, entry)) same),
              truthful j entry d (inl refl) (inl refl) served,
            )
        | inr unserved ↦
            elim (host_among-Hosts d (covering_or d covering j entry) running id
              (λ k x y i. truthful k x y (inr i)) (rw unserved at h)) [
                | inr later ↦ inr (Hosts-later (j, entry) running id d later)
                | inl found ↦
                    elim (Bool-cases
                      (is_none covering && any (λ f. filter_covers f d.filter) entry.filters)) [
                        | inr before ↦ inl (rw before at found)
                        | inl here ↦
                            let same : j ≡ id = some_injective (rw here at found) in
                            inr (
                              entry,
                              inl (ap (λ (x : SubscriptionId). (x, entry)) same),
                              covered-Carried entry d (ground (arith, here)),
                            )
                      ]
              ]
      ]

  module _ (installed : InstalledSubscriptions) (demand : List RelayDemand)
      (truthful : IsTruthful installed demand) where
    abbrev Admitted : RelayDemand → Attached × List RelayDemand → Type 0
    Admitted d state = Joined installed state.0 d ⊎ In d state.1

    admit_one-Admitted :
        (state : Attached × List RelayDemand) (item d : RelayDemand)
        → In item demand
        → Admitted d state ⊎ (item ≡ d)
        → Admitted d (admit_one installed state item)
    unfolding admit_one host_for
    admit_one-Admitted (attached, pending) item d i h =
        elim (Option-cases (host_for item installed)) [
          | inl nowhere ↦
              rw (nowhere, admit_one)
                (elim h [
                  | inl (inl joined) ↦ inl joined
                  | inl (inr j) ↦ inr (append_left d pending _ j)
                  | inr e ↦ inr (append_right d pending _ (inl e))
                ])
          | inr (id, hosted) ↦
              rw (hosted, admit_one)
                (elim h [
                  | inl (inl joined) ↦ inl (attach-Joined installed id _ attached d joined)
                  | inl (inr j) ↦ inr j
                  | inr e ↦ inl (subst (Joined installed _) e (joins attached item i id hosted))
                ])
        ]
      where
        joins :
            (attached : Attached) (item : RelayDemand)
            → In item demand
            → (id : SubscriptionId) → host_for item installed ≡ some id
            → Joined installed (attach id (demand_id item ∷ []) attached) item
        joins attached item i id hosted =
            elim (host_among-Hosts item none installed id
              (λ k x y r j. elim j [
                | inl e ↦ truthful k x y r (subst (λ (z : RelayDemand). In z demand) e i)
                | inr none_left ↦ absurd none_left
              ])
              hosted) [
                | inl impossible ↦ cc
                | inr (entry, r, c) ↦ record {
                  id = id;
                  entry = entry;
                  running = r;
                  named =
                      contains-attach id id (demand_id item ∷ []) attached (demand_id item)
                      ∙ rw ((string_key.beq_iff id id).1 refl) (
                          or_single (demand_id item)
                            (contains (demand_id item) (or_empty (get id attached))));
                  carried = c;
                }
              ]

    admit_all-Admitted :
        (state : Attached × List RelayDemand) (part : List RelayDemand) (d : RelayDemand)
        → ((x : RelayDemand) → In x part → In x demand)
        → Admitted d state ⊎ In d part
        → Admitted d (admit_all installed state part)
    unfolding admit_all
    admit_all-Admitted state [] d of (inl done) = done
    admit_all-Admitted state [] d of (inr i) = elim i [ ]
    admit_all-Admitted state (item ∷ part) d of h =
        admit_all-Admitted (admit_one installed state item) part d (λ x i. of x (inr i))
          (elim h [
            | inl done ↦ inl (admit_one-Admitted state item d (of item (inl refl)) (inl done))
            | inr (inl e) ↦ inl (admit_one-Admitted state item d (of item (inl refl)) (inr e))
            | inr (inr i) ↦ inr i
          ])

    -- Demand joins a running subscription, or is left to be sent.
    pub admit-Admitted :
        (part : List RelayDemand) (d : RelayDemand)
        → ((x : RelayDemand) → In x part → In x demand)
        → In d part
        → Admitted d (admit part installed)
    unfolding admit
    admit-Admitted part d of i = admit_all-Admitted ([], []) part d of (inr i)
