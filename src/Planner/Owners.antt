-- ===== src/Planner/Owners.antt =====
-- crates/fava-subscriptions-standard/src/attach.rs and diff.rs: whom a running subscription keeps,
-- and what becomes of it.
use fava.Base.{
  ◌≤◌, ◌≡◌, ◌≢◌, refl, arith, true, false, none, some, [], ◌∷◌, keep, length, is_none, In, In-keep,
  keep_of_In, inl, inr, Bool-cases, Option-cases, some_injective, ap, subst, sym, ◌∙◌,
}
use fava.BTreeMap.{pair_key, string_key, get, keys, get-insert}
use fava.BTreeMap.Distinct.{Distinct}
use fava.BTreeSet.{BTreeSet, contains, contains-extend, In-contains, contains-In}
use fava.Planner.Types.{
  SubscriptionId, DemandId, RelayReadConstraints, InstalledSubscription, InstalledSubscriptions,
}
use fava.Planner.Attach.{Attached, or_empty, still_owners, owners_among, keep_owner}
use fava.Planner.Diff.{attributed, retain_all, withdrawals}

get-keep_owner :
    (id j : SubscriptionId) (serves : BTreeSet DemandId) (owners : Attached)
    → string_key.beq id j ≡ false
    → get j (keep_owner id serves owners) ≡ get j owners
get-keep_owner id j [] owners h = refl
get-keep_owner id j (k ∷ serves) owners h = get-insert id j (k ∷ serves) owners ∙ rw h refl

keep_owner-get :
    (id : SubscriptionId) (k : DemandId) (serves : BTreeSet DemandId) (owners : Attached)
    → contains k serves ≡ true
    → get id (keep_owner id serves owners) ≡ some serves
unfolding contains
keep_owner-get id k [] owners h = cc
keep_owner-get id k (first ∷ serves) owners h =
    get-insert id id (first ∷ serves) owners ∙ rw ((string_key.beq_iff id id).1 refl) refl

module _ (requested : BTreeSet DemandId) (attached : Attached) where
  owners_among-other :
      (running : InstalledSubscriptions) (owners : Attached) (id : SubscriptionId)
      → get id running ≡ none
      → get id (owners_among requested attached running owners) ≡ get id owners
  unfolding owners_among get
  owners_among-other [] owners id h = refl
  owners_among-other ((j, entry) ∷ running) owners id h = elim (Bool-cases (string_key.beq j id)) [
    | inl same ↦ absurd (ground (arith, same))
    | inr other ↦
        owners_among-other running _ id (rw other at h)
        ∙ get-keep_owner j id (still_owners requested attached j entry) owners other
  ]

  -- A running subscription that has an owner left is among the owners, with all that it has left.
  pub owners_among-kept :
      (running : InstalledSubscriptions) (owners : Attached) (id : SubscriptionId)
      (entry : InstalledSubscription) (k : DemandId)
      → Distinct running
      → In (id, entry) running
      → contains k (still_owners requested attached id entry) ≡ true
      → get id (owners_among requested attached running owners)
        ≡ some (still_owners requested attached id entry)
  unfolding owners_among
  owners_among-kept [] owners id entry k d i h = elim i [ ]
  owners_among-kept ((j, first) ∷ running) owners id entry k d (inr i) h =
      owners_among-kept running _ id entry k d.1 i h
  owners_among-kept ((j, first) ∷ running) owners id entry k d (inl e) h =
      owners_among-other running _ id
        (subst (λ (x : SubscriptionId × InstalledSubscription). get x.0 running ≡ none) e d.0)
      ∙ subst
          (λ (x : SubscriptionId × InstalledSubscription).
            get id (keep_owner x.0 (still_owners requested attached x.0 x.1) owners)
            ≡ some (still_owners requested attached id entry))
          (sym e) (keep_owner-get id k (still_owners requested attached id entry) owners h)

  -- Who joined is among those that it has left.
  pub still_owners-joined :
      (id : SubscriptionId) (entry : InstalledSubscription) (k : DemandId)
      → contains k (or_empty (get id attached)) ≡ true
      → contains k (still_owners requested attached id entry) ≡ true
  unfolding still_owners
  still_owners-joined id entry k h =
      contains-extend k (keep (λ served. contains served requested) entry.serves)
        (or_empty (get id attached))
      ∙ rw h (ground arith)

  -- An owner that is still requested is left.
  pub still_owners-requested :
      (id : SubscriptionId) (entry : InstalledSubscription) (k : DemandId)
      → contains k entry.serves ≡ true
      → contains k requested ≡ true
      → contains k (still_owners requested attached id entry) ≡ true
  unfolding still_owners
  still_owners-requested id entry k served wanted =
      contains-extend k (keep (λ served. contains served requested) entry.serves)
        (or_empty (get id attached))
      ∙ rw
          (In-contains k (keep (λ (served : DemandId). contains served requested) entry.serves) (
            keep_of_In k (λ (served : DemandId). contains served requested) entry.serves
              (contains-In k entry.serves served) wanted))
          refl

module _ (constraints : RelayReadConstraints) (installed : InstalledSubscriptions) where
  pub retain_all-found :
      (owners : Attached) (id : SubscriptionId) (serves : BTreeSet DemandId)
      (entry : InstalledSubscription)
      → get id owners ≡ some serves
      → get id installed ≡ some entry
      → In id (retain_all constraints installed owners).1
        × (get id (retain_all constraints installed owners).0
            ≡ some (attributed constraints serves entry))
  unfolding retain_all get
  retain_all-found [] id serves entry h there = cc
  retain_all-found ((j, first) ∷ owners) id serves entry h there =
      elim (Bool-cases (string_key.beq j id)) [
        | inl same ↦
            let e : j ≡ id = (string_key.beq_iff j id).0 same in
            let here : get j installed ≡ some entry = rw e there in
            let is_first : first ≡ serves = some_injective (rw same at h) in
            rw (here, retain_all)
              (
                inl e,
                get-insert j id (attributed constraints first entry)
                      (retain_all constraints installed owners).0
                    ∙ rw same (
                        ap (λ (s : BTreeSet DemandId). some (attributed constraints s entry))
                          is_first),
              )
        | inr other ↦
            let (i, at) = retain_all-found owners id serves entry (rw other at h) there in
            elim (Option-cases (get j installed)) [
              | inl gone ↦ rw (gone, retain_all) (i, at)
              | inr (x, here) ↦
                  rw (here, retain_all)
                    (
                      inr i,
                      get-insert j id (attributed constraints first x)
                            (retain_all constraints installed owners).0
                          ∙ rw other at,
                    )
            ]
      ]

  pub retain_all-In :
      (owners : Attached) (id : SubscriptionId)
      → In id (retain_all constraints installed owners).1
      → (get id owners ≢ none) × (get id installed ≢ none)
  unfolding retain_all get
  retain_all-In [] id i = elim i [ ]
  retain_all-In ((j, first) ∷ owners) id i = elim (Option-cases (get j installed)) [
    | inl gone ↦
        let (kept, running) = retain_all-In owners id (rw (gone, retain_all) at i) in
        (owned kept, running)
    | inr (x, here) ↦ elim (rw (here, retain_all) at i) [
      | inl e ↦ (
        λ missing. first_owns e missing,
        λ missing. cc (ap (λ (k : SubscriptionId). get k installed) e, here, missing),
      )
      | inr k ↦ let (kept, running) = retain_all-In owners id k in (owned kept, running)
    ]
  ]
    where
      owned : get id owners ≢ none → get id ((j, first) ∷ owners) ≢ none
      owned kept missing = elim (Bool-cases (string_key.beq j id)) [
        | inl same ↦ cc (rw same at missing)
        | inr other ↦ kept (rw other at missing)
      ]

      first_owns : j ≡ id → get id ((j, first) ∷ owners) ≢ none
      first_owns e missing = cc (rw ((string_key.beq_iff j id).1 e) at missing)

  pub length-retain_all-le :
      (owners : Attached) → length (retain_all constraints installed owners).1 ≤ length owners
  unfolding retain_all
  length-retain_all-le [] = omega arith
  length-retain_all-le ((j, first) ∷ owners) = ground (arith, length-retain_all-le owners)

pub In-withdrawals :
    (installed : InstalledSubscriptions) (owners : Attached) (id : SubscriptionId)
    → In id (withdrawals installed owners)
    → In id (keys installed) × (get id owners ≡ none)
unfolding withdrawals
In-withdrawals installed owners id i =
    let (k, missing) =
      In-keep id (λ (id : SubscriptionId). is_none (get id owners)) (keys installed) i in
    (k, ground (arith, missing))

pub withdrawals_of_In :
    (installed : InstalledSubscriptions) (owners : Attached) (id : SubscriptionId)
    → In id (keys installed)
    → get id owners ≡ none
    → In id (withdrawals installed owners)
unfolding withdrawals
withdrawals_of_In installed owners id i missing =
    keep_of_In id (λ (id : SubscriptionId). is_none (get id owners)) (keys installed) i
      (rw missing refl)
