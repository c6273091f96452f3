-- ===== src/Planner/Pending.antt =====
-- crates/fava-subscriptions-standard/src/attach.rs, `admit`: what is left to be sent is of the
-- demand.
use fava.Base.{◌≡◌, List, [], ◌∷◌, In, inl, inr, ◌⊎◌, Option-cases, In-append}
use fava.BTreeMap.{nat_key, pair_key, string_key}
use fava.Subscriptions.Grouping.{RelayDemand}
use fava.Planner.Types.{InstalledSubscriptions}
use fava.Planner.Attach.{Attached, host_for, admit_one, admit_all, admit}

admit_one-In :
    (installed : InstalledSubscriptions) (state : Attached × List RelayDemand)
    (item d : RelayDemand)
    → In d (admit_one installed state item).1
    → In d state.1 ⊎ (item ≡ d)
unfolding admit_one
admit_one-In installed (attached, pending) item d i =
    elim (Option-cases (host_for item installed)) [
      | inr (id, hosted) ↦ inl (rw (hosted, admit_one) at i)
      | inl nowhere ↦ elim (In-append d pending (item ∷ []) (rw (nowhere, admit_one) at i)) [
        | inl old ↦ inl old
        | inr (inl e) ↦ inr e
        | inr (inr none_left) ↦ absurd none_left
      ]
    ]

admit_all-In :
    (installed : InstalledSubscriptions) (state : Attached × List RelayDemand)
    (part : List RelayDemand) (d : RelayDemand)
    → In d (admit_all installed state part).1
    → In d state.1 ⊎ In d part
unfolding admit_all
admit_all-In installed state [] d i = inl i
admit_all-In installed state (item ∷ part) d i =
    elim (admit_all-In installed (admit_one installed state item) part d i) [
      | inr j ↦ inr (inr j)
      | inl before ↦ elim (admit_one-In installed state item d before) [
        | inl j ↦ inl j
        | inr e ↦ inr (inl e)
      ]
    ]

-- What is left to be sent is of the demand.
pub admit-In :
    (installed : InstalledSubscriptions) (part : List RelayDemand) (d : RelayDemand)
    → In d (admit part installed).1
    → In d part
unfolding admit
admit-In installed part d i = elim (admit_all-In installed ([], []) part d i) [
  | inl none_left ↦ absurd none_left
  | inr j ↦ j
]
