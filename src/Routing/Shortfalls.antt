-- ===== src/Routing/Shortfalls.antt =====
-- crates/fava-routing/src/chain.rs: `combined`: what the chain answers at any time.
use fava.Base.{
  ℕ, ◌+◌, ◌-◌, ◌^◌, ◌≤◌, ◌≡◌, refl, ap, subst, arith, Bool, true, false, String, List, [], ◌∷◌,
  ◌++◌, ltb, leb, if◌then◌else◌, length, length-append, take, drop, take-append-drop, length-take,
  is_none, Bool-cases, ◌⊎◌, inl, inr, In, zero, suc,
}
use fava.BTreeMap.{nat_key, get, get-insert}
use fava.Routing.Plan.{
  RouteTarget, target_key, target_eq_iff, unresolved, settled_absent, RouteContribution,
}
use fava.Routing.Composer.{
  Composer, merged, combine, complete_target, complete_targets, all_answered, combined,
  max_shortfalls, saturating_add,
}

complete_targets-keeps :
    (answered : Bool) (targets : List RouteTarget) (c : RouteContribution) (t : RouteTarget)
    → is_none (get t c.coverage) ≡ false
    → is_none (get t (complete_targets answered targets c).coverage) ≡ false
unfolding complete_targets complete_target
complete_targets-keeps answered [] c t held = held
complete_targets-keeps answered (u ∷ targets) c t held =
    complete_targets-keeps answered targets (complete_target answered u c) t (
      ground (
        arith,
        held,
        get-insert u t settled_absent c.coverage,
        get-insert u t unresolved c.coverage,
      ))

complete_targets-covers :
    (answered : Bool) (targets : List RouteTarget) (c : RouteContribution) (t : RouteTarget)
    → In t targets
    → is_none (get t (complete_targets answered targets c).coverage) ≡ false
unfolding complete_targets complete_target
complete_targets-covers answered [] c t i = elim i [ ]
complete_targets-covers answered (u ∷ targets) c t (inr i) =
    complete_targets-covers answered targets (complete_target answered u c) t i
complete_targets-covers answered (u ∷ targets) c t (inl e) =
    complete_targets-keeps answered targets (complete_target answered u c) t (
      ground (
        arith,
        e,
        target_eq_iff u t,
        get-insert u t settled_absent c.coverage,
        get-insert u t unresolved c.coverage,
      ))

kept_bound :
    (counted : Bool) (text : String) (texts : List String)
    → let kept = if leb max_shortfalls (length texts) then take 255 texts else texts in
      length (if counted then kept ++ text ∷ [] else kept) ≤ 256
kept_bound counted text texts = elim (Bool-cases (leb max_shortfalls (length texts))) [
  | inl over ↦
      rw over (ground (arith, length-take 255 texts, length-append (take 255 texts) (text ∷ [])))
  | inr room ↦ rw room (ground (arith, room, length-append texts (text ∷ [])))
]

-- Shortfalls that answer for these texts, when `counted` of earlier ones are not kept: the texts
-- themselves, or those of them that are kept and then one text that counts all the others. Texts
-- are left out only where 255 are kept, and the count stops at the last word of 64 bits.
pub data AnswersFor (discarded_text : ℕ → String) (counted : ℕ) (texts : List String)
    : List String → Type 0 where
  all_of_them : counted ≡ 0 → AnswersFor discarded_text counted texts texts
  most_of_them :
      (kept dropped : List String) (n : ℕ)
      → kept ++ dropped ≡ texts
      → (dropped ≡ []) ⊎ (length kept ≡ 255)
      → (n ≡ counted + length dropped) ⊎ ((2 ^ 64 ≤ counted + length dropped) × (n ≡ 2 ^ 64 - 1))
      → AnswersFor discarded_text counted texts (kept ++ discarded_text n ∷ [])

append-nil : {A : Type 0} (xs : List A) → xs ++ [] ≡ xs
append-nil [] = refl
append-nil (x ∷ xs) = ap (λ ys. x ∷ ys) (append-nil xs)

length-take-drop :
    (n : ℕ) (texts : List String)
    → n ≤ length texts
    → (length (take n texts) ≡ n) × (length (drop n texts) ≡ length texts - n)
length-take-drop zero texts few = (refl, omega arith)
length-take-drop (suc n) [] few = absurd (omega (arith, few))
length-take-drop (suc n) (text ∷ texts) few =
    let (kept, dropped) = length-take-drop n texts (omega (arith, few)) in
    (omega (arith, kept), omega (arith, dropped))

saturating_add-cases :
    (a b : ℕ)
    → (saturating_add a b ≡ a + b) ⊎ ((2 ^ 64 ≤ a + b) × (saturating_add a b ≡ 2 ^ 64 - 1))
saturating_add-cases a b = elim (Bool-cases (ltb (a + b) (2 ^ 64))) [
  | inl fits ↦ inl (rw fits refl)
  | inr wide ↦ inr (ground (arith, wide), rw wide refl)
]

-- What `combined` makes of the texts.
abbrev shortfalls_of : (ℕ → String) → ℕ → List String → List String
shortfalls_of discarded_text counted texts =
    let over = leb max_shortfalls (length texts) in
    let discarded =
      if over then saturating_add counted (length texts - max_shortfalls + 1) else counted in
    let kept = if over then take (max_shortfalls - 1) texts else texts in
    if ltb 0 discarded then kept ++ discarded_text discarded ∷ [] else kept

module _ (discarded_text : ℕ → String) (counted : ℕ) (texts : List String) where
  over-AnswersFor :
      256 ≤ length texts
      → ltb 0 (saturating_add counted (length texts - 256 + 1)) ≡ true
      → AnswersFor discarded_text counted texts
          (take 255 texts ++ discarded_text (saturating_add counted (length texts - 256 + 1)) ∷ [])
  over-AnswersFor long some_left =
      let (kept, dropped) = length-take-drop 255 texts (omega (arith, long)) in
      let same : length texts - 256 + 1 ≡ length (drop 255 texts) = omega (arith, long, dropped) in
      most_of_them (take 255 texts) (drop 255 texts) _ (take-append-drop 255 texts) (inr kept) (
        subst
          (λ more.
            (saturating_add counted (length texts - 256 + 1) ≡ counted + more)
            ⊎ ((2 ^ 64 ≤ counted + more)
                × (saturating_add counted (length texts - 256 + 1) ≡ 2 ^ 64 - 1)))
          same (saturating_add-cases counted (length texts - 256 + 1)))

  shortfalls_of-AnswersFor :
      AnswersFor discarded_text counted texts (shortfalls_of discarded_text counted texts)
  shortfalls_of-AnswersFor = elim (Bool-cases (leb max_shortfalls (length texts))) [
    | inl over ↦
        let some_left : ltb 0 (saturating_add counted (length texts - 256 + 1)) ≡ true =
          ground arith in
        rw (over, some_left) (over-AnswersFor (ground (arith, over)) some_left)
    | inr room ↦ elim (Bool-cases (ltb 0 counted)) [
      | inl some_before ↦
          rw (room, some_before)
            (most_of_them texts [] counted (append-nil texts) (inl refl) (inl (omega arith)))
      | inr none_before ↦ rw (room, none_before) (all_of_them (ground (arith, none_before)))
    ]
  ]

-- What a composer has combined says of every target of the request where it stands. Its shortfalls
-- are no more than 256, and they answer for the texts of the merged contributions and those that
-- the composer has recorded: they are these texts, or as many of them as there is room for, and one
-- text more that counts those that are left out here or were discarded before, as far as a word of
-- 64 bits goes.
pub combined_lem :
    (discarded_text : ℕ → String) (composer : Composer) (t : RouteTarget)
    → In t composer.targets
    → (is_none (get t (combined discarded_text composer).coverage) ≡ false)
      × (length (combined discarded_text composer).shortfalls ≤ 256)
      × AnswersFor discarded_text composer.discarded
          ((merged composer).shortfalls ++ composer.shortfalls)
          (combined discarded_text composer).shortfalls
unfolding combined merged
combined_lem discarded_text composer t i =
    let texts = (merged composer).shortfalls ++ composer.shortfalls in
    (
      complete_targets-covers (all_answered composer) composer.targets
          (combine composer.contributions) t i,
      kept_bound _ _ texts,
      shortfalls_of-AnswersFor discarded_text composer.discarded texts,
    )
