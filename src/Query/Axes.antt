-- ===== src/Query/Axes.antt =====
-- crates/fava-query/src/selection.rs: what narrowing the axes of a query comes to.
use fava.Base.{
  eq_iff, ◌==◌, ==_iff, ◌≡◌, refl, arith, true, String, Option, none, some, List, [], ◌∷◌, any, all,
  In, inl, inr, In-any, any_of_In, In-all, all_of_In, In-keep, Option-cases, Bool-cases, sym, subst,
}
use fava.BTreeMap.{BTreeMap, Key, nat_key, string_key, get, In-get, get-insert}
use fava.BTreeMap.Distinct.{Distinct, get_of_In}
use fava.BTreeSet.{BTreeSet, contains, In-contains, contains-In}
use fava.Nostr.{Nostr, PublicKey, Tag}
use fava.Query.Types.{Letter}
use fava.Query.Evaluate.{TagReader, tag_carries}
use fava.Query.Build.{narrow, account_set, intersect_axis, bind_axes}

pub contains-narrow :
    {K : Type 0} ⦃key : Key K⦄ (k : K) (supplied : BTreeSet K) (axis : Option (BTreeSet K))
    → contains k (narrow supplied axis) ≡ true
    → (contains k supplied ≡ true)
      × ((existing : BTreeSet K) → axis ≡ some existing → contains k existing ≡ true)
unfolding narrow
contains-narrow k supplied none h = (h, λ existing e. cc)
contains-narrow k supplied (some axis) h =
    let (i, wanted) = In-keep k (λ v. contains v supplied) axis (contains-In k _ h) in
    (wanted, λ existing e. ground (arith, In-contains k axis i))

module _ (nostr : Nostr) (reader : TagReader) (tags : List Tag) where
  -- Some tag has the letter, with a value that is wanted.
  abbrev pub Carries : Letter → BTreeSet String → Type 0
  Carries letter wanted = any (tag_carries nostr reader letter wanted) tags ≡ true

  abbrev pub CarriesAll : BTreeMap Letter (BTreeSet String) → Type 0
  CarriesAll axes =
      (letter : Letter) (wanted : BTreeSet String)
      → get letter axes ≡ some wanted
      → Carries letter wanted

  Carries-mono :
      (letter : Letter) (few many : BTreeSet String)
      → ((v : String) → contains v few ≡ true → contains v many ≡ true)
      → Carries letter few
      → Carries letter many
  Carries-mono letter few many sub h =
      let (tag, i, carried) = In-any (tag_carries nostr reader letter few) tags h in
      any_of_In tag (tag_carries nostr reader letter many) tags i
        (elim (Option-cases (reader.content tag)) [
          | inl no_content ↦ absurd (ground (arith, carried, no_content))
          | inr (value, has) ↦ ground (arith, carried, has, sub value)
        ])

  Carries-both :
      (letter : Letter) (supplied : BTreeSet String) (axes : BTreeMap Letter (BTreeSet String))
      → CarriesAll (intersect_axis letter supplied axes)
      → Carries letter supplied × CarriesAll axes
  unfolding intersect_axis
  Carries-both letter supplied axes h =
      let now : Carries letter (narrow supplied (get letter axes)) =
        h letter (narrow supplied (get letter axes))
          (ground (arith, get-insert letter letter (narrow supplied (get letter axes)) axes)) in
      (
        Carries-mono letter (narrow supplied (get letter axes)) supplied
            (λ v c. (contains-narrow v supplied (get letter axes) c).0) now,
        λ other wanted held. elim (Bool-cases (letter == other)) [
          | inl same ↦
              let e = (==_iff letter other).0 same in
              Carries-mono other (narrow supplied (get letter axes)) wanted
                (λ v c.
                  (contains-narrow v supplied (get letter axes) c).1 wanted
                    (subst (λ l. get l axes ≡ some wanted) (sym e) held))
                (subst (λ l. Carries l (narrow supplied (get letter axes))) e now)
          | inr different ↦ h other wanted (
              ground (
                arith,
                held,
                different,
                get-insert letter other (narrow supplied (get letter axes)) axes,
              ))
        ],
      )

  -- An axis that depends on the account is met by its key, and the axes of the query are met too.
  pub bind_axes-Carries :
      (supplied : BTreeSet String) (letters : List Letter)
      (axes : BTreeMap Letter (BTreeSet String))
      → CarriesAll (bind_axes supplied letters axes)
      → ((letter : Letter) → In letter letters → Carries letter supplied) × CarriesAll axes
  unfolding bind_axes
  bind_axes-Carries supplied [] axes h = (λ letter i. elim i [ ], h)
  bind_axes-Carries supplied (letter ∷ letters) axes h =
      let (later, all_then) =
        bind_axes-Carries supplied letters (intersect_axis letter supplied axes) h in
      let (now, all_before) = Carries-both letter supplied axes all_then in
      (
        λ other i. elim i [ inl e ↦ subst (λ l. Carries l supplied) e now | inr j ↦ later other j ],
        all_before,
      )

  pub CarriesAll-of_all :
      (axes : BTreeMap Letter (BTreeSet String))
      → all (λ named. any (tag_carries nostr reader named.0 named.1) tags) axes ≡ true
      → CarriesAll axes
  CarriesAll-of_all axes h letter wanted held =
      In-all (letter, wanted) (λ named. any (tag_carries nostr reader named.0 named.1) tags) axes h
        (In-get letter axes held)

  pub all_of_CarriesAll :
      (axes : BTreeMap Letter (BTreeSet String))
      → Distinct axes
      → CarriesAll axes
      → all (λ named. any (tag_carries nostr reader named.0 named.1) tags) axes ≡ true
  all_of_CarriesAll axes distinct h =
      all_of_In (λ named. any (tag_carries nostr reader named.0 named.1) tags) axes
        (λ e i. h e.0 e.1 (get_of_In e axes distinct i))

  module _ (to_hex : PublicKey → String) where
    -- A tag of the letter names the account.
    abbrev pub Names : Option PublicKey → Letter → Type 0
    Names current letter =
        (key : PublicKey) × (current ≡ some key)
        × ((tag : Tag) × In tag tags
            × (reader.single_letter_tag tag ≡ some letter)
            × (reader.content tag ≡ some (to_hex key)))

    Names-tag :
        (current : Option PublicKey) (letter : Letter) (tag : Tag)
        → tag_carries nostr reader letter (account_set to_hex current) tag ≡ true
        → (key : PublicKey) × (current ≡ some key)
          × (reader.single_letter_tag tag ≡ some letter)
          × (reader.content tag ≡ some (to_hex key))
    unfolding contains
    Names-tag none letter tag h = elim (Option-cases (reader.content tag)) [
      | inl no_content ↦ absurd (ground (arith, h, no_content))
      | inr (value, has) ↦ absurd (ground (arith, h, has))
    ]
    Names-tag (some key) letter tag h = elim (Option-cases (reader.single_letter_tag tag)) [
      | inl no_letter ↦ absurd (ground (arith, h, no_letter))
      | inr (first, named) ↦ elim (Option-cases (reader.content tag)) [
        | inl no_content ↦ absurd (ground (arith, h, no_content))
        | inr (value, has) ↦
            (key, refl, ground (arith, h, named), ground (arith, h, has, eq_iff (to_hex key) value))
      ]
    ]

    pub Carries-Names :
        (current : Option PublicKey) (letter : Letter)
        → Carries letter (account_set to_hex current)
        → Names current letter
    Carries-Names current letter h =
        let (tag, i, carried) =
          In-any (tag_carries nostr reader letter (account_set to_hex current)) tags h in
        let (key, is, named, value) = Names-tag current letter tag carried in
        (key, is, (tag, i, named, value))
