-- ===== src/Csi/References.antt =====
-- PYTHON/IrisUtils/channel_analysis.py, find_bad_nodes: the loop over the references ends.
use houdini_lab.Csi.Nodes.{count_good, node_good, bad_nodes, choose, find_bad_nodes}
use houdini_lab.Common.{
  ℕ, Bool, List, suc, ◌<◌, false, ◌≤◌, if◌then◌else◌, ◌≢◌, ◌∷◌, ◌+◌, ◌==◌, ◌≡◌, ◌⊎◌, zero, ◌||◌,
  arith, [], refl, Bool-cases, inl, inr, replicate, ltb, not, true, some, ◌&&◌, ◌/◌,
}

-- The other nodes that do not stray from the reference, among n from the i-th on.
abbrev partners : (ℕ → ℕ → Bool) → ℕ → ℕ → ℕ → ℕ
partners deviates ref zero i = 0
partners deviates ref (suc n) i =
    let rest = partners deviates ref n (suc i) in
    if i == ref then rest else if deviates ref i then rest else suc rest

-- Some other node agrees with the reference.
abbrev pub HasPartner : (ℕ → ℕ → Bool) → ℕ → ℕ → Type 0
HasPartner deviates num_nodes ref = (n : ℕ) × (n < num_nodes) × (n ≢ ref) × (deviates ref n ≡ false)

-- Whether a number is in the list.
abbrev pub is_listed : ℕ → List ℕ → Bool
is_listed m [] = false
is_listed m (x ∷ xs) = (x == m) || is_listed m xs

module _ (deviates : ℕ → ℕ → Bool) where
  count_good-outside :
      (ref n i : ℕ)
      → (ref < i) ⊎ (i + n ≤ ref)
      → count_good (node_good deviates ref n i) ≡ partners deviates ref n i
  unfolding count_good node_good
  count_good-outside ref zero i h = refl
  count_good-outside ref (suc n) i h =
      let apart : (ref < suc i) ⊎ (suc i + n ≤ ref) = ground arith in
      ground (arith, count_good-outside ref n (suc i) apart)

  count_good-inside :
      (ref n i : ℕ)
      → i ≤ ref
      → ref < i + n
      → count_good (node_good deviates ref n i) ≡ suc (partners deviates ref n i)
  unfolding count_good node_good
  count_good-inside ref zero i h k = absurd (omega arith)
  count_good-inside ref (suc n) i h k = elim (Bool-cases (i == ref)) [
    | inl e ↦ ground (arith, count_good-outside ref n (suc i) (inl (ground arith)))
    | inr e ↦ ground (arith, count_good-inside ref n (suc i) (ground arith) (ground arith))
  ]

  partner-found :
      (ref n i : ℕ)
      → 0 < partners deviates ref n i
      → (m : ℕ) × (m < i + n) × (m ≢ ref) × (deviates ref m ≡ false)
  partner-found ref zero i h = absurd (omega arith)
  partner-found ref (suc n) i h = elim (Bool-cases (i == ref)) [
    | inl e ↦
        let (m, below, ne, ok) = partner-found ref n (suc i) (ground arith) in
        (m, omega arith, ne, ok)
    | inr e ↦ elim (Bool-cases (deviates ref i)) [
      | inl d ↦
          let (m, below, ne, ok) = partner-found ref n (suc i) (ground arith) in
          (m, omega arith, ne, ok)
      | inr d ↦ (i, omega arith, (λ q. ground arith), d)
    ]
  ]

  partner-counted :
      (ref n i m : ℕ)
      → i ≤ m
      → m < i + n
      → m ≢ ref
      → deviates ref m ≡ false
      → 0 < partners deviates ref n i
  partner-counted ref zero i m low high ne ok = absurd (omega arith)
  partner-counted ref (suc n) i m low high ne ok = elim (Bool-cases (i == m)) [
    | inl e ↦
        let same : i ≡ m = ground arith in
        let ok' : deviates ref i ≡ false = rw same ok in ground arith
    | inr e ↦ ground (arith, partner-counted ref n (suc i) m (ground arith) (omega arith) ne ok)
  ]

  -- The list of the bad nodes: exactly those whose flag is false.
  listed-below : (flags : List Bool) (i m : ℕ) → m ≤ i → is_listed m (bad_nodes i flags) ≡ false
  unfolding bad_nodes
  listed-below [] i m h = refl
  listed-below (x ∷ xs) i m h = ground (arith, listed-below xs (suc i) m)

  listed-node_good :
      (ref n i m : ℕ)
      → i ≤ m
      → m < i + n
      → is_listed (suc m) (bad_nodes i (node_good deviates ref n i))
        ≡ not (m == ref) && deviates ref m
  unfolding bad_nodes node_good
  listed-node_good ref zero i m low high = absurd (omega arith)
  listed-node_good ref (suc n) i m low high = elim (Bool-cases (i == m)) [
    | inl e ↦
        let same : i ≡ m = ground arith in
        rw same (ground (arith, listed-below (node_good deviates ref n (suc m)) (suc m) (suc m)))
    | inr e ↦ ground (arith, listed-node_good ref n (suc i) m (ground arith) (omega arith))
  ]

  listed-replicate :
      (n i m : ℕ) → i ≤ m → m < i + n → is_listed (suc m) (bad_nodes i (replicate n false)) ≡ true
  unfolding bad_nodes
  listed-replicate zero i m low high = absurd (omega arith)
  listed-replicate (suc n) i m low high = elim (Bool-cases (i == m)) [
    | inl e ↦ ground arith
    | inr e ↦ ground (arith, listed-replicate n (suc i) m (ground arith) (omega arith))
  ]

  -- What the loop gives from a reference on.
  abbrev Chosen : ℕ → ℕ → List Bool → Type 0
  Chosen num_nodes first flags =
      ((ref : ℕ) × (first ≤ ref)
        × (ref < num_nodes)
        × HasPartner deviates num_nodes ref
        × ((r : ℕ) → first ≤ r → r < ref → ¬ HasPartner deviates num_nodes r)
        × (flags ≡ node_good deviates ref num_nodes 0))
      ⊎ (((r : ℕ) → first ≤ r → r < num_nodes → ¬ HasPartner deviates num_nodes r)
          × (flags ≡ replicate num_nodes false))

  no_partner :
      (num_nodes ref : ℕ)
      → ref < num_nodes
      → ltb 1 (count_good (node_good deviates ref num_nodes 0)) ≡ false
      → ¬ HasPartner deviates num_nodes ref
  no_partner num_nodes ref low few (n, below, ne, ok) =
      let some_partner = partner-counted ref num_nodes 0 n (omega arith) (omega arith) ne ok in
      ground (arith, count_good-inside ref num_nodes 0 (omega arith) (omega arith))

  no_partner_from :
      (num_nodes first top : ℕ)
      → ¬ HasPartner deviates num_nodes first
      → ((r : ℕ) → suc first ≤ r → r < top → ¬ HasPartner deviates num_nodes r)
      → (r : ℕ) → first ≤ r
      → r < top
      → ¬ HasPartner deviates num_nodes r
  no_partner_from num_nodes first top alone after r p q = elim (Bool-cases (r == first)) [
    | inl e ↦ let same : r ≡ first = ground arith in rw same alone
    | inr e ↦ after r (ground arith) q
  ]

  Chosen-later :
      (num_nodes first : ℕ) (flags : List Bool)
      → ¬ HasPartner deviates num_nodes first
      → Chosen num_nodes (suc first) flags
      → Chosen num_nodes first flags
  Chosen-later num_nodes first flags alone (inl (ref, low, high, partner, before, is)) =
      inl (ref, omega arith, high, partner, no_partner_from num_nodes first ref alone before, is)
  Chosen-later num_nodes first flags alone (inr (none_ok, is)) =
      inr (no_partner_from num_nodes first num_nodes alone none_ok, is)

  choose-Chosen :
      (num_nodes fuel first : ℕ)
      → first < num_nodes
      → num_nodes ≤ first + fuel
      → (flags : List Bool) × (choose deviates num_nodes fuel first ≡ some flags)
        × Chosen num_nodes first flags
  unfolding choose
  choose-Chosen num_nodes zero first low enough = absurd (omega arith)
  choose-Chosen num_nodes (suc fuel) first low enough =
      elim (Bool-cases (ltb 1 (count_good (node_good deviates first num_nodes 0)))) [
        | inl many ↦
            let (n, below, ne, ok) =
              partner-found first num_nodes 0
                (ground (arith, count_good-inside first num_nodes 0 (omega arith) (omega arith))) in
            rw many (
              node_good deviates first num_nodes 0,
              refl,
              inl (
                first,
                omega arith,
                low,
                (n, omega arith, ne, ok),
                (λ r p q h. omega arith),
                refl,
              ),
            )
        | inr few ↦
            let alone = no_partner num_nodes first low few in
            elim (Bool-cases (suc first == num_nodes)) [
              | inl last ↦
                  rw (few, last)
                    (
                      replicate num_nodes false,
                      refl,
                      inr ((λ r p q. let e : r ≡ first = ground arith in rw e alone), refl),
                    )
              | inr more ↦
                  let (flags, found, chosen) =
                    choose-Chosen num_nodes fuel (suc first) (ground arith) (omega arith) in
                  rw (few, more) (flags, found, Chosen-later num_nodes first flags alone chosen)
            ]
      ]

  -- Some node from the middle one on has another that agrees with it: the first such node is the
  -- reference, and exactly the others that deviate from it are listed. Or there is no such node, and all
  -- are listed.
  abbrev pub Described : ℕ → List ℕ → Type 0
  Described num_nodes bad =
      ((ref : ℕ) × (num_nodes / 2 ≤ ref)
        × (ref < num_nodes)
        × HasPartner deviates num_nodes ref
        × ((r : ℕ) → num_nodes / 2 ≤ r → r < ref → ¬ HasPartner deviates num_nodes r)
        × ((n : ℕ) → n < num_nodes → is_listed (suc n) bad ≡ not (n == ref) && deviates ref n))
      ⊎ (((r : ℕ) → num_nodes / 2 ≤ r → r < num_nodes → ¬ HasPartner deviates num_nodes r)
          × ((n : ℕ) → n < num_nodes → is_listed (suc n) bad ≡ true))

  -- With fuel for as many passes as there are nodes, of which there are at least two, the loop ends. If
  -- some node from the middle one on has another that agrees with it, the first such node is the
  -- reference, and the bad nodes are exactly the others that deviate from it. If there is none, all the
  -- nodes are bad, whatever the nodes before the middle one would show.
  pub find_bad_nodes-ends :
      (num_nodes : ℕ)
      → 1 < num_nodes
      → (bad : List ℕ) × (find_bad_nodes deviates num_nodes num_nodes ≡ some bad)
        × Described num_nodes bad
  unfolding find_bad_nodes
  find_bad_nodes-ends num_nodes many =
      let (flags, found, chosen) =
        choose-Chosen num_nodes num_nodes (num_nodes / 2) (omega arith) (omega arith) in
      let single : (num_nodes == 1) ≡ false = ground arith in
      rw (single, found) (bad_nodes 0 flags, refl, described num_nodes flags chosen)
    where
      described :
          (num_nodes : ℕ) (flags : List Bool)
          → Chosen num_nodes (num_nodes / 2) flags
          → Described num_nodes (bad_nodes 0 flags)
      described num_nodes flags (inl (ref, low, high, partner, before, is)) = inl (
        ref,
        low,
        high,
        partner,
        before,
        λ n below. rw is (listed-node_good ref num_nodes 0 n (omega arith) (omega arith)),
      )
      described num_nodes flags (inr (none_ok, is)) =
          inr
            (none_ok, λ n below. rw is (listed-replicate num_nodes 0 n (omega arith) (omega arith)))
