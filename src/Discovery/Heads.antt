-- ===== src/Discovery/Heads.antt =====
-- PYTHON/IrisUtils/FindArrays.py: which devices are the heads of chains.
use houdini_lab.Common.{
  ℕ, zero, suc, ◌+◌, ◌≤◌, ◌<◌, ◌≡◌, ◌≢◌, ◌↔◌, ◌⊎◌, inl, inr, refl, ap, sym, ◌∙◌, Bool, true, false,
  ◌&&◌, ◌||◌, not, List, [], ◌∷◌, arith, ◌==◌, if◌then◌else◌, get_or, set, replicate,
}
use houdini_lab.Discovery.Chains.{
  changed, test_triggers, trig_list, mark_others, mark_all, head_of_chain,
}

unfoldable pub contains : ℕ → List ℕ → Bool
contains k [] = false
contains k (x ∷ xs) = (x == k) || contains k xs

get_or-set-false :
    (xs : List Bool) (j k : ℕ)
    → get_or (set xs j false) k false ≡ (get_or xs k false && not (j == k))
get_or-set-false [] j k = refl
get_or-set-false (x ∷ xs) zero zero = ground arith
get_or-set-false (x ∷ xs) zero (suc k) = ground arith
get_or-set-false (x ∷ xs) (suc j) zero = ground arith
get_or-set-false (x ∷ xs) (suc j) (suc k) = ground (arith, get_or-set-false xs j k)

kept :
    (i j k : ℕ) (heads : List Bool)
    → get_or (if j == i then heads else set heads j false) k false
      ≡ (get_or heads k false && ((i == k) || not (j == k)))
kept i j k heads = let e = get_or-set-false heads j k in ground arith

and_or : (a p q r : Bool) → ((a && (p || not q)) && (p || not r)) ≡ (a && (p || not (q || r)))
and_or a p q r = ground arith

and_assoc : (a b c : Bool) → ((a && b) && c) ≡ (a && (b && c))
and_assoc a b c = ground arith

mark_others-get_or :
    (i : ℕ) (js : List ℕ) (heads : List Bool) (k : ℕ)
    → get_or (mark_others i js heads) k false
      ≡ (get_or heads k false && ((i == k) || not (contains k js)))
unfolding mark_others contains
mark_others-get_or i [] heads k = ground arith
mark_others-get_or i (j ∷ js) heads k =
    mark_others-get_or i js (if j == i then heads else set heads j false) k
    ∙ ap (λ b. b && ((i == k) || not (contains k js))) (kept i j k heads)
    ∙ and_or (get_or heads k false) (i == k) (j == k) (contains k js)

changed-below :
    (count i k : ℕ) (before after : ℕ → ℕ)
    → k < i
    → contains k (changed count i before after) ≡ false
unfolding changed contains
changed-below zero i k before after h = refl
changed-below (suc count) i k before after h =
    let e = changed-below count (suc i) k before after (omega arith) in ground arith

le_cases : (i k : ℕ) → i ≤ k → (i ≡ k) ⊎ (suc i ≤ k)
le_cases i k h = ground arith

pub changed-contains :
    (count i k : ℕ) (before after : ℕ → ℕ)
    → i ≤ k
    → k < i + count
    → contains k (changed count i before after) ≡ not (before k == after k)
unfolding changed contains
changed-contains zero i k before after h l = absurd (omega arith)
changed-contains (suc count) i k before after h l = elim (le_cases i k h) [
  | inl e ↦
      let f = changed-below count (suc i) k before after (omega arith) in
      let p = ap before e in let q = ap after e in ground arith
  | inr g ↦ let f = changed-contains count (suc i) k before after g (omega arith) in ground arith
]

-- Device i leaves the other device k as it was, for every i from `i` on.
unfoldable leaves_alone : ℕ → ℕ → ℕ → (ℕ → ℕ → ℕ) → (ℕ → ℕ → ℕ) → Bool
leaves_alone zero i k before after = true
leaves_alone (suc count) i k before after =
    ((i == k) || (before i k == after i k)) && leaves_alone count (suc i) k before after

not-not : (b : Bool) → not (not b) ≡ b
not-not true = refl
not-not false = refl

mark_all-get_or :
    (count i n k : ℕ) (before after : ℕ → ℕ → ℕ) (heads : List Bool)
    → k < n
    → get_or (mark_all i (trig_list count i n before after) heads) k false
      ≡ (get_or heads k false && leaves_alone count i k before after)
unfolding mark_all trig_list leaves_alone test_triggers
mark_all-get_or zero i n k before after heads h = ground arith
mark_all-get_or (suc count) i n k before after heads h =
    let js = test_triggers n before after i in
    let moved = changed-contains n 0 k (before i) (after i) (omega arith) (omega arith) in
    mark_all-get_or count (suc i) n k before after (mark_others i js heads) h
    ∙ ap (λ b. b && leaves_alone count (suc i) k before after)
        (mark_others-get_or i js heads k
          ∙ ap (λ b. get_or heads k false && ((i == k) || not b)) moved
          ∙ ap (λ b. get_or heads k false && ((i == k) || b)) (not-not (before i k == after i k)))
    ∙ and_assoc (get_or heads k false) ((i == k) || (before i k == after i k))
        (leaves_alone count (suc i) k before after)

alone-split :
    (i k x y : ℕ) (b : Bool) → (((i == k) || (x == y)) && b) ≡ true → (i ≢ k → x ≡ y) × (b ≡ true)
alone-split i k x y b h = (λ n. ground arith, ground arith)

alone-join :
    (i k x y : ℕ) (b : Bool) → (i ≢ k → x ≡ y) → b ≡ true → (((i == k) || (x == y)) && b) ≡ true
alone-join i k x y b f h = ground arith

leaves_alone_iff :
    (count i k : ℕ) (before after : ℕ → ℕ → ℕ)
    → (leaves_alone count i k before after ≡ true)
      ↔ ((w : ℕ) → i ≤ w → w < i + count → w ≢ k → before w k ≡ after w k)
unfolding leaves_alone
leaves_alone_iff zero i k before after = (λ e w g h n. absurd (omega arith), λ f. refl)
leaves_alone_iff (suc count) i k before after =
    let rec = leaves_alone_iff count (suc i) k before after in
    let b = leaves_alone count (suc i) k before after in
    (
      λ e w g l n.
          let (first, rest) = alone-split i k (before i k) (after i k) b e in
          elim (le_cases i w g) [
            | inl q ↦
                let same = first (λ r. n (sym q ∙ r)) in
                sym (ap (λ v. before v k) q) ∙ same ∙ ap (λ v. after v k) q
            | inr later ↦ rec.0 rest w later (omega arith) n
          ],
      λ f.
          alone-join i k (before i k) (after i k) b (λ n. f i (omega arith) (omega arith) n)
            (rec.1 (λ w g l n. f w (omega arith) (omega arith) n)),
    )

get_or-replicate : (n k : ℕ) → k < n → get_or (replicate n true) k false ≡ true
get_or-replicate zero k h = absurd (omega arith)
get_or-replicate (suc n) zero h = refl
get_or-replicate (suc n) (suc k) h = get_or-replicate n k (omega arith)

-- A device of the network is marked as the head of a chain exactly if no trigger that another
-- device generates changes the time of its last trigger.
pub head_of_chain_iff :
    (n k : ℕ) (before after : ℕ → ℕ → ℕ)
    → k < n
    → (get_or (head_of_chain n (trig_list n 0 n before after)) k false ≡ true)
      ↔ ((w : ℕ) → w < n → w ≢ k → before w k ≡ after w k)
unfolding head_of_chain
head_of_chain_iff n k before after h =
    let alone = leaves_alone_iff n 0 k before after in
    let e =
      mark_all-get_or n 0 n k before after (replicate n true) h
      ∙ ap (λ b. b && leaves_alone n 0 k before after) (get_or-replicate n k h) in
    (
      λ t w l m. alone.0 (sym e ∙ t) w (omega arith) (omega arith) m,
      λ f. e ∙ alone.1 (λ w g l m. f w (omega arith) m),
    )
