-- ===== src/Discovery/Hubs.antt =====
-- PYTHON/IrisUtils/FindArrays.py: the report of a hub indexes the list of heads, which has no place
-- for the hub itself.
use houdini_lab.Common.{
  ℕ, zero, suc, ◌+◌, ◌≤◌, ◌<◌, ◌≡◌, ◌≢◌, ◌↔◌, ◌⊎◌, inl, inr, refl, ap, sym, ◌∙◌, Bool, true, false,
  ◌||◌, not, Option, none, some, List, [], ◌∷◌, arith, ◌==◌, if◌then◌else◌, length, get_elem?,
  get_elem?-some, set, length-set, replicate, length-replicate,
}
use houdini_lab.Discovery.Chains.{
  changed, test_triggers, mark_others, mark_all, head_of_chain, serials_of_chain, print_if,
  hub_chains, hub_report,
}
use houdini_lab.Discovery.Heads.{contains, changed-contains}

length-mark_others :
    (i : ℕ) (js : List ℕ) (heads : List Bool) → length (mark_others i js heads) ≡ length heads
unfolding mark_others
length-mark_others i [] heads = refl
length-mark_others i (j ∷ js) heads =
    let e = length-mark_others i js (if j == i then heads else set heads j false) in
    let f = length-set heads j false in ground arith

length-mark_all :
    (i : ℕ) (ts : List (List ℕ)) (heads : List Bool) → length (mark_all i ts heads) ≡ length heads
unfolding mark_all
length-mark_all i [] heads = refl
length-mark_all i (js ∷ ts) heads =
    length-mark_all (suc i) ts (mark_others i js heads) ∙ length-mark_others i js heads

length-head_of_chain : (n : ℕ) (ts : List (List ℕ)) → length (head_of_chain n ts) ≡ n
unfolding head_of_chain
length-head_of_chain n ts = length-mark_all 0 ts (replicate n true) ∙ length-replicate n true

get_elem?-outside : (xs : List Bool) (i : ℕ) → length xs ≤ i → get_elem? xs i ≡ none
get_elem?-outside [] i h = refl
get_elem?-outside (x ∷ xs) zero h = absurd (omega arith)
get_elem?-outside (x ∷ xs) (suc i) h = get_elem?-outside xs i (omega arith)

changed-inside :
    (count i k : ℕ) (before after : ℕ → ℕ)
    → contains k (changed count i before after) ≡ true
    → k < i + count
unfolding changed contains
changed-inside zero i k before after h = ground arith
changed-inside (suc count) i k before after h =
    let rec = changed-inside count (suc i) k before after in ground arith

print_if-none_right : (b : Option Bool) (chain : List ℕ) → print_if b chain none ≡ none
print_if-none_right none chain = refl
print_if-none_right (some b) chain = refl

print_if-some :
    (b : Bool) (chain : List ℕ) (chains : List (List ℕ))
    → (all : List (List ℕ)) × (print_if (some b) chain (some chains) ≡ some all)
print_if-some true chain chains = (chain ∷ chains, refl)
print_if-some false chain chains = (chains, refl)

none≢some {ℓ} : {A : Type ℓ} (a : A) → none ≢ some a
none≢some a h = ground arith

test-split : (i k : ℕ) (b : Bool) → ((i == k) || b) ≡ true → (i ≡ k) ⊎ (b ≡ true)
test-split i k b h = ground arith

test-right : (i k : ℕ) (b : Bool) → b ≡ true → ((i == k) || b) ≡ true
test-right i k b h = ground arith

test-left : (i : ℕ) (b : Bool) → ((i == i) || b) ≡ true
test-left i b = ground arith

hub_chains-outside :
    (ts : List (List ℕ)) (heads : List Bool) (is : List ℕ) (k : ℕ)
    → length heads ≤ k
    → contains k is ≡ true
    → hub_chains ts heads is ≡ none
unfolding hub_chains contains
hub_chains-outside ts heads [] k l h = ground arith
hub_chains-outside ts heads (i ∷ is) k l h = elim (test-split i k (contains k is) h) [
  | inl e ↦
      ap (λ b. print_if b (serials_of_chain ts heads i) (hub_chains ts heads is))
        (get_elem?-outside heads i (omega arith))
  | inr t ↦
      ap (print_if (get_elem? heads i) (serials_of_chain ts heads i))
        (hub_chains-outside ts heads is k l t)
      ∙ print_if-none_right (get_elem? heads i) (serials_of_chain ts heads i)
]

hub_chains-inside :
    (ts : List (List ℕ)) (heads : List Bool) (is : List ℕ)
    → ((k : ℕ) → contains k is ≡ true → k < length heads)
    → (chains : List (List ℕ)) × (hub_chains ts heads is ≡ some chains)
unfolding hub_chains contains
hub_chains-inside ts heads [] h = ([], refl)
hub_chains-inside ts heads (i ∷ is) h =
    let (b, e) = get_elem?-some heads i (h i (test-left i (contains i is))) in
    let (rest, f) = hub_chains-inside ts heads is (λ k t. h k (test-right i k (contains k is) t)) in
    let chain = serials_of_chain ts heads i in
    let (all, g) = print_if-some b chain rest in
    (
      all,
      ap (λ o. print_if o chain (hub_chains ts heads is)) e ∙ ap (print_if (some b) chain) f ∙ g,
    )

moved_not :
    (n k : ℕ) (is : List ℕ) (x y : ℕ)
    → k ≡ n
    → contains k is ≡ true
    → contains n is ≡ not (x == y)
    → x ≢ y
moved_not n k is x y q t e same = let d = sym (ap (λ v. contains v is) q) ∙ t in ground arith

moved_true : (x y : ℕ) → x ≢ y → not (x == y) ≡ true
moved_true x y h = ground arith

-- The report of a hub raises exactly if the trigger that the hub generates changes the time of the
-- hub's own last trigger: the hub's index then lies outside the list of heads.
pub hub_report-none :
    (n : ℕ) (ts : List (List ℕ)) (before after : ℕ → ℕ → ℕ)
    → (hub_report n ts before after ≡ none) ↔ (before n n ≢ after n n)
unfolding hub_report test_triggers
hub_report-none n ts before after =
    let heads = head_of_chain n ts in
    let is = test_triggers (suc n) before after n in
    let size = length-head_of_chain n ts in
    let moved = changed-contains (suc n) 0 n (before n) (after n) (omega arith) (omega arith) in
    (
      λ e same.
          let (chains, f) = hub_chains-inside ts heads is (λ k t.
            let below = changed-inside (suc n) 0 k (before n) (after n) t in
            let ne = λ (q : k ≡ n). moved_not n k is (before n n) (after n n) q t moved same in
            omega (arith, ne)) in
          none≢some chains (sym e ∙ f),
      λ m.
          hub_chains-outside ts heads is n (omega arith)
            (moved ∙ moved_true (before n n) (after n n) m),
    )
