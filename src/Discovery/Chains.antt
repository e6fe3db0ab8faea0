-- ===== src/Discovery/Chains.antt =====
-- PYTHON/IrisUtils/FindArrays.py. Device i is read by `before w i` and `after w i`: the hardware time
-- of its last trigger, around the trigger that device w generates. The devices are 0 to n - 1, and
-- n is the hub that is tried with them.
use houdini_lab.Common.{
  ℕ, zero, suc, Bool, true, false, ◌||◌, ◌&&◌, Option, none, some, List, [], ◌∷◌, map, ltb, leb,
  ◌==◌, if◌then◌else◌, length, get_elem?, get_or, set, replicate,
}

-- The test of every device from i on, `count` of them: `for i, (x0, x1) in enumerate(zip(...))`.
unfoldable pub changed : ℕ → ℕ → (ℕ → ℕ) → (ℕ → ℕ) → List ℕ
changed zero i before after = []
changed (suc count) i before after =
    let rest = changed count (suc i) before after in if before i == after i then rest else i ∷ rest

unfoldable pub test_triggers : ℕ → (ℕ → ℕ → ℕ) → (ℕ → ℕ → ℕ) → ℕ → List ℕ
test_triggers n before after which = changed n 0 (before which) (after which)

-- `[testTriggers(irises, i) for i in range(len(irises))]`, from i on.
unfoldable pub trig_list : ℕ → ℕ → ℕ → (ℕ → ℕ → ℕ) → (ℕ → ℕ → ℕ) → List (List ℕ)
trig_list zero i n before after = []
trig_list (suc count) i n before after =
    test_triggers n before after i ∷ trig_list count (suc i) n before after

-- `for j in trig_list[i]: if j != i: head_of_chain[j] = False`
unfoldable pub mark_others : ℕ → List ℕ → List Bool → List Bool
mark_others i [] heads = heads
mark_others i (j ∷ js) heads = mark_others i js (if j == i then heads else set heads j false)

unfoldable pub mark_all : ℕ → List (List ℕ) → List Bool → List Bool
mark_all i [] heads = heads
mark_all i (js ∷ rest) heads = mark_all (suc i) rest (mark_others i js heads)

unfoldable pub head_of_chain : ℕ → List (List ℕ) → List Bool
head_of_chain n triggers = mark_all 0 triggers (replicate n true)

-- The pairs of `ordered`: how many devices a device triggered, and its index.
pub record Link : Type 0 where
  num_triggered : ℕ
  index : ℕ

-- The order of pairs, descending.
abbrev pub goes_first : Link → Link → Bool
goes_first p q =
    ltb (q.num_triggered) (p.num_triggered)
    || ((p.num_triggered == q.num_triggered) && leb (q.index) (p.index))

unfoldable pub insert : Link → List Link → List Link
insert p [] = p ∷ []
insert p (q ∷ qs) = let rest = insert p qs in if goes_first p q then p ∷ q ∷ qs else q ∷ rest

unfoldable pub sorted : List Link → List Link
sorted [] = []
sorted (p ∷ ps) = insert p (sorted ps)

unfoldable pub link : List (List ℕ) → ℕ → Link
link triggers j = record { num_triggered = length (get_or triggers j []); index = j }

unfoldable pub ordered : List (List ℕ) → ℕ → List Link
ordered triggers i = sorted (map (link triggers) (get_or triggers i []))

-- The chain that is printed for device i; the serial of a device is its index here.
unfoldable pub serials_of_chain : List (List ℕ) → List Bool → ℕ → List ℕ
serials_of_chain triggers heads i =
    if get_or heads i false then map (λ s. s.index) (ordered triggers i) else []

-- `for i in hub_trig_list: if head_of_chain[i]: print(...)`: an index out of range raises.
abbrev pub print_if : Option Bool → List ℕ → Option (List (List ℕ)) → Option (List (List ℕ))
print_if none chain rest = none
print_if (some b) chain none = none
print_if (some true) chain (some chains) = some (chain ∷ chains)
print_if (some false) chain (some chains) = some chains

unfoldable pub hub_chains : List (List ℕ) → List Bool → List ℕ → Option (List (List ℕ))
hub_chains triggers heads [] = some []
hub_chains triggers heads (i ∷ is) =
    print_if (get_elem? heads i) (serials_of_chain triggers heads i) (hub_chains triggers heads is)

-- The chains under the hub, which is device n of n + 1.
unfoldable pub hub_report : ℕ → List (List ℕ) → (ℕ → ℕ → ℕ) → (ℕ → ℕ → ℕ) → Option (List (List ℕ))
hub_report n triggers before after =
    hub_chains triggers (head_of_chain n triggers) (test_triggers (suc n) before after n)
