-- ===== src/Discovery/Tests.antt =====
-- PYTHON/IrisUtils/FindArrays.py: runs on five Irises in two chains, 0, 1, 2 and 3, 4, and a hub.
use houdini_lab.Common.{
  ℕ, ◌≡◌, ◌≢◌, ◌<◌, refl, ◌↔◌, Bool, true, false, ◌&&◌, ◌||◌, some, List, [], ◌∷◌, arith, ltb, leb,
  ◌==◌, if◌then◌else◌, get_or,
}
use houdini_lab.Discovery.Chains.{
  changed, test_triggers, trig_list, mark_others, mark_all, head_of_chain, insert, sorted, link,
  ordered, serials_of_chain, hub_chains, hub_report,
}
use houdini_lab.Discovery.Heads.{head_of_chain_iff}

-- Each trigger passes on to the devices behind in the chain, and the hub's to all Irises.
abbrev reaches : ℕ → ℕ → Bool
reaches w i =
    (leb w i && ltb i 3) || (leb 3 w && leb w i && ltb i 5 && ltb w 5) || (w == 5 && ltb i 5)

abbrev before : ℕ → ℕ → ℕ
before w i = 7

abbrev after : ℕ → ℕ → ℕ
after w i = if reaches w i then 9 else 7

abbrev triggers : List (List ℕ)
triggers = trig_list 5 0 5 before after

triggers_lem : triggers ≡ (0 ∷ 1 ∷ 2 ∷ []) ∷ (1 ∷ 2 ∷ []) ∷ (2 ∷ []) ∷ (3 ∷ 4 ∷ []) ∷ (4 ∷ []) ∷ []
unfolding trig_list test_triggers changed
triggers_lem = refl

heads_lem : head_of_chain 5 triggers ≡ true ∷ false ∷ false ∷ true ∷ false ∷ []
unfolding trig_list test_triggers changed head_of_chain mark_all mark_others
heads_lem = refl

hub_report_lem : hub_report 5 triggers before after ≡ some ((0 ∷ 1 ∷ 2 ∷ []) ∷ (3 ∷ 4 ∷ []) ∷ [])
unfolding trig_list test_triggers changed head_of_chain mark_all mark_others hub_report hub_chains
    serials_of_chain ordered sorted insert link
hub_report_lem = refl

head_of_chain_iff_example :
    (get_or (head_of_chain 5 triggers) 3 false ≡ true)
    ↔ ((w : ℕ) → w < 5 → w ≢ 3 → before w 3 ≡ after w 3)
head_of_chain_iff_example = head_of_chain_iff 5 3 before after (omega arith)
