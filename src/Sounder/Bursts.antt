-- ===== src/Sounder/Bursts.antt =====
-- PYTHON/DEMOS/SOUNDER_TXRX.py, tx_thread: each burst is sent in a data slot of the client's schedule.
use houdini_lab.Mimo.Calls.{Slot, t, g, p}
use houdini_lab.Common.{
  List, ℕ, Bool, ◌<◌, ◌+◌, get_elem?, ◌≡◌, if◌then◌else◌, ◌*◌, some, length, replicate, ◌≤◌, ◌^◌,
  arith, ◌++◌, ◌-◌, ◌/◌, suc, ◌∷◌, ◌%◌, ap, [], zero, ◌∙◌, refl, length-replicate, true, false,
}
use houdini_lab.Sounder.Threads.{burst_times, first_time}
use houdini_lab.Sounder.Plan.{msched}

get_elem?-burst_times :
    (n k time : ℕ) → k < n → get_elem? (burst_times n time) k ≡ some (time + k * 65536)
unfolding burst_times
get_elem?-burst_times zero k time h = absurd (omega arith)
get_elem?-burst_times (suc n) zero time h = ap some (omega arith)
get_elem?-burst_times (suc n) (suc k) time h =
    get_elem?-burst_times n k (time + 65536) (omega arith) ∙ ap some (omega arith)

get_elem?-after :
    (xs ys : List Slot) (i j : ℕ) → i ≡ length xs + j → get_elem? (xs ++ ys) i ≡ get_elem? ys j
get_elem?-after [] ys i j h = let e : i ≡ j = omega arith in rw e refl
get_elem?-after (x ∷ xs) ys zero j h = absurd (omega arith)
get_elem?-after (x ∷ xs) ys (suc i) j h = get_elem?-after xs ys i j (omega arith)

get_elem?-inside :
    (n i : ℕ) (x : Slot) (ys : List Slot) → i < n → get_elem? (replicate n x ++ ys) i ≡ some x
get_elem?-inside zero i x ys h = absurd (omega arith)
get_elem?-inside (suc n) zero x ys h = refl
get_elem?-inside (suc n) (suc i) x ys h = get_elem?-inside n i x ys (omega arith)

-- The data slots stand before the last guard.
data_slot :
    (both : Bool) (n m k : ℕ)
    → m + (if both then 5 else 4) ≤ n
    → k < m
    → get_elem? (msched both n m) (n - m - 1 + k) ≡ some t
unfolding msched
data_slot true n m k h below =
    get_elem?-after (g ∷ g ∷ p ∷ p ∷ []) (replicate (n - m - 5) g ++ (replicate m t ++ (g ∷ []))) _
      (n - m - 5 + k) (omega arith)
    ∙ get_elem?-after (replicate (n - m - 5) g) (replicate m t ++ (g ∷ [])) _ k
        (omega (arith, length-replicate (n - m - 5) g))
    ∙ get_elem?-inside m k t (g ∷ []) below
data_slot false n m k h below =
    get_elem?-after (g ∷ g ∷ p ∷ []) (replicate (n - m - 4) g ++ (replicate m t ++ (g ∷ []))) _
      (n - m - 4 + k) (omega arith)
    ∙ get_elem?-after (replicate (n - m - 4) g) (replicate m t ++ (g ∷ [])) _ k
        (omega (arith, length-replicate (n - m - 4) g))
    ∙ get_elem?-inside m k t (g ∷ []) below

fields :
    (frame s : ℕ)
    → s < 65536
    → ((frame * 2 ^ 32 + s * 65536) / 2 ^ 32 ≡ frame)
      × ((frame * 2 ^ 32 + s * 65536) / 65536 % 65536 ≡ s)
fields frame s h = (omega arith, omega arith)

-- Burst k after a receipt is written at a time of the frame of that receipt, at the k-th data slot of
-- the client's schedule, where the schedule has room for the symbols and at most 65536 of them.
pub burst_times-slot :
    (both : Bool) (num_syms tx_sym_num time k : ℕ)
    → tx_sym_num + (if both then 5 else 4) ≤ num_syms
    → num_syms ≤ 65536
    → k < tx_sym_num
    → (w : ℕ) × (get_elem? (burst_times tx_sym_num (first_time time (num_syms - tx_sym_num - 1))) k
        ≡ some w)
      × (w / 2 ^ 32 ≡ time / 2 ^ 32)
      × (w / 65536 % 65536 ≡ num_syms - tx_sym_num - 1 + k)
      × (get_elem? (msched both num_syms tx_sym_num) (w / 65536 % 65536) ≡ some t)
unfolding first_time
burst_times-slot both n m time k room small below =
    let s = n - m - 1 + k in
    let frame = time / 2 ^ 32 in
    let w = frame * 2 ^ 32 + s * 65536 in
    let halves : (w / 2 ^ 32 ≡ frame) × (w / 65536 % 65536 ≡ s) = fields frame s (omega arith) in
    (
      w,
      get_elem?-burst_times m k _ below ∙ ap some (omega arith),
      halves.0,
      halves.1,
      ap (get_elem? (msched both n m)) halves.1 ∙ data_slot both n m k room below,
    )
