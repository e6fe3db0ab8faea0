-- ===== src/Collector/Slots.antt =====
-- PYTHON/IrisUtils/csi_lib.py, class CSI: who sends and who receives in a slot.
use houdini_lab.Common.{
  ℕ, if◌then◌else◌, get_or, ◌==◌, ◌∷◌, leb, replicate, ◌+◌, ◌++◌, ◌&&◌, [], ltb, ◌≡◌, suc, arith,
  zero, refl, List, ◌-◌, ◌*◌, ◌<◌, ◌↔◌, ◌≤◌, ◌≢◌, sym, ◌∙◌, ap,
}
use houdini_lab.Collector.Schedule.{Csi, num_ants, bs_sched_main, cl_sched_main}
use houdini_lab.Mimo.Calls.{Slot, g, p, r, t}

get_or-run :
    (n : ℕ) (x : Slot) (ys : List Slot) (i : ℕ)
    → get_or (replicate n x ++ ys) i g ≡ (if ltb i n then x else get_or ys (i - n) g)
get_or-run zero x ys i = let e : i - 0 ≡ i = omega arith in rw e (ground arith)
get_or-run (suc n) x ys zero = ground arith
get_or-run (suc n) x ys (suc i) =
    let e : suc i - suc n ≡ i - n = omega arith in rw e (ground (arith, get_or-run n x ys i))

get_or-one :
    (x : Slot) (ys : List Slot) (i : ℕ)
    → get_or (x ∷ ys) i g ≡ (if i == 0 then x else get_or ys (i - 1) g)
get_or-one x ys zero = refl
get_or-one x ys (suc i) = let e : suc i - 1 ≡ i = omega arith in rw e (ground arith)

get_or-listen :
    (w m i : ℕ)
    → get_or (replicate w g ++ (g ∷ replicate m r ++ (g ∷ []))) i g
      ≡ (if leb (w + 1) i && ltb i (w + 1 + m) then r else g)
get_or-listen w m i =
    let listen = replicate m r ++ (g ∷ []) in
    ground (
      arith,
      get_or-run w g (g ∷ listen) i,
      get_or-one g listen (i - w),
      get_or-run m r (g ∷ []) (i - w - 1),
      get_or-one g [] (i - w - 1 - m),
    )

-- A schedule of the base station: a pilot, then `n` slots to send after `a` more, and `m` slots to
-- receive after `w` more.
unfoldable pub bs_slot : ℕ → ℕ → ℕ → ℕ → ℕ → Slot
bs_slot a n w m i =
    if i == 0
    then p
    else if leb (2 + a) i && ltb i (2 + a + n)
    then t
    else if leb (3 + a + n + w) i && ltb i (3 + a + n + w + m)
    then r
    else g

get_or-bs :
    (a n w m i : ℕ)
    → get_or
        (p ∷ g ∷ replicate a g
          ++ (replicate n t ++ (replicate w g ++ (g ∷ replicate m r ++ (g ∷ [])))))
        i
        g
      ≡ bs_slot a n w m i
unfolding bs_slot
get_or-bs a n w m zero = refl
get_or-bs a n w m (suc zero) = ground arith
get_or-bs a n w m (suc (suc i)) =
    let wait = replicate w g ++ (g ∷ replicate m r ++ (g ∷ [])) in
    let send = replicate n t ++ wait in
    ground
      (arith, get_or-run a g send i, get_or-run n t wait (i - a), get_or-listen w m (i - a - n))

-- A schedule of a client: `n` slots to receive, and a pilot after `a` more.
cl_slot : ℕ → ℕ → ℕ → Slot
cl_slot n a i = if leb 2 i && ltb i (2 + n) then r else if i == 3 + n + a then p else g

get_or-cl :
    (n a w i : ℕ)
    → get_or (g ∷ g ∷ replicate n r ++ (g ∷ replicate a g ++ (p ∷ replicate w g ++ (g ∷ [])))) i g
      ≡ cl_slot n a i
unfolding cl_slot
get_or-cl n a w zero = ground arith
get_or-cl n a w (suc zero) = ground arith
get_or-cl n a w (suc (suc i)) =
    let after = replicate w g ++ (g ∷ []) in
    let wait = replicate a g ++ (p ∷ after) in
    ground (
      arith,
      get_or-run n r (g ∷ wait) i,
      get_or-one g wait (i - n),
      get_or-run a g (p ∷ after) (i - n - 1),
      get_or-one p after (i - n - 1 - a),
      get_or-run w g (g ∷ []) (i - n - 1 - a - 1),
      get_or-one g [] (i - n - 1 - a - 1 - w),
    )

module _ (c : Csi) where
  -- What board j and client i do in a slot, in numbers of boards, clients and antennas.
  pub get_or-bs_sched_main :
      (j s : ℕ)
      → get_or (bs_sched_main c j) s g
        ≡ bs_slot (j * c.sdr_ant) c.sdr_ant (num_ants c - (j + 1) * c.sdr_ant) c.num_csdrs s
  unfolding bs_sched_main
  get_or-bs_sched_main j s =
      get_or-bs (j * c.sdr_ant) c.sdr_ant (num_ants c - (j + 1) * c.sdr_ant) c.num_csdrs s

  get_or-cl_sched_main : (i s : ℕ) → get_or (cl_sched_main c i) s g ≡ cl_slot c.num_bsdrs i s
  unfolding cl_sched_main
  get_or-cl_sched_main i s = get_or-cl c.num_bsdrs i (c.num_csdrs - (i + 1)) s

  -- A board's slots are all before its slots to receive.
  before_rest :
      (j : ℕ)
      → j < c.num_bsdrs
      → j * c.sdr_ant + c.sdr_ant + (num_ants c - (j + 1) * c.sdr_ant) ≡ num_ants c
  before_rest j h =
      let e : (j + 1) * c.sdr_ant ≡ j * c.sdr_ant + c.sdr_ant = grind arith in
      let below : (j + 1) * c.sdr_ant ≤ c.sdr_ant * c.num_bsdrs = grind arith in
      omega (arith, e, below)

module _ (c : Csi) (one : c.sdr_ant ≡ 1) where
  alone : (j : ℕ) → j * c.sdr_ant ≡ j
  alone j = ap (λ (a : ℕ). j * a) one ∙ omega arith

  bs-sends : (j s : ℕ) → (get_or (bs_sched_main c j) s g ≡ t) ↔ (s ≡ 2 + j)
  unfolding bs_slot
  bs-sends j s =
      let e = alone j in rw (get_or-bs_sched_main c j s) (λ h. ground arith, λ h. ground arith)

  bs-listens :
      (j s : ℕ)
      → j < c.num_bsdrs
      → (get_or (bs_sched_main c j) s g ≡ r)
        ↔ ((3 + c.num_bsdrs ≤ s) × (s < 3 + c.num_bsdrs + c.num_csdrs))
  unfolding bs_slot
  bs-listens j s h =
      let e = alone j in
      let all : num_ants c ≡ c.num_bsdrs = ap (λ (a : ℕ). a * c.num_bsdrs) one ∙ omega arith in
      let rest = before_rest c j h in
      rw (get_or-bs_sched_main c j s) (λ k. ground arith, λ k. ground arith)

  cl-listens : (i s : ℕ) → (get_or (cl_sched_main c i) s g ≡ r) ↔ ((2 ≤ s) × (s < 2 + c.num_bsdrs))
  unfolding cl_slot
  cl-listens i s = rw (get_or-cl_sched_main c i s) (λ k. ground arith, λ k. ground arith)

  cl-sends : (i s : ℕ) → (get_or (cl_sched_main c i) s g ≡ p) ↔ (s ≡ 3 + c.num_bsdrs + i)
  unfolding cl_slot
  cl-sends i s = rw (get_or-cl_sched_main c i s) (λ k. ground arith, λ k. ground arith)

-- With one antenna at each board: a client receives in a slot after the second exactly if some board
-- sends in it, and each board receives in a slot exactly if some client sends its pilot in it; no two
-- boards and no two clients send at once.
pub schedules-aligned_one :
    (c : Csi) (s : ℕ)
    → c.sdr_ant ≡ 1
    → ((i : ℕ)
        → (get_or (cl_sched_main c i) s g ≡ r)
          ↔ ((j : ℕ) × (j < c.num_bsdrs) × (get_or (bs_sched_main c j) s g ≡ t)))
      × ((j : ℕ)
          → j < c.num_bsdrs
          → (get_or (bs_sched_main c j) s g ≡ r)
            ↔ ((i : ℕ) × (i < c.num_csdrs) × (get_or (cl_sched_main c i) s g ≡ p)))
      × ((j k : ℕ)
          → get_or (bs_sched_main c j) s g ≡ t
          → get_or (bs_sched_main c k) s g ≡ t
          → j ≡ k)
      × ((i k : ℕ)
          → get_or (cl_sched_main c i) s g ≡ p
          → get_or (cl_sched_main c k) s g ≡ p
          → i ≡ k)
schedules-aligned_one c s one = (
  λ i. (
    λ h.
        let (lo, hi) = (cl-listens c one i s).0 h in
        (s - 2, omega arith, (bs-sends c one (s - 2) s).1 (omega arith)),
    λ (j, below, h).
        (cl-listens c one i s).1 (let e = (bs-sends c one j s).0 h in (omega arith, omega arith)),
  ),
  λ j below. (
    λ h.
        let (lo, hi) = (bs-listens c one j s below).0 h in
        (
          s - 3 - c.num_bsdrs,
          omega arith,
          (cl-sends c one (s - 3 - c.num_bsdrs) s).1 (omega arith),
        ),
    λ (i, small, h).
        (bs-listens c one j s below).1
          (let e = (cl-sends c one i s).0 h in (omega arith, omega arith)),
  ),
  λ j k h h'. omega (arith, (bs-sends c one j s).0 h, (bs-sends c one k s).0 h'),
  λ i k h h'. omega (arith, (cl-sends c one i s).0 h, (cl-sends c one k s).0 h'),
)

-- With two antennas at each board, a client whose index is less than the number of boards sends its
-- pilot in a slot in which no board receives.
pub pilot-unheard :
    (c : Csi) (i j s : ℕ)
    → c.sdr_ant ≡ 2
    → i < c.num_bsdrs
    → j < c.num_bsdrs
    → get_or (cl_sched_main c i) s g ≡ p
    → get_or (bs_sched_main c j) s g ≢ r
unfolding bs_slot cl_slot
pilot-unheard c i j s two hi hj sends listens =
    let e = before_rest c j hj in
    let own = sym (get_or-cl_sched_main c i s) ∙ sends in
    let other = sym (get_or-bs_sched_main c j s) ∙ listens in
    let ants : num_ants c ≡ 2 * c.num_bsdrs = ap (λ (a : ℕ). a * c.num_bsdrs) two in
    ground (arith, e, own, other, ants)
