-- ===== src/Mimo/Schedule/Sounded.antt =====
-- MATLAB/mimo_driver.py, txrx_dl_sound: the boards send their pilots one after the other.
use houdini_lab.Mimo.Schedule.{
  pair_of, sound_bs_sched, sound_tmp_ue, sound_ue_sched, Pair, put_pair,
}
use houdini_lab.Mimo.Calls.{Slot, r, p, g}
use houdini_lab.Common.{
  ℕ, Bool, ◌<◌, get_or, ◌≡◌, ◌==◌, leb, some, ◌≤◌, true, ◌+◌, ◌&&◌, length, ◌-◌, arith, ◌*◌, ltb,
  ◌/◌, ◌↔◌, ◌||◌, length-replicate, sym, ◌%◌, suc, ◌∙◌, if◌then◌else◌, zero, replicate,
}
use houdini_lab.Mimo.Schedule.Aligned.{
  get_or-splice, length-splice, get_or-replicate, slot_is, r≢g, p≢g,
}

sends : ℕ → ℕ → ℕ → Bool
sends c j i = (i == 2 + 2 * j) || ((c == 2) && (i == 3 + 2 * j))

listens : ℕ → ℕ → ℕ → Bool
listens c n i = leb 2 i && ltb i (2 + 2 * n) && ((c == 2) || (i % 2 == 0))

pair : Slot → ℕ → Pair
pair x c = record { first = x; second = if c == 2 then x else g }

pair_of-pair : (x : Slot) (c : ℕ) {q : Pair} → pair_of x c ≡ some q → q ≡ pair x c
unfolding pair_of pair
pair_of-pair x c h = ground arith

get_or-sound_bs_sched :
    (n c j i : ℕ)
    → j < n
    → 2 ≤ i
    → get_or (sound_bs_sched n (pair p c) j) i g ≡ (if sends c j i then p else g)
unfolding sound_bs_sched sends pair
get_or-sound_bs_sched n c j zero h l = absurd (omega arith)
get_or-sound_bs_sched n c j (suc zero) h l = absurd (omega arith)
get_or-sound_bs_sched n c j (suc (suc i)) h l =
    let guards = replicate (2 * n) g in
    let size = length-replicate (2 * n) g in
    ground (
      arith,
      get_or-splice (2 * j) i p (if c == 2 then p else g) guards (omega (arith, size)),
      get_or-replicate (2 * n) i g,
    )

length-sound_tmp_ue : (n m : ℕ) (q : Pair) → m ≤ n → length (sound_tmp_ue n q m) ≡ 2 * n
unfolding sound_tmp_ue put_pair
length-sound_tmp_ue n zero q h = length-replicate (2 * n) g
length-sound_tmp_ue n (suc m) q h =
    let rec = length-sound_tmp_ue n m q (omega arith) in
    length-splice (2 * m) q.first q.second (sound_tmp_ue n q m) (omega (arith, rec)) ∙ rec

get_or-sound_tmp_ue :
    (n m i c : ℕ)
    → m ≤ n
    → get_or (sound_tmp_ue n (pair r c) m) i g
      ≡ (if ltb i (2 * m) && ((c == 2) || (i % 2 == 0)) then r else g)
unfolding sound_tmp_ue put_pair pair
get_or-sound_tmp_ue n zero i c h = get_or-replicate (2 * n) i g ∙ ground arith
get_or-sound_tmp_ue n (suc m) i c h =
    let q = pair r c in
    let size = length-sound_tmp_ue n m q (omega arith) in
    let rec = get_or-sound_tmp_ue n m i c (omega arith) in
    let now = get_or-splice (2 * m) i q.first q.second (sound_tmp_ue n q m) (omega (arith, size)) in
    now ∙ ground (arith, rec)

get_or-sound_ue_sched :
    (n i c : ℕ) → get_or (sound_ue_sched n (pair r c)) i g ≡ (if listens c n i then r else g)
unfolding sound_ue_sched listens
get_or-sound_ue_sched n zero c = ground arith
get_or-sound_ue_sched n (suc zero) c = ground arith
get_or-sound_ue_sched n (suc (suc i)) c = ground (arith, get_or-sound_tmp_ue n n i c (omega arith))

listens→sends : (c n i : ℕ) → listens c n i ≡ true → (j : ℕ) × (j < n) × (sends c j i ≡ true)
unfolding listens sends
listens→sends c n i h = ((i - 2) / 2, ground arith, ground arith)

sends→listens : (c n j i : ℕ) → j < n → sends c j i ≡ true → listens c n i ≡ true
unfolding listens sends
sends→listens c n j i h e = ground arith

sends-once : (c j k i : ℕ) → sends c j i ≡ true → sends c k i ≡ true → j ≡ k
unfolding sends
sends-once c j k i e f = ground arith

-- In the schedules of the downlink sounding, for boards of one or two channels, a client receives at
-- a symbol after the beacon exactly if some board sends its pilot then, and no two boards do.
pub sound-aligned :
    (n c i : ℕ) (bs ue : Pair)
    → pair_of p c ≡ some bs
    → pair_of r c ≡ some ue
    → 2 ≤ i
    → ((get_or (sound_ue_sched n ue) i g ≡ r)
        ↔ ((j : ℕ) × (j < n) × (get_or (sound_bs_sched n bs j) i g ≡ p)))
      × ((j k : ℕ)
          → j < n
          → k < n
          → get_or (sound_bs_sched n bs j) i g ≡ p
          → get_or (sound_bs_sched n bs k) i g ≡ p
          → j ≡ k)
sound-aligned n c i bs ue eb eu late =
    rw (pair_of-pair p c eb, pair_of-pair r c eu)
      (let sent = λ (j : ℕ) (h : j < n) (e : get_or (sound_bs_sched n (pair p c) j) i g ≡ p).
          (slot_is (sends c j i) p p≢g).0 (sym (get_or-sound_bs_sched n c j i h late) ∙ e) in
        (
          (
            λ e.
                let heard =
                  (slot_is (listens c n i) r r≢g).0 (sym (get_or-sound_ue_sched n i c) ∙ e) in
                let (j, h, then_sent) = listens→sends c n i heard in
                (
                  j,
                  h,
                  get_or-sound_bs_sched n c j i h late ∙ (slot_is (sends c j i) p p≢g).1 then_sent,
                ),
            λ (j, h, e).
                get_or-sound_ue_sched n i c
                ∙ (slot_is (listens c n i) r r≢g).1 (sends→listens c n j i h (sent j h e)),
          ),
          λ j k hj hk ej ek. sends-once c j k i (sent j hj ej) (sent k hk ek),
        ))
