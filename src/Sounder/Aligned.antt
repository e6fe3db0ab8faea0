-- ===== src/Sounder/Aligned.antt =====
-- PYTHON/DEMOS/SOUNDER_TXRX.py: the two schedules fit together.
use houdini_lab.Mimo.Receive.{count_receive}
use houdini_lab.Common.{
  ℕ, List, map, replicate, ◌++◌, length, Bool, ◌≡◌, ◌∷◌, ◌+◌, suc, ap, [], arith, if◌then◌else◌,
  zero, refl, length-append, ◌≤◌, sym, length-replicate, ◌∙◌, drop, ◌-◌, true, false, map-append,
}
use houdini_lab.Mimo.Calls.{Slot, g, r, t, b, p}
use houdini_lab.Sounder.Plan.{bsched, msched}
use houdini_lab.Sounder.Threads.{pilot_sym_num}

-- What the base station does while the client is in a slot.
pub hears : Slot → Slot
hears b = g
hears g = g
hears p = r
hears r = g
hears t = r

map-replicate : (n : ℕ) (x : Slot) → map hears (replicate n x) ≡ replicate n (hears x)
unfolding hears
map-replicate zero x = refl
map-replicate (suc n) x = ap (λ xs. hears x ∷ xs) (map-replicate n x)

tail-hears :
    (k m : ℕ)
    → replicate k g ++ (replicate m r ++ (g ∷ []))
      ≡ map hears (replicate k g ++ (replicate m t ++ (g ∷ [])))
unfolding hears
tail-hears k m = sym (
    map-append hears (replicate k g) (replicate m t ++ (g ∷ []))
    ∙ ap (λ xs. xs ++ map hears (replicate m t ++ (g ∷ []))) (map-replicate k g)
    ∙ ap (λ xs. replicate k g ++ xs)
        (map-append hears (replicate m t) (g ∷ []) ∙ ap (λ xs. xs ++ (g ∷ [])) (map-replicate m t)))

count_receive-append :
    (xs ys : List Slot) → count_receive (xs ++ ys) ≡ count_receive xs + count_receive ys
unfolding count_receive
count_receive-append [] ys = omega arith
count_receive-append (x ∷ xs) ys = omega (arith, count_receive-append xs ys)

count_receive-guards : (n : ℕ) → count_receive (replicate n g) ≡ 0
unfolding count_receive
count_receive-guards zero = refl
count_receive-guards (suc n) = omega (arith, count_receive-guards n)

count_receive-receives : (n : ℕ) → count_receive (replicate n r) ≡ n
unfolding count_receive
count_receive-receives zero = refl
count_receive-receives (suc n) = omega (arith, count_receive-receives n)

tail-count : (k m : ℕ) → count_receive (replicate k g ++ (replicate m r ++ (g ∷ []))) ≡ m
unfolding count_receive
tail-count k m = omega (
  arith,
  count_receive-append (replicate k g) (replicate m r ++ (g ∷ [])),
  count_receive-append (replicate m r) (g ∷ []),
  count_receive-guards k,
  count_receive-receives m,
)

pub tail-length :
    (k m : ℕ) (x : Slot) → length (replicate k g ++ (replicate m x ++ (g ∷ []))) ≡ k + m + 1
tail-length k m x = omega (
  arith,
  length-append (replicate k g) (replicate m x ++ (g ∷ [])),
  length-append (replicate m x) (g ∷ []),
  length-replicate k g,
  length-replicate m x,
)

-- In a frame that is long enough for the symbols: after the beacon the base station receives in exactly
-- the slots in which the client sends a pilot or data; it receives as many symbols in a frame as its
-- thread reads; and the schedules have the length that was asked for.
pub schedules-aligned :
    (both : Bool) (num_syms tx_sym_num : ℕ)
    → tx_sym_num + (if both then 5 else 4) ≤ num_syms
    → (bsched both num_syms tx_sym_num ≡ b ∷ map hears (drop 1 (msched both num_syms tx_sym_num)))
      × (count_receive (bsched both num_syms tx_sym_num) ≡ pilot_sym_num both + tx_sym_num)
      × (length (bsched both num_syms tx_sym_num) ≡ num_syms)
      × (length (msched both num_syms tx_sym_num) ≡ num_syms)
unfolding bsched msched hears count_receive
schedules-aligned true n m h =
    let k = n - m - 5 in
    (
      ap (λ xs. b ∷ g ∷ r ∷ r ∷ xs) (tail-hears k m),
      omega (arith, tail-count k m),
      omega (arith, tail-length k m r),
      omega (arith, tail-length k m t),
    )
schedules-aligned false n m h =
    let k = n - m - 4 in
    (
      ap (λ xs. b ∷ g ∷ r ∷ xs) (tail-hears k m),
      omega (arith, tail-count k m),
      omega (arith, tail-length k m r),
      omega (arith, tail-length k m t),
    )
