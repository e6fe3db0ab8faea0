-- ===== src/Siso/Gains.antt =====
-- PYTHON/DEMOS/SISO_OFDM.py, find_optimal_gain: the sweep over the pairs of gains.
use houdini_lab.Common.Options.{◌>>=◌}
use houdini_lab.Common.{
  ℕ, List, if◌then◌else◌, Option, ◌∷◌, ◌%◌, some, [], ◌==◌, get_elem?, ◌+◌, suc, length, zero, ◌-◌,
  ◌&&◌, not, ◌<◌, ◌≡◌, ◌*◌, ◌/◌, arith, ◌≤◌, ap, refl, ◌∙◌,
}

-- The globals of the demo that the sweep uses.
pub record GainIndices : Type 0 where
  pub next_val_tx : ℕ
  pub next_val_rx : ℕ
  pub prev_val_tx : ℕ

abbrev pub initial : GainIndices
initial = record { next_val_tx = 0; next_val_rx = 0; prev_val_tx = 0 }

-- `range(lo, lo + 2 * n, 2)`
abbrev pub even_steps : ℕ → ℕ → List ℕ
even_steps zero lo = []
even_steps (suc n) lo = lo ∷ even_steps n (lo + 2)

-- `list(range(10, 30, 2))`, for the transmitter and for the receiver
abbrev pub gain_vec : List ℕ
gain_vec = even_steps 10 10

-- The indices for a packet.
unfoldable pub next_indices : ℕ → GainIndices → GainIndices
next_indices pkt_count s =
    let next_tx =
      if pkt_count % 10 == 0 then (s.next_val_tx + 1) % (length gain_vec - 1) else s.next_val_tx in
    let next_rx =
      if (next_tx == 0) && not (next_tx == s.next_val_tx)
      then (s.next_val_rx + 1) % (length gain_vec - 1)
      else s.next_val_rx in
    record { next_val_tx = next_tx; next_val_rx = next_rx; prev_val_tx = s.next_val_tx }

-- The gains that are set, of the transmitter and of the receiver.
unfoldable pub find_optimal_gain : ℕ → GainIndices → Option (GainIndices × ℕ × ℕ)
find_optimal_gain pkt_count s = do
  let next = next_indices pkt_count s
  txgain ← get_elem? gain_vec next.next_val_tx
  rxgain ← get_elem? gain_vec next.next_val_rx
  some (next, txgain, rxgain)

-- The indices after the first n packets, which are counted from 1 on.
unfoldable pub after : ℕ → GainIndices
after zero = initial
after (suc n) = next_indices (suc n) (after n)

step : (n lo i : ℕ) → i < n → get_elem? (even_steps n lo) i ≡ some (lo + 2 * i)
step zero lo i h = absurd (omega arith)
step (suc n) lo zero h = ap some (omega arith)
step (suc n) lo (suc i) h = step n (lo + 2) i (omega arith) ∙ ap some (omega arith)

after-tx : (n : ℕ) → (after n).next_val_tx ≡ n / 10 % 9
unfolding after next_indices
after-tx zero = refl
after-tx (suc n) = ground (arith, after-tx n)

after-rx : (n : ℕ) → (after n).next_val_rx ≡ n / 90 % 9
unfolding after next_indices
after-rx zero = refl
after-rx (suc n) = ground (arith, after-rx n, after-tx n)

next_after : (n : ℕ) → next_indices (suc n) (after n) ≡ after (suc n)
unfolding after
next_after n = refl

-- The gain of the n-th packet is the next one of the transmitter every 10 packets and of the receiver
-- every 90 packets, from 10 up to 26 and over again: 28, the last gain of the lists, is never set.
pub find_optimal_gain-swept :
    (n : ℕ)
    → (find_optimal_gain (suc n) (after n)
        ≡ some (after (suc n), 10 + 2 * (suc n / 10 % 9), 10 + 2 * (suc n / 90 % 9)))
      × (10 + 2 * (suc n / 10 % 9) ≤ 26)
      × (10 + 2 * (suc n / 90 % 9) ≤ 26)
unfolding find_optimal_gain
find_optimal_gain-swept n =
    let tx = after-tx (suc n) in
    let rx = after-rx (suc n) in
    (
      rw (next_after n, tx, step 10 10 (suc n / 10 % 9) (omega arith))
          (rw (rx, step 10 10 (suc n / 90 % 9) (omega arith)) refl),
      omega arith,
      omega arith,
    )
