-- ===== src/Mimo/Frames.antt =====
-- MATLAB/mimo_driver.py: the frames of a transmission, each of which is tried until it is good. The
-- k-th trigger of the base station is answered by `tries k`.
pub mod Good
use houdini_lab.Mimo.Receive.{Read, Received, recv_all}
use houdini_lab.Common.{
  ℕ, List, Option, Bool, [], some, none, suc, true, ◌∷◌, if◌then◌else◌, ◌/◌, zero, not, ◌||◌, ◌^◌,
  ◌==◌, false, ◌&&◌,
}
use houdini_lab.Mimo.Samples.{Samples}
use houdini_lab.Common.Options.{◌>>=◌}

-- What the radios give after a trigger: the reads of board j, and the ticks of client u.
pub record Attempt (np : Samples) : Type 0 where
  pub reads : ℕ → ℕ → Read np
  pub ticks : ℕ → ℕ

module _ (np : Samples) where
  -- `[radio.recv_stream_tdd() for radio in radios]`, of the boards from j on.
  unfoldable pub received : ℕ → ℕ → ℕ → ℕ → Attempt np → List (Received np)
  received zero j len n_r a = []
  received (suc n) j len n_r a = recv_all np (a.reads j) len n_r 1 ∷ received n (suc j) len n_r a

  unfoldable pub verify_signal_quality : ℕ → Bool → List (Received np) → Option Bool
  verify_signal_quality zero both rs = some true
  verify_signal_quality (suc n) both [] = none
  verify_signal_quality (suc n) both (x ∷ rs) =
      let rest = verify_signal_quality n both rs in
      if x.low_a || (x.low_b && both) then some false else rest

-- `[ue.sdr_gettriggers() for ue in self.ue_obj]`, of the clients from u on.
unfoldable pub triggers : {np : Samples} → ℕ → ℕ → Attempt np → List ℕ
triggers zero u a = []
triggers (suc n) u a = (a.ticks u / 2 ^ 32) ∷ triggers n (suc u) a

unfoldable pub zeros : ℕ → List ℕ
zeros zero = []
zeros (suc n) = 0 ∷ zeros n

-- `for u in range(n_users)`: whether every new count differs from the old one; a client that is not
-- there raises.
unfoldable pub all_triggered : ℕ → List ℕ → List ℕ → Option Bool
all_triggered zero new old = some true
all_triggered (suc n) [] old = none
all_triggered (suc n) (t ∷ new) [] = none
all_triggered (suc n) (t ∷ new) (o ∷ old) = do
  rest ← all_triggered n new old
  some (not (t == o) && rest)

-- Where a method keeps the old counts of a try, and whether the try was good.
pub record Verdict : Type 0 where
  pub old_triggers : List ℕ
  pub good : Bool

pub record Tried (np : Samples) : Type 0 where
  pub accepted : Option (Attempt np)
  pub next : ℕ

abbrev pub cons_some : {A : Type 0} → Option A → List A → List A
cons_some none xs = xs
cons_some (some a) xs = a ∷ xs

module _ {np : Samples} (verdict : List ℕ → Attempt np → Option Verdict)
    (tries : ℕ → Attempt np) where
  -- The tries that are left of one frame, from the k-th trigger on.
  unfoldable pub try_frame : ℕ → ℕ → List ℕ → Option (Tried np)
  try_frame zero k old = some (record { accepted = none; next = k })
  try_frame (suc n) k old = do
    v ← verdict old (tries k)
    let rest = try_frame n (suc k) v.old_triggers
    if v.good then some (record { accepted = some (tries k); next = suc k }) else rest

  -- With no try at all, `i` of the report after the loop is that of an earlier loop over radios, if
  -- there was one.
  unfoldable pub frame : Bool → ℕ → ℕ → List ℕ → Option (Tried np)
  frame i_bound zero k old = if i_bound then some (record { accepted = none; next = k }) else none
  frame i_bound (suc n) k old = try_frame (suc n) k old

  -- The accepted attempts of the frames that are left.
  unfoldable pub frames : Bool → ℕ → ℕ → ℕ → List ℕ → Option (List (Attempt np))
  frames i_bound zero max_try k old = some []
  frames i_bound (suc n) max_try k old = do
    t ← frame i_bound max_try k old
    rest ← frames i_bound n max_try t.next old
    some (cons_some t.accepted rest)
