-- ===== src/Mimo/Samples.antt =====
-- numpy's complex samples, as the drivers use them.
use houdini_lab.Common.{ℕ, Bool, List}

pub data Order : Type 0 where
  iq : Order
  qi : Order

-- `cfloat2uint32` goes sample by sample; `is_low` is `np.max(np.abs(wave)) < 0.01`.
pub record Samples : Type 1 where
  pub Sample : Type 0
  pub null : Sample
  pub conj : Sample → Sample
  pub to_word : Order → Sample → ℕ
  pub is_low : List Sample → Bool
