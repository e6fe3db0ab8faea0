-- ===== src/Siso/Signal.antt =====
-- PYTHON/DEMOS/SISO_OFDM.py, txrx_app: the signal that is sent.
use houdini_lab.Common.{List, map, replicate, ◌++◌}

module _ {A : Type 0} where
  -- The prefix, the preamble of STS and LTS, the data and the postfix, scaled.
  unfoldable pub tx_signal : (A → A) → A → List A → List A → List A → List A
  tx_signal scale null sts_sym lts_sym sig_t =
      map scale (replicate 30 null ++ ((sts_sym ++ lts_sym) ++ (sig_t ++ replicate 30 null)))
