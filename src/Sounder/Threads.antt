-- ===== src/Sounder/Threads.antt =====
-- PYTHON/DEMOS/SOUNDER_TXRX.py: tx_thread and rx_thread, over the reads they make while `running`.
use houdini_lab.Common.{
  ℕ, Bool, List, [], ltb, suc, ◌/◌, ◌∷◌, ◌++◌, if◌then◌else◌, false, ◌+◌, ◌^◌, ◌==◌, zero, ◌*◌,
}
use houdini_lab.Common.Int.{ℤ, pos, negsuc}

-- What readStream returns to the client: its value and the time of the samples.
pub record Receipt : Type 0 where
  pub ret : ℤ
  pub time : ℕ

abbrev pub is_positive : ℤ → Bool
is_positive (pos n) = ltb 0 n
is_positive (negsuc n) = false

-- The times of the writes after a receipt, from `tx_time` on.
unfoldable pub burst_times : ℕ → ℕ → List ℕ
burst_times zero tx_time = []
burst_times (suc n) tx_time = tx_time ∷ burst_times n (tx_time + 65536)

-- `(timeNs & 0xFFFFFFFF00000000) + (startSymbol << 16)`, for a time of 64 bits.
unfoldable pub first_time : ℕ → ℕ → ℕ
first_time time start_symbol = time / 2 ^ 32 * 2 ^ 32 + start_symbol * 65536

-- All the writes of the thread; with no symbols to send it does not even read.
unfoldable pub tx_thread : ℕ → ℕ → List Receipt → List ℕ
tx_thread tx_sym_num start_symbol [] = []
tx_thread tx_sym_num start_symbol (x ∷ xs) =
    let rest = tx_thread tx_sym_num start_symbol xs in
    if tx_sym_num == 0
    then []
    else if is_positive x.ret
    then burst_times tx_sym_num (first_time x.time start_symbol) ++ rest
    else rest

-- The buffers after a read of the base station, whatever it returned.
pub record Buffers : Type 0 where
  pub wave_a : List ℕ
  pub wave_b : List ℕ

pub record Files : Type 0 where
  pub pilots_a : List ℕ
  pub pilots_b : List ℕ
  pub samples_a : List ℕ
  pub samples_b : List ℕ

unfoldable pub dump_pilot : Bool → Buffers → Files → Files
dump_pilot both x f = record f {
  pilots_a = f.pilots_a ++ x.wave_a;
  pilots_b = f.pilots_b ++ (if both then x.wave_b else []);
}

unfoldable pub dump_symbol : Bool → Buffers → Files → Files
dump_symbol both x f = record f {
  samples_a = f.samples_a ++ x.wave_a;
  samples_b = f.samples_b ++ (if both then x.wave_b else []);
}

-- `n` reads from the i-th on, each dumped.
unfoldable pub dump_reads : (Buffers → Files → Files) → (ℕ → Buffers) → ℕ → ℕ → Files → Files
dump_reads dump reads zero i f = f
dump_reads dump reads (suc n) i f = dump_reads dump reads n (suc i) (dump (reads i) f)

abbrev pub pilot_sym_num : Bool → ℕ
pilot_sym_num both = if both then 2 else 1

-- The frames that the thread reads, from the i-th read on.
unfoldable pub rx_frames : Bool → ℕ → (ℕ → Buffers) → ℕ → ℕ → Files → Files
rx_frames both tx_sym_num reads zero i f = f
rx_frames both tx_sym_num reads (suc n) i f =
    rx_frames both tx_sym_num reads n (i + pilot_sym_num both + tx_sym_num) (
      dump_reads (dump_symbol both) reads tx_sym_num (i + pilot_sym_num both)
        (dump_reads (dump_pilot both) reads (pilot_sym_num both) i f))

abbrev pub no_files : Files
no_files = record { pilots_a = []; pilots_b = []; samples_a = []; samples_b = [] }

unfoldable pub rx_thread : Bool → ℕ → (ℕ → Buffers) → ℕ → Files
rx_thread both tx_sym_num reads frames = rx_frames both tx_sym_num reads frames 0 no_files
