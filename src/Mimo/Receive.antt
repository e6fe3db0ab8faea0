-- ===== src/Mimo/Receive.antt =====
-- MATLAB/iris_py.py: recv_stream_tdd. What the i-th call of readStream gives is a function of i.
pub mod Complete
use houdini_lab.Common.{
  ℕ, zero, suc, ◌+◌, ◌*◌, Bool, true, false, ◌||◌, List, [], ◌∷◌, ◌++◌, ltb, ◌==◌, if◌then◌else◌,
  take, drop, replicate,
}
use houdini_lab.Common.Int.{ℤ, pos, negsuc}
use houdini_lab.Mimo.Calls.{
  Slot, r, M, ◌>>=◌, ◌>>◌, return, fail, when, get, given, call, read_stream,
}
use houdini_lab.Mimo.Samples.{Samples}
use houdini_lab.Mimo.Iris.{has_device}

abbrev pub is_receive : Slot → Bool
is_receive r = true
is_receive _ = false

-- `tdd_sched.count("R")`
unfoldable pub count_receive : List Slot → ℕ
count_receive [] = 0
count_receive (x ∷ xs) = (if is_receive x then 1 else 0) + count_receive xs

-- `ret.ret == n_samp`
abbrev pub is_count : ℤ → ℕ → Bool
is_count (pos k) n = k == n
is_count (negsuc k) n = false

module _ (np : Samples) where
  pub record Read : Type 0 where
    pub ret : ℤ
    pub wave_a : List np.Sample
    pub wave_b : List np.Sample

  pub record Received : Type 0 where
    pub frames_a : List np.Sample
    pub frames_b : List np.Sample
    pub low_a : Bool
    pub low_b : Bool

-- `frames[id * len: id * len + len] = wave`
unfoldable pub store : {A : Type 0} → ℕ → ℕ → List A → List A → List A
store len id wave frames = take (id * len) frames ++ (wave ++ drop (id * len + len) frames)

module _ (np : Samples) (reads : ℕ → Read np) (len n_r : ℕ) where
  unfoldable pub keep : ℕ → Read np → Received np → Received np
  unfolding store
  keep id ret s = record {
    frames_a = store len id ret.wave_a s.frames_a;
    frames_b = store len id ret.wave_b s.frames_b;
    low_a = np.is_low ret.wave_a || s.low_a;
    low_b = np.is_low ret.wave_b || s.low_b;
  }

  unfoldable pub bad : Received np → Received np
  bad s = record s { low_a = true; low_b = true }

  -- The rest of frame m, from symbol k on; the i-th read is next. A bad read leaves the frame.
  unfoldable pub recv_symbols : ℕ → ℕ → ℕ → ℕ → Received np → ℕ × Received np
  recv_symbols zero m k i s = (i, s)
  recv_symbols (suc n) m k i s =
      let rest = recv_symbols n m (suc k) (suc i) (keep (m * n_r + k) (reads i) s) in
      if is_count (reads i).ret len then rest else (suc i, bad s)

  unfoldable pub recv_frames : ℕ → ℕ → ℕ → Received np → ℕ × Received np
  recv_frames zero m i s = (i, s)
  recv_frames (suc n) m i s = let (i', s') = recv_symbols n_r m 0 i s in recv_frames n (suc m) i' s'

  unfoldable pub recv_all : ℕ → Received np
  recv_all max_frames =
      (recv_frames max_frames 0 0 (record {
        frames_a = replicate (len * n_r * max_frames) np.null;
        frames_b = replicate (len * n_r * max_frames) np.null;
        low_a = false;
        low_b = false;
      })).1

-- So many calls of readStream.
unfoldable pub read_times : ℕ → M (Unit {0})
read_times zero = return tt
read_times (suc n) = do call read_stream; read_times n

module _ (np : Samples) (reads : ℕ → Read np) where
  -- How many reads are made.
  unfoldable pub recv_count : ℕ → ℕ → ℕ → ℕ
  recv_count len n_r max_frames =
      (recv_frames np reads len n_r max_frames 0 0 (record {
        frames_a = replicate (len * n_r * max_frames) np.null;
        frames_b = replicate (len * n_r * max_frames) np.null;
        low_a = false;
        low_b = false;
      })).0

  -- A read needs a device and a stream.
  unfoldable pub receive_slots : ℕ → List Slot → M (Received np)
  receive_slots in_len slots = do
    max_frames ← get (λ s. s.max_frames)
    there ← get (λ s. s.rx_stream)
    when (ltb 0 (count_receive slots * max_frames))
        do elim there [ true ↦ return tt | false ↦ fail ]
    read_times (recv_count in_len (count_receive slots) max_frames)
    return (recv_all np reads in_len (count_receive slots) max_frames)

  unfoldable pub recv_stream_tdd : M (Received np)
  recv_stream_tdd = do
    n ← get (λ s. s.n_samp)
    in_len ← given n
    sched ← get (λ s. s.tdd_sched)
    slots ← given sched
    receive_slots in_len slots
