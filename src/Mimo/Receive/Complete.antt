-- ===== src/Mimo/Receive/Complete.antt =====
-- MATLAB/iris_py.py, recv_stream_tdd: what the buffers hold where no signal is low.
use houdini_lab.Common.{
  ℕ, zero, suc, ◌+◌, ◌*◌, ◌≡◌, refl, ap, sym, ◌∙◌, inl, inr, true, false, Bool-cases, List, [], ◌∷◌,
  ◌++◌, arith, length, drop, replicate, length-append, take-append, append_assoc, Bool, ◌||◌,
}
use mathlib.Core.List.{append-nil}
use houdini_lab.Mimo.Samples.{Samples}
use houdini_lab.Mimo.Receive.{
  is_count, Read, Received, store, keep, bad, recv_symbols, recv_frames, recv_all,
}

drop-replicate : {A : Type 0} (n m : ℕ) (a : A) → drop n (replicate (n + m) a) ≡ replicate m a
drop-replicate zero m a = let e : 0 + m ≡ m = omega arith in rw e refl
drop-replicate (suc n) m a =
    let e : suc n + m ≡ suc (n + m) = omega arith in rw e (drop-replicate n m a)

drop-longer :
    {A : Type 0} (xs ys : List A) (n k : ℕ) → n ≡ length xs → drop (n + k) (xs ++ ys) ≡ drop k ys
drop-longer [] ys zero k h = let e : 0 + k ≡ k = omega arith in rw e refl
drop-longer [] ys (suc n) k h = absurd (omega arith)
drop-longer (x ∷ xs) ys zero k h = absurd (omega arith)
drop-longer (x ∷ xs) ys (suc n) k h =
    let e : suc n + k ≡ suc (n + k) = omega arith in rw e (drop-longer xs ys n k (omega arith))

-- The store into the first of the blocks that are still null.
store-next :
    {A : Type 0} (len id rest : ℕ) (done wave : List A) (a : A)
    → id * len ≡ length done
    → store len id wave (done ++ replicate (len + rest) a) ≡ (done ++ wave) ++ replicate rest a
unfolding store
store-next len id rest done wave a h =
    let blank = replicate (len + rest) a in
    let kept =
      ap (λ xs. xs ++ (wave ++ drop (id * len + len) (done ++ blank)))
        (take-append done blank (id * len) h) in
    let left = drop-longer done blank (id * len) len h ∙ drop-replicate len rest a in
    kept ∙ ap (λ xs. done ++ (wave ++ xs)) left ∙ sym (append_assoc done wave (replicate rest a))

-- The waves of the reads from the i-th on, one after the other.
unfoldable pub waves : (np : Samples) → (ℕ → List np.Sample) → ℕ → ℕ → List np.Sample
waves np wave zero i = []
waves np wave (suc n) i = wave i ++ waves np wave n (suc i)

true≢false : ¬ (true ≡ false)
true≢false h = cc

-- One of the two channels: its part of a read and its buffer, which `keep` writes.
module _ (np : Samples) (reads : ℕ → Read np) (len n_r : ℕ) (wave : Read np → List np.Sample)
    (buffer : Received np → List np.Sample)
    (stored : (id : ℕ) (ret : Read np) (s : Received np)
      → buffer (keep np reads len n_r id ret s) ≡ store len id (wave ret) (buffer s))
    (filled : (i : ℕ) → is_count (reads i).ret len ≡ true → length (wave (reads i)) ≡ len) where
  after_good :
      (n m k i : ℕ) (s : Received np)
      → is_count (reads i).ret len ≡ true
      → recv_symbols np reads len n_r (suc n) m k i s
        ≡ recv_symbols np reads len n_r n m
            (suc k)
            (suc i)
            (keep np reads len n_r (m * n_r + k) (reads i) s)
  unfolding recv_symbols
  after_good n m k i s h = rw h refl

  after_bad :
      (n m k i : ℕ) (s : Received np)
      → is_count (reads i).ret len ≡ false
      → recv_symbols np reads len n_r (suc n) m k i s ≡ (suc i, bad np reads len n_r s)
  unfolding recv_symbols
  after_bad n m k i s h = rw h refl

  -- The buffer after a good read, as an equation of lists.
  buffer-keep :
      (id i rest : ℕ) (s : Received np) (acc : List np.Sample)
      → is_count (reads i).ret len ≡ true
      → id * len ≡ length acc
      → buffer s ≡ acc ++ replicate (len + rest) np.null
      → buffer (keep np reads len n_r id (reads i) s)
        ≡ (acc ++ wave (reads i)) ++ replicate rest np.null
  buffer-keep id i rest s acc ok h e =
      stored id (reads i) s
      ∙ ap (store len id (wave (reads i))) e
      ∙ store-next len id rest acc (wave (reads i)) np.null h

  -- From a buffer whose first blocks are `acc`, the rest of frame m with no low signal in the end.
  recv_symbols_complete :
      (n m k i later : ℕ) (s : Received np) (acc : List np.Sample)
      → (m * n_r + k) * len ≡ length acc
      → buffer s ≡ acc ++ replicate (n * len + later) np.null
      → (recv_symbols np reads len n_r n m k i s).1.low_a ≡ false
      → ((recv_symbols np reads len n_r n m k i s).0 ≡ i + n)
        × (buffer (recv_symbols np reads len n_r n m k i s).1
            ≡ (acc ++ waves np (λ j. wave (reads j)) n i) ++ replicate later np.null)
        × (length (waves np (λ j. wave (reads j)) n i) ≡ n * len)
  unfolding waves bad recv_symbols
  recv_symbols_complete zero m k i later s acc h e low =
      let none_left : 0 * len + later ≡ later = omega arith in
      rw append-nil (omega arith, e ∙ ap (λ v. acc ++ replicate v np.null) none_left, omega arith)
  recv_symbols_complete (suc n) m k i later s acc h e low =
      elim (Bool-cases (is_count (reads i).ret len)) [
        | inl ok ↦
            let got = wave (reads i) in
            let more : suc n * len + later ≡ len + (n * len + later) = grind arith in
            let kept =
              buffer-keep (m * n_r + k) i (n * len + later) s acc ok h
                (e ∙ ap (λ v. acc ++ replicate v np.null) more) in
            let size : (m * n_r + suc k) * len ≡ length (acc ++ got) =
              grind (arith, length-append acc got, filled i ok) in
            let rec =
              recv_symbols_complete n m (suc k) (suc i) later
                (keep np reads len n_r (m * n_r + k) (reads i) s) (acc ++ got) size kept
                (ap (λ v. v.1.low_a) (sym (after_good n m k i s ok)) ∙ low) in
            rw (after_good n m k i s ok) (
              omega (arith, rec.0),
              rec.1
                  ∙ ap (λ xs. xs ++ replicate later np.null)
                      (append_assoc acc got (waves np (λ j. wave (reads j)) n (suc i))),
              grind (
                arith,
                rec.2,
                filled i ok,
                length-append got (waves np (λ j. wave (reads j)) n (suc i)),
              ),
            )
        | inr failed ↦
            absurd (true≢false (ap (λ v. v.1.low_a) (sym (after_bad n m k i s failed)) ∙ low))
      ]

waves-add :
    (np : Samples) (wave : ℕ → List np.Sample) (n m i : ℕ)
    → waves np wave (n + m) i ≡ waves np wave n i ++ waves np wave m (i + n)
unfolding waves
waves-add np wave zero m i =
    let e : 0 + m ≡ m = omega arith in let f : i + 0 ≡ i = omega arith in rw (e, f) refl
waves-add np wave (suc n) m i =
    let e : suc n + m ≡ suc (n + m) = omega arith in
    let f : i + suc n ≡ suc i + n = omega arith in
    rw (e, f)
      (ap (λ xs. wave i ++ xs) (waves-add np wave n m (suc i))
        ∙ sym (append_assoc (wave i) (waves np wave n (suc i)) (waves np wave m (suc i + n))))

or-true : (x y : Bool) → y ≡ true → (x || y) ≡ true
or-true x y h = ground arith

module _ (np : Samples) (reads : ℕ → Read np) (len n_r : ℕ) where
  -- A signal that was low stays low.
  recv_symbols-low :
      (n m k i : ℕ) (s : Received np)
      → s.low_a ≡ true
      → (recv_symbols np reads len n_r n m k i s).1.low_a ≡ true
  unfolding bad keep recv_symbols
  recv_symbols-low zero m k i s h = h
  recv_symbols-low (suc n) m k i s h = elim (Bool-cases (is_count (reads i).ret len)) [
    | inl ok ↦ rw ok (
        recv_symbols-low n m (suc k) (suc i) (keep np reads len n_r (m * n_r + k) (reads i) s)
          (or-true (np.is_low (reads i).wave_a) s.low_a h))
    | inr failed ↦ rw failed refl
  ]

  recv_frames-low :
      (n m i : ℕ) (s : Received np)
      → s.low_a ≡ true
      → (recv_frames np reads len n_r n m i s).1.low_a ≡ true
  unfolding recv_frames
  recv_frames-low zero m i s h = h
  recv_frames-low (suc n) m i s h =
      let (i', s') = recv_symbols np reads len n_r n_r m 0 i s in
      recv_frames-low n (suc m) i' s' (recv_symbols-low n_r m 0 i s h)

-- One of the two channels: its part of a read and its buffer, which `keep` writes.
module _ (np : Samples) (reads : ℕ → Read np) (len n_r : ℕ) (wave : Read np → List np.Sample)
    (buffer : Received np → List np.Sample)
    (stored : (id : ℕ) (ret : Read np) (s : Received np)
      → buffer (keep np reads len n_r id ret s) ≡ store len id (wave ret) (buffer s))
    (filled : (i : ℕ) → is_count (reads i).ret len ≡ true → length (wave (reads i)) ≡ len) where
  recv_frames_complete :
      (n m i : ℕ) (s : Received np) (acc : List np.Sample)
      → m * n_r * len ≡ length acc
      → buffer s ≡ acc ++ replicate (n * n_r * len) np.null
      → (recv_frames np reads len n_r n m i s).1.low_a ≡ false
      → buffer (recv_frames np reads len n_r n m i s).1
        ≡ acc ++ waves np (λ j. wave (reads j)) (n * n_r) i
  unfolding recv_frames waves
  recv_frames_complete zero m i s acc h e low =
      let e1 : 0 * n_r ≡ 0 = omega arith in
      let e2 : 0 * n_r * len ≡ 0 = grind arith in
      e
      ∙ ap (λ v. acc ++ replicate v np.null) e2
      ∙ sym (ap (λ v. acc ++ waves np (λ j. wave (reads j)) v i) e1)
  recv_frames_complete (suc n) m i s acc h e low =
      let heard : ℕ → List np.Sample = λ j. wave (reads j) in
      let out = recv_symbols np reads len n_r n_r m 0 i s in
      elim (Bool-cases out.1.low_a) [
        | inl was ↦
            absurd
              (true≢false (sym (recv_frames-low np reads len n_r n (suc m) out.0 out.1 was) ∙ low))
        | inr fine ↦
            let later : suc n * n_r * len ≡ n_r * len + n * n_r * len = grind arith in
            let first =
              recv_symbols_complete np reads len n_r wave buffer stored filled n_r m 0 i
                (n * n_r * len) s acc (grind arith) (e ∙ ap (λ v. acc ++ replicate v np.null) later)
                fine in
            let size : suc m * n_r * len ≡ length (acc ++ waves np heard n_r i) =
              grind (arith, length-append acc (waves np heard n_r i), first.2) in
            let rec =
              recv_frames_complete n (suc m) out.0 out.1 (acc ++ waves np heard n_r i) size first.1
                low in
            let total : suc n * n_r ≡ n_r + n * n_r = grind arith in
            rec
            ∙ ap (λ v. (acc ++ waves np heard n_r i) ++ waves np heard (n * n_r) v) first.0
            ∙ append_assoc acc (waves np heard n_r i) (waves np heard (n * n_r) (i + n_r))
            ∙ ap (λ xs. acc ++ xs) (sym (waves-add np heard n_r (n * n_r) i))
            ∙ ap (λ v. acc ++ waves np heard v i) (sym total)
      ]

-- With no low signal on channel A, every read of the schedule's receive symbols in every frame gave
-- all its samples, and the buffer holds them in the order of the reads; this is so where a read that
-- returns n_samp fills its buffer.
pub recv_all_complete :
    (np : Samples) (reads : ℕ → Read np) (len n_r max_frames : ℕ)
    → ((i : ℕ) → is_count (reads i).ret len ≡ true → length (reads i).wave_a ≡ len)
    → (recv_all np reads len n_r max_frames).low_a ≡ false
    → (recv_all np reads len n_r max_frames).frames_a
      ≡ waves np (λ i. (reads i).wave_a) (max_frames * n_r) 0
unfolding recv_all keep
recv_all_complete np reads len n_r max_frames filled low =
    recv_frames_complete np reads len n_r (λ ret. ret.wave_a) (λ s. s.frames_a) (λ id ret s. refl)
      filled max_frames 0 0 _ [] (omega arith) (ap (λ v. replicate v np.null) (grind arith)) low

-- So does the buffer of channel B.
pub recv_all_complete_b :
    (np : Samples) (reads : ℕ → Read np) (len n_r max_frames : ℕ)
    → ((i : ℕ) → is_count (reads i).ret len ≡ true → length (reads i).wave_b ≡ len)
    → (recv_all np reads len n_r max_frames).low_a ≡ false
    → (recv_all np reads len n_r max_frames).frames_b
      ≡ waves np (λ i. (reads i).wave_b) (max_frames * n_r) 0
unfolding recv_all keep
recv_all_complete_b np reads len n_r max_frames filled low =
    recv_frames_complete np reads len n_r (λ ret. ret.wave_b) (λ s. s.frames_b) (λ id ret s. refl)
      filled max_frames 0 0 _ [] (omega arith) (ap (λ v. replicate v np.null) (grind arith)) low
