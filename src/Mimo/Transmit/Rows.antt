-- ===== src/Mimo/Transmit/Rows.antt =====
-- MATLAB/mimo_driver.py, txrx_uplink: what the rows that it returns are.
use houdini_lab.Common.Options.{◌>>=◌, >>=-eq-some}
use houdini_lab.Common.{
  ℕ, ◌≡◌, List, Option, if◌then◌else◌, Bool, none, [], All, ltb, ◌==◌, some, suc, length, ◌∷◌, true,
  ◌≤◌, zero, arith, Bool-cases, sym, inr, ◌∙◌, ==_iff, inl, ap, ◌&&◌, refl, not, ◌+◌,
}
use houdini_lab.Mimo.Samples.{Samples}
use houdini_lab.Mimo.Transmit.{
  Matrix, Result, finished, refused, all_rows, antennas, txrx_uplink, uplink_frames, Driver,
  Attempt, n_users, count_receive, uplink_bs_sched,
}
use houdini_lab.Mimo.Transmit.Good.{symbols, IsGood, IsAnswer, Fills, uplink_frames-IsGood}
use houdini_lab.Mimo.Receive.Complete.{waves}
use mathlib.Core.Path.{subst}
use mathlib.Core.Option.{some_inj}
use houdini_lab.Mimo.Frames.{received}

none≢some : {A : Type 0} {a : A} → ¬ (◌≡◌ {A = Option A} none (some a))
none≢some h = cc

refused≢finished :
    {np : Samples} {rows : List (List (List np.Sample))} {n : ℕ}
    → ¬ (◌≡◌ {A = Result np} refused (finished rows n))
refused≢finished h = cc

finished_inj :
    {np : Samples} {rows rows' : List (List (List np.Sample))} {n n' : ℕ}
    → ◌≡◌ {A = Result np} (finished rows n) (finished rows' n')
    → (rows ≡ rows') × (n ≡ n')
finished_inj h = (cc, cc)

module _ {np : Samples} (d : Driver) (x : Matrix np) where
  abbrev receive_symbols : ℕ
  receive_symbols = symbols d x

  -- What the boards from j on heard in an answer: one row for each of their one or two channels.
  abbrev pub heard_rows : ℕ → ℕ → Attempt np → List (List np.Sample)
  heard_rows zero j a = []
  heard_rows (suc n) j a =
      let rest = heard_rows n (suc j) a in
      if d.n_bs_chan == 1
      then waves np (λ i. (a.reads j i).wave_a) receive_symbols 0 ∷ rest
      else waves np (λ i. (a.reads j i).wave_a) receive_symbols 0
        ∷ waves np (λ i. (a.reads j i).wave_b) receive_symbols 0
        ∷ rest

  antennas-heard :
      (n j : ℕ) (a : Attempt np) (rows : List (List np.Sample))
      → IsGood d x a
      → j + n ≤ d.n_bs_sdrs
      → antennas d.n_bs_chan (received np n j x.n_rows receive_symbols a) ≡ some rows
      → rows ≡ heard_rows n j a
  unfolding antennas received
  antennas-heard zero j a rows good below h = cc
  antennas-heard (suc n) j a rows good below h =
      let (rest, e, f) =
        >>=-eq-some (antennas d.n_bs_chan (received np n (suc j) x.n_rows receive_symbols a)) _ h in
      let more = antennas-heard n (suc j) a rest good (omega arith) e in
      let a_rows = good.complete j (omega arith) in
      let b_rows = good.complete_b j (omega arith) in
      elim (Bool-cases (d.n_bs_chan == 1)) [
        | inl one ↦ rw (one, ← a_rows, ← more) (sym (some_inj.0 (rw one at f)))
        | inr other ↦ elim (Bool-cases (d.n_bs_chan == 2)) [
          | inl two ↦
              rw (other, ← a_rows, ← b_rows, ← more) (sym (some_inj.0 (rw (other, two) at f)))
          | inr many ↦ absurd (none≢some (rw (other, many) at f))
        ]
      ]

  -- The rows of a good answer.
  abbrev pub IsHeard : (ℕ → Attempt np) → List (List np.Sample) → Type 0
  IsHeard tries rows = (k : ℕ) × IsGood d x (tries k) × (rows ≡ heard_rows d.n_bs_sdrs 0 (tries k))

  all_rows-IsHeard :
      (tries : ℕ → Attempt np) (found : List (Attempt np)) (rows : List (List (List np.Sample)))
      → All (IsAnswer d x tries) found
      → all_rows
          (λ a. antennas d.n_bs_chan (received np d.n_bs_sdrs 0 x.n_rows receive_symbols a))
          found
        ≡ some rows
      → All (IsHeard tries) rows × (length rows ≡ length found)
  unfolding all_rows
  all_rows-IsHeard tries [] [] h e = (tt, refl)
  all_rows-IsHeard tries [] (y ∷ rows) h e = cc
  all_rows-IsHeard tries (a ∷ found) rows ((k, at_k, good), h) e =
      let f = λ (a : Attempt np).
        antennas d.n_bs_chan (received np d.n_bs_sdrs 0 x.n_rows receive_symbols a) in
      let (y, e1, e2) = >>=-eq-some (f a) _ e in
      let (ys, e3, e4) = >>=-eq-some (all_rows f found) _ e2 in
      let (all, size) = all_rows-IsHeard tries found ys h e3 in
      let row = antennas-heard d.n_bs_sdrs 0 a y good (omega arith) e1 in
      let mine : IsHeard tries y =
        (k, subst (IsGood d x) (sym at_k) good, row ∙ ap (heard_rows d.n_bs_sdrs 0) (sym at_k)) in
      subst
        (λ (zs : List (List (List np.Sample))).
          All (IsHeard tries) zs × (length zs ≡ suc (length found)))
        (some_inj.0 e4) ((mine, all), ap suc size)

  abbrev columns : ℕ
  columns = if ltb 1 x.n_dims then x.n_cols else 1

  abbrev result_rows : ℕ → Attempt np → Option (List (List np.Sample))
  result_rows m a = antennas d.n_bs_chan (received np d.n_bs_sdrs 0 x.n_rows m a)

  returned :
      (num_frames max_try : ℕ) (tries : ℕ → Attempt np) (rows : List (List (List np.Sample)))
      (n_r : ℕ)
      → Fills d x tries
      → (columns == n_users d) ≡ true
      → ◌≡◌ {A = Option (Result np)}
          (do
            found ← uplink_frames d x num_frames max_try tries
            ys ← all_rows (result_rows (count_receive (uplink_bs_sched columns))) found
            some (finished ys (count_receive (uplink_bs_sched columns))))
          (some (finished rows n_r))
      → (n_r ≡ receive_symbols) × All (IsHeard tries) rows × (length rows ≤ num_frames)
  returned num_frames max_try tries rows n_r fills size e =
      let m = count_receive (uplink_bs_sched columns) in
      let (found, e1, e2) = >>=-eq-some (uplink_frames d x num_frames max_try tries) _ e in
      let (ys, e3, e4) = >>=-eq-some (all_rows (result_rows m) found) _ e2 in
      let same : columns ≡ n_users d = (==_iff columns (n_users d)).0 size in
      let (all, few) = uplink_frames-IsGood d x num_frames max_try tries found fills e1 in
      let e3' : all_rows (result_rows receive_symbols) found ≡ some ys =
        ap (λ k. all_rows (result_rows (count_receive (uplink_bs_sched k))) found) (sym same)
        ∙ e3 in
      let (heard, count) = all_rows-IsHeard tries found ys all e3' in
      let (rows_eq, n_eq) = finished_inj (some_inj.0 e4) in
      (
        sym n_eq ∙ ap (λ k. count_receive (uplink_bs_sched k)) same,
        subst (λ (zs : List (List (List np.Sample))). All (IsHeard tries) zs) rows_eq heard,
        subst (λ (zs : List (List (List np.Sample))). length zs ≤ num_frames) rows_eq
            (omega (arith, count, few)),
      )

  -- Where a read that returns n_samp fills its buffers, and the uplink returns frames: they are no more
  -- than were asked for, each with the receive symbols of the schedule; each is that of an answer of the
  -- radios in which every user has counted a trigger; and its rows are, board by board and for each
  -- channel of the board, the samples of all receive symbols of that answer in the order of the reads.
  pub txrx_uplink-IsGood :
      (python_mode : Bool) (num_frames max_try : ℕ) (tries : ℕ → Attempt np)
      (rows : List (List (List np.Sample))) (n_r : ℕ)
      → Fills d x tries
      → txrx_uplink d x python_mode num_frames max_try tries ≡ some (finished rows n_r)
      → (n_r ≡ receive_symbols) × All (IsHeard tries) rows × (length rows ≤ num_frames)
  unfolding txrx_uplink
  txrx_uplink-IsGood python_mode num_frames max_try tries rows n_r fills h =
      elim (Bool-cases (columns == n_users d)) [
        | inr wrong ↦ absurd (refused≢finished (some_inj.0 (rw wrong at h)))
        | inl size ↦ elim (Bool-cases (ltb 4096 x.n_rows)) [
          | inl large ↦ absurd (refused≢finished (some_inj.0 (rw (size, large) at h)))
          | inr fits ↦ elim (Bool-cases (python_mode && (not (ltb 1 x.n_dims) && ltb 0 d.n_ues))) [
            | inl raises ↦ absurd (none≢some (rw (size, fits, raises) at h))
            | inr goes_on ↦
                returned num_frames max_try tries rows n_r fills size
                  (rw (size, fits, goes_on) at h)
          ]
        ]
      ]
