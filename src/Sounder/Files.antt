-- ===== src/Sounder/Files.antt =====
-- PYTHON/DEMOS/SOUNDER_TXRX.py, rx_thread: what the files hold.
use mathlib.Core.List.{append-nil}
use houdini_lab.Common.{
  ℕ, Bool, List, ◌≡◌, [], ◌++◌, suc, sym, ◌+◌, zero, ◌∙◌, arith, append_assoc, ap, refl,
}
use houdini_lab.Sounder.Threads.{
  rx_frames, dump_reads, dump_pilot, dump_symbol, rx_thread, Buffers, Files, pilot_sym_num,
  no_files,
}

-- The buffers of channel A after reads i, i + 1, ... i + n - 1.
unfoldable pub waves_a : (ℕ → Buffers) → ℕ → ℕ → List ℕ
waves_a reads zero i = []
waves_a reads (suc n) i = (reads i).wave_a ++ waves_a reads n (suc i)

dump_pilots :
    (both : Bool) (reads : ℕ → Buffers) (n i : ℕ) (f : Files)
    → ((dump_reads (dump_pilot both) reads n i f).pilots_a ≡ f.pilots_a ++ waves_a reads n i)
      × ((dump_reads (dump_pilot both) reads n i f).samples_a ≡ f.samples_a)
unfolding dump_reads dump_pilot waves_a
dump_pilots both reads zero i f = (sym (append-nil f.pilots_a), refl)
dump_pilots both reads (suc n) i f =
    let rec = dump_pilots both reads n (suc i) (dump_pilot both (reads i) f) in
    (rec.0 ∙ append_assoc f.pilots_a (reads i).wave_a (waves_a reads n (suc i)), rec.1)

dump_symbols :
    (both : Bool) (reads : ℕ → Buffers) (n i : ℕ) (f : Files)
    → ((dump_reads (dump_symbol both) reads n i f).samples_a ≡ f.samples_a ++ waves_a reads n i)
      × ((dump_reads (dump_symbol both) reads n i f).pilots_a ≡ f.pilots_a)
unfolding dump_reads dump_symbol waves_a
dump_symbols both reads zero i f = (sym (append-nil f.samples_a), refl)
dump_symbols both reads (suc n) i f =
    let rec = dump_symbols both reads n (suc i) (dump_symbol both (reads i) f) in
    (rec.0 ∙ append_assoc f.samples_a (reads i).wave_a (waves_a reads n (suc i)), rec.1)

-- The pilots of n frames of `size` reads each, of which `count` from the `at_read`-th on are taken.
unfoldable pub every_frame : (ℕ → Buffers) → ℕ → ℕ → ℕ → ℕ → List ℕ
every_frame reads size count zero at_read = []
every_frame reads size count (suc n) at_read =
    waves_a reads count at_read ++ every_frame reads size count n (at_read + size)

rx_frames-files :
    (both : Bool) (m : ℕ) (reads : ℕ → Buffers) (n i : ℕ) (f : Files)
    → ((rx_frames both m reads n i f).pilots_a
        ≡ f.pilots_a ++ every_frame reads (pilot_sym_num both + m) (pilot_sym_num both) n i)
      × ((rx_frames both m reads n i f).samples_a
          ≡ f.samples_a ++ every_frame reads (pilot_sym_num both + m) m n (i + pilot_sym_num both))
unfolding rx_frames every_frame
rx_frames-files both m reads zero i f = (sym (append-nil f.pilots_a), sym (append-nil f.samples_a))
rx_frames-files both m reads (suc n) i f =
    let q = pilot_sym_num both in
    let f1 = dump_reads (dump_pilot both) reads q i f in
    let f2 = dump_reads (dump_symbol both) reads m (i + q) f1 in
    let first = dump_pilots both reads q i f in
    let second = dump_symbols both reads m (i + q) f1 in
    let rec = rx_frames-files both m reads n (i + q + m) f2 in
    let e1 : i + q + m ≡ i + (q + m) = omega arith in
    let e2 : i + q + m + q ≡ i + q + (q + m) = omega arith in
    (
      rec.0
          ∙ ap (λ xs. xs ++ every_frame reads (q + m) q n (i + q + m)) (second.1 ∙ first.0)
          ∙ append_assoc f.pilots_a (waves_a reads q i) (every_frame reads (q + m) q n (i + q + m))
          ∙ ap (λ j. f.pilots_a ++ (waves_a reads q i ++ every_frame reads (q + m) q n j)) e1,
      rec.1
          ∙ ap (λ xs. xs ++ every_frame reads (q + m) m n (i + q + m + q))
              (second.0 ∙ ap (λ xs. xs ++ waves_a reads m (i + q)) first.1)
          ∙ append_assoc f.samples_a (waves_a reads m (i + q))
              (every_frame reads (q + m) m n (i + q + m + q))
          ∙ ap (λ j. f.samples_a ++ (waves_a reads m (i + q) ++ every_frame reads (q + m) m n j))
              e2,
    )

-- After n frames the pilot file of channel A holds the first reads of every frame, one or two, and the
-- data file the reads that follow them in it, all in order.
rx_thread-files :
    (both : Bool) (tx_sym_num : ℕ) (reads : ℕ → Buffers) (n : ℕ)
    → ((rx_thread both tx_sym_num reads n).pilots_a
        ≡ every_frame reads (pilot_sym_num both + tx_sym_num) (pilot_sym_num both) n 0)
      × ((rx_thread both tx_sym_num reads n).samples_a
          ≡ every_frame reads (pilot_sym_num both + tx_sym_num) tx_sym_num n (pilot_sym_num both))
unfolding rx_thread
rx_thread-files both tx_sym_num reads n =
    let all = rx_frames-files both tx_sym_num reads n 0 no_files in
    let start : 0 + pilot_sym_num both ≡ pilot_sym_num both = omega arith in
    (all.0, all.1 ∙ ap (every_frame reads (pilot_sym_num both + tx_sym_num) tx_sym_num n) start)
