-- ===== src/Health/Channel.antt =====
-- One channel in test_transmitter, PYTHON/IrisUtils/iris_health_monitor.py.
use houdini_lab.Common.{
  ℕ, ◌≡◌, refl, ◌∙◌, ap, Bool, true, false, ◌&&◌, ◌||◌, not, none, some, List, [], ◌∷◌, ◌++◌,
  if◌then◌else◌, inl, inr, Bool-cases,
}
use houdini_lab.Common.Int.{ℤ}
use houdini_lab.Common.Text.{Text, codes, text_eq, text_eq→eq}
use houdini_lab.Health.Result.{ok, ◌>>=◌}
use houdini_lab.Health.Receiver.{
  Reading, Mark, Channel, Row, Sweep, log_if, reached_1, reached_2, failed, unmarked,
}
use houdini_lab.Health.Transmitter.{only_a, only_b, on_a, on_b, tx_sweep, tx_fail, tx_channel}
use houdini_lab.Health.Sweep.{any_gain}

-- Whether the golden antenna, A or B, receives enough at some gain; any other antenna asks for
-- nothing.
abbrev pub heard : Bool → Bool → (ℕ → Bool) → (ℕ → Bool) → List ℕ → Bool
heard true _ p q gains = any_gain p gains
heard false true p q gains = any_gain q gains
heard false false p q gains = true

or_right : (x : Bool) → true ≡ (x || true)
or_right true = refl
or_right false = refl

or_none : (x : Bool) → x ≡ (x || false)
or_none true = refl
or_none false = refl

or_never : (f x : Bool) → f ≡ (f || (x && false))
or_never true x = refl
or_never false true = refl
or_never false false = refl

-- The first flag after a turn, where `rest` is the flag after the later turns.
pick_1 :
    (x y p q flag any rest : Bool)
    → (x && y) ≡ false
    → rest ≡ (flag || (x && any))
    → (if x && p then true else if y && q then flag else rest) ≡ (flag || (x && (p || any)))
pick_1 true true p q flag any rest h k = cc
pick_1 true false true q flag any rest h k = or_right flag
pick_1 true false false q flag any rest h k = k
pick_1 false true p true flag any rest h k = or_none flag
pick_1 false true p false flag any rest h k = k
pick_1 false false p q flag any rest h k = k

pick_2 :
    (x y p q flag any rest : Bool)
    → (x && y) ≡ false
    → rest ≡ (flag || (y && any))
    → (if x && p then flag else if y && q then true else rest) ≡ (flag || (y && (q || any)))
pick_2 true true p q flag any rest h k = cc
pick_2 true false true q flag any rest h k = or_none flag
pick_2 true false false q flag any rest h k = k
pick_2 false true p true flag any rest h k = or_right flag
pick_2 false true p false flag any rest h k = k
pick_2 false false p q flag any rest h k = k

choose :
    {B : Type 0} (f : Sweep → B) (c d : Bool) (t u v : Sweep)
    → f (if c then t else if d then u else v) ≡ (if c then f t else if d then f u else f v)
choose f true d t u v = refl
choose f false true t u v = refl
choose f false false t u v = refl

-- A detailed row changes no flag.
log_if-flags :
    (c : Bool) (row : Row) (s : Sweep)
    → ((log_if c row s).ch_1_logged ≡ s.ch_1_logged)
      × ((log_if c row s).ch_2_logged ≡ s.ch_2_logged)
      × ((log_if c row s).last ≡ s.last)
log_if-flags true row s = (refl, refl, refl)
log_if-flags false row s = (refl, refl, refl)

twice_not : (z : Bool) → not (not z) ≡ z
twice_not true = refl
twice_not false = refl

twice_not_and : (z : Bool) → (not (not z) && true) ≡ z
twice_not_and true = refl
twice_not_and false = refl

heard-eq :
    (x y : Bool) (p q : ℕ → Bool) (gains : List ℕ)
    → (x && y) ≡ false
    → (not (x && not (x && any_gain p gains)) && not (y && not (y && any_gain q gains)))
      ≡ heard x y p q gains
heard-eq true true p q gains h = cc
heard-eq true false p q gains h = twice_not_and (any_gain p gains)
heard-eq false true p q gains h = twice_not (any_gain q gains)
heard-eq false false p q gains h = refl

ant_exclusive : (t : Text) → (text_eq t (codes "A") && text_eq t (codes "B")) ≡ false
unfolding text_eq
ant_exclusive t = elim (Bool-cases (text_eq t (codes "A"))) [
  | inl e ↦ rw (text_eq→eq t (codes "A") e)
  | inr e ↦ rw e
]

module _ (limit : ℤ) (detailed : Bool) (golden_ant : Text) (serial : Text) (lo hi : ℕ)
    (tx_ant : Channel) where
  abbrev pub x : Bool
  x = on_a limit detailed golden_ant

  abbrev pub y : Bool
  y = on_b limit detailed golden_ant

  abbrev pub hears_1 : (ℕ → Reading) → ℕ → Bool
  hears_1 measure g = reached_1 limit detailed (measure g)

  abbrev pub hears_2 : (ℕ → Reading) → ℕ → Bool
  hears_2 measure g = reached_2 limit detailed (measure g)

  -- The state in which the next turn starts.
  abbrev noted : ℕ → Reading → Sweep → Sweep
  noted gain r s = log_if (detailed && y) (only_b unmarked tx_ant serial lo hi gain r) (
      log_if (detailed && x) (only_a unmarked tx_ant serial lo hi gain r)
        (record s { last = some (gain, r) }))

  noted-flags :
      (gain : ℕ) (r : Reading) (s : Sweep)
      → ((noted gain r s).ch_1_logged ≡ s.ch_1_logged)
        × ((noted gain r s).ch_2_logged ≡ s.ch_2_logged)
        × ((noted gain r s).last ≡ some (gain, r))
  noted-flags gain r s =
      let t : Sweep = record s { last = some (gain, r) } in
      let (one, two, taken) =
        log_if-flags (detailed && x) (only_a unmarked tx_ant serial lo hi gain r) t in
      let (one', two', taken') =
        log_if-flags (detailed && y) (only_b unmarked tx_ant serial lo hi gain r)
          (log_if (detailed && x) (only_a unmarked tx_ant serial lo hi gain r) t) in
      (one' ∙ one, two' ∙ two, taken' ∙ taken)

  tx_sweep-ch_1 :
      (measure : ℕ → Reading) (gains : List ℕ) (s : Sweep)
      → (x && y) ≡ false
      → (tx_sweep limit detailed golden_ant serial lo hi tx_ant measure gains s).ch_1_logged
        ≡ (s.ch_1_logged || (x && any_gain (hears_1 measure) gains))
  unfolding tx_sweep
  tx_sweep-ch_1 measure [] s h = or_never s.ch_1_logged x
  tx_sweep-ch_1 measure (gain ∷ gains) s h =
      choose (λ t. t.ch_1_logged) (x && hears_1 measure gain) (y && hears_2 measure gain) _ _ _
      ∙ pick_1 x y (hears_1 measure gain) (hears_2 measure gain) s.ch_1_logged
          (any_gain (hears_1 measure) gains) _ h
          (tx_sweep-ch_1 measure gains (noted gain (measure gain) s) h
            ∙ ap (λ f. f || (x && any_gain (hears_1 measure) gains))
                ((noted-flags gain (measure gain) s).0))

  tx_sweep-ch_2 :
      (measure : ℕ → Reading) (gains : List ℕ) (s : Sweep)
      → (x && y) ≡ false
      → (tx_sweep limit detailed golden_ant serial lo hi tx_ant measure gains s).ch_2_logged
        ≡ (s.ch_2_logged || (y && any_gain (hears_2 measure) gains))
  unfolding tx_sweep
  tx_sweep-ch_2 measure [] s h = or_never s.ch_2_logged y
  tx_sweep-ch_2 measure (gain ∷ gains) s h =
      choose (λ t. t.ch_2_logged) (x && hears_1 measure gain) (y && hears_2 measure gain) _ _ _
      ∙ pick_2 x y (hears_1 measure gain) (hears_2 measure gain) s.ch_2_logged
          (any_gain (hears_2 measure) gains) _ h
          (tx_sweep-ch_2 measure gains (noted gain (measure gain) s) h
            ∙ ap (λ f. f || (y && any_gain (hears_2 measure) gains))
                ((noted-flags gain (measure gain) s).1))

  -- A reading was taken.
  abbrev Taken : Sweep → Type 0
  Taken s = (gain : ℕ) × (r : Reading) × (s.last ≡ some (gain, r))

  choose-Taken :
      (c d : Bool) (t u v : Sweep)
      → Taken t
      → Taken u
      → Taken v
      → Taken (if c then t else if d then u else v)
  choose-Taken true d t u v h k l = h
  choose-Taken false true t u v h k l = k
  choose-Taken false false t u v h k l = l

  tx_sweep-Taken :
      (measure : ℕ → Reading) (gains : List ℕ) (s : Sweep)
      → Taken s
      → Taken (tx_sweep limit detailed golden_ant serial lo hi tx_ant measure gains s)
  unfolding tx_sweep
  tx_sweep-Taken measure [] s h = h
  tx_sweep-Taken measure (gain ∷ gains) s h =
      choose-Taken (x && hears_1 measure gain) (y && hears_2 measure gain) _ _ _
        (gain, measure gain, refl) (gain, measure gain, refl)
        (tx_sweep-Taken measure gains (noted gain (measure gain) s)
          (gain, measure gain, (noted-flags gain (measure gain) s).2))

  swept-Taken :
      (measure : ℕ → Reading) (gain : ℕ) (gains : List ℕ) (s : Sweep)
      → Taken (tx_sweep limit detailed golden_ant serial lo hi tx_ant measure (gain ∷ gains) s)
  unfolding tx_sweep
  swept-Taken measure gain gains s =
      choose-Taken (x && hears_1 measure gain) (y && hears_2 measure gain) _ _ _
        (gain, measure gain, refl) (gain, measure gain, refl)
        (tx_sweep-Taken measure gains (noted gain (measure gain) s)
          (gain, measure gain, (noted-flags gain (measure gain) s).2))

  tx_fail-ok :
      (c : Bool) (row : Mark → Channel → Text → ℕ → ℕ → ℕ → Reading → Row) (s : Sweep)
      → Taken s
      → (rows : List Row) × (tx_fail limit detailed golden_ant serial lo hi tx_ant c row s
          ≡ ok rows)
  tx_fail-ok false row s h = ([], refl)
  tx_fail-ok true row s (gain, r, e) = (row failed tx_ant serial lo hi gain r ∷ [], rw e)

  exclusive : (x && y) ≡ false
  exclusive = ant_exclusive golden_ant

  -- A channel that is swept over some gains keeps the verdict if and only if the golden antenna
  -- receives the limit at some gain.
  pub tx_channel-heard :
      (measure : ℕ → Reading) (gain : ℕ) (gains : List ℕ)
      → (rows : List Row) × (tx_channel limit detailed golden_ant serial lo hi tx_ant measure
            (gain ∷ gains)
          ≡ ok (heard x y (hears_1 measure) (hears_2 measure) (gain ∷ gains), rows))
  unfolding tx_channel
  tx_channel-heard measure gain gains =
      let start : Sweep = record {
        ch_1_logged = false;
        ch_2_logged = false;
        last = none;
        rows = [];
      } in
      let s : Sweep =
        tx_sweep limit detailed golden_ant serial lo hi tx_ant measure (gain ∷ gains) start in
      let taken = swept-Taken measure gain gains start in
      let (fails, e) = tx_fail-ok (x && not s.ch_1_logged) only_a s taken in
      let (fails', e') = tx_fail-ok (y && not s.ch_2_logged) only_b s taken in
      (
        s.rows ++ (fails ++ fails'),
        ap
              (λ r. r >>= λ rows.
                tx_fail limit detailed golden_ant serial lo hi tx_ant (y && not s.ch_2_logged)
                  only_b s
                >>= λ rows'. ok (
                  not (x && not s.ch_1_logged) && not (y && not s.ch_2_logged),
                  s.rows ++ (rows ++ rows'),
                ))
              e
            ∙ ap
                (λ r. r >>= λ rows. ok (
                  not (x && not s.ch_1_logged) && not (y && not s.ch_2_logged),
                  s.rows ++ (fails ++ rows),
                ))
                e'
            ∙ ap
                (λ c.
                  ok
                    (not (x && not c) && not (y && not s.ch_2_logged), s.rows ++ (fails ++ fails')))
                (tx_sweep-ch_1 measure (gain ∷ gains) start exclusive)
            ∙ ap
                (λ c. ok (
                  not (x && not (x && any_gain (hears_1 measure) (gain ∷ gains)))
                      && not (y && not c),
                  s.rows ++ (fails ++ fails'),
                ))
                (tx_sweep-ch_2 measure (gain ∷ gains) start exclusive)
            ∙ ap (λ c. ok (c, s.rows ++ (fails ++ fails')))
                (heard-eq x y (hears_1 measure) (hears_2 measure) (gain ∷ gains) exclusive),
      )
