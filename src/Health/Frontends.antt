-- ===== src/Health/Frontends.antt =====
-- How the lists of PYTHON/IrisUtils/iris_health_monitor.py, prepare_irises, fit together.
use mathlib.Core.Path.{subst}
use houdini_lab.Common.{
  ap, ℕ, zero, suc, ◌<◌, ◌≡◌, refl, sym, ◌∙◌, Option, some, List, [], ◌∷◌, map, arith, length,
  length-map, get_elem?, inl, inr, Bool-cases,
}
use houdini_lab.Common.Text.{Text, text_eq, text_eq_refl, text_eq→eq}
use houdini_lab.Health.Result.{bind-Ends, through, or_raise-ok, index_error, ok, or_raise}
use houdini_lab.Health.Irises.{
  Sdr, Irises, index, pop, only_irises, frontend_of, pick_golden, golden_of, remove_irises,
  prepare_irises, open_sdrs,
}

pop-map : {A B : Type 0} (f : A → B) (i : ℕ) (xs : List A) → pop i (map f xs) ≡ map f (pop i xs)
pop-map f i [] = refl
pop-map f zero (x ∷ xs) = refl
pop-map f (suc i) (x ∷ xs) = ap (λ ys. f x ∷ ys) (pop-map f i xs)

length-pop :
    {A : Type 0} (i : ℕ) (xs : List A) → i < length xs → suc (length (pop i xs)) ≡ length xs
length-pop i [] h = absurd (omega arith)
length-pop zero (x ∷ xs) h = refl
length-pop (suc i) (x ∷ xs) h = omega (arith, length-pop i xs)

ok-at : (i j : ℕ) → ok i ≡ ok j → i ≡ j
ok-at i j h = cc

-- The position that list.index finds.
index-found :
    (ts : List Text) (s : Text) (i : ℕ)
    → index ts s ≡ ok i
    → (get_elem? ts i ≡ some s) × (i < length ts)
unfolding index
index-found [] s i h = cc
index-found (t ∷ ts) s i h = elim (Bool-cases (text_eq t s)) [
  | inl e ↦
      let start : i ≡ 0 = ok-at _ _ (sym (rw e at h)) in
      rw (start, text_eq→eq t s e) (refl, omega arith)
  | inr e ↦ elim (bind-Ends (index ts s) (λ j. ok (suc j)) (rw e at h)) [
    | through j k l ↦
        let next : i ≡ suc j = ok-at _ _ (sym l) in
        let (found, lt) = index-found ts s j k in rw next (found, omega arith)
  ]
]

some-same : {A : Type 0} (x y : A) → some x ≡ some y → x ≡ y
some-same x y h = cc

get_elem?-map :
    {A B : Type 0} (f : A → B) (xs : List A) (i : ℕ) (a : A)
    → get_elem? xs i ≡ some a
    → get_elem? (map f xs) i ≡ some (f a)
get_elem?-map f [] i a h = cc
get_elem?-map f (x ∷ xs) zero a h = cc
get_elem?-map f (x ∷ xs) (suc i) a h = get_elem?-map f xs i a h

-- The serials are those of the units, in the same order; the frontends are one more.
pub record Aligned (s : Irises) : Type 0 where
  pub serials : s.uut_serials ≡ map (λ d. d.serial) s.uut_sdrs
  pub golden : s.golden_sdr.serial ≡ s.golden_serial
  pub frontends : length s.uut_frontends ≡ suc (length s.uut_sdrs)

ok-same : {A : Type 0} (x y : A) → ok x ≡ ok y → x ≡ y
ok-same x y h = cc

pub length-serials : (s : Irises) → Aligned s → length s.uut_serials ≡ length s.uut_sdrs
length-serials s a = ap length a.serials ∙ length-map s.uut_sdrs (λ d. d.serial)

-- One unit fewer.
popped-Aligned :
    (s : Irises) (i : ℕ)
    → Aligned s
    → i < length s.uut_serials
    → Aligned (record s {
      uut_sdrs = pop i s.uut_sdrs;
      uut_serials = pop i s.uut_serials;
      uut_frontends = pop i s.uut_frontends;
    })
popped-Aligned s i a lt =
    let same = length-serials s a in
    let inside : i < length s.uut_sdrs = omega (arith, same) in
    record {
      serials = ap (pop i) a.serials ∙ pop-map (λ d. d.serial) i s.uut_sdrs;
      golden = a.golden;
      frontends = omega (
        arith,
        a.frontends,
        length-pop i s.uut_sdrs inside,
        length-pop i s.uut_frontends (omega (arith, a.frontends)),
      );
    }

picked-Aligned :
    (sdrs : List Sdr) (serial : Text) (i : ℕ) (d : Sdr)
    → index (map (λ d. d.serial) sdrs) serial ≡ ok i
    → get_elem? sdrs i ≡ some d
    → Aligned (record {
      uut_sdrs = pop i sdrs;
      uut_serials = pop i (map (λ d. d.serial) sdrs);
      uut_frontends = map frontend_of sdrs;
      golden_sdr = d;
      golden_serial = serial;
    })
picked-Aligned sdrs serial i d e got =
    let (found, lt) = index-found _ serial i e in
    record {
      serials = pop-map (λ d. d.serial) i sdrs;
      golden = some-same _ _ (sym (get_elem?-map (λ d. d.serial) sdrs i d got) ∙ found);
      frontends =
          length-map sdrs frontend_of
          ∙ sym (length-pop i sdrs (omega (arith, lt, length-map sdrs (λ d. d.serial))));
    }

pick_golden-Aligned :
    (sdrs : List Sdr) (golden : Text) (s : Irises) → pick_golden sdrs golden ≡ ok s → Aligned s
unfolding pick_golden
pick_golden-Aligned sdrs golden s h =
    elim (bind-Ends (golden_of (map (λ d. d.serial) sdrs) golden) _ h) [
      | through serial e k ↦ elim (bind-Ends (index (map (λ d. d.serial) sdrs) serial) _ k) [
        | through i e' k' ↦ elim (bind-Ends (or_raise (get_elem? sdrs i) index_error) _ k') [
          | through d e'' k'' ↦
              subst Aligned (ok-same _ _ k'')
                (picked-Aligned sdrs serial i d e' (or_raise-ok _ _ e''))
        ]
      ]
    ]

remove_irises-Aligned :
    (serials : List Text) (s t : Irises) → Aligned s → remove_irises serials s ≡ ok t → Aligned t
unfolding remove_irises
remove_irises-Aligned [] s t a h = subst Aligned (ok-same _ _ h) a
remove_irises-Aligned (serial ∷ serials) s t a h =
    elim (bind-Ends (index s.uut_serials serial) _ h) [
      | through i e k ↦
          let (found, lt) = index-found s.uut_serials serial i e in
          remove_irises-Aligned serials _ t (popped-Aligned s i a lt) k
    ]

-- Whatever is asked for, a test that gets its units has them in line with their serials, and the
-- golden unit with its own; but it has one frontend more than units, since the golden unit's is
-- never removed.
pub prepare_irises-Aligned :
    (network : List Sdr) (open_sdr : Text → Option Sdr) (uut_serials : List Text) (golden : Text)
    (rm_from_uut_serials : List Text) (s : Irises)
    → prepare_irises network open_sdr uut_serials golden rm_from_uut_serials ≡ ok s
    → Aligned s
unfolding prepare_irises
prepare_irises-Aligned network open_sdr uut_serials golden rm_from_uut_serials s h =
    elim (bind-Ends (open_sdrs network open_sdr uut_serials golden) _ h) [
      | through sdrs e k ↦ elim (bind-Ends (pick_golden (only_irises sdrs) golden) _ k) [
        | through picked e' k' ↦
            remove_irises-Aligned rm_from_uut_serials picked s
              (pick_golden-Aligned (only_irises sdrs) golden picked e') k'
      ]
    ]

-- By default, with no unit named, the first Iris on the network is the golden one, and the
-- frontends stay those of the whole network: each unit under test stands beside the frontend of
-- the Iris before it.
pub prepare_irises-shifted :
    (d : Sdr) (ds : List Sdr) (network : List Sdr) (open_sdr : Text → Option Sdr)
    → only_irises network ≡ d ∷ ds
    → (s : Irises) × (prepare_irises network open_sdr [] [] [] ≡ ok s)
      × (s.golden_sdr ≡ d)
      × (s.golden_serial ≡ d.serial)
      × (s.uut_sdrs ≡ ds)
      × (s.uut_frontends ≡ frontend_of d ∷ map frontend_of ds)
unfolding prepare_irises open_sdrs pick_golden golden_of remove_irises index
prepare_irises-shifted d ds network open_sdr h = (
  record {
    uut_sdrs = ds;
    uut_serials = map (λ d. d.serial) ds;
    uut_frontends = frontend_of d ∷ map frontend_of ds;
    golden_sdr = d;
    golden_serial = d.serial;
  },
  rw (h, text_eq_refl d.serial),
  refl,
  refl,
  refl,
  refl,
)
