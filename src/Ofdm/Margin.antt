-- ===== src/Ofdm/Margin.antt =====
-- Demodulation undoes modulation, with noise: PYTHON/IrisUtils/ofdmtxrx.py.
use mathlib.Core.Path.{subst}
use houdini_lab.Common.{
  ℕ, suc, ◌/◌, ◌%◌, ◌<◌, ◌≡◌, refl, sym, ap, Option, none, some, List, [], ◌∷◌, arith, length,
  get_elem?, get_elem?-some,
}
use houdini_lab.Common.Int.{ℤ, pos}
use houdini_lab.Common.Options.{◌>>=◌}
use houdini_lab.Ofdm.Constellation.{
  Iq, level_2, level_4, level_8, bpsk_mod, qpsk_mod, qam16_mod, qam64_mod, bpsk_dem, qpsk_dem,
  qam16_dem, qam64_dem, mod_symbol, dem_symbol, modulation, demodulation,
}
use houdini_lab.Ofdm.Levels.{
  Near, NearIq, bits_2, bits_4, bits_8, bits_2-Near, bits_4-Near, bits_8-Near,
}

data Goes {A B : Type 0} (r : Option A) (f : A → Option B) (b : B) : Type 0 where
  through : (a : A) → r ≡ some a → f a ≡ some b → Goes r f b

bind-Goes :
    {A B : Type 0} (r : Option A) (f : A → Option B) {b : B} → (r >>= f) ≡ some b → Goes r f b
bind-Goes none f h = cc
bind-Goes (some a) f h = through a refl h

iq_same : (x y : Iq) → some x ≡ some y → x ≡ y
iq_same x y h = cc

-- A point that is made of two levels, with what each sample near a level decides.
decides :
    (levels : List ℤ) (bits : ℤ → ℕ)
    → ((k : ℕ) (a r : ℤ) → get_elem? levels k ≡ some a → Near a r → bits r ≡ k)
    → (i j : ℕ) (sent received : Iq)
    → ((get_elem? levels i >>= λ a. get_elem? levels j >>= λ b. some (record { re = a; im = b }))
        ≡ some sent)
    → NearIq sent received
    → (bits received.re ≡ i) × (bits received.im ≡ j)
decides levels bits near i j sent received h close = elim (bind-Goes (get_elem? levels i) _ h) [
  | through a e k ↦ elim (bind-Goes (get_elem? levels j) _ k) [
    | through b e' k' ↦ (
      near i a received.re e (subst (λ iq. Near iq.re received.re) (sym (iq_same _ _ k')) close.0),
      near j b received.im e' (subst (λ iq. Near iq.im received.im) (sym (iq_same _ _ k')) close.1),
    )
  ]
]

bpsk-near :
    (val : ℕ) (sent received : Iq)
    → bpsk_mod val ≡ some sent
    → NearIq sent received
    → bpsk_dem received ≡ val
unfolding bpsk_mod bpsk_dem
bpsk-near val sent received h close = elim (bind-Goes (get_elem? level_2 val) _ h) [
  | through a e k ↦
      bits_2-Near val a received.re e
        (subst (λ iq. Near iq.re received.re) (sym (iq_same _ _ k)) close.0)
]

qpsk-near :
    (val : ℕ) (sent received : Iq)
    → qpsk_mod val ≡ some sent
    → NearIq sent received
    → qpsk_dem received ≡ val
unfolding qpsk_mod qpsk_dem
qpsk-near val sent received h close =
    let (i, j) = decides level_2 bits_2 bits_2-Near (val / 2) (val % 2) sent received h close in
    omega (arith, i, j)

qam16-near :
    (val : ℕ) (sent received : Iq)
    → qam16_mod val ≡ some sent
    → NearIq sent received
    → qam16_dem received ≡ val
unfolding qam16_mod qam16_dem
qam16-near val sent received h close =
    let (i, j) = decides level_4 bits_4 bits_4-Near (val / 4) (val % 4) sent received h close in
    omega (arith, i, j)

qam64-near :
    (val : ℕ) (sent received : Iq)
    → qam64_mod val ≡ some sent
    → NearIq sent received
    → qam64_dem received ≡ val
unfolding qam64_mod qam64_dem
qam64-near val sent received h close =
    let (i, j) = decides level_8 bits_8 bits_8-Near (val / 8) (val % 8) sent received h close in
    omega (arith, i, j)

-- The orders that the library supports.
pub data Order : ℕ → Type 0 where
  bpsk : Order 2
  qpsk : Order 4
  qam16 : Order 16
  qam64 : Order 64

dem_symbol-near :
    {m : ℕ} (o : Order m) (val : ℕ) (sent received : Iq)
    → mod_symbol m val ≡ some sent
    → NearIq sent received
    → dem_symbol m received ≡ some val
unfolding mod_symbol dem_symbol
dem_symbol-near bpsk val sent received h close = ap some (bpsk-near val sent received h close)
dem_symbol-near qpsk val sent received h close = ap some (qpsk-near val sent received h close)
dem_symbol-near qam16 val sent received h close = ap some (qam16-near val sent received h close)
dem_symbol-near qam64 val sent received h close = ap some (qam64-near val sent received h close)

paired :
    (levels : List ℤ) (i j : ℕ)
    → i < length levels
    → j < length levels
    → (sent : Iq) × ((get_elem? levels i >>= λ a.
          get_elem? levels j >>= λ b. some (record { re = a; im = b }))
        ≡ some sent)
paired levels i j h k =
    let (a, e) = get_elem?-some levels i h in
    let (b, e') = get_elem?-some levels j k in (record { re = a; im = b }, rw (e, e'))

pub mod_symbol-some :
    {m : ℕ} (o : Order m) (val : ℕ) → val < m → (sent : Iq) × (mod_symbol m val ≡ some sent)
unfolding mod_symbol bpsk_mod qpsk_mod qam16_mod qam64_mod
mod_symbol-some bpsk val h =
    let (a, e) = get_elem?-some level_2 val h in (record { re = a; im = pos 0 }, rw e)
mod_symbol-some qpsk val h = paired level_2 (val / 2) (val % 2) (omega arith) (omega arith)
mod_symbol-some qam16 val h = paired level_4 (val / 4) (val % 4) (omega arith) (omega arith)
mod_symbol-some qam64 val h = paired level_8 (val / 8) (val % 8) (omega arith) (omega arith)

-- Samples near those that were sent, one for one.
abbrev pub AllNear : List Iq → List Iq → Type 0
AllNear [] [] = Unit {0}
AllNear [] (r ∷ rs) = ⊥
AllNear (s ∷ ss) [] = ⊥
AllNear (s ∷ ss) (r ∷ rs) = NearIq s r × AllNear ss rs

abbrev pub AllBelow : ℕ → List ℕ → Type 0
AllBelow m [] = Unit {0}
AllBelow m (val ∷ vals) = (val < m) × AllBelow m vals

pub modulation-some :
    {m : ℕ} (o : Order m) (vals : List ℕ)
    → AllBelow m vals
    → (sent : List Iq) × (modulation vals m ≡ some sent) × (length sent ≡ length vals)
unfolding modulation
modulation-some o [] h = ([], refl, refl)
modulation-some o (val ∷ vals) h =
    let (iq, e) = mod_symbol-some o val h.0 in
    let (iqs, e', n) = modulation-some o vals h.1 in (iq ∷ iqs, rw (e, e'), ap suc n)

iqs_same : (x y : List Iq) → some x ≡ some y → x ≡ y
iqs_same x y h = cc

nothing_sent :
    (m : ℕ) (received : List Iq) → AllNear [] received → demodulation received m ≡ some []
unfolding demodulation
nothing_sent m [] near = refl
nothing_sent m (r ∷ rs) near = absurd near

one_more :
    {m : ℕ} (o : Order m) (val : ℕ) (vals : List ℕ) (iq : Iq) (iqs received : List Iq)
    → mod_symbol m val ≡ some iq
    → ((rs : List Iq) → AllNear iqs rs → demodulation rs m ≡ some vals)
    → AllNear (iq ∷ iqs) received
    → demodulation received m ≡ some (val ∷ vals)
unfolding demodulation
one_more o val vals iq iqs [] e rest near = absurd near
one_more o val vals iq iqs (r ∷ rs) e rest near =
    rw (dem_symbol-near o val iq r e near.0, rest rs near.1)

pub demodulation-AllNear :
    {m : ℕ} (o : Order m) (vals : List ℕ) (sent received : List Iq)
    → modulation vals m ≡ some sent
    → AllNear sent received
    → demodulation received m ≡ some vals
unfolding modulation
demodulation-AllNear {m = m} o [] sent received h near =
    nothing_sent m received (subst (λ s. AllNear s received) (sym (iqs_same _ _ h)) near)
demodulation-AllNear {m = m} o (val ∷ vals) sent received h near =
    elim (bind-Goes (mod_symbol m val) _ h) [
      | through iq e k ↦ elim (bind-Goes (modulation vals m) _ k) [
        | through iqs e' k' ↦
            one_more o val vals iq iqs received e
              (λ rs close. demodulation-AllNear o vals iqs rs e' close)
              (subst (λ s. AllNear s received) (sym (iqs_same _ _ k')) near)
      ]
    ]

-- Of a supported order, every stream of symbols below it can be sent; and whatever noise moves
-- each sample by less than one unit of the constellation on each axis, demodulation gives the
-- stream back.
pub demodulation-modulation :
    {m : ℕ} (o : Order m) (vals : List ℕ)
    → AllBelow m vals
    → (sent : List Iq) × (modulation vals m ≡ some sent)
      × ((received : List Iq) → AllNear sent received → demodulation received m ≡ some vals)
demodulation-modulation o vals h =
    let (sent, e, n) = modulation-some o vals h in
    (sent, e, λ received near. demodulation-AllNear o vals sent received e near)
