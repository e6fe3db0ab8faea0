-- ===== src/Mimo/Schedule/Aligned.antt =====
-- MATLAB/mimo_driver.py: when a board sends, some other listens, and one at a time.
use houdini_lab.Mimo.Schedule.{
  pairs, shared, uplink_bs_sched, uplink_ue_sched, put_pair, uplink_bs_sched_b,
}
use houdini_lab.Common.{
  ℕ, zero, suc, ◌+◌, ◌*◌, ◌%◌, ◌≡◌, ◌<◌, refl, ap, sym, ◌∙◌, ◌↔◌, inl, inr, List, [], ◌∷◌, ◌++◌,
  ltb, leb, ◌==◌, arith, if◌then◌else◌, take, drop, replicate, get_or, length, ◌&&◌, ◌||◌,
  length-append, length-replicate, ◌-◌, Bool, ◌≢◌, true, Bool-cases, ◌/◌, false,
}
use houdini_lab.Mimo.Calls.{Slot, g, p, r}

pub get_or-append :
    {A : Type 0} (xs ys : List A) (i : ℕ) (a : A)
    → get_or (xs ++ ys) i a
      ≡ (if ltb i (length xs) then get_or xs i a else get_or ys (i - length xs) a)
get_or-append [] ys i a = let e : i - 0 ≡ i = omega arith in rw e (ground arith)
get_or-append (x ∷ xs) ys zero a = ground arith
get_or-append (x ∷ xs) ys (suc i) a =
    let e : suc i - suc (length xs) ≡ i - length xs = omega arith in
    rw e (ground (arith, get_or-append xs ys i a))

pub get_or-replicate : {A : Type 0} (n i : ℕ) (a : A) → get_or (replicate n a) i a ≡ a
get_or-replicate zero i a = refl
get_or-replicate (suc n) zero a = refl
get_or-replicate (suc n) (suc i) a = get_or-replicate n i a

drop-replicate_two :
    {A : Type 0} (n : ℕ) (a : A) → drop 2 (replicate (suc (suc n)) a) ≡ replicate n a
drop-replicate_two n a = refl

-- Symbol i of pairs of which only the first symbol is no guard.
get_or-pairs :
    (n i : ℕ) (x : Slot)
    → get_or (pairs n x g) i g ≡ (if ltb i (2 * n) && (i % 2 == 0) then x else g)
unfolding pairs
get_or-pairs zero i x = ground arith
get_or-pairs (suc n) zero x = ground arith
get_or-pairs (suc n) (suc zero) x = ground arith
get_or-pairs (suc n) (suc (suc i)) x = ground (arith, get_or-pairs n i x)

length-pairs : (n : ℕ) (x y : Slot) → length (pairs n x y) ≡ 2 * n
unfolding pairs
length-pairs zero x y = omega arith
length-pairs (suc n) x y = omega (arith, length-pairs n x y)

-- The list with the two symbols put in at j.
pub get_or-splice :
    (j i : ℕ) (x y : Slot) (xs : List Slot)
    → suc j < length xs
    → get_or (take j xs ++ (x ∷ y ∷ drop (j + 2) xs)) i g
      ≡ (if i == j then x else if i == suc j then y else get_or xs i g)
get_or-splice zero i x y [] h = absurd (omega arith)
get_or-splice zero i x y (u ∷ []) h = absurd (omega arith)
get_or-splice zero zero x y (u ∷ v ∷ xs) h = ground arith
get_or-splice zero (suc zero) x y (u ∷ v ∷ xs) h = ground arith
get_or-splice zero (suc (suc i)) x y (u ∷ v ∷ xs) h = ground arith
get_or-splice (suc j) i x y [] h = absurd (omega arith)
get_or-splice (suc j) zero x y (u ∷ xs) h = ground arith
get_or-splice (suc j) (suc i) x y (u ∷ xs) h =
    let e : suc j + 2 ≡ suc (j + 2) = omega arith in
    rw e (ground (arith, get_or-splice j i x y xs (omega arith)))

pub length-splice :
    (j : ℕ) (x y : Slot) (xs : List Slot)
    → suc j < length xs
    → length (take j xs ++ (x ∷ y ∷ drop (j + 2) xs)) ≡ length xs
length-splice zero x y [] h = absurd (omega arith)
length-splice zero x y (u ∷ []) h = absurd (omega arith)
length-splice zero x y (u ∷ v ∷ xs) h = refl
length-splice (suc j) x y [] h = absurd (omega arith)
length-splice (suc j) x y (u ∷ xs) h =
    let e : suc j + 2 ≡ suc (j + 2) = omega arith in
    rw e (ap suc (length-splice j x y xs (omega arith)))

length-shared : (n : ℕ) (x : Slot) → length (shared n x) ≡ (if ltb 1 n then 2 else 0)
unfolding shared
length-shared n x = ground arith

get_or-shared :
    (n i : ℕ) (x : Slot) → get_or (shared n x) i g ≡ (if ltb 1 n && (i == 0) then x else g)
unfolding shared
get_or-shared n zero x = ground arith
get_or-shared n (suc zero) x = ground arith
get_or-shared n (suc (suc i)) x = ground arith

-- What the symbols of the uplink are, one by one.
listens : ℕ → ℕ → Bool
listens n i = leb 2 i && (ltb i (2 + 2 * n) || (ltb 1 n && (i == 2 + 2 * n))) && (i % 2 == 0)

sends : ℕ → ℕ → ℕ → Bool
sends n u i = (i == 2 + 2 * u) || (ltb 1 n && (i == 2 + 2 * n))

body : ℕ → Slot → ℕ → Slot
body n x i = get_or (pairs n x g ++ shared n x) i g

get_or-body :
    (n i : ℕ) (x : Slot)
    → get_or (pairs n x g ++ shared n x) i g
      ≡ (if (ltb i (2 * n) || (ltb 1 n && (i == 2 * n))) && (i % 2 == 0) then x else g)
get_or-body n i x = ground (
  arith,
  get_or-append (pairs n x g) (shared n x) i g,
  length-pairs n x g,
  get_or-pairs n i x,
  get_or-shared n (i - length (pairs n x g)) x,
)

get_or-uplink_bs_sched : (n i : ℕ) → get_or (uplink_bs_sched n) i g ≡ (if listens n i then r else g)
unfolding uplink_bs_sched listens
get_or-uplink_bs_sched n zero = ground arith
get_or-uplink_bs_sched n (suc zero) = ground arith
get_or-uplink_bs_sched n (suc (suc i)) = ground (arith, get_or-body n i r)

get_or-uplink_ue_sched :
    (n u i : ℕ) → u < n → get_or (uplink_ue_sched n u) i g ≡ (if sends n u i then p else g)
unfolding uplink_ue_sched sends put_pair
get_or-uplink_ue_sched n u zero h = ground arith
get_or-uplink_ue_sched n u (suc zero) h = ground arith
get_or-uplink_ue_sched n u (suc (suc i)) h =
    let guards = replicate (2 * n) g in
    let size = length-replicate (2 * n) g in
    let room : suc (2 * u) < length guards = omega (arith, size) in
    let own = take (2 * u) guards ++ (p ∷ g ∷ drop (2 * u + 2) guards) in
    ground (
      arith,
      get_or-append own (shared n p) i g,
      length-splice (2 * u) p g guards room,
      size,
      get_or-splice (2 * u) i p g guards room,
      get_or-replicate (2 * n) i g,
      get_or-shared n (i - length own) p,
    )

pub slot_is : (c : Bool) (x : Slot) → x ≢ g → ((if c then x else g) ≡ x) ↔ (c ≡ true)
slot_is true x h = (λ e. refl, λ e. refl)
slot_is false x h = (λ e. absurd (h (sym e)), λ e. cc)

listens→sends : (n i : ℕ) → listens n i ≡ true → (u : ℕ) × (u < n) × (sends n u i ≡ true)
unfolding listens sends
listens→sends n i h = elim (Bool-cases (ltb i (2 + 2 * n))) [
  | inl own ↦ ((i - 2) / 2, ground arith, ground arith)
  | inr all ↦ (0, ground arith, ground arith)
]

sends→listens : (n u i : ℕ) → u < n → sends n u i ≡ true → listens n i ≡ true
unfolding listens sends
sends→listens n u i h e = ground arith

sends-once : (n u v i : ℕ) → i < 2 + 2 * n → sends n u i ≡ true → sends n v i ≡ true → u ≡ v
unfolding sends
sends-once n u v i h a c = ground arith

pub r≢g : r ≢ g
r≢g e = cc

pub p≢g : p ≢ g
p≢g e = cc

-- The schedule of a board: the first one sends the beacon.
abbrev pub board_sched : ℕ → ℕ → List Slot
board_sched n j = if j == 0 then uplink_bs_sched_b n else uplink_bs_sched n

get_or-uplink_bs_sched_b :
    (n i : ℕ) → (get_or (uplink_bs_sched_b n) i g ≡ r) ↔ (get_or (uplink_bs_sched n) i g ≡ r)
unfolding uplink_bs_sched_b uplink_bs_sched
get_or-uplink_bs_sched_b n zero = (λ e. cc, λ e. cc)
get_or-uplink_bs_sched_b n (suc i) = (λ e. e, λ e. e)

get_or-board_sched : (n j i : ℕ) → (get_or (board_sched n j) i g ≡ r) ↔ (listens n i ≡ true)
get_or-board_sched n j i =
    let plain : (get_or (uplink_bs_sched n) i g ≡ r) ↔ (listens n i ≡ true) =
      rw (get_or-uplink_bs_sched n i) (slot_is (listens n i) r r≢g) in
    elim (Bool-cases (j == 0)) [
      | inl first ↦
          let (forth, back) = get_or-uplink_bs_sched_b n i in
          rw first (λ e. plain.0 (forth e), λ e. back (plain.1 e))
      | inr other ↦ rw other plain
    ]

-- In the schedules of the uplink each board of the base station, the first with the beacon too, receives
-- at a symbol exactly if some user sends its pilot then; before the symbol that they share no two users
-- send at once.
pub uplink-aligned :
    (n j i : ℕ)
    → ((get_or (board_sched n j) i g ≡ r)
        ↔ ((u : ℕ) × (u < n) × (get_or (uplink_ue_sched n u) i g ≡ p)))
      × ((u v : ℕ)
          → u < n
          → v < n
          → i < 2 + 2 * n
          → get_or (uplink_ue_sched n u) i g ≡ p
          → get_or (uplink_ue_sched n v) i g ≡ p
          → u ≡ v)
uplink-aligned n j i =
    let sent = λ (u : ℕ) (h : u < n) (e : get_or (uplink_ue_sched n u) i g ≡ p).
      (slot_is (sends n u i) p p≢g).0 (sym (get_or-uplink_ue_sched n u i h) ∙ e) in
    let (heard, hears) = get_or-board_sched n j i in
    (
      (
        λ e.
            let (u, h, sent_then) = listens→sends n i (heard e) in
            (u, h, get_or-uplink_ue_sched n u i h ∙ (slot_is (sends n u i) p p≢g).1 sent_then),
        λ (u, h, e). hears (sends→listens n u i h (sent u h e)),
      ),
      λ u v hu hv below eu ev. sends-once n u v i below (sent u hu eu) (sent v hv ev),
    )

-- The schedules of the uplink have one length.
pub length-uplink :
    (n u : ℕ)
    → u < n
    → (length (uplink_bs_sched_b n) ≡ length (uplink_bs_sched n))
      × (length (uplink_ue_sched n u) ≡ length (uplink_bs_sched n))
unfolding uplink_bs_sched_b uplink_bs_sched uplink_ue_sched
length-uplink n u h =
    let guards = replicate (2 * n) g in
    let size = length-replicate (2 * n) g in
    let own = take (2 * u) guards ++ (p ∷ g ∷ drop (2 * u + 2) guards) in
    (
      refl,
      omega (
        arith,
        size,
        length-append own (shared n p),
        length-append (pairs n r g) (shared n r),
        length-pairs n r g,
        length-splice (2 * u) p g guards (omega (arith, size)),
        length-shared n p,
        length-shared n r,
      ),
    )
