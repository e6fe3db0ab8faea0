-- ===== src/Collector/Synced.antt =====
-- PYTHON/IrisUtils/csi_lib.py, sample_cal: when it says that the nodes are synced, and that they are so
-- after one round.
use houdini_lab.Common.Options.{◌>>=◌}
use houdini_lab.Common.{
  List, ℕ, ◌∷◌, ◌≢◌, ◌≡◌, ◌+◌, [], false, true, replicate, suc, ◌↔◌, length, get_elem?, Bool-cases,
  refl, inl, zero, inr, arith, ◌==◌, ap, some, ◌-◌, sym, ◌<◌, ◌∙◌, ltb, set,
}
use houdini_lab.Collector.Delays.{
  Round, forward, backward, node_writes, node_synced, is_skipped, ref_offset, sample_cal, distance,
}
use houdini_lab.Calibration.Votes.{Trigger, writes_of}
use houdini_lab.Calibration.Aligned.{moved, moved-writes_of}

-- The offsets of the next round, if each write moves the node's offset by one.
abbrev pub moved_all : List (List Trigger) → List ℕ → List ℕ
moved_all ws [] = []
moved_all [] (x ∷ xs) = x ∷ xs
moved_all (w ∷ ws) (x ∷ xs) = moved w x ∷ moved_all ws xs

-- Each node that is not skipped has the property.
abbrev pub Others : ℕ → (ℕ → Type 0) → ℕ → List ℕ → Type 0
Others ref_ant P i [] = Unit
Others ref_ant P i (x ∷ xs) = (is_skipped ref_ant i ≡ false → P x) × Others ref_ant P (suc i) xs

-- The pilot was found, at the index of the reference.
abbrev pub Agrees : ℕ → ℕ → Type 0
Agrees reference x = (x ≢ 0) × (x ≡ reference)

node-moved : (reference x : ℕ) → x ≢ 0 → moved (node_writes reference x) x ≡ reference
unfolding node_writes
node-moved reference x h =
    let found : (x == 0) ≡ false = ground arith in rw found (moved-writes_of reference x)

node_writes-own : (reference : ℕ) → node_writes reference reference ≡ []
unfolding node_writes writes_of
node_writes-own reference =
    let none_left : reference - reference ≡ 0 = omega arith in ground (arith, none_left)

node_synced-own : (reference : ℕ) → reference ≢ 0 → node_synced reference reference ≡ true
unfolding node_synced
node_synced-own reference h = ground arith

module _ (ref_ant reference : ℕ) where
  forward-synced :
      (i : ℕ) (xs : List ℕ)
      → ((forward ref_ant reference i xs).synced ≡ true) ↔ Others ref_ant (Agrees reference) i xs
  unfolding forward node_synced
  forward-synced i [] = (λ h. tt, λ h. refl)
  forward-synced i (x ∷ xs) =
      let rec = forward-synced (suc i) xs in
      elim (Bool-cases (is_skipped ref_ant i)) [
        | inl skipped ↦ rw skipped (λ h. (λ e. cc, rec.0 h), λ h. rec.1 h.1)
        | inr open_ ↦ rw open_ (
          λ h. ((λ e. (λ z. ground arith, ground arith)), rec.0 (ground arith)),
          λ h. ground (arith, h.0 refl, rec.1 h.1),
        )
      ]

  -- Where the reference and all other nodes were found, a second round finds nothing to write.
  forward-again :
      (i : ℕ) (xs : List ℕ)
      → reference ≢ 0
      → Others ref_ant (λ x. x ≢ 0) i xs
      → forward ref_ant reference i (moved_all (forward ref_ant reference i xs).writes xs)
        ≡ record { writes = replicate (length xs) []; synced = true }
  unfolding forward node_synced node_writes moved
  forward-again i [] found h = refl
  forward-again i (x ∷ xs) found h =
      let rec = forward-again (suc i) xs found h.1 in
      elim (Bool-cases (is_skipped ref_ant i)) [
        | inl skipped ↦ rw (skipped, rec) refl
        | inr open_ ↦
            rw
              (
                open_,
                node-moved reference x (h.0 open_),
                node_writes-own reference,
                node_synced-own reference found,
                rec,
              )
              refl
      ]

  moved_all-skipped :
      (i k : ℕ) (xs : List ℕ)
      → is_skipped ref_ant (i + k) ≡ true
      → get_elem? (moved_all (forward ref_ant reference i xs).writes xs) k ≡ get_elem? xs k
  unfolding forward moved
  moved_all-skipped i k [] h = refl
  moved_all-skipped i zero (x ∷ xs) h =
      let here : i + 0 ≡ i = omega arith in
      let skipped = ap (is_skipped ref_ant) (sym here) ∙ h in rw skipped refl
  moved_all-skipped i (suc k) (x ∷ xs) h =
      let next : i + suc k ≡ suc i + k = omega arith in
      moved_all-skipped (suc i) k xs (ap (is_skipped ref_ant) (sym next) ∙ h)

length-moved_all : (ws : List (List Trigger)) (xs : List ℕ) → length (moved_all ws xs) ≡ length xs
length-moved_all ws [] = refl
length-moved_all [] (x ∷ xs) = refl
length-moved_all (w ∷ ws) (x ∷ xs) = ap suc (length-moved_all ws xs)

-- A forward round says that the nodes are synced exactly if each other node was found at the index of the
-- reference; a backward one, to a node that is there, exactly if the reference is less than two samples
-- from the target.
pub sample_cal-synced :
    (offset : List ℕ) (ref_ant target reference : ℕ)
    → get_elem? offset (ref_offset ref_ant) ≡ some reference
    → ref_ant < length offset
    → (ahead : Round) × (back : Round) × (sample_cal offset ref_ant target true ≡ some ahead)
      × (sample_cal offset ref_ant target false ≡ some back)
      × ((ahead.synced ≡ true) ↔ Others ref_ant (Agrees reference) 0 offset)
      × ((back.synced ≡ true) ↔ (distance target reference < 2))
unfolding sample_cal backward node_synced
sample_cal-synced offset ref_ant target reference is_there below =
    let ahead = forward ref_ant reference 0 offset in
    let inside : ltb ref_ant (length offset) ≡ true = ground arith in
    let front = forward-synced ref_ant reference 0 offset in
    elim (Bool-cases (ltb (distance target reference) 2)) [
      | inl near ↦ (
        ahead,
        record { writes = replicate (length offset) []; synced = true },
        rw (is_there, ◌>>=◌) refl,
        rw (is_there, ◌>>=◌, near) refl,
        front,
        (λ h. ground (arith, near), λ h. refl),
      )
      | inr far ↦ (
        ahead,
        record {
          writes = set (replicate (length offset) []) ref_ant (node_writes target reference);
          synced = node_synced target reference;
        },
        rw (is_there, ◌>>=◌) refl,
        rw (is_there, ◌>>=◌, far, inside) refl,
        front,
        (λ h. ground (arith, far), λ h. ground (arith, far)),
      )
    ]

-- Where the reference and all other nodes were found, and each write moves a node by one sample, a
-- second round writes nothing and says that the nodes are synced.
pub sample_cal-converges :
    (offset : List ℕ) (ref_ant target reference : ℕ)
    → get_elem? offset (ref_offset ref_ant) ≡ some reference
    → reference ≢ 0
    → Others ref_ant (λ x. x ≢ 0) 0 offset
    → (first : Round) × (sample_cal offset ref_ant target true ≡ some first)
      × (sample_cal (moved_all first.writes offset) ref_ant target true
          ≡ some (record { writes = replicate (length offset) []; synced = true }))
unfolding sample_cal
sample_cal-converges offset ref_ant target reference is_there found others =
    let first = forward ref_ant reference 0 offset in
    let skipped : is_skipped ref_ant (0 + ref_offset ref_ant) ≡ true = ground arith in
    let stays =
      moved_all-skipped ref_ant reference 0 (ref_offset ref_ant) offset skipped ∙ is_there in
    (
      first,
      rw (is_there, ◌>>=◌) refl,
      rw (stays, ◌>>=◌) (ap some (forward-again ref_ant reference 0 offset found others)),
    )
