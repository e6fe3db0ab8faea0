-- ===== src/Health/Irises.antt =====
-- PYTHON/IrisUtils/iris_health_monitor.py, prepare_irises: the choice of the golden Iris and of
-- the units under test.
use houdini_lab.Common.{
  ℕ, zero, suc, Bool, true, false, Option, List, [], ◌∷◌, ◌++◌, map, if◌then◌else◌, get_elem?,
}
use houdini_lab.Common.Text.{Text, codes, text_eq, contains}
use houdini_lab.Health.Result.{
  index_error, value_error, device_error, Result, ok, raised, ◌>>=◌, or_raise,
}

-- What `getHardwareInfo` answers.
pub record Sdr : Type 0 where
  pub serial : Text
  pub revision : Text
  pub frontend : Text

-- What prepare_irises returns.
pub record Irises : Type 0 where
  pub uut_sdrs : List Sdr
  pub uut_serials : List Text
  pub uut_frontends : List Text
  pub golden_sdr : Sdr
  pub golden_serial : Text

-- list.index
unfoldable pub index : List Text → Text → Result ℕ
index [] s = raised value_error
index (t ∷ ts) s = let rest = index ts s in if text_eq t s then ok 0 else (rest >>= λ i. ok (suc i))

-- list.pop without its result
abbrev pub pop {ℓ} : {A : Type ℓ} → ℕ → List A → List A
pop i [] = []
pop zero (x ∷ xs) = xs
pop (suc i) (x ∷ xs) = x ∷ pop i xs

-- The units whose revision names an Iris.
unfoldable pub only_irises : List Sdr → List Sdr
only_irises [] = []
only_irises (d ∷ ds) =
    if contains d.revision (codes "Iris") then d ∷ only_irises ds else only_irises ds

unfoldable pub frontend_of : Sdr → Text
frontend_of d = if contains d.frontend (codes "CBRS") then codes "CBRS" else codes ""

-- The units that are named are opened one by one, none if one is not found.
unfoldable pub open_all : (Text → Option Sdr) → List Text → Result (List Sdr)
open_all open_sdr [] = ok []
open_all open_sdr (s ∷ ss) = do
  d ← or_raise (open_sdr s) device_error
  ds ← open_all open_sdr ss
  ok (d ∷ ds)

-- The units on the network, or the named ones and the golden one.
unfoldable pub open_sdrs : List Sdr → (Text → Option Sdr) → List Text → Text → Result (List Sdr)
open_sdrs network open_sdr [] golden = ok network
open_sdrs network open_sdr (s ∷ ss) golden = open_all open_sdr ((s ∷ ss) ++ (golden ∷ []))

abbrev pub is_blank : Text → Bool
is_blank [] = true
is_blank (_ ∷ _) = false

-- The serial that was asked for, or the first.
unfoldable pub golden_of : List Text → Text → Result Text
golden_of serials golden =
    if is_blank golden then or_raise (get_elem? serials 0) index_error else ok golden

-- `uut_frontends` is left as it is.
unfoldable pub pick_golden : List Sdr → Text → Result Irises
pick_golden sdrs golden = do
  serial ← golden_of (map (λ d. d.serial) sdrs) golden
  i ← index (map (λ d. d.serial) sdrs) serial
  d ← or_raise (get_elem? sdrs i) index_error
  ok (record {
    uut_sdrs = pop i sdrs;
    uut_serials = pop i (map (λ d. d.serial) sdrs);
    uut_frontends = map frontend_of sdrs;
    golden_sdr = d;
    golden_serial = serial;
  })

unfoldable pub remove_irises : List Text → Irises → Result Irises
remove_irises [] s = ok s
remove_irises (serial ∷ serials) s = do
  i ← index s.uut_serials serial
  remove_irises serials (record s {
    uut_sdrs = pop i s.uut_sdrs;
    uut_serials = pop i s.uut_serials;
    uut_frontends = pop i s.uut_frontends;
  })

unfoldable pub prepare_irises :
    List Sdr → (Text → Option Sdr) → List Text → Text → List Text → Result Irises
prepare_irises network open_sdr uut_serials golden rm_from_uut_serials = do
  sdrs ← open_sdrs network open_sdr uut_serials golden
  picked ← pick_golden (only_irises sdrs) golden
  remove_irises rm_from_uut_serials picked
