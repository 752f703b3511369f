-- ===== src/Campaign.antt =====
-- src/north_standard/recorded_campaign.py: the manifest of a campaign of recorded trials.
pub mod Trial
pub mod Blind
pub mod Summary
use Prim.Native.String.{◌++◌ as str_append}
use north_standard.Base.{
  ℕ, String, Bool, true, false, not, ◌||◌, ◌&&◌, all, Option, none, some, List, [], ◌∷◌, length,
  is_empty, contains, nonempty, Result, ok, err, recorded_real_error, ◌>>=◌, ◌>>◌, raise_if,
  map_result, check_each, ltb, if◌then◌else◌,
}
use north_standard.Value.{
  Float, Value, integer, float, null, list, Fields, get, is_text, as_text, items_in, to_float,
}
use north_standard.Experiments.{GroundTruth, compliant, breach}
use north_standard.Recorded.{Measure}
use north_standard.Recorded.Trace.{validate_trace, dict_or_raise, list_or_raise}
use north_standard.Recorded.Calibration.{recorded_real}

-- `read_json path` is what `json.load` makes of the file at a path, and `resolve base value` is the path
-- that a text names from a base directory.
pub record Files (F : Type 0) : Type 0 where
  pub read_json : (path : String) → Result (Value F)
  pub resolve : (base value : String) → String

module _ {F : Type 0} ⦃fs : Files F⦄ where
  -- `load_json` of src/north_standard/recorded_real.py
  unfoldable pub load_json : (path : String) → Result (Fields F)
  load_json path = do
    value ← fs.read_json path
    dict_or_raise (str_append path " must contain a JSON object") value

module _ {F : Type 0} ⦃fl : Float F⦄ ⦃ms : Measure F⦄ ⦃fs : Files F⦄ where
  -- `load_traces` of src/north_standard/recorded_real.py
  unfoldable pub load_traces : (paths : List String) → Result (List (Fields F))
  load_traces paths = do
    traces ← map_result load_json paths
    check_each validate_trace traces
    ok traces

module _ {F : Type 0} where
  -- `GroundTruth(v)`, where it does not raise
  abbrev pub truth_of : Value F → Option GroundTruth
  truth_of v =
      if is_text "COMPLIANT" v
      then some compliant
      else if is_text "BREACH" v
      then some breach
      else none

  -- `isinstance(v, str) and v`, or else the error
  abbrev pub text_or_raise : (message : String) → Value F → Result String
  text_or_raise message v = elim (as_text v) [
    | none ↦ err (recorded_real_error message)
    | some s ↦ raise_if (not (nonempty s)) (recorded_real_error message) >> ok s
  ]

  abbrev is_path : Value F → Bool
  is_path v = elim (as_text v) [ none ↦ false | some s ↦ nonempty s ]

  -- The body of the loop over the trials: the identifier and the truth of the trial.
  unfoldable pub check_trial : (seen : List String) → Value F → Result (String × GroundTruth)
  check_trial seen v = do
    trial ← dict_or_raise "each campaign trial must be an object" v
    trial_id ← text_or_raise "trial_id is required" (get "trial_id" null trial)
    raise_if (contains trial_id seen) (recorded_real_error "trial_id values must be unique")
    condition ← text_or_raise "condition is required" (get "condition" null trial)
    truth ← elim (truth_of (get "ground_truth" null trial)) [
      | none ↦ err (recorded_real_error "ground_truth must be COMPLIANT or BREACH")
      | some g ↦ ok g
    ]
    paths ←
        list_or_raise "trace_paths must contain at least one path" (get "trace_paths" null trial)
    raise_if (is_empty paths || not (all is_path paths))
        (recorded_real_error "trace_paths must contain at least one path")
    ok (trial_id, truth)

  -- The loop over the trials: the truths in their order.
  unfoldable pub check_trials : (seen : List String) → List (Value F) → Result (List GroundTruth)
  check_trials seen [] = ok []
  check_trials seen (v ∷ vs) = do
    (trial_id, truth) ← check_trial seen v
    truths ← check_trials (trial_id ∷ seen) vs
    ok (truth ∷ truths)

abbrev is_compliant : GroundTruth → Bool
is_compliant compliant = true
is_compliant breach = false

-- `truths == {GroundTruth.COMPLIANT, GroundTruth.BREACH}`
abbrev pub has_both : List GroundTruth → Bool
has_both truths = not (all is_compliant truths) && not (all (λ g. not (is_compliant g)) truths)

module _ {F : Type 0} ⦃fl : Float F⦄ where
  -- the test of "performance_floor"
  abbrev pub check_floor : Value F → Result (Unit {0})
  check_floor (integer n) = do
    x ← to_float (integer n)
    raise_if (fl.lt x (fl.lit 0 0))
        (recorded_real_error "performance_floor must be numeric and >= 0")
  check_floor (float x) =
      raise_if (fl.lt x (fl.lit 0 0))
        (recorded_real_error "performance_floor must be numeric and >= 0")
  check_floor _ = err (recorded_real_error "performance_floor must be numeric and >= 0")

  unfoldable pub validate_campaign_manifest : Fields F → Result (Unit {0})
  validate_campaign_manifest manifest = do
    raise_if (not (is_text "recorded-campaign/0.1" (get "schema_version" null manifest)))
        (recorded_real_error "unsupported recorded campaign schema_version")
    raise_if (not (is_text recorded_real (get "mode" null manifest)))
        (recorded_real_error "recorded campaign mode must be RECORDED_REAL")
    campaign_id ← text_or_raise "campaign_id is required" (get "campaign_id" null manifest)
    calibration_path ←
        text_or_raise "calibration_path is required" (get "calibration_path" null manifest)
    check_floor (get "performance_floor" null manifest)
    trials ←
        list_or_raise "recorded campaign requires at least two trials" (get "trials" null manifest)
    raise_if (ltb (length trials) 2)
        (recorded_real_error "recorded campaign requires at least two trials")
    truths ← check_trials [] trials
    raise_if (not (has_both truths))
        (recorded_real_error "campaign must contain at least one COMPLIANT and one BREACH trial")
