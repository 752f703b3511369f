-- ===== src/Tests/Trials.antt =====
-- The theorems on trials and on the return of the verifier, at concrete inputs.
use north_standard.Base.{
  ℕ, ◌*◌, Result, err, String, ◌/◌, ◌≡◌, arith, refl, ok, none, some, List, [], ◌∷◌,
}
use north_standard.Base.Int.{ℤ, pos, ◌+ℤ◌, ◌-ℤ◌}
use north_standard.Base.Codes.{sorted_set}
use north_standard.Value.{is_hashable}
use north_standard.Canonical.{canonical_sha256, canonical_json, normalize}
use north_standard.Models.{
  VerifierResult, Decision, reject, check_contract, check_record, bundle_root, bundle_dict,
  delivery_end, semantic_hash, contract_dict,
}
use north_standard.Policy.{default_policy}
use north_standard.Verifier.{verify, appraise, outcome}
use north_standard.Verifier.Availability.{availability_claim}
use north_standard.Verifier.Performance.{performance_claim, performance_metrics, judge_performance}
use north_standard.Verifier.Binding.{binding_claim}
use north_standard.Verifier.Runtime.{runtime_claim}
use north_standard.Verifier.Integrity.{
  bundle_integrity_errors, errors_from, sequence_key, window_errors,
}
use north_standard.Verifier.Returning.{verify_returns, IsReadable}
use north_standard.Simulator.{simulate_scenario}
use north_standard.Experiments.{
  Noise, GroundTruth, breach, provider_outage, generate_case_evidence, plain_evidence,
  outage_record, SyntheticCase, performance_bundle, noisy_records,
}
use north_standard.Experiments.Trials.{TrialRecord, run_trial, run_matrix}
use north_standard.Experiments.Plain.{plain_trial_decides}
use north_standard.Experiments.Summary.{summarize}
use north_standard.Experiments.Table.Counts.{IsTabulated, summarize-IsTabulated}
use north_standard.Samples.{Micro, micro_float, sample_hashing, sketch, zero_digest}
use north_standard.Tests.Bundles.{contract, outage}

-- a stand-in whose arithmetic is crude and whose generator always draws one half
instance abbrev half_noise : Noise Micro
half_noise = record {
  add = λ x y. micro_float.sum (x ∷ y ∷ []);
  sub = λ x y. x;
  mul = λ x y. x;
  round_to = λ x n. x;
  draw = λ seed k. some (pos 500_000);
}

abbrev trial_of : GroundTruth → Decision → List String → TrialRecord
trial_of truth d codes = record {
  experiment_id = "synthetic-smoke/0.1";
  scenario = "provider_outage";
  attack_family = "availability-outage";
  ground_truth = truth;
  seed = pos 7;
  mode = "SYNTHETIC";
  contract_hash = zero_digest;
  evidence_bundle_root = zero_digest;
  verifier_policy_id = "VERIFIER-v0.1";
  decision = d;
  reason_codes = codes;
  verifier_runtime_ns = pos 1000;
}

abbrev outage_trial : TrialRecord
outage_trial = trial_of breach reject ("AVAILABILITY_PROVIDER_FAILURE" ∷ [])

outage_run : run_trial Micro provider_outage (pos 7) (pos 1000) ≡ ok outage_trial
unfolding run_trial generate_case_evidence plain_evidence outage_record simulate_scenario
    check_contract check_record verify ◌+ℤ◌ ◌-ℤ◌ appraise availability_claim is_hashable
    performance_claim performance_metrics judge_performance binding_claim runtime_claim bundle_root
    canonical_sha256 canonical_json sketch normalize bundle_dict outcome bundle_integrity_errors
    sorted_set delivery_end errors_from sequence_key window_errors semantic_hash contract_dict
outage_run = refl

plain_trial_decides_example : reject ≡ reject
plain_trial_decides_example =
    plain_trial_decides Micro (refl, refl, refl) provider_outage (pos 7) (pos 1000) outage_trial
      refl outage_run

-- what a call returned, and else nothing
abbrev rows_or_none : Result (List TrialRecord) → List TrialRecord
rows_or_none (ok rows) = rows
rows_or_none (err _) = []

-- each trial takes as long
abbrev steady : SyntheticCase → ℤ → ℤ
steady c seed = pos 1000

abbrev one_each : List TrialRecord
one_each = rows_or_none (run_matrix Micro steady (pos 1) (pos 0))

one_each-run : run_matrix Micro steady (pos 1) (pos 0) ≡ ok one_each
unfolding run_matrix run_trial generate_case_evidence plain_evidence performance_bundle
    noisy_records outage_record simulate_scenario check_contract check_record verify ◌+ℤ◌ ◌-ℤ◌
    appraise availability_claim is_hashable performance_claim performance_metrics judge_performance
    binding_claim runtime_claim bundle_root canonical_sha256 canonical_json sketch normalize
    bundle_dict outcome bundle_integrity_errors sorted_set delivery_end errors_from sequence_key
    window_errors semantic_hash contract_dict
one_each-run = refl

-- a quotient in millionths
abbrev quotient : ℕ → ℕ → Micro
quotient a b = some (pos (a * 1_000_000 / b))

summarize-IsTabulated_example : IsTabulated Micro quotient 1 one_each (summarize quotient one_each)
summarize-IsTabulated_example =
    summarize-IsTabulated Micro quotient steady (refl, refl, refl) 1 (pos 0) one_each one_each-run

outage-IsReadable : IsReadable contract outage (default_policy "VERIFIER-v0.1")
unfolding bundle_root canonical_sha256 canonical_json sketch normalize bundle_dict is_hashable
outage-IsReadable = record {
  policy_matches = refl;
  asked = omega arith;
  attributions = (refl, tt);
  scores = ((_, refl), ((_, refl), ((_, refl), tt)));
  serialized = (zero_digest, refl);
}

verify_returns_example : (result : VerifierResult Micro) × (verify contract outage none ≡ ok result)
verify_returns_example = verify_returns contract outage none outage-IsReadable
