-- ===== src/Policy.antt =====
-- src/north_standard/policy.py.
use north_standard.Base.{String, Bool, true, Result, ok, value_error, ◌>>◌, raise_if}
use north_standard.Base.Int.{ℤ, pos, ltb_ℤ}

pub record VerifierPolicy : Type 0 where
  pub policy_id : String
  pub minimum_valid_challenges : ℤ
  pub minimum_breach_challenges : ℤ
  pub max_evidence_age_seconds : ℤ
  pub reject_invalid_authentication : Bool
  pub require_unique_nonces : Bool

-- `VerifierPolicy(policy_id=…)`, with the other fields at their defaults
abbrev pub default_policy : String → VerifierPolicy
default_policy id = record {
  policy_id = id;
  minimum_valid_challenges = pos 2;
  minimum_breach_challenges = pos 2;
  max_evidence_age_seconds = pos 3600;
  reject_invalid_authentication = true;
  require_unique_nonces = true;
}

-- `VerifierPolicy.__post_init__`
unfoldable pub check_policy : VerifierPolicy → Result VerifierPolicy
check_policy p = do
  raise_if (ltb_ℤ p.minimum_valid_challenges (pos 1))
      (value_error "minimum_valid_challenges must be >= 1")
  raise_if (ltb_ℤ p.minimum_breach_challenges (pos 1))
      (value_error "minimum_breach_challenges must be >= 1")
  raise_if (ltb_ℤ p.minimum_valid_challenges p.minimum_breach_challenges)
      (value_error "minimum_breach_challenges cannot exceed minimum_valid_challenges")
  ok p
