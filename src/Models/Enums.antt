-- ===== src/Models/Enums.antt =====
-- The enumerations of src/north_standard/models.py, with their values.
use north_standard.Base.{ℕ, String, Bool, ◌==◌, ◌≡◌, ◌↔◌, arith, true}

pub data Decision : Type 0 where
  accept reject inconclusive : Decision

pub data ClaimState : Type 0 where
  affirming contradicting unknown not_evaluated invalid : ClaimState

pub data EvidenceType : Type 0 where
  session_binding runtime_check telemetry challenge external_probe : EvidenceType
  hardware_attestation admin_event : EvidenceType

abbrev pub decision_value : Decision → String
decision_value accept = "ACCEPT"
decision_value reject = "REJECT"
decision_value inconclusive = "INCONCLUSIVE"

abbrev pub state_value : ClaimState → String
state_value affirming = "AFFIRMING"
state_value contradicting = "CONTRADICTING"
state_value unknown = "UNKNOWN"
state_value not_evaluated = "NOT_EVALUATED"
state_value invalid = "INVALID"

abbrev pub type_value : EvidenceType → String
type_value session_binding = "SESSION_BINDING"
type_value runtime_check = "RUNTIME_CHECK"
type_value telemetry = "TELEMETRY"
type_value challenge = "CHALLENGE"
type_value external_probe = "EXTERNAL_PROBE"
type_value hardware_attestation = "HARDWARE_ATTESTATION"
type_value admin_event = "ADMIN_EVENT"

-- Members of one enumeration are compared by their place in it.
abbrev decision_tag : Decision → ℕ
decision_tag accept = 0
decision_tag reject = 1
decision_tag inconclusive = 2

abbrev state_tag : ClaimState → ℕ
state_tag affirming = 0
state_tag contradicting = 1
state_tag unknown = 2
state_tag not_evaluated = 3
state_tag invalid = 4

abbrev type_tag : EvidenceType → ℕ
type_tag session_binding = 0
type_tag runtime_check = 1
type_tag telemetry = 2
type_tag challenge = 3
type_tag external_probe = 4
type_tag hardware_attestation = 5
type_tag admin_event = 6

abbrev pub is_decision : Decision → Decision → Bool
is_decision a b = decision_tag a == decision_tag b

abbrev pub is_state : ClaimState → ClaimState → Bool
is_state a b = state_tag a == state_tag b

abbrev pub is_type : EvidenceType → EvidenceType → Bool
is_type a b = type_tag a == type_tag b

pub is_state_iff : (a b : ClaimState) → (is_state a b ≡ true) ↔ (a ≡ b)
is_state_iff a b = ground arith

pub is_type_iff : (a b : EvidenceType) → (is_type a b ≡ true) ↔ (a ≡ b)
is_type_iff a b = ground arith

pub is_decision_iff : (a b : Decision) → (is_decision a b ≡ true) ↔ (a ≡ b)
is_decision_iff a b = ground arith
