-- ===== src/Models/Reading.antt =====
-- The members of the enumerations from their values, as `Decision(value)` finds them.
use north_standard.Base.{String, Option, none, some, ◌≡◌, refl, str_eq, if◌then◌else◌}
use north_standard.Models.Enums.{
  Decision, accept, reject, inconclusive, decision_value, ClaimState, affirming, contradicting,
  unknown, not_evaluated, invalid, state_value,
}

-- `Decision(text)`, with `none` for its ValueError
abbrev pub decision_of : String → Option Decision
decision_of s =
    if str_eq s "ACCEPT"
    then some accept
    else if str_eq s "REJECT"
    then some reject
    else if str_eq s "INCONCLUSIVE"
    then some inconclusive
    else none

pub decision_of-decision_value : (d : Decision) → decision_of (decision_value d) ≡ some d
decision_of-decision_value accept = refl
decision_of-decision_value reject = refl
decision_of-decision_value inconclusive = refl

abbrev pub state_of : String → Option ClaimState
state_of s =
    if str_eq s "AFFIRMING"
    then some affirming
    else if str_eq s "CONTRADICTING"
    then some contradicting
    else if str_eq s "UNKNOWN"
    then some unknown
    else if str_eq s "NOT_EVALUATED"
    then some not_evaluated
    else if str_eq s "INVALID"
    then some invalid
    else none

pub state_of-state_value : (s : ClaimState) → state_of (state_value s) ≡ some s
state_of-state_value affirming = refl
state_of-state_value contradicting = refl
state_of-state_value unknown = refl
state_of-state_value not_evaluated = refl
state_of-state_value invalid = refl
