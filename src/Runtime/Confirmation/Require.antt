-- ===== src/Runtime/Confirmation/Require.antt =====
-- confirmation.py: the exceptions, and `require_confirmation`.
use funnelmanager.Prelude.{
  Bool, Option, Text, [], codes, err, false, if◌then◌else◌, none, not, ok, some, text_eq, true,
  ◌&&◌,
}
use funnelmanager.Runtime.Json.{Json}
use funnelmanager.Runtime.Confirmation.{
  NotAscii, Platform, Principal, approval_ref, confirm_token, text_or, verify_human_approval,
}

-- The detail of the exception `ConfirmationRequired`. A message that is `none` or empty stands for the
-- default one.
pub record ConfirmationRequired (N : Type 0) : Type 0 where
  pub estimate : N
  pub threshold : N
  pub confirm_token : Text
  pub unit : Text
  pub action : Text
  pub message : Option Text
  pub meta : Option (Json N)

-- The detail of the exception `AgentApprovalRequired`.
pub record AgentApprovalRequired (N : Type 0) : Type 0 where
  pub estimate : N
  pub threshold : N
  pub approval_ref : Text
  pub unit : Text
  pub action : Text
  pub subject : Text
  pub message : Option Text
  pub meta : Option (Json N)

-- The keyword arguments of `require_confirmation` whose defaults its body does not change.
pub record Request (N : Type 0) : Type 0 where
  pub estimate : N
  pub threshold : N
  pub confirm : Bool
  pub confirm_token : Option Text
  pub unit : Text
  pub action : Text
  pub message : Option Text
  pub meta : Option (Json N)
  pub verify_token : Bool
  pub human_approval : Option Text
  pub secret : Option Text
  pub consumed : Option (Text → Option Bool)

-- What the gate comes to: the estimate is returned, or an exception is raised.
pub data Verdict (N : Type 0) : Type 0 where
  proceed : N → Verdict N
  confirmation : ConfirmationRequired N → Verdict N
  approval : AgentApprovalRequired N → Verdict N
  failed : NotAscii → Verdict N

-- `origin`, which defaults to the principal's, else to a user's
unfoldable pub origin_of : Option Principal → Option Text → Text
origin_of principal (some origin) = origin
origin_of (some principal) none = principal.origin
origin_of none none = codes "user"

-- `subject`, which defaults to the principal's name
unfoldable pub subject_of : Option Principal → Option Text → Option Text
subject_of principal (some subject) = some subject
subject_of (some principal) none = some principal.username
subject_of none none = none

abbrev pub mismatch_message : Text
mismatch_message =
    codes
      "confirm_token does not match the current estimate; re-fetch the estimate and confirm again."

-- `a != b` of a text that may be missing and a text
abbrev pub differs : Option Text → Text → Bool
differs none b = true
differs (some a) b = not (text_eq a b)

module _ {N : Type 0} (p : Platform N) where
  abbrev pub confirmation_required : Request N → Option Text → ConfirmationRequired N
  confirmation_required r message = record {
    estimate = r.estimate;
    threshold = r.threshold;
    confirm_token = confirm_token p r.action r.estimate;
    unit = r.unit;
    action = r.action;
    message = message;
    meta = r.meta;
  }

  abbrev pub approval_required : Request N → Text → AgentApprovalRequired N
  approval_required r subject = record {
    estimate = r.estimate;
    threshold = r.threshold;
    approval_ref = approval_ref p r.action r.estimate subject;
    unit = r.unit;
    action = r.action;
    subject = subject;
    message = r.message;
    meta = r.meta;
  }

  -- The gate of a human, over the threshold.
  unfoldable pub human_gate : Request N → Verdict N
  human_gate r =
      if r.confirm
      then if r.verify_token && differs r.confirm_token (confirm_token p r.action r.estimate)
        then confirmation (confirmation_required r (some mismatch_message))
        else proceed r.estimate
      else confirmation (confirmation_required r r.message)

  -- The gate of an agent, over the threshold.
  unfoldable pub agent_gate : N → (Text → Option Text) → Option Text → Request N → Verdict N
  agent_gate now environ subject r =
      elim (verify_human_approval p now environ r.human_approval r.action r.estimate subject
        r.secret r.consumed) [
          | ok true ↦ proceed r.estimate
          | ok false ↦ approval (approval_required r (text_or subject []))
          | err raised ↦ failed raised
        ]

  -- `require_confirmation`, with the current principal, at a time and in an environment
  unfoldable pub require_confirmation :
      N
      → (Text → Option Text)
      → Option Principal
      → Option Text
      → Option Text
      → Request N
      → Verdict N
  require_confirmation now environ principal origin subject r =
      if p.le r.estimate r.threshold
      then proceed r.estimate
      else if text_eq (origin_of principal origin) (codes "agent")
      then agent_gate now environ (subject_of principal subject) r
      else human_gate r
