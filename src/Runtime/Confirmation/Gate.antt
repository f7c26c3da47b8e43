-- ===== src/Runtime/Confirmation/Gate.antt =====
-- Who passes the gate (`require_confirmation` of confirmation.py).
use funnelmanager.Prelude.{
  Bool, Option, Text, arith, codes, false, non_empty, ok, refl, some, text_eq, true, ◌≡◌,
}
use funnelmanager.Runtime.Json.{Fields, obj, entries}
use funnelmanager.Runtime.Confirmation.{
  Platform, Principal, approval_prefix, approval_secret, sign, decoded_payload,
  verify_human_approval,
}
use funnelmanager.Runtime.Confirmation.Require.{
  Request, proceed, origin_of, subject_of, agent_gate, require_confirmation,
}
use funnelmanager.Runtime.Confirmation.Verify.{joined, Approves, verify_human_approval_sound}

module _ {N : Type 0} (p : Platform N) (now : N) (environ : Text → Option Text)
    (principal : Option Principal) (origin subject : Option Text) (r : Request N) where
  agent_gate_verified :
      agent_gate p now environ (subject_of principal subject) r ≡ proceed r.estimate
      → verify_human_approval p now environ r.human_approval r.action r.estimate
          (subject_of principal subject)
          r.secret
          r.consumed
        ≡ ok true
  unfolding agent_gate
  agent_gate_verified h = ground arith

  -- An agent's action over the threshold proceeds only on an approval: its token is signed with the
  -- secret, and its payload is good for this action, this estimate and the acting subject, now.
  pub require_confirmation_agent :
      text_eq (origin_of principal origin) (codes "agent") ≡ true
      → p.le r.estimate r.threshold ≡ false
      → require_confirmation p now environ principal origin subject r ≡ proceed r.estimate
      → (payload_b64 : Text) × (fs : Fields N) × (non_empty (approval_secret environ r.secret)
          ≡ true)
        × (r.human_approval
            ≡ some (
                joined approval_prefix payload_b64
                  (sign p (approval_secret environ r.secret) payload_b64)))
        × (decoded_payload p payload_b64 ≡ some (obj fs))
        × Approves p now r.consumed r.action r.estimate (subject_of principal subject) (entries fs)
  unfolding require_confirmation
  require_confirmation_agent a o h =
      verify_human_approval_sound p now r.consumed r.action r.estimate
        (subject_of principal subject) environ r.human_approval r.secret
        (agent_gate_verified (ground arith))

  -- What an agent confirms by itself changes nothing: the verdict is the same at every `confirm`,
  -- `confirm_token` and `verify_token`.
  pub require_confirmation-self_confirm :
      (c v : Bool) (t : Option Text)
      → text_eq (origin_of principal origin) (codes "agent") ≡ true
      → require_confirmation p now environ principal origin subject
          (record r { confirm = c; confirm_token = t; verify_token = v })
        ≡ require_confirmation p now environ principal origin subject r
  unfolding require_confirmation agent_gate
  require_confirmation-self_confirm c v t a = rw (a, require_confirmation) refl
