-- ===== src/Agents/Approvals/Tests.antt =====
-- Runs of agents/app/approvals.py at concrete approvals.
use funnelmanager.Prelude.{
  List, Text, [], codes, false, none, refl, some, text_eq, true, ℕ, ◌∷◌, ◌≡◌,
}
use funnelmanager.Prelude.Dicts
use funnelmanager.Calendar.{aware}
use funnelmanager.Agents.Approvals.{
  ApprovalDecision, ApprovalCoordinator, register, resolve, wait_end, discard, waiter_at,
  set_waiter, PendingApproval, ConsumedApproval, is_ref_consumed,
}
use funnelmanager.Agents.Approvals.Rendezvous.{
  Reach, here, next, registers, discards, resolve_delivers,
}
use funnelmanager.Agents.Approvals.Ledger.{marks, wins, marks_once}
use funnelmanager.Agents.Approvals.Pending.{creates, decides, expires, writes, writes_settled}

abbrev start : ApprovalCoordinator
start = record {
  waiters = (codes "a", 0) ∷ [];
  store = record { is_set = false; decision = none } ∷ [];
}

abbrev yes : ApprovalDecision
yes = record { approved = true; token = some (codes "t"); decided_by = codes "al" }

abbrev no : ApprovalDecision
no = record { approved = false; token = none; decided_by = codes "bo" }

abbrev later : ApprovalCoordinator
later = discard (codes "a") (register (codes "b") (resolve (codes "a") yes start).0)

later-Reach : Reach (resolve (codes "a") yes start).0 later
later-Reach =
    next (next here (registers (codes "b") (resolve (codes "a") yes start).0))
      (discards (codes "a") (register (codes "b") (resolve (codes "a") yes start).0))

taken : (resolve (codes "a") yes start).1 ≡ true
unfolding resolve waiter_at Dicts.get text_eq
taken = refl

found : Dicts.get start.waiters (codes "a") ≡ some 0
unfolding Dicts.get text_eq
found = refl

resolve_delivers_example :
    (wait_end 0 later ≡ some yes)
    × (Dicts.get later.waiters (codes "a") ≡ some 0
        → (d' : ApprovalDecision) → resolve (codes "a") d' later ≡ (later, false))
resolve_delivers_example = resolve_delivers (codes "a") yes start later 0 found taken later-Reach

second_refused : (resolve (codes "a") no (resolve (codes "a") yes start).0).1 ≡ false
unfolding resolve waiter_at set_waiter Dicts.get text_eq
second_refused = refl

abbrev spend : ConsumedApproval ℕ
spend = record {
  session_id = codes "s";
  turn_id = codes "t";
  approval_id = codes "a";
  subject = codes "al";
  action = codes "run";
  estimate = 5;
}

abbrev calls : List (Text × ConsumedApproval ℕ)
calls = (codes "x", spend) ∷ (codes "y", spend) ∷ (codes "x", spend) ∷ []

marks_once_example :
    (wins (marks (codes "x") calls []).1 ≡ 1)
    × (is_ref_consumed (marks (codes "x") calls []).0 (codes "x") ≡ true)
unfolding Dicts.has text_eq
marks_once_example = marks_once (codes "x") calls []

abbrev row : PendingApproval ℕ
row = record {
  id = codes "a";
  session_id = codes "s";
  turn_id = codes "t";
  subject = codes "al";
  approval_ref = codes "aref_1";
  action = codes "run";
  estimate = 5;
  threshold = some 2;
  unit = codes "GB";
  message = [];
  tool_name = codes "backup";
  tool_args = [];
  status = codes "approved";
  decided_by = some (codes "al");
  decided_at = some (aware 7);
}

row_found : Dicts.get ((codes "a", row) ∷ []) (codes "a") ≡ some row
unfolding Dicts.get text_eq
row_found = refl

row_settled : text_eq (codes "approved") (codes "pending") ≡ false
unfolding text_eq
row_settled = refl

writes_settled_example :
    Dicts.get
      (writes ((codes "a", row) ∷ []) (
        creates row
        ∷ decides (aware 9) (codes "a") (codes "rejected") (codes "bo")
        ∷ expires (codes "s") (codes "t")
        ∷ []))
      (codes "a")
    ≡ some row
writes_settled_example =
    writes_settled
      (creates row
        ∷ decides (aware 9) (codes "a") (codes "rejected") (codes "bo")
        ∷ expires (codes "s") (codes "t")
        ∷ [])
      ((codes "a", row) ∷ []) (codes "a") row row_found row_settled
