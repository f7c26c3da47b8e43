-- ===== src/Agents/Approvals.antt =====
-- agents/app/approvals.py: the approvals that turns wait for, the rendezvous of a turn with a human's
-- decision, and the ledger of the references that are spent. The tables are those of
-- agents/app/models.py.
pub mod Rendezvous
pub mod Ledger
pub mod Pending
pub mod Tests
use funnelmanager.Prelude.{
  Bool, List, Option, Text, [], codes, false, if◌then◌else◌, length, non_empty, none, not, some,
  suc, text_eq, true, zero, ℕ, ◌&&◌, ◌++◌, ◌∷◌,
}
use funnelmanager.Prelude.Dicts
use funnelmanager.Prelude.Dicts.{Dict}
use funnelmanager.Calendar.{DateTime}
use funnelmanager.Runtime.Json.{Json}

pub record ApprovalDecision : Type 0 where
  pub approved : Bool
  pub token : Option Text
  pub decided_by : Text

-- A waiter: whether its event is set, and the decision.
pub record Waiter : Type 0 where
  pub is_set : Bool
  pub decision : Option ApprovalDecision

-- The coordinator. A turn that waits holds the waiter itself, so the waiters stand in a store, each at
-- its number, and the dictionary has the numbers.
pub record ApprovalCoordinator : Type 0 where
  pub waiters : Dict ℕ
  pub store : List Waiter

abbrev pub fresh : Waiter
fresh = record { is_set = false; decision = none }

-- The waiter at a number.
unfoldable pub waiter_at : List Waiter → ℕ → Option Waiter
waiter_at [] n = none
waiter_at (w ∷ ws) zero = some w
waiter_at (w ∷ ws) (suc n) = waiter_at ws n

unfoldable pub set_waiter : List Waiter → ℕ → Waiter → List Waiter
set_waiter [] n v = []
set_waiter (w ∷ ws) zero v = v ∷ ws
set_waiter (w ∷ ws) (suc n) v = w ∷ set_waiter ws n v

unfoldable pub register : Text → ApprovalCoordinator → ApprovalCoordinator
register approval_id s = record {
  waiters = Dicts.put s.waiters approval_id (length s.store);
  store = s.store ++ fresh ∷ [];
}

-- The waiter that the dictionary has for an approval.
unfoldable pub waiter_of : Text → ApprovalCoordinator → Option Waiter
waiter_of approval_id s = elim (Dicts.get s.waiters approval_id) [
  | none ↦ none
  | some n ↦ waiter_at s.store n
]

unfoldable pub is_waiting : Text → ApprovalCoordinator → Bool
is_waiting approval_id s = elim (waiter_of approval_id s) [ none ↦ false | some w ↦ not w.is_set ]

abbrev pub decided : ApprovalDecision → Waiter
decided d = record { is_set = true; decision = some d }

unfoldable pub resolve : Text → ApprovalDecision → ApprovalCoordinator → ApprovalCoordinator × Bool
resolve approval_id d s = elim (Dicts.get s.waiters approval_id) [
  | none ↦ (s, false)
  | some n ↦ elim (waiter_at s.store n) [
    | none ↦ (s, false)
    | some w ↦
        if w.is_set
        then (s, false)
        else (record s { store = set_waiter s.store n (decided d) }, true)
  ]
]

-- `wait` at its start: the number of the waiter, `none` where it returns at once
abbrev pub wait_start : Text → ApprovalCoordinator → Option ℕ
wait_start approval_id s = Dicts.get s.waiters approval_id

-- `wait` at its end, when the waiter's event or the turn's cancellation is set
unfoldable pub wait_end : ℕ → ApprovalCoordinator → Option ApprovalDecision
wait_end n s = elim (waiter_at s.store n) [
  | none ↦ none
  | some w ↦ if w.is_set then w.decision else none
]

unfoldable pub discard : Text → ApprovalCoordinator → ApprovalCoordinator
discard approval_id s = record s { waiters = Dicts.pop s.waiters approval_id }

-- A row of the table of approvals.
pub record PendingApproval (N : Type 0) : Type 0 where
  pub id : Text
  pub session_id : Text
  pub turn_id : Text
  pub subject : Text
  pub approval_ref : Text
  pub action : Text
  pub estimate : N
  pub threshold : Option N
  pub unit : Text
  pub message : Text
  pub tool_name : Text
  pub tool_args : Dict (Json N)
  pub status : Text
  pub decided_by : Option Text
  pub decided_at : Option DateTime

-- A row of the ledger, under its primary key `approval_ref`.
pub record ConsumedApproval (N : Type 0) : Type 0 where
  pub session_id : Text
  pub turn_id : Text
  pub approval_id : Text
  pub subject : Text
  pub action : Text
  pub estimate : N

abbrev pub is_pending : Text → Bool
is_pending status = text_eq status (codes "pending")

module _ {N : Type 0} where
  -- `session.get(PendingApproval, id)`: the table by its primary key
  abbrev pub get_pending_approval : Dict (PendingApproval N) → Text → Option (PendingApproval N)
  get_pending_approval t approval_id = Dicts.get t approval_id

  -- `create_pending_approval`: the row is new and pending, `none` where its key is taken
  unfoldable pub create_pending_approval :
      PendingApproval N → Dict (PendingApproval N) → Option (Dict (PendingApproval N))
  create_pending_approval row t =
      if Dicts.has t row.id
      then none
      else some (
          Dicts.put t row.id
            (record row { status = codes "pending"; decided_by = none; decided_at = none }))

  unfoldable pub mark_decided :
      DateTime → Text → Text → Text → Dict (PendingApproval N) → Dict (PendingApproval N)
  mark_decided now approval_id status decided_by t = elim (get_pending_approval t approval_id) [
    | none ↦ t
    | some row ↦
        if is_pending row.status
        then Dicts.put t approval_id
            (record row { status = status; decided_by = some decided_by; decided_at = some now })
        else t
  ]

  abbrev pub expired : Text → Text → PendingApproval N → PendingApproval N
  expired session_id turn_id row =
      if text_eq row.session_id session_id && text_eq row.turn_id turn_id && is_pending row.status
      then record row { status = codes "expired" }
      else row

  unfoldable pub expire_pending_for_turn :
      Text → Text → Dict (PendingApproval N) → Dict (PendingApproval N)
  expire_pending_for_turn session_id turn_id [] = []
  expire_pending_for_turn session_id turn_id ((k, row) ∷ t) =
      (k, expired session_id turn_id row) ∷ expire_pending_for_turn session_id turn_id t

  unfoldable pub is_ref_consumed : Dict (ConsumedApproval N) → Text → Bool
  is_ref_consumed ledger approval_ref = non_empty approval_ref && Dicts.has ledger approval_ref

  -- `mark_ref_consumed`: the insert fails where the key is taken
  unfoldable pub mark_ref_consumed :
      Text → ConsumedApproval N → Dict (ConsumedApproval N) → Dict (ConsumedApproval N) × Bool
  mark_ref_consumed approval_ref row ledger =
      if non_empty approval_ref
      then if Dicts.has ledger approval_ref
        then (ledger, false)
        else (Dicts.put ledger approval_ref row, true)
      else (ledger, false)
