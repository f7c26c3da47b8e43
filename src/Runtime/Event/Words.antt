-- ===== src/Runtime/Event/Words.antt =====
-- The words of `JobStatus` and `JobControlAction` (job_events.py).
use funnelmanager.Prelude.{
  Option-cases, Text, arith, codes, false, inl, inr, none, refl, some, text_eq, text_eq_iff, ◌≡◌,
  ◌⊎◌,
}
use funnelmanager.Runtime.Event.{
  JobStatus, queued, running, paused, scheduled, completed, failed, canceled, status_value,
  status_of, is_terminal, parse_status, JobControlAction, pause, resume, cancel, action_value,
  action_of,
}

pub status_of-status_value : (s : JobStatus) → status_of (status_value s) ≡ some s
unfolding status_of text_eq
status_of-status_value queued = refl
status_of-status_value running = refl
status_of-status_value paused = refl
status_of-status_value scheduled = refl
status_of-status_value completed = refl
status_of-status_value failed = refl
status_of-status_value canceled = refl

pub status_of_sound : (w : Text) (s : JobStatus) → status_of w ≡ some s → w ≡ status_value s
unfolding status_of
status_of_sound w s h = ground (
  arith,
  text_eq_iff w (codes "queued"),
  text_eq_iff w (codes "running"),
  text_eq_iff w (codes "paused"),
  text_eq_iff w (codes "scheduled"),
  text_eq_iff w (codes "completed"),
  text_eq_iff w (codes "failed"),
  text_eq_iff w (codes "canceled"),
)

-- The lenient parse keeps every word: what it returns tells which word was read, and a word that is
-- no status is read as one that is not terminal, beside the word itself.
pub parse_status_keeps :
    (w : Text)
    → ((parse_status w).1 ≡ none × (w ≡ status_value (parse_status w).0))
      ⊎ ((parse_status w).1 ≡ some w
          × (is_terminal (parse_status w).0 ≡ false)
          × (status_of w ≡ none))
unfolding parse_status
parse_status_keeps w = elim (Option-cases (status_of w)) [
  | inl e ↦ rw (e, parse_status) (inr (refl, refl, refl))
  | inr (s, e) ↦ rw (e, parse_status) (inl (refl, status_of_sound w s e))
]

pub action_of-action_value : (a : JobControlAction) → action_of (action_value a) ≡ some a
unfolding action_of text_eq
action_of-action_value pause = refl
action_of-action_value resume = refl
action_of-action_value cancel = refl
