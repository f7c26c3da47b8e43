-- ===== src/Mail/Cap.antt =====
-- The cap bounds what the log has of a domain's sends in a day, over the whole service
-- (mail/app/campaigns.py, mail/app/routers/mail.py).
pub mod Days
pub mod Budget
pub mod Sends
pub mod Cycles
pub mod Requests
use funnelmanager.Prelude.{All, List, [], arith, refl, true, ℕ, ◌+◌, ◌<◌, ◌∷◌, ◌≡◌, ◌≤◌}
use funnelmanager.Prelude.Dicts
use funnelmanager.Mail.Rows.{
  Campaign, CampaignMessage, Db, MailAccount, Settings, get_campaign, is_running,
}
use funnelmanager.Mail.Suppression.{contacted_set, day_us}
use funnelmanager.Mail.Quota.{
  get_or_0, direct_message, enforce_direct_send, get_global_per_domain_cap,
  global_domain_sent_today, is_nil, normalized_set, record_direct_send, sent_today,
}
use funnelmanager.Mail.Sources.{add_source}
use funnelmanager.Mail.Drafts.{HttpException, http}
use funnelmanager.Mail.Tick.{Turn, is_sender, run_cycle, senders_of, tick_locked}
use funnelmanager.Mail.Send.{
  Exchange, GmailFault, SendRequest, all_recipients, do_fault, do_answer, all_recipients,
  GmailFault, auth, fault, do_send, send_refused, auth, fault,
}
use funnelmanager.Mail.Runs.{Action, Deployment, World, act, caps, run, sends, ticks}
use funnelmanager.Mail.Changes.{Change-SameLog, Change, act-Change, is_quiet, tick_locked-cases}
use funnelmanager.Mail.Cap.Days.{
  IsDated, IsDated-later, count-sent_today, day_count, day_count-append, day_count_later, on_day,
  on_day_sent,
}
use funnelmanager.Mail.Cap.Budget.{Pools, group_by_domain-Pools}
use funnelmanager.Mail.Cap.Cycles.{run_cycle-Steady, start_Steady}
use funnelmanager.Mail.Cap.Sends.{Within, Steady}
use funnelmanager.Mail.Cap.Requests.{Capped, same_Capped, later_Capped, tick-Capped, send-Capped}

-- What a change of the cap must keep.
abbrev pub Bounded : ℕ → Action → Type 0
Bounded cap (Action.caps value) = (0 < value) × (value ≤ cap)
Bounded cap _ = Unit

module _ {N : Type 0} (s : Deployment N) (cap : ℕ) where
  quiet_Capped :
      (w : World) (a : Action)
      → is_quiet a ≡ true
      → Capped cap s.settings w.db w.now
      → Capped cap s.settings (act s w a).db w.now
  quiet_Capped w a h c =
      same_Capped cap s.settings w.db (act s w a).db w.now
        (Change-SameLog s.settings s.lower w.db (act s w a).db (act-Change s w a h)) c

  act-Capped :
      (w : World) (a : Action)
      → Bounded cap a
      → Capped cap s.settings w.db w.now
      → Capped cap s.settings (act s w a).db (act s w a).now
  unfolding act is_quiet get_global_per_domain_cap
  act-Capped w (Action.ticks id ts) b c = tick-Capped cap s.settings s.lower id ts w.now w.db c
  act-Capped w (Action.sends a body x) b c =
      send-Capped cap s.settings s.lower s.valid s.archived w.now a body x w.db c
  act-Capped w (Action.caps value) b c = record {
    dated = c.dated;
    days = c.days;
    limit = ground arith;
  }
  act-Capped w (Action.creates body) b c = quiet_Capped w (Action.creates body) refl c
  act-Capped w (Action.patches u i body) b c = quiet_Capped w (Action.patches u i body) refl c
  act-Capped w (Action.grows u i x y z) b c = quiet_Capped w (Action.grows u i x y z) refl c
  act-Capped w (Action.starts u i) b c = quiet_Capped w (Action.starts u i) refl c
  act-Capped w (Action.resumes u i) b c = quiet_Capped w (Action.resumes u i) refl c
  act-Capped w (Action.pauses i) b c = quiet_Capped w (Action.pauses i) refl c
  act-Capped w (Action.cancels i) b c = quiet_Capped w (Action.cancels i) refl c

  -- Over any requests and cycles, one after the other, with any answers of Gmail and with cycles that
  -- stop at any point or run past midnight: where the log is not ahead of the clock, the cap in force
  -- and every cap that is set are at most a number, and the log has no more sends of any domain on any
  -- day, then it has no more at the end.
  pub run-Capped :
      (actions : List (ℕ × Action)) (w : World)
      → All (λ e. Bounded cap e.1) actions
      → Capped cap s.settings w.db w.now
      → Capped cap s.settings (run s w actions).db (run s w actions).now
  unfolding run
  run-Capped [] w b c = c
  run-Capped ((t, a) ∷ actions) w b c =
      run-Capped actions (act s (record w { now = w.now + t }) a) b.1 (
        act-Capped (record w { now = w.now + t }) a b.0
          (later_Capped cap s.settings w.db w.now t c))
