-- ===== src/Mail/Runs.antt =====
-- The mail service at work (mail/app/campaigns.py and mail/app/routers/mail.py): its requests and the
-- cycles of its pacer, one after the other.
use funnelmanager.Prelude.{Bool, List, Option, Result, Text, [], err, ok, ℕ, ◌+◌, ◌∷◌}
use funnelmanager.Runtime.Confirmation.{Platform}
use funnelmanager.Mail.Rows.{Db, MailAccount, Settings}
use funnelmanager.Mail.Quota.{set_global_per_domain_cap}
use funnelmanager.Mail.Sources.{Item}
use funnelmanager.Mail.Drafts.{CampaignCreate, CampaignUpdate, create_campaign}
use funnelmanager.Mail.Tick.{Turn, tick_locked}
use funnelmanager.Mail.Send.{Exchange, SendRequest, do_send}
use funnelmanager.Mail.Lifecycle.{
  Caller, GateEnv, Refusal, add_campaign_source, cancel_campaign, patch_campaign, pause_campaign,
  resume_campaign, start_campaign,
}

-- A request to the service, or a cycle of the pacer. A change of the cap is the last one.
pub data Action : Type 0 where
  ticks : ℕ → List Turn → Action
  sends : MailAccount → SendRequest → Exchange → Action
  creates : CampaignCreate → Action
  patches : Text → ℕ → CampaignUpdate → Action
  grows : Caller → ℕ → Text → Text → List Item → Action
  starts resumes : Caller → ℕ → Action
  pauses cancels : ℕ → Action
  caps : ℕ → Action

-- The tables and the clock.
pub record World : Type 0 where
  pub db : Db
  pub now : ℕ

-- The tables after a request, which a refusal leaves as they were.
unfoldable pub kept {ℓ} : {E : Type 0} {A : Type ℓ} → (A → Db) → Db → Result E A → Db
kept f db (err e) = db
kept f db (ok a) = f a

abbrev pub at_db : World → Db → World
at_db w db = record w { db = db }

-- What the service is deployed with: its settings, `str.lower`, the form of an address, the archive,
-- and the gate.
pub record Deployment (N : Type 0) : Type 0 where
  pub settings : Settings
  pub lower : Text → Text
  pub valid : Text → Bool
  pub archived : ℕ → Option ℕ
  pub platform : Platform N
  pub env : GateEnv N

module _ {N : Type 0} (s : Deployment N) where
  -- The table after one action, and the clock.
  unfoldable pub act : World → Action → World
  unfolding tick_locked do_send create_campaign patch_campaign add_campaign_source start_campaign
      resume_campaign pause_campaign cancel_campaign kept
  act w (ticks id ts) =
      let done = tick_locked s.settings s.lower id ts w.now w.db in
      record { db = done.0; now = done.1 }
  act w (sends account body x) = record {
    db = (do_send s.settings s.lower s.valid s.archived w.now account body x w.db).0;
    now = w.now + x.elapsed;
  }
  act w (creates body) =
      at_db w (kept (λ db. db) w.db (create_campaign s.settings s.lower w.now body w.db))
  act w (patches username id body) =
      at_db w (kept {E = Refusal N} (λ db. db) w.db (patch_campaign username id body w.db))
  act w (grows caller id search_id label items) = at_db w (
      kept (λ grown. grown.0) w.db
        (add_campaign_source s.platform s.env s.settings s.lower caller w.now id search_id label
          items w.db))
  act w (starts caller id) =
      at_db w (kept (λ db. db) w.db (start_campaign s.platform s.env caller id w.db))
  act w (resumes caller id) =
      at_db w (kept (λ db. db) w.db (resume_campaign s.platform s.env caller id w.db))
  act w (pauses id) = at_db w (kept {E = Refusal N} (λ db. db) w.db (pause_campaign id w.db))
  act w (cancels id) = at_db w (kept {E = Refusal N} (λ db. db) w.db (cancel_campaign id w.db))
  act w (caps value) = at_db w (set_global_per_domain_cap value w.db)

  -- Actions, each after a time.
  unfoldable pub run : World → List (ℕ × Action) → World
  unfolding act
  run w [] = w
  run w ((elapsed, action) ∷ actions) =
      run (act (record w { now = w.now + elapsed }) action) actions
