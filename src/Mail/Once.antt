-- ===== src/Mail/Once.antt =====
-- Whom the log has once: each person per campaign, and at all where there is no cooldown
-- (mail/app/campaigns.py, mail/app/routers/mail.py).
pub mod Reasons
pub mod Sends
pub mod Requests
use funnelmanager.Prelude.{
  All, Bool, Bool-cases, List, Option-cases, Result, Text, [], err, inl, inr, keep, none, ok, refl,
  suc, sym, take, true, zero, ℕ, ◌+◌, ◌∷◌, ◌≡◌,
}
use mathlib.Core.Path.{subst}
use funnelmanager.Mail.Rows.{
  Campaign, CampaignMessage, CampaignRecipient, Db, MailAccount, Settings, in_campaign, is_pending,
}
use funnelmanager.Mail.Suppression.{norm_email}
use funnelmanager.Mail.Pacer.{budget_of, total}
use funnelmanager.Mail.Quota.{record_direct_send, enforce_direct_send}
use funnelmanager.Mail.Tick.{Senders, Turn, pending_batch, run_cycle, senders_of, tick_locked}
use funnelmanager.Mail.Tick.Keeps.{run_cycle_keeps}
use funnelmanager.Mail.Send.{
  Exchange, GmailFault, SendRequest, all_recipients, auth, do_answer, do_fault, do_send, fault,
  send_refused,
}
use funnelmanager.Mail.Runs.{Action, Deployment, World, act, run}
use funnelmanager.Mail.Changes.{
  Change, act-Change, is_quiet, send_refused-enforce, tick_locked-cases, Change-SameLog,
}
use funnelmanager.Mail.Once.Sends.{Fresh, IsNormal, Single, pass-Fresh}
use funnelmanager.Mail.Once.Requests.{Change-IsNormal, record_Single}

module _ {ℓ κ} {A : Type ℓ} (P : A → Type κ) where
  All-keep : (p : A → Bool) (xs : List A) → All P xs → All P (keep p xs)
  All-keep p [] h = tt
  All-keep p (x ∷ xs) h = elim (Bool-cases (p x)) [
    | inl y ↦ rw (y, keep) (h.0, All-keep p xs h.1)
    | inr n ↦ rw (n, keep) (All-keep p xs h.1)
  ]

  All-take : (n : ℕ) (xs : List A) → All P xs → All P (take n xs)
  All-take zero xs h = tt
  All-take (suc n) [] h = tt
  All-take (suc n) (x ∷ xs) h = (h.0, All-take n xs h.1)

-- A service where every address is in its normal form, and the log has each person once.
pub record Clean (settings : Settings) (lower : Text → Text) (db : Db) : Type 0 where
  pub single : Single settings db.messages
  pub normal : All (IsNormal lower) db.recipients

module _ {N : Type 0} (s : Deployment N) where
  abbrev IsClean : Db → Type 0
  IsClean db = Clean s.settings s.lower db

  tick-Clean :
      (id : ℕ) (ts : List Turn) (now : ℕ) (db : Db)
      → IsClean db
      → IsClean (tick_locked s.settings s.lower id ts now db).0
  unfolding senders_of pending_batch
  tick-Clean id ts now db c = elim (tick_locked-cases s.settings s.lower id ts now db) [
    | inl n ↦ rw n c
    | inr (x, q, y, e) ↦
        let f = senders_of x db in
        let end =
          run_cycle_keeps s.settings s.lower f (Fresh s.settings s.lower) (IsNormal s.lower)
            (λ r t u. pass-Fresh s.settings s.lower f r t u) (λ g u i v. v) ts now db
            (c.single, c.normal) (c.single, c.normal)
            (All-take (IsNormal s.lower) _ _
              (All-keep (IsNormal s.lower) (in_campaign x.id is_pending) db.recipients c.normal)) in
        rw e (record { single = end.0; normal = end.1 })
  ]

  answer_Clean :
      (now t : ℕ) (a : MailAccount) (es : List Text) (r : Result GmailFault Text)
      (g : Result GmailFault (Text × Text)) (db : Db)
      → enforce_direct_send s.settings s.lower now db a es ≡ none
      → IsClean db
      → IsClean (do_answer s.lower (now + t) a es r g db).0
  unfolding do_answer do_fault record_direct_send
  answer_Clean now t a es (err (auth e)) g db h c = record { single = c.single; normal = c.normal }
  answer_Clean now t a es (err (fault n)) g db h c = c
  answer_Clean now t a es (ok id) (err (auth e)) db h c = record {
    single = c.single;
    normal = c.normal;
  }
  answer_Clean now t a es (ok id) (err (fault n)) db h c = c
  answer_Clean now t a es (ok id) (ok (i, j)) db h c = record {
    single = record_Single s.settings s.lower now (now + t) a es i j db h c.single;
    normal = c.normal;
  }

  send-Clean :
      (now : ℕ) (a : MailAccount) (body : SendRequest) (x : Exchange) (db : Db)
      → IsClean db
      → IsClean (do_send s.settings s.lower s.valid s.archived now a body x db).0
  unfolding do_send
  send-Clean now a body x db c =
      elim (Option-cases (send_refused s.settings s.lower s.valid s.archived now a body db)) [
        | inr (e, q) ↦ rw (q, do_send) c
        | inl n ↦
            rw (n, do_send)
              (answer_Clean now x.elapsed a (all_recipients body) x.send x.get_message db
                (send_refused-enforce s.settings s.lower s.valid s.archived now a body db n) c)
      ]

  module _
      (again : (v : Text) → norm_email s.lower (norm_email s.lower v) ≡ norm_email s.lower v) where
    quiet_Clean :
        (w : World) (a : Action) → is_quiet a ≡ true → IsClean w.db → IsClean (act s w a).db
    quiet_Clean w a h c =
        let change = act-Change s w a h in
        let same = Change-SameLog s.settings s.lower w.db (act s w a).db change in
        record {
          single = subst (Single s.settings) (sym same.messages) c.single;
          normal = Change-IsNormal s.settings s.lower again w.db (act s w a).db change c.normal;
        }

    act-Clean : (w : World) (a : Action) → IsClean w.db → IsClean (act s w a).db
    unfolding act is_quiet
    act-Clean w (Action.ticks id ts) c = tick-Clean id ts w.now w.db c
    act-Clean w (Action.sends a body x) c = send-Clean w.now a body x w.db c
    act-Clean w (Action.caps value) c = record { single = c.single; normal = c.normal }
    act-Clean w (Action.creates body) c = quiet_Clean w (Action.creates body) refl c
    act-Clean w (Action.patches u i body) c = quiet_Clean w (Action.patches u i body) refl c
    act-Clean w (Action.grows u i x y z) c = quiet_Clean w (Action.grows u i x y z) refl c
    act-Clean w (Action.starts u i) c = quiet_Clean w (Action.starts u i) refl c
    act-Clean w (Action.resumes u i) c = quiet_Clean w (Action.resumes u i) refl c
    act-Clean w (Action.pauses i) c = quiet_Clean w (Action.pauses i) refl c
    act-Clean w (Action.cancels i) c = quiet_Clean w (Action.cancels i) refl c

    -- Over any requests and cycles, one after the other, with any answers of Gmail and with cycles that
    -- stop at any point: where the normal form of an address is its own, every recipient's address is
    -- normal and the log has each person at most once per campaign, and at most once at all with no
    -- cooldown, it is so at the end.
    pub run-Clean :
        (actions : List (ℕ × Action)) (w : World) → IsClean w.db → IsClean (run s w actions).db
    unfolding run
    run-Clean [] w c = c
    run-Clean ((t, a) ∷ actions) w c =
        run-Clean actions (act s (record w { now = w.now + t }) a)
          (act-Clean (record w { now = w.now + t }) a c)
