-- ===== src/Mail/States.antt =====
-- The service refines the machine of a campaign's states (mail/app/campaigns.py, mail/app/routers/mail.py).
use funnelmanager.Prelude.{
  ==_iff, All-In, Bool-cases, List, Option-cases, Result, Text, [], ap, arith, err, if◌then◌else◌,
  inl, inr, non_empty, none, ok, refl, some, sym, true, ℕ, ◌++◌, ◌+◌, ◌==◌, ◌∙◌, ◌∷◌, ◌≡◌, ◌⊎◌,
}
use mathlib.Core.Path.{subst}
use funnelmanager.Mail.Rows.{
  Campaign, CampaignRecipient, CampaignStatus, Db, MailAccount, Settings, completed, edit_campaigns,
  get_campaign, is_running, running,
}
use funnelmanager.Mail.Suppression.{norm_email, suppression_reason}
use funnelmanager.Mail.Sources.{add_source}
use funnelmanager.Mail.Lifecycle.{is_over}
use funnelmanager.Mail.Pacer.{GmailReply, accepted, auth_error, gmail_error, pick_domain, send_one}
use funnelmanager.Mail.Tick.{
  Cycle, Senders, Turn, choose_account, pass, send_from, send_next, senders_of, tick_locked,
}
use funnelmanager.Mail.Tick.Keeps.{IsCycleEdit, cycle_of, run_cycle_keeps}
use funnelmanager.Mail.Quota.{record_direct_send}
use funnelmanager.Mail.Send.{
  Exchange, GmailFault, SendRequest, all_recipients, auth, do_answer, do_fault, do_send, fault,
  send_refused,
}
use funnelmanager.Mail.Runs.{Action, Deployment, World, act, run}
use funnelmanager.Mail.Changes.{
  Change, Move, act-Change, get_campaign_id, is_quiet, tick_locked-cases,
}

-- Any number of moves.
pub data Moves : CampaignStatus → CampaignStatus → Type 0 where
  none_left : {s : CampaignStatus} → Moves s s
  then_move : {a b c : CampaignStatus} → Moves a b → Move b c → Moves a c

Moves-trans : {a b c : CampaignStatus} → Moves a b → Moves b c → Moves a c
Moves-trans p Moves.none_left = p
Moves-trans p (Moves.then_move q m) = Moves.then_move (Moves-trans p q) m

-- A state that is over is not left.
Move-is_over : {a b : CampaignStatus} → Move a b → is_over a ≡ true → b ≡ a
Move-is_over (Move.stay s) h = refl
Move-is_over (Move.start s n) h = cc
Move-is_over Move.pause h = cc
Move-is_over (Move.cancel s n) h = cc
Move-is_over Move.finish h = cc

Moves-is_over : {a b : CampaignStatus} → Moves a b → is_over a ≡ true → b ≡ a
Moves-is_over Moves.none_left h = refl
Moves-is_over (Moves.then_move p m) h =
    let e = Moves-is_over p h in Move-is_over m (ap is_over e ∙ h) ∙ e

-- A row of a table, and what has become of it.
pub record Came (cs : List Campaign) (id : ℕ) (status : CampaignStatus) : Type 0 where
  pub campaign : Campaign
  pub found : get_campaign cs id ≡ some campaign
  pub moves : Moves status campaign.status

get_campaign-edit_campaigns :
    (i : ℕ) (f : Campaign → Campaign) (cs : List Campaign) (j : ℕ)
    → ((x : Campaign) → (f x).id ≡ x.id)
    → get_campaign (edit_campaigns i f cs) j
      ≡ elim (get_campaign cs j) [ none ↦ none | some c ↦ if i == j then some (f c) else some c ]
unfolding get_campaign edit_campaigns
get_campaign-edit_campaigns i f [] j k = refl
get_campaign-edit_campaigns i f (c ∷ cs) j k =
    ground
      (arith, get_campaign-edit_campaigns i f cs j k, k c, ==_iff c.id i, ==_iff c.id j, ==_iff i j)

get_campaign-append :
    (cs ds : List Campaign) (j : ℕ) (c : Campaign)
    → get_campaign cs j ≡ some c
    → get_campaign (cs ++ ds) j ≡ some c
unfolding get_campaign
get_campaign-append [] ds j c h = cc
get_campaign-append (x ∷ cs) ds j c h = ground (arith, get_campaign-append cs ds j c)

edits-Came :
    (cs : List Campaign) (x : Campaign) (f : Campaign → Campaign)
    → get_campaign cs x.id ≡ some x
    → Move x.status (f x).status
    → ((y : Campaign) → (f y).id ≡ y.id)
    → (j : ℕ) (c : Campaign) → get_campaign cs j ≡ some c
    → Came (edit_campaigns x.id f cs) j c.status
edits-Came cs x f q m k j c h =
    let g = get_campaign-edit_campaigns x.id f cs j k in
    elim (Bool-cases (x.id == j)) [
      | inr n ↦ record { campaign = c; found = g ∙ ground arith; moves = Moves.none_left }
      | inl y ↦
          let e : x ≡ c = ground (arith, ==_iff x.id j) in
          record {
            campaign = f x;
            found = g ∙ ground arith;
            moves = Moves.then_move Moves.none_left (subst (λ w. Move w.status (f x).status) e m);
          }
    ]

module _ (settings : Settings) (lower : Text → Text) where
  Change-Came :
      (a b : Db)
      → Change settings lower a b
      → (j : ℕ) (c : Campaign) → get_campaign a.campaigns j ≡ some c
      → Came b.campaigns j c.status
  unfolding add_source
  Change-Came a b Change.stays j c h = record { campaign = c; found = h; moves = Moves.none_left }
  Change-Came a b (Change.edits x f q m k) j c h = edits-Came a.campaigns x f q m k j c h
  Change-Came a b (Change.drafts x q) j c h = record {
    campaign = c;
    found = get_campaign-append a.campaigns (x ∷ []) j c h;
    moves = Moves.none_left;
  }
  Change-Came a b (Change.grown now id x y z items) j c h = record {
    campaign = c;
    found = h;
    moves = Moves.none_left;
  }
  Change-Came a b (Change.chain {a = m} p q) j c h =
      let left = Change-Came a m p j c h in
      let right = Change-Came m b q j left.campaign left.found in
      record {
        campaign = right.campaign;
        found = right.found;
        moves = Moves-trans left.moves right.moves;
      }

-- A pass of the loop leaves the campaigns alone.
send_one_campaigns :
    (now : ℕ) (c : Campaign) (r : CampaignRecipient) (a : MailAccount) (reply : GmailReply)
    (db : Db)
    → (send_one now c r a reply db).0.campaigns ≡ db.campaigns
unfolding send_one
send_one_campaigns now c r a (accepted i t) db = refl
send_one_campaigns now c r a (auth_error t) db = refl
send_one_campaigns now c r a (gmail_error t) db = refl

send_next_campaigns :
    (f : Senders) (r : CampaignRecipient) (t : Turn) (s : Cycle)
    → (cycle_of (send_next f r t s)).db.campaigns ≡ s.db.campaigns
unfolding send_next send_from
send_next_campaigns f r t s =
    let d = pick_domain f.campaign.send_strategy f.domains s.budget in
    elim (Bool-cases (non_empty d)) [
      | inr m ↦ rw m refl
      | inl y ↦ elim (Option-cases (choose_account f d s)) [
        | inl m ↦ rw (y, m) refl
        | inr (a, q) ↦
            rw (y, q) (send_one_campaigns (s.now + t.before_send) f.campaign r a t.reply s.db)
      ]
    ]

pass_campaigns :
    (settings : Settings) (lower : Text → Text) (f : Senders) (r : CampaignRecipient) (t : Turn)
    (s : Cycle)
    → (cycle_of (pass settings lower f r t s)).db.campaigns ≡ s.db.campaigns
unfolding pass
pass_campaigns settings lower f r t s =
    let now = s.now + t.before_check in
    elim (Bool-cases
      (non_empty (suppression_reason settings now s.db f.campaign.id (norm_email lower r.email)))) [
        | inl y ↦ rw y refl
        | inr n ↦ rw n (send_next_campaigns f r t (record s { now = now }))
      ]

is_running_lem : (s : CampaignStatus) → is_running s ≡ true → s ≡ running
is_running_lem running h = refl
is_running_lem _ h = cc

-- The campaigns during a cycle of a campaign that was running.
record Cycling (id : ℕ) (cs ds : List Campaign) : Type 0 where
  came : (j : ℕ) (c : Campaign) → get_campaign cs j ≡ some c → Came ds j c.status
  active :
      (c : Campaign) × (get_campaign ds id ≡ some c)
      × ((c.status ≡ running) ⊎ (c.status ≡ completed))

to_completed :
    (s t : CampaignStatus)
    → (s ≡ running) ⊎ (s ≡ completed)
    → (t ≡ s) ⊎ (t ≡ completed)
    → Move s t × ((t ≡ running) ⊎ (t ≡ completed))
to_completed s t a (inl f) =
    (subst (Move s) (sym f) (Move.stay s), elim a [ inl e ↦ inl (f ∙ e) | inr e ↦ inr (f ∙ e) ])
to_completed s t (inl e) (inr f) =
    (subst (λ x. Move x t) (sym e) (subst (Move running) (sym f) Move.finish), inr f)
to_completed s t (inr e) (inr f) = (subst (Move s) (e ∙ sym f) (Move.stay s), inr f)

edit_Cycling :
    (id : ℕ) (cs ds : List Campaign) (g : Campaign → Campaign)
    → IsCycleEdit g
    → Cycling id cs ds
    → Cycling id cs (edit_campaigns id g ds)
edit_Cycling id cs ds g e c =
    let (a, q, s) = c.active in
    let i = get_campaign_id ds id a q in
    let (m, t) = to_completed a.status (g a).status s (e a).1 in
    let found = ap (get_campaign ds) i ∙ q in
    record {
      came = λ j x r.
          let y = c.came j x r in
          let z = edits-Came ds a g found m (λ x. (e x).0) j y.campaign y.found in
          record {
            campaign = z.campaign;
            found = ap (λ k. get_campaign (edit_campaigns k g ds) j) (sym i) ∙ z.found;
            moves = Moves-trans y.moves z.moves;
          };
      active = (g a, get_campaign-edit_campaigns id g ds id (λ x. (e x).0) ∙ ground arith, t);
    }

module _ {N : Type 0} (s : Deployment N) where
  tick-Came :
      (id : ℕ) (ts : List Turn) (now : ℕ) (db : Db) (j : ℕ) (c : Campaign)
      → get_campaign db.campaigns j ≡ some c
      → Came (tick_locked s.settings s.lower id ts now db).0.campaigns j c.status
  unfolding senders_of
  tick-Came id ts now db j c h = elim (tick_locked-cases s.settings s.lower id ts now db) [
    | inl n ↦ rw n (record { campaign = c; found = h; moves = Moves.none_left })
    | inr (x, q, y, e) ↦
        let f = senders_of x db in
        let i = get_campaign_id db.campaigns id x q in
        let begin : Cycling x.id db.campaigns db.campaigns = record {
          came = λ k d r. record { campaign = d; found = r; moves = Moves.none_left };
          active = (x, ap (get_campaign db.campaigns) i ∙ q, inl (is_running_lem x.status y));
        } in
        let end =
          run_cycle_keeps s.settings s.lower f (λ u. Cycling x.id db.campaigns u.db.campaigns)
            (λ r. Unit)
            (λ r t u a v.
              subst (Cycling x.id db.campaigns) (sym (pass_campaigns s.settings s.lower f r t u)) v)
            (λ g u a v. edit_Cycling x.id db.campaigns u.db.campaigns g a v) ts now db begin begin
            (All-In (λ r. Unit) _ (λ r k. tt)) in
        rw e (end.came j c h)
  ]

  answer_campaigns :
      (now : ℕ) (a : MailAccount) (es : List Text) (r : Result GmailFault Text)
      (g : Result GmailFault (Text × Text)) (db : Db)
      → (do_answer s.lower now a es r g db).0.campaigns ≡ db.campaigns
  unfolding do_answer do_fault record_direct_send
  answer_campaigns now a es (err (auth e)) g db = refl
  answer_campaigns now a es (err (fault n)) g db = refl
  answer_campaigns now a es (ok id) (err (auth e)) db = refl
  answer_campaigns now a es (ok id) (err (fault n)) db = refl
  answer_campaigns now a es (ok id) (ok (i, j)) db = refl

  send_campaigns :
      (now : ℕ) (a : MailAccount) (body : SendRequest) (x : Exchange) (db : Db)
      → (do_send s.settings s.lower s.valid s.archived now a body x db).0.campaigns ≡ db.campaigns
  unfolding do_send
  send_campaigns now a body x db =
      elim (Option-cases (send_refused s.settings s.lower s.valid s.archived now a body db)) [
        | inr (e, q) ↦ rw (q, do_send) refl
        | inl n ↦
            rw (n, do_send)
              (answer_campaigns (now + x.elapsed) a (all_recipients body) x.send x.get_message db)
      ]

  same_Came :
      (cs ds : List Campaign) (j : ℕ) (c : Campaign)
      → ds ≡ cs
      → get_campaign cs j ≡ some c
      → Came ds j c.status
  same_Came cs ds j c e h = record {
    campaign = c;
    found = ap (λ x. get_campaign x j) e ∙ h;
    moves = Moves.none_left;
  }

  quiet_Came :
      (w : World) (a : Action) (j : ℕ) (c : Campaign)
      → is_quiet a ≡ true
      → get_campaign w.db.campaigns j ≡ some c
      → Came (act s w a).db.campaigns j c.status
  quiet_Came w a j c q h =
      Change-Came s.settings s.lower w.db (act s w a).db (act-Change s w a q) j c h

  act-Came :
      (w : World) (a : Action) (j : ℕ) (c : Campaign)
      → get_campaign w.db.campaigns j ≡ some c
      → Came (act s w a).db.campaigns j c.status
  unfolding act is_quiet
  act-Came w (Action.ticks id ts) j c h = tick-Came id ts w.now w.db j c h
  act-Came w (Action.sends a body x) j c h =
      same_Came _ _ j c (send_campaigns w.now a body x w.db) h
  act-Came w (Action.caps value) j c h = same_Came _ _ j c refl h
  act-Came w (Action.creates body) j c h = quiet_Came w (Action.creates body) j c refl h
  act-Came w (Action.patches u i body) j c h = quiet_Came w (Action.patches u i body) j c refl h
  act-Came w (Action.grows u i x y z) j c h = quiet_Came w (Action.grows u i x y z) j c refl h
  act-Came w (Action.starts u i) j c h = quiet_Came w (Action.starts u i) j c refl h
  act-Came w (Action.resumes u i) j c h = quiet_Came w (Action.resumes u i) j c refl h
  act-Came w (Action.pauses i) j c h = quiet_Came w (Action.pauses i) j c refl h
  act-Came w (Action.cancels i) j c h = quiet_Came w (Action.cancels i) j c refl h

  run-Came :
      (actions : List (ℕ × Action)) (w : World) (j : ℕ) (c : Campaign)
      → get_campaign w.db.campaigns j ≡ some c
      → Came (run s w actions).db.campaigns j c.status
  unfolding run
  run-Came [] w j c h = record { campaign = c; found = h; moves = Moves.none_left }
  run-Came ((t, a) ∷ actions) w j c h =
      let u = record w { now = w.now + t } in
      let first = act-Came u a j c h in
      let rest = run-Came actions (act s u a) j first.campaign first.found in
      record {
        campaign = rest.campaign;
        found = rest.found;
        moves = Moves-trans first.moves rest.moves;
      }

  -- Over any requests and cycles, one after the other, with any answers of Gmail and with cycles that
  -- stop at any point, a campaign that is there stays there, its state goes along the moves of the
  -- machine, and one that is completed or cancelled stays so.
  pub run-Moves :
      (actions : List (ℕ × Action)) (w : World) (j : ℕ) (c : Campaign)
      → get_campaign w.db.campaigns j ≡ some c
      → (d : Campaign) × (get_campaign (run s w actions).db.campaigns j ≡ some d)
        × Moves c.status d.status
        × (is_over c.status ≡ true → d.status ≡ c.status)
  run-Moves actions w j c h =
      let end = run-Came actions w j c h in
      (end.campaign, end.found, end.moves, Moves-is_over end.moves)
