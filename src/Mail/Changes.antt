-- ===== src/Mail/Changes.antt =====
-- What the requests that send nothing may change (mail/app/routers/mail.py), and the states of a campaign as
-- a machine.
use funnelmanager.Prelude.{
  ==_iff, Bool, Bool-cases, List, Option, Option-cases, Result, Text, [], ap, arith, err, false,
  if◌then◌else◌, inl, inr, length, non_empty, none, not, ok, refl, some, strip, suc, sym, text_eq,
  true, ℕ, ◌&&◌, ◌++◌, ◌==◌, ◌||◌, ◌∙◌, ◌∷◌, ◌≡◌, ◌⊎◌,
}
use mathlib.Core.Path.{subst}
use funnelmanager.Runtime.Confirmation.Require.{Verdict, proceed}
use funnelmanager.Mail.Rows.{
  MailAccount, Db, Settings, Campaign, pending_count, CampaignStatus, draft, running, paused,
  completed, cancelled, edit_campaign, get_campaign, is_running,
}
use funnelmanager.Mail.Quota.{campaign_send_volume}
use funnelmanager.Mail.Sources.{Item, add_source}
use funnelmanager.Mail.Drafts.{
  http, SourceIn, add_sources, create_campaign, is_send_strategy, update_campaign, edited,
  CampaignUpdate, new_campaign,
}
use funnelmanager.Mail.Lifecycle.{
  Refusal, Caller, admitted, ask, gate_and_start_campaign, is_draft, is_over, is_paused, launched,
  with_campaign, raise_http, grow_request,
}
use funnelmanager.Mail.Tick.{Turn, run_cycle, senders_of, tick_locked}
use funnelmanager.Mail.Quota.{enforce_direct_send}
use funnelmanager.Mail.Send.{SendRequest, all_recipients, send_refused}
use funnelmanager.Mail.Runs.{
  Action, World, Deployment, act, kept, creates, patches, grows, starts, resumes, pauses, cancels,
}

-- The machine of a campaign: a state that is over is never left.
pub data Move : CampaignStatus → CampaignStatus → Type 0 where
  stay : (s : CampaignStatus) → Move s s
  start : (s : CampaignStatus) → is_over s ≡ false → Move s running
  pause : Move running paused
  cancel : (s : CampaignStatus) → is_over s ≡ false → Move s cancelled
  finish : Move running completed

pause_move : (s : CampaignStatus) → is_running s ≡ true → Move s paused
pause_move running h = Move.pause
pause_move _ h = cc

module _ (settings : Settings) (lower : Text → Text) where
  pub data Change : Db → Db → Type 0 where
    stays : {db : Db} → Change db db
    edits :
        {db : Db} (c : Campaign) (f : Campaign → Campaign)
        → get_campaign db.campaigns c.id ≡ some c
        → Move c.status (f c).status
        → ((x : Campaign) → (f x).id ≡ x.id)
        → Change db (edit_campaign c.id f db)
    drafts :
        {db : Db} (c : Campaign)
        → c.status ≡ draft
        → Change db (record db { campaigns = db.campaigns ++ c ∷ [] })
    grown :
        {db : Db} (now id : ℕ) (search_id label added_by : Text) (items : List Item)
        → Change db (add_source settings lower now id search_id label added_by items db).0
    chain : {db a b : Db} → Change db a → Change a b → Change db b

pub get_campaign_id :
    (cs : List Campaign) (id : ℕ) (c : Campaign) → get_campaign cs id ≡ some c → c.id ≡ id
unfolding get_campaign
get_campaign_id [] id c h = cc
get_campaign_id (x ∷ cs) id c h = ground (arith, get_campaign_id cs id c, ==_iff x.id id)

module _ {ℓ} {E : Type 0} {A : Type ℓ} (P : Db → Type 0) where
  -- What holds of the tables before and after a request holds of what it leaves.
  kept_lem :
      (f : A → Db) (db : Db) (r : Result E A)
      → P db
      → ((a : A) → r ≡ ok a → P (f a))
      → P (kept f db r)
  unfolding kept
  kept_lem f db (err e) h k = h
  kept_lem f db (ok a) h k = k a refl

-- An action that is no cycle, no send and no change of the cap.
unfoldable pub is_quiet : Action → Bool
is_quiet (Action.ticks id ts) = false
is_quiet (Action.sends a b x) = false
is_quiet (Action.caps n) = false
is_quiet _ = true

module _ {N : Type 0} (s : Deployment N) where
  abbrev Changes : Db → Db → Type 0
  Changes a b = Change s.settings s.lower a b

  add_sources-Change :
      (now id : ℕ) (owner : Text) (ss : List SourceIn) (db : Db)
      → Changes db (add_sources s.settings s.lower now id owner ss db)
  unfolding add_sources
  add_sources-Change now id owner [] db = Change.stays
  add_sources-Change now id owner (x ∷ ss) db =
      Change.chain (Change.grown now id x.search_id x.label owner x.recipients)
        (add_sources-Change now id owner ss _)

  admitted-Change :
      {A : Type 0} (f : A → Db) (db : Db) (v : Verdict N) (a : A)
      → Changes db (f a)
      → Changes db (kept f db (admitted v a))
  unfolding kept admitted
  admitted-Change f db (proceed e) a h = h
  admitted-Change f db (Verdict.confirmation d) a h = Change.stays
  admitted-Change f db (Verdict.approval d) a h = Change.stays
  admitted-Change f db (Verdict.failed e) a h = Change.stays

  gate-Change :
      (caller : Caller) (c : Campaign) (db : Db)
      → get_campaign db.campaigns c.id ≡ some c
      → Changes db (kept (λ db. db) db (gate_and_start_campaign s.platform s.env caller c db))
  unfolding gate_and_start_campaign kept
  gate-Change caller c db q =
      let n = pending_count db c.id in
      elim (Bool-cases (is_over c.status)) [
        | inl y ↦ rw y Change.stays
        | inr o ↦
            elim (Bool-cases (is_draft c.status && (n == 0 || not (non_empty (strip c.subject))))) [
              | inl y ↦ rw (o, y) Change.stays
              | inr m ↦
                  rw (o, m)
                    (admitted-Change (λ db. db) db _ _
                      (Change.edits c launched q (Move.start c.status o) (λ x. refl)))
            ]
      ]

  -- A handler that loads its campaign.
  with_campaign-Change :
      {A : Type 0} (f : A → Db) (id : ℕ) (db : Db) (k : Campaign → Result (Refusal N) A)
      → ((c : Campaign)
          → get_campaign db.campaigns c.id ≡ some c
          → c.id ≡ id
          → Changes db (kept f db (k c)))
      → Changes db (kept f db (with_campaign id db k))
  unfolding kept
  with_campaign-Change f id db k h = elim (Option-cases (get_campaign db.campaigns id)) [
    | inl n ↦ rw (n, kept) Change.stays
    | inr (c, q) ↦
        let e = get_campaign_id db.campaigns id c q in
        rw (q, kept) (h c (ap (get_campaign db.campaigns) e ∙ q) e)
  ]

  edits-Change :
      (id : ℕ) (c : Campaign) (f : Campaign → Campaign) (db : Db)
      → get_campaign db.campaigns id ≡ some c
      → c.id ≡ id
      → Move c.status (f c).status
      → ((x : Campaign) → (f x).id ≡ x.id)
      → Changes db (edit_campaign id f db)
  edits-Change id c f db q e m k =
      subst (λ j. Changes db (edit_campaign j f db)) e
        (Change.edits c f (ap (get_campaign db.campaigns) e ∙ q) m k)

  patch-Change :
      (id : ℕ) (body : CampaignUpdate) (c : Campaign) (db : Db)
      → get_campaign db.campaigns id ≡ some c
      → c.id ≡ id
      → Changes db (kept {E = Refusal N} (λ db. db) db (raise_http (update_campaign id body db)))
  unfolding update_campaign raise_http kept edited
  patch-Change id body c db q e =
      let done = edits-Change id c (edited body) db q e (Move.stay c.status) (λ x. refl) in
      go body.send_strategy done
    where
      go :
          (o : Option Text)
          → Changes db (edit_campaign id (edited body) db)
          → Changes db (
              kept {E = Refusal N}
                (λ db. db)
                db
                (raise_http (elim o [
                  | none ↦ ok (edit_campaign id (edited body) db)
                  | some value ↦
                      if is_send_strategy value
                      then ok (edit_campaign id (edited body) db)
                      else err (http 422)
                ])))
      go none h = h
      go (some value) h = elim (Bool-cases (is_send_strategy value)) [
        | inl y ↦ rw (y, kept, raise_http) h
        | inr n ↦ rw (n, kept, raise_http) Change.stays
      ]

  -- Every such request, however it ends.
  pub act-Change : (w : World) (a : Action) → is_quiet a ≡ true → Changes w.db (act s w a).db
  unfolding act is_quiet
  act-Change w (creates body) h = elim (Bool-cases (is_send_strategy body.send_strategy)) [
    | inl y ↦
        rw (y, kept, create_campaign)
          (Change.chain (Change.drafts (new_campaign (suc (length w.db.campaigns)) body) refl)
            (add_sources-Change w.now _ body.owner body.sources _))
    | inr n ↦ rw (n, kept, create_campaign) Change.stays
  ]
  act-Change w (patches username id body) h = with_campaign-Change _ id w.db _ (λ c q e.
      elim (Bool-cases (text_eq c.owner username)) [
        | inr n ↦ rw (n, kept) Change.stays
        | inl y ↦ elim (Bool-cases (is_draft c.status)) [
          | inr n ↦ rw (y, n, kept) Change.stays
          | inl d ↦
              rw (y, d, kept)
                (patch-Change id body c w.db (sym (ap (get_campaign w.db.campaigns) e) ∙ q) e)
        ]
      ])
  act-Change w (grows caller id search_id label items) h =
      with_campaign-Change _ id w.db _ (λ c q e.
        admitted-Change (λ grown. grown.0) w.db
          (ask s.platform s.env caller (
            grow_request s.platform s.env caller c (
              campaign_send_volume
                (add_source s.settings s.lower w.now c.id search_id label caller.username items
                  w.db).0
                c.id)))
          (add_source s.settings s.lower w.now c.id search_id label caller.username items w.db)
          (Change.grown w.now c.id search_id label caller.username items))
  act-Change w (starts caller id) h =
      with_campaign-Change _ id w.db _ (λ c q e. gate-Change caller c w.db q)
  act-Change w (resumes caller id) h = with_campaign-Change _ id w.db _ (λ c q e.
      elim (Bool-cases (is_paused c.status)) [
        | inl y ↦ rw (y, kept) (gate-Change caller c w.db q)
        | inr n ↦ rw (n, kept) Change.stays
      ])
  act-Change w (pauses id) h = with_campaign-Change _ id w.db _ (λ c q e.
      elim (Bool-cases (is_running c.status)) [
        | inl y ↦
            rw (y, kept)
              (edits-Change id c _ w.db (sym (ap (get_campaign w.db.campaigns) e) ∙ q) e
                (pause_move c.status y) (λ x. refl))
        | inr n ↦ rw (n, kept) Change.stays
      ])
  act-Change w (cancels id) h = with_campaign-Change _ id w.db _ (λ c q e.
      elim (Bool-cases (is_over c.status)) [
        | inl y ↦ rw (y, kept) Change.stays
        | inr n ↦
            rw (n, kept)
              (edits-Change id c _ w.db (sym (ap (get_campaign w.db.campaigns) e) ∙ q) e
                (Move.cancel c.status n) (λ x. refl))
      ])
  act-Change w (Action.ticks id ts) h = cc
  act-Change w (Action.sends a b x) h = cc
  act-Change w (Action.caps n) h = cc

-- What a cycle comes to: nothing, or the run of a campaign that is running.
pub tick_locked-cases :
    (settings : Settings) (lower : Text → Text) (id : ℕ) (ts : List Turn) (now : ℕ) (db : Db)
    → (tick_locked settings lower id ts now db ≡ (db, now))
      ⊎ ((c : Campaign) × (get_campaign db.campaigns id ≡ some c)
          × (is_running c.status ≡ true)
          × (tick_locked settings lower id ts now db ≡ (
            (run_cycle settings lower (senders_of c db) ts now db).db,
            (run_cycle settings lower (senders_of c db) ts now db).now,
          )))
unfolding tick_locked
tick_locked-cases settings lower id ts now db = elim (Option-cases (get_campaign db.campaigns id)) [
  | inl n ↦ inl (rw (n, tick_locked) refl)
  | inr (c, q) ↦ elim (Bool-cases (is_running c.status)) [
    | inr n ↦ inl (rw (q, tick_locked) (rw n refl))
    | inl y ↦ inr (c, q, y, rw (q, tick_locked) (rw y refl))
  ]
]

-- The rows that a send writes, and the cap, of two tables.
pub record SameLog (a b : Db) : Type 0 where
  pub messages : b.messages ≡ a.messages
  pub cap_row : b.cap_row ≡ a.cap_row

pub Change-SameLog :
    (settings : Settings) (lower : Text → Text) (a b : Db) → Change settings lower a b → SameLog a b
unfolding add_source
Change-SameLog settings lower a b Change.stays = record { messages = refl; cap_row = refl }
Change-SameLog settings lower a b (Change.edits c f q m k) = record {
  messages = refl;
  cap_row = refl;
}
Change-SameLog settings lower a b (Change.drafts c q) = record { messages = refl; cap_row = refl }
Change-SameLog settings lower a b (Change.grown now id x y z items) = record {
  messages = refl;
  cap_row = refl;
}
Change-SameLog settings lower a b (Change.chain {a = m} p q) =
    let left = Change-SameLog settings lower a m p in
    let right = Change-SameLog settings lower m b q in
    record { messages = right.messages ∙ left.messages; cap_row = right.cap_row ∙ left.cap_row }

-- A send outside campaigns that is not refused is not kept back.
pub send_refused-enforce :
    (settings : Settings) (lower : Text → Text) (valid : Text → Bool) (archived : ℕ → Option ℕ)
    (now : ℕ) (a : MailAccount) (body : SendRequest) (db : Db)
    → send_refused settings lower valid archived now a body db ≡ none
    → enforce_direct_send settings lower now db a (all_recipients body) ≡ none
unfolding send_refused
send_refused-enforce settings lower valid archived now a body db h =
    elim (Option-cases (enforce_direct_send settings lower now db a (all_recipients body))) [
      | inl n ↦ n
      | inr (e, q) ↦ ground arith
    ]
