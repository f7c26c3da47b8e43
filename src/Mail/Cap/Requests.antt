-- ===== src/Mail/Cap/Requests.antt =====
-- A cycle or a send outside campaigns keeps every domain within the cap (mail/app/campaigns.py,
-- mail/app/routers/mail.py).
use funnelmanager.Prelude.{
  All, All-append, Bool, List, Option, Option-cases, Result, Text, [], arith, codes, count,
  count-append, err, if◌then◌else◌, inl, inr, keep, length, ltb, map, none, not, ok, refl, some,
  text_eq, text_eq_iff, text_eq_refl, ℕ, ◌&&◌, ◌++◌, ◌+◌, ◌/◌, ◌==◌, ◌∷◌, ◌≡◌, ◌≤◌, ◌⊎◌,
}
use funnelmanager.Prelude.Dicts
use funnelmanager.Mail.Rows.{CampaignMessage, Db, MailAccount, Settings}
use funnelmanager.Mail.Suppression.{contacted_set, day_us}
use funnelmanager.Mail.Quota.{
  get_or_0, direct_message, enforce_direct_send, get_global_per_domain_cap,
  global_domain_sent_today, is_nil, normalized_set, record_direct_send, sent_today,
}
use funnelmanager.Mail.Drafts.{http}
use funnelmanager.Mail.Tick.{Turn, is_sender, run_cycle, senders_of, tick_locked}
use funnelmanager.Mail.Send.{
  Exchange, GmailFault, SendRequest, all_recipients, do_fault, do_answer, all_recipients,
  GmailFault, auth, fault, do_send, send_refused, auth, fault,
}
use funnelmanager.Mail.Changes.{SameLog, send_refused-enforce, tick_locked-cases}
use funnelmanager.Mail.Cap.Days.{
  IsDated, IsDated-later, count-sent_today, day_count, day_count_later, on_day, on_day_sent,
}
use funnelmanager.Mail.Cap.Budget.{group_by_domain-Pools}
use funnelmanager.Mail.Cap.Cycles.{run_cycle-Steady, start_Steady}

-- The log is not ahead of the clock, the cap in force is at most `cap`, and no domain has sent more than
-- that on any day.
pub record Capped (cap : ℕ) (settings : Settings) (db : Db) (now : ℕ) : Type 0 where
  pub dated : All (IsDated now) db.messages
  pub days : (k : ℕ) (d : Text) → day_count k d db.messages ≤ cap
  pub limit : get_global_per_domain_cap settings db ≤ cap

module _ (cap : ℕ) (settings : Settings) where
  limit_same :
      (a b : Db)
      → b.cap_row ≡ a.cap_row
      → get_global_per_domain_cap settings a ≤ cap
      → get_global_per_domain_cap settings b ≤ cap
  unfolding get_global_per_domain_cap
  limit_same a b q l = rw q l

  pub same_Capped :
      (a b : Db) (now : ℕ) → SameLog a b → Capped cap settings a now → Capped cap settings b now
  same_Capped a b now e c = record {
    dated = rw e.messages c.dated;
    days = λ k d. rw e.messages (c.days k d);
    limit = limit_same a b e.cap_row c.limit;
  }

  pub later_Capped :
      (db : Db) (now t : ℕ) → Capped cap settings db now → Capped cap settings db (now + t)
  later_Capped db now t c = record {
    dated = IsDated-later now (now + t) db.messages (omega arith) c.dated;
    days = c.days;
    limit = c.limit;
  }

  pub tick-Capped :
      (lower : Text → Text) (id : ℕ) (ts : List Turn) (now : ℕ) (db : Db)
      → Capped cap settings db now
      → Capped cap settings
          (tick_locked settings lower id ts now db).0
          (tick_locked settings lower id ts now db).1
  unfolding senders_of get_or_0 Dicts.get
  tick-Capped lower id ts now db c = elim (tick_locked-cases settings lower id ts now db) [
    | inl n ↦ rw n c
    | inr (x, q, y, e) ↦
        let start = now / day_us in
        let senders = senders_of x db in
        let end =
          run_cycle-Steady cap start settings lower senders ts now db
            (group_by_domain-Pools (keep (is_sender x) db.accounts) [] (λ d pool r. cc))
            (start_Steady cap start settings lower senders now db refl c.dated c.days c.limit)
            (record {
              dated = c.dated;
              within = λ k d. ground (arith, c.days k d);
              begun = omega arith;
            }) in
        let done = run_cycle settings lower senders ts now db in
        rw e (record {
          dated = end.0.dated;
          days = λ k d. omega (arith, end.0.within k d);
          limit = limit_same db done.db end.1 c.limit;
        })
  ]

  day_count_both :
      (k : ℕ) (d : Text) (xs ys : List CampaignMessage)
      → day_count k d (xs ++ ys) ≡ day_count k d xs + day_count k d ys
  unfolding day_count
  day_count_both k d xs ys = count-append (on_day k d) xs ys

  -- The rows of one send outside campaigns.
  direct_count :
      (now : ℕ) (a : MailAccount) (i t : Text) (es : List Text) (k : ℕ) (d : Text)
      → day_count k d (map (direct_message now a i t) es)
        ≡ (if text_eq a.domain d && now / day_us == k then length es else 0)
  unfolding day_count
  direct_count now a i t [] k d = ground arith
  direct_count now a i t (e ∷ es) k d = ground (
    arith,
    on_day_sent k now d (direct_message now a i t e) (text_eq_refl (codes "sent")) refl,
    direct_count now a i t es k d,
  )

  direct-IsDated :
      (now : ℕ) (a : MailAccount) (i t : Text) (es : List Text)
      → All (IsDated now) (map (direct_message now a i t) es)
  direct-IsDated now a i t [] = tt
  direct-IsDated now a i t (e ∷ es) = ((λ y. (now, refl, omega arith)), direct-IsDated now a i t es)

  -- What the guards let pass fits in the cap.
  enforce_room :
      (lower : Text → Text) (now : ℕ) (db : Db) (a : MailAccount) (es : List Text)
      → enforce_direct_send settings lower now db a es ≡ none
      → (length (normalized_set lower es) ≡ 0)
        ⊎ (count (sent_today now a.domain) db.messages + length (normalized_set lower es)
            ≤ get_global_per_domain_cap settings db)
  unfolding enforce_direct_send global_domain_sent_today
  enforce_room lower now db a es g = go (normalized_set lower es) g
    where
      go :
          (ns : List Text)
          → (if is_nil ns
              then none
              else if not (is_nil (contacted_set settings now db ns))
              then some (http 409)
              else if ltb
                  (get_global_per_domain_cap settings db)
                  (count (sent_today now a.domain) db.messages + length ns)
              then some (http 429)
              else none)
            ≡ none
          → (length ns ≡ 0)
            ⊎ (count (sent_today now a.domain) db.messages + length ns
                ≤ get_global_per_domain_cap settings db)
      go [] h = inl refl
      go (n ∷ ns) h = inr (ground arith)

  -- The rows of a send that the guards have let pass before, on whichever day they come.
  record_Capped :
      (lower : Text → Text) (now t : ℕ) (a : MailAccount) (es : List Text) (i h : Text) (db : Db)
      → enforce_direct_send settings lower now db a es ≡ none
      → Capped cap settings db now
      → Capped cap settings (record_direct_send lower (now + t) a es i h db) (now + t)
  unfolding record_direct_send get_global_per_domain_cap
  record_Capped lower now t a es i h db g c =
      let rows = map (direct_message (now + t) a i h) (normalized_set lower es) in
      let later = later_Capped db now t c in
      record {
        dated =
            All-append (IsDated (now + t)) db.messages rows later.dated
              (direct-IsDated (now + t) a i h (normalized_set lower es));
        days = λ k d.
            rw
              (
                day_count_both k d db.messages rows,
                direct_count (now + t) a i h (normalized_set lower es) k d,
              )
              (ground (
                arith,
                c.days k d,
                c.limit,
                enforce_room lower now db a es g,
                count-sent_today now d db.messages c.dated,
                day_count_later now k d db.messages c.dated,
                text_eq_iff a.domain d,
              ));
        limit = c.limit;
      }

  answer_Capped :
      (lower : Text → Text) (now t : ℕ) (a : MailAccount) (es : List Text)
      (r : Result GmailFault Text) (g : Result GmailFault (Text × Text)) (db : Db)
      → enforce_direct_send settings lower now db a es ≡ none
      → Capped cap settings db now
      → Capped cap settings (do_answer lower (now + t) a es r g db).0 (now + t)
  unfolding do_answer do_fault get_global_per_domain_cap
  answer_Capped lower now t a es (err (auth e)) g db h c =
      let later = later_Capped db now t c in
      record { dated = later.dated; days = c.days; limit = c.limit }
  answer_Capped lower now t a es (err (fault n)) g db h c = later_Capped db now t c
  answer_Capped lower now t a es (ok id) (err (auth e)) db h c =
      let later = later_Capped db now t c in
      record { dated = later.dated; days = c.days; limit = c.limit }
  answer_Capped lower now t a es (ok id) (err (fault n)) db h c = later_Capped db now t c
  answer_Capped lower now t a es (ok id) (ok (i, j)) db h c =
      record_Capped lower now t a es i j db h c

  pub send-Capped :
      (lower : Text → Text) (valid : Text → Bool) (archived : ℕ → Option ℕ) (now : ℕ)
      (a : MailAccount) (body : SendRequest) (x : Exchange) (db : Db)
      → Capped cap settings db now
      → Capped cap settings
          (do_send settings lower valid archived now a body x db).0
          (now + x.elapsed)
  unfolding do_send
  send-Capped lower valid archived now a body x db c =
      elim (Option-cases (send_refused settings lower valid archived now a body db)) [
        | inr (e, q) ↦ rw (q, do_send) (later_Capped db now x.elapsed c)
        | inl n ↦
            rw (n, do_send)
              (answer_Capped lower now x.elapsed a (all_recipients body) x.send x.get_message db
                (send_refused-enforce settings lower valid archived now a body db n) c)
      ]
