-- ===== src/Mail/Lifecycle/Gate.antt =====
-- What lets a campaign start (`gate_and_start_campaign` of mail/app/routers/mail.py, over `require_confirmation`
-- of libs/fm_runtime/fm_runtime/confirmation.py).
use funnelmanager.Prelude.{
  Bool, Bool-cases, Option-cases, Result, Text, [], arith, codes, err, false, inl, inr, non_empty,
  none, not, ok, refl, some, strip, sym, text_eq, true, ℕ, ◌&&◌, ◌++◌, ◌<◌, ◌==◌, ◌||◌, ◌∙◌, ◌≡◌,
}
use funnelmanager.Prelude.Int.{pos}
use funnelmanager.Runtime.Json.{Fields, entries, obj}
use funnelmanager.Runtime.Confirmation.{
  text_or, NotAscii, Platform, approval_prefix, approval_secret, decoded_payload, sign,
  verify_human_approval,
}
use funnelmanager.Runtime.Confirmation.Require.{
  Request, Verdict, agent_gate, approval, approval_required, failed, origin_of, proceed,
  require_confirmation, subject_of,
}
use funnelmanager.Runtime.Confirmation.Verify.{Approves, joined}
use funnelmanager.Runtime.Confirmation.Gate.{require_confirmation_agent}
use funnelmanager.Mail.Rows.{Campaign, Db, edit_campaign, get_campaign, pending_count}
use funnelmanager.Mail.Lifecycle.{
  Caller, GateEnv, with_campaign, admitted, ask, gate_and_start_campaign, is_draft, is_over,
  launched, start_campaign, start_request,
}

module _ {N : Type 0} (p : Platform N) (env : GateEnv N) (caller : Caller) where
  -- The gate of an agent returns the estimate that it was asked about.
  ask_estimate :
      (r : Request N) (e : N)
      → text_eq caller.origin (codes "agent") ≡ true
      → p.le r.estimate r.threshold ≡ false
      → ask p env caller r ≡ proceed e
      → ask p env caller r ≡ proceed r.estimate
  unfolding require_confirmation agent_gate origin_of
  ask_estimate r e a o h =
      rw (a, o, require_confirmation)
        (go
          (verify_human_approval p env.now env.environ r.human_approval r.action r.estimate
            (subject_of env.principal (some caller.username)) r.secret r.consumed)
          (ground arith))
    where
      go :
          (v : Result NotAscii Bool)
          → ◌≡◌ {A = Verdict N}
              (elim v [
                | ok true ↦ proceed r.estimate
                | ok false ↦ approval (
                    approval_required p r
                      (text_or (subject_of env.principal (some caller.username)) []))
                | err raised ↦ failed raised
              ])
              (proceed e)
          → ◌≡◌ {A = Verdict N}
              (elim v [
                | ok true ↦ proceed r.estimate
                | ok false ↦ approval (
                    approval_required p r
                      (text_or (subject_of env.principal (some caller.username)) []))
                | err raised ↦ failed raised
              ])
              (proceed r.estimate)
      go (ok true) h = refl
      go (ok false) h = cc
      go (err x) h = cc

  -- An approval of a human for one action and estimate, now.
  pub record Approved (action : Text) (estimate : N) : Type 0 where
    pub payload_b64 : Text
    pub payload : Fields N
    pub secret : non_empty (approval_secret env.environ none) ≡ true
    pub token :
        caller.human_approval
        ≡ some (
            joined approval_prefix payload_b64
              (sign p (approval_secret env.environ none) payload_b64))
    pub decoded : decoded_payload p payload_b64 ≡ some (obj payload)
    pub approves :
        Approves p env.now none action estimate
          (subject_of env.principal (some caller.username))
          (entries payload)

  ask_agent :
      (c : Campaign) (n : ℕ) (e : N)
      → text_eq caller.origin (codes "agent") ≡ true
      → p.le (p.of_int (pos n)) env.threshold ≡ false
      → ask p env caller (start_request p env caller c n) ≡ proceed e
      → Approved (codes "mail_campaign_start:" ++ p.show_int (pos c.id)) (p.of_int (pos n))
  unfolding origin_of
  ask_agent c n e a o h =
      let r = start_request p env caller c n in
      let (b, fs, s, t, d, v) =
        require_confirmation_agent p env.now env.environ env.principal (some caller.origin)
          (some caller.username) r a o (ask_estimate r e a o h) in
      record { payload_b64 = b; payload = fs; secret = s; token = t; decoded = d; approves = v }

  admitted_ok :
      {A : Type 0} (v : Verdict N) (a b : A)
      → admitted v a ≡ ok b
      → (e : N) × (v ≡ proceed e) × (a ≡ b)
  unfolding admitted
  admitted_ok (proceed e) a b h = (e, refl, cc)
  admitted_ok (Verdict.confirmation d) a b h = cc
  admitted_ok (Verdict.approval d) a b h = cc
  admitted_ok (Verdict.failed x) a b h = cc

  -- The guards before the gate.
  gate_ok :
      (c : Campaign) (db db' : Db)
      → gate_and_start_campaign p env caller c db ≡ ok db'
      → (is_over c.status ≡ false)
        × ((is_draft c.status && (pending_count db c.id == 0 || not (non_empty (strip c.subject))))
            ≡ false)
        × (admitted
              (ask p env caller (start_request p env caller c (pending_count db c.id)))
              (edit_campaign c.id launched db)
            ≡ ok db')
  unfolding gate_and_start_campaign
  gate_ok c db db' h = elim (Bool-cases (is_over c.status)) [
    | inl y ↦ ground arith
    | inr o ↦
        elim (Bool-cases (
          is_draft c.status && (pending_count db c.id == 0 || not (non_empty (strip c.subject))))) [
            | inl y ↦ ground arith
            | inr d ↦
                let same : gate_and_start_campaign p env caller c db
                    ≡ admitted
                        (ask p env caller (start_request p env caller c (pending_count db c.id)))
                        (edit_campaign c.id launched db) =
                  rw (o, gate_and_start_campaign) (rw d refl) in
                (o, d, sym same ∙ h)
          ]
  ]

  start_found :
      (id : ℕ) (c : Campaign) (db : Db)
      → get_campaign db.campaigns id ≡ some c
      → start_campaign p env caller id db ≡ gate_and_start_campaign p env caller c db
  unfolding start_campaign
  start_found id c db q = rw (q, with_campaign) refl

  -- A campaign that starts is there and not over, and a draft has recipients to send to and a subject; what
  -- changes is its status and its last error. Where an agent starts one with more recipients to send to
  -- than the threshold, a human has approved the start of this campaign at about this size.
  pub start_campaign_gated :
      (id : ℕ) (db db' : Db)
      → start_campaign p env caller id db ≡ ok db'
      → (c : Campaign) × (get_campaign db.campaigns id ≡ some c)
        × (is_over c.status ≡ false)
        × (is_draft c.status ≡ true
            → (0 < pending_count db c.id) × (non_empty (strip c.subject) ≡ true))
        × (db' ≡ edit_campaign c.id launched db)
        × (text_eq caller.origin (codes "agent") ≡ true
            → p.le (p.of_int (pos (pending_count db c.id))) env.threshold ≡ false
            → Approved
                (codes "mail_campaign_start:" ++ p.show_int (pos c.id))
                (p.of_int (pos (pending_count db c.id))))
  unfolding start_campaign gate_and_start_campaign
  start_campaign_gated id db db' h = elim (Option-cases (get_campaign db.campaigns id)) [
    | inl n ↦ ground arith
    | inr (c, q) ↦
        let same : start_campaign p env caller id db ≡ gate_and_start_campaign p env caller c db =
          start_found id c db q in
        let (o, d, g) = gate_ok c db db' (sym same ∙ h) in
        let (e, v, m) = admitted_ok _ _ db' g in
        (c, q, o, (λ y. ground arith), sym m, λ a l. ask_agent c (pending_count db c.id) e a l v)
  ]
