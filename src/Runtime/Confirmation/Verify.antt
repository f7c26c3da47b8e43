-- ===== src/Runtime/Confirmation/Verify.antt =====
-- What an accepted approval shows (`verify_human_approval` of confirmation.py).
use funnelmanager.Prelude.{
  Bool, Bool-cases, Option, Option-cases, Text, [], after, and_true, ap, arith, before,
  before-after, codes, false, has_char, inl, inr, leb→le, non_empty, none, ok, refl, some, sym,
  text_eq, text_eq_iff, true, ◌&&◌, ◌++◌, ◌∙◌, ◌∷◌, ◌≡◌, ◌≤◌, ◌⊎◌,
}
use mathlib.Core.Path.{subst}
use funnelmanager.Prelude.Int.{ℤ}
use funnelmanager.Prelude.Dicts
use funnelmanager.Prelude.Dicts.{Dict}
use funnelmanager.Runtime.Json.{Json, Fields, null, bool, num, text, arr, obj, entries}
use funnelmanager.Runtime.Confirmation.{
  Platform, approval_prefix, distance, approval_secret, three_parts, ref_consumed, subject_ok,
  text_or, estimate_bucket, sign, number_of, integer_of, is_action, text_of, bucket_ok, expiry_ok,
  payload_ok, decoded_payload, decoded_ok, parts_ok, verify_human_approval,
}

-- The three parts joined: `".".join(…)`.
abbrev pub joined : Text → Text → Text → Text
joined prefix payload_b64 sig = prefix ++ (b'.' ∷ (payload_b64 ++ (b'.' ∷ sig)))

some_injective {ℓ} : {A : Type ℓ} (a b : A) → some a ≡ some b → a ≡ b
some_injective a b h = cc

token_of_parts : (t a b c : Text) → three_parts t ≡ some (a, b, c) → t ≡ joined a b c
unfolding three_parts
token_of_parts t a b c h = elim (Bool-cases (has_char b'.' t && has_char b'.' (after b'.' t))) [
  | inr n ↦ ground arith
  | inl q ↦
      let (here, there) = and_true _ _ q in
      let u = before-after b'.' t here in
      let v = before-after b'.' (after b'.' t) there in
      let w : (before b'.' t, before b'.' (after b'.' t), after b'.' (after b'.' t)) ≡ (a, b, c) =
        some_injective _ _ (sym (rw (q, three_parts) refl) ∙ h) in
      subst (λ x. t ≡ joined x.0 x.1 x.2) w (u ∙ ap (λ r. before b'.' t ++ (b'.' ∷ r)) v)
]

-- What the hook that is asked says of a reference: nothing was spent.
abbrev pub Unspent : Option (Text → Option Bool) → Text → Type 0
Unspent none ref = Unit
Unspent (some hook) ref = (ref ≡ []) ⊎ (hook ref ≡ some false)

ref_consumed-Unspent :
    (consumed : Option (Text → Option Bool)) (ref : Text)
    → ref_consumed consumed ref ≡ false
    → Unspent consumed ref
unfolding ref_consumed
ref_consumed-Unspent none ref h = tt
ref_consumed-Unspent (some hook) [] h = inl refl
ref_consumed-Unspent (some hook) (c ∷ ref) h =
    inr (elim (Option-cases (hook (c ∷ ref))) [ inl q ↦ ground arith | inr (b, q) ↦ ground arith ])

-- A token that names a human is the one of that human, and no other token has a subject.
abbrev pub SameSubject : Text → Option Text → Type 0
SameSubject token_sub subject =
    ((non_empty token_sub ≡ true) × (subject ≡ some token_sub))
    ⊎ ((token_sub ≡ []) × (text_or subject [] ≡ []))

subject_ok-SameSubject :
    (token_sub : Text) (subject : Option Text)
    → subject_ok token_sub subject ≡ true
    → SameSubject token_sub subject
unfolding subject_ok
subject_ok-SameSubject [] none h = inr (refl, refl)
subject_ok-SameSubject [] (some []) h = inr (refl, refl)
subject_ok-SameSubject [] (some (c ∷ s)) h = cc
subject_ok-SameSubject (d ∷ t) none h = cc
subject_ok-SameSubject (d ∷ t) (some s) h = inl (refl, ap some ((text_eq_iff s (d ∷ t)).0 h))

module _ {N : Type 0} (p : Platform N) where
  -- A payload that is good for an action, an estimate and a subject, at a time.
  pub record Approves (now : N) (consumed : Option (Text → Option Bool)) (action : Text)
      (estimate : N) (subject : Option Text) (payload : Dict (Json N)) : Type 0 where
    pub same_action : Dicts.get payload (codes "action") ≡ some (text action)
    pub near :
        (b : ℤ) × (integer_of p (Dicts.get payload (codes "bucket")) ≡ some b)
        × (distance b (estimate_bucket p estimate) ≤ 1)
    pub unexpired :
        (exp : N) × (number_of p (Dicts.get payload (codes "exp")) ≡ some exp)
        × (p.lt exp now ≡ false)
    pub same_subject : SameSubject (text_of p (Dicts.get payload (codes "sub"))) subject
    pub unspent : Unspent consumed (text_of p (Dicts.get payload (codes "ref")))

  is_action_text :
      (action : Text) (v : Option (Json N)) → is_action p action v ≡ true → v ≡ some (text action)
  is_action_text action none h = cc
  is_action_text action (some null) h = cc
  is_action_text action (some (bool b)) h = cc
  is_action_text action (some (num n)) h = cc
  is_action_text action (some (arr vs)) h = cc
  is_action_text action (some (obj fs)) h = cc
  is_action_text action (some (text a)) h = ap (λ w. some (text w)) ((text_eq_iff a action).0 h)

  bucket_ok_near :
      (estimate : N) (b : Option ℤ)
      → bucket_ok p estimate b ≡ true
      → (x : ℤ) × (b ≡ some x) × (distance x (estimate_bucket p estimate) ≤ 1)
  unfolding bucket_ok
  bucket_ok_near estimate none h = cc
  bucket_ok_near estimate (some x) h = (x, refl, leb→le _ 1 h)

  expiry_ok_unexpired :
      (now : N) (exp : Option N)
      → expiry_ok p now exp ≡ true
      → (x : N) × (exp ≡ some x) × (p.lt x now ≡ false)
  unfolding expiry_ok
  expiry_ok_unexpired now none h = cc
  expiry_ok_unexpired now (some x) h = (x, refl, ground arith)

  module _ (now : N) (consumed : Option (Text → Option Bool)) (action : Text) (estimate : N)
      (subject : Option Text) where
    payload_ok-Approves :
        (payload : Dict (Json N))
        → payload_ok p now consumed action estimate subject payload ≡ true
        → Approves now consumed action estimate subject payload
    unfolding payload_ok
    payload_ok-Approves payload h =
        let (h3, e) = and_true _ _ h in
        let (h2, d) = and_true _ _ h3 in
        let (h1, c) = and_true _ _ h2 in
        let (a, b) = and_true _ _ h1 in
        record {
          same_action = is_action_text action _ a;
          near = bucket_ok_near estimate _ b;
          unexpired = expiry_ok_unexpired now _ c;
          same_subject = subject_ok-SameSubject _ subject d;
          unspent = ref_consumed-Unspent consumed _ (ground arith);
        }

    decoded_ok-Approves :
        (v : Option (Json N))
        → decoded_ok p now consumed action estimate subject v ≡ true
        → (fs : Fields N) × (v ≡ some (obj fs))
          × Approves now consumed action estimate subject (entries fs)
    unfolding decoded_ok
    decoded_ok-Approves none h = cc
    decoded_ok-Approves (some null) h = cc
    decoded_ok-Approves (some (bool b)) h = cc
    decoded_ok-Approves (some (num n)) h = cc
    decoded_ok-Approves (some (text s)) h = cc
    decoded_ok-Approves (some (arr vs)) h = cc
    decoded_ok-Approves (some (obj fs)) h = (fs, refl, payload_ok-Approves (entries fs) h)

    parts_ok-Approves :
        (secret : Text) (o : Option (Text × Text × Text))
        → parts_ok p now secret consumed action estimate subject o ≡ ok true
        → (payload_b64 : Text) × (fs : Fields N) × (o
            ≡ some (approval_prefix, payload_b64, sign p secret payload_b64))
          × (decoded_payload p payload_b64 ≡ some (obj fs))
          × Approves now consumed action estimate subject (entries fs)
    unfolding parts_ok
    parts_ok-Approves secret none h = cc
    parts_ok-Approves secret (some (prefix, payload_b64, sig)) h =
        elim (Bool-cases (text_eq prefix approval_prefix)) [
          | inr n ↦ ground arith
          | inl q ↦
              let r : (text_eq sig (sign p secret payload_b64)
                    && decoded_ok p now consumed action estimate subject
                        (decoded_payload p payload_b64))
                  ≡ true =
                ground arith in
              let (s, d) = and_true _ _ r in
              let (fs, e, a) = decoded_ok-Approves (decoded_payload p payload_b64) d in
              let eq = (text_eq_iff prefix approval_prefix).0 q in
              let es = (text_eq_iff sig _).0 s in (payload_b64, fs, rw (eq, es), e, a)
        ]

    -- A token that is accepted has a secret to be signed with, is signed by it, and its payload is
    -- an object with this action, a bucket at most one from the estimate's, an expiry that is not
    -- past, the caller's subject or none on both sides, and a reference that the hook has not spent.
    pub verify_human_approval_sound :
        (environ : Text → Option Text) (token explicit : Option Text)
        → verify_human_approval p now environ token action estimate subject explicit consumed
          ≡ ok true
        → (payload_b64 : Text) × (fs : Fields N) × (non_empty (approval_secret environ explicit)
            ≡ true)
          × (token
              ≡ some (
                  joined approval_prefix payload_b64
                    (sign p (approval_secret environ explicit) payload_b64)))
          × (decoded_payload p payload_b64 ≡ some (obj fs))
          × Approves now consumed action estimate subject (entries fs)
    unfolding verify_human_approval
    verify_human_approval_sound environ none explicit h = cc
    verify_human_approval_sound environ (some t) explicit h =
        elim (Bool-cases (non_empty t && non_empty (approval_secret environ explicit))) [
          | inr n ↦ ground arith
          | inl q ↦
              let (payload_b64, fs, o, d, a) =
                parts_ok-Approves (approval_secret environ explicit) (three_parts t)
                  (ground arith) in
              (payload_b64, fs, (and_true _ _ q).1, ap some (token_of_parts t _ _ _ o), d, a)
        ]
