-- ===== src/Runtime/Confirmation/Mint.antt =====
-- A minted approval is accepted (`make_human_approval` and `verify_human_approval` of confirmation.py).
use funnelmanager.Prelude.{
  Bool, Bool-cases, Option, Text, [], after-append, ap, arith, before-append, false, has_char,
  has_char-append, inl, inr, non_empty, ok, refl, some, sym, text_eq, text_eq_refl, true, ◌++◌, ◌∙◌,
  ◌∷◌, ◌≡◌, ◌≤◌,
}
use funnelmanager.Prelude.Int.{ℤ}
use funnelmanager.Prelude.Dicts
use funnelmanager.Runtime.Json.{Json, text}
use funnelmanager.Runtime.Confirmation.{
  Platform, approval_prefix, is_ascii, distance, approval_secret, three_parts, ref_consumed,
  subject_ok, estimate_bucket, approval_ref, sign, payload_of, make_human_approval, text_of,
  bucket_ok, expiry_ok, payload_ok, decoded_payload, decoded_ok, parts_ok, verify_human_approval,
}
use funnelmanager.Runtime.Confirmation.Verify.{joined}

three_parts-joined :
    (a b c : Text)
    → has_char b'.' a ≡ false
    → has_char b'.' b ≡ false
    → three_parts (joined a b c) ≡ some (a, b, c)
unfolding three_parts
three_parts-joined a b c h k =
    rw
      (
        has_char-append b'.' a (b ++ (b'.' ∷ c)),
        after-append b'.' a (b ++ (b'.' ∷ c)) h,
        before-append b'.' a (b ++ (b'.' ∷ c)) h,
        has_char-append b'.' b c,
        before-append b'.' b c k,
        after-append b'.' b c k,
      )
      refl

subject_ok_self : (s : Text) → subject_ok s (some s) ≡ true
unfolding subject_ok
subject_ok_self [] = refl
subject_ok_self (c ∷ s) = text_eq_refl (c ∷ s)

prefix_dotless : has_char b'.' approval_prefix ≡ false
unfolding has_char
prefix_dotless = refl

module _ {N : Type 0} (p : Platform N) where
  -- What base64 and JSON make of a payload: it is read back, and what is sent is ASCII without a dot.
  pub record IsEncoded (v : Json N) : Type 0 where
    pub read_back : decoded_payload p (p.b64u (p.dumps v)) ≡ some v
    pub dotless : has_char b'.' (p.b64u (p.dumps v)) ≡ false
    pub ascii : is_ascii (p.b64u (p.dumps v)) ≡ true
    pub signature_ascii : (secret : Text) → is_ascii (sign p secret (p.b64u (p.dumps v))) ≡ true

  text_of-text : (s : Text) → text_of p (some (text s)) ≡ s
  text_of-text [] = refl
  text_of-text (c ∷ s) = p.python.str_text (c ∷ s)

  module _ (action : Text) (estimate later : N) (subject : Text) (exp : ℤ) (now : N)
      (consumed : Option (Text → Option Bool)) where
    payload_of-ok :
        p.to_int (p.of_int (estimate_bucket p estimate)) ≡ some (estimate_bucket p estimate)
        → distance (estimate_bucket p estimate) (estimate_bucket p later) ≤ 1
        → p.lt (p.of_int exp) now ≡ false
        → ref_consumed consumed (approval_ref p action estimate subject) ≡ false
        → decoded_ok p now consumed action later
            (some subject)
            (some (payload_of p action estimate subject exp))
          ≡ true
    unfolding decoded_ok payload_ok payload_of bucket_ok expiry_ok Dicts.get text_eq
    payload_of-ok i d e u =
        rw
          (
            text_of-text subject,
            text_of-text (approval_ref p action estimate subject),
            subject_ok_self subject,
            text_eq_refl action,
            u,
            e,
            i,
          )
          (ground (arith, d))

    -- The verdict on a minted token is the one on its payload.
    minted_decoded :
        (environ : Text → Option Text) (explicit : Option Text) (token : Text)
        → make_human_approval p environ explicit action estimate subject exp ≡ some token
        → IsEncoded (payload_of p action estimate subject exp)
        → verify_human_approval p now environ
            (some token)
            action
            later
            (some subject)
            explicit
            consumed
          ≡ ok (
              decoded_ok p now consumed action later
                (some subject)
                (some (payload_of p action estimate subject exp)))
    unfolding make_human_approval verify_human_approval parts_ok
    minted_decoded environ explicit token h enc =
        let secret = approval_secret environ explicit in
        let payload_b64 = p.b64u (p.dumps (payload_of p action estimate subject exp)) in
        let whole = joined approval_prefix payload_b64 (sign p secret payload_b64) in
        elim (Bool-cases (non_empty secret)) [
          | inr n ↦ ground arith
          | inl q ↦
              let same : whole ≡ token = ground arith in
              let parts : three_parts whole
                  ≡ some (approval_prefix, payload_b64, sign p secret payload_b64) =
                three_parts-joined approval_prefix payload_b64 (sign p secret payload_b64)
                  prefix_dotless enc.dotless in
              rw
                (
                  sym same,
                  q,
                  parts,
                  text_eq_refl approval_prefix,
                  enc.ascii,
                  enc.signature_ascii secret,
                  text_eq_refl (sign p secret payload_b64),
                  enc.read_back,
                )
                refl
        ]

    -- A minted token is accepted, in the environment where it was minted: at its action, for its
    -- subject, at an estimate whose bucket is at most one from the minted one's, until its expiry,
    -- and while its reference is not spent.
    pub verify_human_approval-make_human_approval :
        (environ : Text → Option Text) (explicit : Option Text) (token : Text)
        → make_human_approval p environ explicit action estimate subject exp ≡ some token
        → IsEncoded (payload_of p action estimate subject exp)
        → p.to_int (p.of_int (estimate_bucket p estimate)) ≡ some (estimate_bucket p estimate)
        → distance (estimate_bucket p estimate) (estimate_bucket p later) ≤ 1
        → p.lt (p.of_int exp) now ≡ false
        → ref_consumed consumed (approval_ref p action estimate subject) ≡ false
        → verify_human_approval p now environ
            (some token)
            action
            later
            (some subject)
            explicit
            consumed
          ≡ ok true
    verify_human_approval-make_human_approval environ explicit token h enc i d e u =
        minted_decoded environ explicit token h enc ∙ ap ok (payload_of-ok i d e u)
