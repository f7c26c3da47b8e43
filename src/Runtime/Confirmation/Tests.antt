-- ===== src/Runtime/Confirmation/Tests.antt =====
-- Runs of libs/fm_runtime/fm_runtime/confirmation.py on a small platform.
use funnelmanager.Prelude.{
  Bool, Option, Text, [], after, ap, arith, before, codes, false, has_char, if◌then◌else◌, is_space,
  leb, lstrip, ltb, map, non_empty, none, ok, refl, some, strip, sym, text_eq, true, ℕ, ◌%◌, ◌++◌,
  ◌+◌, ◌==◌, ◌∷◌, ◌≡◌,
}
use funnelmanager.Prelude.Int.{ℤ, pos, negsuc}
use funnelmanager.Prelude.Dicts
use funnelmanager.Runtime.Json.{Json, Fields, num, text, obj, fields, entries, Python}
use funnelmanager.Runtime.Confirmation.{
  approval_ref, Platform, Principal, approval_prefix, is_ascii, approval_secret, three_parts,
  ref_consumed, subject_ok, estimate_bucket, sign, payload_of, make_human_approval, bucket_ok,
  expiry_ok, payload_ok, decoded_payload, decoded_ok, parts_ok, verify_human_approval,
}
use funnelmanager.Runtime.Confirmation.Require.{
  Request, proceed, origin_of, subject_of, agent_gate, require_confirmation,
}
use funnelmanager.Runtime.Confirmation.Verify.{joined, Approves, verify_human_approval_sound}
use funnelmanager.Runtime.Confirmation.Mint.{IsEncoded, verify_human_approval-make_human_approval}
use funnelmanager.Runtime.Confirmation.Gate.{
  require_confirmation_agent, require_confirmation-self_confirm,
}

abbrev str : Json ℕ → Text
str (text s) = s
str v = codes "None"

abbrev python : Python ℕ
python = record {
  is_zero = λ n. n == 0;
  str = str;
  float = λ v. none;
  dict_of_list = λ vs. none;
  str_text = λ s. refl;
}

abbrev natural : ℤ → ℕ
natural (pos n) = n
natural (negsuc n) = 0

abbrev letter : ℕ → ℕ
letter c = c % 26 + 97

-- The payload that the platform below reads: action "run", estimate 5, subject "al", expiry 100.
abbrev payload : Json ℕ
payload = obj (
    fields (
      (codes "action", text (codes "run"))
      ∷ (codes "bucket", num 5)
      ∷ (codes "exp", num 100)
      ∷ (codes "ref", text (codes "aref_run|5|al"))
      ∷ (codes "sub", text (codes "al"))
      ∷ []))

abbrev pub platform : Platform ℕ
platform = record {
  python = python;
  le = leb;
  lt = ltb;
  of_int = natural;
  to_int = λ n. some (pos n);
  show_int = λ i. (natural i + b'0') ∷ [];
  abs_float = λ n. n;
  log_bucket = λ n. pos n;
  sha256_hex = λ s. s;
  hmac_sha256 = λ secret s. secret ++ s;
  b64u = map letter;
  b64u_decode = λ s. some s;
  dumps = λ v. codes "payload";
  loads = λ s. some payload;
}

abbrev pub environ : Text → Option Text
environ name = if text_eq name (codes "APPROVAL_SECRET") then some (codes "key") else none

payload_read : payload_of platform (codes "run") 5 (codes "al") (pos 100) ≡ payload
unfolding payload_of estimate_bucket approval_ref
payload_read = refl

letters_dotless : (s : Text) → has_char b'.' (map letter s) ≡ false
unfolding has_char
letters_dotless [] = refl
letters_dotless (c ∷ s) = ground (arith, letters_dotless s)

letters-is_ascii : (s : Text) → is_ascii (map letter s) ≡ true
unfolding is_ascii
letters-is_ascii [] = refl
letters-is_ascii (c ∷ s) = ground (arith, letters-is_ascii s)

pub payload-IsEncoded :
    IsEncoded platform (payload_of platform (codes "run") 5 (codes "al") (pos 100))
unfolding sign
payload-IsEncoded = record {
  read_back = ap some (sym payload_read);
  dotless = letters_dotless (codes "payload");
  ascii = letters-is_ascii (codes "payload");
  signature_ascii = λ secret. letters-is_ascii (secret ++ map letter (codes "payload"));
}

abbrev pub token : Text
token =
    joined approval_prefix (map letter (codes "payload"))
      (map letter (codes "key" ++ map letter (codes "payload")))

pub minted :
    make_human_approval platform environ none (codes "run") 5 (codes "al") (pos 100) ≡ some token
unfolding make_human_approval approval_secret strip lstrip is_space text_eq sign
minted = refl

-- A store of spent references that raises at one of them.
abbrev store : Text → Option Bool
store ref = if text_eq ref (codes "bad") then none else some (text_eq ref (codes "aref_old"))

unspent : ref_consumed (some store) (approval_ref platform (codes "run") 5 (codes "al")) ≡ false
unfolding ref_consumed approval_ref estimate_bucket text_eq
unspent = refl

verify_human_approval-make_human_approval_example :
    verify_human_approval platform 90 environ
      (some token)
      (codes "run")
      6
      (some (codes "al"))
      none
      (some store)
    ≡ ok true
unfolding estimate_bucket
verify_human_approval-make_human_approval_example =
    verify_human_approval-make_human_approval platform (codes "run") 5 6 (codes "al") (pos 100) 90
      (some store) environ none token minted payload-IsEncoded refl (omega arith) refl unspent

accepted :
    verify_human_approval platform 90 environ
      (some token)
      (codes "run")
      5
      (some (codes "al"))
      none
      (some store)
    ≡ ok true
unfolding estimate_bucket
accepted =
    verify_human_approval-make_human_approval platform (codes "run") 5 5 (codes "al") (pos 100) 90
      (some store) environ none token minted payload-IsEncoded refl (omega arith) refl unspent

verify_human_approval_sound_example :
    (payload_b64 : Text) × (fs : Fields ℕ) × (non_empty (approval_secret environ none) ≡ true)
    × (some token
        ≡ some (
            joined approval_prefix payload_b64
              (sign platform (approval_secret environ none) payload_b64)))
    × (decoded_payload platform payload_b64 ≡ some (obj fs))
    × Approves platform 90 (some store) (codes "run") 5 (some (codes "al")) (entries fs)
verify_human_approval_sound_example =
    verify_human_approval_sound platform 90 (some store) (codes "run") 5 (some (codes "al")) environ
      (some token) none accepted

abbrev principal : Principal
principal = record { origin = codes "agent"; username = codes "al" }

abbrev request : Request ℕ
request = record {
  estimate = 5;
  threshold = 2;
  confirm = true;
  confirm_token = none;
  unit = codes "GB";
  action = codes "run";
  message = none;
  meta = none;
  verify_token = false;
  human_approval = some token;
  secret = none;
  consumed = some store;
}

agent_passes :
    require_confirmation platform 90 environ (some principal) none none request ≡ proceed 5
unfolding require_confirmation agent_gate origin_of subject_of text_eq
agent_passes = rw (accepted, agent_gate) refl

require_confirmation_agent_example :
    (payload_b64 : Text) × (fs : Fields ℕ) × (non_empty (approval_secret environ none) ≡ true)
    × (some token
        ≡ some (
            joined approval_prefix payload_b64
              (sign platform (approval_secret environ none) payload_b64)))
    × (decoded_payload platform payload_b64 ≡ some (obj fs))
    × Approves platform 90 (some store) (codes "run") 5 (some (codes "al")) (entries fs)
unfolding origin_of subject_of text_eq
require_confirmation_agent_example =
    require_confirmation_agent platform 90 environ (some principal) none none request refl refl
      agent_passes

-- Without an approval, an agent that confirms is asked for one.
require_confirmation-self_confirm_example :
    require_confirmation platform 90 environ
      (some principal)
      none
      none
      (record request { confirm = false; confirm_token = none; verify_token = false })
    ≡ require_confirmation platform 90 environ (some principal) none none request
unfolding origin_of text_eq
require_confirmation-self_confirm_example =
    require_confirmation-self_confirm platform 90 environ (some principal) none none request false
      false none refl

-- An approval for 5 does not serve for 9.
too_large :
    verify_human_approval platform 90 environ
      (some token)
      (codes "run")
      9
      (some (codes "al"))
      none
      (some store)
    ≡ ok false
unfolding verify_human_approval approval_secret three_parts parts_ok decoded_ok payload_ok bucket_ok
    expiry_ok subject_ok ref_consumed strip lstrip is_space text_eq sign estimate_bucket is_ascii
    before after has_char Dicts.get
too_large = refl
