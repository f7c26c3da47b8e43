-- ===== src/Runtime/Confirmation.antt =====
-- libs/fm_runtime/fm_runtime/confirmation.py: the gate before an expensive action, which a human
-- confirms and an agent passes only with an approval that a human's decision has minted.
pub mod Require
pub mod Verify
pub mod Mint
pub mod Gate
pub mod Tests
use funnelmanager.Prelude.{
  Bool, Option, Result, Text, [], after, all, before, codes, err, false, has_char, if◌then◌else◌,
  leb, non_empty, none, not, ok, some, strip, suc, take, text_eq, true, ℕ, ◌&&◌, ◌++◌, ◌+◌, ◌-◌,
  ◌∷◌,
}
use funnelmanager.Prelude.Int.{ℤ, pos}
use funnelmanager.Prelude.Dicts
use funnelmanager.Runtime.Json.{Json, bool, num, text, obj, entries, fields, Python, truthy}

-- What the module calls of Python's library: the order of numbers, the integers among them, the
-- digits of one, `int(round(math.log(e) / math.log(1.01)))`, SHA-256 in hex, HMAC-SHA-256, base64
-- without its padding, and JSON. What may raise a ValueError is an Option.
pub record Platform (N : Type 0) : Type 0 where
  pub python : Python N
  pub le : N → N → Bool
  pub lt : N → N → Bool
  pub of_int : ℤ → N
  pub to_int : N → Option ℤ
  pub show_int : ℤ → Text
  pub abs_float : N → N
  pub log_bucket : N → ℤ
  pub sha256_hex : Text → Text
  pub hmac_sha256 : Text → Text → Text
  pub b64u : Text → Text
  pub b64u_decode : Text → Option Text
  pub dumps : Json N → Text
  pub loads : Text → Option (Json N)

-- The acting principal's `origin` and `username`.
pub record Principal : Type 0 where
  pub origin : Text
  pub username : Text

-- What verification may raise: `encode("ascii")` or `compare_digest` of a text that is not ASCII.
pub data NotAscii : Type 0 where
  payload_not_ascii signature_not_ascii : NotAscii

abbrev pub approval_prefix : Text
approval_prefix = codes "fmha1"

unfoldable pub is_ascii : Text → Bool
is_ascii s = all (λ c. leb c 127) s

-- The distance of two integers.
abbrev pub distance : ℤ → ℤ → ℕ
distance (pos a) (pos b) = (a - b) + (b - a)
distance (pos a) (ℤ.negsuc b) = suc (a + b)
distance (ℤ.negsuc a) (pos b) = suc (a + b)
distance (ℤ.negsuc a) (ℤ.negsuc b) = (a - b) + (b - a)

-- `raw is not None and raw.strip()`
abbrev pub is_set : Option Text → Bool
is_set none = false
is_set (some raw) = non_empty (strip raw)

abbrev pub is_given : Option Text → Bool
is_given none = false
is_given (some token) = non_empty token

abbrev pub text_or : Option Text → Text → Text
text_or none d = d
text_or (some s) d = s

-- `_approval_secret`, over the environment
unfoldable pub approval_secret : (Text → Option Text) → Option Text → Text
approval_secret environ explicit =
    if is_set explicit
    then text_or explicit []
    else if is_set (environ (codes "FM_CONFIRM_APPROVAL_SECRET"))
    then text_or (environ (codes "FM_CONFIRM_APPROVAL_SECRET")) []
    else if is_set (environ (codes "APPROVAL_SECRET"))
    then text_or (environ (codes "APPROVAL_SECRET")) []
    else []

-- `token.split(".", 2)` into three parts
unfoldable pub three_parts : Text → Option (Text × Text × Text)
three_parts token =
    let rest = after b'.' token in
    if has_char b'.' token && has_char b'.' rest
    then some (before b'.' token, before b'.' rest, after b'.' rest)
    else none

-- `_ref_consumed`: the hook is a test that may raise.
unfoldable pub ref_consumed : Option (Text → Option Bool) → Text → Bool
ref_consumed none ref = false
ref_consumed (some hook) ref =
    if non_empty ref then elim (hook ref) [ some spent ↦ spent | none ↦ true ] else false

-- The subject that a token names, against the caller's.
unfoldable pub subject_ok : Text → Option Text → Bool
subject_ok token_sub none = not (non_empty token_sub)
subject_ok token_sub (some subject) =
    if non_empty token_sub then text_eq subject token_sub else not (non_empty subject)

module _ {N : Type 0} (p : Platform N) where
  -- `_estimate_bucket`
  unfoldable pub estimate_bucket : N → ℤ
  estimate_bucket estimate =
      if p.le (p.abs_float estimate) (p.of_int (pos 0))
      then pos 0
      else p.log_bucket (p.abs_float estimate)

  -- `_confirm_token` and `make_confirm_token`
  unfoldable pub confirm_token : Text → N → Text
  confirm_token action estimate =
      take 32 (p.sha256_hex (action ++ (codes "|" ++ p.show_int (estimate_bucket estimate))))

  unfoldable pub approval_ref : Text → N → Text → Text
  approval_ref action estimate subject =
      codes "aref_"
      ++ take 24 (
          p.sha256_hex (
            action
            ++ (codes "|" ++ (p.show_int (estimate_bucket estimate) ++ (codes "|" ++ subject)))))

  -- `_sign`
  unfoldable pub sign : Text → Text → Text
  sign secret payload_b64 = p.b64u (p.hmac_sha256 secret payload_b64)

  -- The payload of a token, in the order of its keys that `sort_keys` makes.
  unfoldable pub payload_of : Text → N → Text → ℤ → Json N
  payload_of action estimate subject exp = obj (
      fields (
        (codes "action", text action)
        ∷ (codes "bucket", num (p.of_int (estimate_bucket estimate)))
        ∷ (codes "exp", num (p.of_int exp))
        ∷ (codes "ref", text (approval_ref action estimate subject))
        ∷ (codes "sub", text subject)
        ∷ []))

  -- `make_human_approval` at an expiry, which the source computes as the time and `ttl_seconds`, with
  -- `none` for its RuntimeError
  unfoldable pub make_human_approval :
      (Text → Option Text) → Option Text → Text → N → Text → ℤ → Option Text
  make_human_approval environ explicit action estimate subject exp =
      let secret = approval_secret environ explicit in
      let payload_b64 = p.b64u (p.dumps (payload_of action estimate subject exp)) in
      if non_empty secret
      then some (
          approval_prefix ++ (codes "." ++ (payload_b64 ++ (codes "." ++ sign secret payload_b64))))
      else none

  -- The number that a JSON value is to `isinstance(v, (int, float))`: a bool is an int.
  abbrev pub number_of : Option (Json N) → Option N
  number_of (some (num n)) = some n
  number_of (some (bool true)) = some (p.of_int (pos 1))
  number_of (some (bool false)) = some (p.of_int (pos 0))
  number_of _ = none

  -- The integer that it is, where a bool is none.
  abbrev pub integer_of : Option (Json N) → Option ℤ
  integer_of (some (num n)) = p.to_int n
  integer_of _ = none

  -- `payload.get("action") == action`
  abbrev pub is_action : Text → Option (Json N) → Bool
  is_action action (some (text a)) = text_eq a action
  is_action action _ = false

  -- `str(payload.get(key) or "")`
  abbrev pub text_of : Option (Json N) → Text
  text_of none = []
  text_of (some v) = if truthy p.python v then p.python.str v else []

  unfoldable pub bucket_ok : N → Option ℤ → Bool
  bucket_ok estimate none = false
  bucket_ok estimate (some token_bucket) = leb (distance token_bucket (estimate_bucket estimate)) 1

  unfoldable pub expiry_ok : N → Option N → Bool
  expiry_ok now none = false
  expiry_ok now (some exp) = not (p.lt exp now)

  -- The checks of a payload that is signed.
  unfoldable pub payload_ok :
      N → Option (Text → Option Bool) → Text → N → Option Text → Dicts.Dict (Json N) → Bool
  payload_ok now consumed action estimate subject payload =
      is_action action (Dicts.get payload (codes "action"))
      && bucket_ok estimate (integer_of (Dicts.get payload (codes "bucket")))
      && expiry_ok now (number_of (Dicts.get payload (codes "exp")))
      && subject_ok (text_of (Dicts.get payload (codes "sub"))) subject
      && not (ref_consumed consumed (text_of (Dicts.get payload (codes "ref"))))

  abbrev pub decoded_payload : Text → Option (Json N)
  decoded_payload payload_b64 = elim (p.b64u_decode payload_b64) [
    | none ↦ none
    | some raw ↦ p.loads raw
  ]

  unfoldable pub decoded_ok :
      N → Option (Text → Option Bool) → Text → N → Option Text → Option (Json N) → Bool
  decoded_ok now consumed action estimate subject (some (obj fs)) =
      payload_ok now consumed action estimate subject (entries fs)
  decoded_ok now consumed action estimate subject _ = false

  -- The checks of a token's parts.
  unfoldable pub parts_ok :
      N
      → Text
      → Option (Text → Option Bool)
      → Text
      → N
      → Option Text
      → Option (Text × Text × Text)
      → Result NotAscii Bool
  parts_ok now secret consumed action estimate subject none = ok false
  parts_ok now secret consumed action estimate subject (some (prefix, payload_b64, sig)) =
      if text_eq prefix approval_prefix
      then if is_ascii payload_b64
        then if is_ascii sig
          then ok (
              text_eq sig (sign secret payload_b64)
              && decoded_ok now consumed action estimate subject (decoded_payload payload_b64))
          else err signature_not_ascii
        else err payload_not_ascii
      else ok false

  -- `verify_human_approval`, at a time
  unfoldable pub verify_human_approval :
      N
      → (Text → Option Text)
      → Option Text
      → Text
      → N
      → Option Text
      → Option Text
      → Option (Text → Option Bool)
      → Result NotAscii Bool
  verify_human_approval now environ token action estimate subject explicit consumed =
      let secret = approval_secret environ explicit in
      if is_given token && non_empty secret
      then parts_ok now secret consumed action estimate subject (three_parts (text_or token []))
      else ok false
