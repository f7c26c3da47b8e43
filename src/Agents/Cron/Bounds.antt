-- ===== src/Agents/Cron/Bounds.antt =====
-- The values of a parsed cron expression (`_parse_field` and `parse_cron` of agents/app/cron.py).
use funnelmanager.Prelude.{
  All, Bool, Bool-cases, In, List, Result, Text, [], all, arith, codes, err, false, if◌then◌else◌,
  inl, inr, ltb, ltb→lt, non_empty, not, ok, refl, split, strip, suc, sym, text_eq, true, words,
  zero, ℕ, ◌*◌, ◌++◌, ◌+◌, ◌-◌, ◌<◌, ◌>>=◌, ◌↔◌, ◌∷◌, ◌≡◌, ◌≢◌, ◌≤◌,
}
use funnelmanager.Prelude.Int.{ℤ, pos, negsuc}
use mathlib.Core.Path.{subst}
use funnelmanager.Agents.Cron.{CronSpec, parse_cron, parse_fields}
use funnelmanager.Agents.Cron.Field.{
  CronError, empty_field, no_values, is_nil, empty_field, CronError, checked_range, dow_range,
  dow_values, checked_values, range_values, item_step, item_range, parse_item, parse_items,
  parse_field,
}

abbrev pub InRange : ℕ → ℕ → ℕ → Type 0
InRange lo hi v = (lo ≤ v) × (v ≤ hi)

All-append : (P : ℕ → Type 0) (xs ys : List ℕ) → All P xs → All P ys → All P (xs ++ ys)
All-append P [] ys h k = k
All-append P (x ∷ xs) ys h k = (h.0, All-append P xs ys h.1 k)

-- Where a chain succeeds, its first part did, and the rest succeeds on what that returned.
first_ok {ℓ κ} :
    {A : Type ℓ} {B : Type κ} {result : B} (step : Result CronError A)
    (rest : A → Result CronError B)
    → ok result ≡ (step >>= rest)
    → (value : A) × (step ≡ ok value) × (rest value ≡ ok result)
first_ok (err raised) rest h = cc
first_ok (ok value) rest h = (value, refl, sym h)

checked_range-InRange :
    (n lo hi end step value : ℕ) (vs : List ℕ)
    → checked_range n lo hi end step value ≡ ok vs
    → All (InRange lo hi) vs
unfolding checked_range
checked_range-InRange zero lo hi end step value [] h = tt
checked_range-InRange zero lo hi end step value (v ∷ vs) h = cc
checked_range-InRange (suc n) lo hi end step value [] h = tt
checked_range-InRange (suc n) lo hi end step value (v ∷ vs) h =
    ground (arith, checked_range-InRange n lo hi end step (value + step) vs)

dow_range-InRange :
    (n end step value : ℕ) → end ≤ 7 → All (InRange 0 6) (dow_range n end step value)
unfolding dow_range
dow_range-InRange zero end step value h = tt
dow_range-InRange (suc n) end step value h =
    let rest = dow_range-InRange n end step (value + step) h in
    elim (Bool-cases (ltb end value)) [
      | inl past ↦ rw past tt
      | inr there ↦ rw there (ground arith, rest)
    ]

range_values-InRange :
    (lo hi step : ℕ) (start end : ℤ) (vs : List ℕ)
    → range_values lo hi false step start end ≡ ok vs
    → All (InRange lo hi) vs
unfolding range_values checked_values
range_values-InRange lo hi step (pos a) (pos b) vs h =
    checked_range-InRange (b + 1 - a) lo hi b step a vs (ground arith)
range_values-InRange lo hi step (pos a) (negsuc b) vs h = ground arith
range_values-InRange lo hi step (negsuc a) end vs h = ground arith

range_values-InRange_dow :
    (lo hi step : ℕ) (start end : ℤ) (vs : List ℕ)
    → range_values lo hi true step start end ≡ ok vs
    → All (InRange 0 6) vs
unfolding range_values dow_values
range_values-InRange_dow lo hi step (pos a) (pos b) vs h =
    let e : dow_range (b + 1 - a) b step a ≡ vs = ground arith in
    subst (All (InRange 0 6)) e (dow_range-InRange (b + 1 - a) b step a (ground arith))
range_values-InRange_dow lo hi step (pos a) (negsuc b) vs h = ground arith
range_values-InRange_dow lo hi step (negsuc a) end vs h = ground arith

-- What the values of a field are in, by the flag for days of the week.
abbrev FieldRange : Bool → ℕ → ℕ → ℕ → Type 0
FieldRange true lo hi = InRange 0 6
FieldRange false lo hi = InRange lo hi

range_values-FieldRange :
    (lo hi : ℕ) (dow : Bool) (step : ℕ) (start end : ℤ) (vs : List ℕ)
    → range_values lo hi dow step start end ≡ ok vs
    → All (FieldRange dow lo hi) vs
range_values-FieldRange lo hi true = range_values-InRange_dow lo hi
range_values-FieldRange lo hi false = range_values-InRange lo hi

parse_item-FieldRange :
    (lo hi : ℕ) (dow : Bool) (part : Text) (vs : List ℕ)
    → parse_item lo hi dow part ≡ ok vs
    → All (FieldRange dow lo hi) vs
unfolding parse_item
parse_item-FieldRange lo hi dow [] vs h = cc
parse_item-FieldRange lo hi dow (c ∷ s) vs h =
    let ((base, step), p, f) = first_ok (item_step (c ∷ s)) _ (sym h) in
    let ((start, end), q, g) = first_ok (item_range lo hi base) _ (sym f) in
    range_values-FieldRange lo hi dow step start end vs g

parse_items-FieldRange :
    (lo hi : ℕ) (dow : Bool) (parts : List Text) (vs : List ℕ)
    → parse_items lo hi dow parts ≡ ok vs
    → All (FieldRange dow lo hi) vs
unfolding parse_items
parse_items-FieldRange lo hi dow [] [] h = tt
parse_items-FieldRange lo hi dow [] (v ∷ vs) h = cc
parse_items-FieldRange lo hi dow (part ∷ parts) vs h =
    let (us, p, f) = first_ok (parse_item lo hi dow (strip part)) _ (sym h) in
    let (ws, q, g) = first_ok (parse_items lo hi dow parts) _ (sym f) in
    let e : us ++ ws ≡ vs = ground arith in
    subst (All (FieldRange dow lo hi)) e (
      All-append (FieldRange dow lo hi) us ws (parse_item-FieldRange lo hi dow (strip part) us p)
        (parse_items-FieldRange lo hi dow parts ws q))

-- The values of a field: in its range, and at least one.
abbrev pub IsField : (ℕ → Type 0) → List ℕ → Type 0
IsField P vs = All P vs × (vs ≢ [])

ok_injective {ℓ} : {A : Type ℓ} (a b : A) → ◌≡◌ {A = Result CronError A} (ok a) (ok b) → a ≡ b
ok_injective a b h = cc

if_ok {ℓ} :
    {A : Type ℓ} (b : Bool) (m : Result CronError A) (e : CronError) {a : A}
    → (if b then m else err e) ≡ ok a
    → m ≡ ok a
if_ok true m e h = h
if_ok false m e h = cc

some_values :
    (P : ℕ → Type 0) (vs : List ℕ) (b : Bool) (r : List ℕ × Bool)
    → All P vs
    → (if is_nil vs then err no_values else ok (vs, b)) ≡ ok r
    → IsField P r.0
some_values P [] b r all h = cc
some_values P (v ∷ vs) b r all h =
    let e : v ∷ vs ≡ r.0 = ground arith in subst (IsField P) e (all, λ n. cc)

parse_field-IsField :
    (lo hi : ℕ) (dow : Bool) (raw : Text) (r : List ℕ × Bool)
    → parse_field lo hi dow raw ≡ ok r
    → IsField (FieldRange dow lo hi) r.0
unfolding parse_field
parse_field-IsField lo hi dow raw r h =
    let field = strip raw in
    let (vs, p, f) =
      first_ok (parse_items lo hi dow (split b',' field)) _
        (sym (if_ok (non_empty field) _ empty_field h)) in
    some_values (FieldRange dow lo hi) vs (not (text_eq field (codes "*"))) r
      (parse_items-FieldRange lo hi dow (split b',' field) vs p) f

-- What a parsed expression is: every set of values has a member, and all are in their range.
pub record IsValid (spec : CronSpec) : Type 0 where
  pub minutes : IsField (InRange 0 59) spec.minutes
  pub hours : IsField (InRange 0 23) spec.hours
  pub doms : IsField (InRange 1 31) spec.doms
  pub months : IsField (InRange 1 12) spec.months
  pub dows : IsField (InRange 0 6) spec.dows

parse_fields-IsValid : (fs : List Text) (spec : CronSpec) → parse_fields fs ≡ ok spec → IsValid spec
unfolding parse_fields
parse_fields-IsValid [] spec h = cc
parse_fields-IsValid (f0 ∷ []) spec h = cc
parse_fields-IsValid (f0 ∷ f1 ∷ []) spec h = cc
parse_fields-IsValid (f0 ∷ f1 ∷ f2 ∷ []) spec h = cc
parse_fields-IsValid (f0 ∷ f1 ∷ f2 ∷ f3 ∷ []) spec h = cc
parse_fields-IsValid (f0 ∷ f1 ∷ f2 ∷ f3 ∷ f4 ∷ []) spec h =
    let (r0, p0, h1) = first_ok (parse_field 0 59 false f0) _ (sym h) in
    let (r1, p1, h2) = first_ok (parse_field 0 23 false f1) _ (sym h1) in
    let (r2, p2, h3) = first_ok (parse_field 1 31 false f2) _ (sym h2) in
    let (r3, p3, h4) = first_ok (parse_field 1 12 false f3) _ (sym h3) in
    let (r4, p4, h5) = first_ok (parse_field 0 6 true f4) _ (sym h4) in
    subst IsValid (ok_injective _ spec h5) (record {
      minutes = parse_field-IsField 0 59 false f0 r0 p0;
      hours = parse_field-IsField 0 23 false f1 r1 p1;
      doms = parse_field-IsField 1 31 false f2 r2 p2;
      months = parse_field-IsField 1 12 false f3 r3 p3;
      dows = parse_field-IsField 0 6 true f4 r4 p4;
    })
parse_fields-IsValid (f0 ∷ f1 ∷ f2 ∷ f3 ∷ f4 ∷ f5 ∷ fs) spec h = cc

-- A parsed expression has five fields of values, none empty: minutes to 59, hours to 23, days of the
-- month from 1 to 31, months from 1 to 12, and days of the week to 6, where 7 is folded to 0.
pub parse_cron-IsValid : (expr : Text) (spec : CronSpec) → parse_cron expr ≡ ok spec → IsValid spec
unfolding parse_cron
parse_cron-IsValid expr spec h = parse_fields-IsValid (words expr) spec h

abbrev pub StepOf : ℕ → ℕ → ℕ → ℕ → Type 0
StepOf value step end v = (k : ℕ) × (v ≡ value + k * step) × (v ≤ end)

later_step : (step value end v : ℕ) → StepOf (value + step) step end v → StepOf value step end v
later_step step value end v (k, q, b) = (suc k, omega arith, b)

earlier_step :
    (vs : List ℕ) (step value end v k : ℕ)
    → (StepOf (value + step) step end v → In v vs)
    → v ≡ value + k * step
    → v ≤ end
    → In v (value ∷ vs)
earlier_step vs step value end v zero m q b = inl (omega arith)
earlier_step vs step value end v (suc k) m q b = inr (m (k, omega arith, b))

first_or_later :
    (vs : List ℕ) (step value end v : ℕ)
    → value ≤ end
    → In v vs ↔ StepOf (value + step) step end v
    → In v (value ∷ vs) ↔ StepOf value step end v
first_or_later vs step value end v l m = (
  λ i. elim i [
    | inl q ↦ (0, omega arith, omega arith)
    | inr j ↦ later_step step value end v (m.0 j)
  ],
  λ (k, q, b). earlier_step vs step value end v k m.1 q b,
)

-- The loop over a range that lies within the bounds of its field yields exactly the values that are
-- whole steps from its start and not past its end.
pub checked_range_exact :
    (n lo hi end step value : ℕ)
    → 0 < step
    → end < value + n
    → lo ≤ value
    → end ≤ hi
    → (vs : List ℕ) × (checked_range n lo hi end step value ≡ ok vs)
      × ((v : ℕ) → In v vs ↔ StepOf value step end v)
unfolding checked_range
checked_range_exact zero lo hi end step value p f l h =
    ([], refl, λ v. (λ i. elim i [ ], λ (k, q, b). absurd (omega arith)))
checked_range_exact (suc n) lo hi end step value p f l h = elim (Bool-cases (ltb end value)) [
  | inl past ↦ (
    [],
    rw past,
    λ v. (λ i. elim i [ ], λ (k, q, b). absurd (omega (arith, ltb→lt end value past))),
  )
  | inr there ↦
      let (vs, e, m) =
        checked_range_exact n lo hi end step (value + step) p (omega arith) (omega arith) h in
      (value ∷ vs, ground (arith, e), λ v. first_or_later vs step value end v (ground arith) (m v))
]
