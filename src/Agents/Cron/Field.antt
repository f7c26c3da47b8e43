-- ===== src/Agents/Cron/Field.antt =====
-- agents/app/cron.py: one field of a cron expression (`_parse_field`). A frozenset of ints is a list,
-- of which only the members matter.
use funnelmanager.Prelude.{
  Bool, List, Option, Result, Text, [], after, before, codes, err, false, has_char, if◌then◌else◌,
  leb, ltb, non_empty, none, not, ok, some, split, strip, suc, text_eq, true, zero, ℕ, ◌&&◌, ◌*◌,
  ◌++◌, ◌+◌, ◌-◌, ◌==◌, ◌>>=◌, ◌∷◌,
}
use funnelmanager.Prelude.Int.{ℤ, pos, negsuc, neg_ℕ, ltb_ℤ}

-- Where the parser raises its ValueError.
pub data CronError : Type 0 where
  empty_field empty_item invalid_step step_not_positive invalid_range invalid_value : CronError
  dow_out_of_range start_after_end value_out_of_range no_values field_count : CronError

-- Python's `int` of a text, on ASCII digits: white space around it, a sign, and single underscores
-- between digits are taken. `digit` says whether the last character was a digit.
digits : ℕ → Bool → Text → Option ℕ
digits acc digit [] = if digit then some acc else none
digits acc digit (c ∷ s) = elim (leb b'0' c && leb c b'9') [
  | true ↦ digits (acc * 10 + (c - b'0')) true s
  | false ↦ elim (c == b'_' && digit) [ true ↦ digits acc false s | false ↦ none ]
]

signed : Text → Option ℤ
unfolding digits
signed [] = none
signed (c ∷ s) =
    if c == b'-'
    then elim (digits 0 false s) [ some n ↦ some (neg_ℕ n) | none ↦ none ]
    else elim (digits 0 false (if c == b'+' then s else c ∷ s)) [
      | some n ↦ some (pos n)
      | none ↦ none
    ]

unfoldable pub py_int : Text → Option ℤ
unfolding signed
py_int s = signed (strip s)

-- `for value in range(start, end + 1, step)` with the bounds checked in its body. The first argument
-- bounds the rounds: `end + 1 - start` are enough, for the step is positive.
unfoldable pub checked_range : ℕ → ℕ → ℕ → ℕ → ℕ → ℕ → Result CronError (List ℕ)
checked_range zero lo hi end step value = ok []
checked_range (suc n) lo hi end step value =
    let rest = checked_range n lo hi end step (value + step) in
    if ltb end value
    then ok []
    else if leb lo value && leb value hi
    then (do vs ← rest; ok (value ∷ vs))
    else err value_out_of_range

-- The same loop of a day of the week: 7 is folded to 0.
unfoldable pub dow_range : ℕ → ℕ → ℕ → ℕ → List ℕ
dow_range zero end step value = []
dow_range (suc n) end step value =
    let rest = dow_range n end step (value + step) in
    if ltb end value then [] else (if value == 7 then 0 else value) ∷ rest

-- The step of an item, and what stands before it.
unfoldable pub item_step : Text → Result CronError (Text × ℕ)
unfolding py_int
item_step part =
    if has_char b'/' part
    then elim (py_int (after b'/' part)) [
      | none ↦ err invalid_step
      | some (pos zero) ↦ err step_not_positive
      | some (pos (suc n)) ↦ ok (before b'/' part, suc n)
      | some (negsuc n) ↦ err step_not_positive
    ]
    else ok (part, 1)

-- The first and the last value of an item.
unfoldable pub item_range : ℕ → ℕ → Text → Result CronError (ℤ × ℤ)
unfolding py_int
item_range lo hi base =
    if text_eq base (codes "*")
    then ok (pos lo, pos hi)
    else if has_char b'-' base
    then elim (py_int (before b'-' base)) [
      | none ↦ err invalid_range
      | some start ↦ elim (py_int (after b'-' base)) [
        | none ↦ err invalid_range
        | some end ↦ ok (start, end)
      ]
    ]
    else elim (py_int base) [ none ↦ err invalid_value | some value ↦ ok (value, value) ]

abbrev in_week : ℤ → Bool
in_week (pos n) = leb n 7
in_week (negsuc n) = false

-- The values of a range of days of the week: no end of it is negative here.
unfoldable pub dow_values : ℕ → ℤ → ℤ → List ℕ
dow_values step (pos a) (pos b) = dow_range (b + 1 - a) b step a
dow_values step _ _ = []

-- The values of another range. A negative start is below `lo`, so its first round raises.
unfoldable pub checked_values : ℕ → ℕ → ℕ → ℤ → ℤ → Result CronError (List ℕ)
checked_values lo hi step (pos a) (pos b) = checked_range (b + 1 - a) lo hi b step a
checked_values lo hi step _ _ = err value_out_of_range

unfoldable pub range_values : ℕ → ℕ → Bool → ℕ → ℤ → ℤ → Result CronError (List ℕ)
range_values lo hi dow step start end =
    if dow
    then if in_week start && in_week end
      then if ltb_ℤ end start then err start_after_end else ok (dow_values step start end)
      else err dow_out_of_range
    else if ltb_ℤ end start
    then err start_after_end
    else checked_values lo hi step start end

-- One item of a field, stripped.
unfoldable pub parse_item : ℕ → ℕ → Bool → Text → Result CronError (List ℕ)
parse_item lo hi dow part =
    if non_empty part
    then (do
      (base, step) ← item_step part
      (start, end) ← item_range lo hi base
      range_values lo hi dow step start end)
    else err empty_item

-- The loop over the items of a field.
unfoldable pub parse_items : ℕ → ℕ → Bool → List Text → Result CronError (List ℕ)
parse_items lo hi dow [] = ok []
parse_items lo hi dow (part ∷ parts) = do
  vs ← parse_item lo hi dow (strip part)
  ws ← parse_items lo hi dow parts
  ok (vs ++ ws)

abbrev pub is_nil : List ℕ → Bool
is_nil [] = true
is_nil (v ∷ vs) = false

-- `_parse_field`
unfoldable pub parse_field : ℕ → ℕ → Bool → Text → Result CronError (List ℕ × Bool)
parse_field lo hi dow raw =
    let field = strip raw in
    if non_empty field
    then (do
      values ← parse_items lo hi dow (split b',' field)
      if is_nil values then err no_values else ok (values, not (text_eq field (codes "*"))))
    else err empty_field
