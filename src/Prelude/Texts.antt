-- ===== src/Prelude/Texts.antt =====
-- Python's `str` as a list of code points, with the string methods that the program calls.
use Prim.Native.Nat.{ℕ}
use Prim.Native.Char.{code}
use Prim.Native.String.{String}
use mathlib.Core.Path.{◌≡◌, refl}
use mathlib.Core.Logic.{◌↔◌}
use mathlib.Core.Bool.{Bool, true, false, ◌&&◌, ◌||◌}
use mathlib.Core.List.{List, [], ◌∷◌, ◌++◌, reverse}
use native.Mathlib.Omega.{arith}
use package.funnelmanager.Prelude.Tests.{leb, ◌==◌, if◌then◌else◌}

abbrev pub Text : Type 0
Text = List ℕ

-- The text of a literal.
abbrev pub codes : String → Text
codes String.[] = []
codes (String.◌∷◌ c s) = code c ∷ codes s

-- `s == t`
unfoldable pub text_eq : Text → Text → Bool
text_eq [] [] = true
text_eq [] (d ∷ t) = false
text_eq (c ∷ s) [] = false
text_eq (c ∷ s) (d ∷ t) = c == d && text_eq s t

text_eq→eq : (s t : Text) → text_eq s t ≡ true → s ≡ t
unfolding text_eq
text_eq→eq [] [] h = refl
text_eq→eq [] (d ∷ t) h = ground arith
text_eq→eq (c ∷ s) [] h = ground arith
text_eq→eq (c ∷ s) (d ∷ t) h = ground (arith, text_eq→eq s t)

pub text_eq_refl : (s : Text) → text_eq s s ≡ true
unfolding text_eq
text_eq_refl [] = refl
text_eq_refl (c ∷ s) = ground (arith, text_eq_refl s)

eq→text_eq : (s t : Text) → s ≡ t → text_eq s t ≡ true
eq→text_eq s t h = ground (arith, text_eq_refl s)

pub text_eq_iff : (s t : Text) → (text_eq s t ≡ true) ↔ (s ≡ t)
text_eq_iff s t = (text_eq→eq s t, eq→text_eq s t)

-- The truth of a `str`.
abbrev pub non_empty : Text → Bool
non_empty [] = false
non_empty (c ∷ s) = true

-- `a or b` on texts.
abbrev pub or_text : Text → Text → Text
or_text [] b = b
or_text (c ∷ s) b = c ∷ s

-- The code points that `str.isspace` accepts.
unfoldable pub is_space : ℕ → Bool
is_space c =
    leb 9 c && leb c 13
    || leb 28 c && leb c 32
    || c == 0x85
    || c == 0xa0
    || c == 0x1680
    || leb 0x2000 c && leb c 0x200a
    || c == 0x2028
    || c == 0x2029
    || c == 0x202f
    || c == 0x205f
    || c == 0x3000

-- `s.lstrip()`
unfoldable pub lstrip : Text → Text
unfolding is_space
lstrip [] = []
lstrip (c ∷ s) = if is_space c then lstrip s else c ∷ s

-- `s.strip()`
unfoldable pub strip : Text → Text
unfolding lstrip
strip s = reverse (lstrip (reverse (lstrip s)))

-- `s.startswith(p)`
unfoldable pub starts_with : Text → Text → Bool
starts_with s [] = true
starts_with [] (d ∷ p) = false
starts_with (c ∷ s) (d ∷ p) = c == d && starts_with s p

-- `s.endswith(p)`
unfoldable pub ends_with : Text → Text → Bool
unfolding starts_with
ends_with s p = starts_with (reverse s) (reverse p)

-- `c in s`, for a single character
unfoldable pub has_char : ℕ → Text → Bool
has_char c [] = false
has_char c (d ∷ s) = c == d || has_char c s

-- The text before the first `c`, and the text after it: `partition`, without its middle part. The
-- second is empty where `c` does not occur.
unfoldable pub before : ℕ → Text → Text
before c [] = []
before c (d ∷ s) = let rest = before c s in if c == d then [] else d ∷ rest

unfoldable pub after : ℕ → Text → Text
after c [] = []
after c (d ∷ s) = let rest = after c s in if c == d then s else rest

pub before-after : (c : ℕ) (s : Text) → has_char c s ≡ true → s ≡ before c s ++ c ∷ after c s
unfolding has_char before after
before-after c [] h = cc
before-after c (d ∷ s) h = ground (arith, before-after c s)

-- A text without the separator stands before the first one.
pub before-append : (c : ℕ) (s t : Text) → has_char c s ≡ false → before c (s ++ c ∷ t) ≡ s
unfolding has_char before
before-append c [] t h = ground arith
before-append c (d ∷ s) t h = ground (arith, before-append c s t)

pub after-append : (c : ℕ) (s t : Text) → has_char c s ≡ false → after c (s ++ c ∷ t) ≡ t
unfolding has_char after
after-append c [] t h = ground arith
after-append c (d ∷ s) t h = ground (arith, after-append c s t)

pub has_char-append : (c : ℕ) (s t : Text) → has_char c (s ++ c ∷ t) ≡ true
unfolding has_char
has_char-append c [] t = ground arith
has_char-append c (d ∷ s) t = ground (arith, has_char-append c s t)

-- `s.split(c)`: the current item is collected in reverse.
split_from : ℕ → Text → Text → List Text
split_from c item [] = reverse item ∷ []
split_from c item (d ∷ s) =
    if c == d then reverse item ∷ split_from c [] s else split_from c (d ∷ item) s

unfoldable pub split : ℕ → Text → List Text
unfolding split_from
split c s = split_from c [] s

push_word : Text → List Text → List Text
push_word [] ws = ws
push_word (c ∷ w) ws = reverse (c ∷ w) ∷ ws

words_from : Text → Text → List Text
unfolding is_space push_word
words_from w [] = push_word w []
words_from w (d ∷ s) = if is_space d then push_word w (words_from [] s) else words_from (d ∷ w) s

-- `s.split()`: the maximal runs without white space.
unfoldable pub words : Text → List Text
unfolding words_from
words s = words_from [] s
