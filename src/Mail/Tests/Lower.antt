-- ===== src/Mail/Tests/Lower.antt =====
-- A `lower` of the letters of ASCII, for which the normal form of an address is its own (mail/app/campaigns.py).
use funnelmanager.Prelude.{
  Bool, Bool-cases, Text, [], ap, arith, if◌then◌else◌, inl, inr, is_space, leb, lstrip, map, not,
  refl, strip, sym, true, ℕ, ◌&&◌, ◌++◌, ◌+◌, ◌∙◌, ◌∷◌, ◌≡◌,
}
use mathlib.Core.List.{reverse, reverse-cons, reverse-reverse, reverse_aux}
use funnelmanager.Mail.Suppression.{norm_email}

abbrev low : ℕ → ℕ
low c = if leb b'A' c && leb c b'Z' then c + 32 else c

abbrev pub ascii_lower : Text → Text
ascii_lower = map low

-- A text that does not start with white space.
abbrev starts_ok : Text → Bool
starts_ok [] = true
starts_ok (c ∷ s) = not (is_space c)

lstrip-starts_ok : (s : Text) → starts_ok (lstrip s) ≡ true
unfolding lstrip
lstrip-starts_ok [] = refl
lstrip-starts_ok (c ∷ s) = ground (arith, lstrip-starts_ok s)

lstrip_same : (s : Text) → starts_ok s ≡ true → lstrip s ≡ s
unfolding lstrip
lstrip_same [] h = refl
lstrip_same (c ∷ s) h = ground arith

starts_ok_left : (s t : Text) → starts_ok (s ++ t) ≡ true → starts_ok s ≡ true
starts_ok_left [] t h = refl
starts_ok_left (c ∷ s) t h = h

reverse-lstrip : (s : Text) → starts_ok (reverse s) ≡ true → starts_ok (reverse (lstrip s)) ≡ true
unfolding lstrip
reverse-lstrip [] h = refl
reverse-lstrip (c ∷ s) h =
    let rest =
      reverse-lstrip s
        (starts_ok_left (reverse s) (c ∷ []) (ap starts_ok (sym (reverse-cons c s)) ∙ h)) in
    elim (Bool-cases (is_space c)) [ inl y ↦ rw y rest | inr n ↦ rw n h ]

strip-starts_ok : (s : Text) → starts_ok (strip s) ≡ true
unfolding strip
strip-starts_ok s =
    reverse-lstrip (reverse (lstrip s))
      (ap starts_ok (reverse-reverse (lstrip s)) ∙ lstrip-starts_ok s)

strip-ends_ok : (s : Text) → starts_ok (reverse (strip s)) ≡ true
unfolding strip
strip-ends_ok s =
    ap starts_ok (reverse-reverse (lstrip (reverse (lstrip s))))
    ∙ lstrip-starts_ok (reverse (lstrip s))

strip_same : (s : Text) → starts_ok s ≡ true → starts_ok (reverse s) ≡ true → strip s ≡ s
unfolding strip
strip_same s h k =
    ap (λ t. reverse (lstrip (reverse t))) (lstrip_same s h)
    ∙ ap reverse (lstrip_same (reverse s) k)
    ∙ reverse-reverse s

reverse_aux-map : (s r : Text) → reverse_aux (map low s) (map low r) ≡ map low (reverse_aux s r)
reverse_aux-map [] r = refl
reverse_aux-map (c ∷ s) r = reverse_aux-map s (c ∷ r)

is_space-low : (c : ℕ) → is_space (low c) ≡ is_space c
unfolding is_space
is_space-low c = ground arith

starts_ok-map : (s : Text) → starts_ok (map low s) ≡ starts_ok s
starts_ok-map [] = refl
starts_ok-map (c ∷ s) = ap not (is_space-low c)

low_twice : (c : ℕ) → low (low c) ≡ low c
low_twice c = ground arith

map-low_twice : (s : Text) → map low (map low s) ≡ map low s
map-low_twice [] = refl
map-low_twice (c ∷ s) = cc (low_twice c, map-low_twice s)

pub norm_email_twice :
    (v : Text) → norm_email ascii_lower (norm_email ascii_lower v) ≡ norm_email ascii_lower v
unfolding norm_email
norm_email_twice v =
    let t = strip v in
    ap (map low) (
      strip_same (map low t) (starts_ok-map t ∙ strip-starts_ok v)
        (ap starts_ok (reverse_aux-map t []) ∙ starts_ok-map (reverse t) ∙ strip-ends_ok v))
    ∙ map-low_twice t
