-- ===== src/Leads/ResolveCache/Key.antt =====
-- The key of a marker is a bare host (`normalize_resolve_key` of resolve_cache.py).
use funnelmanager.Prelude.{
  Bool-cases, In, Text, [], arith, before, false, has_char, inl, inr, lstrip, non_empty, refl,
  strip, ℕ, ◌++◌, ◌||◌, ◌∙◌, ◌∷◌, ◌≡◌,
}
use mathlib.Core.List.{reverse, reverse-cons}
use funnelmanager.Leads.ResolveCache.{without_scheme, without_www, normalize_resolve_key}

has_char-before_self : (c : ℕ) (s : Text) → has_char c (before c s) ≡ false
unfolding has_char before
has_char-before_self c [] = refl
has_char-before_self c (d ∷ s) = ground (arith, has_char-before_self c s)

has_char-before : (c d : ℕ) (s : Text) → has_char c s ≡ false → has_char c (before d s) ≡ false
unfolding has_char before
has_char-before c d [] h = refl
has_char-before c d (e ∷ s) h = ground (arith, has_char-before c d s)

has_char-lstrip : (c : ℕ) (s : Text) → has_char c s ≡ false → has_char c (lstrip s) ≡ false
unfolding has_char lstrip
has_char-lstrip c [] h = refl
has_char-lstrip c (d ∷ s) h = ground (arith, has_char-lstrip c s)

has_char-append_or : (c : ℕ) (s t : Text) → has_char c (s ++ t) ≡ (has_char c s || has_char c t)
unfolding has_char
has_char-append_or c [] t = refl
has_char-append_or c (d ∷ s) t = ground (arith, has_char-append_or c s t)

has_char-reverse : (c : ℕ) (s : Text) → has_char c (reverse s) ≡ has_char c s
unfolding has_char
has_char-reverse c [] = refl
has_char-reverse c (d ∷ s) =
    rw (reverse-cons d s, has_char-append_or c (reverse s) (d ∷ []), has_char-reverse c s)
      (ground arith)

has_char-strip : (c : ℕ) (s : Text) → has_char c s ≡ false → has_char c (strip s) ≡ false
unfolding strip
has_char-strip c s h =
    has_char-reverse c (lstrip (reverse (lstrip s)))
    ∙ has_char-lstrip c (reverse (lstrip s)) (has_char-reverse c (lstrip s) ∙ has_char-lstrip c s h)

-- The key of any text has no path, query or fragment.
pub normalize_resolve_key_bare :
    (lower : Text → Text) (value : Text) (c : ℕ)
    → In c (b'/' ∷ b'?' ∷ b'#' ∷ [])
    → has_char c (normalize_resolve_key lower value) ≡ false
unfolding normalize_resolve_key has_char
normalize_resolve_key_bare lower value c i =
    let cleaned = without_www (without_scheme (lower (strip value))) in
    let cut = before b'#' (before b'?' (before b'/' cleaned)) in
    elim (Bool-cases (non_empty (lower (strip value)))) [
      | inr n ↦ rw n refl
      | inl q ↦ rw q (
          has_char-strip c cut (elim i [
            | inl e ↦ rw e (
                has_char-before b'/' b'#' (before b'?' (before b'/' cleaned)) (
                  has_char-before b'/' b'?' (before b'/' cleaned)
                    (has_char-before_self b'/' cleaned)))
            | inr (inl e) ↦ rw e (
                has_char-before b'?' b'#' (before b'?' (before b'/' cleaned))
                  (has_char-before_self b'?' (before b'/' cleaned)))
            | inr (inr (inl e)) ↦
                rw e (has_char-before_self b'#' (before b'?' (before b'/' cleaned)))
            | inr (inr (inr z)) ↦ elim z [ ]
          ]))
    ]
