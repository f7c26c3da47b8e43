-- ===== src/Runtime/Grants/Prefix.antt =====
-- What the prefix of a grant covers, and the slashes at its end (`_prefix_match` of grants.py).
use funnelmanager.Prelude.{
  ==_iff, Bool-cases, Text, [], and_true, ap, arith, codes, false, inl, inr, non_empty, not, refl,
  suc, sym, zero, ℕ, ◌&&◌, ◌++◌, ◌==◌, ◌∙◌, ◌∷◌, ◌≡◌, ◌≢◌, ◌⊎◌,
}
use funnelmanager.Runtime.Grants.{rstrip_slash}

-- A number of slashes.
abbrev pub slashes : ℕ → Text
slashes zero = []
slashes (suc n) = b'/' ∷ slashes n

-- A path at a segment boundary: any path under the root, the prefix itself, or what the prefix is before
-- its trailing slashes, a slash, and more.
abbrev pub IsUnder : Text → Text → Type 0
IsUnder prefix path =
    (prefix ≡ codes "/")
    ⊎ (path ≡ prefix)
    ⊎ ((base : Text) × (n : ℕ) × (rest : Text) × (prefix ≡ base ++ slashes n)
        × ((b : Text) → base ≢ b ++ codes "/")
        × (path ≡ (base ++ codes "/") ++ rest))

empty_text : (s : Text) → non_empty s ≡ false → s ≡ []
empty_text [] h = refl
empty_text (c ∷ s) h = cc

-- `rstrip("/")` takes slashes away, and all of them.
pub rstrip_slash_split : (s : Text) → (n : ℕ) × (s ≡ rstrip_slash s ++ slashes n)
unfolding rstrip_slash
rstrip_slash_split [] = (0, refl)
rstrip_slash_split (c ∷ s) =
    let (n, e) = rstrip_slash_split s in
    elim (Bool-cases (c == b'/' && not (non_empty (rstrip_slash s)))) [
      | inl y ↦
          let (a, z) = and_true _ _ y in
          let bare : rstrip_slash s ≡ [] = empty_text (rstrip_slash s) (ground (arith, z)) in
          rw y (
            suc n,
            ap (λ x. x ∷ s) ((==_iff c b'/').0 a)
                ∙ ap (◌∷◌ b'/') (e ∙ ap (λ x. x ++ slashes n) bare),
          )
      | inr r ↦ rw r (n, ap (◌∷◌ c) e)
    ]

no_end : (b : Text) → [] ≢ b ++ codes "/"
no_end [] h = cc
no_end (d ∷ b) h = cc

one_end :
    (c : ℕ) (s b : Text)
    → (c == b'/' && not (non_empty s)) ≡ false
    → ((d : Text) → s ≢ d ++ codes "/")
    → c ∷ s ≢ b ++ codes "/"
one_end c [] [] r f h = let e : c ≡ b'/' = cc in ground (arith, r, e)
one_end c (d ∷ s) [] r f h = cc
one_end c s (d ∷ b) r f h = f b cc

pub rstrip_slash_end : (s b : Text) → rstrip_slash s ≢ b ++ codes "/"
unfolding rstrip_slash
rstrip_slash_end [] b = no_end b
rstrip_slash_end (c ∷ s) b = elim (Bool-cases (c == b'/' && not (non_empty (rstrip_slash s)))) [
  | inl y ↦ rw y (no_end b)
  | inr r ↦ rw r (one_end c (rstrip_slash s) b r (λ d. rstrip_slash_end s d))
]

rstrip_slash-slashes : (n : ℕ) → rstrip_slash (slashes n) ≡ []
unfolding rstrip_slash
rstrip_slash-slashes zero = refl
rstrip_slash-slashes (suc n) = rw (rstrip_slash-slashes n) refl

pub rstrip_slash_base :
    (base : Text) (n : ℕ)
    → ((b : Text) → base ≢ b ++ codes "/")
    → rstrip_slash (base ++ slashes n) ≡ base
unfolding rstrip_slash
rstrip_slash_base [] n h = rstrip_slash-slashes n
rstrip_slash_base (c ∷ s) n h =
    let rest = rstrip_slash_base s n (λ b e. h (c ∷ b) (ap (◌∷◌ c) e)) in
    elim (Bool-cases (c == b'/' && not (non_empty (rstrip_slash (s ++ slashes n))))) [
      | inl y ↦
          let (a, z) = and_true _ _ y in
          let bare : s ≡ [] =
            sym rest ∙ empty_text (rstrip_slash (s ++ slashes n)) (ground (arith, z)) in
          absurd (h [] (ap (◌∷◌ c) bare ∙ ap (λ x. x ∷ []) ((==_iff c b'/').0 a)))
      | inr r ↦ rw r (ap (◌∷◌ c) rest)
    ]
