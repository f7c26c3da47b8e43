-- ===== src/Leads/ResolveCache/Tests.antt =====
-- Runs of leads/app/resolve_cache.py at concrete domains, where `lower` is of ASCII letters.
use funnelmanager.Prelude.{
  List, Text, [], after, arith, before, codes, false, has_char, if◌then◌else◌, inl, inr, is_space,
  keep, leb, lstrip, ltb, map, refl, some, starts_with, strip, sym, text_eq, true, ℕ, ◌&&◌, ◌+◌,
  ◌∙◌, ◌∷◌, ◌≡◌, ◌≢◌,
}
use mathlib.Core.Bool.{false≢true}
use funnelmanager.Leads.ResolveCache.{
  Marker, after_scheme, marker_of, normalize_resolve_key, is_resolve_miss, mark_resolve_miss,
  clear_resolve_miss,
}
use funnelmanager.Leads.ResolveCache.Key.{normalize_resolve_key_bare}
use funnelmanager.Leads.ResolveCache.Markers.{
  Op, Sweeps, marks, clears, sweeps, ops_done, ops_done_keeps, miss_and_hit,
}

abbrev lower : Text → Text
lower = map (λ c. if leb b'A' c && leb c b'Z' then c + 32 else c)

abbrev url : Text
url = codes " https://WWW.Acme.com/careers?x#y"

acme : normalize_resolve_key lower url ≡ codes "acme.com"
unfolding normalize_resolve_key after_scheme strip lstrip is_space starts_with before after
acme = refl

bare : normalize_resolve_key lower (codes "acme.com") ≡ codes "acme.com"
unfolding normalize_resolve_key after_scheme strip lstrip is_space starts_with before after
bare = refl

initech : normalize_resolve_key lower (codes "initech.com") ≡ codes "initech.com"
unfolding normalize_resolve_key after_scheme strip lstrip is_space starts_with before after
initech = refl

key_bare : has_char b'?' (normalize_resolve_key lower url) ≡ false
key_bare = normalize_resolve_key_bare lower url b'?' (inr (inl refl))

abbrev marker : Marker
marker = record { value = codes "acme.com"; created_at = 3 }

there : marker_of (marker ∷ []) (codes "acme.com") ≡ some marker
unfolding marker_of text_eq
there = refl

abbrev ops : List Op
ops =
    marks true 9 (codes "acme.com")
    ∷ clears true (codes "initech.com")
    ∷ clears false (codes "acme.com")
    ∷ sweeps 600
    ∷ []

elsewhere : normalize_resolve_key lower (codes "initech.com") ≢ codes "acme.com"
elsewhere h = ground (arith, initech)

-- A monitor that removes what is 604800 seconds old.
abbrev sweep : ℕ → List Marker → List Marker
sweep now = keep (λ m. ltb now (m.created_at + 604800))

sweep-Sweeps : Sweeps 604800 sweep
unfolding marker_of
sweep-Sweeps now [] key m h l = cc
sweep-Sweeps now (n ∷ ms) key m h l = ground (arith, sweep-Sweeps now ms key m)

ops_done_keeps_example :
    marker_of (ops_done lower 604800 sweep (marker ∷ []) ops) (codes "acme.com") ≡ some marker
ops_done_keeps_example =
    ops_done_keeps lower 604800 sweep sweep-Sweeps ops (marker ∷ []) (codes "acme.com") marker there
      (tt, ((λ u. elsewhere), ((λ u. absurd (false≢true u)), (omega arith, tt))))

miss_and_hit_example :
    (is_resolve_miss lower true (mark_resolve_miss lower true 5 [] url) (codes "acme.com") ≡ true)
    × (is_resolve_miss lower true (clear_resolve_miss lower true [] url) (codes "acme.com") ≡ false)
miss_and_hit_example =
    miss_and_hit lower 5 [] url (codes "acme.com") (bare ∙ sym acme) (rw acme refl)
