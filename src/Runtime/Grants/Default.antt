-- ===== src/Runtime/Grants/Default.antt =====
-- Two trust boundaries of the default role grants (grants.py).
use funnelmanager.Prelude.{
  Bool, Bool-cases, List, Text, [], and_true, any, ap, arith, codes, false, inl, inr, not, refl,
  starts_with, text_eq, text_eq_iff, true, ◌&&◌, ◌++◌, ◌||◌, ◌∙◌, ◌∷◌, ◌≡◌,
}
use funnelmanager.Prelude.Dicts
use funnelmanager.Prelude.Dicts.{Dict}
use funnelmanager.Runtime.Grants.{
  Grant, default_role_grants, among, rstrip_slash, prefix_match, service_in, covers, grants_of,
  grants_allow,
}

not_reached : (a j r : Bool) → (a || j || not r) ≡ true → a ≡ false → j ≡ false → r ≡ false
not_reached a j r h p q = ground arith

-- Whether a grant reaches a path, in some service by some method.
abbrev reaches : Text → List Grant → Bool
reaches path gs = any (λ g. prefix_match g.path_prefix path) gs

any-covers :
    (service method path : Text) (gs : List Grant)
    → reaches path gs ≡ false
    → any (covers service method path) gs ≡ false
unfolding covers
any-covers service method path [] h = refl
any-covers service method path (g ∷ gs) h = ground (arith, any-covers service method path gs)

-- A table where only two roles have a grant that reaches the path.
abbrev fenced : Text → Dict (List Grant) → Bool
fenced path [] = true
fenced path ((role, gs) ∷ table) =
    (text_eq role (codes "admin") || text_eq role (codes "jobs-internal") || not (reaches path gs))
    && fenced path table

fenced_grants :
    (path role : Text) (table : Dict (List Grant))
    → fenced path table ≡ true
    → text_eq role (codes "admin") ≡ false
    → text_eq role (codes "jobs-internal") ≡ false
    → reaches path (grants_of table role) ≡ false
unfolding Dicts.get
fenced_grants path role [] h a j = refl
fenced_grants path role ((k, gs) ∷ table) h a j = elim (Bool-cases (text_eq k role)) [
  | inl e ↦
      let (here, _) = and_true _ _ h in
      let same = (text_eq_iff k role).0 e in
      let free : reaches path gs ≡ false =
        not_reached (text_eq k (codes "admin")) (text_eq k (codes "jobs-internal"))
          (reaches path gs) here (ap (λ x. text_eq x (codes "admin")) same ∙ a)
          (ap (λ x. text_eq x (codes "jobs-internal")) same ∙ j) in
      rw (e, grants_of) free
  | inr n ↦ rw (n, grants_of) (fenced_grants path role table (and_true _ _ h).1 a j)
]

default_fenced : (rest : Text) → fenced (codes "/internal/jobs" ++ rest) default_role_grants ≡ true
unfolding prefix_match rstrip_slash starts_with text_eq
default_fenced rest = refl

internal_any :
    (role service method rest : Text)
    → text_eq role (codes "admin") ≡ false
    → text_eq role (codes "jobs-internal") ≡ false
    → any
        (covers service method (codes "/internal/jobs" ++ rest))
        (grants_of default_role_grants role)
      ≡ false
internal_any role service method rest a j =
    any-covers service method (codes "/internal/jobs" ++ rest) (grants_of default_role_grants role)
      (fenced_grants (codes "/internal/jobs" ++ rest) role default_role_grants (default_fenced rest)
        a j)

-- By the default grants, no roles without `admin` and `jobs-internal` reach a path that starts with
-- `/internal/jobs`, in any service by any method.
pub default_internal :
    (roles : List Text) (service method rest : Text)
    → among (codes "admin") roles ≡ false
    → among (codes "jobs-internal") roles ≡ false
    → grants_allow default_role_grants roles service method (codes "/internal/jobs" ++ rest) ≡ false
unfolding grants_allow
default_internal [] service method rest a j = refl
default_internal (role ∷ roles) service method rest a j =
    rw (internal_any role service method rest (ground arith) (ground arith))
      (default_internal roles service method rest (ground arith) (ground arith))

admin_any :
    (service method path : Text)
    → any (covers service method path) (grants_of default_role_grants (codes "admin")) ≡ true
unfolding covers service_in prefix_match Dicts.get text_eq
admin_any service method path = ground arith

-- By the default grants, roles with `admin` reach every path of every service by every method.
pub default_admin :
    (roles : List Text) (service method path : Text)
    → among (codes "admin") roles ≡ true
    → grants_allow default_role_grants roles service method path ≡ true
unfolding grants_allow
default_admin [] service method path h = cc
default_admin (role ∷ roles) service method path h =
    elim (Bool-cases (text_eq role (codes "admin"))) [
      | inl e ↦ rw ((text_eq_iff role (codes "admin")).0 e, admin_any service method path) refl
      | inr n ↦ let below = default_admin roles service method path (ground arith) in ground arith
    ]
