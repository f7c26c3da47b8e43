-- ===== src/Runtime/Grants.antt =====
-- libs/fm_runtime/fm_runtime/grants.py: the grants of the roles, and the check that the tables here, the
-- policy of the mesh and the realm agree. The documents are taken at the shapes that they have: a
-- missing list is an empty one, and every entry of a list is of its kind.
pub mod Prefix
pub mod Allow
pub mod Default
pub mod Policy
pub mod Tests
use funnelmanager.Prelude.{
  Bool, List, Option, String, Text, [], any, codes, false, if◌then◌else◌, non_empty, none, not,
  some, starts_with, text_eq, true, ◌&&◌, ◌*◌, ◌++◌, ◌/◌, ◌==◌, ◌||◌, ◌∷◌,
}
use funnelmanager.Prelude.Dicts
use funnelmanager.Prelude.Dicts.{Dict}

-- A grant. A missing `service` is `none`, a missing `path_prefix` is empty.
pub record Grant : Type 0 where
  pub service : Option Text
  pub methods : List Text
  pub path_prefix : Text

abbrev pub grant : String → String → String → Grant
grant service method path_prefix = record {
  service = some (codes service);
  methods = codes method ∷ [];
  path_prefix = codes path_prefix;
}

-- `_DEFAULT_ROLE_GRANTS`
abbrev pub default_role_grants : Dict (List Grant)
default_role_grants =
    (codes "knowledge-access", grant "knowledge" "*" "/api/knowledge" ∷ [])
    ∷ (codes "admin", grant "*" "*" "/" ∷ [])
    ∷ (codes "internal-service", grant "leads" "*" "/api/leads" ∷ [])
    ∷ (
      codes "search-access",
      grant "search" "*" "/api/search" ∷ grant "leads" "*" "/api/leads" ∷ [],
    )
    ∷ (codes "mail-access", grant "mail" "*" "/api/mail" ∷ [])
    ∷ (codes "jobs-access", grant "jobs" "*" "/api/jobs" ∷ [])
    ∷ (codes "agents-access", grant "agents" "*" "/api/agents" ∷ [])
    ∷ (
      codes "jobs-internal",
      grant "search" "*" "/internal/jobs" ∷ grant "agents" "*" "/internal/jobs" ∷ [],
    )
    ∷ (
      codes "knowledge-internal",
      grant "mail" "GET" "/api/mail"
          ∷ grant "search" "GET" "/api/search"
          ∷ grant "agents" "GET" "/api/agents"
          ∷ [],
    )
    ∷ []

-- `w in ws`
abbrev pub among : Text → List Text → Bool
among w [] = false
among w (v ∷ ws) = text_eq v w || among w ws

-- `prefix.rstrip("/")`
unfoldable pub rstrip_slash : Text → Text
rstrip_slash [] = []
rstrip_slash (c ∷ s) =
    let rest = rstrip_slash s in if c == b'/' && not (non_empty rest) then [] else c ∷ rest

-- `_prefix_match`
unfoldable pub prefix_match : Text → Text → Bool
prefix_match prefix path =
    text_eq prefix (codes "/")
    || text_eq path prefix
    || starts_with path (rstrip_slash prefix ++ codes "/")

-- The body of the inner loop: whether a grant covers the request.
unfoldable pub service_in : Option Text → Text → Bool
service_in none service = false
service_in (some s) service = text_eq s service || text_eq s (codes "*")

unfoldable pub covers : Text → Text → Text → Grant → Bool
covers service method path g =
    service_in g.service service
    && (among (codes "*") g.methods || among method g.methods)
    && prefix_match g.path_prefix path

-- `table.get(role, ())`
abbrev pub grants_of : Dict (List Grant) → Text → List Grant
grants_of table role = elim (Dicts.get table role) [ none ↦ [] | some gs ↦ gs ]

-- `grants_allow`, over a table
unfoldable pub grants_allow : Dict (List Grant) → List Text → Text → Text → Text → Bool
grants_allow table [] service method path = false
grants_allow table (role ∷ roles) service method path =
    let rest = grants_allow table roles service method path in
    if any (covers service method path) (grants_of table role) then true else rest
