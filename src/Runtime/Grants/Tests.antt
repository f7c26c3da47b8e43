-- ===== src/Runtime/Grants/Tests.antt =====
-- Runs of libs/fm_runtime/fm_runtime/grants.py at concrete requests and documents.
use funnelmanager.Prelude.{
  In, List, Text, [], codes, ends_with, false, refl, some, starts_with, text_eq, true, ◌++◌, ◌↔◌,
  ◌∷◌, ◌≡◌,
}
use funnelmanager.Prelude.Dicts
use funnelmanager.Prelude.Dicts.{Dict}
use funnelmanager.Runtime.Grants.{
  Grant, default_role_grants, rstrip_slash, prefix_match, grants_of, grants_allow,
}
use funnelmanager.Runtime.Grants.Prefix.{IsUnder}
use funnelmanager.Runtime.Grants.Allow.{prefix_match-IsUnder, Covers, grants_allow-Covers}
use funnelmanager.Runtime.Grants.Default.{default_internal, default_admin}
use funnelmanager.Runtime.Grants.Policy.{
  Policy, Client, RealmRole, group, none_left, and_more, Realm, Template, access_roles, same_texts,
  same_service, same_grants, in_table, same_table, drop, scope_audience,
}
use funnelmanager.Runtime.Grants.Policy.Checks.{
  group_role, walk_group, walk, verify_admin, verify_realm_roles, verify_realm_groups,
  scope_granted, over_grants, under_grants, origin_passthrough, verify_realm, edge_allowed,
  azp_known, verify_mesh, verify_policy,
}
use funnelmanager.Runtime.Grants.Policy.Sync.{MeshInSync, RealmInSync, verify_policy-nil}

-- A prefix ends at a segment's boundary.
searches : prefix_match (codes "/api/search") (codes "/api/searches") ≡ false
unfolding prefix_match rstrip_slash starts_with text_eq
searches = refl

search_child : prefix_match (codes "/api/search/") (codes "/api/search/7") ≡ true
unfolding prefix_match rstrip_slash starts_with text_eq
search_child = refl

-- Every trailing slash of a prefix is dropped, where the policy of the mesh drops one.
two_slashes : prefix_match (codes "/api//") (codes "/api/x") ≡ true
unfolding prefix_match rstrip_slash starts_with text_eq
two_slashes = refl

prefix_match-IsUnder_example :
    (prefix_match (codes "/api/search") (codes "/api/search/7") ≡ true)
    ↔ IsUnder (codes "/api/search") (codes "/api/search/7")
prefix_match-IsUnder_example = prefix_match-IsUnder (codes "/api/search") (codes "/api/search/7")

grants_allow-Covers_example :
    (grants_allow default_role_grants
        (codes "mail-access" ∷ [])
        (codes "mail")
        (codes "POST")
        (codes "/api/mail/send")
      ≡ true)
    ↔ ((role : Text) × (g : Grant) × In role (codes "mail-access" ∷ [])
        × In g (grants_of default_role_grants role)
        × Covers (codes "mail") (codes "POST") (codes "/api/mail/send") g)
grants_allow-Covers_example =
    grants_allow-Covers default_role_grants (codes "mail-access" ∷ []) (codes "mail") (codes "POST")
      (codes "/api/mail/send")

default_internal_example :
    grants_allow default_role_grants
      (codes "search-access" ∷ [])
      (codes "search")
      (codes "GET")
      (codes "/internal/jobs" ++ codes "/v1/stream")
    ≡ false
unfolding text_eq
default_internal_example =
    default_internal (codes "search-access" ∷ []) (codes "search") (codes "GET")
      (codes "/v1/stream") refl refl

admin_reaches :
    grants_allow default_role_grants
      (codes "admin" ∷ [])
      (codes "mail")
      (codes "DELETE")
      (codes "/api/mail")
    ≡ true
unfolding text_eq
admin_reaches =
    default_admin (codes "admin" ∷ []) (codes "mail") (codes "DELETE") (codes "/api/mail") refl

abbrev template : Template
template = record { prefix = codes "svc-"; suffix = [] }

abbrev data_json : Policy
data_json = record {
  azp_allow =
      (codes "knowledge", codes "frontend" ∷ codes "mcp" ∷ [])
      ∷ (codes "search", codes "frontend" ∷ codes "knowledge" ∷ codes "mcp" ∷ codes "jobs" ∷ [])
      ∷ (codes "leads", codes "search" ∷ codes "mcp" ∷ [])
      ∷ (codes "mail", codes "mailui" ∷ codes "knowledge" ∷ codes "mcp" ∷ codes "search" ∷ [])
      ∷ (codes "mcp", codes "agents" ∷ [])
      ∷ (codes "jobs", codes "mcp" ∷ [])
      ∷ (codes "agents", codes "agentsui" ∷ codes "knowledge" ∷ codes "jobs" ∷ [])
      ∷ [];
  roles = default_role_grants;
}

abbrev client : List Text → List Text → Client
client optional default = record {
  optional_client_scopes = optional;
  default_client_scopes = default;
}

abbrev plain_roles : List Text → Dict RealmRole
plain_roles [] = []
plain_roles (w ∷ ws) = (w, record { composite = false; composites = [] }) ∷ plain_roles ws

abbrev realm : Realm
realm = record {
  clients =
      (
        codes "mcp",
        client
            (codes "svc-knowledge"
              ∷ codes "svc-leads"
              ∷ codes "svc-search"
              ∷ codes "svc-jobs"
              ∷ codes "svc-mail"
              ∷ codes "profile"
              ∷ [])
            (codes "fm-origin" ∷ []),
      )
      ∷ (
        codes "knowledge",
        client (codes "svc-mail" ∷ codes "svc-search" ∷ codes "svc-agents" ∷ [])
            (codes "fm-origin" ∷ []),
      )
      ∷ (
        codes "search",
        client (codes "svc-leads" ∷ codes "svc-mail" ∷ []) (codes "fm-origin" ∷ []),
      )
      ∷ (
        codes "jobs",
        client (codes "svc-search" ∷ codes "svc-agents" ∷ []) (codes "fm-origin" ∷ []),
      )
      ∷ (codes "agents", client (codes "svc-mcp" ∷ []) [])
      ∷ [];
  roles =
      (codes "admin", record { composite = true; composites = access_roles })
      ∷ (codes "internal-service", record { composite = false; composites = [] })
      ∷ (codes "jobs-internal", record { composite = false; composites = [] })
      ∷ (codes "knowledge-internal", record { composite = false; composites = [] })
      ∷ plain_roles access_roles;
  groups =
      and_more
        (group (codes "/standard") (codes "search-access" ∷ codes "mail-access" ∷ []) (
          and_more (group (codes "/standard/power") (codes "jobs-access" ∷ []) none_left)
            none_left))
        (and_more (group (codes "/admins") (codes "admin" ∷ []) none_left) none_left);
}

in_sync : verify_policy template data_json (some realm) ≡ []
unfolding same_texts same_service same_grants in_table same_table drop scope_audience group_role
    walk_group walk verify_admin verify_realm_roles verify_realm_groups scope_granted over_grants
    under_grants origin_passthrough verify_realm edge_allowed azp_known verify_mesh verify_policy
    Dicts.get Dicts.has text_eq starts_with ends_with
in_sync = refl

verify_policy-nil_example : MeshInSync data_json × RealmInSync template realm
verify_policy-nil_example = verify_policy-nil template data_json realm in_sync
