-- ===== src/Runtime/Grants/Policy/Checks.antt =====
-- grants.py: the checks of `verify_policy`, and the two functions for the realm that it calls.
use funnelmanager.Prelude.{
  Bool, List, Option, Text, [], codes, false, if◌then◌else◌, keep, none, not, some, true, ◌&&◌,
  ◌++◌, ◌∷◌,
}
use funnelmanager.Prelude.Dicts
use funnelmanager.Prelude.Dicts.{Dict}
use funnelmanager.Runtime.Grants.{default_role_grants, among}
use funnelmanager.Runtime.Grants.Policy.{
  Client, Drift, Group, Groups, Policy, Realm, RealmRole, Template, access_roles,
  admin_not_composite, and_more, audience_scope, azp_without_edge, client_missing, composite_extra,
  composite_missing, each, edge_not_allowed, fm_origin_scope, from_nodes, group, group_machine_role,
  group_role_undefined, human_assignable, is_edge, listed, no_azp_entry, non_exchange_azp,
  none_left, origin_minting_clients, origin_scope_missing, over_grant, report, role_names,
  role_undefined, roles_differ, same_table, scope_audience, scope_missing, services,
  svc_exchange_scopes,
}

-- The loop over the roles of one group, and `_walk`.
unfoldable pub group_role : Dict RealmRole → Text → Text → List Drift
group_role roles label role =
    if not (Dicts.has roles role)
    then group_role_undefined label role ∷ []
    else report (not (human_assignable role)) (group_machine_role label role)

unfoldable mutual
  pub walk_group : Dict RealmRole → Group → List Drift
  walk_group roles (group label realm_roles sub_groups) =
      each (group_role roles label) realm_roles ++ walk roles sub_groups

  pub walk : Dict RealmRole → Groups → List Drift
  walk roles none_left = []
  walk roles (and_more g gs) = walk_group roles g ++ walk roles gs

abbrev pub without : List Text → List Text → List Text
without ws vs = keep (λ w. not (among w vs)) ws

abbrev pub is_none_left : List Text → Bool
is_none_left [] = true
is_none_left (w ∷ ws) = false

-- The part of `_verify_realm_roles` about the role `admin`
unfoldable pub verify_admin : Option RealmRole → List Drift
verify_admin none = []
verify_admin (some admin) =
    let missing = without access_roles admin.composites in
    let extra = without admin.composites access_roles in
    report (not admin.composite) admin_not_composite
    ++ report (not (is_none_left missing)) (composite_missing missing)
    ++ report (not (is_none_left extra)) (composite_extra extra)

abbrev pub role_defined : Dict RealmRole → Text → List Drift
role_defined roles role = report (not (Dicts.has roles role)) (role_undefined role)

-- `_verify_realm_roles`
unfoldable pub verify_realm_roles : Realm → List Drift
unfolding verify_admin
verify_realm_roles realm =
    each (role_defined realm.roles) role_names
    ++ verify_admin (Dicts.get realm.roles (codes "admin"))

-- `_verify_realm_groups`
unfoldable pub verify_realm_groups : Realm → List Drift
verify_realm_groups realm = walk realm.roles realm.groups

-- One scope that a client holds.
unfoldable pub scope_granted : Template → Text → Text → List Drift
scope_granted t cid scope = elim (scope_audience t scope) [
  | none ↦ []
  | some dst ↦ report (not (is_edge cid dst)) (over_grant cid scope dst)
]

unfoldable pub over_grants : Template → Text × Client → List Drift
over_grants t (cid, client) = each (scope_granted t cid) client.optional_client_scopes

unfoldable pub under_grants : Template → Dict Client → Text × Text → List Drift
under_grants t clients (src, dst) = elim (Dicts.get clients src) [
  | none ↦ client_missing src dst ∷ []
  | some client ↦
      report (not (among (audience_scope t dst) client.optional_client_scopes))
        (scope_missing src dst)
]

unfoldable pub origin_passthrough : Dict Client → Text → List Drift
origin_passthrough clients cid =
    if among cid origin_minting_clients then [] else elim (Dicts.get clients cid) [
      | none ↦ []
      | some client ↦
          report (not (among fm_origin_scope client.default_client_scopes))
            (origin_scope_missing cid)
    ]

-- The checks of the realm, in `verify_policy`
unfoldable pub verify_realm : Template → Realm → List Drift
verify_realm t realm =
    verify_realm_roles realm
    ++ each (over_grants t) realm.clients
    ++ each (under_grants t realm.clients) svc_exchange_scopes
    ++ each (origin_passthrough realm.clients) from_nodes
    ++ verify_realm_groups realm

-- One edge of the code, and one entry of `azp_allow`
unfoldable pub edge_allowed : Dict (List Text) → Text × Text → List Drift
edge_allowed azp_allow (src, dst) =
    report (not (among src (listed azp_allow dst))) (edge_not_allowed src dst)

abbrev pub src_known : Text → Text → List Drift
src_known dst src =
    report (not (among src non_exchange_azp) && not (is_edge src dst)) (azp_without_edge src dst)

unfoldable pub azp_known : Text × List Text → List Drift
azp_known (dst, srcs) = each (src_known dst) srcs

-- One service
abbrev pub constrained : Dict (List Text) → Text → List Drift
constrained azp_allow svc = report (not (Dicts.has azp_allow svc)) (no_azp_entry svc)

-- The checks of the policy alone.
unfoldable pub verify_mesh : Policy → List Drift
verify_mesh data_json =
    each (constrained data_json.azp_allow) services
    ++ each (edge_allowed data_json.azp_allow) svc_exchange_scopes
    ++ each azp_known data_json.azp_allow
    ++ report (not (same_table data_json.roles default_role_grants)) roles_differ

-- `verify_policy`
unfoldable pub verify_policy : Template → Policy → Option Realm → List Drift
verify_policy t data_json none = verify_mesh data_json
verify_policy t data_json (some realm) = verify_mesh data_json ++ verify_realm t realm
