-- ===== src/Runtime/Grants/Policy/Sync.antt =====
-- What `verify_policy` of grants.py shows where it reports nothing.
use funnelmanager.Prelude.{
  Bool, Bool-cases, In, List, Option-cases, Text, [], ap, arith, codes, false, inl, inr, not, refl,
  some, sym, true, ◌&&◌, ◌++◌, ◌∙◌, ◌∷◌, ◌≡◌,
}
use funnelmanager.Prelude.Dicts
use funnelmanager.Prelude.Dicts.{Dict}
use funnelmanager.Runtime.Grants.{default_role_grants, among}
use funnelmanager.Runtime.Grants.Policy.{
  access_roles, services, svc_exchange_scopes, non_exchange_azp, fm_origin_scope,
  origin_minting_clients, from_nodes, Policy, Client, RealmRole, Group, group, Groups, none_left,
  and_more, Realm, Template, Drift, admin_not_composite, composite_missing, composite_extra,
  group_machine_role, roles_differ, role_undefined, no_azp_entry, edge_not_allowed,
  azp_without_edge, over_grant, scope_missing, each, report, is_edge, listed, same_table,
  scope_audience, audience_scope, role_names, human_assignable,
}
use funnelmanager.Runtime.Grants.Policy.Checks.{
  without, is_none_left, verify_admin, scope_granted, src_known, constrained, role_defined,
  group_role, walk_group, walk, verify_realm_roles, verify_realm_groups, over_grants, under_grants,
  origin_passthrough, verify_realm, edge_allowed, azp_known, verify_mesh, verify_policy,
}

append_nil : (xs ys : List Drift) → xs ++ ys ≡ [] → (xs ≡ []) × (ys ≡ [])
append_nil [] ys h = (refl, h)
append_nil (x ∷ xs) ys h = cc

report_nil : (b : Bool) (e : Drift) → report b e ≡ [] → b ≡ false
report_nil true e h = cc
report_nil false e h = refl

each_nil :
    {A : Type 0} (f : A → List Drift) (xs : List A) → each f xs ≡ [] → (x : A) → In x xs → f x ≡ []
each_nil f [] h x i = elim i [ ]
each_nil f (y ∷ xs) h x (inl e) = ap f e ∙ (append_nil (f y) (each f xs) h).0
each_nil f (y ∷ xs) h x (inr i) = each_nil f xs (append_nil (f y) (each f xs) h).1 x i

not-false : (b : Bool) → not b ≡ false → b ≡ true
not-false true h = refl
not-false false h = cc

-- A group confers roles that are defined and for humans only, and so do the groups below it.
mutual
  pub SafeGroup : Dict RealmRole → Group → Type 0
  SafeGroup roles (group label realm_roles sub_groups) =
      ((role : Text)
        → In role realm_roles
        → (Dicts.has roles role ≡ true) × (human_assignable role ≡ true))
      × SafeGroups roles sub_groups

  pub SafeGroups : Dict RealmRole → Groups → Type 0
  SafeGroups roles none_left = Unit
  SafeGroups roles (and_more g gs) = SafeGroup roles g × SafeGroups roles gs

group_role-nil :
    (roles : Dict RealmRole) (label role : Text)
    → group_role roles label role ≡ []
    → (Dicts.has roles role ≡ true) × (human_assignable role ≡ true)
unfolding group_role
group_role-nil roles label role h = elim (Bool-cases (Dicts.has roles role)) [
  | inl d ↦ (
    d,
    not-false _
        (report_nil (not (human_assignable role)) (group_machine_role label role) (ground arith)),
  )
  | inr n ↦ ground arith
]

mutual
  unfolding walk_group walk SafeGroup SafeGroups

  walk_group-SafeGroup :
      (roles : Dict RealmRole) (g : Group) → walk_group roles g ≡ [] → SafeGroup roles g
  walk_group-SafeGroup roles (group label realm_roles sub_groups) h =
      let (a, b) = append_nil _ _ h in
      (
        λ role i.
            group_role-nil roles label role
              (each_nil (group_role roles label) realm_roles a role i),
        walk-SafeGroups roles sub_groups b,
      )

  walk-SafeGroups :
      (roles : Dict RealmRole) (gs : Groups) → walk roles gs ≡ [] → SafeGroups roles gs
  walk-SafeGroups roles none_left h = tt
  walk-SafeGroups roles (and_more g gs) h =
      let (a, b) = append_nil _ _ h in (walk_group-SafeGroup roles g a, walk-SafeGroups roles gs b)

-- What the policy of the mesh owes to the code.
pub record MeshInSync (data_json : Policy) : Type 0 where
  pub constrained : (svc : Text) → In svc services → Dicts.has data_json.azp_allow svc ≡ true
  pub allowed :
      (src dst : Text)
      → In (src, dst) svc_exchange_scopes
      → among src (listed data_json.azp_allow dst) ≡ true
  pub known :
      (src dst : Text) (srcs : List Text)
      → In (dst, srcs) data_json.azp_allow
      → In src srcs
      → among src non_exchange_azp ≡ false
      → is_edge src dst ≡ true
  pub same_roles : same_table data_json.roles default_role_grants ≡ true

-- What the realm owes to the code: no client may exchange but along an edge, every edge is held, the
-- origin is passed on, the roles are defined, `admin` is a composite of exactly the access roles, and
-- no group confers a machine's role.
pub record RealmInSync (t : Template) (realm : Realm) : Type 0 where
  pub defined : (role : Text) → In role role_names → Dicts.has realm.roles role ≡ true
  pub admin_exact :
      (admin : RealmRole)
      → Dicts.get realm.roles (codes "admin") ≡ some admin
      → (admin.composite ≡ true)
        × (is_none_left (without access_roles admin.composites) ≡ true)
        × (is_none_left (without admin.composites access_roles) ≡ true)
  pub least :
      (cid scope dst : Text) (client : Client)
      → In (cid, client) realm.clients
      → In scope client.optional_client_scopes
      → scope_audience t scope ≡ some dst
      → is_edge cid dst ≡ true
  pub held :
      (src dst : Text)
      → In (src, dst) svc_exchange_scopes
      → (client : Client) × (Dicts.get realm.clients src ≡ some client)
        × (among (audience_scope t dst) client.optional_client_scopes ≡ true)
  pub origin_kept :
      (cid : Text) (client : Client)
      → In cid from_nodes
      → among cid origin_minting_clients ≡ false
      → Dicts.get realm.clients cid ≡ some client
      → among fm_origin_scope client.default_client_scopes ≡ true
  pub safe_groups : SafeGroups realm.roles realm.groups

verify_mesh-nil : (data_json : Policy) → verify_mesh data_json ≡ [] → MeshInSync data_json
unfolding verify_mesh edge_allowed azp_known
verify_mesh-nil data_json h =
    let (h3, roles) = append_nil _ _ h in
    let (h2, azps) = append_nil _ _ h3 in
    let (svcs, edges) = append_nil _ _ h2 in
    record {
      constrained = λ svc i. not-false _ (
          report_nil _ (no_azp_entry svc)
            (each_nil (constrained data_json.azp_allow) services svcs svc i));
      allowed = λ src dst i. not-false _ (
          report_nil _ (edge_not_allowed src dst)
            (each_nil (edge_allowed data_json.azp_allow) svc_exchange_scopes edges (src, dst) i));
      known = λ src dst srcs i j n.
          let each_src = each_nil azp_known data_json.azp_allow azps (dst, srcs) i in
          let r =
            report_nil (not (among src non_exchange_azp) && not (is_edge src dst))
              (azp_without_edge src dst) (each_nil (src_known dst) srcs each_src src j) in
          ground arith;
      same_roles =
          not-false _
            (report_nil (not (same_table data_json.roles default_role_grants)) roles_differ roles);
    }

verify_admin-nil :
    (admin : RealmRole)
    → verify_admin (some admin) ≡ []
    → (admin.composite ≡ true)
      × (is_none_left (without access_roles admin.composites) ≡ true)
      × (is_none_left (without admin.composites access_roles) ≡ true)
unfolding verify_admin
verify_admin-nil admin h =
    let (front, extra) = append_nil _ _ h in
    let (flag, missing) = append_nil _ _ front in
    (
      not-false _ (report_nil (not admin.composite) admin_not_composite flag),
      not-false _ (
          report_nil (not (is_none_left (without access_roles admin.composites)))
            (composite_missing (without access_roles admin.composites)) missing),
      not-false _ (
          report_nil (not (is_none_left (without admin.composites access_roles)))
            (composite_extra (without admin.composites access_roles)) extra),
    )

verify_realm-nil : (t : Template) (realm : Realm) → verify_realm t realm ≡ [] → RealmInSync t realm
unfolding scope_granted verify_realm verify_realm_roles verify_realm_groups over_grants under_grants
    origin_passthrough
verify_realm-nil t realm h =
    let (h4, groups) = append_nil _ _ h in
    let (h3, origins) = append_nil _ _ h4 in
    let (h2, unders) = append_nil _ _ h3 in
    let (roles, overs) = append_nil _ _ h2 in
    let (names, admin) = append_nil _ _ roles in
    record {
      defined = λ role i. not-false _ (
          report_nil _ (role_undefined role)
            (each_nil (role_defined realm.roles) role_names names role i));
      admin_exact = λ r q. verify_admin-nil r (ap verify_admin (sym q) ∙ admin);
      least = λ cid scope dst client i j q.
          let each_scope = each_nil (over_grants t) realm.clients overs (cid, client) i in
          let one =
            each_nil (scope_granted t cid) client.optional_client_scopes each_scope scope j in
          not-false _
            (report_nil (not (is_edge cid dst)) (over_grant cid scope dst) (ground arith));
      held = λ src dst i.
          let one =
            each_nil (under_grants t realm.clients) svc_exchange_scopes unders (src, dst) i in
          elim (Option-cases (Dicts.get realm.clients src)) [
            | inl q ↦ absurd (ground arith)
            | inr (client, q) ↦ (
              client,
              q,
              not-false _ (
                  report_nil (not (among (audience_scope t dst) client.optional_client_scopes))
                    (scope_missing src dst) (ground arith)),
            )
          ];
      origin_kept = λ cid client i m q.
          let one = each_nil (origin_passthrough realm.clients) from_nodes origins cid i in
          ground arith;
      safe_groups = walk-SafeGroups realm.roles realm.groups groups;
    }

-- Where `verify_policy` reports nothing on a policy and a realm, both are in step with the code:
-- every service is constrained and every edge allowed, every other entry of `azp_allow` is a browser's
-- or an edge, the role grants are the code's; the realm defines the roles of the code and
-- composes an `admin` of exactly the access roles, its clients hold the exchange scopes of the edges and no others, pass the origin on, and its groups, at every
-- depth, confer only roles that are defined and for humans.
pub verify_policy-nil :
    (t : Template) (data_json : Policy) (realm : Realm)
    → verify_policy t data_json (some realm) ≡ []
    → MeshInSync data_json × RealmInSync t realm
unfolding verify_policy
verify_policy-nil t data_json realm h =
    let (a, b) = append_nil _ _ h in (verify_mesh-nil data_json a, verify_realm-nil t realm b)
