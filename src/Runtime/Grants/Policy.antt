-- ===== src/Runtime/Grants/Policy.antt =====
-- grants.py: `verify_policy`, which reports where the tables of the code, the policy of the mesh and
-- the realm differ. A report is a value in place of its message.
pub mod Checks
pub mod Sync
use funnelmanager.Prelude.{
  Bool, List, Option, String, Text, [], all, any, codes, ends_with, false, if◌then◌else◌, keep,
  length, map, non_empty, none, some, starts_with, suc, take, text_eq, true, zero, ℕ, ◌&&◌, ◌++◌,
  ◌-◌, ◌||◌, ◌∷◌,
}
use funnelmanager.Prelude.Dicts
use funnelmanager.Prelude.Dicts.{Dict}
use funnelmanager.Runtime.Grants.{Grant, default_role_grants, among}

abbrev pub services : List Text
services =
    codes "knowledge"
    ∷ codes "search"
    ∷ codes "leads"
    ∷ codes "mail"
    ∷ codes "mcp"
    ∷ codes "jobs"
    ∷ codes "agents"
    ∷ []

abbrev pub edge : String → String → Text × Text
edge src dst = (codes src, codes dst)

-- `SVC_EXCHANGE_SCOPES`
abbrev pub svc_exchange_scopes : List (Text × Text)
svc_exchange_scopes =
    edge "mcp" "knowledge"
    ∷ edge "knowledge" "mail"
    ∷ edge "knowledge" "search"
    ∷ edge "knowledge" "agents"
    ∷ edge "search" "leads"
    ∷ edge "mcp" "leads"
    ∷ edge "agents" "mcp"
    ∷ edge "mcp" "search"
    ∷ edge "mcp" "jobs"
    ∷ edge "mcp" "mail"
    ∷ edge "jobs" "search"
    ∷ edge "jobs" "agents"
    ∷ edge "search" "mail"
    ∷ []

abbrev pub non_exchange_azp : List Text
non_exchange_azp = codes "frontend" ∷ codes "mailui" ∷ codes "agentsui" ∷ []

abbrev pub fm_origin_scope : Text
fm_origin_scope = codes "fm-origin"

abbrev pub origin_minting_clients : List Text
origin_minting_clients = codes "agents" ∷ []

-- `sorted({src for src, _ in SVC_EXCHANGE_SCOPES})`
abbrev pub from_nodes : List Text
from_nodes = codes "agents" ∷ codes "jobs" ∷ codes "knowledge" ∷ codes "mcp" ∷ codes "search" ∷ []

-- data.json, as far as it is read
pub record Policy : Type 0 where
  pub azp_allow : Dict (List Text)
  pub roles : Dict (List Grant)

-- A client and a role of the realm.
pub record Client : Type 0 where
  pub optional_client_scopes : List Text
  pub default_client_scopes : List Text

pub record RealmRole : Type 0 where
  pub composite : Bool
  pub composites : List Text

mutual
  pub data Group : Type 0 where
    group : Text → List Text → Groups → Group

  pub data Groups : Type 0 where
    none_left : Groups
    and_more : Group → Groups → Groups

-- The realm: its clients by their id, its roles by their name, and its groups.
pub record Realm : Type 0 where
  pub clients : Dict Client
  pub roles : Dict RealmRole
  pub groups : Groups

-- The template of a scope's name, around its one placeholder.
pub record Template : Type 0 where
  pub prefix : Text
  pub suffix : Text

pub data Drift : Type 0 where
  no_azp_entry : Text → Drift
  edge_not_allowed azp_without_edge : Text → Text → Drift
  roles_differ : Drift
  over_grant : Text → Text → Text → Drift
  client_missing scope_missing : Text → Text → Drift
  origin_scope_missing : Text → Drift
  role_undefined : Text → Drift
  admin_not_composite : Drift
  composite_missing composite_extra : List Text → Drift
  group_role_undefined group_machine_role : Text → Text → Drift

-- `for x in xs: errors.extend(f(x))`
abbrev pub each {ℓ} : {A : Type ℓ} → (A → List Drift) → List A → List Drift
each f [] = []
each f (x ∷ xs) = f x ++ each f xs

-- `if b: errors.append(e)`
abbrev pub report : Bool → Drift → List Drift
report true e = e ∷ []
report false e = []

abbrev pub is_edge : Text → Text → Bool
is_edge src dst = any (λ e. text_eq e.0 src && text_eq e.1 dst) svc_exchange_scopes

abbrev pub listed : Dict (List Text) → Text → List Text
listed d k = elim (Dicts.get d k) [ none ↦ [] | some ws ↦ ws ]

-- `a == b` of lists of texts, of grants, and of tables
unfoldable pub same_texts : List Text → List Text → Bool
same_texts [] [] = true
same_texts (a ∷ xs) (b ∷ ys) = text_eq a b && same_texts xs ys
same_texts _ _ = false

unfoldable pub same_service : Option Text → Option Text → Bool
same_service none none = true
same_service (some a) (some b) = text_eq a b
same_service _ _ = false

unfoldable pub same_grants : List Grant → List Grant → Bool
unfolding same_texts same_service
same_grants [] [] = true
same_grants (a ∷ xs) (b ∷ ys) =
    same_service a.service b.service
    && same_texts a.methods b.methods
    && text_eq a.path_prefix b.path_prefix
    && same_grants xs ys
same_grants _ _ = false

unfoldable pub in_table : Dict (List Grant) → Text × List Grant → Bool
unfolding same_grants
in_table table kv = elim (Dicts.get table kv.0) [ none ↦ false | some gs ↦ same_grants kv.1 gs ]

unfoldable pub same_table : Dict (List Grant) → Dict (List Grant) → Bool
unfolding in_table
same_table a b = all (in_table b) a && all (λ kv. Dicts.has a kv.0) b

unfoldable pub drop : ℕ → Text → Text
drop zero s = s
drop (suc n) [] = []
drop (suc n) (c ∷ s) = drop n s

-- `_scope_audience`
unfoldable pub scope_audience : Template → Text → Option Text
unfolding drop
scope_audience t scope =
    let audience = drop (length t.prefix) (take (length scope - length t.suffix) scope) in
    if starts_with scope t.prefix && ends_with scope t.suffix
    then if non_empty audience then some audience else none
    else none

-- `_audience_scope`
abbrev pub audience_scope : Template → Text → Text
audience_scope t audience = t.prefix ++ (audience ++ t.suffix)

abbrev pub is_access : Text → Bool
is_access role = ends_with role (codes "-access")

abbrev pub role_names : List Text
role_names = map (λ kv. kv.0) default_role_grants

abbrev pub access_roles : List Text
access_roles = keep is_access role_names

abbrev pub human_assignable : Text → Bool
human_assignable role = among role access_roles || text_eq role (codes "admin")
