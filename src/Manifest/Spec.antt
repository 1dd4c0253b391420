-- ===== src/Manifest/Spec.antt =====
-- src/management/manifest/spec.rs: the value that a manifest is. The metadata of a resource and the
-- password of a user are carried and never read by what is modelled: they are left out.
use axiam_rust_sdk.Prelude.{String, Bool, true, Option, none, some, List, []}

pub data PermissionEffect : Type 0 where
  allow deny : PermissionEffect

pub record ScopeSpec : Type 0 where
  pub key : String
  pub name : String
  pub description : String

pub record ResourceSpec : Type 0 where
  pub key : String
  pub name : String
  pub resource_type : String
  pub parent : Option String
  pub scopes : List ScopeSpec

pub record PermissionSpec : Type 0 where
  pub key : String
  pub action : String
  pub description : String

pub record GrantSpec : Type 0 where
  pub permission : String
  pub effect : Option PermissionEffect
  pub scopes : List String

pub record RoleSpec : Type 0 where
  pub key : String
  pub name : String
  pub description : String
  pub is_global : Bool
  pub grants : List GrantSpec

pub data RoleBinding : Type 0 where
  plain : String → RoleBinding
  scoped : String → String → Bool → RoleBinding

-- `RoleBinding::role`
abbrev pub role : RoleBinding → String
role (plain r) = r
role (scoped r _ _) = r

-- `RoleBinding::resource`
abbrev pub resource : RoleBinding → Option String
resource (plain _) = none
resource (scoped _ at _) = some at

-- `RoleBinding::inherit`
abbrev pub inherit : RoleBinding → Bool
inherit (plain _) = true
inherit (scoped _ _ i) = i

pub record GroupSpec : Type 0 where
  pub key : String
  pub name : String
  pub description : String
  pub roles : List RoleBinding

pub record UserSpec : Type 0 where
  pub key : String
  pub username : String
  pub email : String
  pub roles : List RoleBinding
  pub groups : List String

pub record ServiceAccountSpec : Type 0 where
  pub key : String
  pub name : String
  pub description : Option String
  pub roles : List RoleBinding

-- The parts of a manifest but its network.
pub record ManagementManifest : Type 0 where
  pub resources : List ResourceSpec
  pub permissions : List PermissionSpec
  pub roles : List RoleSpec
  pub groups : List GroupSpec
  pub users : List UserSpec
  pub service_accounts : List ServiceAccountSpec

-- `ResourceSpec::new` and `ResourceSpec::under`
abbrev pub new_resource : String → String → String → ResourceSpec
new_resource key name resource_type = record {
  key = key;
  name = name;
  resource_type = resource_type;
  parent = none;
  scopes = [];
}

abbrev pub under : ResourceSpec → String → ResourceSpec
under r parent = record r { parent = some parent }
