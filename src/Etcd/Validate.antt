-- ===== src/Etcd/Validate.antt =====
-- pkg/etcd/validate.go: Validate, with a function for each of its loops.
pub mod Valid
pub mod Roles
pub mod Users
pub mod Laws
use etcd_cloud_operator.Prelude.{
  Text, codes, Bool, true, false, not, ◌&&◌, ◌||◌, Option, none, some, List, [], ◌∷◌, text_eq,
  if◌then◌else◌,
}
use etcd_cloud_operator.Etcd.Config.{
  items, EtcdConfiguration, AclConfig, Role, User, Permission, SecurityConfig,
}

pub data ConfigError : Type 0 where
  cert_auth_required empty_role_name empty_user_name : ConfigError
  empty_permissions empty_mode empty_key duplicated_role : Text → ConfigError
  role_not_existed duplicated_user : Text → ConfigError

-- Whether a name is in a set of names.
pub has_name : Text → List Text → Bool
has_name x [] = false
has_name x (y ∷ ys) = text_eq y x || has_name x ys

pub check_permissions : Text → List Permission → Option ConfigError
check_permissions role [] = none
check_permissions role (perm ∷ perms) =
    let rest = check_permissions role perms in
    if text_eq perm.mode []
    then some (empty_mode role)
    else if text_eq perm.key []
    then some (empty_key role)
    else rest

abbrev is_empty {ℓ} : {A : Type ℓ} → List A → Bool
is_empty [] = true
is_empty (x ∷ xs) = false

-- The checks on one role that come before the one for duplicates, and that one.
check_role : List Text → Role → Option ConfigError
check_role seen role =
    if text_eq role.name []
    then some empty_role_name
    else if is_empty (items role.permissions)
    then some (empty_permissions role.name)
    else elim (check_permissions role.name (items role.permissions)) [
      | some e ↦ some e
      | none ↦ if has_name role.name seen then some (duplicated_role role.name) else none
    ]

-- The loop over the roles, with the names seen so far: the error, or all the names.
pub check_roles : List Text → List Role → (Option ConfigError) × List Text
check_roles seen [] = (none, seen)
check_roles seen (role ∷ roles) =
    let rest = check_roles (role.name ∷ seen) roles in
    elim (check_role seen role) [ some e ↦ (some e, seen) | none ↦ rest ]

pub check_user_roles : List Text → List Text → Option ConfigError
check_user_roles role_names [] = none
check_user_roles role_names (role ∷ roles) =
    let rest = check_user_roles role_names roles in
    if not (has_name role role_names) && not (text_eq role (codes "root"))
    then some (role_not_existed role)
    else rest

check_user : List Text → List Text → User → Option ConfigError
check_user role_names seen user =
    if text_eq user.name []
    then some empty_user_name
    else elim (check_user_roles role_names (items user.roles)) [
      | some e ↦ some e
      | none ↦ if has_name user.name seen then some (duplicated_user user.name) else none
    ]

pub check_users : List Text → List Text → List User → Option ConfigError
check_users role_names seen [] = none
check_users role_names seen (user ∷ users) =
    let rest = check_users role_names (user.name ∷ seen) users in
    elim (check_user role_names seen user) [ some e ↦ some e | none ↦ rest ]

pub check_acl : AclConfig → Option ConfigError
check_acl acl = elim (check_roles [] (items acl.roles)).0 [
  | some e ↦ some e
  | none ↦ check_users (check_roles [] (items acl.roles)).1 [] (items acl.users)
]

-- `Validate`; none is its nil error.
unfoldable pub validate : EtcdConfiguration → Option ConfigError
validate c = elim c.init_acl [
  | none ↦ none
  | some acl ↦
      if not c.client_transport_security.cert_auth then some cert_auth_required else check_acl acl
]
