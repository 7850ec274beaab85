-- ===== src/Operator/Acl/Apply.antt =====
-- pkg/operator/acl.go: applyACLConfig and removeACLConfig.
pub mod Roles
pub mod Applied
use etcd_cloud_operator.Prelude.{
  Text, codes, ℕ, ◌+◌, leb, Bool, true, false, not, ◌&&◌, ◌||◌, Option, none, some, List, [], ◌∷◌,
  map, ◌⊎◌, inl, inr, text_eq, to_lower, if◌then◌else◌,
}
use etcd_cloud_operator.Etcd.Config.{items, AclConfig, Role, User, Permission}
use etcd_cloud_operator.Operator.Acl.Effects.{
  AclError, user_not_found, role_not_found, key_not_found, role_already_exists, user_already_exists,
  not_one_config, invalid_mode, other, Mode, read, write, read_write, AclCall, role_delete,
  role_add, grant_permission, user_delete, user_add, grant_role, put_config, delete_config,
  auth_enable, AclTrace, AclEnv, A, and_then, ◌>>=◌, ◌>>◌, pure, throw, answer, none_of,
  user_exists, role_exists, no_user, no_role, no_key, issue, must,
}

-- The words are compared in lower case: `strings.ToLower`, of the ASCII letters, which those of the words are.
unfoldable pub mode_of : Text → Option Mode
mode_of text =
    let word = to_lower text in
    if text_eq word (codes "read")
    then some read
    else if text_eq word (codes "write")
    then some write
    else if text_eq word (codes "readwrite")
    then some read_write
    else none

module _ (env : AclEnv) where
  grant_as : Role → Permission → Option Mode → A (Unit {0})
  unfolding issue
  grant_as role p none = throw (invalid_mode p.mode)
  grant_as role p (some mode) =
      must env (
        grant_permission role.name p.key (if p.prefix then env.prefix_range_end p.key else []) mode)

  grant_permissions : Role → List Permission → A (Unit {0})
  unfolding grant_as mode_of
  grant_permissions role [] = pure tt
  grant_permissions role (p ∷ ps) = grant_as role p (mode_of p.mode) >> grant_permissions role ps

  drop_role : Text → Bool → A (Unit {0})
  unfolding issue
  drop_role name true = must env (role_delete name)
  drop_role name false = pure tt

  apply_role : Role → A (Unit {0})
  unfolding drop_role issue grant_permissions
  apply_role role = answer (λ t. env.on_role_get t role.name) >>= λ found.
      drop_role role.name found
      >> (must env (role_add role.name) >> grant_permissions role (items role.permissions))

  unfoldable pub apply_roles : List Role → A (Unit {0})
  unfolding apply_role
  apply_roles [] = pure tt
  apply_roles (r ∷ rs) = apply_role r >> apply_roles rs

  grant_roles : Text → List Text → A (Unit {0})
  unfolding issue
  grant_roles user [] = pure tt
  grant_roles user (r ∷ rs) = must env (grant_role user r) >> grant_roles user rs

  drop_user : Text → Option (List Text) → A (Unit {0})
  unfolding issue
  drop_user name none = pure tt
  drop_user name (some roles) = must env (user_delete name)

  apply_user : User → A (Unit {0})
  unfolding drop_user issue grant_roles
  apply_user user = answer (λ t. env.on_user_get t user.name) >>= λ found.
      drop_user user.name found
      >> (must env (user_add user.name user.password (text_eq user.password []))
          >> grant_roles user.name (items user.roles))

  unfoldable pub apply_users : List User → A (Unit {0})
  unfolding apply_user
  apply_users [] = pure tt
  apply_users (u ∷ us) = apply_user u >> apply_users us

  record_config : Option Text → A (Unit {0})
  unfolding issue
  record_config none = throw (other (codes "failed to marshal"))
  record_config (some text) = must env (put_config text)

  -- `applyACLConfig`.
  unfoldable pub apply_acl_config : AclConfig → A (Unit {0})
  unfolding apply_roles apply_users record_config
  apply_acl_config config =
      apply_roles (items config.roles)
      >> (apply_users (items config.users) >> record_config (env.marshal config))

  unfoldable pub remove_users : List User → A (Unit {0})
  unfolding issue
  remove_users [] = pure tt
  remove_users (u ∷ us) = issue env no_user (user_delete u.name) >> remove_users us

  unfoldable pub remove_roles : List Role → A (Unit {0})
  unfolding issue
  remove_roles [] = pure tt
  remove_roles (r ∷ rs) = issue env no_role (role_delete r.name) >> remove_roles rs

  -- `removeACLConfig`.
  unfoldable pub remove_acl_config : AclConfig → A (Unit {0})
  unfolding remove_users remove_roles issue
  remove_acl_config config =
      remove_users (items config.users)
      >> (remove_roles (items config.roles) >> issue env no_key delete_config)
