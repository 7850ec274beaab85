-- ===== src/Operator/Acl/Reconcile.antt =====
-- pkg/operator/acl.go: enableACL, getOldACLConfig and reconcileInitACLConfig; and ACLConfig.Equal of
-- pkg/etcd/misc.go.
pub mod Equal
pub mod Laws
use etcd_cloud_operator.Prelude.{
  Text, codes, ℕ, ◌+◌, leb, Bool, true, false, not, ◌&&◌, ◌||◌, Option, none, some, List, [], ◌∷◌,
  map, ◌⊎◌, inl, inr, text_eq, if◌then◌else◌,
}
use etcd_cloud_operator.Etcd.Config.{Slice, nil_slice, slice_of, AclConfig, Role, User, Permission}
use etcd_cloud_operator.Operator.Acl.Effects.{
  AclError, user_not_found, role_not_found, key_not_found, role_already_exists, user_already_exists,
  not_one_config, invalid_mode, other, Mode, read, write, read_write, AclCall, role_delete,
  role_add, grant_permission, user_delete, user_add, grant_role, put_config, delete_config,
  auth_enable, AclTrace, AclEnv, A, and_then, ◌>>=◌, ◌>>◌, pure, throw, answer, none_of,
  user_exists, role_exists, no_user, no_role, no_key, issue, must,
}
use etcd_cloud_operator.Operator.Acl.Apply.{apply_acl_config, remove_acl_config}

-- `reflect.DeepEqual` on the parts of a configuration.
unfoldable pub list_eq : {X : Type 0} → (X → X → Bool) → List X → List X → Bool
list_eq eq [] [] = true
list_eq eq [] (y ∷ ys) = false
list_eq eq (x ∷ xs) [] = false
list_eq eq (x ∷ xs) (y ∷ ys) = eq x y && list_eq eq xs ys

-- On slices, a nil one is equal to no other, an empty one included.
unfoldable pub slice_eq : {X : Type 0} → (X → X → Bool) → Slice X → Slice X → Bool
unfolding list_eq
slice_eq eq nil_slice nil_slice = true
slice_eq eq nil_slice (slice_of ys) = false
slice_eq eq (slice_of xs) nil_slice = false
slice_eq eq (slice_of xs) (slice_of ys) = list_eq eq xs ys

abbrev pub bool_eq : Bool → Bool → Bool
bool_eq true b = b
bool_eq false b = not b

unfoldable pub permission_eq : Permission → Permission → Bool
permission_eq p q =
    text_eq p.mode q.mode
    && (text_eq p.key q.key && (text_eq p.range_end q.range_end && bool_eq p.prefix q.prefix))

unfoldable pub role_eq : Role → Role → Bool
unfolding permission_eq slice_eq
role_eq r s = text_eq r.name s.name && slice_eq permission_eq r.permissions s.permissions

unfoldable pub user_eq : User → User → Bool
unfolding slice_eq
user_eq u v =
    text_eq u.name v.name && (text_eq u.password v.password && slice_eq text_eq u.roles v.roles)

abbrev pub option_eq : Option Text → Option Text → Bool
option_eq none none = true
option_eq none (some y) = false
option_eq (some x) none = false
option_eq (some x) (some y) = text_eq x y

-- `Equal`.
unfoldable pub acl_eq : AclConfig → AclConfig → Bool
unfolding slice_eq role_eq user_eq
acl_eq a b =
    option_eq a.root_password b.root_password
    && (slice_eq role_eq a.roles b.roles && slice_eq user_eq a.users b.users)

unfoldable pub common_name_of : AclEnv → Option Text → A Text
common_name_of env none = throw (other (codes "failed to decode cert"))
common_name_of env (some block) = elim (env.cert_common_name block) [
  | none ↦ throw (other (codes "failed to parse cert"))
  | some name ↦ pure name
]

-- `getCertCommonName`.
unfoldable pub get_cert_common_name : AclEnv → A Text
unfolding common_name_of
get_cert_common_name env = elim env.on_cert_file [
  | none ↦ throw (other (codes "failed to read cert"))
  | some bytes ↦ common_name_of env (env.decode_pem bytes)
]

unfoldable pub has_root : List Text → Bool
has_root [] = false
has_root (r ∷ rs) = text_eq r (codes "root") || has_root rs

unmarshalled : Option AclConfig → A (Option AclConfig)
unmarshalled none = throw (other (codes "failed to unmarshal"))
unmarshalled (some config) = pure (some config)

module _ (env : AclEnv) where
  root_user : Option Text → AclCall
  root_user none = user_add (codes "root") [] true
  root_user (some password) =
      if text_eq password []
      then user_add (codes "root") [] true
      else user_add (codes "root") password false

  -- The calls that set up the root role, and the users root, that of the certificate and etcd.
  set_up : AclConfig → Text → A (Unit {0})
  unfolding issue root_user
  set_up config common_name =
      issue env role_exists (role_add (codes "root"))
      >> (issue env user_exists (root_user config.root_password)
          >> (must env (grant_role (codes "root") (codes "root"))
              >> (must env (user_add common_name [] true)
                  >> (must env (grant_role common_name (codes "root"))
                      >> (must env (user_add (codes "etcd") [] true)
                          >> (must env (grant_role (codes "etcd") (codes "root"))
                              >> must env auth_enable))))))

  drop_common_name : Text → Option (List Text) → A (Unit {0})
  unfolding issue
  drop_common_name common_name none = pure tt
  drop_common_name common_name (some roles) = must env (user_delete common_name)

  -- Whether the user of the certificate has the root role already.
  is_set_up : Option (List Text) → Bool
  unfolding has_root
  is_set_up none = false
  is_set_up (some roles) = has_root roles

  enable_as : AclConfig → Text → Option (List Text) → A (Unit {0})
  unfolding drop_common_name set_up is_set_up
  enable_as config common_name found =
      if is_set_up found
      then pure tt
      else drop_common_name common_name found >> set_up config common_name

  -- `enableACL`.
  unfoldable pub enable_acl : AclConfig → A (Unit {0})
  unfolding get_cert_common_name enable_as
  enable_acl config = get_cert_common_name env >>= λ common_name.
      answer (λ t. env.on_user_get t common_name) >>= λ found. enable_as config common_name found

  old_config : AclError ⊎ List Text → A (Option AclConfig)
  unfolding unmarshalled
  old_config (inl e) = throw e
  old_config (inr []) = pure none
  old_config (inr (text ∷ [])) = unmarshalled (env.unmarshal text)
  old_config (inr (x ∷ y ∷ rest)) = throw not_one_config

  -- `getOldACLConfig`; none is its nil.
  unfoldable pub get_old_acl_config : A (Option AclConfig)
  unfolding old_config
  get_old_acl_config = answer env.on_config >>= λ values. old_config values

  replace : AclConfig → Option AclConfig → A (Unit {0})
  unfolding acl_eq remove_acl_config apply_acl_config
  replace config none = apply_acl_config env config
  replace config (some old) =
      if acl_eq old config
      then pure tt
      else remove_acl_config env old >> apply_acl_config env config

  -- `reconcileInitACLConfig`.
  unfoldable pub reconcile_init_acl_config : AclConfig → A (Unit {0})
  unfolding enable_acl get_old_acl_config replace
  reconcile_init_acl_config config =
      enable_acl config >> (get_old_acl_config >>= λ old. replace config old)
