-- ===== src/Etcd/Validate/Valid.antt =====
-- The configurations that are valid, without the order in which the code looks.
use etcd_cloud_operator.Prelude.{
  Text, codes, Bool, true, false, some, List, [], ◌∷◌, map, All, ◌≡◌, ◌≢◌, ◌⊎◌,
}
use etcd_cloud_operator.Etcd.Config.{items, EtcdConfiguration, AclConfig, Role, User, Permission}
use etcd_cloud_operator.Etcd.Validate.{has_name}

abbrev pub IsPermission : Permission → Type 0
IsPermission p = (p.mode ≢ []) × (p.key ≢ [])

abbrev pub IsRole : Role → Type 0
IsRole r = (r.name ≢ []) × ((items r.permissions) ≢ []) × All IsPermission (items r.permissions)

-- No two entries are the same.
abbrev pub Distinct : List Text → Type 0
Distinct [] = Unit
Distinct (x ∷ xs) = All (λ y. y ≢ x) xs × Distinct xs

abbrev pub role_names : List Role → List Text
role_names roles = map (λ (r : Role). r.name) roles

abbrev pub user_names : List User → List Text
user_names users = map (λ (u : User). u.name) users

-- A user has a name, and each of its roles is known or the root role.
abbrev pub IsUserOf : (Text → Bool) → User → Type 0
IsUserOf known u = (u.name ≢ []) × All (λ r. (known r ≡ true) ⊎ (r ≡ codes "root")) (items u.roles)

abbrev pub IsUser : List Text → User → Type 0
IsUser names = IsUserOf (λ r. has_name r names)

pub record IsAcl (acl : AclConfig) : Type 0 where
  pub roles_valid : All IsRole (items acl.roles)
  pub roles_distinct : Distinct (role_names (items acl.roles))
  pub users_valid : All (IsUser (role_names (items acl.roles))) (items acl.users)
  pub users_distinct : Distinct (user_names (items acl.users))

-- An initial ACL wants certificate authentication of the clients, and must be well formed.
abbrev pub IsValid : EtcdConfiguration → Type 0
IsValid c =
    (acl : AclConfig)
    → c.init_acl ≡ some acl
    → (c.client_transport_security.cert_auth ≡ true) × IsAcl acl

abbrev pub Fresh : List Text → List Text → Type 0
Fresh seen = All (λ x. has_name x seen ≡ false)
