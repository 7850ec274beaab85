-- ===== src/Operator/Acl/Apply/Applied.antt =====
-- What etcd was called for once applyACLConfig has returned nil.
use mathlib.Core.List.{Memᴰ}
use etcd_cloud_operator.Prelude.{
  Text, Option, none, some, List, [], ◌∷◌, inr, text_eq, All, ◌≡◌, refl, ap, subst,
}
use etcd_cloud_operator.Etcd.Config.{items, AclConfig, User}
use etcd_cloud_operator.Operator.Acl.Effects.{
  AclCall, user_add, grant_role, put_config, AclTrace, AclEnv, ◌>>◌, must,
}
use etcd_cloud_operator.Operator.Acl.Apply.{
  apply_roles, grant_roles, drop_user, apply_user, apply_users, record_config, apply_acl_config,
}
use etcd_cloud_operator.Operator.Acl.Apply.Roles.{
  inl-ne-done, sequence-done, Keeps, RoleMade, must-done, called, RoleMade-Keeps, apply_roles-done,
}

module _ (env : AclEnv) where
  calls-Keeps :
      {X : Type 0} (call : X → AclCall) (xs : List X) (t u : AclTrace)
      → Keeps t u
      → All (λ x. Memᴰ (call x) t) xs
      → All (λ x. Memᴰ (call x) u) xs
  calls-Keeps call [] t u k a = tt
  calls-Keeps call (x ∷ xs) t u k (i, a) = (k _ i, calls-Keeps call xs t u k a)

  grant_roles-done :
      (user : Text) (rs : List Text) (t u : AclTrace)
      → grant_roles env user rs t ≡ (inr tt, u)
      → Keeps t u × All (λ r. Memᴰ (grant_role user r) u) rs
  unfolding grant_roles
  grant_roles-done user [] t u h = (subst (Keeps t) (ap (λ r. r.1) h) (λ c i. i), tt)
  grant_roles-done user (r ∷ rs) t u h =
      let (v, first, then_rest) =
        sequence-done (must env (grant_role user r)) (grant_roles env user rs) tt t u h in
      let (k, i) = called env _ t v (must-done env _ t v first) in
      let (l, is) = grant_roles-done user rs v u then_rest in (λ c j. l c (k c j), (l _ i, is))

  drop_user-done :
      (name : Text) (o : Option (List Text)) (t u : AclTrace)
      → drop_user env name o t ≡ (inr tt, u)
      → Keeps t u
  unfolding drop_user
  drop_user-done name (some roles) t u h = (called env _ t u (must-done env _ t u h)).0
  drop_user-done name none t u h = subst (Keeps t) (ap (λ r. r.1) h) (λ c i. i)

  -- The user was added, with a password if it has one, and each of its roles granted.
  pub UserMade : AclTrace → User → Type 0
  UserMade t user =
      Memᴰ (user_add user.name user.password (text_eq user.password [])) t
      × All (λ r. Memᴰ (grant_role user.name r) t) (items user.roles)

  UserMade-Keeps :
      (us : List User) (t u : AclTrace) → Keeps t u → All (UserMade t) us → All (UserMade u) us
  unfolding UserMade
  UserMade-Keeps [] t u k a = tt
  UserMade-Keeps (x ∷ xs) t u k ((i, g), a) =
      ((k _ i, calls-Keeps (grant_role x.name) (items x.roles) t u k g), UserMade-Keeps xs t u k a)

  apply_user-done :
      (user : User) (t u : AclTrace)
      → apply_user env user t ≡ (inr tt, u)
      → Keeps t u × UserMade u user
  unfolding apply_user UserMade
  apply_user-done user t u h =
      let add = must env (user_add user.name user.password (text_eq user.password [])) in
      let grants = grant_roles env user.name (items user.roles) in
      let (v, dropped, k) =
        sequence-done (drop_user env user.name (env.on_user_get t user.name)) (add >> grants) tt t u
          h in
      let (w, added, granting) = sequence-done add grants tt v u k in
      let (k1, i) = called env _ v w (must-done env _ v w added) in
      let (k2, g) = grant_roles-done user.name (items user.roles) w u granting in
      (λ c j. k2 c (k1 c (drop_user-done user.name _ t v dropped c j)), (k2 _ i, g))

  apply_users-done :
      (us : List User) (t u : AclTrace)
      → apply_users env us t ≡ (inr tt, u)
      → Keeps t u × All (UserMade u) us
  unfolding apply_users
  apply_users-done [] t u h = (subst (Keeps t) (ap (λ r. r.1) h) (λ c i. i), tt)
  apply_users-done (x ∷ xs) t u h =
      let (v, first, then_rest) = sequence-done (apply_user env x) (apply_users env xs) tt t u h in
      let (k, m) = apply_user-done x t v first in
      let (l, ms) = apply_users-done xs v u then_rest in
      (λ c i. l c (k c i), ((UserMade-Keeps (x ∷ []) v u l (m, tt)).0, ms))

  -- The whole configuration was applied, and then recorded by the newest call.
  pub record Applied (config : AclConfig) (u : AclTrace) : Type 0 where
    pub text : Text
    pub before : AclTrace
    pub marshalled : env.marshal config ≡ some text
    pub recorded_last : u ≡ put_config text ∷ before
    pub roles_made : All (RoleMade env before) (items config.roles)
    pub users_made : All (UserMade before) (items config.users)

  record_config-done :
      (o : Option Text) (t u : AclTrace)
      → record_config env o t ≡ (inr tt, u)
      → (text : Text) × (o ≡ some text) × (u ≡ put_config text ∷ t)
  unfolding record_config
  record_config-done none t u h = absurd (inl-ne-done h)
  record_config-done (some text) t u h = (text, refl, must-done env _ t u h)

  -- Where applyACLConfig returns nil, etcd was called to add each role and to grant it each of its
  -- permissions, in the mode whose word it has in any letters, on the key, or on the range of the prefix where it
  -- is marked as one, whatever the end of the range that it gives; to add each user and grant it its roles; and
  -- the configuration was recorded by the last call, after all of these.
  pub apply_acl_config-Applied :
      (config : AclConfig) (t u : AclTrace)
      → apply_acl_config env config t ≡ (inr tt, u)
      → Applied config u
  unfolding apply_acl_config
  apply_acl_config-Applied config t u h =
      let recording = record_config env (env.marshal config) in
      let (v, roles, k) =
        sequence-done (apply_roles env (items config.roles))
          (apply_users env (items config.users) >> recording) tt t u h in
      let (w, users, l) = sequence-done (apply_users env (items config.users)) recording tt v u k in
      let (kept, made) = apply_users-done (items config.users) v w users in
      let (text, m, last) = record_config-done (env.marshal config) w u l in
      record {
        text = text;
        before = w;
        marshalled = m;
        recorded_last = last;
        roles_made =
            RoleMade-Keeps env (items config.roles) v w kept
              (apply_roles-done env (items config.roles) t v roles).1;
        users_made = made;
      }
