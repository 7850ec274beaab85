-- ===== src/Operator/Acl/Apply/Roles.antt =====
-- What etcd was called for once the roles are applied.
use mathlib.Core.List.{Memᴰ}
use mathlib.Core.Option.{some-injective, none-ne-some}
use etcd_cloud_operator.Prelude.{
  codes, to_lower, text_eq, text_eq_iff, Bool-cases, ◌∙◌, Text, Bool, true, false, Option, none,
  some, List, [], ◌∷◌, ◌⊎◌, inl, inr, if◌then◌else◌, All, ◌≡◌, refl, sym, ap, subst,
}
use etcd_cloud_operator.Etcd.Config.{items, Role, Permission}
use etcd_cloud_operator.Operator.Acl.Effects.{
  read, write, read_write, AclError, Mode, AclCall, role_add, grant_permission, AclTrace, AclEnv, A,
  and_then, ◌>>◌, none_of, issue, must, settled,
}
use etcd_cloud_operator.Operator.Acl.Apply.{
  mode_of, grant_as, grant_permissions, drop_role, apply_role, apply_roles,
}

pub inl-ne-done :
    {X : Type 0} {e : AclError} {x : X} {t u : AclTrace}
    → ¬ (◌≡◌ {A = (AclError ⊎ X) × AclTrace} (inl e, t) (inr x, u))
inl-ne-done {X} {e} {x} h = let p : ◌≡◌ {A = AclError ⊎ X} (inl e) (inr x) = ap (λ r. r.0) h in cc

-- A sequence that succeeded is two steps that did.
pub and_then-done :
    {X Y : Type 0} (r : (AclError ⊎ X) × AclTrace) (f : X → A Y) (y : Y) (t : AclTrace)
    → and_then r f ≡ (inr y, t)
    → (x : X) × (u : AclTrace) × (r ≡ (inr x, u)) × (f x u ≡ (inr y, t))
and_then-done (inl e, u) f y t h = absurd (inl-ne-done h)
and_then-done (inr x, u) f y t h = (x, u, refl, h)

pub sequence-done :
    {Y : Type 0} (m : A (Unit {0})) (k : A Y) (y : Y) (t u : AclTrace)
    → (m >> k) t ≡ (inr y, u)
    → (v : AclTrace) × (m t ≡ (inr tt, v)) × (k v ≡ (inr y, u))
sequence-done m k y t u h = let (_, v, p, q) = and_then-done (m t) (λ _. k) y u h in (v, p, q)

-- What was called stays called.
abbrev pub Keeps : AclTrace → AclTrace → Type 0
Keeps t u = (c : AclCall) → Memᴰ c t → Memᴰ c u

-- The word of a mode in a configuration.
abbrev pub word_of : Mode → Text
word_of read = codes "read"
word_of write = codes "write"
word_of read_write = codes "readwrite"

mode_of-word_of :
    (text : Text) (mode : Mode) → mode_of text ≡ some mode → to_lower text ≡ word_of mode
unfolding mode_of
mode_of-word_of text mode h = elim (Bool-cases (text_eq (to_lower text) (codes "read"))) [
  | inl e ↦
      (text_eq_iff (to_lower text) (codes "read")).0 e
      ∙ ap word_of (some-injective read mode (rw e at h))
  | inr e ↦ elim (Bool-cases (text_eq (to_lower text) (codes "write"))) [
    | inl f ↦
        (text_eq_iff (to_lower text) (codes "write")).0 f
        ∙ ap word_of (some-injective write mode (rw (e, f) at h))
    | inr f ↦ elim (Bool-cases (text_eq (to_lower text) (codes "readwrite"))) [
      | inl g ↦
          (text_eq_iff (to_lower text) (codes "readwrite")).0 g
          ∙ ap word_of (some-injective read_write mode (rw (e, f, g) at h))
      | inr g ↦ absurd (none-ne-some mode (rw (e, f, g) at h))
    ]
  ]
]

module _ (env : AclEnv) where
  settled-done : (o : Option AclError) (t u : AclTrace) → settled none_of o t ≡ (inr tt, u) → u ≡ t
  unfolding settled
  settled-done none t u h = ap (λ r. r.1) (sym h)
  settled-done (some e) t u h = absurd (inl-ne-done h)

  pub must-done : (c : AclCall) (t u : AclTrace) → must env c t ≡ (inr tt, u) → u ≡ c ∷ t
  unfolding issue
  must-done c t u h = settled-done (env.on_call (c ∷ t)) (c ∷ t) u h

  pub called : (c : AclCall) (t u : AclTrace) → u ≡ c ∷ t → Keeps t u × Memᴰ c u
  called c t u e = (
    λ d i. subst (λ x. Memᴰ d x) (sym e) (Memᴰ.tail i),
    subst (λ x. Memᴰ c x) (sym e) (Memᴰ.head refl),
  )

  -- The permission was granted to the role, in the mode that its word names, on its key or, if it says so,
  -- on what its key is a prefix of.
  pub Granted : Role → AclTrace → Permission → Type 0
  Granted role t p =
      (mode : Mode) × (to_lower p.mode ≡ word_of mode)
      × Memᴰ
          (grant_permission role.name p.key (if p.prefix then env.prefix_range_end p.key else [])
            mode)
          t

  Granted-Keeps :
      (role : Role) (ps : List Permission) (t u : AclTrace)
      → Keeps t u
      → All (Granted role t) ps
      → All (Granted role u) ps
  unfolding Granted
  Granted-Keeps role [] t u k a = tt
  Granted-Keeps role (p ∷ ps) t u k ((mode, e, i), a) =
      ((mode, e, k _ i), Granted-Keeps role ps t u k a)

  grant_as-done :
      (role : Role) (p : Permission) (o : Option Mode) (t u : AclTrace)
      → mode_of p.mode ≡ o
      → grant_as env role p o t ≡ (inr tt, u)
      → Keeps t u × Granted role u p
  unfolding grant_as Granted
  grant_as-done role p none t u e h = absurd (inl-ne-done h)
  grant_as-done role p (some mode) t u e h =
      let (k, i) = called _ t u (must-done _ t u h) in (k, (mode, mode_of-word_of p.mode mode e, i))

  grant_permissions-done :
      (role : Role) (ps : List Permission) (t u : AclTrace)
      → grant_permissions env role ps t ≡ (inr tt, u)
      → Keeps t u × All (Granted role u) ps
  unfolding grant_permissions
  grant_permissions-done role [] t u h = (subst (Keeps t) (ap (λ r. r.1) h) (λ c i. i), tt)
  grant_permissions-done role (p ∷ ps) t u h =
      let (v, first, then_rest) =
        sequence-done (grant_as env role p (mode_of p.mode)) (grant_permissions env role ps) tt t u
          h in
      let (k, g) = grant_as-done role p (mode_of p.mode) t v refl first in
      let (l, gs) = grant_permissions-done role ps v u then_rest in
      (λ c i. l c (k c i), ((Granted-Keeps role (p ∷ []) v u l (g, tt)).0, gs))

  drop_role-done :
      (name : Text) (b : Bool) (t u : AclTrace) → drop_role env name b t ≡ (inr tt, u) → Keeps t u
  unfolding drop_role
  drop_role-done name true t u h = (called _ t u (must-done _ t u h)).0
  drop_role-done name false t u h = subst (Keeps t) (ap (λ r. r.1) h) (λ c i. i)

  pub RoleMade : AclTrace → Role → Type 0
  RoleMade t role = Memᴰ (role_add role.name) t × All (Granted role t) (items role.permissions)

  pub RoleMade-Keeps :
      (rs : List Role) (t u : AclTrace) → Keeps t u → All (RoleMade t) rs → All (RoleMade u) rs
  unfolding RoleMade
  RoleMade-Keeps [] t u k a = tt
  RoleMade-Keeps (r ∷ rs) t u k ((i, g), a) =
      ((k _ i, Granted-Keeps r (items r.permissions) t u k g), RoleMade-Keeps rs t u k a)

  apply_role-done :
      (role : Role) (t u : AclTrace)
      → apply_role env role t ≡ (inr tt, u)
      → Keeps t u × RoleMade u role
  unfolding apply_role RoleMade
  apply_role-done role t u h =
      let (v, dropped, k) =
        sequence-done (drop_role env role.name (env.on_role_get t role.name))
          (must env (role_add role.name) >> grant_permissions env role (items role.permissions)) tt
          t u h in
      let (w, add, granting) =
        sequence-done (must env (role_add role.name))
          (grant_permissions env role (items role.permissions)) tt v u k in
      let (k1, i) = called _ v w (must-done _ v w add) in
      let (k2, g) = grant_permissions-done role (items role.permissions) w u granting in
      (λ c j. k2 c (k1 c (drop_role-done role.name _ t v dropped c j)), (k2 _ i, g))

  pub apply_roles-done :
      (rs : List Role) (t u : AclTrace)
      → apply_roles env rs t ≡ (inr tt, u)
      → Keeps t u × All (RoleMade u) rs
  unfolding apply_roles
  apply_roles-done [] t u h = (subst (Keeps t) (ap (λ r. r.1) h) (λ c i. i), tt)
  apply_roles-done (r ∷ rs) t u h =
      let (v, first, then_rest) = sequence-done (apply_role env r) (apply_roles env rs) tt t u h in
      let (k, m) = apply_role-done r t v first in
      let (l, ms) = apply_roles-done rs v u then_rest in
      (λ c i. l c (k c i), ((RoleMade-Keeps (r ∷ []) v u l (m, tt)).0, ms))
