-- ===== src/Etcd/Validate/Laws.antt =====
-- pkg/etcd/validate.go: what `Validate` accepts.
use mathlib.Core.Option.{none-ne-some, some-injective}
use mathlib.Core.Bool.{false≢true}
use mathlib.Core.Path.{transport}
use etcd_cloud_operator.Prelude.{
  Text, ◌||◌, none, List, [], ◌∷◌, All, ◌≡◌, ◌↔◌, inl, inr, refl, sym, ◌∙◌, ap, arith, Bool-cases,
  Option-cases, fun_ext, subst,
}
use etcd_cloud_operator.Etcd.Config.{items, EtcdConfiguration, AclConfig, Role, User}
use etcd_cloud_operator.Etcd.Validate.{
  cert_auth_required, has_name, check_role, check_roles, check_acl, validate,
}
use etcd_cloud_operator.Etcd.Validate.Valid.{role_names, IsUserOf, IsUser, IsAcl, IsValid, Fresh}
use etcd_cloud_operator.Etcd.Validate.Roles.{has_name-cons, check_roles-none, none-check_roles}
use etcd_cloud_operator.Etcd.Validate.Users.{check_users-none, none-check_users}

-- The names that the loop over the roles collects are those of the roles, in the reverse order.
check_roles-names :
    (seen : List Text) (rs : List Role)
    → (check_roles seen rs).0 ≡ none
    → (x : Text)
    → has_name x (check_roles seen rs).1 ≡ (has_name x (role_names rs) || has_name x seen)
unfolding check_roles
check_roles-names seen [] h x = unfold has_name in refl
check_roles-names seen (r ∷ rs) h x = elim (Option-cases (check_role seen r)) [
  | inl e ↦
      rw (e, check_roles)
        (check_roles-names (r.name ∷ seen) rs (rw (e, check_roles) at h) x
          ∙ ground (arith, has_name-cons x r.name seen, has_name-cons x r.name (role_names rs)))
  | inr (y, e) ↦ absurd (none-ne-some y (sym (rw (e, check_roles) at h)))
]

known_names :
    (rs : List Role) (us : List User)
    → (check_roles [] rs).0 ≡ none
    → All (IsUser (check_roles [] rs).1) us ≡ All (IsUser (role_names rs)) us
known_names rs us h = ap (λ known. All (IsUserOf known) us) (fun_ext same)
  where
    same : (x : Text) → has_name x (check_roles [] rs).1 ≡ has_name x (role_names rs)
    same x = unfold has_name in check_roles-names [] rs h x ∙ ground arith

Fresh-nil : (xs : List Text) → Fresh [] xs
Fresh-nil [] = tt
Fresh-nil (x ∷ xs) = (unfold has_name in refl, Fresh-nil xs)

check_acl-none : (acl : AclConfig) → check_acl acl ≡ none → IsAcl acl
unfolding check_acl
check_acl-none acl h = elim (Option-cases (check_roles [] (items acl.roles)).0) [
  | inl e ↦
      let (rv, rd, _) = check_roles-none [] (items acl.roles) e in
      let (uv, ud, _) = check_users-none _ [] (items acl.users) (rw (e, check_acl) at h) in
      record {
        roles_valid = rv;
        roles_distinct = rd;
        users_valid = transport (known_names (items acl.roles) (items acl.users) e) uv;
        users_distinct = ud;
      }
  | inr (x, e) ↦ absurd (none-ne-some x (sym (rw (e, check_acl) at h)))
]

none-check_acl : (acl : AclConfig) → IsAcl acl → check_acl acl ≡ none
unfolding check_acl
none-check_acl acl v =
    let e = none-check_roles [] (items acl.roles) v.roles_valid v.roles_distinct (Fresh-nil _) in
    rw (e, check_acl)
      (none-check_users _ [] (items acl.users)
        (transport (sym (known_names (items acl.roles) (items acl.users) e)) v.users_valid)
        v.users_distinct (Fresh-nil _))

-- `Validate` returns nil for exactly the configurations that are valid.
pub validate-IsValid : (c : EtcdConfiguration) → (validate c ≡ none) ↔ IsValid c
unfolding validate
validate-IsValid c = elim (Option-cases c.init_acl) [
  | inl e ↦ (λ h acl f. absurd (none-ne-some acl (sym e ∙ f)), λ v. rw (e, validate))
  | inr (acl, e) ↦ elim (Bool-cases c.client_transport_security.cert_auth) [
    | inl auth ↦ (
      λ h acl' f. (
        auth,
        subst IsAcl (some-injective _ _ (sym e ∙ f))
            (check_acl-none acl (rw (e, auth, validate) at h)),
      ),
      λ v. rw (e, auth, validate) (none-check_acl acl (v acl e).1),
    )
    | inr no_auth ↦ (
      λ h. absurd (none-ne-some cert_auth_required (sym (rw (e, no_auth, validate) at h))),
      λ v. absurd (false≢true (sym no_auth ∙ (v acl e).0)),
    )
  ]
]
