-- ===== src/Etcd/Validate/Users.antt =====
-- Which users pass the validation.
use mathlib.Core.Option.{none-ne-some}
use etcd_cloud_operator.Prelude.{
  Text, codes, true, false, none, List, [], ◌∷◌, text_eq_iff, All, ◌≡◌, ◌⊎◌, inl, inr, refl, sym,
  arith, Option-cases,
}
use etcd_cloud_operator.Etcd.Config.{items, User}
use etcd_cloud_operator.Etcd.Validate.{has_name, check_user_roles, check_user, check_users}
use etcd_cloud_operator.Etcd.Validate.Valid.{Distinct, user_names, IsUser, Fresh}
use etcd_cloud_operator.Etcd.Validate.Roles.{Fresh-cons}

check_user_roles-none :
    (names roles : List Text)
    → check_user_roles names roles ≡ none
    → All (λ r. (has_name r names ≡ true) ⊎ (r ≡ codes "root")) roles
unfolding check_user_roles
check_user_roles-none names [] h = tt
check_user_roles-none names (r ∷ roles) h = (
  ground (arith, text_eq_iff r (codes "root")),
  check_user_roles-none names roles (ground (arith, text_eq_iff r (codes "root"))),
)

none-check_user_roles :
    (names roles : List Text)
    → All (λ r. (has_name r names ≡ true) ⊎ (r ≡ codes "root")) roles
    → check_user_roles names roles ≡ none
unfolding check_user_roles
none-check_user_roles names [] h = refl
none-check_user_roles names (r ∷ roles) h =
    let rest = none-check_user_roles names roles h.1 in
    elim h.0 [
      | inl known ↦ rw known rest
      | inr root ↦ ground (arith, (text_eq_iff r (codes "root")).1 root)
    ]

check_user-none :
    (names seen : List Text) (u : User)
    → check_user names seen u ≡ none
    → IsUser names u × (has_name u.name seen ≡ false)
unfolding check_user
check_user-none names seen u h = (
  (
    ground (arith, text_eq_iff u.name []),
    check_user_roles-none names (items u.roles) (ground arith),
  ),
  ground arith,
)

none-check_user :
    (names seen : List Text) (u : User)
    → IsUser names u
    → has_name u.name seen ≡ false
    → check_user names seen u ≡ none
unfolding check_user
none-check_user names seen u (named, roles) f =
    ground (arith, text_eq_iff u.name [], none-check_user_roles names (items u.roles) roles)

pub check_users-none :
    (names seen : List Text) (us : List User)
    → check_users names seen us ≡ none
    → All (IsUser names) us × Distinct (user_names us) × Fresh seen (user_names us)
unfolding check_users
check_users-none names seen [] h = (tt, tt, tt)
check_users-none names seen (u ∷ us) h = elim (Option-cases (check_user names seen u)) [
  | inl e ↦
      let (valid, distinct, fresh) =
        check_users-none names (u.name ∷ seen) us (rw (e, check_users) at h) in
      let (apart, fresh') = (Fresh-cons u.name seen (user_names us)).0 fresh in
      let (user, f) = check_user-none names seen u e in
      ((user, valid), (apart, distinct), (f, fresh'))
  | inr (x, e) ↦ absurd (none-ne-some x (sym (rw (e, check_users) at h)))
]

pub none-check_users :
    (names seen : List Text) (us : List User)
    → All (IsUser names) us
    → Distinct (user_names us)
    → Fresh seen (user_names us)
    → check_users names seen us ≡ none
unfolding check_users
none-check_users names seen [] v d f = refl
none-check_users names seen (u ∷ us) v d f =
    rw (none-check_user names seen u v.0 f.0, check_users)
      (none-check_users names (u.name ∷ seen) us v.1 d.1
        ((Fresh-cons u.name seen (user_names us)).1 (d.0, f.1)))
