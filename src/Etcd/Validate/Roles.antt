-- ===== src/Etcd/Validate/Roles.antt =====
-- Which roles pass the validation.
use mathlib.Core.List.{cons≢nil}
use mathlib.Core.Option.{none-ne-some}
use etcd_cloud_operator.Prelude.{
  Text, false, ◌||◌, none, List, [], ◌∷◌, text_eq, text_eq_iff, All, ◌≡◌, ◌≢◌, ◌↔◌, inl, inr, refl,
  sym, arith, Option-cases,
}
use etcd_cloud_operator.Etcd.Config.{items, Role, Permission}
use etcd_cloud_operator.Etcd.Validate.{
  has_name, check_permissions, check_role, check_roles, is_empty,
}
use etcd_cloud_operator.Etcd.Validate.Valid.{IsPermission, IsRole, Distinct, role_names, Fresh}

check_permissions-none :
    (role : Text) (ps : List Permission) → check_permissions role ps ≡ none → All IsPermission ps
unfolding check_permissions
check_permissions-none role [] h = tt
check_permissions-none role (p ∷ ps) h =
    ground (arith, text_eq_iff p.mode [], text_eq_iff p.key [], check_permissions-none role ps)

none-check_permissions :
    (role : Text) (ps : List Permission) → All IsPermission ps → check_permissions role ps ≡ none
unfolding check_permissions
none-check_permissions role [] h = refl
none-check_permissions role (p ∷ ps) h =
    ground (arith, text_eq_iff p.mode [], text_eq_iff p.key [], none-check_permissions role ps)

is_empty-false : {A : Type 0} (xs : List A) → (is_empty xs ≡ false) ↔ (xs ≢ [])
is_empty-false [] = (λ h. absurd (cc), λ h. absurd (h refl))
is_empty-false (x ∷ xs) = (λ h. cons≢nil, λ h. refl)

check_role-none :
    (seen : List Text) (r : Role)
    → check_role seen r ≡ none
    → IsRole r × (has_name r.name seen ≡ false)
unfolding check_role
check_role-none seen r h = (
  (
    ground (arith, text_eq_iff r.name []),
    ground (arith, is_empty-false (items r.permissions)),
    ground (arith, check_permissions-none r.name (items r.permissions)),
  ),
  ground arith,
)

none-check_role :
    (seen : List Text) (r : Role)
    → IsRole r
    → has_name r.name seen ≡ false
    → check_role seen r ≡ none
unfolding check_role
none-check_role seen r (named, given, perms) f = ground (
  arith,
  text_eq_iff r.name [],
  (is_empty-false (items r.permissions)).1 given,
  none-check_permissions r.name (items r.permissions) perms,
)

pub has_name-cons :
    (x n : Text) (ns : List Text) → has_name x (n ∷ ns) ≡ (text_eq n x || has_name x ns)
unfolding has_name
has_name-cons x n ns = refl

-- A name that is fresh for the longer list is fresh for the shorter, and differs from its head.
pub Fresh-cons :
    (n : Text) (ns xs : List Text) → Fresh (n ∷ ns) xs ↔ (All (λ y. y ≢ n) xs × Fresh ns xs)
Fresh-cons n ns [] = (λ h. (tt, tt), λ h. tt)
Fresh-cons n ns (x ∷ xs) = (
  λ h.
      let (a, b) = (Fresh-cons n ns xs).0 h.1 in
      (
        (ground (arith, has_name-cons x n ns, text_eq_iff n x), a),
        (ground (arith, has_name-cons x n ns, text_eq_iff n x), b),
      ),
  λ h. (
    ground (arith, has_name-cons x n ns, text_eq_iff n x),
    (Fresh-cons n ns xs).1 (h.0.1, h.1.1),
  ),
)

pub check_roles-none :
    (seen : List Text) (rs : List Role)
    → (check_roles seen rs).0 ≡ none
    → All IsRole rs × Distinct (role_names rs) × Fresh seen (role_names rs)
unfolding check_roles
check_roles-none seen [] h = (tt, tt, tt)
check_roles-none seen (r ∷ rs) h = elim (Option-cases (check_role seen r)) [
  | inl e ↦
      let (valid, distinct, fresh) =
        check_roles-none (r.name ∷ seen) rs (rw (e, check_roles) at h) in
      let (apart, fresh') = (Fresh-cons r.name seen (role_names rs)).0 fresh in
      let (role, f) = check_role-none seen r e in ((role, valid), (apart, distinct), (f, fresh'))
  | inr (x, e) ↦ absurd (none-ne-some x (sym (rw (e, check_roles) at h)))
]

pub none-check_roles :
    (seen : List Text) (rs : List Role)
    → All IsRole rs
    → Distinct (role_names rs)
    → Fresh seen (role_names rs)
    → (check_roles seen rs).0 ≡ none
unfolding check_roles
none-check_roles seen [] v d f = refl
none-check_roles seen (r ∷ rs) v d f =
    rw (none-check_role seen r v.0 f.0, check_roles)
      (none-check_roles (r.name ∷ seen) rs v.1 d.1
        ((Fresh-cons r.name seen (role_names rs)).1 (d.0, f.1)))
