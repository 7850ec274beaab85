-- ===== src/Operator/Acl/Reconcile/Equal.antt =====
-- ACLConfig.Equal is equality.
use mathlib.Core.Bool.{false≢true}
use etcd_cloud_operator.Prelude.{
  Bool, true, false, ◌&&◌, none, some, [], ◌∷◌, text_eq, text_eq_iff, ◌≡◌, ◌↔◌, refl, sym, ◌∙◌, ap,
}
use etcd_cloud_operator.Etcd.Config.{nil_slice, slice_of, AclConfig}
use etcd_cloud_operator.Operator.Acl.Reconcile.{
  list_eq, slice_eq, bool_eq, permission_eq, role_eq, user_eq, option_eq, acl_eq,
}

-- A test that is true just for equal values.
abbrev Decides : {X : Type 0} → (X → X → Bool) → Type 0
Decides {X} eq = (x y : X) → (eq x y ≡ true) ↔ (x ≡ y)

and_true : (a b : Bool) → (a && b ≡ true) ↔ ((a ≡ true) × (b ≡ true))
and_true true b = (λ h. (refl, h), λ h. h.1)
and_true false b = (λ h. absurd (false≢true h), λ h. absurd (false≢true h.0))

bool_eq-Decides : Decides bool_eq
bool_eq-Decides true true = (λ h. refl, λ h. refl)
bool_eq-Decides true false = (λ h. absurd (false≢true h), λ h. absurd (false≢true (sym h)))
bool_eq-Decides false true = (λ h. absurd (false≢true h), λ h. absurd (false≢true h))
bool_eq-Decides false false = (λ h. refl, λ h. refl)

option_eq-Decides : Decides option_eq
option_eq-Decides none none = (λ h. refl, λ h. refl)
option_eq-Decides none (some y) = (λ h. absurd (false≢true h), λ h. cc)
option_eq-Decides (some x) none = (λ h. absurd (false≢true h), λ h. cc)
option_eq-Decides (some x) (some y) =
    let (to, from) = text_eq_iff x y in (λ h. ap some (to h), λ h. from (cc))

list_eq-Decides : {X : Type 0} (eq : X → X → Bool) → Decides eq → Decides (list_eq eq)
unfolding list_eq
list_eq-Decides eq d [] [] = (λ h. refl, λ h. refl)
list_eq-Decides eq d [] (y ∷ ys) = (λ h. absurd (false≢true h), λ h. cc)
list_eq-Decides eq d (x ∷ xs) [] = (λ h. absurd (false≢true h), λ h. cc)
list_eq-Decides eq d (x ∷ xs) (y ∷ ys) =
    let (to, from) = d x y in
    let (to_rest, from_rest) = list_eq-Decides eq d xs ys in
    let (both, all) = and_true (eq x y) (list_eq eq xs ys) in
    (
      λ h. let (p, q) = both h in ap (λ z. z ∷ xs) (to p) ∙ ap (λ zs. y ∷ zs) (to_rest q),
      λ h. all (from (cc), from_rest (cc)),
    )

slice_eq-Decides : {X : Type 0} (eq : X → X → Bool) → Decides eq → Decides (slice_eq eq)
unfolding slice_eq
slice_eq-Decides eq d nil_slice nil_slice = (λ h. refl, λ h. refl)
slice_eq-Decides eq d nil_slice (slice_of ys) = (λ h. absurd (false≢true h), λ h. cc)
slice_eq-Decides eq d (slice_of xs) nil_slice = (λ h. absurd (false≢true h), λ h. cc)
slice_eq-Decides eq d (slice_of xs) (slice_of ys) =
    let (to, from) = list_eq-Decides eq d xs ys in (λ h. ap slice_of (to h), λ h. from (cc))

permission_eq-Decides : Decides permission_eq
unfolding permission_eq
permission_eq-Decides p q =
    let (both, all) =
      and_true (text_eq p.mode q.mode)
        (text_eq p.key q.key && (text_eq p.range_end q.range_end && bool_eq p.prefix q.prefix)) in
    let (both2, all2) =
      and_true (text_eq p.key q.key)
        (text_eq p.range_end q.range_end && bool_eq p.prefix q.prefix) in
    let (both3, all3) = and_true (text_eq p.range_end q.range_end) (bool_eq p.prefix q.prefix) in
    (
      λ h.
          let (a, h2) = both h in
          let (b, h3) = both2 h2 in
          let (c, d) = both3 h3 in
          ap (λ x. record p { mode = x }) ((text_eq_iff p.mode q.mode).0 a)
          ∙ (ap (λ x. record p { mode = q.mode; key = x }) ((text_eq_iff p.key q.key).0 b)
              ∙ (ap (λ x. record p { mode = q.mode; key = q.key; range_end = x })
                    ((text_eq_iff p.range_end q.range_end).0 c)
                  ∙ ap (λ x. record q { prefix = x }) ((bool_eq-Decides p.prefix q.prefix).0 d))),
      λ h. all (
        (text_eq_iff p.mode q.mode).1 (ap (λ x. x.mode) h),
        all2 (
          (text_eq_iff p.key q.key).1 (ap (λ x. x.key) h),
          all3 (
            (text_eq_iff p.range_end q.range_end).1 (ap (λ x. x.range_end) h),
            (bool_eq-Decides p.prefix q.prefix).1 (ap (λ x. x.prefix) h),
          ),
        ),
      ),
    )

role_eq-Decides : Decides role_eq
unfolding role_eq
role_eq-Decides r s =
    let (both, all) =
      and_true (text_eq r.name s.name) (slice_eq permission_eq r.permissions s.permissions) in
    let same = slice_eq-Decides permission_eq permission_eq-Decides r.permissions s.permissions in
    (
      λ h.
          let (a, b) = both h in
          ap (λ x. record r { name = x }) ((text_eq_iff r.name s.name).0 a)
          ∙ ap (λ x. record s { permissions = x }) (same.0 b),
      λ h.
          all (
            (text_eq_iff r.name s.name).1 (ap (λ x. x.name) h),
            same.1 (ap (λ x. x.permissions) h),
          ),
    )

user_eq-Decides : Decides user_eq
unfolding user_eq
user_eq-Decides u v =
    let (both, all) =
      and_true (text_eq u.name v.name)
        (text_eq u.password v.password && slice_eq text_eq u.roles v.roles) in
    let (both2, all2) =
      and_true (text_eq u.password v.password) (slice_eq text_eq u.roles v.roles) in
    let same = slice_eq-Decides text_eq text_eq_iff u.roles v.roles in
    (
      λ h.
          let (a, h2) = both h in
          let (b, c) = both2 h2 in
          ap (λ x. record u { name = x }) ((text_eq_iff u.name v.name).0 a)
          ∙ (ap (λ x. record u { name = v.name; password = x })
                ((text_eq_iff u.password v.password).0 b)
              ∙ ap (λ x. record v { roles = x }) (same.0 c)),
      λ h. all (
        (text_eq_iff u.name v.name).1 (ap (λ x. x.name) h),
        all2 (
          (text_eq_iff u.password v.password).1 (ap (λ x. x.password) h),
          same.1 (ap (λ x. x.roles) h),
        ),
      ),
    )

-- `Equal` is true just for equal configurations, of which nil slices are nil slices.
pub acl_eq_iff : (a b : AclConfig) → (acl_eq a b ≡ true) ↔ (a ≡ b)
unfolding acl_eq
acl_eq_iff a b =
    let (both, all) =
      and_true (option_eq a.root_password b.root_password)
        (slice_eq role_eq a.roles b.roles && slice_eq user_eq a.users b.users) in
    let (both2, all2) =
      and_true (slice_eq role_eq a.roles b.roles) (slice_eq user_eq a.users b.users) in
    let password = option_eq-Decides a.root_password b.root_password in
    let roles = slice_eq-Decides role_eq role_eq-Decides a.roles b.roles in
    let users = slice_eq-Decides user_eq user_eq-Decides a.users b.users in
    (
      λ h.
          let (p, h2) = both h in
          let (q, r) = both2 h2 in
          ap (λ x. record a { root_password = x }) (password.0 p)
          ∙ (ap (λ x. record a { root_password = b.root_password; roles = x }) (roles.0 q)
              ∙ ap (λ x. record b { users = x }) (users.0 r)),
      λ h. all (
        password.1 (ap (λ x. x.root_password) h),
        all2 (roles.1 (ap (λ x. x.roles) h), users.1 (ap (λ x. x.users) h)),
      ),
    )
