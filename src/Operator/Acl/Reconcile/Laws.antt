-- ===== src/Operator/Acl/Reconcile/Laws.antt =====
-- When a reconciliation of the access control has nothing to do, and what it does otherwise.
use etcd_cloud_operator.Prelude.{
  Text, true, Option, none, some, List, [], ◌∷◌, ◌⊎◌, inl, inr, ◌≡◌, refl, sym, ◌∙◌, ap, subst,
  Bool-cases,
}
use etcd_cloud_operator.Etcd.Config.{AclConfig}
use etcd_cloud_operator.Operator.Acl.Effects.{AclError, AclTrace, AclEnv, ◌>>=◌}
use etcd_cloud_operator.Operator.Acl.Apply.{apply_acl_config, remove_acl_config}
use etcd_cloud_operator.Operator.Acl.Apply.Roles.{and_then-done, sequence-done}
use etcd_cloud_operator.Operator.Acl.Apply.Applied.{Applied, apply_acl_config-Applied}
use etcd_cloud_operator.Operator.Acl.Reconcile.Equal.{acl_eq_iff}
use etcd_cloud_operator.Operator.Acl.Reconcile.{
  acl_eq, get_cert_common_name, has_root, is_set_up, enable_as, enable_acl, old_config,
  unmarshalled, get_old_acl_config, replace, reconcile_init_acl_config,
}

unmarshalled-trace : (o : Option AclConfig) (t : AclTrace) → (unmarshalled o t).1 ≡ t
unfolding unmarshalled
unmarshalled-trace none t = refl
unmarshalled-trace (some config) t = refl

module _ (env : AclEnv) where
  enable_acl_again :
      (config : AclConfig) (name : Text) (roles : List Text) (t : AclTrace)
      → get_cert_common_name env t ≡ (inr name, t)
      → env.on_user_get t name ≡ some roles
      → has_root roles ≡ true
      → enable_acl env config t ≡ (inr tt, t)
  unfolding enable_acl enable_as is_set_up
  enable_acl_again config name roles t c u r = rw (c, u, r) refl

  -- Where the user of the certificate has the root role, and the stored configuration reads back as the one
  -- wanted, in which a nil list is not an empty one, a reconciliation returns nil and calls for no change.
  pub reconcile_idle :
      (config : AclConfig) (name text : Text) (roles : List Text) (t : AclTrace)
      → get_cert_common_name env t ≡ (inr name, t)
      → env.on_user_get t name ≡ some roles
      → has_root roles ≡ true
      → env.on_config t ≡ inr (text ∷ [])
      → env.unmarshal text ≡ some config
      → reconcile_init_acl_config env config t ≡ (inr tt, t)
  unfolding reconcile_init_acl_config get_old_acl_config old_config replace
  reconcile_idle config name text roles t c u r o d =
      rw
        (
          enable_acl_again config name roles t c u r,
          o,
          d,
          old_config,
          (acl_eq_iff config config).1 refl,
        )
        refl

  replace-Applied :
      (config : AclConfig) (old : Option AclConfig) (t u : AclTrace)
      → replace env config old t ≡ (inr tt, u)
      → ((old ≡ some config) × (u ≡ t)) ⊎ Applied env config u
  unfolding replace
  replace-Applied config none t u h = inr (apply_acl_config-Applied env config t u h)
  replace-Applied config (some old) t u h = elim (Bool-cases (acl_eq old config)) [
    | inl e ↦ inl (ap some ((acl_eq_iff old config).0 e), ap (λ r. r.1) (sym (rw e at h)))
    | inr e ↦
        let (v, _, k) =
          sequence-done (remove_acl_config env old) (apply_acl_config env config) tt t u
            (rw e at h) in
        inr (apply_acl_config-Applied env config v u k)
  ]

  old_config-trace :
      (values : AclError ⊎ List Text) (t : AclTrace) → (old_config env values t).1 ≡ t
  unfolding old_config
  old_config-trace (inl e) t = refl
  old_config-trace (inr []) t = refl
  old_config-trace (inr (text ∷ [])) t = unmarshalled-trace (env.unmarshal text) t
  old_config-trace (inr (x ∷ y ∷ rest)) t = refl

  -- Reading the stored configuration calls for no change.
  get_old_acl_config-trace : (t : AclTrace) → (get_old_acl_config env t).1 ≡ t
  unfolding get_old_acl_config
  get_old_acl_config-trace t = old_config-trace (env.on_config t) t

  -- A reconciliation that returns nil found exactly the configuration that is wanted stored, or it has applied
  -- it, without the ends of ranges that it gives, and recorded it by its last call.
  pub reconcile-Applied :
      (config : AclConfig) (t u : AclTrace)
      → reconcile_init_acl_config env config t ≡ (inr tt, u)
      → (get_old_acl_config env u ≡ (inr (some config), u)) ⊎ Applied env config u
  unfolding reconcile_init_acl_config
  reconcile-Applied config t u h =
      let (v, _, k) =
        sequence-done (enable_acl env config) (get_old_acl_config env >>= replace env config) tt t u
          h in
      let (old, w, read, replaced) =
        and_then-done (get_old_acl_config env v) (replace env config) tt u k in
      elim (replace-Applied config old w u replaced) [
        | inl (e, kept) ↦
            let here : u ≡ v = kept ∙ (ap (λ r. r.1) (sym read) ∙ get_old_acl_config-trace v) in
            inl (
              subst (λ x. get_old_acl_config env x ≡ (inr (some config), u)) (sym here)
                (read ∙ (ap (λ o. (inr o, w)) e ∙ ap (λ x. (inr (some config), x)) (sym kept))))
        | inr applied ↦ inr applied
      ]
