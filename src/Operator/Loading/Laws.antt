-- ===== src/Operator/Loading/Laws.antt =====
-- What a configuration that was loaded without an error is.
use mathlib.Core.Option.{none-ne-some}
use etcd_cloud_operator.Prelude.{
  Text, Option, none, some, [], text_eq, text_eq_iff, ◌≡◌, ◌⊎◌, inl, inr, refl, sym, ap, subst,
  Bool-cases,
}
use etcd_cloud_operator.Etcd.Validate.{validate, ConfigError}
use etcd_cloud_operator.Etcd.Validate.Valid.{IsValid}
use etcd_cloud_operator.Etcd.Validate.Laws.{validate-IsValid}
use etcd_cloud_operator.Operator.Loading.{
  EcoConfig, default_config, FileEnv, LoadError, checked, parsed, read, load_config,
}

failed-ne-loaded :
    {c d : EcoConfig} {e : LoadError}
    → ¬ (◌≡◌ {A = EcoConfig × Option LoadError} (c, some e) (d, none))
failed-ne-loaded {c} {d} {e} h = none-ne-some e (sym (ap (λ r. r.1) h))

checked-none :
    (c d : EcoConfig) (o : Option ConfigError) → checked c o ≡ (d, none) → (o ≡ none) × (c ≡ d)
unfolding checked
checked-none c d none h = (refl, ap (λ r. r.0) h)
checked-none c d (some e) h = absurd (failed-ne-loaded h)

validated-IsValid :
    (c d : EcoConfig)
    → checked c (validate c.operator.etcd) ≡ (d, none)
    → IsValid d.operator.etcd × (c ≡ d)
validated-IsValid c d h =
    let (e, same) = checked-none c d (validate c.operator.etcd) h in
    (
      subst (λ (x : EcoConfig). IsValid x.operator.etcd) same
          ((validate-IsValid c.operator.etcd).0 e),
      same,
    )

parsed-IsValid :
    (o : Option EcoConfig) (d : EcoConfig)
    → parsed o ≡ (d, none)
    → IsValid d.operator.etcd × (o ≡ some d)
unfolding parsed
parsed-IsValid none d h = absurd (failed-ne-loaded h)
parsed-IsValid (some c) d h = let (v, e) = validated-IsValid c d h in (v, ap some e)

read-IsValid :
    (env : FileEnv) (o : Option Text) (d : EcoConfig)
    → read env o ≡ (d, none)
    → IsValid d.operator.etcd
      × ((text : Text) × (o ≡ some text) × (env.unmarshal text default_config ≡ some d))
unfolding read
read-IsValid env none d h = absurd (failed-ne-loaded h)
read-IsValid env (some text) d h =
    let (v, e) = parsed-IsValid (env.unmarshal text default_config) d h in (v, (text, refl, e))

default-IsValid : IsValid default_config.operator.etcd
default-IsValid = λ acl e. absurd (none-ne-some acl e)

-- A configuration that is loaded without an error is valid for etcd; it is the default one where no path
-- is given, and what the file makes of the default one otherwise.
pub load_config-IsValid :
    (env : FileEnv) (path : Text) (c : EcoConfig)
    → load_config env path ≡ (c, none)
    → IsValid c.operator.etcd
      × (((path ≡ []) × (c ≡ default_config))
          ⊎ ((text : Text) × (env.reads (env.expand_env path) ≡ some text)
              × (env.unmarshal text default_config ≡ some c)))
unfolding load_config
load_config-IsValid env path c h = elim (Bool-cases (text_eq path [])) [
  | inl e ↦
      let same = ap (λ r. r.0) (rw e at h) in
      (
        subst (λ (x : EcoConfig). IsValid x.operator.etcd) same default-IsValid,
        inl ((text_eq_iff path []).0 e, sym same),
      )
  | inr e ↦ elim (Bool-cases (env.opens (env.expand_env path))) [
    | inl f ↦
        let (v, from) = read-IsValid env (env.reads (env.expand_env path)) c (rw (e, f) at h) in
        (v, inr from)
    | inr f ↦ absurd (failed-ne-loaded (rw (e, f) at h))
  ]
]
