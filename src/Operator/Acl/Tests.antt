-- ===== src/Operator/Acl/Tests.antt =====
-- Reconciliations of the access control.
use etcd_cloud_operator.Prelude.{codes, none, some, [], ◌∷◌, ◌⊎◌, inr, ◌≡◌, refl, text_eq, to_lower}
use etcd_cloud_operator.Operator.Acl.Effects.{AclTrace, issue, settled}
use etcd_cloud_operator.Operator.Acl.Apply.{apply_acl_config, apply_roles, apply_users, mode_of}
use etcd_cloud_operator.Operator.Acl.Apply.Applied.{Applied, apply_acl_config-Applied}
use etcd_cloud_operator.Operator.Acl.Reconcile.{
  reconcile_init_acl_config, get_old_acl_config, enable_acl, get_cert_common_name, has_root,
  common_name_of,
}
use etcd_cloud_operator.Operator.Acl.Reconcile.Laws.{reconcile_idle, reconcile-Applied}
use etcd_cloud_operator.Operator.Acl.Fixtures.{acl, answering}

abbrev applied_calls : AclTrace
applied_calls = (apply_acl_config (answering none []) acl []).1

apply_acl_config-Applied_example : Applied (answering none []) acl applied_calls
unfolding apply_acl_config apply_roles apply_users issue settled mode_of to_lower text_eq
apply_acl_config-Applied_example =
    apply_acl_config-Applied (answering none []) acl [] applied_calls refl

reconcile_idle_example :
    reconcile_init_acl_config (answering (some (codes "root" ∷ [])) (codes "yaml" ∷ [])) acl []
    ≡ (inr tt, [])
unfolding get_cert_common_name common_name_of has_root text_eq
reconcile_idle_example =
    reconcile_idle (answering (some (codes "root" ∷ [])) (codes "yaml" ∷ [])) acl (codes "operator")
      (codes "yaml") (codes "root" ∷ []) [] refl refl refl refl refl

abbrev reconciled_calls : AclTrace
reconciled_calls = (reconcile_init_acl_config (answering none []) acl []).1

reconcile-Applied_example :
    (get_old_acl_config (answering none []) reconciled_calls ≡ (inr (some acl), reconciled_calls))
    ⊎ Applied (answering none []) acl reconciled_calls
unfolding reconcile_init_acl_config enable_acl get_cert_common_name common_name_of apply_acl_config
    apply_roles apply_users issue settled mode_of to_lower text_eq
reconcile-Applied_example = reconcile-Applied (answering none []) acl [] reconciled_calls refl
