-- ===== src/Groups/StatefulSet/Tests.antt =====
-- The second pod of a stateful set of three.
use etcd_cloud_operator.Prelude.{
  Text, codes, ℕ, pos, some, Mem, get_elem?, length, ok, text_eq, decimal, decimal_digits, atoi,
  in_range, parse_decimals, decimal_value, ◌≡◌, refl, arith, if◌then◌else◌,
}
use etcd_cloud_operator.Operator.Status.{Instance}
use etcd_cloud_operator.Groups.{Answer}
use etcd_cloud_operator.Groups.StatefulSet.{
  Sts, env_or_err, configure, pod_name, instance_of, instance_address, status,
}
use etcd_cloud_operator.Groups.StatefulSet.Laws.{status_lem}

abbrev variables : Text → Text
variables key =
    if text_eq key (codes "HOSTNAME")
    then codes "eco-1"
    else if text_eq key (codes "STATEFULSET_NAME")
    then codes "eco"
    else if text_eq key (codes "STATEFULSET_REPLICAS")
    then codes "3"
    else codes "x"

abbrev second_pod : Instance
second_pod = record {
  name = codes "eco-1";
  address = codes "eco-1.x.x.svc.x";
  bind_address = codes "0.0.0.0";
}

abbrev second : Sts
second = record {
  namespace = codes "x";
  name = codes "eco";
  service_name = codes "x";
  dns_cluster_suffix = codes "x";
  replicas = pos 3;
  self = second_pod;
}

status_lem_example :
    (answer : Answer) × (status second ≡ ok answer)
    × (length answer.instances ≡ 3)
    × (answer.size ≡ pos 3)
    × (answer.self ≡ some second_pod)
    × Mem second_pod answer.instances
    × ((j k : ℕ) (x y : Instance)
        → get_elem? answer.instances j ≡ some x
        → get_elem? answer.instances k ≡ some y
        → x.name ≡ y.name
        → j ≡ k)
unfolding configure env_or_err text_eq in_range pod_name decimal decimal_digits atoi parse_decimals
    decimal_value instance_of instance_address
status_lem_example = status_lem variables second 1 3 refl refl refl (omega arith)
