-- ===== src/Groups/StatefulSet.antt =====
-- pkg/providers/asg/sts: the instances of a stateful set, from its environment variables.
pub mod Laws
mod Tests
use etcd_cloud_operator.Prelude.{
  Text, codes, ℕ, zero, suc, ◌+◌, ℤ, pos, negsuc, Option, none, some, List, [], ◌∷◌, ◌++◌, Outcome,
  ok, err, panic, ◌>>=◌, text_eq, decimal, atoi, if◌then◌else◌,
}
use etcd_cloud_operator.Operator.Status.{Instance}
use etcd_cloud_operator.Groups.{Answer}

-- The struct `sts`.
pub record Sts : Type 0 where
  pub namespace : Text
  pub name : Text
  pub service_name : Text
  pub dns_cluster_suffix : Text
  pub replicas : ℤ
  pub self : Instance

-- `envOrErr`, on what `os.Getenv` answers; the error is the name of the variable.
unfoldable pub env_or_err : (Text → Text) → Text → Outcome Text Text
env_or_err getenv key = if text_eq (getenv key) [] then err key else ok (getenv key)

unfoldable pub instance_address : Text → Text → Text → Text → Text
instance_address name service_name namespace dns_cluster_suffix =
    name
    ++ (codes "."
        ++ (service_name ++ (codes "." ++ (namespace ++ (codes ".svc." ++ dns_cluster_suffix)))))

-- Every instance binds to all addresses.
unfoldable pub instance_of : Text → Text → Instance
instance_of name address = record { name = name; address = address; bind_address = codes "0.0.0.0" }

number : Option ℤ → Outcome Text ℤ
number none = err (codes "STATEFULSET_REPLICAS should be an integer")
number (some n) = ok n

with_hostname : Text → Text → Text → Text → ℤ → Text → Outcome Text Sts
unfolding instance_address instance_of
with_hostname namespace name service_name dns_cluster_suffix replicas hostname = ok (record {
  namespace = namespace;
  name = name;
  service_name = service_name;
  dns_cluster_suffix = dns_cluster_suffix;
  replicas = replicas;
  self = instance_of hostname (instance_address hostname service_name namespace dns_cluster_suffix);
})

with_replicas : (Text → Text) → Text → Text → Text → Text → ℤ → Outcome Text Sts
unfolding env_or_err with_hostname
with_replicas getenv namespace name service_name dns_cluster_suffix replicas =
    env_or_err getenv (codes "HOSTNAME")
    >>= with_hostname namespace name service_name dns_cluster_suffix replicas

with_suffix : (Text → Text) → Text → Text → Text → Text → Outcome Text Sts
unfolding env_or_err with_replicas number
with_suffix getenv namespace name service_name dns_cluster_suffix =
    (env_or_err getenv (codes "STATEFULSET_REPLICAS") >>= λ text. number (atoi text))
    >>= with_replicas getenv namespace name service_name dns_cluster_suffix

with_service : (Text → Text) → Text → Text → Text → Outcome Text Sts
unfolding env_or_err with_suffix
with_service getenv namespace name service_name =
    env_or_err getenv (codes "STATEFULSET_DNS_CLUSTER_SUFFIX")
    >>= with_suffix getenv namespace name service_name

with_name : (Text → Text) → Text → Text → Outcome Text Sts
unfolding env_or_err with_service
with_name getenv namespace name =
    env_or_err getenv (codes "STATEFULSET_SERVICE_NAME") >>= with_service getenv namespace name

with_namespace : (Text → Text) → Text → Outcome Text Sts
unfolding env_or_err with_name
with_namespace getenv namespace =
    env_or_err getenv (codes "STATEFULSET_NAME") >>= with_name getenv namespace

-- `Configure`: the variables one after the other.
unfoldable pub configure : (Text → Text) → Outcome Text Sts
unfolding env_or_err with_namespace
configure getenv = env_or_err getenv (codes "STATEFULSET_NAMESPACE") >>= with_namespace getenv

-- `fmt.Sprintf("%s-%d", name, i)`.
unfoldable pub pod_name : Text → ℕ → Text
pod_name name i = name ++ b'-' ∷ decimal i

unfoldable pub pod : Sts → ℕ → Instance
unfolding pod_name instance_address instance_of
pod a i =
    instance_of (pod_name a.name i)
      (instance_address (pod_name a.name i) a.service_name a.namespace a.dns_cluster_suffix)

-- The loop, with `left` replicas to go.
unfoldable pub pods : Sts → ℕ → ℕ → List Instance
unfolding pod
pods a i zero = []
pods a i (suc left) = pod a i ∷ pods a (i + 1) left

of_replicas : Sts → ℤ → Outcome Text Answer
unfolding pods
of_replicas a (negsuc n) = panic
of_replicas a (pos n) = ok (record { instances = pods a 0 n; self = some a.self; size = pos n })

-- `AutoScalingGroupStatus`: a negative number of replicas makes a slice of negative capacity, which panics.
unfoldable pub status : Sts → Outcome Text Answer
unfolding of_replicas
status a = of_replicas a a.replicas
