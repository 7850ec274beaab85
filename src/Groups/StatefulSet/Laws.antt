-- ===== src/Groups/StatefulSet/Laws.antt =====
-- What the operator of a pod is told of its stateful set.
use mathlib.Core.List.{mem-cons_self, mem-cons_of_mem, tail-eq_of_cons-eq}
use mathlib.Core.Option.{none-ne-some, some-injective}
use etcd_cloud_operator.Prelude.{
  Text, codes, ℕ, zero, suc, ◌+◌, ◌<◌, pos, some, [], ◌∷◌, ◌++◌, Mem, get_elem?, length, Outcome,
  ok, err, ok-injective, then-ok, ◌>>=◌, text_eq, decimal, decimal-injective, atoi, ◌≡◌, refl, sym,
  ◌∙◌, ap, subst, arith, Bool-cases, inl, inr,
}
use etcd_cloud_operator.Operator.Status.{Instance}
use etcd_cloud_operator.Groups.{Answer}
use etcd_cloud_operator.Groups.StatefulSet.{
  Sts, env_or_err, with_namespace, with_name, with_service, with_suffix, with_replicas,
  with_hostname, instance_address, instance_of, number, configure, pod_name, pod, pods, of_replicas,
  status,
}

err-ne-okay : {A : Type 0} {e : Text} {a : A} → ¬ (◌≡◌ {A = Outcome Text A} (err e) (ok a))
err-ne-okay h = cc

env_or_err-ok :
    (getenv : Text → Text) (key v : Text) → env_or_err getenv key ≡ ok v → v ≡ getenv key
unfolding env_or_err
env_or_err-ok getenv key v h = elim (Bool-cases (text_eq (getenv key) [])) [
  | inl e ↦ absurd (err-ne-okay (rw e at h))
  | inr e ↦ sym (ok-injective {E = Text} (rw e at h))
]

-- What a configuration that succeeded took from the environment.
configured :
    (getenv : Text → Text) (a : Sts)
    → configure getenv ≡ ok a
    → (a.name ≡ getenv (codes "STATEFULSET_NAME"))
      × (a.self
          ≡ instance_of (getenv (codes "HOSTNAME")) (
              instance_address
                (getenv (codes "HOSTNAME"))
                a.service_name
                a.namespace
                a.dns_cluster_suffix))
unfolding configure with_namespace with_name with_service with_suffix with_replicas with_hostname
configured getenv a h =
    let (namespace, _, h1) =
      then-ok (env_or_err getenv (codes "STATEFULSET_NAMESPACE")) (with_namespace getenv) a h in
    let (name, e, h2) =
      then-ok (env_or_err getenv (codes "STATEFULSET_NAME")) (with_name getenv namespace) a h1 in
    let (service, _, h3) =
      then-ok (env_or_err getenv (codes "STATEFULSET_SERVICE_NAME"))
        (with_service getenv namespace name) a h2 in
    let (suffix, _, h4) =
      then-ok (env_or_err getenv (codes "STATEFULSET_DNS_CLUSTER_SUFFIX"))
        (with_suffix getenv namespace name service) a h3 in
    let (replicas, _, h5) =
      then-ok (env_or_err getenv (codes "STATEFULSET_REPLICAS") >>= λ text. number (atoi text))
        (with_replicas getenv namespace name service suffix) a h4 in
    let (host, f, h6) =
      then-ok (env_or_err getenv (codes "HOSTNAME"))
        (with_hostname namespace name service suffix replicas) a h5 in
    let made = ok-injective {E = Text} h6 in
    let hostname = env_or_err-ok getenv (codes "HOSTNAME") host f in
    (
      ap (λ x. x.name) (sym made) ∙ env_or_err-ok getenv (codes "STATEFULSET_NAME") name e,
      subst
          (λ (x : Sts).
            x.self
            ≡ instance_of (getenv (codes "HOSTNAME")) (
                instance_address (getenv (codes "HOSTNAME")) x.service_name x.namespace
                  x.dns_cluster_suffix))
          made (ap (λ k. instance_of k (instance_address k service namespace suffix)) hostname),
    )

length-pods : (a : Sts) (i n : ℕ) → length (pods a i n) ≡ n
unfolding pods
length-pods a i zero = refl
length-pods a i (suc n) = ap suc (length-pods a (i + 1) n)

get_elem?-pods :
    (a : Sts) (i n j : ℕ) (x : Instance) → get_elem? (pods a i n) j ≡ some x → x ≡ pod a (i + j)
unfolding pods
get_elem?-pods a i zero j x h = absurd (none-ne-some x h)
get_elem?-pods a i (suc n) zero x h = sym (some-injective _ x h) ∙ ap (pod a) (omega arith)
get_elem?-pods a i (suc n) (suc j) x h = get_elem?-pods a (i + 1) n j x h ∙ ap (pod a) (omega arith)

mem-pods : (a : Sts) (i n j : ℕ) → j < n → Mem (pod a (i + j)) (pods a i n)
unfolding pods
mem-pods a i zero j h = absurd (omega arith)
mem-pods a i (suc n) zero h =
    let e : i ≡ i + 0 = omega arith in
    subst (λ k. Mem (pod a k) (pod a i ∷ pods a (i + 1) n)) e mem-cons_self
mem-pods a i (suc n) (suc j) h =
    let e : i + 1 + j ≡ i + suc j = omega arith in
    mem-cons_of_mem (pod a i)
      (subst (λ k. Mem (pod a k) (pods a (i + 1) n)) e (mem-pods a (i + 1) n j (omega arith)))

append_cancel : (s t u : Text) → s ++ t ≡ s ++ u → t ≡ u
append_cancel [] t u h = h
append_cancel (c ∷ s) t u h = append_cancel s t u (tail-eq_of_cons-eq h)

pod_name-injective : (name : Text) (i j : ℕ) → pod_name name i ≡ pod_name name j → i ≡ j
unfolding pod_name
pod_name-injective name i j h =
    decimal-injective i j
      (tail-eq_of_cons-eq (append_cancel name (b'-' ∷ decimal i) (b'-' ∷ decimal j) h))

same_pod :
    (a : Sts) (n i j : ℕ) (x y : Instance)
    → get_elem? (pods a 0 n) i ≡ some x
    → get_elem? (pods a 0 n) j ≡ some y
    → x.name ≡ y.name
    → i ≡ j
unfolding pod instance_of
same_pod a n i j x y h k e =
    let p = get_elem?-pods a 0 n i x h in
    let q = get_elem?-pods a 0 n j y k in
    pod_name-injective a.name i j (
      ap (pod_name a.name) (omega arith)
      ∙ (sym (ap (λ z. z.name) p)
          ∙ (e ∙ (ap (λ z. z.name) q ∙ ap (pod_name a.name) (omega arith)))))

self_pod :
    (getenv : Text → Text) (a : Sts) (i : ℕ)
    → configure getenv ≡ ok a
    → getenv (codes "HOSTNAME") ≡ pod_name (getenv (codes "STATEFULSET_NAME")) i
    → a.self ≡ pod a i
unfolding pod
self_pod getenv a i h host =
    let (name, self) = configured getenv a h in
    self
    ∙ ap (λ k. instance_of k (instance_address k a.service_name a.namespace a.dns_cluster_suffix))
        (host ∙ ap (λ k. pod_name k i) (sym name))

-- A pod whose provider is configured, and whose host name is that of the i-th pod of the stateful set, is
-- told a group of as many instances as there are replicas, with different names, and is one of them.
pub status_lem :
    (getenv : Text → Text) (a : Sts) (i n : ℕ)
    → configure getenv ≡ ok a
    → getenv (codes "HOSTNAME") ≡ pod_name (getenv (codes "STATEFULSET_NAME")) i
    → a.replicas ≡ pos n
    → i < n
    → (answer : Answer) × (status a ≡ ok answer)
      × (length answer.instances ≡ n)
      × (answer.size ≡ pos n)
      × (answer.self ≡ some a.self)
      × Mem a.self answer.instances
      × ((j k : ℕ) (x y : Instance)
          → get_elem? answer.instances j ≡ some x
          → get_elem? answer.instances k ≡ some y
          → x.name ≡ y.name
          → j ≡ k)
unfolding status of_replicas
status_lem getenv a i n h host replicas less =
    let from_zero : 0 + i ≡ i = omega arith in
    let member =
      subst (λ (z : Instance). Mem z (pods a 0 n)) (sym (self_pod getenv a i h host))
        (subst (λ k. Mem (pod a k) (pods a 0 n)) from_zero (mem-pods a 0 n i less)) in
    (
      record { instances = pods a 0 n; self = some a.self; size = pos n },
      ap (of_replicas a) replicas,
      length-pods a 0 n,
      refl,
      refl,
      member,
      same_pod a n,
    )
