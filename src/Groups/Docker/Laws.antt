-- ===== src/Groups/Docker/Laws.antt =====
-- Which container an operator takes for itself.
use etcd_cloud_operator.Prelude.{
  Bool, inl, inr, true, Bool-cases, some, err, map, split, trim_last, trim_first, subst, Text,
  Option, none, List, [], ◌∷◌, Outcome, ok, then-ok, ok-injective, ◌>>=◌, contains, last_where,
  Found, last_where-Found, ◌≡◌, refl, sym, ◌∙◌, ap,
}
use etcd_cloud_operator.Groups.{Answer}
use etcd_cloud_operator.Operator.Status.{Instance}
use etcd_cloud_operator.Groups.Docker.{
  container_of, trimmed, instance_of, DockerConfig, Container, DockerEnv, container_list,
  container_inspect, inspect_all, instances_of, nilable, status,
}

-- The container is what docker printed of the name: its id, its name and its address, between commas.
abbrev pub Inspected : DockerEnv → Text → Container → Type 0
Inspected env name c =
    ((env.on_inspect name).succeeded ≡ true)
    × ((full_name : Text) × (split b',' (trim_last b'\n' (env.on_inspect name).out)
          ≡ c.id ∷ full_name ∷ c.address ∷ [])
        × (c.name ≡ trim_first b'/' full_name))

-- A container for each name, in their order.
abbrev pub AllInspected : DockerEnv → List Text → List Container → Type 0
AllInspected env [] [] = Unit
AllInspected env [] (c ∷ cs) = ⊥
AllInspected env (name ∷ names) [] = ⊥
AllInspected env (name ∷ names) (c ∷ cs) = Inspected env name c × AllInspected env names cs

-- The names that docker printed, one on each line.
abbrev pub AreListed : DockerEnv → Text → List Text → Type 0
AreListed env name_filter names =
    ((env.on_ps name_filter).succeeded ≡ true)
    × (names ≡ split b'\n' (trim_last b'\n' (env.on_ps name_filter).out))

-- A container as an instance, under its name and address.
abbrev pub as_instance : Container → Instance
as_instance c = record { name = c.name; address = c.address; bind_address = c.address }

abbrev pub as_self : Option Container → Option Instance
as_self none = none
as_self (some c) = some (as_instance c)

err-ne-done : {A : Type 0} {e : Text} {a : A} → ¬ (◌≡◌ {A = Outcome Text A} (err e) (ok a))
err-ne-done h = cc

container_of-Three :
    (name : Text) (pieces : List Text) (c : Container)
    → container_of name pieces ≡ ok c
    → (full_name : Text) × (pieces ≡ c.id ∷ full_name ∷ c.address ∷ [])
      × (c.name ≡ trim_first b'/' full_name)
unfolding container_of
container_of-Three name [] c h = absurd (err-ne-done h)
container_of-Three name (id ∷ []) c h = absurd (err-ne-done h)
container_of-Three name (id ∷ full ∷ []) c h = absurd (err-ne-done h)
container_of-Three name (id ∷ full ∷ address ∷ []) c h =
    let same = ok-injective {E = Text} h in
    (full, ap (λ x. x.id ∷ full ∷ x.address ∷ []) same, sym (ap (λ x. x.name) same))
container_of-Three name (id ∷ full ∷ address ∷ x ∷ xs) c h = absurd (err-ne-done h)

inspect-Inspected :
    (env : DockerEnv) (name : Text) (c : Container)
    → container_inspect env name ≡ ok c
    → Inspected env name c
unfolding container_inspect trimmed
inspect-Inspected env name c h = elim (Bool-cases (env.on_inspect name).succeeded) [
  | inl e ↦ (
    e,
    container_of-Three name (split b',' (trim_last b'\n' (env.on_inspect name).out)) c (rw e at h),
  )
  | inr e ↦ absurd (err-ne-done (rw e at h))
]

inspect_all-AllInspected :
    (env : DockerEnv) (names : List Text) (cs : List Container)
    → inspect_all env names ≡ ok cs
    → AllInspected env names cs
unfolding inspect_all
inspect_all-AllInspected env [] cs h = subst (AllInspected env []) (ok-injective {E = Text} h) tt
inspect_all-AllInspected env (name ∷ names) cs h =
    let (c, d, h1) =
      then-ok (container_inspect env name) (λ c. inspect_all env names >>= λ cs. ok (c ∷ cs)) cs
        h in
    let (rest, e, h2) = then-ok (inspect_all env names) (λ cs. ok (c ∷ cs)) cs h1 in
    subst (AllInspected env (name ∷ names)) (ok-injective {E = Text} h2)
      (inspect-Inspected env name c d, inspect_all-AllInspected env names rest e)

list-AreListed :
    (env : DockerEnv) (name_filter : Text) (names : List Text)
    → container_list env name_filter ≡ ok names
    → AreListed env name_filter names
unfolding container_list trimmed
list-AreListed env name_filter names h = elim (Bool-cases (env.on_ps name_filter).succeeded) [
  | inl e ↦ (e, sym (ok-injective {E = Text} (rw e at h)))
  | inr e ↦ absurd (err-ne-done (rw e at h))
]

instances_of-map : (cs : List Container) → instances_of cs ≡ map as_instance cs
unfolding instances_of instance_of
instances_of-map [] = refl
instances_of-map (c ∷ cs) = ap (λ is. as_instance c ∷ is) (instances_of-map cs)

nilable-as_self : (o : Option Container) → nilable o ≡ as_self o
unfolding nilable instance_of
nilable-as_self none = refl
nilable-as_self (some c) = refl

-- An answer without an error has an instance for each name that docker listed, under the name and address
-- that docker tells of it, and the size of the configuration; itself is nil where no container has the name
-- of the host in its id, and is one that does otherwise.
pub docker_status-Found :
    (env : DockerEnv) (config : DockerConfig) (answer : Answer)
    → status env config ≡ ok answer
    → (names : List Text) × (cs : List Container) × (found : Option Container) × AreListed env
        config.name_filter names
      × AllInspected env names cs
      × Found (λ (c : Container). contains c.id env.hostname) cs found
      × (answer
          ≡ record { instances = map as_instance cs; self = as_self found; size = config.size })
unfolding status
docker_status-Found env config answer h =
    let is_self : Container → Bool = λ c. contains c.id env.hostname in
    let answered : List Container → Outcome Text Answer = λ cs. ok (record {
      instances = instances_of cs;
      self = nilable (last_where is_self none cs);
      size = config.size;
    }) in
    let (names, e, h1) =
      then-ok (container_list env config.name_filter) (λ names. inspect_all env names >>= answered)
        answer h in
    let (cs, f, h2) = then-ok (inspect_all env names) answered answer h1 in
    let found = last_where is_self none cs in
    (
      names,
      cs,
      found,
      list-AreListed env config.name_filter names e,
      inspect_all-AllInspected env names cs f,
      last_where-Found is_self cs,
      sym (ok-injective {E = Text} h2)
          ∙ (ap (λ is. record { instances = is; self = nilable found; size = config.size })
                (instances_of-map cs)
              ∙ ap (λ s. record { instances = map as_instance cs; self = s; size = config.size })
                  (nilable-as_self found)),
    )
