-- ===== src/Groups/Aws/Laws.antt =====
-- What the operator of an instance is told of its auto-scaling group.
use etcd_cloud_operator.Prelude.{
  Bool, Bool-cases, inl, inr, codes, to_lower, map, filter_if, ◌++◌, Text, ℤ, Option, none, some,
  List, [], ◌∷◌, Found, last_where, last_where-Found, Outcome, ok, err, panic, ok-injective,
  text_eq, ◌≡◌, refl, sym, ◌∙◌, ap, subst,
}
use etcd_cloud_operator.Operator.Status.{Instance}
use etcd_cloud_operator.Groups.{Answer}
use etcd_cloud_operator.Groups.Aws.{
  Ec2Instance, is_running, instance_of, running_of, Aws, AwsEnv, Reservations, State, then_do,
  identify, name_group, described, describe_asg, running_in, status,
}

module _ {A : Type 0} where
  err-ne-answer :
      {e : Text} {x : A} {a b : Aws} → ¬ (◌≡◌ {A = Outcome Text A × Aws} (err e, a) (ok x, b))
  err-ne-answer {e} {x} h = let p : ◌≡◌ {A = Outcome Text A} (err e) (ok x) = ap (λ r. r.0) h in cc

  panic-ne-answer : {x : A} {a b : Aws} → ¬ (◌≡◌ {A = Outcome Text A × Aws} (panic, a) (ok x, b))
  panic-ne-answer {x} h = let p : ◌≡◌ {A = Outcome Text A} panic (ok x) = ap (λ r. r.0) h in cc

then_do-ok :
    {A B : Type 0} (r : Outcome Text A × Aws) (f : A → State B) (y : B) (b : Aws)
    → then_do r f ≡ (ok y, b)
    → (x : A) × (a : Aws) × (r ≡ (ok x, a)) × (f x a ≡ (ok y, b))
unfolding then_do
then_do-ok (ok x, a) f y b h = (x, a, refl, h)
then_do-ok (err e, a) f y b h = absurd (err-ne-answer h)
then_do-ok (panic, a) f y b h = absurd (panic-ne-answer h)

-- What was described, and from which answers.
described-ok :
    (groups : Option (List ℤ)) (reservations : Option Reservations) (a b : Aws)
    (x : ℤ × Reservations)
    → described groups reservations a ≡ (ok x, b)
    → (more : List ℤ) × (groups ≡ some (x.0 ∷ more)) × (reservations ≡ some x.1) × (b ≡ a)
unfolding described
described-ok none rs a b x h = absurd (err-ne-answer h)
described-ok (some gs) none a b x h = absurd (err-ne-answer h)
described-ok (some []) (some rs) a b x h = absurd (panic-ne-answer h)
described-ok (some (g ∷ gs)) (some rs) a b x h =
    let same = ok-injective {E = Text} (ap (λ r. r.0) h) in
    (gs, ap (λ y. some (y.0 ∷ gs)) same, ap (λ y. some y.1) same, sym (ap (λ r. r.1) h))

describe_asg-ok :
    (env : AwsEnv) (a b : Aws) (x : ℤ × Reservations)
    → describe_asg env a ≡ (ok x, b)
    → (more : List ℤ) × (env.on_groups b.asg_name ≡ some (x.0 ∷ more))
      × (env.on_instances b.asg_name ≡ some x.1)
unfolding describe_asg
describe_asg-ok env a b x h =
    let last : Unit {0} → State (ℤ × Reservations) =
      λ _ c. described (env.on_groups c.asg_name) (env.on_instances c.asg_name) c in
    let (_, c, _, h1) =
      then_do-ok (identify env a) (λ _ c. then_do (name_group env c) last) x b h in
    let (_, d, _, h2) = then_do-ok (name_group env c) last x b h1 in
    let (more, g, r, same) =
      described-ok (env.on_groups d.asg_name) (env.on_instances d.asg_name) d b x h2 in
    (
      more,
      ap (λ (z : Aws). env.on_groups z.asg_name) same ∙ g,
      ap (λ (z : Aws). env.on_instances z.asg_name) same ∙ r,
    )

-- The instance is in the state "running", in whatever letters that is written.
abbrev pub runs : Ec2Instance → Bool
runs i = text_eq (to_lower i.state) (codes "running")

-- An instance under its id and its address.
abbrev pub as_instance : Ec2Instance → Instance
as_instance i = record { name = i.id; address = i.address; bind_address = i.address }

abbrev pub all_of : Reservations → List Ec2Instance
all_of [] = []
all_of (r ∷ rs) = r ++ all_of rs

running_of-runs :
    (is : List Ec2Instance) (rest : List Instance) (others : List Ec2Instance)
    → rest ≡ map as_instance (filter_if runs others)
    → running_of is ++ rest ≡ map as_instance (filter_if runs (is ++ others))
unfolding running_of is_running instance_of
running_of-runs [] rest others h = h
running_of-runs (i ∷ is) rest others h = elim (Bool-cases (runs i)) [
  | inl e ↦ rw (e, filter_if) (ap (λ l. as_instance i ∷ l) (running_of-runs is rest others h))
  | inr e ↦ rw (e, filter_if) (running_of-runs is rest others h)
]

running_in-runs : (rs : Reservations) → running_in rs ≡ map as_instance (filter_if runs (all_of rs))
unfolding running_in
running_in-runs [] = refl
running_in-runs (r ∷ rs) = running_of-runs r (running_in rs) (all_of rs) (running_in-runs rs)

-- An answer without an error has the instances of the group that was found whose state is "running", and
-- the desired capacity of the group as its size; itself is nil where none of them has the id of this
-- instance, and is one that does otherwise.
pub aws_status-Found :
    (env : AwsEnv) (a b : Aws) (answer : Answer)
    → status env a ≡ (ok answer, b)
    → (capacity : ℤ) × (more : List ℤ) × (reservations : Reservations) × (env.on_groups b.asg_name
        ≡ some (capacity ∷ more))
      × (env.on_instances b.asg_name ≡ some reservations)
      × (answer.instances ≡ map as_instance (filter_if runs (all_of reservations)))
      × (answer.size ≡ capacity)
      × Found (λ (i : Instance). text_eq i.name b.instance_id) answer.instances answer.self
unfolding status
aws_status-Found env a b answer h =
    let is_self : Aws → Instance → Bool = λ c i. text_eq i.name c.instance_id in
    let self : Aws → Reservations → Option Instance =
      λ c rs. last_where (is_self c) none (running_in rs) in
    let answered : ℤ × Reservations → State Answer =
      λ r c. (ok (record { instances = running_in r.1; self = self c r.1; size = r.0 }), c) in
    let (x, c, e, k) = then_do-ok (describe_asg env a) answered answer b h in
    let same = ap (λ r. r.1) k in
    let made = ok-injective {E = Text} (ap (λ r. r.0) k) in
    let (more, g, rs) = describe_asg-ok env a c x e in
    (
      x.0,
      more,
      x.1,
      ap (λ (z : Aws). env.on_groups z.asg_name) (sym same) ∙ g,
      ap (λ (z : Aws). env.on_instances z.asg_name) (sym same) ∙ rs,
      ap (λ y. y.instances) (sym made) ∙ running_in-runs x.1,
      ap (λ y. y.size) (sym made),
      subst (λ (z : Aws). Found (is_self z) answer.instances answer.self) same
          (subst (λ (y : Answer). Found (is_self c) y.instances y.self) made
            (last_where-Found (is_self c) (running_in x.1))),
    )
