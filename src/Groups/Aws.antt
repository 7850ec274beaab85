-- ===== src/Groups/Aws.antt =====
-- pkg/providers/asg/aws: the running instances of the auto-scaling group that the program runs in. What AWS
-- answers is a parameter; a running instance has an address.
pub mod Laws
mod Tests
use etcd_cloud_operator.Prelude.{
  Text, codes, ℕ, ℤ, Bool, true, false, not, ◌||◌, Option, none, some, List, [], ◌∷◌, ◌++◌, Outcome,
  ok, err, panic, text_eq, to_lower, last_where, if◌then◌else◌,
}
use etcd_cloud_operator.Operator.Status.{Instance}
use etcd_cloud_operator.Groups.{Answer}

-- The struct `aws`: what is known already, which is empty otherwise.
pub record Aws : Type 0 where
  pub asg_name : Text
  pub instance_id : Text
  pub region : Text

pub record Ec2Instance : Type 0 where
  pub id : Text
  pub address : Text
  pub state : Text

abbrev pub Reservations : Type 0
Reservations = List (List Ec2Instance)

pub record AwsEnv : Type 0 where
  pub session : Bool
  pub on_ec2 : Bool
  -- The id of the instance, from its identity document, and its region.
  pub identity : Option Text
  pub ec2_region : Option Text
  -- The names of the auto-scaling groups of an instance, the desired capacities of the groups of a name,
  -- and the reservations of the instances that have the name of the group as a tag.
  pub on_asg_instances : Text → Option (List Text)
  pub on_groups : Text → Option (List ℤ)
  pub on_instances : Text → Option Reservations

abbrev pub State : Type 0 → Type 0
State A = Aws → Outcome Text A × Aws

then_do : {A B : Type 0} → Outcome Text A × Aws → (A → State B) → Outcome Text B × Aws
then_do (ok x, a) f = f x a
then_do (err e, a) f = (err e, a)
then_do (panic, a) f = (panic, a)

with_region : Option Text → State (Unit {0})
with_region none a = (err (codes "failed to retrieve aws ec2 region"), record a { region = [] })
with_region (some region) a = (ok tt, record a { region = region })

with_identity : AwsEnv → Option Text → State (Unit {0})
unfolding with_region
with_identity env none a = (err (codes "failed to retrieve aws ec2 instance identity"), a)
with_identity env (some id) a = with_region env.ec2_region (record a { instance_id = id })

identify : AwsEnv → State (Unit {0})
unfolding with_identity
identify env a =
    if not (text_eq a.region [] || text_eq a.instance_id [])
    then (ok tt, a)
    else if not env.session
    then (err (codes "failed to create aws session"), a)
    else if not env.on_ec2
    then (err (codes "application is not running on aws ec2"), a)
    else with_identity env env.identity a

group_named : Option (List Text) → State (Unit {0})
group_named none a = (err (codes "failed to retrieve aws auto-scaling group"), a)
group_named (some []) a =
    (err (codes "application is not running inside an aws ec2 auto-scaling group"), a)
group_named (some (name ∷ names)) a = (ok tt, record a { asg_name = name })

name_group : AwsEnv → State (Unit {0})
unfolding group_named
name_group env a =
    if not env.session
    then (err (codes "failed to create aws session"), a)
    else if text_eq a.asg_name []
    then group_named (env.on_asg_instances a.instance_id) a
    else (ok tt, a)

-- The first of the groups is taken without a test that there is one.
described : Option (List ℤ) → Option Reservations → State (ℤ × Reservations)
described none reservations a = (err (codes "failed to describe aws auto-scaling group"), a)
described (some groups) none a =
    (err (codes "failed to describe aws auto-scaling group's instances"), a)
described (some []) (some reservations) a = (panic, a)
described (some (capacity ∷ groups)) (some reservations) a = (ok (capacity, reservations), a)

-- `describeASG`.
unfoldable pub describe_asg : AwsEnv → State (ℤ × Reservations)
unfolding then_do identify name_group described
describe_asg env a = then_do (identify env a) λ _ b.
    then_do (name_group env b)
      λ _ c. described (env.on_groups c.asg_name) (env.on_instances c.asg_name) c

-- `Configure`.
unfoldable pub configure : AwsEnv → State (Unit {0})
unfolding describe_asg then_do
configure env a = then_do (describe_asg env a) λ r b. (ok tt, b)

unfoldable pub is_running : Ec2Instance → Bool
is_running i = text_eq (to_lower i.state) (codes "running")

unfoldable pub instance_of : Ec2Instance → Instance
instance_of i = record { name = i.id; address = i.address; bind_address = i.address }

unfoldable pub running_of : List Ec2Instance → List Instance
unfolding is_running instance_of
running_of [] = []
running_of (i ∷ is) = if is_running i then instance_of i ∷ running_of is else running_of is

unfoldable pub running_in : Reservations → List Instance
unfolding running_of
running_in [] = []
running_in (r ∷ rs) = running_of r ++ running_in rs

-- `AutoScalingGroupStatus`: itself is the last running instance of its id.
unfoldable pub status : AwsEnv → State Answer
unfolding describe_asg then_do running_in
status env a = then_do (describe_asg env a) λ r b. (
  ok (record {
    instances = running_in r.1;
    self = last_where (λ (i : Instance). text_eq i.name b.instance_id) none (running_in r.1);
    size = r.0;
  }),
  b,
)
