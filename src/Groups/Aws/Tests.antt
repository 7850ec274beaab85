-- ===== src/Groups/Aws/Tests.antt =====
-- An auto-scaling group of two instances, one of which runs.
use etcd_cloud_operator.Prelude.{
  map, filter_if, codes, ℤ, pos, true, some, List, [], ◌∷◌, Found, last_where, text_eq, to_lower,
  ◌≡◌, refl,
}
use etcd_cloud_operator.Operator.Status.{Instance}
use etcd_cloud_operator.Groups.{Answer}
use etcd_cloud_operator.Groups.Aws.{
  Aws, AwsEnv, Ec2Instance, Reservations, describe_asg, is_running, running_of, running_in,
  instance_of, status,
}
use etcd_cloud_operator.Groups.Aws.Laws.{runs, as_instance, all_of, aws_status-Found}

abbrev running_one : Ec2Instance
running_one = record { id = codes "i-1"; address = codes "10.0.0.1"; state = codes "Running" }

abbrev stopped_one : Ec2Instance
stopped_one = record { id = codes "i-2"; address = codes "10.0.0.2"; state = codes "stopped" }

abbrev on_ec2 : AwsEnv
on_ec2 = record {
  session = true;
  on_ec2 = true;
  identity = some (codes "i-1");
  ec2_region = some (codes "r");
  on_asg_instances = λ id. some (codes "eco" ∷ []);
  on_groups = λ name. some (pos 3 ∷ []);
  on_instances = λ name. some ((running_one ∷ stopped_one ∷ []) ∷ []);
}

abbrev unknown : Aws
unknown = record { asg_name = []; instance_id = []; region = [] }

abbrev known : Aws
known = record { asg_name = codes "eco"; instance_id = codes "i-1"; region = codes "r" }

abbrev myself : Instance
myself = record { name = codes "i-1"; address = codes "10.0.0.1"; bind_address = codes "10.0.0.1" }

abbrev answer : Answer
answer = record { instances = myself ∷ []; self = some myself; size = pos 3 }

aws_status-Found_example :
    (capacity : ℤ) × (more : List ℤ) × (reservations : Reservations) × (on_ec2.on_groups
        known.asg_name
      ≡ some (capacity ∷ more))
    × (on_ec2.on_instances known.asg_name ≡ some reservations)
    × (answer.instances ≡ map as_instance (filter_if runs (all_of reservations)))
    × (answer.size ≡ capacity)
    × Found (λ (i : Instance). text_eq i.name known.instance_id) answer.instances answer.self
unfolding status describe_asg running_in running_of is_running instance_of text_eq to_lower
    last_where
aws_status-Found_example = aws_status-Found on_ec2 unknown known answer refl
