-- ===== src/Groups.antt =====
-- pkg/providers/asg: what the providers of auto-scaling groups answer.
pub mod StatefulSet
pub mod Docker
pub mod Aws
use etcd_cloud_operator.Prelude.{ℤ, List, Option}
use etcd_cloud_operator.Operator.Status.{Instance}

-- What `AutoScalingGroupStatus` returns where it returns no error: `self` is none for nil.
pub record Answer : Type 0 where
  pub instances : List Instance
  pub self : Option Instance
  pub size : ℤ
