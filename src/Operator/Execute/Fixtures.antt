-- ===== src/Operator/Execute/Fixtures.antt =====
-- Instances and operators for tests: a group of two instances that both are ready.
use etcd_cloud_operator.Prelude.{codes, pos, true, false, none, some, List, [], ◌∷◌}
use etcd_cloud_operator.Snapshot.{Source}
use etcd_cloud_operator.Etcd.Server.Fixtures.{plain_security, world}
use etcd_cloud_operator.Operator.Status.{Instance, Reply}
use etcd_cloud_operator.Operator.Status.Seeder.{by_insertion}
use etcd_cloud_operator.Operator.Execute.{Config, Operator, Group, Sight, new_operator, evaluate}

abbrev pub config : Config
config = record {
  unhealthy_member_ttl = 30;
  etcd = record {
    advertise_address = [];
    data_dir = codes "/d";
    client_transport_security = plain_security;
    peer_transport_security = plain_security;
    backend_quota = pos 8;
    auto_compaction_mode = [];
    auto_compaction_retention = [];
    init_acl = none;
    jwt_auth_token_config = none;
    max_request_bytes = 0;
  };
  snapshot_interval = 30;
  snapshot_ttl = 60;
}

abbrev pub instance_a : Instance
instance_a = record { name = codes "a"; address = codes "1"; bind_address = codes "1" }

abbrev pub instance_b : Instance
instance_b = record { name = codes "b"; address = codes "2"; bind_address = codes "2" }

abbrev pub all_ready : Instance → Reply
all_ready i = Reply.replied (some (codes "START")) (some (pos 7))

abbrev pub group : List Instance → Group
group instances = record { instances = instances; self = instance_b; size = 2 }

abbrev pub sight : List Instance → Sight
sight instances = record {
  group = some (group instances);
  nameless = false;
  client_healthy = some false;
  answers = all_ready;
}

abbrev pub first : Operator
first = new_operator config Source.file (world false)

abbrev pub ready_operator : List Instance → Operator
ready_operator instances = (evaluate by_insertion (sight instances) first).1

-- A group in which nobody reports the state OK, seen by an instance on which etcd runs.
abbrev pub running_operator : Operator
running_operator =
    (evaluate by_insertion (sight (instance_a ∷ instance_b ∷ []))
      (new_operator config Source.file (world true))).1

-- An instance that is ready while the other has not answered yet.
abbrev pub waiting : Operator
waiting = record (evaluate by_insertion (sight (instance_b ∷ [])) first).1 { state = codes "START" }
