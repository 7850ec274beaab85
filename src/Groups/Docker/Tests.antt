-- ===== src/Groups/Docker/Tests.antt =====
-- Two containers, the second of which is the host.
use etcd_cloud_operator.Prelude.{
  Text, map, codes, pos, true, Option, some, List, [], ◌∷◌, Found, last_where, contains, has_prefix,
  split, trim_last, trim_first, text_eq, ◌≡◌, refl, if◌then◌else◌,
}
use etcd_cloud_operator.Operator.Status.{Instance}
use etcd_cloud_operator.Groups.{Answer}
use etcd_cloud_operator.Groups.Docker.{
  DockerConfig, Container, DockerEnv, container_list, container_inspect, inspect_all, instance_of,
  instances_of, nilable, trimmed, status,
}
use etcd_cloud_operator.Groups.Docker.Laws.{
  AreListed, AllInspected, as_instance, as_self, docker_status-Found,
}

abbrev docker : DockerEnv
docker = record {
  on_ps = λ name_pattern. record { out = codes "eco-1\neco-2\n"; succeeded = true };
  on_inspect = λ name. record {
    out =
        if text_eq name (codes "eco-1")
        then codes "ab1,/eco-1,10.0.0.1\n"
        else codes "cd2,/eco-2,10.0.0.2\n";
    succeeded = true;
  };
  hostname = codes "cd2";
}

abbrev config : DockerConfig
config = record { size = pos 3; name_filter = codes "eco-" }

abbrev first_instance : Instance
first_instance = record {
  name = codes "eco-1";
  address = codes "10.0.0.1";
  bind_address = codes "10.0.0.1";
}

abbrev second_instance : Instance
second_instance = record {
  name = codes "eco-2";
  address = codes "10.0.0.2";
  bind_address = codes "10.0.0.2";
}

abbrev answer : Answer
answer = record {
  instances = first_instance ∷ second_instance ∷ [];
  self = some second_instance;
  size = pos 3;
}

docker_status-Found_example :
    (names : List Text) × (cs : List Container) × (found : Option Container) × AreListed docker
      config.name_filter names
    × AllInspected docker names cs
    × Found (λ (c : Container). contains c.id docker.hostname) cs found
    × (answer ≡ record { instances = map as_instance cs; self = as_self found; size = config.size })
unfolding status container_list container_inspect inspect_all instance_of instances_of nilable
    trimmed contains has_prefix split trim_last trim_first text_eq last_where
docker_status-Found_example = docker_status-Found docker config answer refl
