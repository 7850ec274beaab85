-- ===== src/Operator/Execute/State.antt =====
-- pkg/operator/operator.go: the state of an instance, New, and what an evaluation sees; serverConfig of
-- pkg/operator/misc.go.
use etcd_cloud_operator.Prelude.{Text, codes, ℕ, Bool, false, Option, none, List, [], Map, Outcome}
use etcd_cloud_operator.Snapshot.{Metadata, Source}
use etcd_cloud_operator.Etcd.Config.{EtcdConfiguration}
use etcd_cloud_operator.Etcd.Effects.{ServerError, World}
use etcd_cloud_operator.Etcd.Server.{ServerConfig}
use etcd_cloud_operator.Operator.Acl.Effects.{AclError}
use etcd_cloud_operator.Operator.Status.{Instance, Reply, string_override}

-- The fields of `Config` that the operator reads, those of `snapshot.Config` among them.
pub record Config : Type 0 where
  pub unhealthy_member_ttl : ℕ
  pub etcd : EtcdConfiguration
  pub snapshot_interval : ℕ
  pub snapshot_ttl : ℕ

-- `serverConfig`.
unfoldable pub server_config : Config → Instance → Source → ServerConfig
unfolding string_override
server_config cfg self provider = record {
  name = self.name;
  data_dir = cfg.etcd.data_dir;
  data_quota = cfg.etcd.backend_quota;
  bind_address = self.bind_address;
  public_address = string_override self.address cfg.etcd.advertise_address;
  private_address = self.address;
  client_sc = cfg.etcd.client_transport_security;
  peer_sc = cfg.etcd.peer_transport_security;
  unhealthy_member_ttl = cfg.unhealthy_member_ttl;
  auto_compaction_mode = cfg.etcd.auto_compaction_mode;
  auto_compaction_retention = cfg.etcd.auto_compaction_retention;
  max_request_bytes = cfg.etcd.max_request_bytes;
  snapshot_provider = provider;
  snapshot_interval = cfg.snapshot_interval;
  snapshot_ttl = cfg.snapshot_ttl;
  jwt_auth_token_config = cfg.etcd.jwt_auth_token_config;
}

-- The struct `Operator`. `server` is the configuration of the server once there is one, `world` its
-- state and the calls made; `exited` is set once the process ended.
pub record Operator : Type 0 where
  pub cfg : Config
  pub provider : Source
  pub server : Option ServerConfig
  pub world : World
  pub shutdown : Bool
  pub etcd_healthy : Bool
  pub etcd_running : Bool
  pub etcd_snapshot : Option Metadata
  pub state : Text
  pub states : Map ℕ
  pub is_seeder : Bool
  pub cluster_size : ℕ
  pub exited : Bool

-- The operator that `New` makes once `start_up` of Operator/Providers has gone through; what that ends in
-- otherwise, the panic of the ticker included, is said there.
unfoldable pub new_operator : Config → Source → World → Operator
new_operator cfg provider world = record {
  cfg = cfg;
  provider = provider;
  server = none;
  world = world;
  shutdown = false;
  etcd_healthy = false;
  etcd_running = false;
  etcd_snapshot = none;
  state = codes "UNKNOWN";
  states = [];
  is_seeder = false;
  cluster_size = 0;
  exited = false;
}

-- What an evaluation sees: the auto-scaling group, if its provider answers, whether the etcd client
-- that was created finds etcd healthy, and what the instances answer.
pub record Group : Type 0 where
  pub instances : List Instance
  pub self : Instance
  pub size : ℕ

pub record Sight : Type 0 where
  pub group : Option Group
  -- The provider answers nil for this instance, in place of the one in the group: calling its name panics.
  pub nameless : Bool
  pub client_healthy : Option Bool
  pub answers : Instance → Reply

pub data OperatorError : Type 0 where
  group_failed no_adequate_action : OperatorError
  acl_failed : AclError → OperatorError
  server_failed : ServerError → OperatorError

abbrev pub Result : Type 0
Result = Outcome OperatorError (Unit {0}) × Operator
