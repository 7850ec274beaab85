-- ===== src/Etcd/Server/Fixtures.antt =====
-- A server and an outside world to run the methods of pkg/etcd/server.go on.
use etcd_cloud_operator.Prelude.{
  codes, ℕ, pos, Bool, true, false, Option, none, some, List, [], Outcome, err, if◌then◌else◌,
}
use etcd_cloud_operator.Snapshot.{Metadata, Source}
use etcd_cloud_operator.Snapshot.Latest.{SnapshotError, no_snapshot, failed}
use etcd_cloud_operator.Etcd.Config.{SecurityConfig, TlsInfo}
use etcd_cloud_operator.Etcd.Effects.{Member, Start, ready, removed, World, Env}
use etcd_cloud_operator.Etcd.Server.{ServerConfig}
use etcd_cloud_operator.Etcd.Server.Membership.Locks.{held}

abbrev pub plain_security : SecurityConfig
plain_security = record {
  cert_file = [];
  key_file = [];
  cert_auth = false;
  trusted_ca_file = [];
  auto_tls = false;
}

abbrev pub server_a : ServerConfig
server_a = record {
  name = codes "a";
  data_dir = codes "/d";
  data_quota = pos 8;
  bind_address = codes "1";
  public_address = codes "1";
  private_address = codes "1";
  client_sc = plain_security;
  peer_sc = plain_security;
  unhealthy_member_ttl = 30;
  auto_compaction_mode = [];
  auto_compaction_retention = [];
  max_request_bytes = 0;
  snapshot_provider = Source.file;
  snapshot_interval = 30;
  snapshot_ttl = 60;
  jwt_auth_token_config = none;
}

abbrev pub without_tls : TlsInfo → Bool
without_tls info = true

-- A world without snapshots, in which etcd is at revision 9 and every lock is exclusive.
abbrev pub world_with : Start → Option (List Member) → Outcome SnapshotError Metadata → Env
world_with start members local = record {
  on_get_snapshot = λ t m. record { path = codes "/s"; should_delete = true; error = none };
  on_restore = λ t. true;
  on_start = λ t. start;
  on_member_list = λ t. members;
  on_lock = λ t key. if held key t then false else true;
  on_member_add = λ t. some 5;
  on_member_remove = λ t. removed;
  on_local_info = λ t dir. local;
  on_provider_info = λ t. err no_snapshot;
  on_revision = λ t. pos 9;
  on_save = λ t. some (pos 100);
}

abbrev pub world : Bool → World
world is_running = record {
  is_running = is_running;
  cluster_state = [];
  initial_purls = [];
  trace = [];
}

abbrev pub snapshot_at : ℕ → Metadata
snapshot_at n = record { name = codes "a"; revision = pos n; size = pos 10; source = Source.file }

abbrev pub unavailable : Env
unavailable = record (world_with ready none (err no_snapshot)) {
  on_get_snapshot =
      λ t m. record { path = []; should_delete = false; error = some (failed (codes "x")) };
}
