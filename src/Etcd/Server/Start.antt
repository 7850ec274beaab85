-- ===== src/Etcd/Server/Start.antt =====
-- pkg/etcd/server.go: startServer, Restore and Seed.
pub mod Laws
pub mod Restored
use etcd_cloud_operator.Prelude.{
  Text, codes, ℕ, ℤ, Bool, true, false, Option, none, some, List, [], ◌∷◌, ◌++◌, Map, Outcome, ok,
  err, panic, ◌⊎◌, inl, inr, if◌then◌else◌, ◌==◌,
}
use etcd_cloud_operator.Snapshot.{Metadata}
use etcd_cloud_operator.Snapshot.Latest.{
  SnapshotError, no_snapshot as no_stored_snapshot, failed as listing_failed,
}
use etcd_cloud_operator.Etcd.Config.{
  JwtAuthTokenConfig, TlsInfo, tls_info, tls_enabled, peer_url, client_url, metrics_url,
  initial_cluster,
}
use etcd_cloud_operator.Etcd.Effects.{
  EtcdConfig, RestoreConfig, remove_all, get_snapshot, remove_file, restore_snapshot, start_etcd,
  Start, refused, not_ready, ready, failed, Fetched, Env, World, Trace, M, and_then, ◌>>=◌, ◌>>◌,
  pure, throw, crash, call, ask, set_running, attempt, deferring,
}
use etcd_cloud_operator.Etcd.Server.{ServerConfig, own_peer_url}

-- The value of the "--auth-token" flag.
auth_token : JwtAuthTokenConfig → Text
auth_token jwt =
    codes "jwt,priv-key="
    ++ (jwt.private_key_file
        ++ (codes ",pub-key="
            ++ (jwt.public_key_file
                ++ (codes ",sign-method=" ++ (jwt.sign_method ++ (codes ",ttl=" ++ jwt.ttl))))))

-- The configuration of etcd that startServer computes.
unfoldable pub etcd_config : (TlsInfo → Bool) → ServerConfig → World → EtcdConfig
unfolding auth_token tls_info metrics_url
etcd_config tls_empty cfg w = record {
  cluster_state = w.cluster_state;
  name = cfg.name;
  dir = cfg.data_dir;
  peer_auto_tls = cfg.peer_sc.auto_tls;
  peer_tls_info = tls_info cfg.peer_sc;
  client_auto_tls = cfg.client_sc.auto_tls;
  client_tls_info = tls_info cfg.client_sc;
  self_signed_cert_validity = 5;
  initial_cluster = initial_cluster w.initial_purls;
  listen_peer_url = peer_url cfg.bind_address (tls_enabled tls_empty cfg.peer_sc);
  advertise_peer_url = peer_url cfg.private_address (tls_enabled tls_empty cfg.peer_sc);
  listen_client_url = client_url cfg.bind_address (tls_enabled tls_empty cfg.client_sc);
  advertise_client_url = client_url cfg.public_address (tls_enabled tls_empty cfg.client_sc);
  listen_metrics_urls = metrics_url cfg.bind_address ∷ metrics_url (codes "127.0.0.1") ∷ [];
  quota = cfg.data_quota;
  auto_compaction_mode = cfg.auto_compaction_mode;
  auto_compaction_retention = cfg.auto_compaction_retention;
  auth_token = elim cfg.jwt_auth_token_config [ none ↦ none | some jwt ↦ some (auth_token jwt) ];
  max_request_bytes = if cfg.max_request_bytes == 0 then none else some cfg.max_request_bytes;
}

-- A server that does not become ready in time panics, with etcd running.
abbrev started : Start → M (Unit {0})
started refused = throw (failed (codes "failed to start etcd"))
started not_ready = do set_running true; crash
started ready = set_running true

-- `startServer`.
unfoldable pub start_server : Env → (TlsInfo → Bool) → ServerConfig → M (Unit {0})
unfolding etcd_config
start_server env tls_empty cfg w = and_then (answered w) started
  where
    answered : M Start
    answered = do call (start_etcd (etcd_config tls_empty cfg w)); ask env.on_start

-- Whether `Get` failed otherwise than for want of a snapshot.
abbrev fetch_failed : Option SnapshotError → Bool
fetch_failed none = false
fetch_failed (some no_stored_snapshot) = false
fetch_failed (some (listing_failed e)) = true

pub restore_config : (TlsInfo → Bool) → ServerConfig → Text → RestoreConfig
restore_config tls_empty cfg path = record {
  snapshot_path = path;
  name = cfg.name;
  peer_url = own_peer_url tls_empty cfg;
  initial_cluster = cfg.name ++ b'=' ∷ own_peer_url tls_empty cfg;
  output_data_dir = cfg.data_dir;
}

replace_data : Env → (TlsInfo → Bool) → ServerConfig → Text → M (Unit {0})
unfolding restore_config
replace_data env tls_empty cfg path = do
  call (remove_all cfg.data_dir)
  call (restore_snapshot (restore_config tls_empty cfg path))
  restored ← ask env.on_restore
  if restored then pure tt else throw (failed (codes "etcdctl failed to restore"))

-- `Restore`. The data directory goes only once the snapshot is there.
unfoldable pub restore : Env → (TlsInfo → Bool) → ServerConfig → Metadata → M (Unit {0})
unfolding replace_data deferring
restore env tls_empty cfg m = do
  call (get_snapshot m)
  fetched ← ask (λ t. env.on_get_snapshot t m)
  if fetch_failed fetched.error
      then throw (failed (codes "failed to retrieve latest snapshot"))
      else with_snapshot fetched
  where
    with_snapshot : Fetched → M (Unit {0})
    with_snapshot fetched =
        if fetched.should_delete
        then deferring (replace_data env tls_empty cfg fetched.path)
            (◌∷◌ (remove_file fetched.path))
        else replace_data env tls_empty cfg fetched.path

unfoldable pub set_cluster : Text → Map Text → M (Unit {0})
set_cluster state purls w = (ok tt, record w { cluster_state = state; initial_purls = purls })

-- The data directory from the snapshot, or an empty one.
abbrev reset_data : Env → (TlsInfo → Bool) → ServerConfig → Option Metadata → M (Unit {0})
reset_data env tls_empty cfg (some m) = restore env tls_empty cfg m
reset_data env tls_empty cfg none = call (remove_all cfg.data_dir)

start_alone : Env → (TlsInfo → Bool) → ServerConfig → M (Unit {0})
start_alone env tls_empty cfg = do
  set_cluster (codes "new") ((cfg.name, own_peer_url tls_empty cfg) ∷ [])
  start_server env tls_empty cfg

-- `Seed`.
unfoldable pub seed : Env → (TlsInfo → Bool) → ServerConfig → Option Metadata → M (Unit {0})
unfolding restore set_cluster start_server start_alone
seed env tls_empty cfg snapshot =
    reset_data env tls_empty cfg snapshot >> start_alone env tls_empty cfg
