-- ===== src/Etcd/Server.antt =====
-- pkg/etcd/server.go: the configuration of the server, and SnapshotInfo. The children Start,
-- Membership, Snapshots and Cleaner have the other methods.
pub mod Info
pub mod Start
pub mod Membership
pub mod Snapshots
pub mod Fixtures
pub mod Cleaner
mod Tests
use etcd_cloud_operator.Prelude.{
  Text, codes, ℕ, zero, suc, ℤ, pos, negsuc, lt_int, eq_int, Bool, true, false, not, ◌&&◌, ◌||◌,
  Option, none, some, List, [], ◌∷◌, ◌++◌, Map, insert, Outcome, ok, err, panic, ◌⊎◌, inl, inr,
  text_eq, if◌then◌else◌, ◌==◌,
}
use etcd_cloud_operator.Snapshot.{Metadata, Source, new_metadata}
use etcd_cloud_operator.Snapshot.Latest.{
  SnapshotError, no_snapshot as no_stored_snapshot, failed as listing_failed,
}
use etcd_cloud_operator.Etcd.Config.{
  SecurityConfig, JwtAuthTokenConfig, TlsInfo, tls_enabled, peer_url, client_url, initial_cluster,
}
use etcd_cloud_operator.Etcd.Effects.{
  ServerError, no_snapshot, failed, Env, M, ◌>>=◌, ◌>>◌, pure, crash, ask, running,
}

pub record ServerConfig : Type 0 where
  pub name : Text
  pub data_dir : Text
  pub data_quota : ℤ
  pub bind_address : Text
  pub public_address : Text
  pub private_address : Text
  pub client_sc : SecurityConfig
  pub peer_sc : SecurityConfig
  pub unhealthy_member_ttl : ℕ
  pub auto_compaction_mode : Text
  pub auto_compaction_retention : Text
  pub max_request_bytes : ℕ
  pub snapshot_provider : Source
  pub snapshot_interval : ℕ
  pub snapshot_ttl : ℕ
  pub jwt_auth_token_config : Option JwtAuthTokenConfig

abbrev pub join_lock : Text → Text
join_lock name = codes "/eco/" ++ (name ++ codes "/join")

-- The metadata of `Info`, or nil, and its error, or nil.
abbrev pub value_of : Outcome SnapshotError Metadata → Option Metadata
value_of (ok m) = some m
value_of (err e) = none
value_of panic = none

abbrev pub error_of : Outcome SnapshotError Metadata → Option SnapshotError
error_of (ok m) = none
error_of (err e) = some e
error_of panic = none

abbrev is_no_snapshot : Option SnapshotError → Bool
is_no_snapshot (some no_stored_snapshot) = true
is_no_snapshot (some (listing_failed e)) = false
is_no_snapshot none = false

abbrev pub is_some {ℓ} : {A : Type ℓ} → Option A → Bool
is_some (some a) = true
is_some none = false

-- `localSnap.Revision >= cfgSnap.Revision`, which dereferences both.
at_least : Option Metadata → Option Metadata → Outcome ServerError Bool
at_least (some a) (some b) = ok (not (lt_int a.revision b.revision))
at_least (some a) none = panic
at_least none b = panic

pick :
    Outcome ServerError Bool
    → Option Metadata
    → Option Metadata
    → Outcome ServerError (Option Metadata)
pick (ok b) local_snap cfg_snap = ok (if b then local_snap else cfg_snap)
pick (err e) local_snap cfg_snap = err e
pick panic local_snap cfg_snap = panic

-- The end of `SnapshotInfo`, on what the two calls of `Info` returned.
unfoldable pub choose_snapshot :
    Option Metadata
    → Option SnapshotError
    → Option Metadata
    → Option SnapshotError
    → Outcome ServerError (Option Metadata)
unfolding at_least pick
choose_snapshot local_snap local_err cfg_snap cfg_err =
    if is_no_snapshot local_err && is_no_snapshot cfg_err
    then err no_snapshot
    else if is_some local_err && is_some cfg_err
    then err (failed (codes "failed to retrieve snapshot info"))
    else if is_some cfg_err
    then ok local_snap
    else if is_some local_err
    then ok cfg_snap
    else pick (at_least local_snap cfg_snap) local_snap cfg_snap

-- A panic of a provider's `Info` is one of the caller.
abbrev pub survives : Outcome SnapshotError Metadata → M (Unit {0})
survives (ok m) = pure tt
survives (err e) = pure tt
survives panic = crash

abbrev choose_from :
    Option (Outcome SnapshotError Metadata)
    → Outcome SnapshotError Metadata
    → Outcome ServerError (Option Metadata)
choose_from none stored = choose_snapshot none none (value_of stored) (error_of stored)
choose_from (some local) stored =
    choose_snapshot (value_of local) (error_of local) (value_of stored) (error_of stored)

-- `SnapshotInfo`: the local data are read only while etcd is not running.
unfoldable pub snapshot_info : Env → ServerConfig → M (Option Metadata)
snapshot_info env cfg = do
  is_running ← running
  local ← ask (λ t. env.on_local_info t cfg.data_dir)
  if is_running then pure tt else survives local
  stored ← ask env.on_provider_info
  survives stored
  λ w. (choose_from (if is_running then none else some local) stored, w)

-- The peer URL under which the server runs.
abbrev pub own_peer_url : (TlsInfo → Bool) → ServerConfig → Text
own_peer_url tls_empty cfg = peer_url cfg.private_address (tls_enabled tls_empty cfg.peer_sc)
