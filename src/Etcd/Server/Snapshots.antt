-- ===== src/Etcd/Server/Snapshots.antt =====
-- pkg/etcd/server.go: Snapshot, the private snapshot, Stop, runErrorWatcher, and one round
-- of runSnapshotter.
pub mod Laws
use etcd_cloud_operator.Prelude.{
  Text, codes, ℕ, ℤ, pos, negsuc, lt_int, Bool, true, false, not, ◌||◌, Option, none, some, List,
  [], ◌∷◌, ◌++◌, Outcome, ok, err, panic, ◌⊎◌, inl, inr, if◌then◌else◌, ◌==◌,
}
use etcd_cloud_operator.Snapshot.{Metadata, Source, ParseError, new_metadata}
use etcd_cloud_operator.Snapshot.Latest.{SnapshotError}
use etcd_cloud_operator.Etcd.Effects.{
  purge, save, hard_stop, close, ServerError, failed, Env, World, M, and_then, ◌>>=◌, ◌>>◌, pure,
  throw, crash, call, ask, set_running, running, attempt,
}
use etcd_cloud_operator.Etcd.Server.{ServerConfig, survives}

-- The revision of the latest stored snapshot, or 0 when it is not known.
abbrev pub min_revision : Outcome SnapshotError Metadata → ℤ
min_revision (ok m) = m.revision
min_revision (err e) = pos 0
min_revision panic = pos 0

stored : Option ℤ → M (Unit {0})
stored none = throw (failed (codes "failed to save snapshot"))
stored (some size) = pure tt

-- What Snapshot saves: `NewMetadata` with a size that is not known yet. Its error is ignored, and Save then
-- dereferences nil.
unfoldable pub snapshot_of : ServerConfig → ℤ → Outcome ParseError Metadata
snapshot_of cfg revision = new_metadata cfg.name revision (negsuc 0) cfg.snapshot_provider

-- What runErrorWatcher waits for.
pub data Notice : Type 0 where
  stop_notify server_error : Notice

module _ (env : Env) (cfg : ServerConfig) where
  -- `Snapshot`: nothing is saved unless the revision is above that of the latest snapshot. The purge
  -- runs beside the rest; it is recorded where it is started.
  unfoldable pub snapshot : M (Unit {0})
  unfolding stored snapshot_of
  snapshot = do
    call (purge cfg.snapshot_ttl)
    info ← ask env.on_provider_info
    survives info
    revision ← ask env.on_revision
    if not (lt_int (min_revision info) revision) then pure tt else take (snapshot_of cfg revision)
    where
      take : Outcome ParseError Metadata → M (Unit {0})
      take (ok metadata) = do call (save metadata); size ← ask env.on_save; stored size
      take (err e) = crash
      take panic = crash

  closing : Bool → M (Unit {0})
  closing graceful = do if graceful then pure tt else call hard_stop; call close; set_running false

  first_snapshot : Bool → M (ServerError ⊎ Unit {0})
  unfolding snapshot attempt
  first_snapshot with_snapshot = if with_snapshot then attempt snapshot else pure (inr tt)

  stop_if : Bool → Bool → Bool → M (Unit {0})
  unfolding closing first_snapshot
  stop_if graceful with_snapshot false = pure tt
  stop_if graceful with_snapshot true = first_snapshot with_snapshot >>= λ _. closing graceful

  -- `Stop`. The error of the snapshot is logged.
  unfoldable pub stop : Bool → Bool → M (Unit {0})
  unfolding stop_if
  stop graceful with_snapshot = running >>= stop_if graceful with_snapshot

  -- One tick of runSnapshotter while the server runs; false ends the loop.
  unfoldable pub snapshotter_tick : M Bool
  unfolding snapshot attempt
  snapshotter_tick = do
    is_running ← running
    if not is_running then pure false else (do ignored ← attempt snapshot; pure true)

  -- `runErrorWatcher`.
  unfoldable pub watch_error : Notice → M (Unit {0})
  unfolding stop
  watch_error stop_notify = set_running false
  watch_error server_error = stop false false
