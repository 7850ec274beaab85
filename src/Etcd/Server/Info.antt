-- ===== src/Etcd/Server/Info.antt =====
-- What `SnapshotInfo` answers, while etcd is stopped and while it runs.
use etcd_cloud_operator.Prelude.{
  Text, lt_int, lt_int_asym, lt_int_irrefl, true, false, Option, some, Outcome, ok, err, panic, ◌≡◌,
  ◌⊎◌, inl, inr, refl, Bool-cases,
}
use etcd_cloud_operator.Snapshot.{Metadata}
use etcd_cloud_operator.Snapshot.Latest.{
  SnapshotError, no_snapshot as no_stored_snapshot, failed as listing_failed,
}
use etcd_cloud_operator.Etcd.Effects.{ServerError, no_snapshot, failed, Env, World}
use etcd_cloud_operator.Etcd.Server.{ServerConfig, snapshot_info, choose_from, choose_snapshot}

-- The snapshot of the higher revision, or the one there is; `ErrNoSnapshot` only if both said so.
pub data Best
    : Outcome SnapshotError Metadata
      → Outcome SnapshotError Metadata
      → Outcome ServerError (Option Metadata)
      → Type 0 where
  higher :
      {l c : Metadata} (m : Metadata)
      → (m ≡ l) ⊎ (m ≡ c)
      → lt_int m.revision l.revision ≡ false
      → lt_int m.revision c.revision ≡ false
      → Best (ok l) (ok c) (ok (some m))
  local_only : {l : Metadata} {e : SnapshotError} → Best (ok l) (err e) (ok (some l))
  stored_only : {c : Metadata} {e : SnapshotError} → Best (err e) (ok c) (ok (some c))
  nothing : Best (err no_stored_snapshot) (err no_stored_snapshot) (err no_snapshot)
  both_failed :
      {d e : SnapshotError} {text : Text}
      → ((reason : Text) × (d ≡ listing_failed reason))
        ⊎ ((reason : Text) × (e ≡ listing_failed reason))
      → Best (err d) (err e) (err (failed text))
  crashed_local : {r : Outcome SnapshotError Metadata} → Best panic r panic
  crashed_stored : {r : Outcome SnapshotError Metadata} → Best r panic panic

choose_higher : (l c : Metadata) → Best (ok l) (ok c) (choose_from (some (ok l)) (ok c))
unfolding choose_snapshot
choose_higher l c = elim (Bool-cases (lt_int l.revision c.revision)) [
  | inl e ↦ rw e (higher c (inr refl) (lt_int_asym _ _ e) (lt_int_irrefl c.revision))
  | inr e ↦ rw e (higher l (inl refl) (lt_int_irrefl l.revision) e)
]

info_stopped :
    (env : Env) (cfg : ServerConfig) (w : World) (local stored : Outcome SnapshotError Metadata)
    → w.is_running ≡ false
    → env.on_local_info w.trace cfg.data_dir ≡ local
    → env.on_provider_info w.trace ≡ stored
    → Best local stored (snapshot_info env cfg w).0
unfolding snapshot_info choose_snapshot
info_stopped env cfg w panic stored s p q = rw (s, p) crashed_local
info_stopped env cfg w (ok l) panic s p q = rw (s, p, q) crashed_stored
info_stopped env cfg w (err d) panic s p q = rw (s, p, q) crashed_stored
info_stopped env cfg w (ok l) (ok c) s p q = rw (s, p, q) (choose_higher l c)
info_stopped env cfg w (ok l) (err no_stored_snapshot) s p q = rw (s, p, q) local_only
info_stopped env cfg w (ok l) (err (listing_failed e)) s p q = rw (s, p, q) local_only
info_stopped env cfg w (err no_stored_snapshot) (ok c) s p q = rw (s, p, q) stored_only
info_stopped env cfg w (err (listing_failed e)) (ok c) s p q = rw (s, p, q) stored_only
info_stopped env cfg w (err no_stored_snapshot) (err no_stored_snapshot) s p q =
    rw (s, p, q) nothing
info_stopped env cfg w (err no_stored_snapshot) (err (listing_failed e)) s p q =
    rw (s, p, q) (both_failed (inr (e, refl)))
info_stopped env cfg w (err (listing_failed d)) (err no_stored_snapshot) s p q =
    rw (s, p, q) (both_failed (inl (d, refl)))
info_stopped env cfg w (err (listing_failed d)) (err (listing_failed e)) s p q =
    rw (s, p, q) (both_failed (inl (d, refl)))

-- While etcd is stopped `SnapshotInfo` answers the snapshot of the higher revision among the local
-- data and the provider's, or the one there is; `ErrNoSnapshot` if neither has one; and another
-- error if both failed and one of them otherwise than for want of a snapshot.
pub snapshot_info-Best :
    (env : Env) (cfg : ServerConfig) (w : World)
    → w.is_running ≡ false
    → Best
        (env.on_local_info w.trace cfg.data_dir)
        (env.on_provider_info w.trace)
        (snapshot_info env cfg w).0
snapshot_info-Best env cfg w s = info_stopped env cfg w _ _ s refl refl

-- While etcd runs the local data are not read, and the comparison of the two revisions dereferences
-- nil whenever the provider has a snapshot.
pub snapshot_info_panics :
    (env : Env) (cfg : ServerConfig) (w : World) (m : Metadata)
    → w.is_running ≡ true
    → env.on_provider_info w.trace ≡ ok m
    → (snapshot_info env cfg w).0 ≡ panic
unfolding snapshot_info choose_snapshot
snapshot_info_panics env cfg w m s q = rw (s, q)
