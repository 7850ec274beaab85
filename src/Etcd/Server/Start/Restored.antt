-- ===== src/Etcd/Server/Start/Restored.antt =====
-- What Restore does with the data directory, on each of its branches.
use etcd_cloud_operator.Prelude.{
  Text, codes, Bool, true, false, Option, none, some, ◌∷◌, ◌++◌, Outcome, ok, err, ◌≡◌, ◌⊎◌, inl,
  inr, refl, sym, subst, ap, arith, Bool-cases, if◌then◌else◌,
}
use etcd_cloud_operator.Snapshot.{Metadata}
use etcd_cloud_operator.Snapshot.Latest.{
  SnapshotError, no_snapshot as no_stored_snapshot, failed as listing_failed,
}
use etcd_cloud_operator.Etcd.Config.{TlsInfo, peer_url, tls_enabled}
use etcd_cloud_operator.Etcd.Effects.{
  Call, remove_all, get_snapshot, remove_file, restore_snapshot, failed, Fetched, Env, World,
  ServerError, Trace,
}
use etcd_cloud_operator.Etcd.Server.{ServerConfig}
use etcd_cloud_operator.Etcd.Server.Start.{restore, restore_config, fetch_failed}

module _ (env : Env) (tls_empty : TlsInfo → Bool) (cfg : ServerConfig) where
  -- The snapshot at the path is restored into the data directory, for a cluster of this member alone,
  -- under its peer URL.
  abbrev pub restoring : Text → Call
  restoring path =
      let url = peer_url cfg.private_address (tls_enabled tls_empty cfg.peer_sc) in
      restore_snapshot (record {
        snapshot_path = path;
        name = cfg.name;
        peer_url = url;
        initial_cluster = cfg.name ++ b'=' ∷ url;
        output_data_dir = cfg.data_dir;
      })

  -- The calls up to the restoring, the newest first: the data directory is removed before it.
  abbrev pub replacing : World → Metadata → Text → Trace
  replacing w m path = restoring path ∷ remove_all cfg.data_dir ∷ get_snapshot m ∷ w.trace

  -- The temporary file goes last, if it is the caller's to delete.
  abbrev pub replaced : World → Metadata → Fetched → World
  replaced w m f = record w {
    trace =
        if f.should_delete then remove_file f.path ∷ replacing w m f.path else replacing w m f.path;
  }

  pub data Restores (w : World) (m : Metadata) (f : Fetched)
      : Outcome ServerError (Unit {0}) × World → Type 0 where
    not_fetched :
        (reason : Text)
        → f.error ≡ some (listing_failed reason)
        → Restores w m f (
          err (failed (codes "failed to retrieve latest snapshot")),
          record w { trace = get_snapshot m ∷ w.trace },
        )
    restored :
        (f.error ≡ none) ⊎ (f.error ≡ some no_stored_snapshot)
        → env.on_restore (replacing w m f.path) ≡ true
        → Restores w m f (ok tt, replaced w m f)
    not_restored :
        (f.error ≡ none) ⊎ (f.error ≡ some no_stored_snapshot)
        → env.on_restore (replacing w m f.path) ≡ false
        → Restores w m f (err (failed (codes "etcdctl failed to restore")), replaced w m f)

  restore_as :
      (w : World) (m : Metadata) (f : Fetched) (b : Bool)
      → env.on_get_snapshot (get_snapshot m ∷ w.trace) m ≡ f
      → fetch_failed f.error ≡ false
      → env.on_restore (replacing w m f.path) ≡ b
      → restore env tls_empty cfg m w
        ≡ ((if b then ok tt else err (failed (codes "etcdctl failed to restore"))), replaced w m f)
  unfolding restore restore_config
  restore_as w m f true g h r = elim (Bool-cases f.should_delete) [
    | inl d ↦ ground arith
    | inr d ↦ ground arith
  ]
  restore_as w m f false g h r = elim (Bool-cases f.should_delete) [
    | inl d ↦ ground arith
    | inr d ↦ ground arith
  ]

  replaced-Restores :
      (w : World) (m : Metadata) (f : Fetched) (b : Bool)
      → (f.error ≡ none) ⊎ (f.error ≡ some no_stored_snapshot)
      → env.on_restore (replacing w m f.path) ≡ b
      → Restores w m f
          ((if b then ok tt else err (failed (codes "etcdctl failed to restore"))), replaced w m f)
  replaced-Restores w m f true e r = restored e r
  replaced-Restores w m f false e r = not_restored e r

  restore_kept :
      (w : World) (m : Metadata) (f : Fetched)
      → env.on_get_snapshot (get_snapshot m ∷ w.trace) m ≡ f
      → fetch_failed f.error ≡ true
      → restore env tls_empty cfg m w ≡ (
        err (failed (codes "failed to retrieve latest snapshot")),
        record w { trace = get_snapshot m ∷ w.trace },
      )
  unfolding restore
  restore_kept w m f g h = rw (g, h) refl

  restore_by :
      (w : World) (m : Metadata) (f : Fetched) (e : Option SnapshotError)
      → env.on_get_snapshot (get_snapshot m ∷ w.trace) m ≡ f
      → f.error ≡ e
      → Restores w m f (restore env tls_empty cfg m w)
  restore_by w m f none g h =
      subst (Restores w m f) (sym (restore_as w m f _ g (ap fetch_failed h) refl))
        (replaced-Restores w m f _ (inl h) refl)
  restore_by w m f (some no_stored_snapshot) g h =
      subst (Restores w m f) (sym (restore_as w m f _ g (ap fetch_failed h) refl))
        (replaced-Restores w m f _ (inr h) refl)
  restore_by w m f (some (listing_failed reason)) g h =
      subst (Restores w m f) (sym (restore_kept w m f g (ap fetch_failed h))) (not_fetched reason h)

  -- Restore keeps the data directory and returns an error where the snapshot cannot be retrieved for another
  -- reason than that there is none. Otherwise it removes the directory, restores the snapshot into it, for
  -- a cluster of this member alone, and then removes a temporary file that is the caller's; it returns an
  -- error just when the restoring failed.
  pub restore_lem :
      (w : World) (m : Metadata)
      → Restores w m
          (env.on_get_snapshot (get_snapshot m ∷ w.trace) m)
          (restore env tls_empty cfg m w)
  restore_lem w m = restore_by w m _ _ refl refl
