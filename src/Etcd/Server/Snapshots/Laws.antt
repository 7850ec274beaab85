-- ===== src/Etcd/Server/Snapshots/Laws.antt =====
-- When Snapshot saves, and what Stop leaves.
use etcd_cloud_operator.Prelude.{
  arith, codes, ℕ, ℤ, pos, negsuc, lt_int, Bool, true, false, Option, none, some, ◌∷◌, Outcome, ok,
  err, panic, ◌≡◌, ◌≢◌, ◌⊎◌, inl, inr, refl, ◌∙◌, ap, if◌then◌else◌,
}
use etcd_cloud_operator.Snapshot.{Metadata, new_metadata}
use etcd_cloud_operator.Snapshot.Latest.{SnapshotError}
use etcd_cloud_operator.Etcd.Effects.{
  purge, save, hard_stop, close, failed, Env, World, ServerError, attempt, caught, and_then,
}
use etcd_cloud_operator.Etcd.Server.{ServerConfig}
use etcd_cloud_operator.Etcd.Server.Snapshots.{
  snapshot, snapshot_of, stop, stop_if, Notice, stop_notify, server_error, watch_error, closing,
  first_snapshot, min_revision,
}

-- The revision of the snapshot that Info found, and 0 where it failed, if only for want of one.
abbrev pub IsLatest : Outcome SnapshotError Metadata → ℤ → Type 0
IsLatest info lowest =
    ((m : Metadata) × (info ≡ ok m) × (lowest ≡ m.revision))
    ⊎ ((e : SnapshotError) × (info ≡ err e) × (lowest ≡ pos 0))

module _ (env : Env) (cfg : ServerConfig) where
  abbrev pub purging : World → World
  purging w = record w { trace = purge cfg.snapshot_ttl ∷ w.trace }

  -- The snapshot of a revision, under the name of the instance.
  abbrev pub taken : ℕ → Metadata
  taken revision = record {
    name = cfg.name;
    revision = pos revision;
    size = negsuc 0;
    source = cfg.snapshot_provider;
  }

  abbrev pub saving : World → ℕ → World
  saving w revision = record w { trace = save (taken revision) ∷ purge cfg.snapshot_ttl ∷ w.trace }

  -- The ways of `Snapshot`, from what `Info` says of the latest stored snapshot and the revision that etcd is
  -- at.
  pub data Taken (w : World) (revision : ℕ) : Outcome ServerError (Unit {0}) × World → Type 0 where
    crashed : env.on_provider_info (purging w).trace ≡ panic → Taken w revision (panic, purging w)
    skipped :
        (lowest : ℤ)
        → IsLatest (env.on_provider_info (purging w).trace) lowest
        → lt_int lowest (pos revision) ≡ false
        → Taken w revision (ok tt, purging w)
    saved :
        (lowest size : ℤ)
        → IsLatest (env.on_provider_info (purging w).trace) lowest
        → lt_int lowest (pos revision) ≡ true
        → env.on_save (saving w revision).trace ≡ some size
        → Taken w revision (ok tt, saving w revision)
    lost :
        (lowest : ℤ)
        → IsLatest (env.on_provider_info (purging w).trace) lowest
        → lt_int lowest (pos revision) ≡ true
        → env.on_save (saving w revision).trace ≡ none
        → Taken w revision (err (failed (codes "failed to save snapshot")), saving w revision)

  named : (revision : ℕ) → snapshot_of cfg (pos revision) ≡ ok (taken revision)
  unfolding snapshot_of new_metadata
  named revision =
      let e : lt_int (pos revision) (pos 0) ≡ false = unfold lt_int in ground arith in rw e refl

  snapshot_as :
      (w : World) (i : Outcome SnapshotError Metadata) (r : ℕ) (s : Option ℤ) (above : Bool)
      → env.on_provider_info (purging w).trace ≡ i
      → env.on_revision (purging w).trace ≡ pos r
      → env.on_save (saving w r).trace ≡ s
      → lt_int (min_revision i) (pos r) ≡ above
      → Taken w r (snapshot env cfg w)
  unfolding snapshot
  snapshot_as w panic r s above p q t a = rw p (crashed p)
  snapshot_as w (ok m) r s false p q t a = rw (p, q, a) (skipped m.revision (inl (m, p, refl)) a)
  snapshot_as w (ok m) r (some size) true p q t a =
      rw (p, q, a, named r, t) (saved m.revision size (inl (m, p, refl)) a t)
  snapshot_as w (ok m) r none true p q t a =
      rw (p, q, a, named r, t) (lost m.revision (inl (m, p, refl)) a t)
  snapshot_as w (err e) r s false p q t a = rw (p, q, a) (skipped (pos 0) (inr (e, p, refl)) a)
  snapshot_as w (err e) r (some size) true p q t a =
      rw (p, q, a, named r, t) (saved (pos 0) size (inr (e, p, refl)) a t)
  snapshot_as w (err e) r none true p q t a =
      rw (p, q, a, named r, t) (lost (pos 0) (inr (e, p, refl)) a t)

  -- While etcd is at a revision that is not negative, `Snapshot` starts a purge. It then saves just when the
  -- revision is above that of the latest stored snapshot, or above 0 where that is not known, and fails just
  -- when the save does; otherwise it returns nil, or panics if the provider's Info does.
  pub snapshot-Taken :
      (w : World) (revision : ℕ)
      → env.on_revision (purging w).trace ≡ pos revision
      → Taken w revision (snapshot env cfg w)
  snapshot-Taken w revision q = snapshot_as w _ revision _ _ refl q refl refl

  -- The state once etcd is closed, after a hard stop unless the stop is graceful.
  abbrev pub closed : Bool → World → World
  closed graceful w = record w {
    is_running = false;
    trace = close ∷ (if graceful then w.trace else hard_stop ∷ w.trace);
  }

  caught-ne-panic :
      (r : Outcome ServerError (Unit {0}) × World)
      → r.0 ≢ panic
      → (o : ServerError ⊎ Unit {0}) × (caught r ≡ (ok o, r.1))
  unfolding caught
  caught-ne-panic (ok a, w) h = (inr a, refl)
  caught-ne-panic (err e, w) h = (inl e, refl)
  caught-ne-panic (panic, w) h = absurd (h refl)

  closing_lem :
      (graceful : Bool) (w : World) → closing env cfg graceful w ≡ (ok tt, closed graceful w)
  unfolding closing
  closing_lem true w = refl
  closing_lem false w = refl

  first_snapshot_lem :
      (b : Bool) (w : World)
      → (snapshot env cfg w).0 ≢ panic
      → (o : ServerError ⊎ Unit {0}) × (first_snapshot env cfg b w
          ≡ (ok o, if b then (snapshot env cfg w).1 else w))
  unfolding first_snapshot attempt
  first_snapshot_lem true w h = caught-ne-panic (snapshot env cfg w) h
  first_snapshot_lem false w h = (inr tt, refl)

  stop_if_lem :
      (graceful with_snapshot b : Bool) (w : World)
      → (snapshot env cfg w).0 ≢ panic
      → stop_if env cfg graceful with_snapshot b w ≡ (
        ok tt,
        if b then closed graceful (if with_snapshot then (snapshot env cfg w).1 else w) else w,
      )
  unfolding stop_if
  stop_if_lem graceful with_snapshot false w h = refl
  stop_if_lem graceful with_snapshot true w h =
      let (o, f) = first_snapshot_lem with_snapshot w h in
      ap (λ r. and_then r (λ _. closing env cfg graceful)) f ∙ closing_lem graceful _

  -- `Stop` of a server that runs closes etcd and marks it stopped, whether or not the snapshot that it
  -- takes first succeeds; of one that does not run it does nothing.
  pub stop_lem :
      (graceful with_snapshot : Bool) (w : World)
      → (snapshot env cfg w).0 ≢ panic
      → stop env cfg graceful with_snapshot w ≡ (
        ok tt,
        if w.is_running
            then closed graceful (if with_snapshot then (snapshot env cfg w).1 else w)
            else w,
      )
  unfolding stop
  stop_lem graceful with_snapshot w h = stop_if_lem graceful with_snapshot w.is_running w h

  stop_if-false :
      (graceful b : Bool) (w : World)
      → w.is_running ≡ b
      → (stop_if env cfg graceful false b w).1.is_running ≡ false
  unfolding stop_if first_snapshot closing
  stop_if-false graceful false w e = e
  stop_if-false true true w e = refl
  stop_if-false false true w e = refl

  -- Whichever notice ends the error watcher, the server is marked stopped.
  pub watch_error-stopped :
      (n : Notice) (w : World) → (watch_error env cfg n w).1.is_running ≡ false
  unfolding watch_error stop
  watch_error-stopped stop_notify w = refl
  watch_error-stopped server_error w = stop_if-false false w.is_running w refl
