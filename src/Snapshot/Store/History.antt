-- ===== src/Snapshot/Store/History.antt =====
-- What a store still answers after saves and purges, for every implementation of the contract.
use etcd_cloud_operator.Prelude.{ℕ, ℤ, ◌+◌, ◌≤◌, lt_int, false, ok, inl, inr, ◌≡◌, arith}
use etcd_cloud_operator.Snapshot.{Metadata}
use etcd_cloud_operator.Snapshot.Store.{Store}

module _ (S : Store) where
  -- Saves and purges one after the other, none of them before the time, and no purge later than its time to
  -- live allows.
  pub data Backups (since : ℕ) : S.State → S.State → Type 0 where
    over : (s : S.State) → Backups since s s
    saves :
        (t : ℕ) (m : Metadata) (s after : S.State)
        → since ≤ t
        → S.CanSave t m s
        → Backups since (S.save t m s).1 after
        → Backups since s after
    purges :
        (now ttl : ℕ) (s after : S.State)
        → now ≤ since + ttl
        → Backups since (S.purge now ttl s) after
        → Backups since s after

  -- Each revision is held, perhaps anew.
  kept_on :
      (since : ℕ) (s after : S.State) (r : ℤ) (t : ℕ)
      → since ≤ t
      → S.Holds s r t
      → Backups since s after
      → (held : ℕ) × (since ≤ held) × S.Holds after r held
  kept_on since _ _ r t le h (over s) = (t, le, h)
  kept_on since _ _ r t le h (saves u m s after lu can bs) = elim (S.save_keeps u m s r t can h) [
    | inl old ↦ kept_on since (S.save u m s).1 after r t le old bs
    | inr new ↦ kept_on since (S.save u m s).1 after r u lu new bs
  ]
  kept_on since _ _ r t le h (purges now ttl s after ln bs) =
      let young : now ≤ t + ttl = omega arith in
      kept_on since (S.purge now ttl s) after r t le (S.purge_keeps now ttl s r t h young) bs

  -- After a save that succeeded, however many saves and purges follow within the time to live, `Info`
  -- answers a snapshot, of a revision that is not below the one saved.
  pub backup_kept :
      (t : ℕ) (m saved : Metadata) (s stored after : S.State)
      → S.CanSave t m s
      → S.save t m s ≡ (ok saved, stored)
      → Backups t stored after
      → S.CanRead after
      → (latest : Metadata) × (S.info after ≡ ok latest)
        × (lt_int latest.revision m.revision ≡ false)
  backup_kept t m saved s stored after can done bs reads =
      let (held, _, h) =
        kept_on t stored after m.revision t (omega arith) (S.save_holds t m saved s stored can done)
          bs in
      elim (S.info_answers after reads) [
        | inl (latest, e) ↦ (latest, e, S.info_greatest after latest m.revision held reads e h)
        | inr e ↦ absurd (S.info_empty after m.revision held reads e h)
      ]
