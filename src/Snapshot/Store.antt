-- ===== src/Snapshot/Store.antt =====
-- pkg/providers/snapshot/snapshot.go: the interface Provider, as the contract that the server relies on.
pub mod History
pub mod Files
pub mod Buckets
pub mod Objects
mod Tests
use etcd_cloud_operator.Prelude.{ℕ, ℤ, ◌+◌, ◌≤◌, lt_int, false, Outcome, ok, err, ◌⊎◌, ◌≡◌}
use etcd_cloud_operator.Snapshot.{Metadata}
use etcd_cloud_operator.Snapshot.Latest.{SnapshotError, no_snapshot}

-- `Provider`, with the state that it works on. `save` is told the time, and `purge` the time and the
-- time to live; what else they meet is up to the implementation.
pub record Store : Type 1 where
  pub State : Type 0
  pub info : State → Outcome SnapshotError Metadata
  pub save : ℕ → Metadata → State → Outcome SnapshotError Metadata × State
  pub purge : ℕ → ℕ → State → State
  -- The state has a snapshot of the revision that was stored at the time.
  pub Holds : State → ℤ → ℕ → Type 0
  -- `info` sees all that the state holds, and the metadata names a snapshot that can be read back.
  pub CanRead : State → Type 0
  pub CanSave : ℕ → Metadata → State → Type 0
  pub info_answers :
      (s : State) → CanRead s → ((m : Metadata) × (info s ≡ ok m)) ⊎ (info s ≡ err no_snapshot)
  pub info_empty :
      (s : State) (r : ℤ) (t : ℕ) → CanRead s → info s ≡ err no_snapshot → ¬ Holds s r t
  pub info_held :
      (s : State) (m : Metadata) → CanRead s → info s ≡ ok m → ∥ ((t : ℕ) × Holds s m.revision t) ∥₁
  pub info_greatest :
      (s : State) (m : Metadata) (r : ℤ) (t : ℕ)
      → CanRead s
      → info s ≡ ok m
      → Holds s r t
      → lt_int m.revision r ≡ false
  pub save_holds :
      (t : ℕ) (m saved : Metadata) (s after : State)
      → CanSave t m s
      → save t m s ≡ (ok saved, after)
      → Holds after m.revision t
  -- A save, even one that fails, loses no revision.
  pub save_keeps :
      (t : ℕ) (m : Metadata) (s : State) (r : ℤ) (held : ℕ)
      → CanSave t m s
      → Holds s r held
      → Holds (save t m s).1 r held ⊎ Holds (save t m s).1 r t
  pub purge_keeps :
      (now ttl : ℕ) (s : State) (r : ℤ) (held : ℕ)
      → Holds s r held
      → now ≤ held + ttl
      → Holds (purge now ttl s) r held
  pub purge_adds_none :
      (now ttl : ℕ) (s : State) (r : ℤ) (held : ℕ) → Holds (purge now ttl s) r held → Holds s r held
