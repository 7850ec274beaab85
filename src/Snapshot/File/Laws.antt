-- ===== src/Snapshot/File/Laws.antt =====
-- What `Save` and `Purge` of the file provider leave in the directory.
use mathlib.Core.List.{Memᴰ}
use etcd_cloud_operator.Prelude.{
  Text, ℕ, ◌+◌, ◌≤◌, ◌<◌, pos, lt_int, ok, none, some, [], ◌∷◌, ◌++◌, false, ◌≡◌, ◌≢◌, refl, ap,
  inl, inr, subst, Bool-cases, Option-cases, ◌&&◌, ltb, le→ltb-false, lookup, insert,
  remove-insert_new, mem-insert, mem_cases, Lacks, int64_bound,
}
use etcd_cloud_operator.Snapshot.{Metadata, filename, file}
use etcd_cloud_operator.Snapshot.Filename.{new_metadata-filename}
use etcd_cloud_operator.Snapshot.Latest.{MetadataSort}
use etcd_cloud_operator.Snapshot.File.{
  FileInfo, Directory, SaveEnv, PurgeEnv, save, sweep, purge, info,
}
use etcd_cloud_operator.Snapshot.File.Info.{Stores, info-greatest}

-- `TempFile` opens a name that is not in use.
abbrev pub FreshTemp : SaveEnv → Metadata → Directory → Type 0
FreshTemp env m dir =
    (suffix : Text) → env.temp_suffix ≡ some suffix → lookup (filename m ++ suffix) dir ≡ none

-- What a `Save` that succeeded wrote.
abbrev pub written : SaveEnv → ℕ → FileInfo
written env n = record { is_dir = false; size = n; mod_time = env.now }

pub data Saved (env : SaveEnv) (m : Metadata) (dir : Directory) : Type 0 where
  unchanged :
      (save env m dir).1 ≡ dir → ((m' : Metadata) → (save env m dir).0 ≢ ok m') → Saved env m dir
  stored :
      (n : ℕ)
      → env.copied ≡ some n
      → (save env m dir).1 ≡ insert (filename m) (written env n) dir
      → (save env m dir).0 ≡ ok (record m { size = pos n })
      → Saved env m dir

-- A `Save` is atomic: it fails and leaves the directory as it was, temporary file included, or it
-- succeeds and the one change is the file named by `Filename`, complete: its size, and the size that
-- the metadata gets, is the number of bytes copied. The name of the temporary file is not in use before.
pub save-Saved :
    (env : SaveEnv) (m : Metadata) (dir : Directory) → FreshTemp env m dir → Saved env m dir
unfolding save
save-Saved env m dir fresh = elim (Option-cases env.temp_suffix) [
  | inl e ↦ unchanged (rw e) (rw e (λ m' h. cc))
  | inr (suffix, e) ↦ elim (Option-cases env.copied) [
    | inl f ↦
        unchanged (rw (e, f) (remove-insert_new _ _ dir (fresh suffix e))) (rw (e, f) (λ m' h. cc))
    | inr (n, f) ↦ elim (Bool-cases env.renamed) [
      | inl g ↦
          stored n f
            (rw (e, f, g) (ap (insert (filename m) _) (remove-insert_new _ _ dir (fresh suffix e))))
            (rw (e, f, g))
      | inr g ↦
          unchanged (rw (e, f, g) (remove-insert_new _ _ dir (fresh suffix e)))
            (rw (e, f, g) (λ m' h. cc))
    ]
  ]
]

saved-Stores :
    (env : SaveEnv) (m : Metadata) (dir : Directory) (k n : ℕ)
    → m.revision ≡ pos k
    → k < int64_bound
    → Lacks b'_' m.name
    → Stores
        (insert (filename m) (written env n) dir)
        (record { name = filename m; revision = pos k; size = pos n; source = file })
saved-Stores env m dir k n r h plain = record {
  name = filename m;
  found = written env n;
  listed = mem-insert (filename m) (written env n) dir;
  plain_file = refl;
  parses = new_metadata-filename m k 0 (pos n) file r h plain;
}

-- After a `Save` that succeeded, `Info` answers no revision below the one saved, for an instance
-- name without an underscore and a revision of an int64 that is not negative.
pub info-save :
    (sorter : MetadataSort) (env : SaveEnv) (m saved latest : Metadata) (dir : Directory) (k : ℕ)
    → FreshTemp env m dir
    → m.revision ≡ pos k
    → k < int64_bound
    → Lacks b'_' m.name
    → (save env m dir).0 ≡ ok saved
    → info sorter (some (save env m dir).1) ≡ ok latest
    → lt_int latest.revision (pos k) ≡ false
info-save sorter env m saved latest dir k fresh r h plain done i =
    elim (save-Saved env m dir fresh) [
      | unchanged _ not_saved ↦ absurd (not_saved saved done)
      | stored n _ e _ ↦
          (info-greatest sorter _ latest (subst (λ d. info sorter (some d) ≡ ok latest) e i)).1 _
            (saved-Stores env m dir k n r h plain)
    ]

abbrev pub IsYoung : ℕ → ℕ → Text × FileInfo → Type 0
IsYoung now ttl x = now ≤ x.1.mod_time + ttl

swept :
    (env : PurgeEnv) (now ttl : ℕ) (files : Directory) (x : Text × FileInfo)
    → Memᴰ x (sweep env now ttl files)
    → Memᴰ x files
unfolding sweep
swept env now ttl [] x i = elim i [ ]
swept env now ttl (y ∷ files) x i =
    elim (Bool-cases (ltb (y.1.mod_time + ttl) now && env.removes y.0)) [
      | inl e ↦ Memᴰ.tail (swept env now ttl files x (rw e at i))
      | inr e ↦ elim (mem_cases x y (sweep env now ttl files) (rw e at i)) [
        | inl same ↦ Memᴰ.head same
        | inr later ↦ Memᴰ.tail (swept env now ttl files x later)
      ]
    ]

unswept :
    (env : PurgeEnv) (now ttl : ℕ) (files : Directory) (x : Text × FileInfo)
    → Memᴰ x files
    → IsYoung now ttl x
    → Memᴰ x (sweep env now ttl files)
unfolding sweep
unswept env now ttl [] x i h = elim i [ ]
unswept env now ttl (y ∷ files) x i h = elim (mem_cases x y files i) [
  | inl same ↦ rw (le→ltb-false _ now (rw same at h)) (Memᴰ.head same)
  | inr later ↦ elim (Bool-cases (ltb (y.1.mod_time + ttl) now && env.removes y.0)) [
    | inl e ↦ rw e (unswept env now ttl files x later h)
    | inr e ↦ rw e (Memᴰ.tail (unswept env now ttl files x later h))
  ]
]

-- `Purge` keeps every file that is no older than the time to live.
pub purge-IsYoung :
    (env : PurgeEnv) (now ttl : ℕ) (files : Directory) (x : Text × FileInfo)
    → Memᴰ x files
    → IsYoung now ttl x
    → Memᴰ x (purge env now ttl files).1
unfolding purge
purge-IsYoung env now ttl files x i h = elim (Bool-cases env.lists) [
  | inl e ↦ rw e (unswept env now ttl files x i h)
  | inr e ↦ rw e i
]

-- Every file that is there after `Purge` was there before.
pub purge_adds_no_file :
    (env : PurgeEnv) (now ttl : ℕ) (files : Directory) (x : Text × FileInfo)
    → Memᴰ x (purge env now ttl files).1
    → Memᴰ x files
unfolding purge
purge_adds_no_file env now ttl files x i = elim (Bool-cases env.lists) [
  | inl e ↦ swept env now ttl files x (rw e at i)
  | inr e ↦ rw e at i
]
