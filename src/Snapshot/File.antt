-- ===== src/Snapshot/File.antt =====
-- pkg/providers/snapshot/file: snapshots as the files of one directory. The directory is a map from
-- names to files, the clock is an argument, and what the file system answers is a parameter.
pub mod Info
pub mod Laws
use etcd_cloud_operator.Prelude.{
  Text, codes, ℕ, ℤ, pos, negsuc, ltb, ◌+◌, Outcome, ok, err, panic, Option, none, some, List, [],
  ◌∷◌, ◌++◌, Bool, ◌&&◌, true, false, Map, insert, remove, if◌then◌else◌,
}
use etcd_cloud_operator.Snapshot.{Metadata, file, new_metadata, filename}
use etcd_cloud_operator.Snapshot.Latest.{SnapshotError, failed, MetadataSort, latest, keep}

pub record FileInfo : Type 0 where
  pub is_dir : Bool
  pub size : ℕ
  pub mod_time : ℕ

abbrev pub Directory : Type 0
Directory = Map FileInfo

-- The loop of `Info` over the files of the directory.
unfoldable pub collect : Directory → Outcome SnapshotError (List Metadata)
unfolding keep
collect [] = ok []
collect ((name, info) ∷ files) =
    let rest = collect files in
    if info.is_dir then rest else keep (new_metadata name (negsuc 0) (pos info.size) file) rest

select : MetadataSort → Outcome SnapshotError (List Metadata) → Outcome SnapshotError Metadata
select sorter (ok metadatas) = latest sorter metadatas
select sorter (err e) = err e
select sorter panic = panic

-- `Info`; the listing is none when `ReadDir` fails.
unfoldable pub info : MetadataSort → Option Directory → Outcome SnapshotError Metadata
unfolding select
info sorter none = err (failed (codes "failed to list dir"))
info sorter (some files) = select sorter (collect files)

-- What the file system and the incoming stream answer during one `Save`.
pub record SaveEnv : Type 0 where
  -- What `TempFile` adds to the name, or none when it fails.
  pub temp_suffix : Option Text
  -- The bytes copied, or none when the copy fails.
  pub copied : Option ℕ
  pub renamed : Bool
  pub now : ℕ

-- The temporary file is removed from the directory on every path that fails; that this removal could fail,
-- which the code does not look at, is not modelled.
place : SaveEnv → Text → Metadata → ℕ → Directory → Outcome SnapshotError Metadata × Directory
place env temp m n dir =
    if env.renamed
    then (ok (record m { size = pos n }), insert (filename m) written (remove temp dir))
    else (err (failed (codes "rename")), remove temp dir)
  where
    written : FileInfo
    written = record { is_dir = false; size = n; mod_time = env.now }

copy_in :
    SaveEnv → Text → Metadata → Option ℕ → Directory → Outcome SnapshotError Metadata × Directory
unfolding place
copy_in env temp m none dir = (err (failed (codes "copy")), remove temp dir)
copy_in env temp m (some n) dir = place env temp m n dir

save_as : SaveEnv → Option Text → Metadata → Directory → Outcome SnapshotError Metadata × Directory
unfolding copy_in
save_as env none m dir = (err (failed (codes "tempfile")), dir)
save_as env (some suffix) m dir =
    let temp = filename m ++ suffix in
    copy_in env temp m env.copied
      (insert temp (record { is_dir = false; size = 0; mod_time = env.now }) dir)

-- `Save`: a temporary file of the directory takes the bytes, and is then renamed to `Filename`. The
-- metadata gets its size.
unfoldable pub save : SaveEnv → Metadata → Directory → Outcome SnapshotError Metadata × Directory
unfolding save_as
save env m dir = save_as env env.temp_suffix m dir

-- `Get`: the path of the stored file, which the caller must not delete.
unfoldable pub get : Text → Metadata → Text × Bool
get dir m = (dir ++ b'/' ∷ m.name, false)

-- What the file system answers during one `Purge`: whether the directory is listed, and which files can be
-- removed.
pub record PurgeEnv : Type 0 where
  pub lists : Bool
  pub removes : Text → Bool

-- The loop of `Purge`: where `time.Since(mod_time) > ttl` the file is removed, and goes if it can be.
unfoldable pub sweep : PurgeEnv → ℕ → ℕ → Directory → Directory
sweep env now ttl [] = []
sweep env now ttl ((name, info) ∷ files) =
    let rest = sweep env now ttl files in
    if ltb (info.mod_time + ttl) now && env.removes name then rest else (name, info) ∷ rest

-- `Purge`, with its error if there is one.
unfoldable pub purge : PurgeEnv → ℕ → ℕ → Directory → Option Text × Directory
unfolding sweep
purge env now ttl dir =
    if env.lists then (none, sweep env now ttl dir) else (some (codes "failed to list dir"), dir)

made : (Text → Bool) → Text → Outcome Text Text
made mkdir_all dir =
    if mkdir_all dir
    then ok dir
    else err (codes "invalid configuration: failed to create directory")

-- `Configure`, on the parameters, which are none where they do not parse, and otherwise the directory that
-- they give, if any; it is made if it can be.
unfoldable pub configure : (Text → Bool) → Option (Option Text) → Outcome Text Text
unfolding made
configure mkdir_all none = err (codes "invalid configuration")
configure mkdir_all (some none) = made mkdir_all (codes "/var/lib/snapshots")
configure mkdir_all (some (some dir)) = made mkdir_all dir
