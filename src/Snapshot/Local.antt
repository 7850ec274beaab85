-- ===== src/Snapshot/Local.antt =====
-- pkg/providers/snapshot/etcd: the data of the local etcd server as a snapshot. What the file system and
-- the status of the database answer is a parameter.
pub mod Laws
mod Tests
use etcd_cloud_operator.Prelude.{
  Text, codes, ℤ, Outcome, ok, err, panic, Option, none, some, Bool, true, false, ◌++◌,
  if◌then◌else◌,
}
use etcd_cloud_operator.Snapshot.{Metadata, ParseError, etcd, new_metadata}
use etcd_cloud_operator.Snapshot.Latest.{SnapshotError, no_snapshot, failed}

-- The revision and the total size that the database tells.
pub record Status : Type 0 where
  pub revision : ℤ
  pub total_size : ℤ

pub record LocalEnv : Type 0 where
  pub exists : Text → Bool
  pub on_status : Text → Option Status
  pub opens : Text → Bool
  -- The name of the temporary file, and whether the copy into it succeeds.
  pub temp_file : Option Text
  pub copied : Bool

-- `Configure`, on the parameters: none where they do not parse, and otherwise the data directory that they
-- give, if any.
unfoldable pub configure : Option (Option Text) → Outcome Text Text
configure none = err (codes "invalid configuration")
configure (some none) = ok (codes "/var/lib/etcd")
configure (some (some data_dir)) = ok data_dir

-- `Save` and `Purge`.
unfoldable pub save : Metadata → Outcome SnapshotError Metadata
save m = panic

unfoldable pub purge : Outcome SnapshotError (Unit {0})
purge = panic

-- On a directory whose path is clean, since `filepath.Join` cleans it.
unfoldable pub db_path : Text → Text
db_path data_dir = data_dir ++ codes "/member/snap/db"

parse_failed : Outcome ParseError Metadata → Outcome SnapshotError Metadata
parse_failed (ok m) = ok m
parse_failed (err e) = err (failed (codes "failed to parse revision"))
parse_failed panic = panic

with_status : Text → Option Status → Outcome SnapshotError Metadata
unfolding parse_failed
with_status path none = err (failed (codes "status"))
with_status path (some status) =
    parse_failed (new_metadata path status.revision status.total_size etcd)

-- `Info`.
unfoldable pub info : LocalEnv → Text → Outcome SnapshotError Metadata
unfolding with_status db_path
info env data_dir =
    let path = db_path data_dir in
    if env.exists path then with_status path (env.on_status path) else err no_snapshot

copy_to : Bool → Option Text → Outcome SnapshotError Text
copy_to copied none = err (failed (codes "tempfile"))
copy_to copied (some path) = if copied then ok path else err (failed (codes "copy"))

-- `Get`: the path of a temporary copy, which the caller is to delete, as it is told on every path.
unfoldable pub get : LocalEnv → Metadata → Outcome SnapshotError Text × Bool
unfolding copy_to
get env m = (
  if env.opens m.name then copy_to env.copied env.temp_file else err (failed (codes "open")),
  true,
)
