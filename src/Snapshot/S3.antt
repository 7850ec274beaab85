-- ===== src/Snapshot/S3.antt =====
-- pkg/providers/snapshot/s3: snapshots as the objects of a bucket. What AWS answers is a parameter; a
-- listing is the answer of one request, which the code makes once.
pub mod Info
pub mod Laws
mod Tests
use etcd_cloud_operator.Prelude.{
  Text, codes, ℕ, ℤ, negsuc, ltb, ◌+◌, Outcome, ok, err, panic, Option, none, some, List, [], ◌∷◌,
  Bool, true, false, not, ◌&&◌, Map, insert, remove, text_eq, if◌then◌else◌,
}
use etcd_cloud_operator.Snapshot.{Metadata, s3, new_metadata, filename}
use etcd_cloud_operator.Snapshot.Latest.{
  SnapshotError, no_snapshot, failed, MetadataSort, latest, keep,
}

pub record Object : Type 0 where
  pub size : ℤ
  pub last_modified : ℕ

abbrev pub Bucket : Type 0
Bucket = Map Object

abbrev pub Objects : Type 0
Objects = List (Text × Object)

-- What AWS, and the file system, answer during one call of the provider.
pub record S3Env : Type 0 where
  -- Whether a session can be made.
  pub session : Bool
  -- The objects that ListObjects returns for the bucket, or none where it fails.
  pub on_list : Bucket → Option Objects
  -- The object that the upload makes, or none where it fails.
  pub uploaded : Option Object
  -- The length that HeadObject tells.
  pub content_length : Option ℤ
  pub on_delete : Text → Bool
  -- The name of the temporary file, and whether the download into it succeeds.
  pub temp_file : Option Text
  pub downloaded : Bool

-- The loop of `Info` over the objects.
unfoldable pub collect : Objects → Outcome SnapshotError (List Metadata)
unfolding keep
collect [] = ok []
collect ((key, obj) ∷ objects) =
    let rest = collect objects in keep (new_metadata key (negsuc 0) obj.size s3) rest

select : MetadataSort → Outcome SnapshotError (List Metadata) → Outcome SnapshotError Metadata
select sorter (ok metadatas) = latest sorter metadatas
select sorter (err e) = err e
select sorter panic = panic

info_of : MetadataSort → Option Objects → Outcome SnapshotError Metadata
unfolding select
info_of sorter none = err (failed (codes "failed to list aws s3 objects"))
info_of sorter (some objects) = select sorter (collect objects)

no_session : SnapshotError
no_session = failed (codes "failed to create aws session")

-- `Info`.
unfoldable pub info : MetadataSort → S3Env → Bucket → Outcome SnapshotError Metadata
unfolding info_of no_session
info sorter env bucket = if env.session then info_of sorter (env.on_list bucket) else err no_session

unfoldable pub sized : Metadata → Option ℤ → Metadata
sized m none = m
sized m (some length) = record m { size = length }

-- The deletion after a failed upload names no bucket and no key: it deletes nothing.
upload : S3Env → Metadata → Option Object → Bucket → Outcome SnapshotError Metadata × Bucket
unfolding sized
upload env m none bucket = (err (failed (codes "failed to upload aws s3 object")), bucket)
upload env m (some object) bucket =
    (ok (sized m env.content_length), insert (filename m) object bucket)

-- `Save`: the size is set if the stored object tells it.
unfoldable pub save : S3Env → Metadata → Bucket → Outcome SnapshotError Metadata × Bucket
unfolding upload no_session
save env m bucket =
    if env.session then upload env m env.uploaded bucket else (err no_session, bucket)

download : S3Env → Option Text → Outcome SnapshotError Text
download env none = err (failed (codes "tempfile"))
download env (some path) =
    if env.downloaded then ok path else err (failed (codes "failed to get aws s3 object"))

-- `Get`: the path of a temporary file, which the caller is to delete, as it is told on every path.
unfoldable pub get : S3Env → Metadata → Outcome SnapshotError Text × Bool
unfolding download no_session
get env m = (if env.session then download env env.temp_file else err no_session, true)

-- The loop of `Purge`: an object that cannot be deleted is left, with a warning.
unfoldable pub purge_objects : S3Env → ℕ → ℕ → Objects → Bucket → Bucket
purge_objects env now ttl [] bucket = bucket
purge_objects env now ttl ((key, obj) ∷ objects) bucket =
    let later = purge_objects env now ttl objects in
    if ltb (obj.last_modified + ttl) now && env.on_delete key
    then later (remove key bucket)
    else later bucket

purge_of : S3Env → ℕ → ℕ → Option Objects → Bucket → Outcome SnapshotError (Unit {0}) × Bucket
unfolding purge_objects
purge_of env now ttl none bucket = (err (failed (codes "failed to list aws s3 objects")), bucket)
purge_of env now ttl (some objects) bucket = (ok tt, purge_objects env now ttl objects bucket)

-- `Purge`.
unfoldable pub purge : S3Env → ℕ → ℕ → Bucket → Outcome SnapshotError (Unit {0}) × Bucket
unfolding purge_of no_session
purge env now ttl bucket =
    if env.session
    then purge_of env now ttl (env.on_list bucket) bucket
    else (err no_session, bucket)

-- What the session and the instance metadata answer to `Configure`.
pub record Machine : Type 0 where
  pub session : Bool
  pub on_ec2 : Bool
  pub region : Option Text

tolerated : Outcome SnapshotError Metadata → Outcome Text (Unit {0})
tolerated (ok m) = ok tt
tolerated (err no_snapshot) = ok tt
tolerated (err (failed text)) = err (codes "failed to validate aws s3 configuration")
tolerated panic = panic

in_region : Outcome SnapshotError Metadata → Option Text → Outcome Text (Unit {0})
unfolding tolerated
in_region found none = err (codes "failed to retrieve aws ec2 region")
in_region found (some region) = tolerated found

-- `Configure`, on the name of the bucket, which is none where the parameters do not parse, and on what
-- `Info` answers once the region is set.
unfoldable pub configure :
    Machine → Outcome SnapshotError Metadata → Option Text → Outcome Text (Unit {0})
unfolding in_region
configure machine found none = err (codes "invalid configuration")
configure machine found (some bucket) =
    if text_eq bucket []
    then err (codes "invalid configuration: bucket name is missing")
    else if not machine.session
    then err (codes "failed to create aws session")
    else if not machine.on_ec2
    then err (codes "application is not running on aws ec2")
    else in_region found machine.region
