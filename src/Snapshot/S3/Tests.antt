-- ===== src/Snapshot/S3/Tests.antt =====
-- A bucket of two snapshots, one of which is old.
use etcd_cloud_operator.Prelude.{
  codes, ℕ, pos, true, false, ok, some, none, [], ◌∷◌, lookup, ◌≡◌, refl, text_eq,
}
use etcd_cloud_operator.Snapshot.S3.{Object, Bucket, S3Env, purge}
use etcd_cloud_operator.Snapshot.S3.Laws.{lookup-purge}

abbrev object : ℕ → Object
object time = record { size = pos 3; last_modified = time }

abbrev two_objects : Bucket
two_objects = (codes "a_1", object 10) ∷ (codes "a_2", object 95) ∷ []

abbrev aws : S3Env
aws = record {
  session = true;
  on_list = λ bucket. some bucket;
  uploaded = none;
  content_length = none;
  on_delete = λ key. true;
  temp_file = none;
  downloaded = false;
}

-- At 100, the object of 10 is older than 20.
lookup-purge_example :
    ((purge aws 100 20 two_objects).0 ≡ ok tt)
    × (lookup (codes "a_1") (purge aws 100 20 two_objects).1 ≡ none)
unfolding text_eq
lookup-purge_example = lookup-purge aws 100 20 two_objects two_objects (codes "a_1") refl refl
