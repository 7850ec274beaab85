-- ===== src/Snapshot.antt =====
-- pkg/providers/snapshot: the metadata of a snapshot, and the names under which snapshots are stored. The
-- child File has the file provider.
pub mod Filename
pub mod Latest
pub mod File
pub mod S3
pub mod Local
pub mod Store
mod Tests
use etcd_cloud_operator.Prelude.{
  Text, codes, ℤ, pos, lt_int, Option, none, some, Outcome, ok, err, panic, List, ◌∷◌, ◌++◌, Bool,
  get_elem?, split_n, parse_int, hex16, has_suffix, if◌then◌else◌,
}

-- The registered implementations of `Provider`; a `Source` of a metadata is one of them.
pub data Source : Type 0 where
  file s3 etcd : Source

pub record Metadata : Type 0 where
  pub name : Text
  pub revision : ℤ
  pub size : ℤ
  pub source : Source

abbrev pub snapshot_filename_suffix : Text
snapshot_filename_suffix = codes "etcd.backup"

pub data ParseError : Type 0 where
  bad_revision : ParseError

-- `name` split at its first two underscores; the second piece is what holds the revision.
abbrev pub revision_piece : Text → Option Text
revision_piece name = get_elem? (split_n b'_' 3 name) 1

parsed_revision : Option Text → Outcome ParseError ℤ
parsed_revision none = panic
parsed_revision (some piece) = elim (parse_int piece) [
  | none ↦ err bad_revision
  | some revision ↦ ok revision
]

with_revision : Text → ℤ → Source → Outcome ParseError ℤ → Outcome ParseError Metadata
with_revision name size source (ok revision) =
    ok (record { name = name; revision = revision; size = size; source = source })
with_revision name size source (err e) = err e
with_revision name size source panic = panic

-- `NewMetadata`: a negative revision is read from the name; a name without an underscore panics.
unfoldable pub new_metadata : Text → ℤ → ℤ → Source → Outcome ParseError Metadata
unfolding parsed_revision with_revision
new_metadata name revision size source =
    with_revision name size source
      (if lt_int revision (pos 0) then parsed_revision (revision_piece name) else ok revision)

unfoldable pub filename : Metadata → Text
filename m = m.name ++ b'_' ∷ (hex16 m.revision ++ b'_' ∷ snapshot_filename_suffix)

unfoldable pub is_valid : Metadata → Bool
is_valid m = has_suffix m.name snapshot_filename_suffix

-- `MetadataSorter.Less`.
unfoldable pub less : Metadata → Metadata → Bool
less a b = lt_int a.revision b.revision
