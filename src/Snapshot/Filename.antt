-- ===== src/Snapshot/Filename.antt =====
-- What a provider reads back from the names that `Filename` writes.
use etcd_cloud_operator.Prelude.{
  ℕ, ◌<◌, Text, ℤ, pos, negsuc, lt_int, Option, none, some, ok, err, panic, List, ◌∷◌, ◌++◌, ◌≡◌,
  ◌≢◌, arith, refl, arith, get_elem?, Lacks, parse_int, hex16, int64_bound, parse_int-hex16,
  hex16-Lacks, cut-lacking, split_n-cut, split_n-none, ap, ◌∙◌,
}
use mathlib.Core.List.{append_assoc}
use etcd_cloud_operator.Snapshot.{
  Metadata, Source, bad_revision, new_metadata, filename, revision_piece, snapshot_filename_suffix,
}

revision_piece-cut :
    (name piece rest : Text)
    → Lacks b'_' name
    → Lacks b'_' piece
    → revision_piece (name ++ b'_' ∷ (piece ++ b'_' ∷ rest)) ≡ some piece
revision_piece-cut name piece rest h k =
    ap (λ (l : List Text). get_elem? l 1)
      (split_n-cut b'_' 1 _ name _ (cut-lacking b'_' name (piece ++ b'_' ∷ rest) h)
        ∙ ap (◌∷◌ name) (split_n-cut b'_' 0 _ piece rest (cut-lacking b'_' piece rest k)))

revision_piece-lacking : (name : Text) → Lacks b'_' name → revision_piece name ≡ none
revision_piece-lacking name h = ap (λ (l : List Text). get_elem? l 1) (split_n-none b'_' 1 name h)

-- What `NewMetadata` makes of a name, from the piece between its first two underscores.
new_metadata-piece :
    (name piece : Text) (r : Option ℤ) (unknown : ℕ) (size : ℤ) (source : Source)
    → revision_piece name ≡ some piece
    → parse_int piece ≡ r
    → new_metadata name (negsuc unknown) size source ≡ (elim r [
      | none ↦ err bad_revision
      | some n ↦ ok (record { name = name; revision = n; size = size; source = source })
    ])
unfolding new_metadata lt_int
new_metadata-piece name piece none unknown size source e h = ground arith
new_metadata-piece name piece (some n) unknown size source e h = ground arith

-- Storing a snapshot under `Filename` and reading the name back gives its revision, for every
-- instance name without an underscore and every revision of an int64 that is not negative.
pub new_metadata-filename :
    (m : Metadata) (n : ℕ) (unknown : ℕ) (size : ℤ) (source : Source)
    → m.revision ≡ pos n
    → n < int64_bound
    → Lacks b'_' m.name
    → new_metadata (filename m) (negsuc unknown) size source
      ≡ ok (record { name = filename m; revision = pos n; size = size; source = source })
unfolding filename
new_metadata-filename m n unknown size source e h plain =
    new_metadata-piece (filename m) (hex16 (pos n)) (some (pos n)) unknown size source
      (rw e
        (revision_piece-cut m.name (hex16 (pos n)) snapshot_filename_suffix plain (hex16-Lacks n)))
      (parse_int-hex16 n h)

-- An instance name that holds an underscore breaks this: the piece of the name behind its first
-- underscore is taken for the revision. If it is no hexadecimal int64 the snapshot is refused,
-- though its revision was stored; otherwise its revision is that piece's, whatever was stored.
pub new_metadata-filename_underscore :
    (m : Metadata) (host piece : Text) (unknown : ℕ) (size : ℤ) (source : Source)
    → m.name ≡ host ++ b'_' ∷ piece
    → Lacks b'_' host
    → Lacks b'_' piece
    → new_metadata (filename m) (negsuc unknown) size source ≡ (elim (parse_int piece) [
      | none ↦ err bad_revision
      | some n ↦ ok (record { name = filename m; revision = n; size = size; source = source })
    ])
unfolding filename
new_metadata-filename_underscore m host piece unknown size source e h k =
    new_metadata-piece (filename m) piece (parse_int piece) unknown size source
      (rw (e, append_assoc) (revision_piece-cut host piece _ h k)) refl

-- A name without an underscore ends the program when its revision is to be read from it.
pub new_metadata_panics :
    (name : Text) (unknown : ℕ) (size : ℤ) (source : Source)
    → Lacks b'_' name
    → new_metadata name (negsuc unknown) size source ≡ panic
unfolding new_metadata lt_int
new_metadata_panics name unknown size source h = rw (revision_piece-lacking name h)

-- With an underscore it does not.
pub new_metadata-ne-panic :
    (name : Text) (revision size : ℤ) (source : Source)
    → revision_piece name ≢ none
    → new_metadata name revision size source ≢ panic
unfolding new_metadata
new_metadata-ne-panic name revision size source h = ground arith
