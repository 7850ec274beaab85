-- ===== src/Snapshot/Latest.antt =====
-- The end of `Info` in file.go and s3.go, which is the same in both: the metadata that parsed are
-- sorted by `MetadataSorter`, and the last one is the answer.
pub mod Keep
use etcd_cloud_operator.Prelude.{
  Text, lt_int_asym, lt_int-false_trans, Outcome, ok, err, panic, Option, none, some, List, [], ◌∷◌,
  true, false, ◌≡◌, ◌≢◌, refl, Sorter, insertion_sorter, sort-last, sort-nil, last?, Mem,
  Option-cases, inl, inr, lt_int_irrefl,
}
use etcd_cloud_operator.Snapshot.{Metadata, ParseError, less}

pub data SnapshotError : Type 0 where
  no_snapshot : SnapshotError
  failed : Text → SnapshotError

pub less_asym : (a b : Metadata) → less a b ≡ true → less b a ≡ false
unfolding less
less_asym a b h = lt_int_asym a.revision b.revision h

less_trans : (a b c : Metadata) → less b a ≡ false → less c b ≡ false → less c a ≡ false
unfolding less
less_trans a b c h k = lt_int-false_trans a.revision b.revision c.revision h k

less_irrefl : (a : Metadata) → less a a ≡ false
unfolding less
less_irrefl a = lt_int_irrefl a.revision

-- `sort.Sort(MetadataSorter(metadatas))`, by any sort that keeps the contract of package sort.
abbrev pub MetadataSort : Type 0
MetadataSort = Sorter less

abbrev pub by_insertion : MetadataSort
by_insertion = insertion_sorter less less_asym

answer : Option Metadata → Outcome SnapshotError Metadata
answer none = panic
answer (some m) = ok m

-- The last of the sorted metadata, or `ErrNoSnapshot` if there are none.
unfoldable pub latest : MetadataSort → List Metadata → Outcome SnapshotError Metadata
unfolding answer
latest sorter [] = err no_snapshot
latest sorter (m ∷ ms) = answer (last? (sorter.sort (m ∷ ms)))

-- One turn of the loop: a name that does not parse is passed over.
unfoldable pub keep :
    Outcome ParseError Metadata
    → Outcome SnapshotError (List Metadata)
    → Outcome SnapshotError (List Metadata)
keep panic rest = panic
keep (err e) rest = rest
keep (ok m) (ok ms) = ok (m ∷ ms)
keep (ok m) (err e) = err e
keep (ok m) panic = panic

answer-ok : (o : Option Metadata) (m : Metadata) → answer o ≡ ok m → o ≡ some m
unfolding answer
answer-ok none m h = cc
answer-ok (some n) m h = cc

pub latest-greatest :
    (sorter : MetadataSort) (ms : List Metadata) (m : Metadata)
    → latest sorter ms ≡ ok m
    → Mem m ms × ((n : Metadata) → Mem n ms → less m n ≡ false)
unfolding latest
latest-greatest sorter [] m h = cc
latest-greatest sorter (x ∷ xs) m h =
    sort-last less less_trans less_irrefl sorter (x ∷ xs) m (answer-ok _ m h)

-- A list of metadata that is not empty has an answer.
pub latest_total :
    (sorter : MetadataSort) (ms : List Metadata)
    → ms ≢ []
    → (m : Metadata) × (latest sorter ms ≡ ok m)
unfolding latest answer
latest_total sorter [] h = absurd (h refl)
latest_total sorter (x ∷ xs) h = elim (Option-cases (last? (sorter.sort (x ∷ xs)))) [
  | inl e ↦ absurd (h (sort-nil less sorter (x ∷ xs) e))
  | inr (m, e) ↦ (m, rw e)
]
