-- ===== src/Snapshot/Latest/Keep.antt =====
-- What the loop of `Info` keeps of one object, in file.go and s3.go.
use mathlib.Core.List.{mem-cons_self, mem-cons_of_mem, cons≢nil}
use etcd_cloud_operator.Prelude.{
  Outcome, ok, err, panic, List, [], ◌∷◌, ◌≡◌, ◌≢◌, refl, sym, ◌∙◌, ok-injective, ◌⊎◌, inl, inr,
  Mem,
}
use etcd_cloud_operator.Snapshot.{Metadata, ParseError}
use etcd_cloud_operator.Snapshot.Latest.{
  SnapshotError, no_snapshot, MetadataSort, latest, keep, latest_total,
}

-- One turn of the loop, by its four ways.
pub data Turn (o : Outcome ParseError Metadata) (r : Outcome SnapshotError (List Metadata))
    (ms : List Metadata) : Type 0 where
  passed_over : (e : ParseError) → o ≡ err e → r ≡ ok ms → Turn o r ms
  kept :
      (m : Metadata) (rest : List Metadata) → o ≡ ok m → r ≡ ok rest → ms ≡ m ∷ rest → Turn o r ms

pub keep-Turn :
    (o : Outcome ParseError Metadata) (r : Outcome SnapshotError (List Metadata))
    (ms : List Metadata)
    → keep o r ≡ ok ms
    → Turn o r ms
unfolding keep
keep-Turn panic r ms h = absurd (cc)
keep-Turn (err e) r ms h = passed_over e refl h
keep-Turn (ok m) (ok rest) ms h = kept m rest refl refl (cc)
keep-Turn (ok m) (err e) ms h = absurd (cc)
keep-Turn (ok m) panic ms h = absurd (cc)

pub keep_head :
    (o : Outcome ParseError Metadata) (r : Outcome SnapshotError (List Metadata))
    (ms : List Metadata) (m : Metadata)
    → keep o r ≡ ok ms
    → o ≡ ok m
    → Mem m ms
keep_head o r ms m h p = elim (keep-Turn o r ms h) [
  | passed_over e q _ ↦ absurd (cc)
  | kept n rest q _ s ↦ rw s (rw (ok-injective {E = ParseError} (sym p ∙ q)) mem-cons_self)
]

pub keep_tail :
    (o : Outcome ParseError Metadata) (r : Outcome SnapshotError (List Metadata))
    (ms : List Metadata) (m : Metadata)
    → keep o r ≡ ok ms
    → ((rest : List Metadata) → r ≡ ok rest → Mem m rest)
    → Mem m ms
keep_tail o r ms m h f = elim (keep-Turn o r ms h) [
  | passed_over e _ k ↦ f ms k
  | kept n rest _ k s ↦ rw s (mem-cons_of_mem n (f rest k))
]

pub keep_total :
    (o : Outcome ParseError Metadata) (ms : List Metadata)
    → o ≢ panic
    → (ns : List Metadata) × (keep o (ok ms) ≡ ok ns)
unfolding keep
keep_total (ok m) ms h = (m ∷ ms, refl)
keep_total (err e) ms h = (ms, refl)
keep_total panic ms h = absurd (h refl)

pub answer_cases :
    (sorter : MetadataSort) (ms : List Metadata)
    → ((m : Metadata) × (latest sorter ms ≡ ok m))
      ⊎ ((ms ≡ []) × (latest sorter ms ≡ err no_snapshot))
unfolding latest
answer_cases sorter [] = inr (refl, refl)
answer_cases sorter (m ∷ ms) = inl (latest_total sorter (m ∷ ms) cons≢nil)
