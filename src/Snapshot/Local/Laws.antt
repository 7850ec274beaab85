-- ===== src/Snapshot/Local/Laws.antt =====
-- What the local provider answers.
use etcd_cloud_operator.Prelude.{
  Text, codes, ℕ, ℤ, pos, lt_int, ltb, arith, ok, err, none, some, true, false, ◌≡◌, inl, inr, refl,
  sym, ◌∙◌, ap, Bool-cases, Option-cases,
}
use etcd_cloud_operator.Snapshot.{etcd, new_metadata, with_revision}
use etcd_cloud_operator.Snapshot.Latest.{no_snapshot, failed}
use etcd_cloud_operator.Snapshot.Local.{LocalEnv, Status, info, db_path, with_status, parse_failed}

new_metadata_known :
    (path : Text) (n : ℕ) (size : ℤ)
    → new_metadata path (pos n) size etcd
      ≡ ok (record { name = path; revision = pos n; size = size; source = etcd })
unfolding new_metadata lt_int with_revision
new_metadata_known path n size = let known : ltb n 0 ≡ false = ground arith in rw known refl

info_found :
    (env : LocalEnv) (data_dir : Text)
    → env.exists (db_path data_dir) ≡ true
    → info env data_dir ≡ with_status (db_path data_dir) (env.on_status (db_path data_dir))
unfolding info
info_found env data_dir e = rw e refl

no_status : (data_dir : Text) → with_status (db_path data_dir) none ≡ err (failed (codes "status"))
unfolding with_status
no_status data_dir = refl

read_status :
    (data_dir : Text) (status : Status) (n : ℕ)
    → status.revision ≡ pos n
    → with_status (db_path data_dir) (some status)
      ≡ ok (record {
        name = db_path data_dir;
        revision = status.revision;
        size = status.total_size;
        source = etcd;
      })
unfolding with_status parse_failed
read_status data_dir status n p =
    ap (λ r. parse_failed (new_metadata (db_path data_dir) r status.total_size etcd)) p
    ∙ (ap parse_failed (new_metadata_known (db_path data_dir) n status.total_size)
        ∙ ap
            (λ (r : ℤ). ok (record {
              name = db_path data_dir;
              revision = r;
              size = status.total_size;
              source = etcd;
            }))
            (sym p))

-- What `Info` answers of a database whose revision is not negative: the four ways in which it ends.
pub data Answers (env : LocalEnv) (data_dir : Text) : Type 0 where
  missing :
      env.exists (db_path data_dir) ≡ false
      → info env data_dir ≡ err no_snapshot
      → Answers env data_dir
  unreadable :
      (reason : Text)
      → env.exists (db_path data_dir) ≡ true
      → env.on_status (db_path data_dir) ≡ none
      → info env data_dir ≡ err (failed reason)
      → Answers env data_dir
  answered :
      (status : Status)
      → env.exists (db_path data_dir) ≡ true
      → env.on_status (db_path data_dir) ≡ some status
      → info env data_dir
        ≡ ok (record {
          name = db_path data_dir;
          revision = status.revision;
          size = status.total_size;
          source = etcd;
        })
      → Answers env data_dir

-- A status tells a revision that is not negative.
abbrev pub IsCounted : LocalEnv → Type 0
IsCounted env =
    (path : Text) (status : Status)
    → env.on_status path ≡ some status
    → (n : ℕ) × (status.revision ≡ pos n)

-- Where the database tells no negative revision, `Info` never reads one from the name of the file, nor
-- panics: it answers ErrNoSnapshot without a database, an error without its status, and its revision and
-- size otherwise.
pub info-Answers : (env : LocalEnv) (data_dir : Text) → IsCounted env → Answers env data_dir
unfolding info
info-Answers env data_dir counted = elim (Bool-cases (env.exists (db_path data_dir))) [
  | inr e ↦ missing e (rw e refl)
  | inl e ↦ elim (Option-cases (env.on_status (db_path data_dir))) [
    | inl f ↦
        unreadable (codes "status") e f
          (info_found env data_dir e ∙ (ap (with_status (db_path data_dir)) f ∙ no_status data_dir))
    | inr (status, f) ↦
        let (n, p) = counted (db_path data_dir) status f in
        answered status e f (
          info_found env data_dir e
          ∙ (ap (with_status (db_path data_dir)) f ∙ read_status data_dir status n p))
  ]
]
