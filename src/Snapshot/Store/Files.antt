-- ===== src/Snapshot/Store/Files.antt =====
-- The file provider keeps the contract of a store.
use mathlib.Core.Logic.{∥∥₁_map}
use etcd_cloud_operator.Prelude.{
  ℕ, ℤ, pos, ◌+◌, ◌≤◌, ◌<◌, lt_int, false, some, Outcome, ok, err, ok-injective, ◌⊎◌, inl, inr, ◌≡◌,
  refl, sym, ◌∙◌, ap, subst, Bool-cases, text_eq, text_eq_iff, insert, mem-insert, mem-insert_other,
  Lacks, int64_bound,
}
use etcd_cloud_operator.Snapshot.{Metadata, ParseError, file, filename}
use etcd_cloud_operator.Snapshot.Filename.{new_metadata-filename}
use etcd_cloud_operator.Snapshot.Latest.{SnapshotError, no_snapshot, MetadataSort}
use etcd_cloud_operator.Snapshot.File.{FileInfo, Directory, SaveEnv, PurgeEnv, info, save, purge}
use etcd_cloud_operator.Snapshot.File.Info.{Stores, parsed, Underscored, info-greatest, info_total}
use etcd_cloud_operator.Snapshot.File.Laws.{
  FreshTemp, unchanged, stored, save-Saved, written, purge-IsYoung, purge_adds_no_file,
}
use etcd_cloud_operator.Snapshot.Store.{Store}
use etcd_cloud_operator.Snapshot.Store.History.{Backups, backup_kept}

-- The revision can be read back from the name of the file.
abbrev pub IsNamable : Metadata → Type 0
IsNamable m = (k : ℕ) × (m.revision ≡ pos k) × (k < int64_bound) × Lacks b'_' m.name

-- A file of the directory is a snapshot of the revision, and was stored at the time.
abbrev pub FileHolds : Directory → ℤ → ℕ → Type 0
FileHolds dir r t = (m : Metadata) × (s : Stores dir m) × (m.revision ≡ r) × (s.found.mod_time ≡ t)

abbrev at_time : (ℕ → SaveEnv) → ℕ → SaveEnv
at_time envs t = record (envs t) { now = t }

abbrev CanSaveFile : (ℕ → SaveEnv) → ℕ → Metadata → Directory → Type 0
CanSaveFile envs t m dir = IsNamable m × FreshTemp (at_time envs t) m dir

-- A file under the name that a save takes has the revision that is saved.
same_revision :
    (m n : Metadata) (f : FileInfo)
    → IsNamable m
    → parsed (filename m) f ≡ ok n
    → n.revision ≡ m.revision
same_revision m n f (k, e, b, plain) p =
    ap (λ x. x.revision)
      (ok-injective {E = ParseError}
        (sym p ∙ new_metadata-filename m k 0 (pos f.size) file e b plain))
    ∙ sym e

written_holds :
    (env : SaveEnv) (m : Metadata) (dir : Directory) (n : ℕ)
    → IsNamable m
    → FileHolds (insert (filename m) (written env n) dir) m.revision env.now
written_holds env m dir n (k, e, b, plain) = (
  record { name = filename m; revision = pos k; size = pos n; source = file },
  record {
    name = filename m;
    found = written env n;
    listed = mem-insert (filename m) (written env n) dir;
    plain_file = refl;
    parses = new_metadata-filename m k 0 (pos n) file e b plain;
  },
  sym e,
  refl,
)

module _ (sorter : MetadataSort) (envs : ℕ → SaveEnv) (purges : ℕ → PurgeEnv) where
  pub save-FileHolds :
      (t : ℕ) (m saved : Metadata) (dir after : Directory)
      → CanSaveFile envs t m dir
      → save (at_time envs t) m dir ≡ (ok saved, after)
      → FileHolds after m.revision t
  save-FileHolds t m saved dir after (namable, fresh) h =
      elim (save-Saved (at_time envs t) m dir fresh) [
        | unchanged _ not_saved ↦ absurd (not_saved saved (ap (λ r. r.0) h))
        | stored n _ e _ ↦
            subst (λ d. FileHolds d m.revision t) (sym e ∙ ap (λ r. r.1) h)
              (written_holds (at_time envs t) m dir n namable)
      ]

  pub save_file_keeps :
      (t : ℕ) (m : Metadata) (dir : Directory) (r : ℤ) (held : ℕ)
      → CanSaveFile envs t m dir
      → FileHolds dir r held
      → FileHolds (save (at_time envs t) m dir).1 r held
        ⊎ FileHolds (save (at_time envs t) m dir).1 r t
  save_file_keeps t m dir r held (namable, fresh) (n, s, e, a) =
      elim (save-Saved (at_time envs t) m dir fresh) [
        | unchanged same _ ↦ inl (subst (λ d. FileHolds d r held) (sym same) (n, s, e, a))
        | stored size _ same _ ↦ elim (Bool-cases (text_eq s.name (filename m))) [
          | inr other ↦ inl (
              subst (λ d. FileHolds d r held) (sym same)
                (
                  n,
                  record {
                    name = s.name;
                    found = s.found;
                    listed = mem-insert_other (filename m) _ dir (s.name, s.found) s.listed other;
                    plain_file = s.plain_file;
                    parses = s.parses;
                  },
                  e,
                  a,
                ))
          | inl taken ↦
              let named = (text_eq_iff s.name (filename m)).0 taken in
              let equal =
                sym (
                  same_revision m n s.found namable
                    (ap (λ k. parsed k s.found) (sym named) ∙ s.parses))
                ∙ e in
              inr (
                subst (λ d. FileHolds d r t) (sym same)
                  (subst
                    (λ z. FileHolds (insert (filename m) (written (at_time envs t) size) dir) z t)
                    equal (written_holds (at_time envs t) m dir size namable)))
        ]
      ]

  pub purge_file_keeps :
      (now ttl : ℕ) (dir : Directory) (r : ℤ) (held : ℕ)
      → FileHolds dir r held
      → now ≤ held + ttl
      → FileHolds (purge (purges now) now ttl dir).1 r held
  purge_file_keeps now ttl dir r held (n, s, e, a) young = (
    n,
    record {
      name = s.name;
      found = s.found;
      listed =
          purge-IsYoung (purges now) now ttl dir (s.name, s.found) s.listed
            (subst (λ u. now ≤ u + ttl) (sym a) young);
      plain_file = s.plain_file;
      parses = s.parses;
    },
    e,
    a,
  )

  pub purge_file_adds_none :
      (now ttl : ℕ) (dir : Directory) (r : ℤ) (held : ℕ)
      → FileHolds (purge (purges now) now ttl dir).1 r held
      → FileHolds dir r held
  purge_file_adds_none now ttl dir r held (n, s, e, a) = (
    n,
    record {
      name = s.name;
      found = s.found;
      listed = purge_adds_no_file (purges now) now ttl dir (s.name, s.found) s.listed;
      plain_file = s.plain_file;
      parses = s.parses;
    },
    e,
    a,
  )

  pub info_file_answers :
      (dir : Directory)
      → Underscored dir
      → ((m : Metadata) × (info sorter (some dir) ≡ ok m))
        ⊎ (info sorter (some dir) ≡ err no_snapshot)
  info_file_answers dir u = elim (info_total sorter dir u) [
    | inl found ↦ inl found
    | inr (e, _) ↦ inr e
  ]

  pub info_file_empty :
      (dir : Directory) (r : ℤ) (t : ℕ)
      → Underscored dir
      → info sorter (some dir) ≡ err no_snapshot
      → ¬ FileHolds dir r t
  info_file_empty dir r t u h (m, s, _, _) = elim (info_total sorter dir u) [
    | inl (n, e) ↦ not_answered n (sym h ∙ e)
    | inr (_, none_stored) ↦ none_stored m s
  ]
    where
      not_answered :
          (n : Metadata) → ¬ (◌≡◌ {A = Outcome SnapshotError Metadata} (err no_snapshot) (ok n))
      not_answered n e = cc

  -- The file provider on a directory that can be listed.
  abbrev pub file_store : Store
  file_store = record {
    State = Directory;
    info = λ dir. info sorter (some dir);
    save = λ t m dir. save (at_time envs t) m dir;
    purge = λ now ttl dir. (purge (purges now) now ttl dir).1;
    Holds = FileHolds;
    CanRead = Underscored;
    CanSave = CanSaveFile envs;
    info_answers = info_file_answers;
    info_empty = info_file_empty;
    info_held = λ dir m u h.
        ∥∥₁_map ((info-greatest sorter dir m h).0) (λ s. (s.found.mod_time, (m, s, refl, refl)));
    info_greatest = λ dir m r t u h (n, s, e, _).
        subst (λ z. lt_int m.revision z ≡ false) e ((info-greatest sorter dir m h).1 n s);
    save_holds = save-FileHolds;
    save_keeps = save_file_keeps;
    purge_keeps = purge_file_keeps;
    purge_adds_none = purge_file_adds_none;
  }

  -- The file provider implements the contract: of a snapshot that it saved, whose instance name has no
  -- underscore and whose revision is an int64 that is not negative, its revision or a higher one is the answer of
  -- Info after any saves, failed ones included, and any purges within the time to live; provided that the
  -- temporary name of each save is not in use, that what is saved later has such a name and revision too, and
  -- that every file that is there in the end has an underscore in its name.
  pub files_kept :
      (t : ℕ) (m saved : Metadata) (dir before after : Directory)
      → IsNamable m
      → FreshTemp (at_time envs t) m dir
      → save (at_time envs t) m dir ≡ (ok saved, before)
      → Backups file_store t before after
      → Underscored after
      → (latest : Metadata) × (info sorter (some after) ≡ ok latest)
        × (lt_int latest.revision m.revision ≡ false)
  files_kept t m saved dir before after namable fresh done bs u =
      backup_kept file_store t m saved dir before after (namable, fresh) done bs u
