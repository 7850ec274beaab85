-- ===== src/Snapshot/File/Info.antt =====
-- What `Info` of the file provider returns, for every directory.
use mathlib.Core.List.{Memᴰ, not-mem-nil, mem-cons}
use mathlib.Core.Logic.{∥∥₁_map}
use mathlib.Core.Logic.Or
use etcd_cloud_operator.Prelude.{
  Text, pos, negsuc, lt_int, Outcome, ok, err, panic, none, some, List, [], ◌∷◌, true, false, ◌≡◌,
  ◌≢◌, refl, ap, subst, ok-injective, sym, ◌∙◌, ◌⊎◌, inl, inr, Mem, Bool-cases, All,
}
use etcd_cloud_operator.Snapshot.{Metadata, ParseError, file, new_metadata, less, revision_piece}
use etcd_cloud_operator.Snapshot.Filename.{new_metadata-ne-panic}
use etcd_cloud_operator.Snapshot.Latest.{
  SnapshotError, no_snapshot, MetadataSort, latest, keep, latest-greatest,
}
use etcd_cloud_operator.Snapshot.Latest.Keep.{
  passed_over, kept, keep-Turn, keep_head, keep_tail, keep_total, answer_cases,
}
use etcd_cloud_operator.Snapshot.File.{FileInfo, Directory, collect, info, select}

-- The metadata that the loop of `Info` makes of a file.
abbrev pub parsed : Text → FileInfo → Outcome ParseError Metadata
parsed name f = new_metadata name (negsuc 0) (pos f.size) file

-- A file of the directory that is a snapshot with this metadata.
pub record Stores (files : Directory) (m : Metadata) : Type 0 where
  pub name : Text
  pub found : FileInfo
  pub listed : Memᴰ (name, found) files
  pub plain_file : found.is_dir ≡ false
  pub parses : parsed name found ≡ ok m

Stores-cons :
    {files : Directory} {m : Metadata} (e : Text × FileInfo) → Stores files m → Stores (e ∷ files) m
Stores-cons e s = record {
  name = s.name;
  found = s.found;
  listed = Memᴰ.tail s.listed;
  plain_file = s.plain_file;
  parses = s.parses;
}

collect-dir :
    (name : Text) (f : FileInfo) (files : Directory)
    → f.is_dir ≡ true
    → collect ((name, f) ∷ files) ≡ collect files
unfolding collect
collect-dir name f files d = rw d

collect-file :
    (name : Text) (f : FileInfo) (files : Directory)
    → f.is_dir ≡ false
    → collect ((name, f) ∷ files) ≡ keep (parsed name f) (collect files)
unfolding collect
collect-file name f files d = rw d

-- The loop collects the metadata of every file that parses, and of no other.
pub collect-Stores :
    (files : Directory) (ms : List Metadata) (m : Metadata)
    → collect files ≡ ok ms
    → Mem m ms
    → ∥ Stores files m ∥₁
unfolding collect
collect-Stores [] ms m h i = absurd (not-mem-nil (subst (Mem m) (ok-injective (sym h)) i))
collect-Stores ((name, f) ∷ files) ms m h i = elim (Bool-cases f.is_dir) [
  | inl d ↦
      ∥∥₁_map (collect-Stores files ms m (sym (collect-dir name f files d) ∙ h) i)
        (Stores-cons (name, f))
  | inr d ↦ elim (keep-Turn _ _ ms (sym (collect-file name f files d) ∙ h)) [
    | passed_over e _ k ↦ ∥∥₁_map (collect-Stores files ms m k i) (Stores-cons (name, f))
    | kept n rest p k q ↦
        Or.elim squash₁ (mem-cons.0 (rw q at i))
          (λ e. ∣ record {
            name = name;
            found = f;
            listed = Memᴰ.head refl;
            plain_file = d;
            parses = rw e p;
          } ∣₁)
          (λ later. ∥∥₁_map (collect-Stores files rest m k later) (Stores-cons (name, f)))
  ]
]

pub mem-collect :
    (files : Directory) (ms : List Metadata) (m : Metadata) (x : Text × FileInfo)
    → collect files ≡ ok ms
    → Memᴰ x files
    → x.1.is_dir ≡ false
    → parsed x.0 x.1 ≡ ok m
    → Mem m ms
mem-collect [] ms m x h i d p = elim i [ ]
mem-collect (y ∷ files) ms m x h (Memᴰ.head e) d p =
    keep_head _ _ ms m (sym (collect-file y.0 y.1 files (rw e at d)) ∙ h) (rw e at p)
mem-collect (y ∷ files) ms m x h (Memᴰ.tail i) d p = elim (Bool-cases y.1.is_dir) [
  | inl k ↦ mem-collect files ms m x (sym (collect-dir y.0 y.1 files k) ∙ h) i d p
  | inr k ↦
      keep_tail _ _ ms m (sym (collect-file y.0 y.1 files k) ∙ h)
        (λ rest r. mem-collect files rest m x r i d p)
]

select-ok :
    (sorter : MetadataSort) (r : Outcome SnapshotError (List Metadata)) (m : Metadata)
    → select sorter r ≡ ok m
    → (ms : List Metadata) × (r ≡ ok ms) × (latest sorter ms ≡ ok m)
unfolding select
select-ok sorter (ok ms) m h = (ms, refl, h)
select-ok sorter (err e) m h = absurd (cc)
select-ok sorter panic m h = absurd (cc)

-- What `Info` returns is the metadata of a snapshot file of the directory, and no snapshot file of
-- the directory has a higher revision; whichever sort is used.
pub info-greatest :
    (sorter : MetadataSort) (files : Directory) (m : Metadata)
    → info sorter (some files) ≡ ok m
    → ∥ Stores files m ∥₁ × ((n : Metadata) → Stores files n → lt_int m.revision n.revision ≡ false)
unfolding info less
info-greatest sorter files m h =
    let (ms, c, l) = select-ok sorter (collect files) m h in
    let (i, greatest) = latest-greatest sorter ms m l in
    (
      collect-Stores files ms m c i,
      λ n s. greatest n (mem-collect files ms n (s.name, s.found) c s.listed s.plain_file s.parses),
    )

-- Every file but the directories has an underscore in its name.
abbrev pub Underscored : Directory → Type 0
Underscored = All (λ (x : Text × FileInfo). x.1.is_dir ≡ false → revision_piece x.0 ≢ none)

parsed-ne-panic : (name : Text) (f : FileInfo) → revision_piece name ≢ none → parsed name f ≢ panic
parsed-ne-panic name f h = new_metadata-ne-panic name (negsuc 0) (pos f.size) file h

-- Then the loop ends with a list.
collect_total :
    (files : Directory) → Underscored files → (ms : List Metadata) × (collect files ≡ ok ms)
unfolding collect
collect_total [] u = ([], refl)
collect_total (y ∷ files) u =
    let (ms, h) = collect_total files u.1 in
    elim (Bool-cases y.1.is_dir) [
      | inl d ↦ (ms, collect-dir y.0 y.1 files d ∙ h)
      | inr d ↦
          let (ns, k) = keep_total (parsed y.0 y.1) ms (parsed-ne-panic y.0 y.1 (u.0 d)) in
          (ns, collect-file y.0 y.1 files d ∙ ap (keep (parsed y.0 y.1)) h ∙ k)
    ]

-- In a directory whose files all have an underscore in their name `Info` never panics: it returns
-- a snapshot, or `ErrNoSnapshot`, and the latter only if no file of the directory is a snapshot.
pub info_total :
    (sorter : MetadataSort) (files : Directory)
    → Underscored files
    → ((m : Metadata) × (info sorter (some files) ≡ ok m))
      ⊎ ((info sorter (some files) ≡ err no_snapshot) × ((m : Metadata) → ¬ Stores files m))
unfolding info select
info_total sorter files u =
    let (ms, c) = collect_total files u in
    elim (answer_cases sorter ms) [
      | inl (m, l) ↦ inl (m, ap (select sorter) c ∙ l)
      | inr (e, l) ↦ inr (ap (select sorter) c ∙ l, none_stored ms c e)
    ]
  where
    none_stored :
        (ms : List Metadata) → collect files ≡ ok ms → ms ≡ [] → (m : Metadata) → ¬ Stores files m
    none_stored ms c e m s = not-mem-nil (
        subst (Mem m) e (mem-collect files ms m (s.name, s.found) c s.listed s.plain_file s.parses))
