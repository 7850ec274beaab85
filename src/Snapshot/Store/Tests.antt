-- ===== src/Snapshot/Store/Tests.antt =====
-- A snapshot that is kept by either provider.
use mathlib.Core.List.{Memᴰ}
use mathlib.Core.Option.{some-injective, none-ne-some}
use etcd_cloud_operator.Prelude.{
  Text, codes, ℕ, pos, negsuc, lt_int, true, false, none, some, [], ◌∷◌, ok, ◌≡◌, ◌≢◌, refl, sym,
  ◌∙◌, ap, subst, arith, lookup, insert, remove, mem_cases, mem-remove_of, text_eq, text_eq_iff,
  text_eq_refl, hex16, hex_digits, hex_digit, split_n, cut, mem-remove_other, inl, inr, Bool-cases,
}
use etcd_cloud_operator.Snapshot.{Metadata, file, filename, revision_piece}
use etcd_cloud_operator.Snapshot.Latest.{by_insertion}
use etcd_cloud_operator.Snapshot.File.{Directory, SaveEnv, PurgeEnv, info, save, sweep, purge}
use etcd_cloud_operator.Snapshot.S3.{
  Object, Objects, Bucket, S3Env, sized, info as info_object, save as save_object,
  purge as purge_object,
}
use etcd_cloud_operator.Snapshot.Store.History.{Backups}
use etcd_cloud_operator.Snapshot.Store.Files.{files_kept}
use etcd_cloud_operator.Snapshot.Store.Buckets.{IsListing}
use etcd_cloud_operator.Snapshot.Store.Objects.{objects_kept}

abbrev at_ten : Metadata
at_ten = record { name = codes "a"; revision = pos 10; size = negsuc 0; source = file }

abbrev quick : ℕ → SaveEnv
quick t = record { temp_suffix = some (codes "1"); copied = some 5; renamed = true; now = t }

abbrev sweeping : PurgeEnv
sweeping = record { lists = true; removes = λ name. true }

abbrev stored_at_three : Directory
stored_at_three = (filename at_ten, record { is_dir = false; size = 5; mod_time = 3 }) ∷ []

ten_piece : revision_piece (filename at_ten) ≡ some (codes "000000000000000a")
unfolding filename hex16 hex_digits hex_digit split_n cut
ten_piece = refl

underscored : revision_piece (filename at_ten) ≢ none
underscored = λ h. none-ne-some _ (sym h ∙ ten_piece)

files_kept_example :
    (latest : Metadata) × (info by_insertion (some stored_at_three) ≡ ok latest)
    × (lt_int latest.revision (pos 10) ≡ false)
unfolding save sweep purge insert remove lookup text_eq filename hex16 hex_digits hex_digit
files_kept_example =
    files_kept by_insertion quick (λ t. sweeping) 3 at_ten (record at_ten { size = pos 5 }) []
      stored_at_three stored_at_three (10, refl, omega arith, (refl, tt)) (λ suffix e. refl) refl
      (Backups.purges 7 5 stored_at_three stored_at_three (omega arith)
        (Backups.over stored_at_three))
      (λ plain. underscored, tt)

-- A listing of a bucket: its objects, each key once.
each_once : Bucket → Objects
each_once [] = []
each_once ((key, obj) ∷ bucket) = (key, obj) ∷ remove key (each_once bucket)

remove-other :
    (key : Text) (objects : Objects) (x : Text × Object)
    → Memᴰ x (remove key objects)
    → text_eq key x.0 ≡ false
unfolding remove
remove-other key [] x i = elim i [ ]
remove-other key ((j, obj) ∷ objects) x i = elim (Bool-cases (text_eq j key)) [
  | inl e ↦ remove-other key objects x (rw e at i)
  | inr e ↦ elim (mem_cases x (j, obj) (remove key objects) (rw e at i)) [
    | inl same ↦ differ (ap (λ y. y.0) same) e
    | inr later ↦ remove-other key objects x later
  ]
]
  where
    differ : x.0 ≡ j → text_eq j key ≡ false → text_eq key x.0 ≡ false
    differ p e = elim (Bool-cases (text_eq key x.0)) [
      | inr f ↦ f
      | inl f ↦ let q = (text_eq_iff j key).1 (sym (((text_eq_iff key x.0).0 f) ∙ p)) in absurd (cc)
    ]

each_once-lookup :
    (bucket : Bucket) (x : Text × Object) → Memᴰ x (each_once bucket) → lookup x.0 bucket ≡ some x.1
unfolding each_once lookup
each_once-lookup [] x i = elim i [ ]
each_once-lookup ((key, obj) ∷ bucket) x i =
    elim (mem_cases x (key, obj) (remove key (each_once bucket)) i) [
      | inl same ↦
          ap (λ y. lookup y.0 ((key, obj) ∷ bucket)) same
          ∙ (rw (text_eq_refl key) refl ∙ ap (λ y. some y.1) (sym same))
      | inr later ↦
          rw (remove-other key (each_once bucket) x later)
            (each_once-lookup bucket x (mem-remove_of key (each_once bucket) x later))
    ]

lookup-each_once :
    (bucket : Bucket) (key : Text) (obj : Object)
    → lookup key bucket ≡ some obj
    → Memᴰ (key, obj) (each_once bucket)
unfolding each_once lookup
lookup-each_once [] key obj h = absurd (none-ne-some obj h)
lookup-each_once ((j, w) ∷ bucket) key obj h = elim (Bool-cases (text_eq j key)) [
  | inl e ↦
      let same = (text_eq_iff j key).0 e in
      let stored = some-injective _ _ (rw e at h) in
      Memᴰ.head (ap (λ k. (k, obj)) (sym same) ∙ ap (λ o. (j, o)) (sym stored))
  | inr e ↦ Memᴰ.tail (
      mem-remove_other j (each_once bucket) (key, obj) (lookup-each_once bucket key obj (rw e at h))
        (not_equal e))
]
  where
    not_equal : text_eq j key ≡ false → text_eq key j ≡ false
    not_equal e = elim (Bool-cases (text_eq key j)) [
      | inr f ↦ f
      | inl f ↦ let q = (text_eq_iff j key).1 (sym ((text_eq_iff key j).0 f)) in absurd (cc)
    ]

abbrev at_three : Object
at_three = record { size = pos 5; last_modified = 3 }

abbrev aws : S3Env
aws = record {
  session = true;
  on_list = λ bucket. some (each_once bucket);
  uploaded = some at_three;
  content_length = none;
  on_delete = λ key. true;
  temp_file = none;
  downloaded = false;
}

aws-IsListing : IsListing aws
aws-IsListing = record {
  present = λ bucket objects key obj l i.
      each_once-lookup bucket (key, obj) (subst (Memᴰ (key, obj)) (sym (some-injective _ _ l)) i);
  complete = λ bucket objects key obj l _ h.
      subst (Memᴰ (key, obj)) (some-injective _ _ l) (lookup-each_once bucket key obj h);
}

abbrev bucket_at_three : Bucket
bucket_at_three = (filename at_ten, at_three) ∷ []

objects_kept_example :
    (latest : Metadata) × (info_object by_insertion aws bucket_at_three ≡ ok latest)
    × (lt_int latest.revision (pos 10) ≡ false)
unfolding save_object purge_object insert sized each_once remove
objects_kept_example =
    objects_kept by_insertion aws (λ t. aws) aws-IsListing (λ t. aws-IsListing) 3 at_ten at_ten []
      bucket_at_three bucket_at_three (10, refl, omega arith, (refl, tt))
      (λ obj e. ap (λ o. o.last_modified) (some-injective _ _ (sym e))) refl
      (Backups.purges 7 5 bucket_at_three bucket_at_three (omega arith)
        (Backups.over bucket_at_three))
      refl (omega arith) bucket_at_three refl (underscored, tt)
