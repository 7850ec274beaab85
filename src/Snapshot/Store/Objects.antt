-- ===== src/Snapshot/Store/Objects.antt =====
-- The S3 provider keeps the contract of a store, as long as the bucket fits one listing.
use mathlib.Core.Logic.{∥∥₁_map}
use etcd_cloud_operator.Prelude.{
  ℕ, ℤ, ◌+◌, ◌≤◌, lt_int, true, false, some, Outcome, ok, err, ok-injective, ◌⊎◌, inl, inr, ◌≡◌,
  sym, ◌∙◌, ap, subst, Bool-cases, text_eq, text_eq_iff, insert, lookup-insert, length,
}
use etcd_cloud_operator.Snapshot.{Metadata, ParseError, s3, filename}
use etcd_cloud_operator.Snapshot.Filename.{new_metadata-filename}
use etcd_cloud_operator.Snapshot.Latest.{SnapshotError, no_snapshot, MetadataSort}
use etcd_cloud_operator.Snapshot.S3.{Object, Objects, Bucket, S3Env, info, save, purge}
use etcd_cloud_operator.Snapshot.S3.Info.{parsed, Underscored, info-greatest, info_total}
use etcd_cloud_operator.Snapshot.S3.Laws.{unchanged, put, save-Saved}
use etcd_cloud_operator.Snapshot.Store.{Store}
use etcd_cloud_operator.Snapshot.Store.Files.{IsNamable}
use etcd_cloud_operator.Snapshot.Store.History.{Backups, backup_kept}
use etcd_cloud_operator.Snapshot.Store.Buckets.{
  IsListing, BucketHolds, CanRead, IsTimely, put_holds, lookup-purged, purged-lookup, stored_lookup,
  lookup_stored,
}

module _ (sorter : MetadataSort) (reader : S3Env) (envs : ℕ → S3Env) where
  pub save_object_holds :
      (t : ℕ) (m saved : Metadata) (bucket after : Bucket)
      → IsNamable m × IsTimely (envs t) t
      → save (envs t) m bucket ≡ (ok saved, after)
      → BucketHolds after m.revision t
  save_object_holds t m saved bucket after (namable, timely) h =
      elim (save-Saved (envs t) m bucket) [
        | unchanged _ not_saved ↦ absurd (not_saved saved (ap (λ r. r.0) h))
        | put obj u e _ ↦
            subst (λ b. BucketHolds b m.revision t) (sym e ∙ ap (λ r. r.1) h)
              (subst (BucketHolds (insert (filename m) obj bucket) m.revision) (timely obj u)
                (put_holds m obj bucket namable))
      ]

  pub save_object_keeps :
      (t : ℕ) (m : Metadata) (bucket : Bucket) (r : ℤ) (held : ℕ)
      → IsNamable m × IsTimely (envs t) t
      → BucketHolds bucket r held
      → BucketHolds (save (envs t) m bucket).1 r held ⊎ BucketHolds (save (envs t) m bucket).1 r t
  save_object_keeps t m bucket r held (namable, timely) (key, obj, n, l, p, e, a) =
      elim (save-Saved (envs t) m bucket) [
        | unchanged same _ ↦
            inl (subst (λ b. BucketHolds b r held) (sym same) (key, obj, n, l, p, e, a))
        | put new u same _ ↦ elim (Bool-cases (text_eq (filename m) key)) [
          | inr other ↦ inl (
              subst (λ b. BucketHolds b r held) (sym same)
                (key, obj, n, lookup-insert (filename m) key new bucket ∙ rw other l, p, e, a))
          | inl taken ↦
              let named = (text_eq_iff (filename m) key).0 taken in
              let equal =
                sym (same_revision m n obj namable (ap (λ k. parsed k obj) named ∙ p)) ∙ e in
              inr (
                subst (λ b. BucketHolds b r t) (sym same)
                  (subst (λ z. BucketHolds (insert (filename m) new bucket) z t) equal
                    (subst (BucketHolds (insert (filename m) new bucket) m.revision) (timely new u)
                      (put_holds m new bucket namable))))
        ]
      ]
    where
      same_revision :
          (m n : Metadata) (f : Object)
          → IsNamable m
          → parsed (filename m) f ≡ ok n
          → n.revision ≡ m.revision
      same_revision m n f (k, e, b, plain) p =
          ap (λ x. x.revision)
            (ok-injective {E = ParseError}
              (sym p ∙ new_metadata-filename m k 0 f.size s3 e b plain))
          ∙ sym e

  module _ (listing : IsListing reader) (listings : (t : ℕ) → IsListing (envs t)) where
    pub purge_object_keeps :
        (now ttl : ℕ) (bucket : Bucket) (r : ℤ) (held : ℕ)
        → BucketHolds bucket r held
        → now ≤ held + ttl
        → BucketHolds (purge (envs now) now ttl bucket).1 r held
    purge_object_keeps now ttl bucket r held (key, obj, m, l, p, e, a) young =
        let late : now ≤ obj.last_modified + ttl = subst (λ u. now ≤ u + ttl) (sym a) young in
        (
          key,
          obj,
          m,
          lookup-purged (envs now) now ttl bucket key obj (listings now) l late,
          p,
          e,
          a,
        )

    pub purge_object_adds_none :
        (now ttl : ℕ) (bucket : Bucket) (r : ℤ) (held : ℕ)
        → BucketHolds (purge (envs now) now ttl bucket).1 r held
        → BucketHolds bucket r held
    purge_object_adds_none now ttl bucket r held (key, obj, m, l, p, e, a) =
        (key, obj, m, purged-lookup (envs now) now ttl bucket key obj l, p, e, a)

    pub info_object_answers :
        (bucket : Bucket)
        → CanRead reader bucket
        → ((m : Metadata) × (info sorter reader bucket ≡ ok m))
          ⊎ (info sorter reader bucket ≡ err no_snapshot)
    info_object_answers bucket (session, _, (objects, l, u)) =
        elim (info_total sorter reader bucket objects session l u) [
          | inl found ↦ inl found
          | inr (e, _) ↦ inr e
        ]

    pub info_object_empty :
        (bucket : Bucket) (r : ℤ) (t : ℕ)
        → CanRead reader bucket
        → info sorter reader bucket ≡ err no_snapshot
        → ¬ BucketHolds bucket r t
    info_object_empty bucket r t (session, small, (objects, l, u)) h (key, obj, m, held, p, _, _) =
        elim (info_total sorter reader bucket objects session l u) [
          | inl (n, e) ↦ not_answered n (sym h ∙ e)
          | inr (_, none_stored) ↦
              none_stored m (lookup_stored reader bucket objects key obj m listing l small held p)
        ]
      where
        not_answered :
            (n : Metadata) → ¬ (◌≡◌ {A = Outcome SnapshotError Metadata} (err no_snapshot) (ok n))
        not_answered n e = cc

    pub info_object_held :
        (bucket : Bucket) (m : Metadata)
        → CanRead reader bucket
        → info sorter reader bucket ≡ ok m
        → ∥ ((t : ℕ) × BucketHolds bucket m.revision t) ∥₁
    info_object_held bucket m (session, _, (objects, l, u)) h =
        ∥∥₁_map ((info-greatest sorter reader bucket objects m session l h).0)
          (stored_lookup reader bucket objects m listing l)

    pub info_object_greatest :
        (bucket : Bucket) (m : Metadata) (r : ℤ) (t : ℕ)
        → CanRead reader bucket
        → info sorter reader bucket ≡ ok m
        → BucketHolds bucket r t
        → lt_int m.revision r ≡ false
    info_object_greatest bucket m r t (session, small, (objects, l, u)) h
          (key, obj, n, held, p, e, _) =
        subst (λ z. lt_int m.revision z ≡ false) e
          ((info-greatest sorter reader bucket objects m session l h).1 n
            (lookup_stored reader bucket objects key obj n listing l small held p))

    -- The S3 provider on a bucket.
    abbrev pub s3_store : Store
    s3_store = record {
      State = Bucket;
      info = λ bucket. info sorter reader bucket;
      save = λ t m bucket. save (envs t) m bucket;
      purge = λ now ttl bucket. (purge (envs now) now ttl bucket).1;
      Holds = BucketHolds;
      CanRead = CanRead reader;
      CanSave = λ t m bucket. IsNamable m × IsTimely (envs t) t;
      info_answers = info_object_answers;
      info_empty = info_object_empty;
      info_held = info_object_held;
      info_greatest = info_object_greatest;
      save_holds = save_object_holds;
      save_keeps = save_object_keeps;
      purge_keeps = purge_object_keeps;
      purge_adds_none = purge_object_adds_none;
    }

    -- The S3 provider implements the contract as far as a bucket of at most a thousand objects goes: after
    -- a save that succeeded, of a snapshot whose instance name has no underscore and whose revision is an int64
    -- that is not negative, and any saves of such and purges within the time to live that follow it, Info answers a
    -- snapshot whose revision is not below the one saved; provided that an upload is stamped with the time of its
    -- save, that there is a session and the objects are listed, and that the key of every object that is
    -- listed has an underscore.
    pub objects_kept :
        (t : ℕ) (m saved : Metadata) (bucket before after : Bucket)
        → IsNamable m
        → IsTimely (envs t) t
        → save (envs t) m bucket ≡ (ok saved, before)
        → Backups s3_store t before after
        → reader.session ≡ true
        → length after ≤ 1000
        → (objects : Objects) → reader.on_list after ≡ some objects
        → Underscored objects
        → (latest : Metadata) × (info sorter reader after ≡ ok latest)
          × (lt_int latest.revision m.revision ≡ false)
    objects_kept t m saved bucket before after namable timely done bs session small objects l u =
        backup_kept s3_store t m saved bucket before after (namable, timely) done bs
          (session, small, (objects, l, u))
