-- ===== src/Snapshot/Store/Buckets.antt =====
-- What the listings, purges and saves of a bucket leave of the snapshots that it holds.
use mathlib.Core.List.{Memᴰ}
use mathlib.Core.Option.{none-ne-some, some-injective}
use etcd_cloud_operator.Prelude.{
  Text, ℕ, ℤ, pos, ◌+◌, ◌≤◌, Bool, true, false, Option, none, some, [], ◌∷◌, ok, inl, inr, ◌≡◌,
  refl, sym, ◌∙◌, ap, subst, Bool-cases, text_eq, text_eq_iff, text_eq_refl, insert, lookup,
  lookup-insert, any, ◌||◌, ltb, le→ltb-false, length, if◌then◌else◌,
}
use etcd_cloud_operator.Snapshot.{Metadata, s3, filename}
use etcd_cloud_operator.Snapshot.Filename.{new_metadata-filename}
use etcd_cloud_operator.Snapshot.S3.{Object, Objects, Bucket, S3Env, purge}
use etcd_cloud_operator.Snapshot.S3.Info.{Stores, parsed, Underscored}
use etcd_cloud_operator.Snapshot.S3.Laws.{deletes, lookup-purge, purge_cases}
use etcd_cloud_operator.Snapshot.Store.Files.{IsNamable}

-- What AWS documents of ListObjects: it returns objects of the bucket, and all of them if there are no
-- more than a thousand.
pub record IsListing (env : S3Env) : Type 0 where
  pub present :
      (bucket : Bucket) (objects : Objects) (key : Text) (obj : Object)
      → env.on_list bucket ≡ some objects
      → Memᴰ (key, obj) objects
      → lookup key bucket ≡ some obj
  pub complete :
      (bucket : Bucket) (objects : Objects) (key : Text) (obj : Object)
      → env.on_list bucket ≡ some objects
      → length bucket ≤ 1000
      → lookup key bucket ≡ some obj
      → Memᴰ (key, obj) objects

-- An object of the bucket is a snapshot of the revision, and was stored at the time.
abbrev pub BucketHolds : Bucket → ℤ → ℕ → Type 0
BucketHolds bucket r t =
    (key : Text) × (obj : Object) × (m : Metadata) × (lookup key bucket ≡ some obj)
    × (parsed key obj ≡ ok m)
    × (m.revision ≡ r)
    × (obj.last_modified ≡ t)

-- A listing of a bucket that fits, whose keys have an underscore, can be had.
abbrev pub CanRead : S3Env → Bucket → Type 0
CanRead env bucket =
    (env.session ≡ true)
    × (length bucket ≤ 1000)
    × ((objects : Objects) × (env.on_list bucket ≡ some objects) × Underscored objects)

-- An object that is uploaded is stored at the time of the save.
abbrev pub IsTimely : S3Env → ℕ → Type 0
IsTimely env t = (obj : Object) → env.uploaded ≡ some obj → obj.last_modified ≡ t

pub put_holds :
    (m : Metadata) (obj : Object) (bucket : Bucket)
    → IsNamable m
    → BucketHolds (insert (filename m) obj bucket) m.revision obj.last_modified
put_holds m obj bucket (k, e, b, plain) = (
  filename m,
  obj,
  record { name = filename m; revision = pos k; size = obj.size; source = s3 },
  lookup-insert (filename m) (filename m) obj bucket ∙ rw (text_eq_refl (filename m)) refl,
  new_metadata-filename m k 0 obj.size s3 e b plain,
  sym e,
  refl,
)

none_deleted :
    (p : Text × Object → Bool) (objects : Objects)
    → ((y : Text × Object) → Memᴰ y objects → p y ≡ false)
    → any p objects ≡ false
none_deleted p [] h = refl
none_deleted p (y ∷ objects) h =
    ap (λ b. b || any p objects) (h y (Memᴰ.head refl))
    ∙ none_deleted p objects (λ z i. h z (Memᴰ.tail i))

-- A listed object of the key is the one that is held, so it is too young to be deleted.
spared :
    (env : S3Env) (now ttl : ℕ) (bucket : Bucket) (objects : Objects) (key : Text) (obj : Object)
    → IsListing env
    → env.on_list bucket ≡ some objects
    → lookup key bucket ≡ some obj
    → now ≤ obj.last_modified + ttl
    → (y : Text × Object) → Memᴰ y objects
    → deletes env now ttl key y ≡ false
spared env now ttl bucket objects key obj listing l held young y i =
    elim (Bool-cases (text_eq y.0 key)) [
      | inr e ↦ rw e refl
      | inl e ↦
          let here = listing.present bucket objects y.0 y.1 l i in
          let named = (text_eq_iff y.0 key).0 e in
          let same : y.1 ≡ obj =
            some-injective _ _ (sym here ∙ (ap (λ k. lookup k bucket) named ∙ held)) in
          let kept : ltb (y.1.last_modified + ttl) now ≡ false =
            le→ltb-false _ _ (subst (λ o. now ≤ o.last_modified + ttl) (sym same) young) in
          rw (e, kept) refl
    ]

pub lookup-purged :
    (env : S3Env) (now ttl : ℕ) (bucket : Bucket) (key : Text) (obj : Object)
    → IsListing env
    → lookup key bucket ≡ some obj
    → now ≤ obj.last_modified + ttl
    → lookup key (purge env now ttl bucket).1 ≡ some obj
lookup-purged env now ttl bucket key obj listing held young =
    elim (purge_cases env now ttl bucket) [
      | inl same ↦ ap (lookup key) same ∙ held
      | inr (objects, session, l) ↦
          (lookup-purge env now ttl objects bucket key session l).1
          ∙ (ap (λ b. if b then none else lookup key bucket)
                (none_deleted (deletes env now ttl key) objects
                  (spared env now ttl bucket objects key obj listing l held young))
              ∙ held)
    ]

if_none :
    (b : Bool) (o : Option Object) (obj : Object)
    → (if b then none else o) ≡ some obj
    → o ≡ some obj
if_none true o obj h = absurd (none-ne-some obj h)
if_none false o obj h = h

pub purged-lookup :
    (env : S3Env) (now ttl : ℕ) (bucket : Bucket) (key : Text) (obj : Object)
    → lookup key (purge env now ttl bucket).1 ≡ some obj
    → lookup key bucket ≡ some obj
purged-lookup env now ttl bucket key obj h = elim (purge_cases env now ttl bucket) [
  | inl same ↦ ap (lookup key) (sym same) ∙ h
  | inr (objects, session, l) ↦
      if_none (any (deletes env now ttl key) objects) (lookup key bucket) obj
        (sym ((lookup-purge env now ttl objects bucket key session l).1) ∙ h)
]

pub stored_lookup :
    (env : S3Env) (bucket : Bucket) (objects : Objects) (m : Metadata)
    → IsListing env
    → env.on_list bucket ≡ some objects
    → Stores objects m
    → (t : ℕ) × BucketHolds bucket m.revision t
stored_lookup env bucket objects m listing l s = (
  s.found.last_modified,
  (
    s.key,
    s.found,
    m,
    listing.present bucket objects s.key s.found l s.listed,
    s.parses,
    refl,
    refl,
  ),
)

pub lookup_stored :
    (env : S3Env) (bucket : Bucket) (objects : Objects) (key : Text) (obj : Object) (m : Metadata)
    → IsListing env
    → env.on_list bucket ≡ some objects
    → length bucket ≤ 1000
    → lookup key bucket ≡ some obj
    → parsed key obj ≡ ok m
    → Stores objects m
lookup_stored env bucket objects key obj m listing l small held p = record {
  key = key;
  found = obj;
  listed = listing.complete bucket objects key obj l small held;
  parses = p;
}
