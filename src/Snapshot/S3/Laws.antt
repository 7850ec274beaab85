-- ===== src/Snapshot/S3/Laws.antt =====
-- What `Save` and `Purge` of the S3 provider leave in the bucket.
use etcd_cloud_operator.Prelude.{
  Text, ℕ, ◌+◌, ok, none, some, [], ◌∷◌, Bool, true, false, ◌&&◌, ltb, insert, remove, ◌≡◌, ◌≢◌,
  refl, ◌∙◌, ◌⊎◌, inl, inr, Bool-cases, Option-cases, text_eq, lookup, lookup-remove, any, ◌||◌,
  if◌then◌else◌,
}
use etcd_cloud_operator.Snapshot.{Metadata, filename}
use etcd_cloud_operator.Snapshot.S3.{
  Object, Objects, Bucket, S3Env, save, upload, sized, purge, purge_of, purge_objects,
}

-- What a `Save` that did not fail stored.
pub data Saved (env : S3Env) (m : Metadata) (bucket : Bucket) : Type 0 where
  unchanged :
      (save env m bucket).1 ≡ bucket
      → ((m' : Metadata) → (save env m bucket).0 ≢ ok m')
      → Saved env m bucket
  put :
      (obj : Object)
      → env.uploaded ≡ some obj
      → (save env m bucket).1 ≡ insert (filename m) obj bucket
      → (save env m bucket).0 ≡ ok (sized m env.content_length)
      → Saved env m bucket

-- `Save` fails and leaves the bucket as it was, or it succeeds and its one change is the object named by
-- `Filename`; it does not fail where only the length of the object is not told.
pub save-Saved : (env : S3Env) (m : Metadata) (bucket : Bucket) → Saved env m bucket
unfolding save upload
save-Saved env m bucket = elim (Bool-cases env.session) [
  | inr e ↦ unchanged (rw e refl) (rw e (λ m' h. cc))
  | inl e ↦ elim (Option-cases env.uploaded) [
    | inl f ↦ unchanged (rw (e, f) refl) (rw (e, f) (λ m' h. cc))
    | inr (obj, f) ↦ put obj f (rw (e, f) refl) (rw (e, f) refl)
  ]
]

-- Whether the loop of `Purge` deletes the object of the key.
abbrev pub deletes : S3Env → ℕ → ℕ → Text → Text × Object → Bool
deletes env now ttl key y =
    text_eq y.0 key && (ltb (y.1.last_modified + ttl) now && env.on_delete y.0)

purged_one :
    (old : Bool) (key : Text) (y : Text) (rest : Bool) (bucket : Bucket)
    → (if rest then none else lookup key (if old then remove y bucket else bucket))
      ≡ (if (text_eq y key && old) || rest then none else lookup key bucket)
purged_one old key y true bucket = elim (Bool-cases (text_eq y key && old)) [
  | inl e ↦ rw e refl
  | inr e ↦ rw e refl
]
purged_one false key y false bucket = elim (Bool-cases (text_eq y key)) [
  | inl e ↦ rw e refl
  | inr e ↦ rw e refl
]
purged_one true key y false bucket = elim (Bool-cases (text_eq y key)) [
  | inl e ↦ rw e (lookup-remove y key bucket ∙ rw e refl)
  | inr e ↦ rw e (lookup-remove y key bucket ∙ rw e refl)
]

purged_then :
    (later : Bucket → Bucket) (rest : Bool) (key k : Text)
    → ((b : Bucket) → lookup key (later b) ≡ (if rest then none else lookup key b))
    → (old : Bool) (bucket : Bucket)
    → lookup key (if old then later (remove k bucket) else later bucket)
      ≡ (if (text_eq k key && old) || rest then none else lookup key bucket)
purged_then later rest key k h true bucket = h (remove k bucket) ∙ purged_one true key k rest bucket
purged_then later rest key k h false bucket = h bucket ∙ purged_one false key k rest bucket

-- The loop of `Purge` deletes the objects that are listed, older than the time to live and deletable, and
-- no other.
pub lookup-purge_objects :
    (env : S3Env) (now ttl : ℕ) (objects : Objects) (bucket : Bucket) (key : Text)
    → lookup key (purge_objects env now ttl objects bucket)
      ≡ (if any (deletes env now ttl key) objects then none else lookup key bucket)
unfolding purge_objects
lookup-purge_objects env now ttl [] bucket key = refl
lookup-purge_objects env now ttl ((k, obj) ∷ objects) bucket key =
    purged_then (purge_objects env now ttl objects) (any (deletes env now ttl key) objects) key k
      (λ b. lookup-purge_objects env now ttl objects b key)
      (ltb (obj.last_modified + ttl) now && env.on_delete k) bucket

-- Where there is a session and the objects are listed, `Purge` returns nil; an object is there afterwards
-- just when it was before, and was not one that is listed, older than the time to live and deletable.
pub lookup-purge :
    (env : S3Env) (now ttl : ℕ) (objects : Objects) (bucket : Bucket) (key : Text)
    → env.session ≡ true
    → env.on_list bucket ≡ some objects
    → ((purge env now ttl bucket).0 ≡ ok tt)
      × (lookup key (purge env now ttl bucket).1
          ≡ (if any (deletes env now ttl key) objects then none else lookup key bucket))
unfolding purge purge_of
lookup-purge env now ttl objects bucket key session l =
    rw (session, l) (refl, lookup-purge_objects env now ttl objects bucket key)

-- A purge leaves the bucket as it is, or there are a session and a listing.
pub purge_cases :
    (env : S3Env) (now ttl : ℕ) (bucket : Bucket)
    → ((purge env now ttl bucket).1 ≡ bucket)
      ⊎ ((objects : Objects) × (env.session ≡ true) × (env.on_list bucket ≡ some objects))
unfolding purge purge_of
purge_cases env now ttl bucket = elim (Bool-cases env.session) [
  | inr e ↦ inl (rw e refl)
  | inl e ↦ elim (Option-cases (env.on_list bucket)) [
    | inl f ↦ inl (rw (e, f) refl)
    | inr (objects, f) ↦ inr (objects, e, f)
  ]
]
