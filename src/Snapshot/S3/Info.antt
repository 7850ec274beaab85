-- ===== src/Snapshot/S3/Info.antt =====
-- What `Info` of the S3 provider returns, for every listing.
use mathlib.Core.List.{Memᴰ, not-mem-nil, mem-cons}
use mathlib.Core.Logic.{∥∥₁_map}
use mathlib.Core.Logic.Or
use etcd_cloud_operator.Prelude.{
  Text, negsuc, lt_int, Outcome, ok, err, panic, none, some, List, [], ◌∷◌, true, false, ◌≡◌, ◌≢◌,
  refl, ap, subst, ok-injective, sym, ◌∙◌, ◌⊎◌, inl, inr, Mem, All, if◌then◌else◌,
}
use etcd_cloud_operator.Snapshot.{Metadata, ParseError, s3, new_metadata, less, revision_piece}
use etcd_cloud_operator.Snapshot.Filename.{new_metadata-ne-panic}
use etcd_cloud_operator.Snapshot.Latest.{
  SnapshotError, no_snapshot, MetadataSort, latest, keep, latest-greatest,
}
use etcd_cloud_operator.Snapshot.Latest.Keep.{
  passed_over, kept, keep-Turn, keep_head, keep_tail, keep_total, answer_cases,
}
use etcd_cloud_operator.Snapshot.S3.{
  Object, Objects, Bucket, S3Env, collect, select, info_of, info, no_session,
}

-- The metadata that the loop of `Info` makes of an object.
abbrev pub parsed : Text → Object → Outcome ParseError Metadata
parsed key obj = new_metadata key (negsuc 0) obj.size s3

-- An object that is a snapshot with this metadata.
pub record Stores (objects : Objects) (m : Metadata) : Type 0 where
  pub key : Text
  pub found : Object
  pub listed : Memᴰ (key, found) objects
  pub parses : parsed key found ≡ ok m

Stores-cons :
    {objects : Objects} {m : Metadata} (e : Text × Object)
    → Stores objects m
    → Stores (e ∷ objects) m
Stores-cons e s = record {
  key = s.key;
  found = s.found;
  listed = Memᴰ.tail s.listed;
  parses = s.parses;
}

collect-Stores :
    (objects : Objects) (ms : List Metadata) (m : Metadata)
    → collect objects ≡ ok ms
    → Mem m ms
    → ∥ Stores objects m ∥₁
unfolding collect
collect-Stores [] ms m h i = absurd (not-mem-nil (subst (Mem m) (ok-injective (sym h)) i))
collect-Stores ((key, obj) ∷ objects) ms m h i = elim (keep-Turn _ _ ms h) [
  | passed_over e _ k ↦ ∥∥₁_map (collect-Stores objects ms m k i) (Stores-cons (key, obj))
  | kept n rest p k q ↦
      Or.elim squash₁ (mem-cons.0 (rw q at i))
        (λ e. ∣ record { key = key; found = obj; listed = Memᴰ.head refl; parses = rw e p } ∣₁)
        (λ later. ∥∥₁_map (collect-Stores objects rest m k later) (Stores-cons (key, obj)))
]

mem-collect :
    (objects : Objects) (ms : List Metadata) (m : Metadata) (x : Text × Object)
    → collect objects ≡ ok ms
    → Memᴰ x objects
    → parsed x.0 x.1 ≡ ok m
    → Mem m ms
unfolding collect
mem-collect [] ms m x h i p = elim i [ ]
mem-collect (y ∷ objects) ms m x h (Memᴰ.head e) p = keep_head _ _ ms m h (rw e at p)
mem-collect (y ∷ objects) ms m x h (Memᴰ.tail i) p =
    keep_tail _ _ ms m h (λ rest r. mem-collect objects rest m x r i p)

-- Every key has an underscore.
abbrev pub Underscored : Objects → Type 0
Underscored = All (λ (x : Text × Object). revision_piece x.0 ≢ none)

collect_total :
    (objects : Objects) → Underscored objects → (ms : List Metadata) × (collect objects ≡ ok ms)
unfolding collect
collect_total [] u = ([], refl)
collect_total (y ∷ objects) u =
    let (ms, h) = collect_total objects u.1 in
    let (ns, k) =
      keep_total (parsed y.0 y.1) ms (new_metadata-ne-panic y.0 (negsuc 0) y.1.size s3 u.0) in
    (ns, ap (keep (parsed y.0 y.1)) h ∙ k)

select-ok :
    (sorter : MetadataSort) (r : Outcome SnapshotError (List Metadata)) (m : Metadata)
    → select sorter r ≡ ok m
    → (ms : List Metadata) × (r ≡ ok ms) × (latest sorter ms ≡ ok m)
unfolding select
select-ok sorter (ok ms) m h = (ms, refl, h)
select-ok sorter (err e) m h = absurd (cc)
select-ok sorter panic m h = absurd (cc)

info_listed :
    (sorter : MetadataSort) (env : S3Env) (bucket : Bucket) (objects : Objects)
    → env.session ≡ true
    → env.on_list bucket ≡ some objects
    → info sorter env bucket ≡ select sorter (collect objects)
unfolding info info_of
info_listed sorter env bucket objects session l =
    ap (λ b. if b then info_of sorter (env.on_list bucket) else err no_session) session
    ∙ ap (info_of sorter) l

-- What `Info` answers is the metadata of a listed object, and no listed object has a higher revision.
pub info-greatest :
    (sorter : MetadataSort) (env : S3Env) (bucket : Bucket) (objects : Objects) (m : Metadata)
    → env.session ≡ true
    → env.on_list bucket ≡ some objects
    → info sorter env bucket ≡ ok m
    → ∥ Stores objects m ∥₁
      × ((n : Metadata) → Stores objects n → lt_int m.revision n.revision ≡ false)
unfolding less
info-greatest sorter env bucket objects m session l h =
    let (ms, c, e) =
      select-ok sorter (collect objects) m
        (sym (info_listed sorter env bucket objects session l) ∙ h) in
    let (i, greatest) = latest-greatest sorter ms m e in
    (
      collect-Stores objects ms m c i,
      λ n s. greatest n (mem-collect objects ms n (s.key, s.found) c s.listed s.parses),
    )

-- Where every listed key has an underscore, `Info` does not panic: it answers a snapshot, or
-- `ErrNoSnapshot`, and the latter only if no listed object is one.
pub info_total :
    (sorter : MetadataSort) (env : S3Env) (bucket : Bucket) (objects : Objects)
    → env.session ≡ true
    → env.on_list bucket ≡ some objects
    → Underscored objects
    → ((m : Metadata) × (info sorter env bucket ≡ ok m))
      ⊎ ((info sorter env bucket ≡ err no_snapshot) × ((m : Metadata) → ¬ Stores objects m))
unfolding select
info_total sorter env bucket objects session l u =
    let (ms, c) = collect_total objects u in
    let listed = info_listed sorter env bucket objects session l ∙ ap (select sorter) c in
    elim (answer_cases sorter ms) [
      | inl (m, e) ↦ inl (m, listed ∙ e)
      | inr (e, f) ↦ inr (listed ∙ f, none_stored ms c e)
    ]
  where
    none_stored :
        (ms : List Metadata)
        → collect objects ≡ ok ms
        → ms ≡ []
        → (m : Metadata) → ¬ Stores objects m
    none_stored ms c e m s =
        not-mem-nil
          (subst (Mem m) e (mem-collect objects ms m (s.key, s.found) c s.listed s.parses))
