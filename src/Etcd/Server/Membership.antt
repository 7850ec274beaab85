-- ===== src/Etcd/Server/Membership.antt =====
-- pkg/etcd/server.go: Join, with the client's Lock, AddMember and RemoveMember (pkg/etcd/client.go).
pub mod Locks
pub mod Locking
pub mod Listing
pub mod Joined
pub mod Rejoined
use etcd_cloud_operator.Prelude.{
  Text, codes, ℕ, zero, suc, ℤ, Bool, true, false, not, ◌&&◌, Option, none, some, List, [], ◌∷◌,
  ◌++◌, Map, insert, Outcome, ok, err, panic, ◌⊎◌, inl, inr, text_eq, if◌then◌else◌, ◌==◌,
}
use etcd_cloud_operator.Snapshot.{Metadata}
use etcd_cloud_operator.Snapshot.Latest.{SnapshotError}
use etcd_cloud_operator.Etcd.Config.{TlsInfo}
use etcd_cloud_operator.Etcd.Effects.{
  Member, remove_all, lock, unlock, member_add, member_remove, Removal, removed, not_found,
  refused as removal_refused, ServerError, failed, Env, World, M, and_then, ◌>>=◌, ◌>>◌, pure,
  throw, crash, call, ask, attempt, deferring,
}
use etcd_cloud_operator.Etcd.Server.{
  ServerConfig, own_peer_url, value_of, error_of, is_some, survives, join_lock,
}
use etcd_cloud_operator.Etcd.Server.Start.{start_server, set_cluster}

-- `Lock`: the lock is held once it returns without an error. The function that it returns unlocks it and closes
-- its session; that these may fail, which the code does not look at, is not modelled.
acquire : Env → Text → M (Unit {0})
acquire env key = do
  acquired ← ask (λ t. env.on_lock t key)
  if acquired then call (lock key) else throw (failed (codes "failed to acquire lock"))

added : Text → Option ℕ → M ℕ
added key none = do call (unlock key); throw (failed (codes "failed to add member"))
added key (some id) = pure id

-- `AddMember`: the caller is left to unlock, unless the member could not be added.
unfoldable pub add_member : Env → Text → Text → M ℕ
unfolding acquire added
add_member env name url = do
  acquire env (join_lock name)
  call (member_add url)
  id ← ask env.on_member_add
  added (join_lock name) id

removal : Removal → M (Unit {0})
removal removed = pure tt
removal not_found = pure tt
removal removal_refused = throw (failed (codes "failed to remove member"))

-- `RemoveMember`: a member that is gone already is no error.
unfoldable pub remove_member : Env → Text → ℕ → M (Unit {0})
unfolding acquire removal deferring
remove_member env name id = do
  acquire env (join_lock name)
  deferring (do call (member_remove id); r ← ask env.on_member_remove; removal r)
      (◌∷◌ (unlock (join_lock name)))

listed : Option (List Member) → M (List Member)
listed none = throw (failed (codes "failed to list cluster's members"))
listed (some members) = pure members

-- The peer URLs of the cluster: ours, and the first one of each member that has a name. A named
-- member without a URL panics.
unfoldable pub cluster_purls : Map Text → List Member → Option (Map Text)
cluster_purls purls [] = some purls
cluster_purls purls (m ∷ ms) = elim m.peer_urls [
  | [] ↦ if text_eq m.name [] then cluster_purls purls ms else none
  | url ∷ urls ↦ cluster_purls (if text_eq m.name [] then purls else insert m.name url purls) ms
]

-- The id of the first member of that name, and 0 if there is none.
unfoldable pub member_id_of : Text → List Member → ℕ
member_id_of name [] = 0
member_id_of name (m ∷ ms) = if text_eq name m.name then m.id else member_id_of name ms

with_purls : Option (Map Text) → M (Unit {0})
with_purls none = crash
with_purls (some purls) = set_cluster (codes "existing") purls

module _ (env : Env) (tls_empty : TlsInfo → Bool) (cfg : ServerConfig) where
  removing : ℕ → ServerError ⊎ Unit {0} → M Bool
  unfolding remove_member attempt
  removing id (inl e) = do ignored ← attempt (remove_member env cfg.name id); pure false
  removing id (inr done) = pure true

  -- The attempt under the existing identity; true if it succeeded. Otherwise the member is removed,
  -- or an attempt is made to.
  pub rejoin : ℕ → M Bool
  unfolding removing start_server
  rejoin id = do r ← attempt (start_server env tls_empty cfg); removing id r

  dropping : ℕ → ServerError ⊎ Unit {0} → M (Unit {0})
  unfolding remove_member attempt
  dropping id (inl e) = do ignored ← attempt (remove_member env cfg.name id); throw e
  dropping id (inr done) = pure tt

  start_added : ℕ → M (Unit {0})
  unfolding dropping start_server
  start_added id = do r ← attempt (start_server env tls_empty cfg); dropping id r

  -- The rest of `Join`, as a new member: the lock is released when it returns.
  unfoldable pub join_as_new : M (Unit {0})
  unfolding start_added add_member deferring
  join_as_new = do
    call (remove_all cfg.data_dir)
    id ← add_member env cfg.name (own_peer_url tls_empty cfg)
    deferring (start_added id) (◌∷◌ (unlock (join_lock cfg.name)))

  -- Whether we are listed as a member and have local data.
  abbrev pub can_rejoin : List Member → Outcome SnapshotError Metadata → Bool
  can_rejoin members local =
      not (member_id_of cfg.name members == 0) && not (is_some (error_of local))

  try_rejoin : List Member → Outcome SnapshotError Metadata → M Bool
  unfolding rejoin
  try_rejoin members local =
      if can_rejoin members local then rejoin (member_id_of cfg.name members) else pure false

  unless_rejoined : Bool → M (Unit {0})
  unfolding join_as_new
  unless_rejoined rejoined = if rejoined then pure tt else join_as_new

  rejoin_or_add : List Member → Outcome SnapshotError Metadata → M (Unit {0})
  unfolding try_rejoin unless_rejoined
  rejoin_or_add members local = try_rejoin members local >>= unless_rejoined

  with_local : List Member → Outcome SnapshotError Metadata → M (Unit {0})
  unfolding rejoin_or_add
  with_local members local = survives local >> rejoin_or_add members local

  read_local : List Member → M (Unit {0})
  unfolding with_local
  read_local members = ask (λ t. env.on_local_info t cfg.data_dir) >>= with_local members

  join_members : List Member → M (Unit {0})
  unfolding read_local with_purls set_cluster
  join_members members =
      with_purls (cluster_purls ((cfg.name, own_peer_url tls_empty cfg) ∷ []) members)
      >> read_local members

  -- `Join`.
  unfoldable pub join : M (Unit {0})
  unfolding join_members listed
  join = do answer ← ask env.on_member_list; members ← listed answer; join_members members
