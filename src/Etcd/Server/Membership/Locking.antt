-- ===== src/Etcd/Server/Membership/Locking.antt =====
-- pkg/etcd/server.go: the lock of an instance's name during Join.
use etcd_cloud_operator.Prelude.{
  Text, codes, ℕ, Bool, true, false, Option, none, some, List, [], ◌∷◌, Map, Outcome, ok, err,
  panic, ◌≡◌, ◌⊎◌, inl, inr, refl, subst, ap, Bool-cases, Option-cases, text_eq_refl,
}
use etcd_cloud_operator.Snapshot.{Metadata}
use etcd_cloud_operator.Snapshot.Latest.{SnapshotError}
use etcd_cloud_operator.Etcd.Config.{TlsInfo}
use etcd_cloud_operator.Etcd.Effects.{
  Member, remove_all, lock, unlock, member_add, Start, refused, not_ready, ready, failed, Env,
  World, ServerError, attempt,
}
use etcd_cloud_operator.Etcd.Server.{ServerConfig, own_peer_url, join_lock}
use etcd_cloud_operator.Etcd.Server.Start.{start_server, set_cluster}
use etcd_cloud_operator.Etcd.Server.Start.Laws.{
  start_server-StartsAs, StartsAs, start_call, after_start,
}
use etcd_cloud_operator.Etcd.Server.Membership.{
  remove_member, removing, rejoin, join_as_new, join, can_rejoin, try_rejoin, unless_rejoined,
  rejoin_or_add, join_members, with_local, read_local, member_id_of, cluster_purls, with_purls,
  listed,
}
use etcd_cloud_operator.Etcd.Server.Membership.Locks.{
  held, IsExclusive, Frees, bind-Frees, attempt-Frees,
}

module _ (env : Env) (tls_empty : TlsInfo → Bool) (cfg : ServerConfig) where
  abbrev pub after_add : World → World
  after_add w = record w {
    trace =
        member_add (own_peer_url tls_empty cfg)
        ∷ lock (join_lock cfg.name)
        ∷ remove_all cfg.data_dir
        ∷ w.trace;
  }

  still_held :
      (w : World)
      → held (join_lock cfg.name) (start_call env tls_empty cfg (after_add w) ∷ (after_add w).trace)
        ≡ true
  unfolding held
  still_held w = rw (text_eq_refl (join_lock cfg.name))

  start_refused :
      (w : World)
      → env.on_start (start_call env tls_empty cfg w ∷ w.trace) ≡ refused
      → start_server env tls_empty cfg w ≡ (
        err (failed (codes "failed to start etcd")),
        after_start env tls_empty cfg w w.is_running,
      )
  start_refused w e =
      subst (λ s. StartsAs env tls_empty cfg w s (start_server env tls_empty cfg w)) e
        (start_server-StartsAs env tls_empty cfg w)

  -- Where the server of a member that was just added fails to start, `Join` means to remove the
  -- member again; but it still holds the lock that RemoveMember asks for. With an exclusive lock the
  -- removal is never made: the member stays in the cluster.
  pub join_as_new_leaks :
      (w : World) (id : ℕ)
      → IsExclusive env
      → env.on_lock (remove_all cfg.data_dir ∷ w.trace) (join_lock cfg.name) ≡ true
      → env.on_member_add (after_add w).trace ≡ some id
      → env.on_start (start_call env tls_empty cfg (after_add w) ∷ (after_add w).trace) ≡ refused
      → join_as_new env tls_empty cfg w ≡ (
        err (failed (codes "failed to start etcd")),
        record w {
          trace =
              unlock (join_lock cfg.name)
              ∷ start_call env tls_empty cfg (after_add w)
              ∷ (after_add w).trace;
        },
      )
  unfolding join_as_new
  join_as_new_leaks w id exclusive l a s =
      let shut =
        exclusive (start_call env tls_empty cfg (after_add w) ∷ (after_add w).trace)
          (join_lock cfg.name) (still_held w) in
      rw (l, a, start_refused (after_add w) s, shut) refl

module _ (env : Env) (tls_empty : TlsInfo → Bool) (cfg : ServerConfig) where
  abbrev own_lock : Text
  own_lock = join_lock cfg.name

  start_server-trace :
      (w : World)
      → (start_server env tls_empty cfg w).1.trace ≡ start_call env tls_empty cfg w ∷ w.trace
  start_server-trace w = by_start _ (start_server-StartsAs env tls_empty cfg w)
    where
      by_start :
          (s : Start)
          → StartsAs env tls_empty cfg w s (start_server env tls_empty cfg w)
          → (start_server env tls_empty cfg w).1.trace ≡ start_call env tls_empty cfg w ∷ w.trace
      by_start refused k = ap (λ r. r.1.trace) k
      by_start not_ready k = ap (λ r. r.1.trace) k
      by_start ready k = ap (λ r. r.1.trace) k

  start_server-Frees : Frees own_lock (start_server env tls_empty cfg)
  unfolding held
  start_server-Frees w h = rw (start_server-trace w) h

  remove_member-Frees : (id : ℕ) → Frees own_lock (remove_member env cfg.name id)
  unfolding remove_member held
  remove_member-Frees id w h = elim (Bool-cases (env.on_lock w.trace own_lock)) [
    | inl e ↦ rw e (rw (text_eq_refl own_lock))
    | inr e ↦ rw e h
  ]

  removing-Frees :
      (id : ℕ) (r : ServerError ⊎ Unit {0}) → Frees own_lock (removing env tls_empty cfg id r)
  unfolding removing
  removing-Frees id (inl e) w h =
      bind-Frees own_lock (attempt (remove_member env cfg.name id)) _
        (attempt-Frees own_lock (remove_member env cfg.name id) (remove_member-Frees id))
        (λ a v k. k) w h
  removing-Frees id (inr done) w h = h

  rejoin-Frees : (id : ℕ) → Frees own_lock (rejoin env tls_empty cfg id)
  unfolding rejoin
  rejoin-Frees id =
      bind-Frees own_lock (attempt (start_server env tls_empty cfg)) (removing env tls_empty cfg id)
        (attempt-Frees own_lock (start_server env tls_empty cfg) start_server-Frees)
        (removing-Frees id)

  join_as_new-Frees : Frees own_lock (join_as_new env tls_empty cfg)
  unfolding join_as_new held
  join_as_new-Frees w h =
      let t = remove_all cfg.data_dir ∷ w.trace in
      elim (Bool-cases (env.on_lock t own_lock)) [
        | inl e ↦ elim (Option-cases (env.on_member_add (after_add env tls_empty cfg w).trace)) [
          | inl f ↦ rw (e, f) (rw (text_eq_refl own_lock))
          | inr (id, f) ↦ rw (e, f) (rw (text_eq_refl own_lock))
        ]
        | inr e ↦ rw e h
      ]

  try_rejoin-Frees :
      (members : List Member) (local : Outcome SnapshotError Metadata)
      → Frees own_lock (try_rejoin env tls_empty cfg members local)
  unfolding try_rejoin
  try_rejoin-Frees members local w h =
      elim (Bool-cases (can_rejoin env tls_empty cfg members local)) [
        | inl e ↦ rw e (rejoin-Frees (member_id_of cfg.name members) w h)
        | inr e ↦ rw e h
      ]

  unless_rejoined-Frees : (b : Bool) → Frees own_lock (unless_rejoined env tls_empty cfg b)
  unfolding unless_rejoined
  unless_rejoined-Frees true w h = h
  unless_rejoined-Frees false w h = join_as_new-Frees w h

  rejoin_or_add-Frees :
      (members : List Member) (local : Outcome SnapshotError Metadata)
      → Frees own_lock (rejoin_or_add env tls_empty cfg members local)
  unfolding rejoin_or_add
  rejoin_or_add-Frees members local =
      bind-Frees own_lock (try_rejoin env tls_empty cfg members local)
        (unless_rejoined env tls_empty cfg) (try_rejoin-Frees members local) unless_rejoined-Frees

  with_local-Frees :
      (members : List Member) (local : Outcome SnapshotError Metadata)
      → Frees own_lock (with_local env tls_empty cfg members local)
  unfolding with_local
  with_local-Frees members (ok l) w h = rejoin_or_add-Frees members (ok l) w h
  with_local-Frees members (err e) w h = rejoin_or_add-Frees members (err e) w h
  with_local-Frees members panic w h = h

  read_local-Frees : (members : List Member) → Frees own_lock (read_local env tls_empty cfg members)
  unfolding read_local
  read_local-Frees members w h =
      with_local-Frees members (env.on_local_info w.trace cfg.data_dir) w h

  with_purls-Frees : (o : Option (Map Text)) → Frees own_lock (with_purls o)
  unfolding with_purls set_cluster
  with_purls-Frees none w h = h
  with_purls-Frees (some purls) w h = h

  join_members-Frees :
      (members : List Member) → Frees own_lock (join_members env tls_empty cfg members)
  unfolding join_members
  join_members-Frees members =
      bind-Frees own_lock
        (with_purls (cluster_purls ((cfg.name, own_peer_url tls_empty cfg) ∷ []) members))
        (λ _. read_local env tls_empty cfg members) (with_purls-Frees _)
        (λ _. read_local-Frees members)

  listed-Frees : (o : Option (List Member)) → Frees own_lock (listed o)
  unfolding listed
  listed-Frees none w h = h
  listed-Frees (some members) w h = h

  -- However `Join` ends, it does not leave the lock of the instance's name held.
  pub join-Frees :
      (w : World)
      → held (join_lock cfg.name) w.trace ≡ false
      → held (join_lock cfg.name) (join env tls_empty cfg w).1.trace ≡ false
  unfolding join
  join-Frees w h =
      bind-Frees own_lock (listed (env.on_member_list w.trace)) (join_members env tls_empty cfg)
        (listed-Frees _) join_members-Frees w h
