-- ===== src/Etcd/Server/Membership/Joined.antt =====
-- pkg/etcd/server.go: what Join leaves behind when it succeeds.
use etcd_cloud_operator.Prelude.{
  ℕ, Bool, true, false, List, [], ◌∷◌, Outcome, ok, err, panic, ◌≡◌, ◌⊎◌, inl, inr, refl, sym,
  subst, ◌∙◌, ap, Bool-cases,
}
use etcd_cloud_operator.Snapshot.{Metadata}
use etcd_cloud_operator.Snapshot.Latest.{SnapshotError}
use etcd_cloud_operator.Etcd.Config.{TlsInfo}
use etcd_cloud_operator.Etcd.Effects.{
  Member, Env, World, ServerError, caught, attempt, deferring, bind-ok, err-ne-ok, panic-ne-ok,
  remove_all, unlock,
}
use etcd_cloud_operator.Etcd.Server.{ServerConfig, own_peer_url, survives, join_lock}
use etcd_cloud_operator.Etcd.Server.Start.{start_server}
use etcd_cloud_operator.Etcd.Server.Start.Laws.{start_server-ok}
use etcd_cloud_operator.Etcd.Server.Membership.{
  add_member, remove_member, removing, rejoin, dropping, start_added, join_as_new, join, can_rejoin,
  try_rejoin, unless_rejoined, rejoin_or_add, join_members, with_local, read_local, member_id_of,
  cluster_purls, with_purls, listed,
}

inl-ne-inr :
    {v w : World} {e : ServerError}
    → ¬ (
        ◌≡◌ {A = Outcome ServerError (ServerError ⊎ Unit {0}) × World}
          (ok (inl e), v)
          (ok (inr tt), w))
inl-ne-inr {v} {w} {e} h =
    let p : ◌≡◌ {A = Outcome ServerError (ServerError ⊎ Unit {0})} (ok (inl e)) (ok (inr tt)) =
      ap (λ s. s.0) h in
    cc

false-ne-true :
    {v w : World} → ¬ (◌≡◌ {A = Outcome ServerError Bool × World} (ok false, v) (ok true, w))
false-ne-true h =
    let p : ◌≡◌ {A = Outcome ServerError Bool} (ok false) (ok true) = ap (λ s. s.0) h in cc

-- A start that went well, seen through `attempt`.
caught-inr :
    (r : Outcome ServerError (Unit {0}) × World) (u : World)
    → caught r ≡ (ok (inr tt), u)
    → r ≡ (ok tt, u)
unfolding caught
caught-inr (ok a, w) u h = ap (λ s. (ok tt, s.1)) h
caught-inr (err e, w) u h = absurd (inl-ne-inr h)
caught-inr (panic, w) u h = absurd (panic-ne-ok h)

module _ (env : Env) (tls_empty : TlsInfo → Bool) (cfg : ServerConfig) where
  attempted-running :
      (w u : World) (r : ServerError ⊎ Unit {0})
      → attempt (start_server env tls_empty cfg) w ≡ (ok r, u)
      → r ≡ inr tt
      → u.is_running ≡ true
  unfolding attempt
  attempted-running w u (inl e) h i = absurd (cc)
  attempted-running w u (inr done) h i =
      ap (λ x. x.is_running) (start_server-ok env tls_empty cfg w u (caught-inr _ u h))

  removing-true :
      (id : ℕ) (r : ServerError ⊎ Unit {0}) (w v : World)
      → removing env tls_empty cfg id r w ≡ (ok true, v)
      → (r ≡ inr tt) × (w ≡ v)
  unfolding removing
  removing-true id (inl e) w v h =
      let (_, u, _, k) =
        bind-ok (attempt (remove_member env cfg.name id)) (λ _ x. (ok false, x)) w h in
      absurd (false-ne-true k)
  removing-true id (inr done) w v h = (refl, ap (λ s. s.1) h)

  try_rejoin-running :
      (members : List Member) (local : Outcome SnapshotError Metadata) (w v : World)
      → try_rejoin env tls_empty cfg members local w ≡ (ok true, v)
      → v.is_running ≡ true
  unfolding try_rejoin rejoin
  try_rejoin-running members local w v h =
      elim (Bool-cases (can_rejoin env tls_empty cfg members local)) [
        | inl e ↦
            let id = member_id_of cfg.name members in
            let (r, u, p, q) =
              bind-ok (attempt (start_server env tls_empty cfg)) (removing env tls_empty cfg id) w
                (rw e at h) in
            let (is_inr, same) = removing-true id r u v q in
            subst (λ x. x.is_running ≡ true) same (attempted-running w u r p is_inr)
        | inr e ↦ absurd (false-ne-true (rw e at h))
      ]

  -- The same, with the answer as a variable.
  try_rejoin_as :
      (members : List Member) (local : Outcome SnapshotError Metadata) (w v : World) (b : Bool)
      → try_rejoin env tls_empty cfg members local w ≡ (ok b, v)
      → b ≡ true
      → v.is_running ≡ true
  try_rejoin_as members local w v true h e = try_rejoin-running members local w v h
  try_rejoin_as members local w v false h e = absurd (cc)

  dropping-ok :
      (id : ℕ) (r : ServerError ⊎ Unit {0}) (w v : World)
      → dropping env tls_empty cfg id r w ≡ (ok tt, v)
      → (r ≡ inr tt) × (w ≡ v)
  unfolding dropping
  dropping-ok id (inl e) w v h =
      let (_, u, _, k) =
        bind-ok (attempt (remove_member env cfg.name id)) (λ _ x. (err e, x)) w h in
      absurd (err-ne-ok k)
  dropping-ok id (inr done) w v h = (refl, ap (λ s. s.1) h)

  start_added-running :
      (id : ℕ) (w v : World) → start_added env tls_empty cfg id w ≡ (ok tt, v) → v.is_running ≡ true
  unfolding start_added
  start_added-running id w v h =
      let (r, u, p, q) =
        bind-ok (attempt (start_server env tls_empty cfg)) (dropping env tls_empty cfg id) w h in
      let (is_inr, same) = dropping-ok id r u v q in
      subst (λ x. x.is_running ≡ true) same (attempted-running w u r p is_inr)

  join_as_new-running :
      (w v : World) → join_as_new env tls_empty cfg w ≡ (ok tt, v) → v.is_running ≡ true
  unfolding join_as_new deferring
  join_as_new-running w v h =
      let (id, u, _, q) =
        bind-ok (add_member env cfg.name (own_peer_url tls_empty cfg))
          (λ id. deferring (start_added env tls_empty cfg id) (◌∷◌ (unlock (join_lock cfg.name))))
          (record w { trace = remove_all cfg.data_dir ∷ w.trace }) h in
      let body = start_added env tls_empty cfg id u in
      sym (ap (λ s. s.1.is_running) q) ∙ start_added-running id u body.1 (ap (λ s. (s.0, body.1)) q)

  unless_rejoined-running :
      (b : Bool) (w v : World)
      → (b ≡ true → w.is_running ≡ true)
      → unless_rejoined env tls_empty cfg b w ≡ (ok tt, v)
      → v.is_running ≡ true
  unfolding unless_rejoined
  unless_rejoined-running true w v i h = sym (ap (λ s. s.1.is_running) h) ∙ i refl
  unless_rejoined-running false w v i h = join_as_new-running w v h

  with_local-running :
      (members : List Member) (local : Outcome SnapshotError Metadata) (w v : World)
      → with_local env tls_empty cfg members local w ≡ (ok tt, v)
      → v.is_running ≡ true
  unfolding with_local rejoin_or_add
  with_local-running members local w v h =
      let (_, x, _, k) =
        bind-ok (survives local) (λ _. rejoin_or_add env tls_empty cfg members local) w h in
      let (b, u, p, q) =
        bind-ok (try_rejoin env tls_empty cfg members local) (unless_rejoined env tls_empty cfg) x
          k in
      unless_rejoined-running b u v (try_rejoin_as members local x u b p) q

  -- A `Join` that succeeded leaves etcd running.
  pub join-running : (w v : World) → join env tls_empty cfg w ≡ (ok tt, v) → v.is_running ≡ true
  unfolding join join_members read_local
  join-running w v h =
      let (members, x, _, k) =
        bind-ok (listed (env.on_member_list w.trace)) (join_members env tls_empty cfg) w h in
      let (_, y, _, l) =
        bind-ok (with_purls (cluster_purls ((cfg.name, own_peer_url tls_empty cfg) ∷ []) members))
          (λ _. read_local env tls_empty cfg members) x k in
      with_local-running members (env.on_local_info y.trace cfg.data_dir) y v l
