-- ===== src/Etcd/Server/Start/Laws.antt =====
-- What Seed, Restore and startServer leave behind.
use etcd_cloud_operator.Prelude.{
  Text, codes, Bool, true, Option, some, [], ◌∷◌, Outcome, ok, err, panic, ◌≡◌, refl, sym, ◌∙◌, ap,
}
use etcd_cloud_operator.Snapshot.{Metadata}
use etcd_cloud_operator.Snapshot.Latest.{failed as listing_failed}
use etcd_cloud_operator.Etcd.Config.{TlsInfo}
use etcd_cloud_operator.Etcd.Effects.{
  Call, get_snapshot, start_etcd, refused, not_ready, ready, Start, failed, Env, World, ServerError,
  bind-ok, err-ne-ok, panic-ne-ok,
}
use etcd_cloud_operator.Etcd.Server.{ServerConfig, own_peer_url}
use etcd_cloud_operator.Etcd.Server.Start.{
  start_server, etcd_config, restore, seed, set_cluster, reset_data, start_alone,
}

module _ (env : Env) (tls_empty : TlsInfo → Bool) (cfg : ServerConfig) where
  -- The calls of `startServer`: one.
  abbrev pub start_call : World → Call
  start_call w = start_etcd (etcd_config tls_empty cfg w)

  -- The state after a start: whether etcd runs, and the call.
  abbrev pub after_start : World → Bool → World
  after_start w b = record w { is_running = b; trace = start_call w ∷ w.trace }

  abbrev pub StartsAs : World → Start → Outcome ServerError (Unit {0}) × World → Type 0
  StartsAs w refused r =
      r ≡ (err (failed (codes "failed to start etcd")), after_start w w.is_running)
  StartsAs w not_ready r = r ≡ (panic, after_start w true)
  StartsAs w ready r = r ≡ (ok tt, after_start w true)

  start_as :
      (w : World) (s : Start)
      → env.on_start (start_call w ∷ w.trace) ≡ s
      → StartsAs w s (start_server env tls_empty cfg w)
  unfolding start_server
  start_as w refused e = rw e
  start_as w not_ready e = rw e
  start_as w ready e = rw e

  -- `startServer` makes one call, to start etcd, and ends as that does: in an error, with the server
  -- running only if it ran before; in success, with it running; or in a panic if etcd does not become
  -- ready.
  pub start_server-StartsAs :
      (w : World)
      → StartsAs w (env.on_start (start_call w ∷ w.trace)) (start_server env tls_empty cfg w)
  start_server-StartsAs w = start_as w _ refl

  -- `Restore` deletes the data directory only once it has a snapshot to restore from: where the
  -- snapshot cannot be retrieved it returns an error and has made no other call.
  pub restore_keeps_data :
      (w : World) (m : Metadata) (reason : Text)
      → (env.on_get_snapshot (get_snapshot m ∷ w.trace) m).error ≡ some (listing_failed reason)
      → ((text : Text) × ((restore env tls_empty cfg m w).0 ≡ err (failed text)))
        × ((restore env tls_empty cfg m w).1 ≡ record w { trace = get_snapshot m ∷ w.trace })
  unfolding restore
  restore_keeps_data w m reason e = ((codes "failed to retrieve latest snapshot", rw e), rw e)

  pub start_server-ok :
      (w v : World) → start_server env tls_empty cfg w ≡ (ok tt, v) → v ≡ after_start w true
  start_server-ok w v h = by_start _ (start_server-StartsAs w)
    where
      by_start :
          (s : Start) → StartsAs w s (start_server env tls_empty cfg w) → v ≡ after_start w true
      by_start refused k = absurd (err-ne-ok (sym k ∙ h))
      by_start not_ready k = absurd (panic-ne-ok (sym k ∙ h))
      by_start ready k = ap (λ r. r.1) (sym h ∙ k)

  -- A `Seed` that succeeded leaves etcd running as a new cluster with no member but this one.
  pub seed-running :
      (snapshot : Option Metadata) (w v : World)
      → seed env tls_empty cfg snapshot w ≡ (ok tt, v)
      → (v.is_running ≡ true)
        × (v.cluster_state ≡ codes "new")
        × (v.initial_purls ≡ (cfg.name, own_peer_url tls_empty cfg) ∷ [])
  unfolding seed
  seed-running snapshot w v h =
      let (_, w1, _, k) =
        bind-ok (reset_data env tls_empty cfg snapshot) (λ _. start_alone env tls_empty cfg) w h in
      let e =
        start_server-ok
          (set_cluster (codes "new") ((cfg.name, own_peer_url tls_empty cfg) ∷ []) w1).1 v k in
      (ap (λ x. x.is_running) e, ap (λ x. x.cluster_state) e, ap (λ x. x.initial_purls) e)
