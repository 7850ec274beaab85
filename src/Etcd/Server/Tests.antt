-- ===== src/Etcd/Server/Tests.antt =====
-- Runs of the methods of pkg/etcd/server.go.
use etcd_cloud_operator.Prelude.{
  codes, lt_int, true, false, some, [], ◌∷◌, ok, err, ◌≡◌, refl, text_eq, insert,
}
use etcd_cloud_operator.Snapshot.{new_metadata}
use etcd_cloud_operator.Snapshot.Latest.{no_snapshot}
use etcd_cloud_operator.Etcd.Effects.{
  Member, refused, ready, Env, unlock, caught, attempt, failed as etcd_failed,
}
use etcd_cloud_operator.Etcd.Server.{snapshot_info, join_lock}
use etcd_cloud_operator.Etcd.Server.Info.{Best, snapshot_info-Best}
use etcd_cloud_operator.Etcd.Server.Start.{start_server, etcd_config, restore, set_cluster}
use etcd_cloud_operator.Etcd.Server.Start.Laws.{start_call}
use etcd_cloud_operator.Etcd.Server.Start.Restored.{Restores, restore_lem}
use etcd_cloud_operator.Etcd.Server.Membership.{join, join_as_new, cluster_purls, member_id_of}
use etcd_cloud_operator.Etcd.Server.Membership.Locks.{held, IsExclusive}
use etcd_cloud_operator.Etcd.Server.Membership.Locking.{join-Frees, join_as_new_leaks, after_add}
use etcd_cloud_operator.Etcd.Server.Membership.Joined.{join-running}
use etcd_cloud_operator.Etcd.Server.Snapshots.{snapshot_of, snapshot, stop}
use etcd_cloud_operator.Etcd.Server.Snapshots.Laws.{Taken, snapshot-Taken, stop_lem, closed}
use etcd_cloud_operator.Etcd.Server.Fixtures.{server_a, without_tls, world_with, world, snapshot_at}

abbrev member_a : Member
member_a = record { name = codes "a"; id = 4; peer_urls = codes "http://1:2380" ∷ [] }

abbrev known : Env
known = world_with ready (some (member_a ∷ [])) (ok (snapshot_at 3))

abbrev refusing : Env
refusing = world_with refused (some []) (err no_snapshot)

snapshot_info-Best_example :
    Best (ok (snapshot_at 3)) (err no_snapshot) (snapshot_info known server_a (world false)).0
snapshot_info-Best_example = snapshot_info-Best known server_a (world false) refl

snapshot-Taken_example : Taken known server_a (world true) 9 (snapshot known server_a (world true))
snapshot-Taken_example = snapshot-Taken known server_a (world true) 9 refl

stop_lem_example :
    stop known server_a false true (world true)
    ≡ (ok tt, closed known server_a false (snapshot known server_a (world true)).1)
unfolding snapshot snapshot_of new_metadata lt_int
stop_lem_example = stop_lem known server_a false true (world true) (λ h. cc)

join-Frees_example :
    held (join_lock (codes "a")) (join refusing without_tls server_a (world false)).1.trace ≡ false
unfolding held
join-Frees_example = join-Frees refusing without_tls server_a (world false) refl

join_as_new_leaks_example : join_as_new refusing without_tls server_a (world false) ≡ (
  err (etcd_failed (codes "failed to start etcd")),
  record (world false) {
    trace =
        unlock (join_lock (codes "a"))
        ∷ start_call refusing without_tls server_a
            (after_add refusing without_tls server_a (world false))
        ∷ (after_add refusing without_tls server_a (world false)).trace;
  },
)
unfolding held
join_as_new_leaks_example =
    join_as_new_leaks refusing without_tls server_a (world false) 5 exclusive refl refl refl
  where
    exclusive : IsExclusive refusing
    exclusive t key h = rw h refl

join-running_example : (join known without_tls server_a (world false)).1.is_running ≡ true
unfolding join cluster_purls member_id_of text_eq start_server etcd_config insert set_cluster
    attempt caught
join-running_example =
    join-running known without_tls server_a (world false)
      (join known without_tls server_a (world false)).1 refl

restore_lem_example :
    Restores known without_tls server_a
      (world false)
      (snapshot_at 3)
      (known.on_get_snapshot [] (snapshot_at 3))
      (restore known without_tls server_a (snapshot_at 3) (world false))
restore_lem_example = restore_lem known without_tls server_a (world false) (snapshot_at 3)
