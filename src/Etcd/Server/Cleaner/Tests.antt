-- ===== src/Etcd/Server/Cleaner/Tests.antt =====
-- Rounds of the member cleaner.
use etcd_cloud_operator.Prelude.{codes, true, none, some, [], ◌∷◌, refl, err}
use etcd_cloud_operator.Etcd.Effects.{ready, Env, attempt}
use etcd_cloud_operator.Snapshot.Latest.{no_snapshot}
use etcd_cloud_operator.Etcd.Server.Membership.{remove_member}
use etcd_cloud_operator.Etcd.Server.Fixtures.{server_a, world_with, world}
use etcd_cloud_operator.Etcd.Server.Membership.Locks.{held}
use etcd_cloud_operator.Etcd.Server.Cleaner.{TrackedMembers, Seen, is_due, clean, clean_one}
use etcd_cloud_operator.Etcd.Server.Cleaner.Laws.{asked_to_remove, Overdue, clean_spares}

abbrev lost : TrackedMembers
lost = (7, record { name = codes "b"; first_seen = 0; last_seen_healthy = none }) ∷ []

abbrev answering : Env
answering = world_with ready (some []) (err no_snapshot)

clean_spares_example : Overdue answering server_a (λ id. true) (λ id. 1800000000001) lost 7
unfolding clean clean_one is_due remove_member attempt held asked_to_remove
clean_spares_example =
    clean_spares answering server_a (λ id. true) (λ id. 1800000000001) lost 7 (world true) refl refl

abbrev healthy : Seen
healthy = record {
  id = 7;
  name = codes "b";
  is_started = true;
  seen_at = 10;
  is_healthy = true;
  checked_at = 12;
}
