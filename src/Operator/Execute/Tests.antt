-- ===== src/Operator/Execute/Tests.antt =====
-- Runs of the operator: a group of two instances that both are ready.
use mathlib.Core.List.Perm
use Prim.Native.Nat.{◌*◌}
use etcd_cloud_operator.Prelude.{
  codes, ◌≤◌, true, none, [], ◌∷◌, Outcome, ◌≡◌, ◌↔◌, refl, text_eq, text_lt, lt_int, eq_int,
  insertion_sort, insert_sorted, lookup, insert,
}
use etcd_cloud_operator.Snapshot.{Source}
use etcd_cloud_operator.Etcd.Effects.{Env, ready}
use etcd_cloud_operator.Etcd.Server.Fixtures.{world, world_with}
use etcd_cloud_operator.Snapshot.Latest.{failed as failed_info}
use etcd_cloud_operator.Operator.Status.{
  status_less, fetch_all, fetch_status, fetch_statuses, count_from, state_count, string_override,
}
use etcd_cloud_operator.Operator.Status.Seeder.{by_insertion}
use etcd_cloud_operator.Operator.Status.Counts.{tally}
use etcd_cloud_operator.Operator.Execute.{
  Operator, new_operator, evaluate, decide, decide_on, stops, server_config,
}
use etcd_cloud_operator.Operator.Execute.Fixtures.{
  config, instance_a, instance_b, all_ready, group, sight, first, ready_operator, running_operator,
  waiting,
}
use etcd_cloud_operator.Operator.Execute.Decisions.{Fits, decide-Fits}
use etcd_cloud_operator.Operator.Execute.Effects.{
  seeds_once, stops_without_majority, seeds_when_all_ready,
}

-- The same two statuses, in either order of arrival.
seeds_once_example :
    (group (instance_a ∷ instance_b ∷ [])).self.name
    ≡ (group (instance_b ∷ instance_a ∷ [])).self.name
unfolding evaluate new_operator decide decide_on fetch_statuses fetch_all fetch_status status_less
    count_from state_count string_override insertion_sort insert_sorted server_config text_eq
    text_lt lt_int eq_int lookup insert
seeds_once_example =
    seeds_once by_insertion by_insertion (sight (instance_a ∷ instance_b ∷ []))
      (sight (instance_b ∷ instance_a ∷ [])) (group (instance_a ∷ instance_b ∷ []))
      (group (instance_b ∷ instance_a ∷ [])) first first
      (ready_operator (instance_a ∷ instance_b ∷ []))
      (ready_operator (instance_b ∷ instance_a ∷ [])) refl refl (Perm.swap _ _ []) refl refl refl
      refl

stops_without_majority_example :
    2 * tally (codes "OK") (fetch_all all_ready (instance_a ∷ instance_b ∷ [])) ≤ 2
unfolding evaluate new_operator decide decide_on fetch_statuses fetch_all fetch_status status_less
    count_from state_count string_override insertion_sort insert_sorted server_config text_eq
    text_lt lt_int eq_int lookup insert
stops_without_majority_example =
    stops_without_majority by_insertion (sight (instance_a ∷ instance_b ∷ []))
      (group (instance_a ∷ instance_b ∷ [])) (new_operator config Source.file (world true))
      running_operator refl refl refl

seeds_when_all_ready_example :
    tally (codes "START") (fetch_all all_ready (instance_a ∷ instance_b ∷ [])) ≡ 2
unfolding evaluate new_operator decide decide_on fetch_statuses fetch_all fetch_status status_less
    count_from state_count string_override insertion_sort insert_sorted server_config text_eq
    text_lt lt_int eq_int lookup insert
seeds_when_all_ready_example =
    seeds_when_all_ready by_insertion (sight (instance_a ∷ instance_b ∷ []))
      (group (instance_a ∷ instance_b ∷ [])) first (ready_operator (instance_a ∷ instance_b ∷ []))
      refl refl refl

decide-Fits_example : (decide running_operator ≡ stops) ↔ Fits running_operator stops
decide-Fits_example = decide-Fits running_operator stops

-- An instance that ran etcd and reported so, before it stopped.
abbrev stale : Operator
stale = record waiting { state = codes "OK" }

abbrev without_snapshots : Env
without_snapshots = world_with ready none (Outcome.err (failed_info (codes "x")))
