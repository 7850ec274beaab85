-- ===== src/Operator/Run/Tests.antt =====
-- Runs of the loop of the operator.
use mathlib.Core.Option.{some-injective}
use mathlib.Core.List.{Mem, mem-cons_self, mem-cons_of_mem}
use etcd_cloud_operator.Prelude.{
  codes, true, false, none, some, List, [], ◌∷◌, Outcome, ok, err, panic, sym, ap, ◌≡◌, ◌≢◌, ◌⊎◌,
  inr, refl, text_eq, text_lt, lt_int, eq_int, insertion_sort, insert_sorted, lookup, insert,
}
use etcd_cloud_operator.Snapshot.{Source}
use etcd_cloud_operator.Snapshot.Latest.{no_snapshot}
use etcd_cloud_operator.Etcd.Effects.{ready}
use etcd_cloud_operator.Etcd.Server.{snapshot_info, choose_snapshot}
use etcd_cloud_operator.Etcd.Server.Fixtures.{world, world_with, without_tls}
use etcd_cloud_operator.Operator.Acl.Fixtures.{unreachable}
use etcd_cloud_operator.Operator.Status.{
  Instance, status_less, fetch_all, fetch_status, fetch_statuses, count_from, state_count,
  string_override,
}
use etcd_cloud_operator.Operator.Status.Seeder.{by_insertion}
use etcd_cloud_operator.Operator.Execute.{
  Operator, Group, execute, Sight, new_operator, evaluate, decide, decide_on, seeds, own_status,
  server_config, wait,
}
use etcd_cloud_operator.Operator.Execute.Fixtures.{config, instance_a, instance_b, group, first}
use etcd_cloud_operator.Operator.Run.{Circumstances, Reachable, turn}
use etcd_cloud_operator.Operator.Run.Election.{group_sight, seeder_elected, seeds_from_start}
use etcd_cloud_operator.Operator.Run.Boot.{Elects, after_round, boots}
use etcd_cloud_operator.Operator.Run.Reach.{IsSound, Reachable-IsSound}
use etcd_cloud_operator.Operator.Run.Exit.{Turns, exits_on_signal}

abbrev both : List Instance
both = instance_a ∷ instance_b ∷ []

abbrev prepared : Operator
prepared = record first { state = codes "START" }

not_healthy : ◌≢◌ (some false) (some true)
not_healthy e = cc

seeder_elected_example :
    (i : Instance) × Mem i both
    × (now : Operator) × (evaluate by_insertion
          (group_sight (λ j. some false) (λ j. prepared) both 2 i)
          prepared
        ≡ (ok tt, now))
    × (decide now ≡ seeds)
unfolding new_operator
seeder_elected_example =
    seeder_elected (λ i. by_insertion) (λ i. some false) (λ i. prepared) instance_a
      (instance_b ∷ []) 2 refl (λ i m. (refl, not_healthy, refl, refl))

abbrev prepared_sight : Sight
prepared_sight = group_sight (λ j. some false) (λ j. prepared) both 2 instance_b

seeds_from_start_example : prepared.state ≡ codes "START"
unfolding evaluate new_operator decide decide_on fetch_statuses fetch_all fetch_status status_less
    count_from state_count string_override insertion_sort insert_sorted server_config text_eq
    text_lt lt_int eq_int lookup insert own_status group_sight
seeds_from_start_example =
    seeds_from_start by_insertion prepared_sight (group both) prepared
      (evaluate by_insertion prepared_sight prepared).1 refl refl
      (mem-cons_of_mem instance_a mem-cons_self) refl refl refl

-- A turn whose evaluation fails, and in whose wait the signal comes.
abbrev blind : Circumstances
blind = record {
  sorter = by_insertion;
  sight = record {
    group = none;
    nameless = false;
    client_healthy = none;
    answers = λ i. own_status first;
  };
  env = world_with ready none (Outcome.err no_snapshot);
  tls_empty = without_tls;
  acl_env = unreachable;
  signalled = true;
}

abbrev told : Operator
told = record first { shutdown = true }

abbrev last_turn : Circumstances
last_turn = record blind { sight = group_sight (λ j. some false) (λ j. first) both 2 instance_b }

abbrev went : Outcome (Unit {0}) Operator → Operator
went (ok now) = now
went (err e) = first
went panic = first

-- The operator after this turn, which makes the server of this instance.
abbrev served : Operator
served = went (turn last_turn first)

Reachable-IsSound_example : IsSound config Source.file (λ i. i ≡ instance_b) served
unfolding turn evaluate new_operator fetch_statuses fetch_all fetch_status status_less wait
    count_from state_count string_override insertion_sort insert_sorted server_config text_eq
    text_lt lt_int eq_int lookup insert own_status group_sight decide decide_on execute
    snapshot_info choose_snapshot
Reachable-IsSound_example =
    Reachable-IsSound config Source.file (λ i. i ≡ instance_b) served
      (Reachable.turns last_turn first served
        (λ group e. sym (ap (λ (g : Group). g.self) (some-injective _ _ e)))
        (Reachable.starts (world false)) refl refl)

exits_on_signal_example :
    (turn last_turn told ≡ panic)
    ⊎ ((over : Operator) × (turn last_turn told ≡ ok over) × (over.exited ≡ true))
unfolding turn evaluate new_operator fetch_statuses fetch_all fetch_status status_less wait
    count_from state_count string_override insertion_sort insert_sorted server_config text_eq
    text_lt lt_int eq_int lookup insert own_status group_sight
exits_on_signal_example =
    exits_on_signal blind first told told (evaluate by_insertion last_turn.sight told).1 last_turn
      refl refl refl (Turns.none_left told) refl

-- The first turns of a group that was just created.
abbrev first_turn : Instance → Circumstances
first_turn i = record blind {
  sight = group_sight (λ j. some false) (λ j. first) both 2 i;
  signalled = false;
}

boots_example :
    Elects (λ i. by_insertion) (λ i. some false) (λ i. first) both 2
    ⊎ Elects (λ i. by_insertion) (λ i. some false) (after_round first_turn (λ i. first)) both 2
unfolding new_operator
boots_example =
    boots (λ i. by_insertion) (λ i. some false) (λ i. first) first_turn instance_a (instance_b ∷ [])
      2 refl (λ i m. (not_healthy, refl, refl))
      (λ i m. (refl, refl, (λ w cfg. inr refl, λ w. inr refl)))
