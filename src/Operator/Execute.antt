-- ===== src/Operator/Execute.antt =====
-- pkg/operator/operator.go: the state of an instance, what it evaluates and what it then executes, on
-- the server of Etcd/Server and the access control of Acl. Closing the etcd client and logging are not
-- modelled.
pub mod State
pub mod Decisions
pub mod Evaluations
pub mod Follows
pub mod Shutdown
pub mod Readies
pub mod Effects
pub mod Fixtures
mod Tests
use etcd_cloud_operator.Prelude.{
  Text, codes, ℕ, zero, suc, ◌+◌, ℤ, pos, Bool, true, false, not, ◌&&◌, ◌||◌, Option, none, some,
  List, [], ◌∷◌, ◌⊎◌, inl, inr, Map, Outcome, ok, err, panic, text_eq, ltb, leb, ◌==◌,
  if◌then◌else◌,
}
use Prim.Native.Nat.{◌/◌}
use etcd_cloud_operator.Snapshot.{Metadata, Source}
use etcd_cloud_operator.Etcd.Config.{EtcdConfiguration, AclConfig, TlsInfo}
use etcd_cloud_operator.Etcd.Effects.{
  ServerError, no_snapshot, member_revision_too_old, failed, Env, World, M,
}
use etcd_cloud_operator.Etcd.Server.{ServerConfig, snapshot_info}
use etcd_cloud_operator.Etcd.Server.Start.{seed}
use etcd_cloud_operator.Etcd.Server.Membership.{join}
use etcd_cloud_operator.Etcd.Server.Snapshots.{stop}
use etcd_cloud_operator.Operator.Acl.Effects.{AclError, AclTrace, AclEnv}
use etcd_cloud_operator.Operator.Acl.Reconcile.{reconcile_init_acl_config}
use etcd_cloud_operator.Operator.Status.{
  Instance, Reply, StatusSort, View, fetch_statuses, state_count,
}
unfoldable pub use etcd_cloud_operator.Operator.Execute.State.{server_config, new_operator}
pub use etcd_cloud_operator.Operator.Execute.State.{
  Config, Operator, Group, Sight, OperatorError, Result, group_failed, no_adequate_action,
  acl_failed, server_failed,
}

unfoldable pub server_or_new : Operator → Instance → Option ServerConfig → ServerConfig
unfolding server_config
server_or_new op self none = server_config op.cfg self op.provider
server_or_new op self (some cfg) = cfg

unfoldable pub evaluated : Operator → Group → Outcome (Unit {0}) View → Result
unfolding server_or_new
evaluated op group (ok v) = (
  ok tt,
  record op {
    server = some (server_or_new op group.self op.server);
    etcd_running = op.world.is_running;
    etcd_healthy = v.etcd_healthy;
    is_seeder = v.is_seeder;
    states = v.states;
    cluster_size = group.size;
  },
)
evaluated op group (err e) = (panic, op)
evaluated op group panic = (panic, op)

view_of : StatusSort → Option Bool → (Instance → Reply) → Bool → Group → Outcome (Unit {0}) View
view_of sorter client_healthy answers nameless group =
    if nameless
    then panic
    else fetch_statuses sorter client_healthy answers group.instances group.self

evaluate_group :
    StatusSort → Option Bool → (Instance → Reply) → Bool → Operator → Option Group → Result
unfolding evaluated view_of
evaluate_group sorter client_healthy answers nameless op none = (err group_failed, op)
evaluate_group sorter client_healthy answers nameless op (some group) =
    evaluated op group (view_of sorter client_healthy answers nameless group)

-- `evaluate`.
unfoldable pub evaluate : StatusSort → Sight → Operator → Result
unfolding evaluate_group
evaluate sorter sight op =
    evaluate_group sorter sight.client_healthy sight.answers sight.nameless op sight.group

-- The cases of the `switch` of `execute`, in the order in which they stand.
pub data Action : Type 0 where
  exits joins stands_by awaits stops readies seeds fails : Action

-- On whether to shut down, whether etcd is healthy, whether it runs here, and whether we are the seeder,
-- on how many instances are in the states OK and START, and on the size of the cluster.
unfoldable pub decide_on : Bool → Bool → Bool → Bool → ℕ → ℕ → ℕ → Action
decide_on shutdown healthy running seeder oks starts size =
    if shutdown
    then exits
    else if healthy && not running
    then joins
    else if healthy && running
    then stands_by
    else if not healthy && running && leb (size / 2 + 1) oks
    then awaits
    else if not healthy && running && ltb oks (size / 2 + 1)
    then stops
    else if not healthy && not running && (not (starts == size) || not seeder)
    then readies
    else if not healthy && not running && (starts == size) && seeder
    then seeds
    else fails

unfoldable pub decide : Operator → Action
unfolding state_count decide_on
decide op =
    decide_on op.shutdown op.etcd_healthy op.etcd_running op.is_seeder
      (state_count (codes "OK") op.states) (state_count (codes "START") op.states) op.cluster_size

abbrev pub in_state : Text → Operator → Operator
in_state text op = record op { state = text }

-- After a method of the server whose error is logged.
logged : {A : Type 0} → Operator → Outcome ServerError A × World → Result
logged op (ok a, w) = (ok tt, record op { world = w })
logged op (err e, w) = (ok tt, record op { world = w })
logged op (panic, w) = (panic, record op { world = w })

-- A method called on a server that is not there dereferences nil.
called : {A : Type 0} → (ServerConfig → M A) → Operator → Option ServerConfig → Result
unfolding logged
called method op none = (panic, op)
called method op (some cfg) = logged op (method cfg op.world)

on_server : {A : Type 0} → (ServerConfig → M A) → Operator → Result
unfolding called
on_server method op = called method op op.server

informed : Operator → Outcome ServerError (Option Metadata) × World → Result
informed op (ok m, w) =
    (ok tt, in_state (codes "START") (record op { world = w; etcd_snapshot = m }))
informed op (err no_snapshot, w) =
    (ok tt, in_state (codes "START") (record op { world = w; etcd_snapshot = none }))
informed op (err member_revision_too_old, w) =
    (err (server_failed member_revision_too_old), record op { world = w; etcd_snapshot = none })
informed op (err (failed text), w) =
    (err (server_failed (failed text)), record op { world = w; etcd_snapshot = none })
informed op (panic, w) = (panic, record op { world = w })

look_up : Env → Operator → Option ServerConfig → Result
unfolding informed
look_up env op none = (panic, op)
look_up env op (some cfg) = informed op (snapshot_info env cfg op.world)

-- The snapshot is looked up only on the way into the state START.
get_ready : Env → Operator → Result
unfolding look_up
get_ready env op =
    if text_eq op.state (codes "START") then (ok tt, op) else look_up env op op.server

exit_now : Result → Result
exit_now (ok x, op) = (ok tt, record op { exited = true })
exit_now (err e, op) = (ok tt, record op { exited = true })
exit_now (panic, op) = (panic, op)

unfoldable pub act : Env → (TlsInfo → Bool) → Action → Operator → Result
unfolding on_server get_ready exit_now
act env tls_empty exits op =
    exit_now (on_server (λ cfg. stop env cfg op.etcd_healthy true) (in_state (codes "PENDING") op))
act env tls_empty joins op = on_server (join env tls_empty) (in_state (codes "PENDING") op)
act env tls_empty stands_by op = (ok tt, in_state (codes "OK") op)
act env tls_empty awaits op = (ok tt, in_state (codes "PENDING") op)
act env tls_empty stops op =
    on_server (λ cfg. stop env cfg false true) (in_state (codes "PENDING") op)
act env tls_empty readies op = get_ready env op
act env tls_empty seeds op =
    on_server (λ cfg. seed env tls_empty cfg op.etcd_snapshot) (in_state (codes "START") op)
act env tls_empty fails op = (err no_adequate_action, in_state (codes "UNKNOWN") op)

-- Whether the access control is reconciled after the action.
unfoldable pub reconciles : Operator → Option AclConfig
reconciles op =
    if text_eq op.state (codes "OK") && op.is_seeder && not op.exited
    then op.cfg.etcd.init_acl
    else none

-- The calls that the reconciliation makes are counted from its start.
acl_result : Operator → (AclError ⊎ Unit {0}) × AclTrace → Result
acl_result op (inl e, calls) = (err (acl_failed e), op)
acl_result op (inr done, calls) = (ok tt, op)

reconciled : AclEnv → Option AclConfig → Operator → Result
unfolding acl_result
reconciled acl_env none op = (ok tt, op)
reconciled acl_env (some acl) op = acl_result op (reconcile_init_acl_config acl_env acl [])

unfoldable pub after_action : AclEnv → Result → Result
unfolding reconciled reconciles
after_action acl_env (ok x, op) = reconciled acl_env (reconciles op) op
after_action acl_env (err e, op) = (err e, op)
after_action acl_env (panic, op) = (panic, op)

-- `execute`.
unfoldable pub execute : Env → (TlsInfo → Bool) → AclEnv → Operator → Result
unfolding act after_action
execute env tls_empty acl_env op = after_action acl_env (act env tls_empty (decide op) op)

-- `wait`: a tick, or the signal to shut down.
unfoldable pub wait : Bool → Operator → Operator
wait signalled op = if signalled then record op { shutdown = true } else op

-- `webserver`: what an instance answers about itself.
unfoldable pub own_status : Operator → Reply
own_status op =
    Reply.replied (some op.state)
      (some (elim op.etcd_snapshot [ none ↦ pos 0 | some m ↦ m.revision ]))
