-- ===== src/Operator/Execute/Follows.antt =====
-- What the evaluation, the action and the wait leave as it was, however they end.
use etcd_cloud_operator.Prelude.{
  Text, codes, Bool, true, false, Option, none, some, Outcome, ok, err, panic, [], text_eq, ◌⊎◌,
  inl, inr, ◌≡◌, refl, sym, subst, Bool-cases,
}
use etcd_cloud_operator.Etcd.Config.{TlsInfo, AclConfig}
use etcd_cloud_operator.Etcd.Effects.{
  Env, World, M, ServerError, no_snapshot, member_revision_too_old, failed,
}
use etcd_cloud_operator.Snapshot.{Metadata}
use etcd_cloud_operator.Etcd.Server.{ServerConfig, snapshot_info}
use etcd_cloud_operator.Etcd.Server.Start.{seed}
use etcd_cloud_operator.Etcd.Server.Membership.{join}
use etcd_cloud_operator.Etcd.Server.Snapshots.{stop}
use etcd_cloud_operator.Operator.Acl.Effects.{AclError, AclTrace, AclEnv}
use etcd_cloud_operator.Operator.Acl.Reconcile.{reconcile_init_acl_config}
use etcd_cloud_operator.Operator.Execute.{
  Operator, Result, Action, exits, joins, stands_by, awaits, stops, readies, seeds, fails, decide,
  logged, called, on_server, informed, look_up, get_ready, exit_now, in_state, act, acl_result,
  reconciled, reconciles, after_action, execute,
}
use etcd_cloud_operator.Operator.Execute.Decisions.{Fits, FitsOn, decide-Fits}

-- The four words that an instance may report.
unfoldable pub IsState : Text → Type 0
IsState t =
    (t ≡ codes "UNKNOWN") ⊎ ((t ≡ codes "PENDING") ⊎ ((t ≡ codes "OK") ⊎ (t ≡ codes "START")))

-- The second state has the configuration, the providers and the server of the first, and is to shut
-- down if the first is.
unfoldable pub Settles : Operator → Operator → Type 0
Settles op now =
    (now.cfg ≡ op.cfg)
    × (now.provider ≡ op.provider)
    × (now.server ≡ op.server)
    × (now.shutdown ≡ op.shutdown)

settled : (op : Operator) → Settles op op
unfolding Settles
settled op = (refl, refl, refl, refl)

-- It reports one of the four words too, if the first did, and it exited only if the first did or is to
-- shut down.
unfoldable pub Follows : Operator → Operator → Type 0
unfolding Settles
Follows op now =
    Settles op now
    × (IsState op.state → IsState now.state)
    × (now.exited ≡ true → (op.exited ≡ true) ⊎ (op.shutdown ≡ true))

logged-Follows :
    {A : Type 0} (op : Operator) (r : Outcome ServerError A × World) → Follows op (logged op r).1
unfolding Follows Settles logged
logged-Follows op (ok a, w) = ((refl, refl, refl, refl), λ s. s, inl)
logged-Follows op (err e, w) = ((refl, refl, refl, refl), λ s. s, inl)
logged-Follows op (panic, w) = ((refl, refl, refl, refl), λ s. s, inl)

called-Follows :
    {A : Type 0} (method : ServerConfig → M A) (op : Operator) (o : Option ServerConfig)
    → Follows op (called method op o).1
unfolding called Follows Settles
called-Follows method op none = ((refl, refl, refl, refl), λ s. s, inl)
called-Follows method op (some cfg) = logged-Follows op (method cfg op.world)

-- A method that is called in a state that the action sets first.
set_and_called :
    {A : Type 0} (method : ServerConfig → M A) (op : Operator) (word : Text)
    → IsState word
    → Follows op (on_server method (in_state word op)).1
unfolding on_server Follows Settles
set_and_called method op word s =
    let (same, word_kept, exited) = called-Follows method (in_state word op) op.server in
    (same, λ _. word_kept s, exited)

informed-Follows :
    (op : Operator) (r : Outcome ServerError (Option Metadata) × World)
    → Follows op (informed op r).1
unfolding Follows Settles informed IsState
informed-Follows op (ok m, w) = ((refl, refl, refl, refl), λ s. inr (inr (inr refl)), inl)
informed-Follows op (err no_snapshot, w) =
    ((refl, refl, refl, refl), λ s. inr (inr (inr refl)), inl)
informed-Follows op (err member_revision_too_old, w) = ((refl, refl, refl, refl), λ s. s, inl)
informed-Follows op (err (failed text), w) = ((refl, refl, refl, refl), λ s. s, inl)
informed-Follows op (panic, w) = ((refl, refl, refl, refl), λ s. s, inl)

look_up-Follows :
    (env : Env) (op : Operator) (o : Option ServerConfig) → Follows op (look_up env op o).1
unfolding look_up Follows Settles
look_up-Follows env op none = ((refl, refl, refl, refl), λ s. s, inl)
look_up-Follows env op (some cfg) = informed-Follows op (snapshot_info env cfg op.world)

get_ready-Follows : (env : Env) (op : Operator) → Follows op (get_ready env op).1
unfolding get_ready Follows Settles
get_ready-Follows env op = elim (Bool-cases (text_eq op.state (codes "START"))) [
  | inl e ↦ rw e ((refl, refl, refl, refl), λ s. s, inl)
  | inr e ↦ rw e (look_up-Follows env op op.server)
]

exit_now-Follows :
    (op : Operator) (r : Result) → op.shutdown ≡ true → Follows op r.1 → Follows op (exit_now r).1
unfolding exit_now Follows Settles
exit_now-Follows op (ok x, now) down (same, word, exited) = (same, word, λ _. inr down)
exit_now-Follows op (err e, now) down (same, word, exited) = (same, word, λ _. inr down)
exit_now-Follows op (panic, now) down follows = follows

act-Follows :
    (env : Env) (tls_empty : TlsInfo → Bool) (a : Action) (op : Operator)
    → Fits op a
    → Follows op (act env tls_empty a op).1
unfolding act Fits FitsOn Follows Settles IsState
act-Follows env tls_empty exits op down =
    let method : ServerConfig → M (Unit {0}) = λ cfg. stop env cfg op.etcd_healthy true in
    exit_now-Follows op (on_server method (in_state (codes "PENDING") op)) down
      (set_and_called method op (codes "PENDING") (inr (inl refl)))
act-Follows env tls_empty joins op fits =
    set_and_called (join env tls_empty) op (codes "PENDING") (inr (inl refl))
act-Follows env tls_empty stands_by op fits =
    ((refl, refl, refl, refl), λ s. inr (inr (inl refl)), inl)
act-Follows env tls_empty awaits op fits = ((refl, refl, refl, refl), λ s. inr (inl refl), inl)
act-Follows env tls_empty stops op fits =
    set_and_called (λ cfg. stop env cfg false true) op (codes "PENDING") (inr (inl refl))
act-Follows env tls_empty readies op fits = get_ready-Follows env op
act-Follows env tls_empty seeds op fits =
    set_and_called (λ cfg. seed env tls_empty cfg op.etcd_snapshot) op (codes "START")
      (inr (inr (inr refl)))
act-Follows env tls_empty fails op fits = ((refl, refl, refl, refl), λ s. inl refl, inl)

acl_result-same : (op : Operator) (r : (AclError ⊎ Unit {0}) × AclTrace) → (acl_result op r).1 ≡ op
unfolding acl_result
acl_result-same op (inl e, calls) = refl
acl_result-same op (inr done, calls) = refl

reconciled-same :
    (acl_env : AclEnv) (o : Option AclConfig) (op : Operator) → (reconciled acl_env o op).1 ≡ op
unfolding reconciled
reconciled-same acl_env none op = refl
reconciled-same acl_env (some acl) op =
    acl_result-same op (reconcile_init_acl_config acl_env acl [])

pub after_action-same : (acl_env : AclEnv) (r : Result) → (after_action acl_env r).1 ≡ r.1
unfolding after_action
after_action-same acl_env (ok x, op) = reconciled-same acl_env (reconciles op) op
after_action-same acl_env (err e, op) = refl
after_action-same acl_env (panic, op) = refl

-- Reconciling the access control changes nothing of the operator.
pub execute-same :
    (env : Env) (tls_empty : TlsInfo → Bool) (acl_env : AclEnv) (op : Operator)
    → (execute env tls_empty acl_env op).1 ≡ (act env tls_empty (decide op) op).1
unfolding execute
execute-same env tls_empty acl_env op = after_action-same acl_env (act env tls_empty (decide op) op)

pub execute-Follows :
    (env : Env) (tls_empty : TlsInfo → Bool) (acl_env : AclEnv) (op : Operator)
    → Follows op (execute env tls_empty acl_env op).1
execute-Follows env tls_empty acl_env op =
    subst (Follows op) (sym (execute-same env tls_empty acl_env op))
      (act-Follows env tls_empty (decide op) op ((decide-Fits op (decide op)).0 refl))
