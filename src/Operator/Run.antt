-- ===== src/Operator/Run.antt =====
-- pkg/operator/operator.go: Run, the loop of evaluate, execute and wait, as a step relation on the
-- state of the operator.
pub mod Ready
pub mod Election
pub mod Boot
pub mod Reach
pub mod Exit
mod Tests
use etcd_cloud_operator.Prelude.{Bool, some, Outcome, ok, err, panic, ◌≡◌, false, if◌then◌else◌}
use etcd_cloud_operator.Snapshot.{Source}
use etcd_cloud_operator.Etcd.Config.{TlsInfo}
use etcd_cloud_operator.Etcd.Effects.{Env, World}
use etcd_cloud_operator.Operator.Status.{Instance, StatusSort}
use etcd_cloud_operator.Operator.Acl.Effects.{AclEnv}
use etcd_cloud_operator.Operator.Execute.{
  Config, Operator, Group, Sight, Result, new_operator, evaluate, execute, wait,
}

-- What one turn of the loop meets outside: what the evaluation sees, what the calls of the action
-- answer, and whether the wait ends with the signal to shut down.
pub record Circumstances : Type 0 where
  pub sorter : StatusSort
  pub sight : Sight
  pub env : Env
  pub tls_empty : TlsInfo → Bool
  pub acl_env : AclEnv
  pub signalled : Bool

-- The error of an action is logged. A process that exited does not wait, nor one that panics.
finish : Bool → Result → Outcome (Unit {0}) Operator
finish signalled (panic, op) = panic
finish signalled (ok x, op) = ok (if op.exited then op else wait signalled op)
finish signalled (err e, op) = ok (if op.exited then op else wait signalled op)

-- After an evaluation that fails there is no action.
act_on : Circumstances → Result → Outcome (Unit {0}) Operator
unfolding finish
act_on c (panic, op) = panic
act_on c (err e, op) = ok (wait c.signalled op)
act_on c (ok x, op) = finish c.signalled (execute c.env c.tls_empty c.acl_env op)

-- One turn of the loop of `Run`.
unfoldable pub turn : Circumstances → Operator → Outcome (Unit {0}) Operator
unfolding act_on
turn c op = act_on c (evaluate c.sorter c.sight op)

-- The states that `Run` reaches from the operator that `New` makes. Between two turns the goroutines of
-- the server may leave any world. In each turn the provider names, as this instance, one that IsOwn holds of.
pub data Reachable (cfg : Config) (provider : Source) (IsOwn : Instance → Type 0)
    : Operator → Type 0 where
  starts : (w : World) → Reachable cfg provider IsOwn (new_operator cfg provider w)
  turns :
      (c : Circumstances) (op now : Operator)
      → ((group : Group) → c.sight.group ≡ some group → IsOwn group.self)
      → Reachable cfg provider IsOwn op
      → op.exited ≡ false
      → turn c op ≡ ok now
      → Reachable cfg provider IsOwn now
  meanwhile :
      (op : Operator) (w : World)
      → Reachable cfg provider IsOwn op
      → Reachable cfg provider IsOwn (record op { world = w })
