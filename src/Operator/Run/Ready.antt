-- ===== src/Operator/Run/Ready.antt =====
-- A turn in which an instance becomes ready.
use etcd_cloud_operator.Prelude.{Bool, false, some, ok, ◌≡◌, inl, inr, refl, ◌∙◌, ap, Bool-cases}
use etcd_cloud_operator.Etcd.Server.{ServerConfig}
use etcd_cloud_operator.Operator.Execute.{Operator, readies, decide, evaluate, wait}
use etcd_cloud_operator.Operator.Execute.Readies.{IsInformed, Readied, execute-Readied}
use etcd_cloud_operator.Operator.Run.{Circumstances, finish, act_on, turn}

finished :
    (signalled : Bool) (op : Operator) → signalled ≡ false → finish signalled (ok tt, op) ≡ ok op
unfolding finish wait
finished signalled op h = elim (Bool-cases op.exited) [ inl e ↦ rw e refl | inr e ↦ rw (e, h) refl ]

-- A turn that evaluates the group and takes the case of waiting for the others or the seeder, while the
-- snapshots are known, ends in the state START.
pub turn-Readied :
    (c : Circumstances) (op seen : Operator) (cfg : ServerConfig)
    → c.signalled ≡ false
    → evaluate c.sorter c.sight op ≡ (ok tt, seen)
    → decide seen ≡ readies
    → seen.server ≡ some cfg
    → seen.world.is_running ≡ false
    → IsInformed c.env
    → (now : Operator) × (turn c op ≡ ok now) × Readied seen now
unfolding turn act_on
turn-Readied c op seen cfg quiet e d s stopped known =
    let (now, h, r) = execute-Readied c.env c.tls_empty c.acl_env seen cfg d s stopped known in
    (now, ap (act_on c) e ∙ (ap (finish c.signalled) h ∙ finished c.signalled now quiet), r)
