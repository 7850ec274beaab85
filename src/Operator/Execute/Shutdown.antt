-- ===== src/Operator/Execute/Shutdown.antt =====
-- What execute does on the signal to shut down.
use etcd_cloud_operator.Prelude.{
  Bool, true, Outcome, ok, err, panic, ◌⊎◌, inl, inr, ◌≡◌, ◌≢◌, refl, ap, ◌∙◌, subst, sym,
}
use etcd_cloud_operator.Etcd.Config.{TlsInfo}
use etcd_cloud_operator.Etcd.Effects.{Env}
use etcd_cloud_operator.Operator.Acl.Effects.{AclEnv}
use etcd_cloud_operator.Operator.Execute.{
  Operator, OperatorError, Result, exits, decide, exit_now, act, after_action, execute,
}
use etcd_cloud_operator.Operator.Execute.Follows.{after_action-same}
use etcd_cloud_operator.Operator.Execute.Decisions.{Fits, FitsOn, decide-Fits}

abbrev pub Ends : Result → Type 0
Ends r = (r.0 ≡ panic) ⊎ (r.1.exited ≡ true)

pub returns_not_panic :
    (x : Outcome OperatorError (Unit {0}))
    → (x ≡ ok tt) ⊎ ((e : OperatorError) × (x ≡ err e))
    → x ≢ panic
returns_not_panic x (inl h) = λ p. cc
returns_not_panic x (inr (e, h)) = λ p. cc

exit_now-Ends : (r : Result) → Ends (exit_now r)
unfolding exit_now
exit_now-Ends (ok x, op) = inr refl
exit_now-Ends (err e, op) = inr refl
exit_now-Ends (panic, op) = inl refl

after_action-Ends : (acl_env : AclEnv) (r : Result) → Ends r → Ends (after_action acl_env r)
unfolding after_action
after_action-Ends acl_env (panic, op) e = inl refl
after_action-Ends acl_env (ok x, op) (inl p) = absurd (returns_not_panic (ok x) (inl refl) p)
after_action-Ends acl_env (ok x, op) (inr e) =
    inr (ap (λ o. o.exited) (after_action-same acl_env (ok x, op)) ∙ e)
after_action-Ends acl_env (err x, op) (inl p) = absurd (returns_not_panic (err x) (inr (x, refl)) p)
after_action-Ends acl_env (err x, op) (inr e) = inr e

-- After the signal execute ends the process, or panics while it stops the server.
pub execute_shutdown :
    (env : Env) (tls_empty : TlsInfo → Bool) (acl_env : AclEnv) (op : Operator)
    → op.shutdown ≡ true
    → Ends (execute env tls_empty acl_env op)
unfolding execute act Fits FitsOn
execute_shutdown env tls_empty acl_env op down =
    after_action-Ends acl_env (act env tls_empty (decide op) op) (
      subst (λ a. Ends (act env tls_empty a op)) (sym ((decide-Fits op exits).1 down))
        (exit_now-Ends _))
