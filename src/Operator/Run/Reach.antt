-- ===== src/Operator/Run/Reach.antt =====
-- What holds in every state that the loop of the operator reaches.
use mathlib.Core.Bool.{false≢true}
use mathlib.Core.Option.{none-ne-some, some-injective}
use etcd_cloud_operator.Prelude.{
  Bool, true, false, Option, none, some, Outcome, ok, err, panic, ok-injective, inl, inr, ◌≡◌, refl,
  sym, ◌∙◌, ap, subst, Bool-cases, if◌then◌else◌,
}
use etcd_cloud_operator.Snapshot.{Source}
use etcd_cloud_operator.Etcd.Effects.{World}
use etcd_cloud_operator.Etcd.Server.{ServerConfig}
use etcd_cloud_operator.Operator.Status.{Instance}
use etcd_cloud_operator.Operator.Execute.{
  Config, Operator, Group, Result, new_operator, server_config, server_or_new, evaluate, execute,
  wait,
}
use etcd_cloud_operator.Operator.Execute.Evaluations.{Evaluates, evaluate-Evaluates}
use etcd_cloud_operator.Operator.Execute.Follows.{IsState, Settles, Follows, execute-Follows}
use etcd_cloud_operator.Operator.Run.{
  Circumstances, finish, act_on, turn, Reachable, starts, turns, meanwhile,
}

-- The operator has the configuration and the provider that it was made with, reports one of the four
-- words, has exited only on a signal, and its server, if it has one, is configured for an instance of
-- its own.
pub record IsSound (cfg : Config) (provider : Source) (IsOwn : Instance → Type 0) (op : Operator)
    : Type 0 where
  pub configured : op.cfg ≡ cfg
  pub provided : op.provider ≡ provider
  pub reports : IsState op.state
  pub leaves : op.exited ≡ true → op.shutdown ≡ true
  pub serves :
      (c : ServerConfig)
      → op.server ≡ some c
      → (i : Instance) × IsOwn i × (c ≡ server_config cfg i provider)

pub panic-ne-turned : {op : Operator} → ¬ (◌≡◌ {A = Outcome (Unit {0}) Operator} panic (ok op))
panic-ne-turned h = cc

module _ (cfg : Config) (provider : Source) (IsOwn : Instance → Type 0) where
  new-IsSound : (w : World) → IsSound cfg provider IsOwn (new_operator cfg provider w)
  unfolding new_operator IsState
  new-IsSound w = record {
    configured = refl;
    provided = refl;
    reports = inl refl;
    leaves = λ e. absurd (false≢true e);
    serves = λ c e. absurd (none-ne-some c e);
  }

  new_server-serves :
      (op : Operator) (self : Instance) (o : Option ServerConfig) (c : ServerConfig)
      → IsSound cfg provider IsOwn op
      → op.server ≡ o
      → server_or_new op self o ≡ c
      → IsOwn self
      → (i : Instance) × IsOwn i × (c ≡ server_config cfg i provider)
  unfolding server_or_new
  new_server-serves op self none c s e h own = (
    self,
    own,
    sym h
        ∙ (ap (λ k. server_config k self op.provider) s.configured
            ∙ ap (server_config cfg self) s.provided),
  )
  new_server-serves op self (some d) c s e h own = s.serves c (e ∙ ap some h)

  Evaluates-IsSound :
      (seen : Option Group) (op now : Operator)
      → ((group : Group) → seen ≡ some group → IsOwn group.self)
      → IsSound cfg provider IsOwn op
      → Evaluates seen op now
      → IsSound cfg provider IsOwn now
  unfolding Evaluates
  Evaluates-IsSound seen op now own s (same_cfg, same_provider, state, signal, exit, server) =
      record {
        configured = same_cfg ∙ s.configured;
        provided = same_provider ∙ s.provided;
        reports = subst IsState (sym state) s.reports;
        leaves = λ e. signal ∙ s.leaves (sym exit ∙ e);
        serves = λ c e. elim server [
          | inl same ↦ s.serves c (sym same ∙ e)
          | inr (group, known, made) ↦
              new_server-serves op group.self op.server c s refl (some-injective _ _ (sym made ∙ e))
                (own group known)
        ];
      }

  Follows-IsSound :
      (op now : Operator)
      → IsSound cfg provider IsOwn op
      → Follows op now
      → IsSound cfg provider IsOwn now
  unfolding Follows Settles
  Follows-IsSound op now s ((same_cfg, same_provider, server, signal), states, exit) = record {
    configured = same_cfg ∙ s.configured;
    provided = same_provider ∙ s.provided;
    reports = states s.reports;
    leaves = λ e. signal ∙ elim (exit e) [ inl gone ↦ s.leaves gone | inr down ↦ down ];
    serves = λ c e. s.serves c (sym server ∙ e);
  }

  wait-IsSound :
      (signalled : Bool) (op : Operator)
      → IsSound cfg provider IsOwn op
      → IsSound cfg provider IsOwn (wait signalled op)
  unfolding wait
  wait-IsSound true op s = record {
    configured = s.configured;
    provided = s.provided;
    reports = s.reports;
    leaves = λ e. refl;
    serves = s.serves;
  }
  wait-IsSound false op s = s

  waits-IsSound :
      (signalled : Bool) (op : Operator)
      → IsSound cfg provider IsOwn op
      → IsSound cfg provider IsOwn (if op.exited then op else wait signalled op)
  waits-IsSound signalled op s = elim (Bool-cases op.exited) [
    | inl e ↦
        subst (λ b. IsSound cfg provider IsOwn (if b then op else wait signalled op)) (sym e) s
    | inr e ↦
        subst (λ b. IsSound cfg provider IsOwn (if b then op else wait signalled op)) (sym e)
          (wait-IsSound signalled op s)
  ]

  finish-IsSound :
      (signalled : Bool) (r : Result) (now : Operator)
      → IsSound cfg provider IsOwn r.1
      → finish signalled r ≡ ok now
      → IsSound cfg provider IsOwn now
  unfolding finish
  finish-IsSound signalled (ok x, op) now s h =
      subst (IsSound cfg provider IsOwn) (ok-injective h) (waits-IsSound signalled op s)
  finish-IsSound signalled (err e, op) now s h =
      subst (IsSound cfg provider IsOwn) (ok-injective h) (waits-IsSound signalled op s)
  finish-IsSound signalled (panic, op) now s h = absurd (panic-ne-turned h)

  act_on-IsSound :
      (c : Circumstances) (r : Result) (now : Operator)
      → IsSound cfg provider IsOwn r.1
      → act_on c r ≡ ok now
      → IsSound cfg provider IsOwn now
  unfolding act_on
  act_on-IsSound c (ok x, op) now s h =
      finish-IsSound c.signalled (execute c.env c.tls_empty c.acl_env op) now
        (Follows-IsSound op _ s (execute-Follows c.env c.tls_empty c.acl_env op)) h
  act_on-IsSound c (err e, op) now s h =
      subst (IsSound cfg provider IsOwn) (ok-injective h) (wait-IsSound c.signalled op s)
  act_on-IsSound c (panic, op) now s h = absurd (panic-ne-turned h)

  turn-IsSound :
      (c : Circumstances) (op now : Operator)
      → ((group : Group) → c.sight.group ≡ some group → IsOwn group.self)
      → IsSound cfg provider IsOwn op
      → turn c op ≡ ok now
      → IsSound cfg provider IsOwn now
  unfolding turn
  turn-IsSound c op now own s h =
      act_on-IsSound c (evaluate c.sorter c.sight op) now
        (Evaluates-IsSound c.sight.group op _ own s (evaluate-Evaluates c.sorter c.sight op)) h

  -- In every state that the loop reaches from the operator that New makes, whatever its turns meet and
  -- whatever the goroutines of the server do between them, the operator has the configuration and the
  -- provider it was made with, reports one of the four words, has exited only on a signal, and its server, if
  -- it has one, is configured for an instance that the provider named as this one in one of the turns: for one
  -- of which IsOwn holds, if that holds of every instance that is named so.
  pub Reachable-IsSound :
      (op : Operator) → Reachable cfg provider IsOwn op → IsSound cfg provider IsOwn op
  Reachable-IsSound _ (starts w) = new-IsSound w
  Reachable-IsSound _ (turns c before now own r e h) =
      turn-IsSound c before now own (Reachable-IsSound before r) h
  Reachable-IsSound _ (meanwhile before w r) =
      let s = Reachable-IsSound before r in
      record {
        configured = s.configured;
        provided = s.provided;
        reports = s.reports;
        leaves = s.leaves;
        serves = s.serves;
      }
