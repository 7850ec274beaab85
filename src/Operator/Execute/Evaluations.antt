-- ===== src/Operator/Execute/Evaluations.antt =====
-- What an evaluation that succeeds takes over.
use mathlib.Core.Option.{none-ne-some}
use etcd_cloud_operator.Prelude.{
  none, ◌⊎◌, inl, inr, Option, Text, Bool, true, false, some, Outcome, ok, err, panic, ◌≡◌, ◌≢◌,
  refl, sym, ◌∙◌, ap, subst,
}
use etcd_cloud_operator.Operator.Status.{
  Instance, Reply, StatusSort, View, fetch_all, fetch_statuses, state_count,
}
use etcd_cloud_operator.Operator.Status.Counts.{tally, fetch_statuses-tally}
use etcd_cloud_operator.Operator.Execute.{
  Operator, Group, Sight, Result, OperatorError, evaluated, view_of, evaluate, evaluate_group,
  server_or_new, group_failed,
}

crash-ne-ok :
    (x : Outcome OperatorError (Unit {0})) (op op' : Operator)
    → x ≢ ok tt
    → ◌≢◌ {A = Result} (x, op) (ok tt, op')
crash-ne-ok x op op' n h = n (ap (λ r. r.0) h)

panic-ne-okay : ◌≢◌ {A = Outcome OperatorError (Unit {0})} panic (ok tt)
panic-ne-okay h = cc

panic-ne-view : {v : View} → ¬ (◌≡◌ {A = Outcome (Unit {0}) View} panic (ok v))
panic-ne-view h = cc

err-ne-okay : (e : OperatorError) → ◌≢◌ {A = Outcome OperatorError (Unit {0})} (err e) (ok tt)
err-ne-okay e h = cc

-- An evaluation that succeeds takes over the view.
unfoldable pub Shows : Group → View → Operator → Type 0
Shows group v op =
    (op.is_seeder ≡ v.is_seeder) × (op.states ≡ v.states) × (op.cluster_size ≡ group.size)

evaluated-Shows :
    (op now : Operator) (group : Group) (v : Outcome (Unit {0}) View)
    → evaluated op group v ≡ (ok tt, now)
    → (w : View) × (v ≡ ok w) × Shows group w now
unfolding evaluated Shows
evaluated-Shows op now group (ok w) h = (
  w,
  refl,
  (
    ap (λ r. r.1.is_seeder) (sym h),
    ap (λ r. r.1.states) (sym h),
    ap (λ r. r.1.cluster_size) (sym h),
  ),
)
evaluated-Shows op now group (err e) h = absurd (crash-ne-ok panic op now panic-ne-okay h)
evaluated-Shows op now group panic h = absurd (crash-ne-ok panic op now panic-ne-okay h)

view_of-ok :
    (s : StatusSort) (healthy : Option Bool) (answers : Instance → Reply) (nameless : Bool)
    (group : Group) (v : View)
    → view_of s healthy answers nameless group ≡ ok v
    → fetch_statuses s healthy answers group.instances group.self ≡ ok v
unfolding view_of
view_of-ok s healthy answers true group v h = absurd (panic-ne-view h)
view_of-ok s healthy answers false group v h = h

pub evaluate-Shows :
    (s : StatusSort) (sight : Sight) (group : Group) (op now : Operator)
    → sight.group ≡ some group
    → evaluate s sight op ≡ (ok tt, now)
    → (v : View) × (fetch_statuses s sight.client_healthy sight.answers group.instances group.self
        ≡ ok v)
      × Shows group v now
unfolding evaluate evaluate_group
evaluate-Shows s sight group op now g h =
    let (v, f, shows) =
      evaluated-Shows op now group
        (view_of s sight.client_healthy sight.answers sight.nameless group)
        (subst
          (λ o.
            evaluate_group s sight.client_healthy sight.answers sight.nameless op o ≡ (ok tt, now))
          g h) in
    (v, view_of-ok s sight.client_healthy sight.answers sight.nameless group v f, shows)

-- What an instance counts of a state is the number of the group's instances that report it.
pub evaluate-tally :
    (s : StatusSort) (sight : Sight) (group : Group) (op now : Operator) (state : Text)
    → sight.group ≡ some group
    → evaluate s sight op ≡ (ok tt, now)
    → state_count state now.states ≡ tally state (fetch_all sight.answers group.instances)
unfolding Shows
evaluate-tally s sight group op now state g e =
    let (v, f, (_, states, _)) = evaluate-Shows s sight group op now g e in
    ap (state_count state) states ∙ fetch_statuses-tally s _ _ _ _ v state f

pub evaluate-size :
    (s : StatusSort) (sight : Sight) (group : Group) (op now : Operator)
    → sight.group ≡ some group
    → evaluate s sight op ≡ (ok tt, now)
    → now.cluster_size ≡ group.size
unfolding Shows
evaluate-size s sight group op now g e =
    let (_, _, (_, _, size)) = evaluate-Shows s sight group op now g e in size

-- An evaluation whose group is known, with this instance in it, and which has a view of it, succeeds and takes that over.
pub evaluate_view :
    (s : StatusSort) (sight : Sight) (group : Group) (op : Operator) (v : View)
    → sight.group ≡ some group
    → sight.nameless ≡ false
    → fetch_statuses s sight.client_healthy sight.answers group.instances group.self ≡ ok v
    → evaluate s sight op ≡ evaluated op group (ok v)
unfolding evaluate evaluate_group view_of
evaluate_view s sight group op v g n f =
    ap (evaluate_group s sight.client_healthy sight.answers sight.nameless op) g
    ∙ (ap (λ b. evaluated op group (view_of s sight.client_healthy sight.answers b group)) n
        ∙ ap (evaluated op group) f)

-- An evaluation leaves the configuration, the state that is reported and the signal as they were, and
-- makes a server only where there is none, for the instance that the group names as this one.
unfoldable pub Evaluates : Option Group → Operator → Operator → Type 0
Evaluates seen op now =
    (now.cfg ≡ op.cfg)
    × (now.provider ≡ op.provider)
    × (now.state ≡ op.state)
    × (now.shutdown ≡ op.shutdown)
    × (now.exited ≡ op.exited)
    × ((now.server ≡ op.server)
        ⊎ ((group : Group) × (seen ≡ some group)
            × (now.server ≡ some (server_or_new op group.self op.server))))

evaluated-Evaluates :
    (op : Operator) (group : Group) (v : Outcome (Unit {0}) View)
    → Evaluates (some group) op (evaluated op group v).1
unfolding evaluated Evaluates
evaluated-Evaluates op group (ok v) = (refl, refl, refl, refl, refl, inr (group, refl, refl))
evaluated-Evaluates op group (err e) = (refl, refl, refl, refl, refl, inl refl)
evaluated-Evaluates op group panic = (refl, refl, refl, refl, refl, inl refl)

evaluate_group-Evaluates :
    (s : StatusSort) (healthy : Option Bool) (answers : Instance → Reply) (nameless : Bool)
    (op : Operator) (group : Option Group)
    → Evaluates group op (evaluate_group s healthy answers nameless op group).1
unfolding evaluate_group Evaluates
evaluate_group-Evaluates s healthy answers nameless op none =
    (refl, refl, refl, refl, refl, inl refl)
evaluate_group-Evaluates s healthy answers nameless op (some group) = evaluated-Evaluates op group _

pub evaluate-Evaluates :
    (s : StatusSort) (sight : Sight) (op : Operator)
    → Evaluates sight.group op (evaluate s sight op).1
unfolding evaluate
evaluate-Evaluates s sight op =
    evaluate_group-Evaluates s sight.client_healthy sight.answers sight.nameless op sight.group

evaluated-server :
    (op now : Operator) (group : Group) (v : Outcome (Unit {0}) View)
    → evaluated op group v ≡ (ok tt, now)
    → now.server ≢ none
unfolding evaluated
evaluated-server op now group (ok v) h = λ e. none-ne-some _ (sym e ∙ ap (λ r. r.1.server) (sym h))
evaluated-server op now group (err e) h = absurd (crash-ne-ok panic op now panic-ne-okay h)
evaluated-server op now group panic h = absurd (crash-ne-ok panic op now panic-ne-okay h)

evaluate_group-server :
    (s : StatusSort) (healthy : Option Bool) (answers : Instance → Reply) (nameless : Bool)
    (op now : Operator) (group : Option Group)
    → evaluate_group s healthy answers nameless op group ≡ (ok tt, now)
    → now.server ≢ none
unfolding evaluate_group
evaluate_group-server s healthy answers nameless op now none h =
    absurd (crash-ne-ok (err group_failed) op now (err-ne-okay group_failed) h)
evaluate_group-server s healthy answers nameless op now (some group) h =
    evaluated-server op now group _ h

-- After an evaluation that succeeds there is a server.
pub evaluate-server :
    (s : StatusSort) (sight : Sight) (op now : Operator)
    → evaluate s sight op ≡ (ok tt, now)
    → now.server ≢ none
unfolding evaluate
evaluate-server s sight op now h =
    evaluate_group-server s sight.client_healthy sight.answers sight.nameless op now sight.group h
