-- ===== src/Operator/Execute/Effects.antt =====
-- What an evaluation and the action after it change.
use Prim.Native.Nat.{◌*◌}
use etcd_cloud_operator.Prelude.{
  none, Text, codes, ◌≤◌, Bool, true, false, some, ok, err, text_eq, ◌≡◌, if◌then◌else◌, sym, ◌∙◌,
  ap, subst, Perm,
}
use etcd_cloud_operator.Etcd.Config.{TlsInfo}
use etcd_cloud_operator.Etcd.Effects.{Env}
use etcd_cloud_operator.Operator.Status.{StatusSort, fetch_all, state_count}
use etcd_cloud_operator.Operator.Status.Seeder.{seeders_agree}
use etcd_cloud_operator.Operator.Status.Counts.{tally}
use etcd_cloud_operator.Etcd.Effects.{World, failed}
use etcd_cloud_operator.Etcd.Server.{ServerConfig, snapshot_info}
use etcd_cloud_operator.Operator.Acl.Effects.{AclEnv}
use etcd_cloud_operator.Operator.Execute.{
  Operator, Group, Sight, evaluate, stops, readies, seeds, decide, execute, act, get_ready, look_up,
  informed, server_failed, after_action,
}
use etcd_cloud_operator.Operator.Execute.Evaluations.{
  Shows, evaluate-Shows, evaluate-tally, evaluate-size,
}
use etcd_cloud_operator.Operator.Execute.Decisions.{Fits, FitsOn, decide-Fits}

seeds-is_seeder : (op : Operator) → decide op ≡ seeds → op.is_seeder ≡ true
unfolding Fits FitsOn
seeds-is_seeder op d = let (_, _, _, _, b) = (decide-Fits op seeds).0 d in b

-- Two instances of one group that got the same statuses never both seed the cluster, unless they are
-- one instance by name.
pub seeds_once :
    (s t : StatusSort) (sight sight' : Sight) (group group' : Group) (op op' now now' : Operator)
    → sight.group ≡ some group
    → sight'.group ≡ some group'
    → Perm (fetch_all sight.answers group.instances) (fetch_all sight'.answers group'.instances)
    → evaluate s sight op ≡ (ok tt, now)
    → evaluate t sight' op' ≡ (ok tt, now')
    → decide now ≡ seeds
    → decide now' ≡ seeds
    → group.self.name ≡ group'.self.name
unfolding Shows
seeds_once s t sight sight' group group' op op' now now' g g' p e e' d d' =
    let (v, f, (seen, _, _)) = evaluate-Shows s sight group op now g e in
    let (v', f', (seen', _, _)) = evaluate-Shows t sight' group' op' now' g' e' in
    seeders_agree s t sight.client_healthy sight'.client_healthy sight.answers sight'.answers
      group.instances group'.instances group.self group'.self v v' p f f'
      (sym seen ∙ seeds-is_seeder now d) (sym seen' ∙ seeds-is_seeder now' d')

-- An instance stops etcd for want of a quorum only where at most half of the group report the state OK.
pub stops_without_majority :
    (s : StatusSort) (sight : Sight) (group : Group) (op now : Operator)
    → sight.group ≡ some group
    → evaluate s sight op ≡ (ok tt, now)
    → decide now ≡ stops
    → 2 * tally (codes "OK") (fetch_all sight.answers group.instances) ≤ group.size
unfolding Fits FitsOn
stops_without_majority s sight group op now g e d =
    let (_, _, _, few) = (decide-Fits now stops).0 d in
    let counted = evaluate-tally s sight group op now (codes "OK") g e in
    let size = evaluate-size s sight group op now g e in
    subst (λ n. 2 * n ≤ group.size) counted
      (subst (λ n. 2 * state_count (codes "OK") now.states ≤ n) size few)

-- An instance seeds the cluster only where as many instances as the group has report the state START.
pub seeds_when_all_ready :
    (s : StatusSort) (sight : Sight) (group : Group) (op now : Operator)
    → sight.group ≡ some group
    → evaluate s sight op ≡ (ok tt, now)
    → decide now ≡ seeds
    → tally (codes "START") (fetch_all sight.answers group.instances) ≡ group.size
unfolding Fits FitsOn
seeds_when_all_ready s sight group op now g e d =
    let (_, _, _, all, _) = (decide-Fits now seeds).0 d in
    sym (evaluate-tally s sight group op now (codes "START") g e)
    ∙ (all ∙ evaluate-size s sight group op now g e)

get_ready_fails :
    (env : Env) (op : Operator) (cfg : ServerConfig) (w : World) (reason : Text)
    → text_eq op.state (codes "START") ≡ false
    → op.server ≡ some cfg
    → snapshot_info env cfg op.world ≡ (err (failed reason), w)
    → get_ready env op
      ≡ (err (server_failed (failed reason)), record op { world = w; etcd_snapshot = none })
unfolding get_ready look_up informed
get_ready_fails env op cfg w reason e s i =
    ap (λ b. if b then (ok tt, op) else look_up env op op.server) e
    ∙ (ap (look_up env op) s ∙ ap (informed op) i)

-- An instance that is to become ready, and cannot learn of the snapshots, returns that error and keeps the
-- state that it reported before, though etcd neither runs on it nor is healthy.
pub keeps_state_on_failure :
    (env : Env) (tls_empty : TlsInfo → Bool) (acl_env : AclEnv) (op : Operator) (cfg : ServerConfig)
    (w : World) (reason : Text)
    → decide op ≡ readies
    → text_eq op.state (codes "START") ≡ false
    → op.server ≡ some cfg
    → snapshot_info env cfg op.world ≡ (err (failed reason), w)
    → (execute env tls_empty acl_env op
        ≡ (err (server_failed (failed reason)), record op { world = w; etcd_snapshot = none }))
      × (op.etcd_healthy ≡ false)
      × (op.etcd_running ≡ false)
unfolding execute act after_action Fits FitsOn
keeps_state_on_failure env tls_empty acl_env op cfg w reason d e s i =
    let (_, unhealthy, stopped, _) = (decide-Fits op readies).0 d in
    (
      ap (λ a. after_action acl_env (act env tls_empty a op)) d
          ∙ ap (after_action acl_env) (get_ready_fails env op cfg w reason e s i),
      unhealthy,
      stopped,
    )
