-- ===== src/Operator/Execute/Readies.antt =====
-- How an instance becomes ready: what it learns of the snapshots, and the state that it reports then.
use etcd_cloud_operator.Prelude.{
  codes, lt_int, Bool, true, false, Option, some, none, Outcome, ok, err, text_eq, text_eq_iff, ◌≡◌,
  ◌⊎◌, inl, inr, refl, sym, ◌∙◌, ap, subst, Bool-cases, if◌then◌else◌,
}
use etcd_cloud_operator.Snapshot.{Metadata}
use etcd_cloud_operator.Snapshot.Latest.{SnapshotError, no_snapshot as no_stored_snapshot}
use etcd_cloud_operator.Etcd.Config.{TlsInfo}
use etcd_cloud_operator.Etcd.Effects.{ServerError, no_snapshot, Env, World}
use etcd_cloud_operator.Etcd.Server.{ServerConfig, snapshot_info, choose_snapshot}
use etcd_cloud_operator.Operator.Acl.Effects.{AclEnv}
use etcd_cloud_operator.Operator.Execute.{
  Operator, readies, decide, execute, act, get_ready, look_up, informed, after_action, reconciles,
}

get_ready_again :
    (env : Env) (op : Operator)
    → text_eq op.state (codes "START") ≡ true
    → get_ready env op ≡ (ok tt, op)
unfolding get_ready
get_ready_again env op e = rw e refl

reconciles_not_ok :
    (acl_env : AclEnv) (op : Operator)
    → text_eq op.state (codes "OK") ≡ false
    → after_action acl_env (ok tt, op) ≡ (ok tt, op)
unfolding after_action reconciles
reconciles_not_ok acl_env op e = rw e refl

start_state-ne-ok_state : text_eq (codes "START") (codes "OK") ≡ false
unfolding text_eq
start_state-ne-ok_state = refl

-- An instance that reports the state START keeps the snapshot that it found, and everything else, until
-- it seeds the cluster or its group changes state.
pub stays_ready :
    (env : Env) (tls_empty : TlsInfo → Bool) (acl_env : AclEnv) (op : Operator)
    → op.state ≡ codes "START"
    → decide op ≡ readies
    → execute env tls_empty acl_env op ≡ (ok tt, op)
unfolding execute act
stays_ready env tls_empty acl_env op s d =
    ap (λ a. after_action acl_env (act env tls_empty a op)) d
    ∙ (ap (after_action acl_env)
          (get_ready_again env op ((text_eq_iff op.state (codes "START")).1 s))
        ∙ reconciles_not_ok acl_env op
            (subst (λ t. text_eq t (codes "OK") ≡ false) (sym s) start_state-ne-ok_state))

-- There is a snapshot, or there is none.
abbrev pub IsKnown : Outcome SnapshotError Metadata → Type 0
IsKnown r = ((m : Metadata) × (r ≡ ok m)) ⊎ (r ≡ err no_stored_snapshot)

-- Whenever it is asked.
abbrev pub IsInformed : Env → Type 0
IsInformed env =
    ((w : World) (cfg : ServerConfig) → IsKnown (env.on_local_info w.trace cfg.data_dir))
    × ((w : World) → IsKnown (env.on_provider_info w.trace))

info_known :
    (env : Env) (cfg : ServerConfig) (w : World)
    → w.is_running ≡ false
    → IsKnown (env.on_local_info w.trace cfg.data_dir)
    → IsKnown (env.on_provider_info w.trace)
    → ((m : Metadata) × (snapshot_info env cfg w ≡ (ok (some m), w)))
      ⊎ (snapshot_info env cfg w ≡ (err no_snapshot, w))
unfolding snapshot_info choose_snapshot
info_known env cfg w s (inl (l, a)) (inl (c, b)) =
    elim (Bool-cases (lt_int l.revision c.revision)) [
      | inl e ↦ inl (c, (rw (s, a, b, e) refl))
      | inr e ↦ inl (l, (rw (s, a, b, e) refl))
    ]
info_known env cfg w s (inl (l, a)) (inr b) = inl (l, (rw (s, a, b) refl))
info_known env cfg w s (inr a) (inl (c, b)) = inl (c, (rw (s, a, b) refl))
info_known env cfg w s (inr a) (inr b) = inr (rw (s, a, b) refl)

-- The second operator is in the state START; nothing was done to its server, nor was it told to shut down.
unfoldable pub Readied : Operator → Operator → Type 0
Readied op now = (now.state ≡ codes "START") × (now.world ≡ op.world) × (now.shutdown ≡ op.shutdown)

informed-Readied :
    (op : Operator) (r : Outcome ServerError (Option Metadata) × World)
    → ((m : Metadata) × (r ≡ (ok (some m), op.world))) ⊎ (r ≡ (err no_snapshot, op.world))
    → (now : Operator) × (informed op r ≡ (ok tt, now)) × Readied op now
unfolding informed Readied
informed-Readied op r (inl (m, h)) = (
  record op { etcd_snapshot = some m; state = codes "START" },
  ap (informed op) h,
  (refl, refl, refl),
)
informed-Readied op r (inr h) = (
  record op { etcd_snapshot = none; state = codes "START" },
  ap (informed op) h,
  (refl, refl, refl),
)

get_ready-Readied :
    (env : Env) (op : Operator) (cfg : ServerConfig)
    → op.server ≡ some cfg
    → op.world.is_running ≡ false
    → IsInformed env
    → (now : Operator) × (get_ready env op ≡ (ok tt, now)) × Readied op now
unfolding Readied get_ready look_up
get_ready-Readied env op cfg s stopped (local, stored) =
    elim (Bool-cases (text_eq op.state (codes "START"))) [
      | inl e ↦
          (op, get_ready_again env op e, ((text_eq_iff op.state (codes "START")).0 e, refl, refl))
      | inr e ↦
          let known = info_known env cfg op.world stopped (local op.world cfg) (stored op.world) in
          let (now, h, r) = informed-Readied op (snapshot_info env cfg op.world) known in
          (
            now,
            ap (λ b. if b then (ok tt, op) else look_up env op op.server) e
                ∙ (ap (look_up env op) s ∙ h),
            r,
          )
    ]

-- A case of waiting for the others or the seeder, while the snapshots are known, ends in the state START.
pub execute-Readied :
    (env : Env) (tls_empty : TlsInfo → Bool) (acl_env : AclEnv) (op : Operator) (cfg : ServerConfig)
    → decide op ≡ readies
    → op.server ≡ some cfg
    → op.world.is_running ≡ false
    → IsInformed env
    → (now : Operator) × (execute env tls_empty acl_env op ≡ (ok tt, now)) × Readied op now
unfolding execute act Readied
execute-Readied env tls_empty acl_env op cfg d s stopped known =
    let (now, h, r) = get_ready-Readied env op cfg s stopped known in
    (
      now,
      ap (λ a. after_action acl_env (act env tls_empty a op)) d
          ∙ (ap (after_action acl_env) h
              ∙ reconciles_not_ok acl_env now
                  (subst (λ t. text_eq t (codes "OK") ≡ false) (sym r.0) start_state-ne-ok_state)),
      r,
    )
