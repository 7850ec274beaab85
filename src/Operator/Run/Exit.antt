-- ===== src/Operator/Run/Exit.antt =====
-- How the loop of the operator ends.
use mathlib.Core.Bool.{false≢true}
use etcd_cloud_operator.Prelude.{
  Bool, true, false, Outcome, ok, err, panic, ok-injective, ◌⊎◌, inl, inr, ◌≡◌, refl, sym, ◌∙◌, ap,
  subst, Bool-cases, if◌then◌else◌,
}
use etcd_cloud_operator.Operator.Execute.{Operator, Result, evaluate, execute, wait}
use etcd_cloud_operator.Operator.Execute.Evaluations.{Evaluates, evaluate-Evaluates}
use etcd_cloud_operator.Operator.Execute.Follows.{Settles, Follows, execute-Follows}
use etcd_cloud_operator.Operator.Execute.Shutdown.{Ends, returns_not_panic, execute_shutdown}
use etcd_cloud_operator.Operator.Run.{Circumstances, finish, act_on, turn}
use etcd_cloud_operator.Operator.Run.Reach.{panic-ne-turned}

-- The process ended, by a panic or by an exit.
abbrev pub IsOver : Outcome (Unit {0}) Operator → Type 0
IsOver r = (r ≡ panic) ⊎ ((now : Operator) × (r ≡ ok now) × (now.exited ≡ true))

finish-IsOver : (signalled : Bool) (r : Result) → Ends r → IsOver (finish signalled r)
unfolding finish
finish-IsOver signalled (panic, op) h = inl refl
finish-IsOver signalled (ok x, op) (inl p) = absurd (returns_not_panic (ok x) (inl refl) p)
finish-IsOver signalled (ok x, op) (inr e) = inr (op, (rw e refl), e)
finish-IsOver signalled (err x, op) (inl p) = absurd (returns_not_panic (err x) (inr (x, refl)) p)
finish-IsOver signalled (err x, op) (inr e) = inr (op, (rw e refl), e)

act_on-IsOver :
    (c : Circumstances) (op : Operator) → op.shutdown ≡ true → IsOver (act_on c (ok tt, op))
unfolding act_on
act_on-IsOver c op down =
    finish-IsOver c.signalled (execute c.env c.tls_empty c.acl_env op)
      (execute_shutdown c.env c.tls_empty c.acl_env op down)

-- A turn that begins after the signal, and can evaluate the group, is the last one.
turn_shutdown :
    (c : Circumstances) (op now : Operator)
    → op.shutdown ≡ true
    → evaluate c.sorter c.sight op ≡ (ok tt, now)
    → IsOver (turn c op)
unfolding turn Evaluates
turn_shutdown c op now down h =
    let (_, _, _, same, _, _) = evaluate-Evaluates c.sorter c.sight op in
    subst (λ r. IsOver (act_on c r)) (sym h)
      (act_on-IsOver c now (ap (λ r. r.1.shutdown) (sym h) ∙ (same ∙ down)))

-- To shut down, or gone already.
abbrev pub IsDown : Operator → Type 0
IsDown op = (op.exited ≡ true) ⊎ (op.shutdown ≡ true)

wait-IsDown :
    (signalled : Bool) (op : Operator)
    → (signalled ≡ true) ⊎ (op.shutdown ≡ true)
    → IsDown (wait signalled op)
unfolding wait
wait-IsDown true op h = inr refl
wait-IsDown false op (inl e) = absurd (false≢true e)
wait-IsDown false op (inr e) = inr e

waits-IsDown :
    (signalled : Bool) (op : Operator)
    → (signalled ≡ true) ⊎ (op.shutdown ≡ true)
    → IsDown (if op.exited then op else wait signalled op)
waits-IsDown signalled op h = elim (Bool-cases op.exited) [
  | inl e ↦ subst (λ b. IsDown (if b then op else wait signalled op)) (sym e) (inl e)
  | inr e ↦
      subst (λ b. IsDown (if b then op else wait signalled op)) (sym e) (wait-IsDown signalled op h)
]

finish-IsDown :
    (signalled : Bool) (r : Result) (now : Operator)
    → (signalled ≡ true) ⊎ (r.1.shutdown ≡ true)
    → finish signalled r ≡ ok now
    → IsDown now
unfolding finish
finish-IsDown signalled (ok x, op) now d h =
    subst IsDown (ok-injective h) (waits-IsDown signalled op d)
finish-IsDown signalled (err x, op) now d h =
    subst IsDown (ok-injective h) (waits-IsDown signalled op d)
finish-IsDown signalled (panic, op) now d h = absurd (panic-ne-turned h)

act_on-IsDown :
    (c : Circumstances) (r : Result) (now : Operator)
    → (c.signalled ≡ true) ⊎ (r.1.shutdown ≡ true)
    → act_on c r ≡ ok now
    → IsDown now
unfolding act_on Follows Settles
act_on-IsDown c (ok x, op) now d h =
    let ((_, _, _, same), _, _) = execute-Follows c.env c.tls_empty c.acl_env op in
    finish-IsDown c.signalled (execute c.env c.tls_empty c.acl_env op) now
      (elim d [ inl s ↦ inl s | inr e ↦ inr (same ∙ e) ]) h
act_on-IsDown c (err x, op) now d h = subst IsDown (ok-injective h) (wait-IsDown c.signalled op d)
act_on-IsDown c (panic, op) now d h = absurd (panic-ne-turned h)

-- The signal that ends a wait is noted, and no turn takes it back.
turn-IsDown :
    (c : Circumstances) (op now : Operator)
    → (c.signalled ≡ true) ⊎ (op.shutdown ≡ true)
    → turn c op ≡ ok now
    → IsDown now
unfolding turn Evaluates
turn-IsDown c op now d h =
    let (_, _, _, same, _, _) = evaluate-Evaluates c.sorter c.sight op in
    act_on-IsDown c (evaluate c.sorter c.sight op) now
      (elim d [ inl s ↦ inl s | inr e ↦ inr (same ∙ e) ]) h

-- Turns that return, one after the other, none of them of a process that exited.
pub data Turns : Operator → Operator → Type 0 where
  none_left : (op : Operator) → Turns op op
  one_more :
      (c : Circumstances) (op mid now : Operator)
      → turn c op ≡ ok mid
      → mid.exited ≡ false
      → Turns mid now
      → Turns op now

Turns-shutdown : (op now : Operator) → op.shutdown ≡ true → Turns op now → now.shutdown ≡ true
Turns-shutdown _ _ down (none_left op) = down
Turns-shutdown _ _ down (one_more c op mid now h alive ts) =
    elim (turn-IsDown c op mid (inr down) h) [
      | inl gone ↦ absurd (false≢true (sym alive ∙ gone))
      | inr still ↦ Turns-shutdown mid now still ts
    ]

-- Once the signal to shut down ended the wait of a turn, the first later turn that can evaluate the group
-- is the last one: it panics, or it leaves the process exited. The turns between the two, which cannot
-- evaluate it or whose process goes on, do not lose the signal.
pub exits_on_signal :
    (c : Circumstances) (op signalled late now : Operator) (last : Circumstances)
    → c.signalled ≡ true
    → turn c op ≡ ok signalled
    → signalled.exited ≡ false
    → Turns signalled late
    → evaluate last.sorter last.sight late ≡ (ok tt, now)
    → (turn last late ≡ panic)
      ⊎ ((over : Operator) × (turn last late ≡ ok over) × (over.exited ≡ true))
exits_on_signal c op signalled late now last s h alive ts e =
    elim (turn-IsDown c op signalled (inl s) h) [
      | inl gone ↦ absurd (false≢true (sym alive ∙ gone))
      | inr down ↦ turn_shutdown last late now (Turns-shutdown signalled late down ts) e
    ]
