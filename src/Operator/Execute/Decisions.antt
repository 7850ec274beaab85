-- ===== src/Operator/Execute/Decisions.antt =====
-- Which case of `execute` an instance takes.
use Prim.Native.Nat.{◌*◌}
use etcd_cloud_operator.Prelude.{
  codes, ℕ, ◌+◌, ◌≤◌, ◌<◌, Bool, true, false, ltb, leb, ◌==◌, ◌≡◌, ◌≢◌, ◌⊎◌, ◌↔◌, inl, inr, refl,
  subst, arith, Bool-cases,
}
use Prim.Native.Nat.{◌/◌}
use etcd_cloud_operator.Operator.Status.{state_count}
use etcd_cloud_operator.Operator.Execute.{
  Operator, Action, exits, joins, stands_by, awaits, stops, readies, seeds, fails, decide,
  decide_on,
}

-- The conditions of each case, in terms of majorities.
unfoldable pub FitsOn : Action → Bool → Bool → Bool → Bool → ℕ → ℕ → ℕ → Type 0
FitsOn exits shutdown healthy running seeder oks starts size = shutdown ≡ true
FitsOn joins shutdown healthy running seeder oks starts size =
    (shutdown ≡ false) × (healthy ≡ true) × (running ≡ false)
FitsOn stands_by shutdown healthy running seeder oks starts size =
    (shutdown ≡ false) × (healthy ≡ true) × (running ≡ true)
FitsOn awaits shutdown healthy running seeder oks starts size =
    (shutdown ≡ false) × (healthy ≡ false) × (running ≡ true) × (size < 2 * oks)
FitsOn stops shutdown healthy running seeder oks starts size =
    (shutdown ≡ false) × (healthy ≡ false) × (running ≡ true) × (2 * oks ≤ size)
FitsOn readies shutdown healthy running seeder oks starts size =
    (shutdown ≡ false)
    × (healthy ≡ false)
    × (running ≡ false)
    × ((starts ≢ size) ⊎ (seeder ≡ false))
FitsOn seeds shutdown healthy running seeder oks starts size =
    (shutdown ≡ false) × (healthy ≡ false) × (running ≡ false) × (starts ≡ size) × (seeder ≡ true)
FitsOn fails shutdown healthy running seeder oks starts size = ⊥

unfoldable pub Fits : Operator → Action → Type 0
unfolding FitsOn
Fits op a =
    FitsOn a op.shutdown op.etcd_healthy op.etcd_running op.is_seeder
      (state_count (codes "OK") op.states) (state_count (codes "START") op.states) op.cluster_size

fits_on :
    (shutdown healthy running seeder : Bool) (oks starts size : ℕ)
    → FitsOn
        (decide_on shutdown healthy running seeder oks starts size)
        shutdown
        healthy
        running
        seeder
        oks
        starts
        size
unfolding FitsOn decide_on
fits_on true h r s oks starts size = refl
fits_on false true true s oks starts size = (refl, refl, refl)
fits_on false true false s oks starts size = (refl, refl, refl)
fits_on false false true s oks starts size = elim (Bool-cases (leb (size / 2 + 1) oks)) [
  | inl e ↦ let m : size < 2 * oks = ground arith in rw e (refl, refl, refl, m)
  | inr e ↦
      let f : ltb oks (size / 2 + 1) ≡ true = ground arith in
      let m : 2 * oks ≤ size = ground arith in rw (e, f) (refl, refl, refl, m)
]
fits_on false false false false oks starts size = elim (Bool-cases (starts == size)) [
  | inl e ↦ rw e (refl, refl, refl, inr refl)
  | inr e ↦ rw e (refl, refl, refl, inr refl)
]
fits_on false false false true oks starts size = elim (Bool-cases (starts == size)) [
  | inl e ↦ let p : starts ≡ size = ground arith in rw e (refl, refl, refl, p, refl)
  | inr e ↦ let n : starts ≢ size = ground arith in rw e (refl, refl, refl, inl n)
]

only_fit :
    (a : Action) (shutdown healthy running seeder : Bool) (oks starts size : ℕ)
    → FitsOn a shutdown healthy running seeder oks starts size
    → decide_on shutdown healthy running seeder oks starts size ≡ a
unfolding FitsOn decide_on
only_fit exits sh h r s oks starts size p = rw p refl
only_fit joins sh h r s oks starts size (p, q, t) = rw (p, q, t) refl
only_fit stands_by sh h r s oks starts size (p, q, t) = rw (p, q, t) refl
only_fit awaits sh h r s oks starts size (p, q, t, m) =
    let e : leb (size / 2 + 1) oks ≡ true = ground arith in rw (p, q, t, e) refl
only_fit stops sh h r s oks starts size (p, q, t, m) =
    let e : leb (size / 2 + 1) oks ≡ false = ground arith in
    let f : ltb oks (size / 2 + 1) ≡ true = ground arith in rw (p, q, t, e, f) refl
only_fit readies sh h r s oks starts size (p, q, t, inl n) =
    let e : (starts == size) ≡ false = ground arith in rw (p, q, t, e) refl
only_fit readies sh h r s oks starts size (p, q, t, inr n) = elim (Bool-cases (starts == size)) [
  | inl e ↦ rw (p, q, t, n, e) refl
  | inr e ↦ rw (p, q, t, n, e) refl
]
only_fit seeds sh h r s oks starts size (p, q, t, m, n) =
    let e : (starts == size) ≡ true = ground arith in rw (p, q, t, e, n) refl
only_fit fails sh h r s oks starts size p = absurd p

-- Each case is taken exactly where its conditions hold; the last, which reports that there is no
-- adequate action, never is.
pub decide-Fits : (op : Operator) (a : Action) → (decide op ≡ a) ↔ Fits op a
unfolding decide Fits
decide-Fits op a = (
  λ e.
      subst
        (λ b.
          FitsOn b op.shutdown op.etcd_healthy op.etcd_running op.is_seeder
            (state_count (codes "OK") op.states) (state_count (codes "START") op.states)
            op.cluster_size)
        e
        (fits_on op.shutdown op.etcd_healthy op.etcd_running op.is_seeder
          (state_count (codes "OK") op.states) (state_count (codes "START") op.states)
          op.cluster_size),
  only_fit a op.shutdown op.etcd_healthy op.etcd_running op.is_seeder
      (state_count (codes "OK") op.states) (state_count (codes "START") op.states) op.cluster_size,
)
