-- ===== src/Tester/Trial/Ends.antt =====
-- How a test ends.
use mathlib.Core.Bool.{false≢true}
use mathlib.Core.Option.{none-ne-some, some-injective}
use etcd_cloud_operator.Prelude.{
  Text, ℕ, ◌+◌, Bool, true, false, not, ◌&&◌, ◌==◌, ==_iff, Option, none, some, List, [], ◌∷◌, ◌≡◌,
  ◌≤◌, ◌↔◌, ◌⊎◌, inl, inr, refl, sym, ◌∙◌, subst, Bool-cases, if◌then◌else◌,
}
use etcd_cloud_operator.Tester.Trial.{
  wait_healthy, verify, verify_time, Event, cleaned, marked, stress_started, injected,
  stress_stopped, waited, Ending, skipped, fatal, finished, TrialEnv, after_wait, with_leader,
  run_test,
}
use etcd_cloud_operator.Tester.Trial.Wait.{IsWindow, wait_healthy-IsWindow}

-- The marker is there and can be read, and its time is the one that was set, unless the case may lose it.
unfoldable pub IsMarked : (Text → Option ℕ) → ℕ → Bool → Option (List Text) → Type 0
IsMarked parse_time time is_lossy none = ⊥
IsMarked parse_time time is_lossy (some []) = ⊥
IsMarked parse_time time is_lossy (some (value ∷ values)) =
    (t : ℕ) × (parse_time value ≡ some t) × ((t ≡ time) ⊎ (is_lossy ≡ true))

wrong-ne-nil : {x : Text} → ¬ (◌≡◌ {A = Option Text} (some x) none)
wrong-ne-nil h = cc

allowed :
    (t time : ℕ) (is_lossy : Bool)
    → (t ≡ time) ⊎ (is_lossy ≡ true)
    → not (t == time) && not is_lossy ≡ false
allowed t time is_lossy (inl e) = let same = (==_iff t time).1 e in rw same refl
allowed t time true (inr e) = elim (Bool-cases (t == time)) [
  | inl f ↦ rw f refl
  | inr f ↦ rw f refl
]
allowed t time false (inr e) = absurd (false≢true e)

excused :
    (t time : ℕ) (is_lossy : Bool)
    → not (t == time) && not is_lossy ≡ false
    → (t ≡ time) ⊎ (is_lossy ≡ true)
excused t time true h = inr refl
excused t time false h = elim (Bool-cases (t == time)) [
  | inl e ↦ inl ((==_iff t time).0 e)
  | inr e ↦ absurd (false≢true (sym (rw e at h)))
]

timed :
    (time : ℕ) (is_lossy : Bool) (o : Option ℕ)
    → (verify_time time is_lossy o ≡ none)
      ↔ ((t : ℕ) × (o ≡ some t) × ((t ≡ time) ⊎ (is_lossy ≡ true)))
unfolding verify_time
timed time is_lossy none = (λ h. absurd (wrong-ne-nil h), λ (t, e, _). absurd (none-ne-some t e))
timed time is_lossy (some t) = elim (Bool-cases (not (t == time) && not is_lossy)) [
  | inl b ↦ rw b (
    λ h. absurd (wrong-ne-nil h),
    λ (u, e, m). absurd (
        false≢true (
          sym (
            allowed t time is_lossy
              (subst (λ x. (x ≡ time) ⊎ (is_lossy ≡ true)) (sym (some-injective t u e)) m))
          ∙ b)),
  )
  | inr b ↦ rw b (λ h. (t, refl, excused t time is_lossy b), λ h. refl)
]

-- The verification of the data marker returns nil just when the marker is there and can be read, with the
-- time that was set, or with any in a case that may lose data.
pub verify-IsMarked :
    (parse_time : Text → Option ℕ) (time : ℕ) (is_lossy : Bool) (found : Option (List Text))
    → (verify parse_time time is_lossy found ≡ none) ↔ IsMarked parse_time time is_lossy found
unfolding verify IsMarked
verify-IsMarked parse_time time is_lossy none = (λ h. wrong-ne-nil h, λ h. absurd h)
verify-IsMarked parse_time time is_lossy (some []) = (λ h. wrong-ne-nil h, λ h. absurd h)
verify-IsMarked parse_time time is_lossy (some (value ∷ values)) =
    timed time is_lossy (parse_time value)

-- What a test says in the end: it is fatal where the cluster is inconsistent, and otherwise tells an error
-- unless the data marker is as it should be.
abbrev pub IsVerdict : TrialEnv → Bool → Ending → Type 0
IsVerdict env is_lossy ending =
    ((ending ≡ fatal) × (env.consistent ≡ false))
    ⊎ ((failure : Option Text) × (ending ≡ finished failure)
        × (env.consistent ≡ true)
        × ((failure ≡ none) ↔ IsMarked env.parse_time env.time is_lossy env.on_marker))

-- The ways in which a test ends, with the steps that it made.
pub data Ends (env : TrialEnv) (is_lossy : Bool) : Option (Ending × List Event) → Type 0 where
  unmarked : env.marker_set ≡ false → Ends env is_lossy (some (skipped, cleaned ∷ []))
  unhealthy :
      env.marker_set ≡ true
      → env.first_health ≡ none
      → Ends env is_lossy (some (fatal, cleaned ∷ marked ∷ []))
  not_injected :
      (leader : ℕ)
      → env.marker_set ≡ true
      → env.first_health ≡ some leader
      → env.injects leader ≡ false
      → Ends env is_lossy (some (skipped, cleaned ∷ marked ∷ stress_started ∷ []))
  waited_for :
      (leader j : ℕ) (ending : Ending)
      → env.marker_set ≡ true
      → env.first_health ≡ some leader
      → env.injects leader ≡ true
      → IsWindow env.check j
      → ((l : ℕ) → IsWindow env.check l → j ≤ l)
      → IsVerdict env is_lossy ending
      → Ends env is_lossy (
          some (
            ending,
            cleaned ∷ marked ∷ stress_started ∷ injected ∷ waited (j + 4) ∷ stress_stopped ∷ [],
          ))

judged : TrialEnv → Bool → Bool → Ending
unfolding verify
judged env is_lossy consistent =
    if consistent then finished (verify env.parse_time env.time is_lossy env.on_marker) else fatal

judged-IsVerdict :
    (env : TrialEnv) (is_lossy consistent : Bool)
    → env.consistent ≡ consistent
    → IsVerdict env is_lossy (judged env is_lossy consistent)
unfolding judged
judged-IsVerdict env is_lossy true e = inr (
  verify env.parse_time env.time is_lossy env.on_marker,
  refl,
  e,
  verify-IsMarked env.parse_time env.time is_lossy env.on_marker,
)
judged-IsVerdict env is_lossy false e = inl (refl, e)

leader-Ends :
    (env : TrialEnv) (is_lossy : Bool) (k : ℕ) (o : Option ℕ)
    → IsWindow env.check k
    → env.marker_set ≡ true
    → env.first_health ≡ o
    → Ends env is_lossy (with_leader (k + 5) env is_lossy o)
unfolding with_leader after_wait judged
leader-Ends env is_lossy k none w e f = unhealthy e f
leader-Ends env is_lossy k (some leader) w e f =
    let go : Bool → Option (Ending × List Event) = λ b.
      if b
      then after_wait env is_lossy (wait_healthy env.check (k + 5) 0 0)
      else some (skipped, cleaned ∷ marked ∷ stress_started ∷ []) in
    elim (Bool-cases (env.injects leader)) [
      | inr g ↦ subst (λ b. Ends env is_lossy (go b)) (sym g) (not_injected leader e f g)
      | inl g ↦
          let (j, h, window, least) = wait_healthy-IsWindow env.check k w in
          subst (λ b. Ends env is_lossy (go b)) (sym g)
            (subst (λ o. Ends env is_lossy (after_wait env is_lossy o)) (sym h)
              (waited_for leader j (judged env is_lossy env.consistent) e f g window least
                (judged-IsVerdict env is_lossy env.consistent refl)))
    ]

-- Where four checks in a row will find the cluster healthy, a test ends: skipped before the load if the
-- marker cannot be set, fatally before it if the cluster is unhealthy, skipped with the load still on if the
-- failure cannot be injected, and otherwise after the first four healthy checks in a row, with the load
-- stopped, fatally if the cluster is inconsistent and with an error unless the marker is as it should be.
pub run_test-Ends :
    (env : TrialEnv) (is_lossy : Bool) (k : ℕ)
    → IsWindow env.check k
    → Ends env is_lossy (run_test (k + 5) env is_lossy)
unfolding run_test
run_test-Ends env is_lossy k w =
    let go : Bool → Option (Ending × List Event) = λ b.
      if b
      then with_leader (k + 5) env is_lossy env.first_health
      else some (skipped, cleaned ∷ []) in
    elim (Bool-cases env.marker_set) [
      | inr e ↦ subst (λ b. Ends env is_lossy (go b)) (sym e) (unmarked e)
      | inl e ↦
          subst (λ b. Ends env is_lossy (go b)) (sym e)
            (leader-Ends env is_lossy k env.first_health w e refl)
    ]
