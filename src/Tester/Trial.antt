-- ===== src/Tester/Trial.antt =====
-- pkg/tester/tester.go: runTest and the data marker. What the cluster answers is a parameter; the sleeps
-- are not modelled.
pub mod Wait
pub mod Ends
mod Tests
use etcd_cloud_operator.Prelude.{
  Text, codes, ℕ, zero, suc, ◌+◌, Bool, true, false, not, ◌&&◌, ltb, ◌==◌, Option, none, some, List,
  [], ◌∷◌, ◌++◌, if◌then◌else◌,
}

-- The loop that waits for four healthy checks in a row. `check n` is whether the n-th check finds the cluster
-- healthy, i is the counter, and n counts the checks made. The loop of the code has no bound; here it is
-- none that the fuel does not suffice.
unfoldable pub wait_healthy : (ℕ → Bool) → ℕ → ℕ → ℕ → Option ℕ
wait_healthy check zero i n = none
wait_healthy check (suc fuel) i n =
    let next = wait_healthy check fuel (if check n then i + 1 else 0) (n + 1) in
    if ltb i 4 then next else some n

-- What `verify` reads: none where the read fails, or the values of the key.
unfoldable pub verify_time : ℕ → Bool → Option ℕ → Option Text
verify_time time is_lossy none = some (codes "failed to verify data marker: unexpected read value")
verify_time time is_lossy (some t) =
    if not (t == time) && not is_lossy
    then some (codes "failed to verify data marker: unexpected value")
    else none

-- `verify` of the data marker, on the time that was set.
unfoldable pub verify : (Text → Option ℕ) → ℕ → Bool → Option (List Text) → Option Text
unfolding verify_time
verify parse_time time is_lossy none =
    some (codes "failed to verify data marker: it has disappeared")
verify parse_time time is_lossy (some []) =
    some (codes "failed to verify data marker: it has disappeared")
verify parse_time time is_lossy (some (value ∷ values)) =
    verify_time time is_lossy (parse_time value)

-- The steps of a test: those that change something, and the wait, with the number of checks that it made.
pub data Event : Type 0 where
  cleaned marked stress_started injected stress_stopped : Event
  waited : ℕ → Event

-- How a test ends. `finished` has the error of the marker's verification; a fatal error ends the program.
pub data Ending : Type 0 where
  skipped fatal : Ending
  finished : Option Text → Ending

-- What the cluster answers during one test.
pub record TrialEnv : Type 0 where
  pub marker_set : Bool
  -- The leader that the first health check finds, or none where the cluster is unhealthy.
  pub first_health : Option ℕ
  -- Whether the failure can be injected, given the leader.
  pub injects : ℕ → Bool
  pub check : ℕ → Bool
  pub consistent : Bool
  pub on_marker : Option (List Text)
  pub parse_time : Text → Option ℕ
  pub time : ℕ

after_wait : TrialEnv → Bool → Option ℕ → Option (Ending × List Event)
unfolding verify
after_wait env is_lossy none = none
after_wait env is_lossy (some n) = some (
  if env.consistent
      then finished (verify env.parse_time env.time is_lossy env.on_marker)
      else fatal,
  cleaned ∷ marked ∷ stress_started ∷ injected ∷ waited n ∷ stress_stopped ∷ [],
)

with_leader : ℕ → TrialEnv → Bool → Option ℕ → Option (Ending × List Event)
unfolding after_wait wait_healthy
with_leader fuel env is_lossy none = some (fatal, cleaned ∷ marked ∷ [])
with_leader fuel env is_lossy (some leader) =
    if env.injects leader
    then after_wait env is_lossy (wait_healthy env.check fuel 0 0)
    else some (skipped, cleaned ∷ marked ∷ stress_started ∷ [])

-- `runTest`: how it ends, and its steps; none where the fuel does not suffice for the wait.
unfoldable pub run_test : ℕ → TrialEnv → Bool → Option (Ending × List Event)
unfolding with_leader
run_test fuel env is_lossy =
    if env.marker_set
    then with_leader fuel env is_lossy env.first_health
    else some (skipped, cleaned ∷ [])
