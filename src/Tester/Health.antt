-- ===== src/Tester/Health.antt =====
-- pkg/tester/client.go: isHealthy. What the members answer, in the order in which their goroutines come,
-- is a parameter; execRemote, which speaks ssh, is one of Cases.
pub mod Gathering
pub mod Agreement
mod Tests
use etcd_cloud_operator.Prelude.{
  Text, codes, ℕ, suc, ◌+◌, Bool, true, false, not, ◌||◌, ltb, ◌==◌, Option, none, some, List, [],
  ◌∷◌, if◌then◌else◌,
}

-- What the closure of isHealthy gathers.
pub record Gathered : Type 0 where
  pub healthy : ℕ
  pub unhealthy : ℕ
  pub leader : ℕ
  pub leader_changed : Bool

-- A member answers with the leader that it knows, or not.
unfoldable pub gather_one : Option ℕ → Gathered → Gathered
gather_one none g = record g { unhealthy = g.unhealthy + 1 }
gather_one (some leader) g =
    if g.leader == 0 then record g { healthy = g.healthy + 1; leader = leader } else record g {
      healthy = g.healthy + 1;
      leader_changed = g.leader_changed || not (leader == g.leader);
    }

unfoldable pub gather : List (Option ℕ) → Gathered → Gathered
unfolding gather_one
gather [] g = g
gather (status ∷ statuses) g = gather statuses (gather_one status g)

abbrev pub nothing_gathered : Gathered
nothing_gathered = record { healthy = 0; unhealthy = 0; leader = 0; leader_changed = false }

-- The alarms that fire, or none where they cannot be listed.
check_alarms : Option ℕ → Option Text
check_alarms none = some (codes "failed to retrieve alarms")
check_alarms (some alarms) = if ltb 0 alarms then some (codes "cluster has alarms firing") else none

check_gathered : ℕ → Option ℕ → Gathered → Option Text
unfolding check_alarms
check_gathered size alarms g =
    if g.leader_changed
    then some (codes "leader has changed during member listing, or all members do not agree on one")
    else if ltb 0 g.unhealthy
    then some (codes "cluster has unhealthy members")
    else if not (g.healthy == size)
    then some (codes "cluster has fewer or more healthy members than expected")
    else check_alarms alarms

-- `isHealthy`: the leader, and the error, which is none for nil.
unfoldable pub is_healthy : Bool → ℕ → List (Option ℕ) → Option ℕ → ℕ × Option Text
unfolding gather check_gathered
is_healthy quorum size statuses alarms =
    let g = gather statuses nothing_gathered in
    if not quorum
    then (0, some (codes "cluster doesn't have quorum"))
    else (g.leader, check_gathered size alarms g)
