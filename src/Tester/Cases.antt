-- ===== src/Tester/Cases.antt =====
-- pkg/tester/test_cases.go: which commands a test case runs on which members. The closure that a case
-- hands to ForEachMember is a step on the variables that it captures; the members are in the order in
-- which their goroutines take the lock, or reach the `once`.
pub mod Majority
pub mod Slave
mod Tests
use Prim.Native.Nat.{◌/◌}
use etcd_cloud_operator.Prelude.{
  Text, codes, ℕ, ◌+◌, ◌&&◌, Bool, true, false, not, Option, none, some, List, [], ◌∷◌, ◌++◌, ltb,
  ◌==◌, if◌then◌else◌,
}
use etcd_cloud_operator.Etcd.Config.{url_to_address}
use etcd_cloud_operator.Etcd.Client.{Visit, done, for_each_member}

-- `sudo pkill -9 operator`; the same and `sudo rm -rf /var/lib/eco/*`; and an orderly stop and the same.
pub data Command : Type 0 where
  kill kill_wipe stop_wipe : Command

-- What a case reads of a member: `peer_url` is the first of its peer URLs.
pub record Peer : Type 0 where
  pub id : ℕ
  pub name : Text
  pub peer_url : Text

-- `execRemote` of a command at an address.
pub record Remote : Type 0 where
  pub address : Text
  pub command : Command

-- What a closure does with one member: the new values of its variables, what it runs, and how it ends.
abbrev pub Closure : Type 0 → Type 0
Closure S = S → Peer → S × (List Remote × Visit)

-- The command on a member.
unfoldable pub remote_on : (Text → Text) → Command → Peer → Remote
unfolding url_to_address
remote_on host command m = record { address = url_to_address host m.peer_url; command = command }

module _ (host : Text → Text) (exec : Remote → Visit) where
  run_on : Command → Peer → List Remote × Visit
  unfolding remote_on
  run_on command m = let remote = remote_on host command m in (remote ∷ [], exec remote)

  unfoldable pub visit_members :
      {S : Type 0} → Closure S → S → List Peer → S × (List Remote × List (Text × Visit))
  visit_members f s [] = (s, ([], []))
  visit_members f s (m ∷ ms) =
      let (s', (remotes, visit)) = f s m in
      let (last, (more, visits)) = visit_members f s' ms in
      (last, (remotes ++ more, (m.name, visit) ∷ visits))

  -- `f` of killLeader, on whether the leader was killed.
  unfoldable pub leader_step : ℕ → Closure Bool
  unfolding run_on
  leader_step leader killed m =
      if m.id == leader then (true, run_on kill m) else (killed, ([], done))

  -- `f` of killOneSlave, on whether `once` was done.
  unfoldable pub slave_step : ℕ → Closure Bool
  unfolding run_on
  slave_step leader once m =
      if not (m.id == leader) && not once then (true, run_on kill m) else (once, ([], done))

  wiped_once : Option Visit → Peer → Option Visit × (List Remote × Visit)
  unfolding run_on
  wiped_once none m = let (remotes, visit) = run_on kill_wipe m in (some visit, (remotes, visit))
  wiped_once (some visit) m = (some visit, ([], visit))

  -- `f` of killWipeOneSlave, on what the command of its `once` ended in: the members after that one
  -- return the same error.
  unfoldable pub wipe_slave_step : ℕ → Closure (Option Visit)
  unfolding wiped_once
  wipe_slave_step leader once m =
      if not (m.id == leader) then wiped_once once m else (once, ([], done))

  -- `f` of killMajority and of killWipeMajority, on the counter `i`.
  unfoldable pub majority_step : Command → ℕ → Closure ℕ
  unfolding run_on
  majority_step command size i m =
      if ltb i (size / 2 + 1) then (i + 1, run_on command m) else (i, ([], done))

  -- `f` of killAll, killWipeAll and stopWipeAll.
  unfoldable pub all_step : Command → Closure (Unit {0})
  unfolding run_on
  all_step command s m = (s, run_on command m)

  -- What is run, and the errors that ForEachMember returns when the goroutines send in this order.
  abbrev injected :
      {S : Type 0}
      → List ℕ
      → S × (List Remote × List (Text × Visit))
      → List Remote × Option (List Text)
  injected order (s, (remotes, visits)) = (remotes, for_each_member order visits)

  leader_found : Bool → Option (List Text) → Option (List Text)
  leader_found killed none = none
  leader_found killed (some (e ∷ es)) = some (e ∷ es)
  leader_found true (some []) = some []
  leader_found false (some []) = some (codes "could not find leader to kill" ∷ [])

  unfoldable pub kill_leader : ℕ → List ℕ → List Peer → List Remote × Option (List Text)
  unfolding visit_members leader_step leader_found
  kill_leader leader order members =
      let (killed, (remotes, visits)) = visit_members (leader_step leader) false members in
      (remotes, leader_found killed (for_each_member order visits))

  unfoldable pub kill_one_slave : ℕ → List ℕ → List Peer → List Remote × Option (List Text)
  unfolding visit_members slave_step
  kill_one_slave leader order members =
      injected order (visit_members (slave_step leader) false members)

  unfoldable pub kill_majority : ℕ → List ℕ → List Peer → List Remote × Option (List Text)
  unfolding visit_members majority_step
  kill_majority size order members =
      injected order (visit_members (majority_step kill size) 0 members)

  unfoldable pub kill_all : List ℕ → List Peer → List Remote × Option (List Text)
  unfolding visit_members all_step
  kill_all order members = injected order (visit_members (all_step kill) tt members)

  unfoldable pub kill_wipe_one_slave : ℕ → List ℕ → List Peer → List Remote × Option (List Text)
  unfolding visit_members wipe_slave_step
  kill_wipe_one_slave leader order members =
      injected order (visit_members (wipe_slave_step leader) none members)

  unfoldable pub kill_wipe_majority : ℕ → List ℕ → List Peer → List Remote × Option (List Text)
  unfolding visit_members majority_step
  kill_wipe_majority size order members =
      injected order (visit_members (majority_step kill_wipe size) 0 members)

  unfoldable pub kill_wipe_all : List ℕ → List Peer → List Remote × Option (List Text)
  unfolding visit_members all_step
  kill_wipe_all order members = injected order (visit_members (all_step kill_wipe) tt members)

  unfoldable pub stop_wipe_all : List ℕ → List Peer → List Remote × Option (List Text)
  unfolding visit_members all_step
  stop_wipe_all order members = injected order (visit_members (all_step stop_wipe) tt members)
