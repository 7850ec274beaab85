-- ===== src/Tester/Cases/Majority.antt =====
-- How many members a case kills that is to kill a majority of them.
use Prim.Native.Nat.{◌/◌, ◌*◌}
use etcd_cloud_operator.Prelude.{
  Text, ℕ, zero, suc, ◌+◌, ◌≤◌, ◌<◌, true, false, List, [], ◌∷◌, map, take, length, length-take,
  ltb, ◌≡◌, refl, sym, ap, subst, arith,
}
use etcd_cloud_operator.Etcd.Client.{Visit}
use etcd_cloud_operator.Tester.Cases.{
  Command, kill, kill_wipe, Peer, Remote, visit_members, majority_step, run_on, remote_on,
  kill_majority, kill_wipe_majority,
}

module _ (host : Text → Text) (exec : Remote → Visit) where
  -- With `left` of the majority to kill, the first members that come are killed.
  majority_left :
      (command : Command) (size i left : ℕ) (ms : List Peer)
      → i + left ≡ size / 2 + 1
      → (visit_members host exec (majority_step host exec command size) i ms).1.0
        ≡ map (remote_on host command) (take left ms)
  unfolding visit_members majority_step run_on remote_on
  majority_left command size i zero [] h = refl
  majority_left command size i (suc left) [] h = refl
  majority_left command size i zero (m ∷ ms) h =
      let full : ltb i (size / 2 + 1) ≡ false = ground arith in
      rw full (majority_left command size i zero ms h)
  majority_left command size i (suc left) (m ∷ ms) h =
      let more : ltb i (size / 2 + 1) ≡ true = ground arith in
      rw more (
        ap (λ l. remote_on host command m ∷ l)
          (majority_left command size (i + 1) left ms (omega arith)))

  length-map_remote :
      (command : Command) (ms : List Peer) → length (map (remote_on host command) ms) ≡ length ms
  length-map_remote command [] = refl
  length-map_remote command (m ∷ ms) = ap suc (length-map_remote command ms)

  killed :
      (command : Command) (size : ℕ) (ms : List Peer)
      → length ms ≡ size
      → 0 < size
      → size < 2 * length (map (remote_on host command) (take (size / 2 + 1) ms))
  killed command size ms h some_left =
      let n = length-map_remote command (take (size / 2 + 1) ms) in
      let enough : size / 2 + 1 ≤ length ms = omega arith in
      let k = length-take (size / 2 + 1) ms enough in omega arith

  -- In a cluster of the size that is configured, the cases killMajority and killWipeMajority run their
  -- command on the first size / 2 + 1 members that come, which are more than half of them, and on no
  -- other, however the commands end.
  pub kill_majority_lem :
      (size : ℕ) (order : List ℕ) (ms : List Peer)
      → length ms ≡ size
      → 0 < size
      → ((kill_majority host exec size order ms).0
          ≡ map (remote_on host kill) (take (size / 2 + 1) ms))
        × ((kill_wipe_majority host exec size order ms).0
            ≡ map (remote_on host kill_wipe) (take (size / 2 + 1) ms))
        × (size < 2 * length ((kill_majority host exec size order ms).0))
        × (size < 2 * length ((kill_wipe_majority host exec size order ms).0))
  unfolding kill_majority kill_wipe_majority
  kill_majority_lem size order ms h n =
      let p = majority_left kill size 0 (size / 2 + 1) ms (omega arith) in
      let q = majority_left kill_wipe size 0 (size / 2 + 1) ms (omega arith) in
      (
        p,
        q,
        subst (λ l. size < 2 * length l) (sym p) (killed kill size ms h n),
        subst (λ l. size < 2 * length l) (sym q) (killed kill_wipe size ms h n),
      )
