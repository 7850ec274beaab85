-- ===== src/Tester/Cases/Tests.antt =====
-- A cluster of three members, of which the first is the leader.
use etcd_cloud_operator.Prelude.{
  Text, codes, ℕ, ◌<◌, ◌*◌, List, [], ◌∷◌, map, length, ◌≡◌, refl, arith,
}
use etcd_cloud_operator.Etcd.Client.{done}
use etcd_cloud_operator.Tester.Cases.{
  kill, kill_wipe, Peer, remote_on, kill_majority, kill_wipe_majority,
}
use etcd_cloud_operator.Tester.Cases.Majority.{kill_majority_lem}

abbrev peer : ℕ → Text → Peer
peer id name = record { id = id; name = name; peer_url = codes "http://a:2380" }

abbrev peers : List Peer
peers = peer 1 (codes "a") ∷ peer 2 (codes "b") ∷ peer 3 (codes "c") ∷ []

abbrev order : List ℕ
order = 2 ∷ 0 ∷ 1 ∷ []

abbrev first_two : List Peer
first_two = peer 1 (codes "a") ∷ peer 2 (codes "b") ∷ []

kill_majority_lem_example :
    ((kill_majority (λ url. url) (λ remote. done) 3 order peers).0
      ≡ map (remote_on (λ url. url) kill) first_two)
    × ((kill_wipe_majority (λ url. url) (λ remote. done) 3 order peers).0
        ≡ map (remote_on (λ url. url) kill_wipe) first_two)
    × (3 < 2 * length ((kill_majority (λ url. url) (λ remote. done) 3 order peers).0))
    × (3 < 2 * length ((kill_wipe_majority (λ url. url) (λ remote. done) 3 order peers).0))
kill_majority_lem_example =
    kill_majority_lem (λ url. url) (λ remote. done) 3 order peers refl (omega arith)
