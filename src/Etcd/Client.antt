-- ===== src/Etcd/Client.antt =====
-- pkg/etcd/client.go: the health check, the parallel visit of the members, and what is computed from
-- the revisions and hashes that the visit gathers. What etcd answers is a parameter.
pub mod Gather
pub mod Connect
pub mod Cleanup
pub mod Poll
use etcd_cloud_operator.Prelude.{
  Text, codes, ℕ, zero, suc, ℤ, pos, lt_int, Bool, true, false, not, ◌&&◌, ◌||◌, Option, none, some,
  List, [], ◌∷◌, ◌++◌, Map, insert, Outcome, ok, err, panic, get_elem?, length, if◌then◌else◌,
}
use etcd_cloud_operator.Etcd.Config.{get_same_value}

pub data ClientError : Type 0 where
  permission_denied compacted member_not_found deadline_exceeded : ClientError
  message : Text → ClientError

-- The answers that `IsHealthy` takes for a sign of life.
abbrev pub is_alive : Outcome ClientError (Unit {0}) → Bool
is_alive (ok _) = true
is_alive (err permission_denied) = true
is_alive (err compacted) = true
is_alive (err _) = false
is_alive panic = false

-- `for i := 0; i < n; i++ { if test(i) { return true } }; return false`, with `left` rounds left.
pub attempts : (ℕ → Bool) → ℕ → ℕ → Bool
attempts test i zero = false
attempts test i (suc left) = let rest = attempts test (suc i) left in if test i then true else rest

-- `IsHealthy`: `get i` is what the i-th read of the key "health" answers.
pub is_healthy : (ℕ → Outcome ClientError (Unit {0})) → ℕ → Bool
unfolding attempts
is_healthy get retries = attempts (λ i. is_alive (get i)) 0 retries

-- How the goroutine of one member ends.
pub data Visit : Type 0 where
  no_client : Text → Visit
  failed : Text → Visit
  done : Visit

-- `fmt.Sprintf("[%s]: %s", member.Name, err)`.
abbrev pub labelled : Text → Text → Text
labelled name e = b'[' ∷ (name ++ (codes "]: " ++ e))

-- The messages that the goroutine of a member sends, in their order. One that ran `f` in vain sends
-- the error and then the blank message too.
sends : Text × Visit → List Text
sends (name, no_client e) = labelled name e ∷ []
sends (name, failed e) = labelled name e ∷ [] ∷ []
sends (name, done) = [] ∷ []

unfoldable pub all_sends : List (Text × Visit) → List (List Text)
unfolding sends
all_sends [] = []
all_sends (v ∷ visits) = sends v ∷ all_sends visits

abbrev set_queue : List (List Text) → ℕ → List Text → List (List Text)
set_queue [] i q = []
set_queue (p ∷ ps) zero q = q ∷ ps
set_queue (p ∷ ps) (suc i) q = p ∷ set_queue ps i q

-- What is received from the channel when the goroutines send in this order, each named by its
-- position; none if the order names one that has nothing left to send.
unfoldable pub receive : List ℕ → List (List Text) → Option (List Text)
receive [] queues = some []
receive (i ∷ order) queues = elim (get_elem? queues i) [
  | none ↦ none
  | some [] ↦ none
  | some (m ∷ q) ↦ elim (receive order (set_queue queues i q)) [
    | none ↦ none
    | some ms ↦ some (m ∷ ms)
  ]
]

unfoldable pub aggregate : List Text → List Text
aggregate [] = []
aggregate ([] ∷ ms) = aggregate ms
aggregate ((c ∷ m) ∷ ms) = (c ∷ m) ∷ aggregate ms

-- `ForEachMember`: the errors among as many messages as there are members. No error is nil.
unfoldable pub for_each_member : List ℕ → List (Text × Visit) → Option (List Text)
unfolding aggregate
for_each_member order visits = elim (receive order (all_sends visits)) [
  | none ↦ none
  | some ms ↦ some (aggregate ms)
]

-- What `GetRevisionsHashes` learns of one member, or the error of its `f`.
pub record Report : Type 0 where
  pub name : Text
  pub revision : ℤ
  pub hash : ℤ

pub revisions : List Report → Map ℤ
revisions [] = []
revisions (r ∷ rs) = insert r.name r.revision (revisions rs)

pub hashes : List Report → Map ℤ
hashes [] = []
hashes (r ∷ rs) = insert r.name r.hash (hashes rs)

-- `GetRevisionsHashes`, once `ForEachMember` has returned: the reports in the reverse of the order
-- in which the members got the mutex, or the error.
pub get_revisions_hashes : Outcome ClientError (List Report) → Outcome ClientError (Map ℤ × Map ℤ)
unfolding revisions hashes
get_revisions_hashes (ok reports) = ok (revisions reports, hashes reports)
get_revisions_hashes (err e) = err e
get_revisions_hashes panic = panic

unfoldable pub highest : ℤ → Map ℤ → ℤ
highest max_rev [] = max_rev
highest max_rev ((name, rev) ∷ revs) = highest (if lt_int max_rev rev then rev else max_rev) revs

-- `GetHighestRevision`.
unfoldable pub get_highest_revision : Outcome ClientError (Map ℤ × Map ℤ) → Outcome ClientError ℤ
unfolding highest
get_highest_revision (ok (revs, _)) = ok (highest (pos 0) revs)
get_highest_revision (err e) = err e
get_highest_revision panic = panic

-- Whether one reading of the revisions and hashes passes.
pub agrees : Outcome ClientError (Map ℤ × Map ℤ) → Bool
agrees (ok (revs, hs)) = get_same_value revs && get_same_value hs
agrees (err e) = false
agrees panic = false

-- `IsConsistent`: fifteen readings at most; `read i` is the i-th.
pub is_consistent : (ℕ → Outcome ClientError (Map ℤ × Map ℤ)) → Bool
unfolding attempts
is_consistent read = attempts (λ i. agrees (read i)) 0 15
