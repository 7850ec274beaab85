-- ===== src/Operator/Status.antt =====
-- pkg/operator/misc.go: the statuses of the instances of the auto-scaling group, how many are in which
-- state, and which of them is the seeder. What the instances answer is a parameter.
pub mod Seeder
pub mod Counts
pub mod Elected
pub mod Unanimous
use etcd_cloud_operator.Prelude.{
  Text, codes, ℕ, zero, suc, ◌+◌, ℤ, pos, eq_int, lt_int, Bool, true, false, ◌&&◌, Option, none,
  some, List, [], ◌∷◌, Map, lookup, insert, Outcome, ok, err, panic, Sorter, text_eq, text_lt,
  last?, if◌then◌else◌,
}
use etcd_cloud_operator.Etcd.Config.{EtcdConfiguration}

-- The interface `asg.Instance`.
pub record Instance : Type 0 where
  pub name : Text
  pub address : Text
  pub bind_address : Text

pub record EcoStatus : Type 0 where
  pub instance_name : Text
  pub state : Text
  pub revision : ℤ

-- What the request for the status of an instance returns: no answer, one that does not parse, or the
-- fields that the answer has.
pub data Reply : Type 0 where
  unreachable malformed : Reply
  replied : (state : Option Text) (revision : Option ℤ) → Reply

or_else {ℓ} : {A : Type ℓ} → Option A → A → A
or_else none d = d
or_else (some a) d = a

-- `fetchStatus`: fields that the answer lacks keep their defaults; none is its error.
unfoldable pub fetch_status : (Instance → Reply) → Instance → Option EcoStatus
unfolding or_else
fetch_status ask instance = elim (ask instance) [
  | unreachable ↦ none
  | malformed ↦ none
  | replied state revision ↦ some (record {
    instance_name = instance.name;
    state = or_else state (codes "UNKNOWN");
    revision = or_else revision (pos 0);
  })
]

add_status : Option EcoStatus → List EcoStatus → List EcoStatus
add_status none rest = rest
add_status (some st) rest = st ∷ rest

-- The statuses of those that answer, in the order in which the answers come in.
unfoldable pub fetch_all : (Instance → Reply) → List Instance → List EcoStatus
unfolding fetch_status add_status
fetch_all ask [] = []
fetch_all ask (i ∷ is) = add_status (fetch_status ask i) (fetch_all ask is)

-- The order of the statuses: by revision, and among equals by the name of the instance.
unfoldable pub status_less : EcoStatus → EcoStatus → Bool
status_less a b =
    if eq_int a.revision b.revision
    then text_lt a.instance_name b.instance_name
    else lt_int a.revision b.revision

-- `states[state]`, which is 0 for a state that is not there.
unfoldable pub state_count : Text → Map ℕ → ℕ
unfolding or_else
state_count state states = or_else (lookup state states) 0

unfoldable pub count_from : Map ℕ → List EcoStatus → Map ℕ
unfolding state_count
count_from states [] = states
count_from states (st ∷ sts) =
    count_from (insert st.state (state_count st.state states + 1) states) sts

abbrev pub StatusSort : Type 0
StatusSort = Sorter status_less

is_last : Instance → Option EcoStatus → Outcome (Unit {0}) Bool
is_last self none = panic
is_last self (some st) = ok (text_eq st.instance_name self.name)

pub record View : Type 0 where
  pub etcd_healthy : Bool
  pub is_seeder : Bool
  pub states : Map ℕ

view : Bool → Map ℕ → Outcome (Unit {0}) Bool → Outcome (Unit {0}) View
view healthy states (ok seeder) =
    ok (record { etcd_healthy = healthy; is_seeder = seeder; states = states })
view healthy states (err e) = err e
view healthy states panic = panic

-- `fetchStatuses`, once all answers are in. `client_healthy` is none where there is no etcd client. The
-- last of the sorted statuses is the seeder's; without any status the index is out of range.
unfoldable pub fetch_statuses :
    StatusSort
    → Option Bool
    → (Instance → Reply)
    → List Instance
    → Instance
    → Outcome (Unit {0}) View
unfolding fetch_all count_from is_last view or_else
fetch_statuses sorter client_healthy ask instances self =
    let statuses = sorter.sort (fetch_all ask instances) in
    view (or_else client_healthy false) (count_from [] statuses) (is_last self (last? statuses))

-- `instancesAddresses`.
unfoldable pub instances_addresses : List Instance → List Text
instances_addresses [] = []
instances_addresses (i ∷ is) = i.address ∷ instances_addresses is

-- `stringOverride`.
unfoldable pub string_override : Text → Text → Text
string_override s override = if text_eq override [] then s else override
