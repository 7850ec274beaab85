-- ===== src/Tester/Stress.antt =====
-- pkg/tester/stresser.go: the requests that the stresser makes. What package rand draws is a parameter.
pub mod Nested
mod Tests
use Prim.Native.Nat.{◌%◌, ◌/◌}
use etcd_cloud_operator.Prelude.{
  Text, codes, ℕ, zero, suc, ◌+◌, pos, Bool, true, false, Option, none, some, List, [], ◌∷◌, ◌++◌,
  hex16, if◌then◌else◌,
}

-- The requests between which `choose` chooses.
pub data Kind : Type 0 where
  put put_txn put_big get_single get_range delete_single delete_range : Kind

-- `choose`, where `below p` is whether the number that is drawn is below p hundredths.
unfoldable pub choose : (ℕ → Bool) → Option Kind
choose below =
    if below 15
    then some put
    else if below 30
    then some put_txn
    else if below 45
    then some put_big
    else if below 60
    then some get_single
    else if below 75
    then some get_range
    else if below 90
    then some delete_single
    else if below 100
    then some delete_range
    else none

-- `randBytes`, on what is drawn for each byte.
unfoldable pub rand_bytes : (ℕ → ℕ) → ℕ → Text
rand_bytes draw zero = []
rand_bytes draw (suc size) = (b'a' + draw size % 26) ∷ rand_bytes draw size

-- `fmt.Sprintf("foo%016x", n)`.
unfoldable pub stress_key : ℕ → Text
stress_key n = codes "foo" ++ hex16 (pos n)

-- A request of a key, or of a range of keys.
pub data Request : Type 0 where
  puts : (key value : Text) → Request
  gets deletes : (key : Text) (range_end : Option Text) → Request

-- The requests other than putTxn, on the key and the bytes that are drawn.
unfoldable pub request : Kind → ℕ → (ℕ → ℕ) → Option Request
unfolding rand_bytes stress_key
request put n draw = some (puts (stress_key n) (rand_bytes draw 100))
request put_big n draw = some (puts (stress_key n) (rand_bytes draw 32769))
request get_single n draw = some (gets (stress_key n) none)
request get_range n draw = some (gets (stress_key n) (some (stress_key (n + 500))))
request delete_single n draw = some (deletes (stress_key n) none)
request delete_range n draw = some (deletes (stress_key n) (some (stress_key (n + 500))))
request put_txn n draw = none

-- The operations of a transaction that `getTxnReqs` makes.
pub data KeyOp : Type 0 where
  op_delete : Text → KeyOp
  op_put : (key value : Text) → KeyOp

-- Whether the version of the key is above 0.
pub record Exists : Type 0 where
  pub key : Text

unfoldable pub get_txn_reqs : Text → Text → Exists × (KeyOp × KeyOp)
get_txn_reqs key value = (record { key = key }, (op_delete key, op_put key value))

-- The operations of the base transaction: those of a key, and transactions of one operation each way.
pub data Op : Type 0 where
  single : KeyOp → Op
  nested : (compare : Exists) (success failure : KeyOp) → Op

pub record Txn : Type 0 where
  pub compare : Exists
  pub success : List Op
  pub failure : List Op

-- `fmt.Sprintf("bar%02d", i)` for i below 100.
unfoldable pub bar : ℕ → Text
bar i = codes "bar" ++ ((b'0' + i / 10) ∷ (b'0' + i % 10) ∷ [])

nested_txn : Text → ℕ → Op
unfolding get_txn_reqs bar
nested_txn key i =
    let (compare, (del_op, put_op)) = get_txn_reqs key (bar i) in nested compare del_op put_op

-- The loop that nests the transactions of the other keys, on `succs` and `fails`: the code assigns
-- `append(fails, txn)` to `succs`, and leaves `fails`.
unfoldable pub nest : ℕ → List Text → List Op → List Op → List Op × List Op
unfolding nested_txn
nest i [] succs fails = (succs, fails)
nest i (key ∷ keys) succs fails = nest (i + 1) keys (fails ++ nested_txn key i ∷ []) fails

-- The transaction of `putTxn`, on the keys that are selected, in the order in which the map gives them.
unfoldable pub put_txn_of : Text → List Text → Txn
unfolding nest get_txn_reqs bar
put_txn_of key keys =
    let (compare, (del_op, put_op)) = get_txn_reqs key (bar 0) in
    let (succs, fails) = nest 1 keys (single del_op ∷ []) (single put_op ∷ []) in
    record { compare = compare; success = succs; failure = fails }
