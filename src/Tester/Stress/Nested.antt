-- ===== src/Tester/Stress/Nested.antt =====
-- What the transactions of the stresser touch.
use mathlib.Core.Option.{some-injective}
use etcd_cloud_operator.Prelude.{
  Text, ℕ, ◌+◌, Bool, true, false, Option, none, some, List, [], ◌∷◌, ◌++◌, length, last?, ◌≡◌,
  refl, ◌∙◌, ap, arith, if◌then◌else◌,
}
use etcd_cloud_operator.Tester.Stress.{
  Kind, choose, put, put_txn, put_big, get_single, get_range, delete_single, delete_range,
  op_delete, op_put, Op, single, nested, nested_txn, nest, get_txn_reqs, bar, put_txn_of,
}

nest_last :
    (i : ℕ) (key : Text) (keys : List Text) (last : Text) (succs fails : List Op)
    → last? (key ∷ keys) ≡ some last
    → nest i (key ∷ keys) succs fails ≡ (fails ++ nested_txn last (i + length keys) ∷ [], fails)
unfolding nest
nest_last i key [] last succs fails h =
    ap (λ k. (fails ++ nested_txn k i ∷ [], fails)) (some-injective key last h)
    ∙ ap (λ n. (fails ++ nested_txn last n ∷ [], fails)) (omega arith)
nest_last i key (k ∷ keys) last succs fails h =
    nest_last (i + 1) k keys last (fails ++ nested_txn key i ∷ []) fails h
    ∙ ap (λ n. (fails ++ nested_txn last n ∷ [], fails)) (omega arith)

-- A transaction of several keys puts the first where it does not exist and does nothing else then; where it
-- exists, it puts it too, and toggles the last key: it deletes that, or puts it with the number of the
-- other keys. The first key is never deleted, and the keys between are not touched.
pub put_txn_of_lem :
    (key : Text) (k : Text) (keys : List Text) (last : Text)
    → last? (k ∷ keys) ≡ some last
    → (put_txn_of key (k ∷ keys)).compare ≡ record { key = key }
      × ((put_txn_of key (k ∷ keys)).failure ≡ single (op_put key (bar 0)) ∷ [])
      × ((put_txn_of key (k ∷ keys)).success
          ≡ single (op_put key (bar 0))
            ∷ nested (record { key = last }) (op_delete last) (op_put last (bar (1 + length keys)))
            ∷ [])
unfolding put_txn_of get_txn_reqs nested_txn bar
put_txn_of_lem key k keys last h =
    let e =
      nest_last 1 k keys last (single (op_delete key) ∷ []) (single (op_put key (bar 0)) ∷ []) h in
    (refl, ap (λ r. r.1) e, ap (λ r. r.0) e)

otherwise :
    (b : Bool) (kind : Kind) (rest : Option Kind)
    → ((k : Kind) × (rest ≡ some k))
    → (k : Kind) × ((if b then some kind else rest) ≡ some k)
otherwise true kind rest h = (kind, refl)
otherwise false kind rest h = h

-- A number that is below one chooses one of the requests.
pub choose_total :
    (below : ℕ → Bool) → below 100 ≡ true → (kind : Kind) × (choose below ≡ some kind)
unfolding choose
choose_total below h = otherwise (below 15) put _ (
    otherwise (below 30) put_txn _ (
      otherwise (below 45) put_big _ (
        otherwise (below 60) get_single _ (
          otherwise (below 75) get_range _ (
            otherwise (below 90) delete_single _
              (delete_range, ap (λ b. if b then some delete_range else none) h))))))
