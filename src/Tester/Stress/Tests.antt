-- ===== src/Tester/Stress/Tests.antt =====
-- A transaction of three keys.
use etcd_cloud_operator.Prelude.{codes, [], ◌∷◌, ◌≡◌, refl}
use etcd_cloud_operator.Tester.Stress.{op_delete, op_put, single, nested, bar, put_txn_of}
use etcd_cloud_operator.Tester.Stress.Nested.{put_txn_of_lem}

put_txn_of_lem_example :
    (put_txn_of (codes "a") (codes "b" ∷ codes "c" ∷ [])).compare ≡ record { key = codes "a" }
    × ((put_txn_of (codes "a") (codes "b" ∷ codes "c" ∷ [])).failure
        ≡ single (op_put (codes "a") (bar 0)) ∷ [])
    × ((put_txn_of (codes "a") (codes "b" ∷ codes "c" ∷ [])).success
        ≡ single (op_put (codes "a") (bar 0))
          ∷ nested (record { key = codes "c" }) (op_delete (codes "c")) (op_put (codes "c") (bar 2))
          ∷ [])
put_txn_of_lem_example = put_txn_of_lem (codes "a") (codes "b") (codes "c" ∷ []) (codes "c") refl
