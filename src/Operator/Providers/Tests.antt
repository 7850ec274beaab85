-- ===== src/Operator/Providers/Tests.antt =====
-- A start of the operator, with providers that are numbers.
use etcd_cloud_operator.Prelude.{codes, ℕ, pos, true, [], ◌∷◌, Map, ok, ◌≡◌, ◌↔◌}
use etcd_cloud_operator.Operator.Providers.{start_up}
use etcd_cloud_operator.Operator.Providers.Laws.{StartsWith, start_up-StartsWith}

abbrev groups : Map ℕ
groups = (codes "aws", 1) ∷ []

abbrev snapshots : Map ℕ
snapshots = (codes "s3", 2) ∷ []

abbrev with_file : Map ℕ
with_file = (codes "s3", 2) ∷ (codes "file", 3) ∷ []

start_up-StartsWith_example :
    (start_up (λ g. true) (λ s. true) groups snapshots (codes "aws") (codes "s3") 30 (pos 15)
      ≡ ok (1, 2))
    ↔ StartsWith (λ g. true) (λ s. true) groups snapshots (codes "aws") (codes "s3") 30 (pos 15) 1 2
start_up-StartsWith_example =
    start_up-StartsWith (λ g. true) (λ s. true) groups snapshots (codes "aws") (codes "s3") 30
      (pos 15) 1 2
