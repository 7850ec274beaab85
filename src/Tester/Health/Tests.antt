-- ===== src/Tester/Health/Tests.antt =====
-- Three members that agree on their leader.
use etcd_cloud_operator.Prelude.{ℕ, true, Option, none, some, some, List, [], ◌∷◌, ◌≡◌, ◌↔◌, arith}
use etcd_cloud_operator.Tester.Health.{is_healthy}
use etcd_cloud_operator.Tester.Health.Agreement.{IsHealthy, is_healthy-IsHealthy}

abbrev statuses : List (Option ℕ)
statuses = some 7 ∷ some 7 ∷ some 7 ∷ []

some-ne-zero : ¬ (◌≡◌ {A = Option ℕ} (some 7) (some 0))
some-ne-zero h = cc

is_healthy-IsHealthy_example :
    (is_healthy true 3 statuses (some 0) ≡ (7, none)) ↔ IsHealthy true 3 statuses (some 0) 7
is_healthy-IsHealthy_example =
    is_healthy-IsHealthy true 3 statuses (some 0) 7
      (some-ne-zero, (some-ne-zero, (some-ne-zero, tt))) (omega arith)
