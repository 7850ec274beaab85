-- ===== src/Tester/Trial/Tests.antt =====
-- A cluster that is unhealthy for one check after the failure.
use etcd_cloud_operator.Prelude.{codes, ℕ, true, false, Bool, not, ◌==◌, some, [], ◌∷◌, refl}
use etcd_cloud_operator.Tester.Trial.{TrialEnv, run_test}
use etcd_cloud_operator.Tester.Trial.Ends.{Ends, run_test-Ends}

abbrev check : ℕ → Bool
check n = not (n == 1)

abbrev cluster : TrialEnv
cluster = record {
  marker_set = true;
  first_health = some 7;
  injects = λ leader. true;
  check = check;
  consistent = true;
  on_marker = some (codes "5" ∷ []);
  parse_time = λ text. some 5;
  time = 5;
}

run_test-Ends_example : Ends cluster false (run_test 7 cluster false)
run_test-Ends_example = run_test-Ends cluster false 2 (refl, refl, refl, refl)
