-- ===== src/Snapshot/Local/Tests.antt =====
-- A data directory with a database.
use mathlib.Core.Option.{some-injective}
use etcd_cloud_operator.Prelude.{codes, pos, true, none, some, ap, sym}
use etcd_cloud_operator.Snapshot.Local.{LocalEnv, Status}
use etcd_cloud_operator.Snapshot.Local.Laws.{Answers, info-Answers}

abbrev at_five : Status
at_five = record { revision = pos 5; total_size = pos 20 }

abbrev with_database : LocalEnv
with_database = record {
  exists = λ path. true;
  on_status = λ path. some at_five;
  opens = λ path. true;
  temp_file = none;
  copied = true;
}

info-Answers_example : Answers with_database (codes "/d")
info-Answers_example =
    info-Answers with_database (codes "/d")
      (λ path status h. (5, ap (λ (s : Status). s.revision) (some-injective _ _ (sym h))))
