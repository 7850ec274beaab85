-- ===== src/Operator/Loading/Tests.antt =====
-- A file that changes nothing.
use etcd_cloud_operator.Prelude.{Text, codes, true, some, [], text_eq, ◌≡◌, ◌⊎◌, refl}
use etcd_cloud_operator.Etcd.Validate.{validate}
use etcd_cloud_operator.Etcd.Validate.Valid.{IsValid}
use etcd_cloud_operator.Operator.Loading.{default_config, FileEnv, load_config}
use etcd_cloud_operator.Operator.Loading.Laws.{load_config-IsValid}

abbrev empty_file : FileEnv
empty_file = record {
  expand_env = λ path. path;
  opens = λ path. true;
  reads = λ path. some [];
  unmarshal = λ text c. some c;
}

load_config-IsValid_example :
    IsValid default_config.operator.etcd
    × (((codes "/c" ≡ []) × (default_config ≡ default_config))
        ⊎ ((text : Text) × (empty_file.reads (codes "/c") ≡ some text)
            × (empty_file.unmarshal text default_config ≡ some default_config)))
unfolding load_config text_eq validate
load_config-IsValid_example = load_config-IsValid empty_file (codes "/c") default_config refl
