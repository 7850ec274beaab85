-- ===== src/Operator/Loading.antt =====
-- cmd/operator/config.go: the configuration file. What the file system and the YAML package answer is a
-- parameter; durations are in nanoseconds.
pub mod Laws
mod Tests
use etcd_cloud_operator.Prelude.{
  Text, codes, ℕ, ℤ, ◌*◌, pos, Bool, true, false, Option, none, some, List, [], text_eq,
  if◌then◌else◌,
}
use etcd_cloud_operator.Etcd.Config.{EtcdConfiguration, SecurityConfig}
use etcd_cloud_operator.Etcd.Validate.{ConfigError, validate}
use etcd_cloud_operator.Operator.Execute.{Config}

-- `operator.Config`, with the fields that the loop reads.
pub record EcoConfig : Type 0 where
  pub check_interval : ℤ
  pub operator : Config

abbrev pub no_security : SecurityConfig
no_security = record {
  cert_file = [];
  key_file = [];
  cert_auth = false;
  trusted_ca_file = [];
  auto_tls = false;
}

-- `time.Second`.
abbrev second : ℕ
second = 1000000000

-- `defaultConfig`.
abbrev pub default_config : EcoConfig
default_config = record {
  check_interval = pos (15 * second);
  operator = record {
    unhealthy_member_ttl = 120 * second;
    etcd = record {
      advertise_address = [];
      data_dir = codes "/var/lib/etcd";
      client_transport_security = no_security;
      peer_transport_security = record no_security { auto_tls = true };
      backend_quota = pos (2 * 1024 * 1024 * 1024);
      auto_compaction_mode = codes "periodic";
      auto_compaction_retention = codes "0";
      init_acl = none;
      jwt_auth_token_config = none;
      max_request_bytes = 0;
    };
    snapshot_interval = 30 * 60 * second;
    snapshot_ttl = 24 * 60 * 60 * second;
  };
}

-- What the file has under a path, whether it can be read, and what its YAML makes of the defaults: none
-- where it does not parse.
pub record FileEnv : Type 0 where
  pub expand_env : Text → Text
  pub opens : Text → Bool
  pub reads : Text → Option Text
  pub unmarshal : Text → EcoConfig → Option EcoConfig

pub data LoadError : Type 0 where
  not_opened not_read not_parsed not_valid : LoadError

checked : EcoConfig → Option ConfigError → EcoConfig × Option LoadError
checked c none = (c, none)
checked c (some e) = (c, some not_valid)

parsed : Option EcoConfig → EcoConfig × Option LoadError
unfolding checked
parsed none = (default_config, some not_parsed)
parsed (some c) = checked c (validate c.operator.etcd)

read : FileEnv → Option Text → EcoConfig × Option LoadError
unfolding parsed
read env none = (default_config, some not_read)
read env (some d) = parsed (env.unmarshal d default_config)

-- `loadConfig`: the configuration, and the error, which is none for nil. One that does not parse may be
-- partly filled; here it is the default.
unfoldable pub load_config : FileEnv → Text → EcoConfig × Option LoadError
unfolding read
load_config env path =
    if text_eq path []
    then (default_config, none)
    else if env.opens (env.expand_env path)
    then read env (env.reads (env.expand_env path))
    else (default_config, some not_opened)
