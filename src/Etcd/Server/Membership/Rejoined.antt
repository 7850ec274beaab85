-- ===== src/Etcd/Server/Membership/Rejoined.antt =====
-- pkg/etcd/server.go: how Join rejoins.
use etcd_cloud_operator.Prelude.{Text, codes, Bool, Map, ◌≡◌}
use etcd_cloud_operator.Etcd.Config.{TlsInfo, initial_cluster}
use etcd_cloud_operator.Etcd.Effects.{EtcdConfig, Env, World}
use etcd_cloud_operator.Etcd.Server.{ServerConfig}

module _ (env : Env) (tls_empty : TlsInfo → Bool) (cfg : ServerConfig) where
  -- The state once `Join` knows the cluster.
  abbrev pub joining : World → Map Text → World
  joining w purls = record w { cluster_state = codes "existing"; initial_purls = purls }

  -- The configuration of etcd with which this one starts as a member of an existing cluster.
  abbrev pub AsMember : Map Text → EtcdConfig → Type 0
  AsMember purls config =
      (config.cluster_state ≡ codes "existing")
      × (config.name ≡ cfg.name)
      × (config.dir ≡ cfg.data_dir)
      × (config.initial_cluster ≡ initial_cluster purls)
