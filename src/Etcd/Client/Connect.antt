-- ===== src/Etcd/Client/Connect.antt =====
-- pkg/etcd/client.go: NewClient, and what the goroutine of ForEachMember does with one; pkg/etcd/misc.go:
-- ClientConfig. What packages transport and clientv3 answer is a parameter.
pub mod Visited
use etcd_cloud_operator.Prelude.{
  Text, codes, ℕ, Bool, true, false, not, Option, none, some, List, [], ◌∷◌, Outcome, ok, err,
  panic, if◌then◌else◌,
}
use etcd_cloud_operator.Etcd.Config.{
  SecurityConfig, TlsInfo, tls_info, tls_enabled, clients_urls, url_to_address,
}
use etcd_cloud_operator.Etcd.Client.{Visit, no_client, failed, done}

-- `tls.Config`: what its certificates are read from, if anything.
pub record TlsConfig : Type 0 where
  pub certificates : Option TlsInfo
  pub insecure_skip_verify : Bool

-- `clientv3.Config`; times are in seconds, and 0 stands for never.
pub record V3Config : Type 0 where
  pub endpoints : List Text
  pub dial_timeout : ℕ
  pub tls : TlsConfig
  pub auto_sync_interval : ℕ

-- `Client`, with the configuration of the client that it wraps.
pub record Client : Type 0 where
  pub v3 : V3Config
  pub clients_addresses : List Text
  pub auto_sync : Bool
  pub sc : SecurityConfig
  pub tc : TlsConfig

pub record ConnectEnv : Type 0 where
  pub tls_empty : TlsInfo → Bool
  -- Whether the certificates can be read.
  pub loads : TlsInfo → Bool
  pub host : Text → Text
  -- The error of `clientv3.New`.
  pub on_new : V3Config → Option Text

-- `ClientConfig`: no certificate of a server is verified.
unfoldable pub client_config : ConnectEnv → SecurityConfig → Option TlsConfig
client_config env sc =
    if not (env.tls_empty (tls_info sc))
    then (if env.loads (tls_info sc)
        then some (record { certificates = some (tls_info sc); insecure_skip_verify = true })
        else none)
    else some (record { certificates = none; insecure_skip_verify = true })

wrapped : V3Config → List Text → Bool → SecurityConfig → Option Text → Outcome Text Client
wrapped v3 addresses auto_sync sc none =
    ok (record {
      v3 = v3;
      clients_addresses = addresses;
      auto_sync = auto_sync;
      sc = sc;
      tc = v3.tls;
    })
wrapped v3 addresses auto_sync sc (some e) = err e

connect : ConnectEnv → List Text → SecurityConfig → Bool → Option TlsConfig → Outcome Text Client
unfolding wrapped
connect env addresses sc auto_sync none = err (codes "failed to read client transport security")
connect env addresses sc auto_sync (some tc) =
    let v3 : V3Config = record {
      endpoints = clients_urls addresses (tls_enabled env.tls_empty sc);
      dial_timeout = 5;
      tls = tc;
      auto_sync_interval = if auto_sync then 1 else 0;
    } in
    wrapped v3 addresses auto_sync sc (env.on_new v3)

-- `NewClient`.
unfoldable pub new_client : ConnectEnv → List Text → SecurityConfig → Bool → Outcome Text Client
unfolding connect
new_client env addresses sc auto_sync = connect env addresses sc auto_sync (client_config env sc)

-- A member of the cluster, with the first of its peer URLs.
pub record Listed : Type 0 where
  pub name : Text
  pub peer_url : Text

visited : Option Text → Visit
visited none = done
visited (some e) = failed e

visited_by : (Client → Option Text) → Outcome Text Client → Visit
unfolding visited
visited_by f (ok client) = visited (f client)
visited_by f (err e) = no_client e
visited_by f panic = no_client []

-- How the goroutine of a member ends that runs `f` on a client of the member.
unfoldable pub visit :
    ConnectEnv → SecurityConfig → (Client → Listed → Option Text) → Listed → Text × Visit
unfolding visited_by new_client
visit env sc f m = (
  m.name,
  visited_by (λ client. f client m)
      (new_client env (url_to_address env.host m.peer_url ∷ []) sc false),
)

unfoldable pub visits :
    ConnectEnv
    → SecurityConfig
    → (Client → Listed → Option Text)
    → List Listed
    → List (Text × Visit)
unfolding visit
visits env sc f [] = []
visits env sc f (m ∷ ms) = visit env sc f m ∷ visits env sc f ms
