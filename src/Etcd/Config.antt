-- ===== src/Etcd/Config.antt =====
-- pkg/etcd/misc.go: the types of the configuration, and the functions on addresses and maps.
use etcd_cloud_operator.Prelude.{
  Text, codes, ℕ, ℤ, pos, eq_int, Bool, true, false, not, ◌||◌, Option, none, some, List, [], ◌∷◌,
  ◌++◌, Map, if◌then◌else◌, cut,
}

pub record SecurityConfig : Type 0 where
  pub cert_file : Text
  pub key_file : Text
  pub cert_auth : Bool
  pub trusted_ca_file : Text
  pub auto_tls : Bool

-- A slice: nil, which YAML leaves where the key is not given, or a list, which may be empty.
pub data Slice (A : Type 0) : Type 0 where
  nil_slice : Slice A
  slice_of : List A → Slice A

abbrev pub items : {A : Type 0} → Slice A → List A
items nil_slice = []
items (slice_of xs) = xs

pub record Permission : Type 0 where
  pub mode : Text
  pub key : Text
  pub range_end : Text
  pub prefix : Bool

pub record Role : Type 0 where
  pub name : Text
  pub permissions : Slice Permission

pub record User : Type 0 where
  pub name : Text
  pub password : Text
  pub roles : Slice Text

pub record AclConfig : Type 0 where
  pub root_password : Option Text
  pub roles : Slice Role
  pub users : Slice User

pub record JwtAuthTokenConfig : Type 0 where
  pub sign_method : Text
  pub private_key_file : Text
  pub public_key_file : Text
  pub ttl : Text

pub record EtcdConfiguration : Type 0 where
  pub advertise_address : Text
  pub data_dir : Text
  pub client_transport_security : SecurityConfig
  pub peer_transport_security : SecurityConfig
  pub backend_quota : ℤ
  pub auto_compaction_mode : Text
  pub auto_compaction_retention : Text
  pub init_acl : Option AclConfig
  pub jwt_auth_token_config : Option JwtAuthTokenConfig
  pub max_request_bytes : ℕ

abbrev pub default_client_port : ℕ
default_client_port = 2379

-- `TLSInfo` of the configuration, the fields that the code sets.
pub record TlsInfo : Type 0 where
  pub cert_file : Text
  pub key_file : Text
  pub client_cert_auth : Bool
  pub trusted_ca_file : Text

unfoldable pub tls_info : SecurityConfig → TlsInfo
tls_info sc = record {
  cert_file = sc.cert_file;
  key_file = sc.key_file;
  client_cert_auth = sc.cert_auth;
  trusted_ca_file = sc.trusted_ca_file;
}

-- `TLSEnabled`; `empty` is the method of the transport package, which is not of this repository.
unfoldable pub tls_enabled : (TlsInfo → Bool) → SecurityConfig → Bool
tls_enabled empty sc = sc.auto_tls || not (empty (tls_info sc))

unfoldable pub scheme : Bool → Text
scheme true = codes "https"
scheme false = codes "http"

unfoldable pub client_url : Text → Bool → Text
unfolding scheme
client_url address tls = scheme tls ++ (codes "://" ++ (address ++ codes ":2379"))

unfoldable pub peer_url : Text → Bool → Text
unfolding scheme
peer_url address tls = scheme tls ++ (codes "://" ++ (address ++ codes ":2380"))

-- `metricsURLs`, one address.
unfoldable pub metrics_url : Text → Text
metrics_url address = codes "http://" ++ (address ++ codes ":2381")

unfoldable pub clients_urls : List Text → Bool → List Text
clients_urls [] tls = []
clients_urls (address ∷ addresses) tls = client_url address tls ∷ clients_urls addresses tls

-- What stands before the first colon of a host; a colon in the first place is left in it.
before_colon : Text → Text × Option Text → Text
before_colon host (before, none) = host
before_colon host ([], some port) = host
before_colon host (c ∷ before, some port) = c ∷ before

-- `URL2Address`, from the host that `url.Parse` finds.
unfoldable pub url_to_address : (Text → Text) → Text → Text
unfolding before_colon
url_to_address host url = before_colon (host url) (cut b':' (host url))

-- `getSameValue`: the loop over a map of revisions or hashes, in any order, `rv` the value so far.
unfoldable pub same_value_from : ℤ → Map ℤ → Bool
same_value_from rv [] = true
same_value_from rv ((name, v) ∷ vals) =
    let rv' = if eq_int rv (pos 0) then v else rv in
    let rest = same_value_from rv' vals in if not (eq_int rv' v) then false else rest

unfoldable pub get_same_value : Map ℤ → Bool
unfolding same_value_from
get_same_value vals = same_value_from (pos 0) vals

-- `initialCluster`: name=url pairs, joined by commas.
unfoldable pub initial_cluster : Map Text → Text
initial_cluster [] = []
initial_cluster ((name, url) ∷ []) = name ++ b'=' ∷ url
initial_cluster ((name, url) ∷ y ∷ rest) = (name ++ b'=' ∷ url) ++ b',' ∷ initial_cluster (y ∷ rest)
