-- ===== src/Operator/Acl/Fixtures.antt =====
-- An etcd without users, one that cannot be reached, and an access control to set up.
use etcd_cloud_operator.Prelude.{Text, codes, false, Option, none, some, List, [], ◌∷◌, inr}
use etcd_cloud_operator.Etcd.Config.{slice_of, AclConfig}
use etcd_cloud_operator.Operator.Acl.Effects.{other, AclEnv}

abbrev pub acl : AclConfig
acl = record {
  root_password = none;
  roles = slice_of (
      record {
        name = codes "r";
        permissions =
            slice_of (
              record { mode = codes "Read"; key = codes "k"; range_end = []; prefix = false } ∷ []);
      }
      ∷ []);
  users =
      slice_of (record { name = codes "u"; password = []; roles = slice_of (codes "r" ∷ []) } ∷ []);
}

-- An etcd in which every call succeeds; the user of the certificate has these roles.
abbrev pub answering : Option (List Text) → List Text → AclEnv
answering roles stored = record {
  on_role_get = λ t name. false;
  on_user_get = λ t name. roles;
  on_call = λ t. none;
  on_config = λ t. inr stored;
  on_cert_file = some (codes "cert");
  decode_pem = λ bytes. some bytes;
  cert_common_name = λ block. some (codes "operator");
  marshal = λ config. some (codes "yaml");
  unmarshal = λ text. some acl;
  prefix_range_end = λ key. key;
}

abbrev pub unreachable : AclEnv
unreachable = record (answering none []) { on_call = λ t. some (other (codes "unavailable")) }
