-- ===== src/Etcd/Tests.antt =====
-- Configurations, and what members answer.
use etcd_cloud_operator.Prelude.{
  Text, codes, ℤ, pos, true, false, none, some, List, [], ◌∷◌, Map, Outcome, ok, ◌≡◌, ◌↔◌, refl,
}
use etcd_cloud_operator.Etcd.Config.{slice_of, EtcdConfiguration, AclConfig, SecurityConfig}
use etcd_cloud_operator.Etcd.Validate.{validate}
use etcd_cloud_operator.Etcd.Validate.Valid.{IsValid}
use etcd_cloud_operator.Etcd.Validate.Laws.{validate-IsValid}
use etcd_cloud_operator.Etcd.Client.{
  ClientError, Visit, done, labelled, for_each_member, receive, aggregate, all_sends,
}
use etcd_cloud_operator.Etcd.Client.Gather.{AllDone, for_each_member-AllDone}

abbrev security : SecurityConfig
security = record {
  cert_file = [];
  key_file = [];
  cert_auth = true;
  trusted_ca_file = [];
  auto_tls = false;
}

abbrev with_acl : AclConfig → EtcdConfiguration
with_acl acl = record {
  advertise_address = [];
  data_dir = codes "/d";
  client_transport_security = security;
  peer_transport_security = security;
  backend_quota = pos 8;
  auto_compaction_mode = [];
  auto_compaction_retention = [];
  init_acl = some acl;
  jwt_auth_token_config = none;
  max_request_bytes = 0;
}

abbrev acl : AclConfig
acl = record {
  root_password = none;
  roles = slice_of (
      record {
        name = codes "r";
        permissions =
            slice_of (
              record { mode = codes "read"; key = codes "k"; range_end = []; prefix = false } ∷ []);
      }
      ∷ []);
  users = slice_of (
      record { name = codes "u"; password = []; roles = slice_of (codes "r" ∷ codes "root" ∷ []) }
      ∷ []);
}

validate-IsValid_example : (validate (with_acl acl) ≡ none) ↔ IsValid (with_acl acl)
validate-IsValid_example = validate-IsValid (with_acl acl)

abbrev reading : Outcome ClientError (Map ℤ × Map ℤ)
reading =
    ok ((codes "a", pos 4) ∷ (codes "b", pos 4) ∷ [], (codes "a", pos 1) ∷ (codes "b", pos 1) ∷ [])

abbrev two_revisions : Map ℤ
two_revisions = (codes "a", pos 4) ∷ (codes "b", pos 7) ∷ []

-- The first of two members fails; both send once before the answer is read.
abbrev visits : List (Text × Visit)
visits = (codes "a", Visit.failed (codes "x")) ∷ (codes "b", done) ∷ []

for_each_member-AllDone_example : (labelled (codes "a") (codes "x") ∷ [] ≡ []) ↔ AllDone visits
unfolding for_each_member receive aggregate all_sends
for_each_member-AllDone_example =
    for_each_member-AllDone (1 ∷ 0 ∷ []) visits (labelled (codes "a") (codes "x") ∷ []) refl refl
