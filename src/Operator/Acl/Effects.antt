-- ===== src/Operator/Acl/Effects.antt =====
-- The calls of pkg/operator/acl.go on etcd, what etcd answers, and the actions that make the calls. Each
-- answer is a function of the calls before it.
use etcd_cloud_operator.Prelude.{
  Text, Bool, true, false, Option, none, some, List, ◌∷◌, ◌⊎◌, inl, inr, if◌then◌else◌,
}
use etcd_cloud_operator.Etcd.Config.{AclConfig}

pub data AclError : Type 0 where
  user_not_found role_not_found key_not_found role_already_exists user_already_exists : AclError
  not_one_config : AclError
  invalid_mode other : Text → AclError

pub data Mode : Type 0 where
  read write read_write : Mode

pub data AclCall : Type 0 where
  role_delete role_add : Text → AclCall
  grant_permission : (role key range_end : Text) → Mode → AclCall
  user_delete : Text → AclCall
  user_add : (name password : Text) (no_password : Bool) → AclCall
  grant_role : (user role : Text) → AclCall
  put_config : Text → AclCall
  delete_config auth_enable : AclCall

abbrev pub AclTrace : Type 0
AclTrace = List AclCall

pub record AclEnv : Type 0 where
  pub on_role_get : AclTrace → Text → Bool
  -- The roles of a user that is there.
  pub on_user_get : AclTrace → Text → Option (List Text)
  -- The error of the newest call.
  pub on_call : AclTrace → Option AclError
  -- The values under the key of the stored configuration, or an error.
  pub on_config : AclTrace → AclError ⊎ List Text
  pub on_cert_file : Option Text
  pub decode_pem : Text → Option Text
  pub cert_common_name : Text → Option Text
  pub marshal : AclConfig → Option Text
  pub unmarshal : Text → Option AclConfig
  pub prefix_range_end : Text → Text

-- An action ends in an error or a value, and has made calls.
abbrev pub A : Type 0 → Type 0
A X = AclTrace → (AclError ⊎ X) × AclTrace

abbrev pub and_then :
    {X Y : Type 0} → (AclError ⊎ X) × AclTrace → (X → A Y) → (AclError ⊎ Y) × AclTrace
and_then (inl e, t) f = (inl e, t)
and_then (inr x, t) f = f x t

infixl 5 ◌>>=◌ ◌>>◌
abbrev pub ◌>>=◌ : {X Y : Type 0} → A X → (X → A Y) → A Y
◌>>=◌ m f t = and_then (m t) f

abbrev pub ◌>>◌ : {Y : Type 0} → A (Unit {0}) → A Y → A Y
◌>>◌ m k = m >>= λ _. k

abbrev pub pure : {X : Type 0} → X → A X
pure x t = (inr x, t)

abbrev pub throw : {X : Type 0} → AclError → A X
throw e t = (inl e, t)

abbrev pub answer : {X : Type 0} → (AclTrace → X) → A X
answer f t = (inr (f t), t)

-- The errors that some calls may end in.
abbrev pub none_of : AclError → Bool
none_of e = false

abbrev pub user_exists : AclError → Bool
user_exists user_already_exists = true
user_exists _ = false

abbrev pub role_exists : AclError → Bool
role_exists role_already_exists = true
role_exists _ = false

abbrev pub no_user : AclError → Bool
no_user user_not_found = true
no_user _ = false

abbrev pub no_role : AclError → Bool
no_role role_not_found = true
no_role _ = false

abbrev pub no_key : AclError → Bool
no_key key_not_found = true
no_key _ = false

unfoldable pub settled : (AclError → Bool) → Option AclError → A (Unit {0})
settled tolerated none = pure tt
settled tolerated (some e) = if tolerated e then pure tt else throw e

module _ (env : AclEnv) where
  -- A call, of which some errors are none.
  unfoldable pub issue : (AclError → Bool) → AclCall → A (Unit {0})
  unfolding settled
  issue tolerated c t = settled tolerated (env.on_call (c ∷ t)) (c ∷ t)

  abbrev pub must : AclCall → A (Unit {0})
  must c = issue none_of c
