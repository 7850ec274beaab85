-- ===== src/Groups/Docker.antt =====
-- pkg/providers/asg/docker: the containers whose names match the filter. What the docker command prints, or
-- that it fails, is a parameter.
pub mod Laws
mod Tests
use etcd_cloud_operator.Prelude.{
  Text, codes, ℕ, ℤ, pos, Bool, true, false, Option, none, some, List, [], ◌∷◌, ◌++◌, Outcome, ok,
  err, panic, ◌>>=◌, contains, last_where, split, trim_last, trim_first, if◌then◌else◌,
}
use etcd_cloud_operator.Operator.Status.{Instance}
use etcd_cloud_operator.Groups.{Answer}

pub record DockerConfig : Type 0 where
  pub size : ℤ
  pub name_filter : Text

pub record Container : Type 0 where
  pub id : Text
  pub name : Text
  pub address : Text

given {ℓ} : {A : Type ℓ} → A → Option A → A
given default none = default
given default (some a) = a

-- `Configure`, on the size and the filter that the parameters give, if they parse.
unfoldable pub configure : Option (Option ℤ × Option Text) → Outcome Text DockerConfig
unfolding given
configure none = err (codes "invalid configuration")
configure (some (size, name_filter)) =
    ok (record { size = given (pos 3) size; name_filter = given (codes "eco-") name_filter })

-- `bytesToTrimmedString`.
unfoldable pub trimmed : Text → Text
trimmed out = trim_last b'\n' out

-- What a command printed, and whether it succeeded.
pub record Output : Type 0 where
  pub out : Text
  pub succeeded : Bool

pub record DockerEnv : Type 0 where
  pub on_ps : Text → Output
  pub on_inspect : Text → Output
  -- `os.Hostname`, whose error is ignored: it is empty then.
  pub hostname : Text

unfoldable pub container_list : DockerEnv → Text → Outcome Text (List Text)
unfolding trimmed
container_list env name_pattern =
    let result = env.on_ps name_pattern in
    if result.succeeded
    then ok (split b'\n' (trimmed result.out))
    else err (codes "failed to list containers: " ++ trimmed result.out)

container_of : Text → List Text → Outcome Text Container
container_of name (id ∷ full_name ∷ address ∷ []) =
    ok (record { id = id; name = trim_first b'/' full_name; address = address })
container_of name _ = err (codes "failed to inspect container: unexpected output")

unfoldable pub container_inspect : DockerEnv → Text → Outcome Text Container
unfolding trimmed container_of
container_inspect env name =
    let result = env.on_inspect name in
    if result.succeeded
    then container_of name (split b',' (trimmed result.out))
    else err (codes "failed to inspect container: " ++ trimmed result.out)

unfoldable pub inspect_all : DockerEnv → List Text → Outcome Text (List Container)
unfolding container_inspect
inspect_all env [] = ok []
inspect_all env (name ∷ names) =
    container_inspect env name >>= λ c. inspect_all env names >>= λ cs. ok (c ∷ cs)

unfoldable pub instance_of : Container → Instance
instance_of c = record { name = c.name; address = c.address; bind_address = c.address }

unfoldable pub instances_of : List Container → List Instance
unfolding instance_of
instances_of [] = []
instances_of (c ∷ cs) = instance_of c ∷ instances_of cs

unfoldable pub nilable : Option Container → Option Instance
unfolding instance_of
nilable none = none
nilable (some c) = some (instance_of c)

-- `AutoScalingGroupStatus`. The loop of the code inspects and looks for itself container by container: itself
-- is the last whose id has the name of the host in it.
unfoldable pub status : DockerEnv → DockerConfig → Outcome Text Answer
unfolding container_list inspect_all instances_of nilable
status env config = container_list env config.name_filter >>= λ names.
    inspect_all env names >>= λ cs. ok (record {
      instances = instances_of cs;
      self = nilable (last_where (λ (c : Container). contains c.id env.hostname) none cs);
      size = config.size;
    })
