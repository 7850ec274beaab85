-- ===== src/Etcd/Effects.antt =====
-- The outside world of pkg/etcd/server.go, and the monad in which its methods run: the state of the
-- server, the calls made so far, and how a call ends. What etcd, the file system and the snapshot
-- provider answer is the record `Env`, each answer a function of the calls made before it.
use etcd_cloud_operator.Prelude.{
  Text, ℕ, ℤ, Bool, Option, List, ◌∷◌, Map, Outcome, ok, err, panic, ◌⊎◌, inl, inr, ◌≡◌, refl, ap,
}
use etcd_cloud_operator.Snapshot.{Metadata}
use etcd_cloud_operator.Snapshot.Latest.{SnapshotError}
use etcd_cloud_operator.Etcd.Config.{TlsInfo}

-- What a member list holds of a member.
pub record Member : Type 0 where
  pub name : Text
  pub id : ℕ
  pub peer_urls : List Text

-- The fields of `embed.Config` that startServer sets, but for those of the log, the name of the kind of
-- metrics and the socket options, which are constants.
pub record EtcdConfig : Type 0 where
  pub cluster_state : Text
  pub name : Text
  pub dir : Text
  pub peer_auto_tls : Bool
  pub peer_tls_info : TlsInfo
  pub client_auto_tls : Bool
  pub client_tls_info : TlsInfo
  pub self_signed_cert_validity : ℕ
  pub initial_cluster : Text
  pub listen_peer_url : Text
  pub advertise_peer_url : Text
  pub listen_client_url : Text
  pub advertise_client_url : Text
  pub listen_metrics_urls : List Text
  pub quota : ℤ
  pub auto_compaction_mode : Text
  pub auto_compaction_retention : Text
  pub auth_token : Option Text
  pub max_request_bytes : Option ℕ

pub record RestoreConfig : Type 0 where
  pub snapshot_path : Text
  pub name : Text
  pub peer_url : Text
  pub initial_cluster : Text
  pub output_data_dir : Text

-- The calls that change something outside, in the words of the source. `lock` is an acquired lock.
pub data Call : Type 0 where
  remove_all : Text → Call
  get_snapshot : Metadata → Call
  remove_file : Text → Call
  restore_snapshot : RestoreConfig → Call
  start_etcd : EtcdConfig → Call
  lock unlock : Text → Call
  member_add : Text → Call
  member_remove : ℕ → Call
  purge : ℕ → Call
  save : Metadata → Call
  hard_stop close : Call

abbrev pub Trace : Type 0
Trace = List Call

-- How `embed.StartEtcd`, and the wait for the server to become ready, end.
pub data Start : Type 0 where
  refused not_ready ready : Start

pub data Removal : Type 0 where
  removed not_found refused : Removal

pub data ServerError : Type 0 where
  no_snapshot member_revision_too_old : ServerError
  failed : Text → ServerError

-- The path that `Get` returns, whether the caller should delete it, and its error.
pub record Fetched : Type 0 where
  pub path : Text
  pub should_delete : Bool
  pub error : Option SnapshotError

pub record Env : Type 0 where
  pub on_get_snapshot : Trace → Metadata → Fetched
  pub on_restore : Trace → Bool
  pub on_start : Trace → Start
  pub on_member_list : Trace → Option (List Member)
  pub on_lock : Trace → Text → Bool
  pub on_member_add : Trace → Option ℕ
  pub on_member_remove : Trace → Removal
  pub on_local_info : Trace → Text → Outcome SnapshotError Metadata
  pub on_provider_info : Trace → Outcome SnapshotError Metadata
  pub on_revision : Trace → ℤ
  -- The size of what was saved.
  pub on_save : Trace → Option ℤ

-- The mutable fields of `Server` and of its configuration, and the calls made, the newest first.
pub record World : Type 0 where
  pub is_running : Bool
  pub cluster_state : Text
  pub initial_purls : Map Text
  pub trace : Trace

abbrev pub M : Type 0 → Type 0
M A = World → Outcome ServerError A × World

abbrev pub and_then :
    {A B : Type 0} → Outcome ServerError A × World → (A → M B) → Outcome ServerError B × World
and_then (ok a, w) f = f a w
and_then (err e, w) f = (err e, w)
and_then (panic, w) f = (panic, w)

infixl 5 ◌>>=◌ ◌>>◌
abbrev pub ◌>>=◌ : {A B : Type 0} → M A → (A → M B) → M B
◌>>=◌ m f w = and_then (m w) f

abbrev pub ◌>>◌ : {B : Type 0} → M (Unit {0}) → M B → M B
◌>>◌ m k = m >>= λ _. k

abbrev pub pure : {A : Type 0} → A → M A
pure a w = (ok a, w)

abbrev pub throw : {A : Type 0} → ServerError → M A
throw e w = (err e, w)

abbrev pub crash : {A : Type 0} → M A
crash w = (panic, w)

-- A call that changes something outside.
abbrev pub call : Call → M (Unit {0})
call c w = (ok tt, record w { trace = c ∷ w.trace })

-- An answer of the outside world.
abbrev pub ask : {A : Type 0} → (Trace → A) → M A
ask f w = (ok (f w.trace), w)

abbrev pub set_running : Bool → M (Unit {0})
set_running b w = (ok tt, record w { is_running = b })

abbrev pub running : M Bool
running w = (ok w.is_running, w)

unfoldable pub caught :
    {A : Type 0} → Outcome ServerError A × World → Outcome ServerError (ServerError ⊎ A) × World
caught (ok a, w) = (ok (inr a), w)
caught (err e, w) = (ok (inl e), w)
caught (panic, w) = (panic, w)

-- The error of a call as a value, as in `if err := f(); err != nil`.
unfoldable pub attempt : {A : Type 0} → M A → M (ServerError ⊎ A)
unfolding caught
attempt m w = caught (m w)

-- `defer cleanup()`: run however the body ends, which is what the function returns.
unfoldable pub deferring : {A : Type 0} → M A → (Trace → Trace) → M A
deferring body cleanup w = let (r, w') = body w in (r, record w' { trace = cleanup w'.trace })

pub err-ne-ok :
    {A : Type 0} {e : ServerError} {a : A} {v w : World}
    → ¬ (◌≡◌ {A = Outcome ServerError A × World} (err e, v) (ok a, w))
err-ne-ok {A} {e} {a} h =
    let p : ◌≡◌ {A = Outcome ServerError A} (err e) (ok a) = ap (λ s. s.0) h in cc

pub panic-ne-ok :
    {A : Type 0} {a : A} {v w : World}
    → ¬ (◌≡◌ {A = Outcome ServerError A × World} (panic, v) (ok a, w))
panic-ne-ok {A} {a} h = let p : ◌≡◌ {A = Outcome ServerError A} panic (ok a) = ap (λ s. s.0) h in cc

-- A sequence that succeeded is two steps that did.
pub and_then-ok :
    {A B : Type 0} (r : Outcome ServerError A × World) (f : A → M B) (b : B) (w : World)
    → and_then r f ≡ (ok b, w)
    → (a : A) × (v : World) × (r ≡ (ok a, v)) × (f a v ≡ (ok b, w))
and_then-ok (ok a, v) f b w h = (a, v, refl, h)
and_then-ok (err e, v) f b w h = absurd (err-ne-ok h)
and_then-ok (panic, v) f b w h = absurd (panic-ne-ok h)

pub bind-ok :
    {A B : Type 0} (m : M A) (f : A → M B) (w : World) {b : B} {v : World}
    → (m >>= f) w ≡ (ok b, v)
    → (a : A) × (u : World) × (m w ≡ (ok a, u)) × (f a u ≡ (ok b, v))
bind-ok m f w {b} {v} h = and_then-ok (m w) f b v h
