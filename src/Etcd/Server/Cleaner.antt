-- ===== src/Etcd/Server/Cleaner.antt =====
-- pkg/etcd/server.go: one round of runMemberCleaner, which removes members that stay unhealthy. The times
-- are arguments: when a member is seen, when its health is known, when the loop comes to it.
pub mod Laws
pub mod Spared
mod Tests
use etcd_cloud_operator.Prelude.{
  Text, ℕ, zero, suc, ◌+◌, ltb, Bool, true, false, not, ◌&&◌, Option, none, some, List, [], ◌∷◌,
  ◌⊎◌, inl, inr, if◌then◌else◌, ◌==◌,
}
use etcd_cloud_operator.Etcd.Effects.{ServerError, Env, M, ◌>>=◌, ◌>>◌, pure, running, attempt}
use etcd_cloud_operator.Etcd.Server.{ServerConfig}
use etcd_cloud_operator.Etcd.Server.Membership.{remove_member}

-- `memberT`; none is the zero time.
pub record Tracked : Type 0 where
  pub name : Text
  pub first_seen : ℕ
  pub last_seen_healthy : Option ℕ

-- A member of the cluster, as one round finds it.
pub record Seen : Type 0 where
  pub id : ℕ
  pub name : Text
  pub is_started : Bool
  pub seen_at : ℕ
  pub is_healthy : Bool
  pub checked_at : ℕ

abbrev pub TrackedMembers : Type 0
TrackedMembers = List (ℕ × Tracked)

unfoldable pub tracked_of : ℕ → TrackedMembers → Option Tracked
tracked_of id [] = none
tracked_of id ((j, t) ∷ ms) = if j == id then some t else tracked_of id ms

unfoldable pub track : ℕ → Tracked → TrackedMembers → TrackedMembers
track id t [] = (id, t) ∷ []
track id t ((j, u) ∷ ms) = if j == id then (id, t) ∷ ms else (j, u) ∷ track id t ms

-- The member as it was tracked, or from now on.
known_as : Seen → Option Tracked → Tracked
known_as m none = record { name = m.name; first_seen = m.seen_at; last_seen_healthy = none }
known_as m (some t) = t

noted : Seen → Tracked → Tracked
noted m t = if m.is_healthy then record t { last_seen_healthy = some m.checked_at } else t

-- The body of the first loop.
unfoldable pub observe : Seen → TrackedMembers → TrackedMembers
unfolding known_as noted
observe m ms =
    if not m.is_started then ms else track m.id (noted m (known_as m (tracked_of m.id ms))) ms

unfoldable pub observe_all : List Seen → TrackedMembers → TrackedMembers
unfolding observe
observe_all [] ms = ms
observe_all (m ∷ seen) ms = observe_all seen (observe m ms)

-- `defaultStartTimeout`, in nanoseconds as a `time.Duration`.
abbrev pub default_start_timeout : ℕ
default_start_timeout = 1800000000000

-- The time since the zero time is above every time to live.
within : ℕ → ℕ → Option ℕ → Bool
within now ttl none = false
within now ttl (some t) = ltb now (t + ttl)

never : Option ℕ → Bool
never none = true
never (some t) = false

-- Whether the second loop comes to remove the member.
unfoldable pub is_due : ℕ → ℕ → Tracked → Bool
unfolding within never
is_due now ttl t =
    if ltb now (t.first_seen + default_start_timeout) && never t.last_seen_healthy
    then false
    else not (within now ttl t.last_seen_healthy)

module _ (env : Env) (cfg : ServerConfig) (client : ℕ → Bool) (clock : ℕ → ℕ) where
  kept : ServerError ⊎ Unit {0} → Bool
  kept (inl e) = true
  kept (inr done) = false

  remove_tracked : ℕ → Tracked → Bool → M Bool
  unfolding kept
  remove_tracked id t true = attempt (remove_member env t.name id) >>= λ r. pure (kept r)
  remove_tracked id t false = pure true

  -- Whether the member stays tracked. `client` says whether a client can be created.
  unfoldable pub clean_one : ℕ → Tracked → M Bool
  unfolding is_due remove_tracked
  clean_one id t = remove_tracked id t (is_due (clock id) cfg.unhealthy_member_ttl t && client id)

  -- The second loop.
  unfoldable pub clean : TrackedMembers → M TrackedMembers
  unfolding clean_one
  clean [] = pure []
  clean ((id, t) ∷ ms) =
      clean_one id t >>= λ stays. clean ms >>= λ rest. pure (if stays then (id, t) ∷ rest else rest)

  tick : Bool → List Seen → TrackedMembers → M (Option TrackedMembers)
  unfolding clean observe_all
  tick true seen ms = clean (observe_all seen ms) >>= λ rest. pure (some rest)
  tick false seen ms = pure none

  -- One tick; none ends the loop.
  unfoldable pub cleaner_tick : List Seen → TrackedMembers → M (Option TrackedMembers)
  unfolding tick
  cleaner_tick seen ms = running >>= λ is_running. tick is_running seen ms
