-- ===== src/Operator/Providers.antt =====
-- pkg/providers/snapshot/snapshot.go and pkg/providers/asg/asg.go: the registers of providers; and
-- pkg/operator/misc.go: initProviders, with the test that New makes of what it returns. A provider is a
-- value of any type; its Configure is a parameter.
pub mod Registers
pub mod Laws
mod Tests
use etcd_cloud_operator.Prelude.{
  Text, ℕ, zero, suc, Bool, true, false, Option, none, some, List, [], ◌∷◌, Map, lookup, insert,
  text_eq, if◌then◌else◌, ◌==◌, ◌||◌, Outcome, ok, err, panic, ◌>>=◌, ℤ, pos, lt_int,
}

module _ {P : Type 0} where
  register_at : Text → P → Option P → Map P → Outcome (Unit {0}) (Map P)
  register_at name p (some dup) providers = panic
  register_at name p none providers = ok (insert name p providers)

  -- `Register`, where none is the nil provider: all its failures are panics.
  unfoldable pub register : Text → Option P → Map P → Outcome (Unit {0}) (Map P)
  unfolding register_at
  register name none providers = panic
  register name (some p) providers =
      if text_eq name [] then panic else register_at name p (lookup name providers) providers

  -- `AsMap`: a copy, made entry by entry.
  unfoldable pub as_map : Map P → Map P
  as_map [] = []
  as_map ((name, p) ∷ providers) = insert name p (as_map providers)

  -- `AsList`.
  unfoldable pub as_list : Map P → List Text
  as_list [] = []
  as_list ((name, p) ∷ providers) = name ∷ as_list providers

  -- `Register`, `AsMap` and `AsList` of package asg, which are the same.
  unfoldable pub register_group : Text → Option P → Map P → Outcome (Unit {0}) (Map P)
  unfolding register_at
  register_group name none providers = panic
  register_group name (some p) providers =
      if text_eq name [] then panic else register_at name p (lookup name providers) providers

  unfoldable pub groups_as_map : Map P → Map P
  groups_as_map [] = []
  groups_as_map ((name, p) ∷ providers) = insert name p (groups_as_map providers)

  unfoldable pub groups_as_list : Map P → List Text
  groups_as_list [] = []
  groups_as_list ((name, p) ∷ providers) = name ∷ groups_as_list providers

-- The messages with which the program ends.
pub data Fatal : Type 0 where
  no_group_provider unknown_group_provider group_not_configured : Fatal
  unknown_snapshot_provider snapshot_not_configured snapshots_disabled : Fatal

configured : {P : Type 0} → Fatal → Fatal → (P → Bool) → Option P → Outcome Fatal P
configured unknown failed configure none = err unknown
configured unknown failed configure (some p) = if configure p then ok p else err failed

module _ {G S : Type 0} (configure_group : G → Bool) (configure_snapshot : S → Bool) where
  find_group : Map G → Text → Outcome Fatal G
  unfolding configured
  find_group groups name =
      if text_eq name []
      then err no_group_provider
      else configured unknown_group_provider group_not_configured configure_group
          (lookup name (groups_as_map groups))

  find_snapshot : Map S → Text → Outcome Fatal (Option S)
  unfolding configured
  find_snapshot snapshots name =
      if text_eq name []
      then ok none
      else configured unknown_snapshot_provider snapshot_not_configured configure_snapshot
          (lookup name (as_map snapshots))
        >>= λ p. ok (some p)

  -- `initProviders`, on the names that the configuration gives.
  unfoldable pub init_providers : Map G → Map S → Text → Text → Outcome Fatal (G × Option S)
  unfolding find_group find_snapshot
  init_providers groups snapshots group_name snapshot_name =
      find_group groups group_name >>= λ g. find_snapshot snapshots snapshot_name >>= λ s. ok (g, s)

  enabled : ℕ → G → Option S → Outcome Fatal (G × S)
  enabled interval g none = err snapshots_disabled
  enabled interval g (some s) = if interval == 0 then err snapshots_disabled else ok (g, s)

  -- The providers that `New` goes on with.
  unfoldable pub chosen : Map G → Map S → Text → Text → ℕ → Outcome Fatal (G × S)
  unfolding init_providers enabled
  chosen groups snapshots group_name snapshot_name interval =
      init_providers groups snapshots group_name snapshot_name >>= λ r. enabled interval r.0 r.1

  -- `time.NewTicker` panics for an interval that is not positive.
  ticking : ℤ → G × S → Outcome Fatal (G × S)
  ticking check_interval r = if lt_int (pos 0) check_interval then ok r else panic

  -- What `New` starts with.
  unfoldable pub start_up : Map G → Map S → Text → Text → ℕ → ℤ → Outcome Fatal (G × S)
  unfolding chosen ticking
  start_up groups snapshots group_name snapshot_name interval check_interval =
      chosen groups snapshots group_name snapshot_name interval >>= ticking check_interval
