-- ===== src/Etcd/Server/Membership/Locks.antt =====
-- When a lock is held, and what leaves it free.
use etcd_cloud_operator.Prelude.{
  Text, Bool, true, false, [], ◌∷◌, Outcome, ok, err, panic, ◌≡◌, refl, if◌then◌else◌, text_eq,
  text_eq_refl,
}
use etcd_cloud_operator.Etcd.Effects.{
  lock, unlock, Trace, Env, World, M, ServerError, and_then, ◌>>=◌, caught, attempt, deferring,
}

-- Whether the newest call on a lock took it.
unfoldable pub held : Text → Trace → Bool
held key [] = false
held key (lock k ∷ t) = if text_eq k key then true else held key t
held key (unlock k ∷ t) = if text_eq k key then false else held key t
held key (c ∷ t) = held key t

-- etcd's lock is exclusive: a session that asks for it while it is held waits in vain.
abbrev pub IsExclusive : Env → Type 0
IsExclusive env = (t : Trace) (key : Text) → held key t ≡ true → env.on_lock t key ≡ false

-- A computation that does not leave the lock held.
abbrev pub Frees : {A : Type 0} → Text → M A → Type 0
Frees key m = (w : World) → held key w.trace ≡ false → held key (m w).1.trace ≡ false

module _ (key : Text) where
  and_then-held :
      {A B : Type 0} (r : Outcome ServerError A × World) (f : A → M B)
      → ((a : A) → Frees key (f a))
      → held key r.1.trace ≡ false
      → held key (and_then r f).1.trace ≡ false
  and_then-held (ok a, w) f free h = free a w h
  and_then-held (err e, w) f free h = h
  and_then-held (panic, w) f free h = h

  pub bind-Frees :
      {A B : Type 0} (m : M A) (f : A → M B)
      → Frees key m
      → ((a : A) → Frees key (f a))
      → Frees key (m >>= f)
  bind-Frees m f first rest w h = and_then-held (m w) f rest (first w h)

  caught-state : {A : Type 0} (r : Outcome ServerError A × World) → (caught r).1 ≡ r.1
  unfolding caught
  caught-state (ok a, w) = refl
  caught-state (err e, w) = refl
  caught-state (panic, w) = refl

  pub attempt-Frees : {A : Type 0} (m : M A) → Frees key m → Frees key (attempt m)
  unfolding attempt
  attempt-Frees m free w h = rw (caught-state (m w)) (free w h)

  -- What releases the lock in the end leaves it free, whatever it did before.
  deferring-Frees : {A : Type 0} (m : M A) → Frees key (deferring m (◌∷◌ (unlock key)))
  unfolding deferring held
  deferring-Frees m w h = rw (text_eq_refl key)
