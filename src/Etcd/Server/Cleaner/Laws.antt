-- ===== src/Etcd/Server/Cleaner/Laws.antt =====
-- Whom the member cleaner removes.
use mathlib.Core.List.{Memᴰ}
use mathlib.Core.Bool.{false≢true}
use etcd_cloud_operator.Prelude.{
  Text, ℕ, ◌+◌, ◌≤◌, ltb, Bool, true, false, not, ◌&&◌, Option, none, some, [], ◌∷◌, ◌⊎◌, inl, inr,
  if◌then◌else◌, ◌==◌, ==_iff, ◌≡◌, refl, sym, ◌∙◌, ap, subst, arith, Bool-cases, Outcome, ok, err,
  panic,
}
use etcd_cloud_operator.Etcd.Effects.{
  ServerError, Env, World, M, ◌>>=◌, attempt, caught, Trace, lock, unlock, member_remove, and_then,
  Removal, removed, not_found, refused,
}
use etcd_cloud_operator.Etcd.Server.{ServerConfig, join_lock}
use etcd_cloud_operator.Etcd.Server.Membership.{remove_member}
use etcd_cloud_operator.Etcd.Server.Cleaner.{
  Tracked, TrackedMembers, within, never, is_due, clean_one, clean, remove_tracked,
  default_start_timeout,
}

-- Whether a member of that id was asked to be removed.
unfoldable pub asked_to_remove : ℕ → Trace → Bool
asked_to_remove id [] = false
asked_to_remove id (member_remove j ∷ t) = if j == id then true else asked_to_remove id t
asked_to_remove id (c ∷ t) = asked_to_remove id t

-- Not seen healthy for the time to live, or never seen healthy and first seen before the start timeout.
abbrev pub IsOverdue : ℕ → ℕ → Tracked → Type 0
IsOverdue now ttl t =
    ((t.last_seen_healthy ≡ none) × (t.first_seen + default_start_timeout ≤ now))
    ⊎ ((h : ℕ) × (t.last_seen_healthy ≡ some h) × (h + ttl ≤ now))

due_times :
    (now ttl : ℕ) (t : Tracked) (o : Option ℕ)
    → t.last_seen_healthy ≡ o
    → (if ltb now (t.first_seen + default_start_timeout) && never o
        then false
        else not (within now ttl o))
      ≡ true
    → IsOverdue now ttl t
unfolding within never
due_times now ttl t none e h = inl (e, ground arith)
due_times now ttl t (some s) e h = inr (s, e, ground arith)

is_due-IsOverdue : (now ttl : ℕ) (t : Tracked) → is_due now ttl t ≡ true → IsOverdue now ttl t
unfolding is_due
is_due-IsOverdue now ttl t h = due_times now ttl t t.last_seen_healthy refl h

-- An action asks to remove only members of these ids.
abbrev Blames : {A : Type 0} → (ℕ → Type 0) → M A → Type 0
Blames P m =
    (id : ℕ) (w : World)
    → asked_to_remove id (m w).1.trace ≡ true
    → (asked_to_remove id w.trace ≡ true) ⊎ P id

bind-Blames :
    {A B : Type 0} (P : ℕ → Type 0) (m : M A) (f : A → M B)
    → Blames P m
    → ((a : A) → Blames P (f a))
    → Blames P (m >>= f)
bind-Blames {A} {B} P m f hm hf id w h = after (m w) refl h
  where
    before :
        (v : World)
        → (m w).1 ≡ v
        → asked_to_remove id v.trace ≡ true
        → (asked_to_remove id w.trace ≡ true) ⊎ P id
    before v e k = hm id w (subst (λ x. asked_to_remove id x.trace ≡ true) (sym e) k)

    after :
        (r : Outcome ServerError A × World)
        → m w ≡ r
        → asked_to_remove id (and_then r f).1.trace ≡ true
        → (asked_to_remove id w.trace ≡ true) ⊎ P id
    after (ok a, v) e k = elim (hf a id v k) [
      | inl asked ↦ before v (ap (λ x. x.1) e) asked
      | inr p ↦ inr p
    ]
    after (err x, v) e k = before v (ap (λ x. x.1) e) k
    after (panic, v) e k = before v (ap (λ x. x.1) e) k

caught-trace : {A : Type 0} (r : Outcome ServerError A × World) → (caught r).1 ≡ r.1
unfolding caught
caught-trace (ok a, w) = refl
caught-trace (err e, w) = refl
caught-trace (panic, w) = refl

attempt-Blames : {A : Type 0} (P : ℕ → Type 0) (m : M A) → Blames P m → Blames P (attempt m)
unfolding attempt
attempt-Blames P m hm id w h =
    hm id w (subst (λ x. asked_to_remove id x.trace ≡ true) (caught-trace (m w)) h)

removal-trace :
    (env : Env) (name : Text) (j : ℕ) (w : World) (r : Removal)
    → env.on_lock w.trace (join_lock name) ≡ true
    → env.on_member_remove (member_remove j ∷ lock (join_lock name) ∷ w.trace) ≡ r
    → (remove_member env name j w).1.trace
      ≡ unlock (join_lock name) ∷ member_remove j ∷ lock (join_lock name) ∷ w.trace
unfolding remove_member
removal-trace env name j w removed e f = rw (e, f)
removal-trace env name j w not_found e f = rw (e, f)
removal-trace env name j w refused e f = rw (e, f)

remove_member-Blames :
    (env : Env) (name : Text) (j : ℕ) → Blames (λ id. j ≡ id) (remove_member env name j)
unfolding asked_to_remove remove_member
remove_member-Blames env name j id w h = elim (Bool-cases (env.on_lock w.trace (join_lock name))) [
  | inl e ↦
      let asked : (if j == id then true else asked_to_remove id w.trace) ≡ true =
        subst (λ t. asked_to_remove id t ≡ true) (removal-trace env name j w _ e refl) h in
      elim (Bool-cases (j == id)) [
        | inl same ↦ inr ((==_iff j id).0 same)
        | inr other ↦ inl (rw other at asked)
      ]
  | inr e ↦ inl (rw e at h)
]

module _ (env : Env) (cfg : ServerConfig) (client : ℕ → Bool) (clock : ℕ → ℕ) where
  -- A tracked member of that id is overdue when the loop comes to it.
  abbrev pub Overdue : TrackedMembers → ℕ → Type 0
  Overdue ms id = (t : Tracked) × Memᴰ (id, t) ms × IsOverdue (clock id) cfg.unhealthy_member_ttl t

  remove_tracked-Blames :
      (ms : TrackedMembers) (id : ℕ) (t : Tracked) (b : Bool)
      → Memᴰ (id, t) ms
      → is_due (clock id) cfg.unhealthy_member_ttl t && client id ≡ b
      → Blames (Overdue ms) (remove_tracked env cfg client clock id t b)
  unfolding remove_tracked
  remove_tracked-Blames ms id t true i due =
      bind-Blames (Overdue ms) (attempt (remove_member env t.name id)) _
        (attempt-Blames (Overdue ms) (remove_member env t.name id) (λ j w h.
          elim (remove_member-Blames env t.name id j w h) [
            | inl asked ↦ inl asked
            | inr same ↦ inr (
                subst (Overdue ms) same
                  (t, i, is_due-IsOverdue (clock id) cfg.unhealthy_member_ttl t (ground arith)))
          ]))
        (λ a j w h. inl h)
  remove_tracked-Blames ms id t false i due = λ j w h. inl h

  clean-Blames :
      (all ms : TrackedMembers)
      → ((x : ℕ × Tracked) → Memᴰ x ms → Memᴰ x all)
      → Blames (Overdue all) (clean env cfg client clock ms)
  unfolding clean clean_one
  clean-Blames all [] sub = λ id w h. inl h
  clean-Blames all ((j, t) ∷ ms) sub =
      bind-Blames (Overdue all) (clean_one env cfg client clock j t) _
        (remove_tracked-Blames all j t _ (sub (j, t) (Memᴰ.head refl)) refl)
        (λ stays.
          bind-Blames (Overdue all) (clean env cfg client clock ms) _
            (clean-Blames all ms (λ x i. sub x (Memᴰ.tail i))) (λ rest id w h. inl h))

  -- The cleaner asks to remove a member only if it is overdue: it was not seen healthy for the time to
  -- live, or it was never seen healthy and was first seen longer ago than a start may take.
  pub clean_spares :
      (ms : TrackedMembers) (id : ℕ) (w : World)
      → asked_to_remove id w.trace ≡ false
      → asked_to_remove id (clean env cfg client clock ms w).1.trace ≡ true
      → Overdue ms id
  clean_spares ms id w before after = elim (clean-Blames ms ms (λ x i. i) id w after) [
    | inl asked ↦ absurd (false≢true (sym before ∙ asked))
    | inr due ↦ due
  ]
