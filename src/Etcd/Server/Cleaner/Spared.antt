-- ===== src/Etcd/Server/Cleaner/Spared.antt =====
-- Whom the member cleaner spares.
use etcd_cloud_operator.Prelude.{
  ℕ, ◌+◌, ◌<◌, ltb, true, false, not, ◌&&◌, some, [], ◌∷◌, inl, inr, if◌then◌else◌, ◌==◌, ==_iff,
  ◌≡◌, refl, ◌∙◌, ap, arith, Bool-cases,
}
use etcd_cloud_operator.Etcd.Server.Cleaner.{
  Tracked, TrackedMembers, Seen, tracked_of, track, observe, within, never, is_due,
  default_start_timeout, noted, known_as,
}

tracked_of-track :
    (id : ℕ) (t : Tracked) (ms : TrackedMembers) → tracked_of id (track id t ms) ≡ some t
unfolding tracked_of track
tracked_of-track id t [] = rw ((==_iff id id).1 refl) refl
tracked_of-track id t ((j, u) ∷ ms) = elim (Bool-cases (j == id)) [
  | inl e ↦ rw e (rw ((==_iff id id).1 refl) refl)
  | inr e ↦ rw e (rw e (tracked_of-track id t ms))
]

not_due :
    (now ttl : ℕ) (t : Tracked) (h : ℕ)
    → t.last_seen_healthy ≡ some h
    → now < h + ttl
    → is_due now ttl t ≡ false
unfolding is_due within never
not_due now ttl t h e lt =
    ap
      (λ o.
        if ltb now (t.first_seen + default_start_timeout) && never o
        then false
        else not (within now ttl o))
      e
    ∙ ground arith

noted_healthy :
    (m : Seen) (t : Tracked)
    → m.is_healthy ≡ true
    → (noted m t).last_seen_healthy ≡ some m.checked_at
unfolding noted
noted_healthy m t h =
    ap
      (λ b. (if b then record t { last_seen_healthy = some m.checked_at } else t).last_seen_healthy)
      h

-- A started member that a round finds healthy is tracked afterwards, and not due to be removed before the
-- time to live has passed since then.
pub observe_spares :
    (m : Seen) (ms : TrackedMembers) (now ttl : ℕ)
    → m.is_started ≡ true
    → m.is_healthy ≡ true
    → now < m.checked_at + ttl
    → (t : Tracked) × (tracked_of m.id (observe m ms) ≡ some t) × (is_due now ttl t ≡ false)
unfolding observe
observe_spares m ms now ttl s h lt =
    let t = noted m (known_as m (tracked_of m.id ms)) in
    (
      t,
      ap (λ b. tracked_of m.id (if not b then ms else track m.id t ms)) s
          ∙ tracked_of-track m.id t ms,
      not_due now ttl t m.checked_at (noted_healthy m _ h) lt,
    )
