-- ===== src/Etcd/Client/Cleanup/Laws.antt =====
-- When Cleanup returns nil.
use mathlib.Core.Option.{none-ne-some, some-injective}
use mathlib.Core.List.{cons≢nil}
use etcd_cloud_operator.Prelude.{
  Text, ℕ, ℤ, Option, none, some, List, [], ◌∷◌, length, All, ok, ◌≡◌, ◌↔◌, refl, sym, ◌∙◌, ap,
}
use etcd_cloud_operator.Etcd.Config.{SecurityConfig}
use etcd_cloud_operator.Etcd.Client.{for_each_member}
use etcd_cloud_operator.Etcd.Client.Gather.{for_each_member-AllDone}
use etcd_cloud_operator.Etcd.Client.Connect.{Listed, visits}
use etcd_cloud_operator.Etcd.Client.Connect.Visited.{IsVisited, visits-IsVisited}
use etcd_cloud_operator.Etcd.Client.Cleanup.{
  CleanupEnv, CleanupError, defragment, aggregated, defragment_all, compact_failed, after_compact,
  cleanup,
}

error-ne-nil : {e : CleanupError} → ¬ (◌≡◌ {A = Option CleanupError} (some e) none)
error-ne-nil h = cc

aggregated-nil :
    (o : Option (List Text)) (result : Option CleanupError)
    → aggregated o ≡ some result
    → (errors : List Text) × (o ≡ some errors) × ((result ≡ none) ↔ (errors ≡ []))
unfolding aggregated
aggregated-nil none result h = absurd (none-ne-some result h)
aggregated-nil (some []) result h = ([], refl, (λ r. refl, λ r. sym (some-injective _ _ h)))
aggregated-nil (some (e ∷ errors)) result h = (
  e ∷ errors,
  refl,
  (λ r. absurd (error-ne-nil (some-injective _ _ h ∙ r)), λ r. absurd (cons≢nil r)),
)

module _ (env : CleanupEnv) (sc : SecurityConfig) (order : List ℕ) (members : List Listed) where
  -- The member can be visited, and defragmented.
  abbrev pub IsDefragmented : Listed → Type 0
  IsDefragmented = IsVisited env.connect sc (defragment env)

  defragment_all-nil :
      (result : Option CleanupError)
      → length order ≡ length (visits env.connect sc (defragment env) members)
      → defragment_all env sc order (some members) ≡ some result
      → (result ≡ none) ↔ All IsDefragmented members
  unfolding defragment_all
  defragment_all-nil result n h =
      let vs = visits env.connect sc (defragment env) members in
      let (errors, f, (to, from)) = aggregated-nil (for_each_member order vs) result h in
      let (all, nil) = for_each_member-AllDone order vs errors n f in
      let (visited, back) = visits-IsVisited env.connect sc (defragment env) members in
      (λ r. visited (all (to r)), λ d. from (nil (back d)))

  after_compact-nil :
      (failure : Option Text) (result : Option CleanupError)
      → env.on_members ≡ some members
      → length order ≡ length (visits env.connect sc (defragment env) members)
      → after_compact env sc order failure ≡ some result
      → (result ≡ none) ↔ ((failure ≡ none) × All IsDefragmented members)
  unfolding after_compact
  after_compact-nil none result l n h =
      let (to, from) = defragment_all-nil result n (ap (defragment_all env sc order) (sym l) ∙ h) in
      (λ r. (refl, to r), λ (c, d). from d)
  after_compact-nil (some e) result l n h = (
    λ r. absurd (error-ne-nil (some-injective _ _ h ∙ r)),
    λ (c, d). absurd (none-ne-some e (sym c)),
  )

  -- Where the revision of the cluster is known and its members are listed, and in every order in which their
  -- goroutines may send, Cleanup returns nil just when the history could be compacted to that revision, or
  -- was before, and every member could be reached and defragmented.
  pub cleanup-nil :
      (rev : ℤ) (result : Option CleanupError)
      → env.on_members ≡ some members
      → length order ≡ length (visits env.connect sc (defragment env) members)
      → cleanup env sc order (ok rev) ≡ some result
      → (result ≡ none)
        ↔ ((compact_failed env (env.on_compact rev) ≡ none) × All IsDefragmented members)
  unfolding cleanup
  cleanup-nil rev result l n h =
      after_compact-nil (compact_failed env (env.on_compact rev)) result l n h
