-- ===== src/Operator/Providers/Laws.antt =====
-- With which providers the operator starts.
use mathlib.Core.Bool.{false≢true}
use mathlib.Core.Option.{none-ne-some, some-injective}
use etcd_cloud_operator.Prelude.{
  Text, ℕ, Bool, true, Option, none, some, [], ◌∷◌, Map, lookup, lookup-insert, text_eq,
  text_eq_iff, if◌then◌else◌, ◌==◌, ==_iff, Outcome, ok, err, panic, ◌>>=◌, ok-injective, ◌≡◌, ◌≢◌,
  ◌↔◌, ℤ, pos, lt_int, inl, inr, refl, sym, ◌∙◌, ap, Bool-cases,
}
use etcd_cloud_operator.Operator.Providers.{
  as_map, groups_as_map, Fatal, configured, find_group, find_snapshot, init_providers, enabled,
  chosen, ticking, start_up, unknown_group_provider, group_not_configured,
  unknown_snapshot_provider, snapshot_not_configured,
}
use etcd_cloud_operator.Operator.Providers.Registers.{panic-ne-done, err-ne-done}

-- A copy of a register answers as the register does.
lookup-as_map :
    {P : Type 0} (name : Text) (providers : Map P)
    → lookup name (as_map providers) ≡ lookup name providers
unfolding as_map lookup
lookup-as_map name [] = refl
lookup-as_map name ((j, p) ∷ providers) =
    lookup-insert j name p (as_map providers)
    ∙ ap (λ o. if text_eq j name then some p else o) (lookup-as_map name providers)

lookup-groups_as_map :
    {P : Type 0} (name : Text) (providers : Map P)
    → lookup name (groups_as_map providers) ≡ lookup name providers
unfolding groups_as_map lookup
lookup-groups_as_map name [] = refl
lookup-groups_as_map name ((j, p) ∷ providers) =
    lookup-insert j name p (groups_as_map providers)
    ∙ ap (λ o. if text_eq j name then some p else o) (lookup-groups_as_map name providers)

configured-ok :
    {P : Type 0} (unknown failed : Fatal) (configure : P → Bool) (found : Option P) (p : P)
    → (configured unknown failed configure found ≡ ok p) ↔ ((found ≡ some p) × (configure p ≡ true))
unfolding configured
configured-ok unknown failed configure none p =
    (λ h. absurd (err-ne-done h), λ k. absurd (none-ne-some p k.0))
configured-ok unknown failed configure (some q) p = elim (Bool-cases (configure q)) [
  | inl e ↦ rw e (
    λ h. let same = ok-injective h in (ap some same, ap configure (sym same) ∙ e),
    λ k. ap ok (some-injective q p k.0),
  )
  | inr e ↦ rw e (
    λ h. absurd (err-ne-done h),
    λ k. absurd (false≢true (sym e ∙ (ap configure (some-injective q p k.0) ∙ k.1))),
  )
]

pair-injective :
    {A B : Type 0} {a c : A} {b d : B} → ◌≡◌ {A = A × B} (a, b) (c, d) → (a ≡ c) × (b ≡ d)
pair-injective h = (ap (λ x. x.0) h, ap (λ x. x.1) h)

-- A sequence that succeeded is two steps that did.
bind-done :
    {E A B : Type 0} (r : Outcome E A) (f : A → Outcome E B) (b : B)
    → (r >>= f) ≡ ok b
    → (a : A) × (r ≡ ok a) × (f a ≡ ok b)
bind-done (ok a) f b h = (a, refl, h)
bind-done (err e) f b h = absurd (err-ne-done h)
bind-done panic f b h = absurd (panic-ne-done h)

module _ {G S : Type 0} (configure_group : G → Bool) (configure_snapshot : S → Bool) where
  find_group-ok :
      (groups : Map G) (name : Text) (g : G)
      → (find_group configure_group configure_snapshot groups name ≡ ok g)
        ↔ ((name ≢ []) × (lookup name groups ≡ some g) × (configure_group g ≡ true))
  unfolding find_group
  find_group-ok groups name g = elim (Bool-cases (text_eq name [])) [
    | inl e ↦ rw e (λ h. absurd (err-ne-done h), λ k. absurd (k.0 ((text_eq_iff name []).0 e)))
    | inr e ↦
        let both =
          configured-ok unknown_group_provider group_not_configured configure_group
            (lookup name (groups_as_map groups)) g in
        let same = lookup-groups_as_map name groups in
        rw e (
          λ h. (
            (λ p. false≢true (sym e ∙ (text_eq_iff name []).1 p)),
            sym same ∙ (both.0 h).0,
            (both.0 h).1,
          ),
          λ (_, l, c). both.1 (same ∙ l, c),
        )
  ]

  enabled-ok :
      (interval : ℕ) (g g' : G) (found : Option S) (s : S)
      → (enabled configure_group configure_snapshot interval g' found ≡ ok (g, s))
        ↔ ((g' ≡ g) × (found ≡ some s) × (interval ≢ 0))
  unfolding enabled
  enabled-ok interval g g' none s = (λ h. absurd (err-ne-done h), λ k. absurd (none-ne-some s k.1))
  enabled-ok interval g g' (some s') s = elim (Bool-cases (interval == 0)) [
    | inl e ↦ rw e (λ h. absurd (err-ne-done h), λ (_, _, k). absurd (k ((==_iff interval 0).0 e)))
    | inr e ↦ rw e (
      λ h.
          let (p, q) = pair-injective (ok-injective h) in
          (p, ap some q, λ z. false≢true (sym e ∙ (==_iff interval 0).1 z)),
      λ (p, q, _). ap ok (ap (λ x. (x, s')) p ∙ ap (λ x. (g, x)) (some-injective s' s q)),
    )
  ]

  find_snapshot-ok :
      (snapshots : Map S) (name : Text) (s : S)
      → (find_snapshot configure_group configure_snapshot snapshots name ≡ ok (some s))
        ↔ ((name ≢ []) × (lookup name snapshots ≡ some s) × (configure_snapshot s ≡ true))
  unfolding find_snapshot
  find_snapshot-ok snapshots name s = elim (Bool-cases (text_eq name [])) [
    | inl e ↦ rw e (
      λ h. absurd (none-ne-some s (ok-injective h)),
      λ k. absurd (k.0 ((text_eq_iff name []).0 e)),
    )
    | inr e ↦
        let both =
          configured-ok unknown_snapshot_provider snapshot_not_configured configure_snapshot
            (lookup name (as_map snapshots)) s in
        let same = lookup-as_map name snapshots in
        rw e (
          λ h.
              let (p, q, r) =
                bind-done
                  (configured unknown_snapshot_provider snapshot_not_configured configure_snapshot
                    (lookup name (as_map snapshots)))
                  (λ p. ok (some p)) (some s) h in
              let (l, c) = both.0 (q ∙ ap ok (some-injective p s (ok-injective r))) in
              ((λ p. false≢true (sym e ∙ (text_eq_iff name []).1 p)), sym same ∙ l, c),
          λ (_, l, c). ap (λ r. r >>= λ p. ok (some p)) (both.1 (same ∙ l, c)),
        )
  ]

  -- What the names of the configuration must be for these two providers to be chosen.
  abbrev pub Chosen : Map G → Map S → Text → Text → ℕ → G → S → Type 0
  Chosen groups snapshots group_name snapshot_name interval g s =
      ((group_name ≢ []) × (lookup group_name groups ≡ some g) × (configure_group g ≡ true))
      × ((snapshot_name ≢ [])
          × (lookup snapshot_name snapshots ≡ some s)
          × (configure_snapshot s ≡ true))
      × (interval ≢ 0)

  chosen-Chosen :
      (groups : Map G) (snapshots : Map S) (group_name snapshot_name : Text) (interval : ℕ) (g : G)
      (s : S)
      → (chosen configure_group configure_snapshot groups snapshots group_name snapshot_name
            interval
          ≡ ok (g, s))
        ↔ Chosen groups snapshots group_name snapshot_name interval g s
  unfolding chosen init_providers
  chosen-Chosen groups snapshots group_name snapshot_name interval g s =
      let group = find_group configure_group configure_snapshot groups group_name in
      let snapshot = find_snapshot configure_group configure_snapshot snapshots snapshot_name in
      let last : G × Option S → Outcome Fatal (G × S) =
        λ r. enabled configure_group configure_snapshot interval r.0 r.1 in
      let paired : Outcome Fatal (Option S) → G → Outcome Fatal (G × Option S) =
        λ r x. r >>= λ y. ok (x, y) in
      (
        λ h.
            let (pair, p, q) = bind-done (group >>= paired snapshot) last (g, s) h in
            let (x, p', q') = bind-done group (paired snapshot) pair p in
            let (y, p2, q2) = bind-done snapshot (λ y. ok (x, y)) pair q' in
            let (ex, ey) = pair-injective (ok-injective q2) in
            let (eg, es, n) = (enabled-ok interval g pair.0 pair.1 s).0 q in
            (
              (find_group-ok groups group_name g).0 (p' ∙ ap ok (ex ∙ eg)),
              (find_snapshot-ok snapshots snapshot_name s).0 (p2 ∙ ap ok (ey ∙ es)),
              n,
            ),
        λ (kg, ks, n).
            ap (λ r. (r >>= paired snapshot) >>= last) ((find_group-ok groups group_name g).1 kg)
            ∙ (ap (λ r. paired r g >>= last) ((find_snapshot-ok snapshots snapshot_name s).1 ks)
                ∙ (enabled-ok interval g g (some s) s).1 (refl, refl, n)),
      )

  ticking-ok :
      (check_interval : ℤ) (r r' : G × S)
      → (ticking configure_group configure_snapshot check_interval r ≡ ok r')
        ↔ ((r ≡ r') × (lt_int (pos 0) check_interval ≡ true))
  unfolding ticking
  ticking-ok check_interval r r' = elim (Bool-cases (lt_int (pos 0) check_interval)) [
    | inl e ↦ rw e (λ h. (ok-injective h, refl), λ k. ap ok k.0)
    | inr e ↦ rw e (λ h. absurd (panic-ne-done h), λ k. absurd (false≢true k.1))
  ]

  -- What the configuration must be for the operator to start with these two providers.
  abbrev pub StartsWith : Map G → Map S → Text → Text → ℕ → ℤ → G → S → Type 0
  StartsWith groups snapshots group_name snapshot_name interval check_interval g s =
      Chosen groups snapshots group_name snapshot_name interval g s
      × (lt_int (pos 0) check_interval ≡ true)

  -- `New` comes to start the operator exactly when the configuration names a registered provider of
  -- auto-scaling groups and a registered provider of snapshots, both of which can be configured, an
  -- interval of snapshots that is not 0, and a positive interval of checks; it starts with these two.
  pub start_up-StartsWith :
      (groups : Map G) (snapshots : Map S) (group_name snapshot_name : Text) (interval : ℕ)
      (check_interval : ℤ) (g : G) (s : S)
      → (start_up configure_group configure_snapshot groups snapshots group_name snapshot_name
            interval check_interval
          ≡ ok (g, s))
        ↔ StartsWith groups snapshots group_name snapshot_name interval check_interval g s
  unfolding start_up
  start_up-StartsWith groups snapshots group_name snapshot_name interval check_interval g s =
      let tick = ticking configure_group configure_snapshot check_interval in
      let found = chosen-Chosen groups snapshots group_name snapshot_name interval g s in
      let step = ticking-ok check_interval in
      (
        λ h.
            let (r, p, q) =
              bind-done
                (chosen configure_group configure_snapshot groups snapshots group_name snapshot_name
                  interval)
                tick (g, s) h in
            let (same, positive) = (step r (g, s)).0 q in (found.0 (p ∙ ap ok same), positive),
        λ (k, positive). ap (λ r. r >>= tick) (found.1 k) ∙ (step (g, s) (g, s)).1 (refl, positive),
      )
