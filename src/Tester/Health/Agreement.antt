-- ===== src/Tester/Health/Agreement.antt =====
-- When the tester takes the cluster for healthy.
use mathlib.Core.Bool.{false≢true}
use mathlib.Core.Option.{none-ne-some, some-injective}
use etcd_cloud_operator.Prelude.{
  Text, ℕ, ◌<◌, Bool, true, false, not, ltb, ◌==◌, ==_iff, Option, none, some, List, [], ◌∷◌,
  length, All, ◌≡◌, ◌≢◌, ◌↔◌, refl, sym, ◌∙◌, ap, subst, arith, if◌then◌else◌,
}
use etcd_cloud_operator.Tester.Health.Gathering.{
  Named, IsSound, not-false, first-Named, not_zero, faults_stay,
}
use etcd_cloud_operator.Tester.Health.{
  Gathered, gather_one, gather, nothing_gathered, check_alarms, check_gathered, is_healthy,
}

some-ne-nil : {x : Text} → ¬ (◌≡◌ {A = Option Text} (some x) none)
some-ne-nil h = cc

guarded :
    (b : Bool) (x : Text) (rest : Option Text)
    → ((if b then some x else rest) ≡ none) ↔ ((b ≡ false) × (rest ≡ none))
guarded true x rest = (λ h. absurd (some-ne-nil h), λ h. absurd (false≢true (sym h.0)))
guarded false x rest = (λ h. (refl, h), λ h. h.1)

check_alarms-none : (alarms : Option ℕ) → (check_alarms alarms ≡ none) ↔ (alarms ≡ some 0)
unfolding check_alarms
check_alarms-none none = (λ h. absurd (some-ne-nil h), λ h. absurd (none-ne-some 0 h))
check_alarms-none (some n) = (
  λ h. let few = (guarded (ltb 0 n) _ none).0 h in ap some (no_more few.0),
  λ h. (guarded (ltb 0 n) _ none).1 (quiet (some-injective _ _ h), refl),
)
  where
    no_more : ltb 0 n ≡ false → n ≡ 0
    no_more e = ground arith

    quiet : n ≡ 0 → ltb 0 n ≡ false
    quiet e = ground arith

none_left : (n : ℕ) → (ltb 0 n ≡ false) ↔ (n ≡ 0)
none_left n = ground arith

-- The checks after the gathering pass just when it was sound, counted the size, and no alarm fires.
check_gathered-none :
    (size : ℕ) (alarms : Option ℕ) (g : Gathered)
    → (check_gathered size alarms g ≡ none) ↔ (IsSound g × (g.healthy ≡ size) × (alarms ≡ some 0))
unfolding check_gathered
check_gathered-none size alarms g = (
  λ h.
      let (c, h1) = (guarded g.leader_changed _ _).0 h in
      let (u, h2) = (guarded (ltb 0 g.unhealthy) _ _).0 h1 in
      let (s, h3) = (guarded (not (g.healthy == size)) _ _).0 h2 in
      (
        (c, (none_left g.unhealthy).0 u),
        (==_iff g.healthy size).0 (not-false _ s),
        (check_alarms-none alarms).0 h3,
      ),
  λ ((c, u), s, k). (guarded g.leader_changed _ _).1 (
    c,
    (guarded (ltb 0 g.unhealthy) _ _).1 (
      (none_left g.unhealthy).1 u,
      (guarded (not (g.healthy == size)) _ _).1
          (ap not ((==_iff g.healthy size).1 s), (check_alarms-none alarms).1 k),
    ),
  ),
)

-- The cluster is healthy for these answers: it has quorum, as many members as expected, all of which
-- name the leader, and no alarm fires.
abbrev pub IsHealthy : Bool → ℕ → List (Option ℕ) → Option ℕ → ℕ → Type 0
IsHealthy quorum size statuses alarms leader =
    (quorum ≡ true) × (length statuses ≡ size) × Named leader statuses × (alarms ≡ some 0)

abbrev gathering : List (Option ℕ) → Gathered
gathering statuses = gather statuses nothing_gathered

not_one : (gather_one none nothing_gathered).unhealthy ≢ 0
unfolding gather_one
not_one u = omega arith

passes :
    (size : ℕ) (statuses : List (Option ℕ)) (leader : ℕ)
    → All (λ o. o ≢ some 0) statuses
    → 0 < size
    → ((gathering statuses).leader ≡ leader)
      × IsSound (gathering statuses)
      × ((gathering statuses).healthy ≡ size)
    → (length statuses ≡ size) × Named leader statuses
passes size [] leader n some_expected (l, s, h) =
    let zero_healthy : 0 ≡ size = unfold gather in h in absurd (omega arith)
passes size (none ∷ os) leader n some_expected (l, s, h) =
    let (_, u) = faults_stay os (gather_one none nothing_gathered) (unfold gather in s) in
    absurd (not_one u)
passes size (some first ∷ os) leader n some_expected (l, s, h) =
    let known = not_zero first n.0 in
    let named = (first-Named first os known).0 s in
    let (_, e, c) = (first-Named first os known).1 named in
    let same = sym e ∙ l in (sym c ∙ h, (ap some same, subst (λ x. Named x os) same named))

passed :
    (size : ℕ) (statuses : List (Option ℕ)) (leader : ℕ)
    → All (λ o. o ≢ some 0) statuses
    → 0 < size
    → (length statuses ≡ size) × Named leader statuses
    → ((gathering statuses).leader ≡ leader)
      × IsSound (gathering statuses)
      × ((gathering statuses).healthy ≡ size)
passed size [] leader n some_expected (h, _) =
    let zero_length : 0 ≡ size = h in absurd (omega arith)
passed size (none ∷ os) leader n some_expected (h, (e, _)) = absurd (none-ne-some leader e)
passed size (some first ∷ os) leader n some_expected (h, (e, named)) =
    let same = some-injective first leader e in
    let (s, l, c) =
      (first-Named first os (not_zero first n.0)).1 (subst (λ x. Named x os) (sym same) named) in
    (l ∙ same, s, c ∙ h)

-- Where no member answers without a leader, and the cluster is to have a member, isHealthy returns a leader
-- and no error just when the cluster has quorum, as many members as expected answer, all of them name
-- that leader, and no alarm fires.
pub is_healthy-IsHealthy :
    (quorum : Bool) (size : ℕ) (statuses : List (Option ℕ)) (alarms : Option ℕ) (leader : ℕ)
    → All (λ o. o ≢ some 0) statuses
    → 0 < size
    → (is_healthy quorum size statuses alarms ≡ (leader, none))
      ↔ IsHealthy quorum size statuses alarms leader
unfolding is_healthy
is_healthy-IsHealthy false size statuses alarms leader n e =
    (λ h. absurd (some-ne-nil (ap (λ r. r.1) h)), λ h. absurd (false≢true h.0))
is_healthy-IsHealthy true size statuses alarms leader n e = (
  λ h.
      let (s, c, k) = (check_gathered-none size alarms (gathering statuses)).0 (ap (λ r. r.1) h) in
      let (l, d) = passes size statuses leader n e (ap (λ r. r.0) h, s, c) in (refl, l, d, k),
  λ (_, l, d, k).
      let (g, s, c) = passed size statuses leader n e (l, d) in
      let none_wrong = (check_gathered-none size alarms (gathering statuses)).1 (s, c, k) in
      ap (λ x. (x, check_gathered size alarms (gathering statuses))) g
      ∙ ap (λ x. (leader, x)) none_wrong,
)
