-- ===== src/Tester/Health/Gathering.antt =====
-- What the tester gathers of the members: a fault that was found stays, and members that agree are counted.
use mathlib.Core.Bool.{false≢true}
use etcd_cloud_operator.Prelude.{
  ℕ, suc, ◌+◌, Bool, true, false, not, ◌||◌, ◌==◌, ==_iff, Option, none, some, List, [], ◌∷◌,
  length, All, ◌≡◌, ◌≢◌, inl, inr, refl, sym, ◌∙◌, ap, subst, arith, Bool-cases,
}
use etcd_cloud_operator.Tester.Health.{Gathered, gather_one, gather, nothing_gathered}

-- Every member answered, and named this leader.
abbrev pub Named : ℕ → List (Option ℕ) → Type 0
Named leader = All (λ o. o ≡ some leader)

abbrev pub IsSound : Gathered → Type 0
IsSound g = (g.leader_changed ≡ false) × (g.unhealthy ≡ 0)

or_false : (a b : Bool) → a || b ≡ false → (a ≡ false) × (b ≡ false)
or_false false b h = (refl, h)
or_false true b h = absurd (false≢true (sym h))

pub not-false : (b : Bool) → not b ≡ false → b ≡ true
not-false true h = refl
not-false false h = absurd (false≢true (sym h))

no_leader :
    (leader : ℕ) (g : Gathered)
    → (g.leader == 0) ≡ true
    → gather_one (some leader) g ≡ record g { healthy = g.healthy + 1; leader = leader }
unfolding gather_one
no_leader leader g e = rw e refl

known_leader :
    (leader : ℕ) (g : Gathered)
    → (g.leader == 0) ≡ false
    → gather_one (some leader) g ≡ record g {
      healthy = g.healthy + 1;
      leader_changed = g.leader_changed || not (leader == g.leader);
    }
unfolding gather_one
known_leader leader g e = rw e refl

-- A fault that was found stays.
fault_stays : (o : Option ℕ) (g : Gathered) → IsSound (gather_one o g) → IsSound g
fault_stays none g (c, u) =
    let u' : g.unhealthy + 1 ≡ 0 = unfold gather_one in u in absurd (omega arith)
fault_stays (some leader) g h = elim (Bool-cases (g.leader == 0)) [
  | inl e ↦ subst IsSound (no_leader leader g e) h
  | inr e ↦
      let (c, u) = subst IsSound (known_leader leader g e) h in
      ((or_false g.leader_changed (not (leader == g.leader)) c).0, u)
]

pub faults_stay : (os : List (Option ℕ)) (g : Gathered) → IsSound (gather os g) → IsSound g
faults_stay [] g h = unfold gather in h
faults_stay (o ∷ os) g h = fault_stays o g (faults_stay os (gather_one o g) (unfold gather in h))

same_leader :
    (o : Option ℕ) (g : Gathered)
    → (g.leader == 0) ≡ false
    → IsSound (gather_one o g)
    → o ≡ some g.leader
same_leader none g n (c, u) =
    let u' : g.unhealthy + 1 ≡ 0 = unfold gather_one in u in absurd (omega arith)
same_leader (some leader) g n h =
    let (c, _) = subst IsSound (known_leader leader g n) h in
    let e =
      not-false (leader == g.leader) (or_false g.leader_changed (not (leader == g.leader)) c).1 in
    ap some ((==_iff leader g.leader).0 e)

-- A member that names the known leader is one more that is healthy.
one_more :
    (g : Gathered)
    → (g.leader == 0) ≡ false
    → IsSound g
    → (gather_one (some g.leader) g).leader ≡ g.leader
      × IsSound (gather_one (some g.leader) g)
      × ((gather_one (some g.leader) g).healthy ≡ g.healthy + 1)
one_more g n (c, u) =
    let e = known_leader g.leader g n in
    let same = (==_iff g.leader g.leader).1 refl in
    (
      ap (λ x. x.leader) e,
      (ap (λ x. x.leader_changed) e ∙ rw (c, same) refl, ap (λ x. x.unhealthy) e ∙ u),
      ap (λ x. x.healthy) e,
    )

all-Named :
    (os : List (Option ℕ)) (g : Gathered)
    → (g.leader == 0) ≡ false
    → IsSound (gather os g)
    → Named g.leader os
all-Named [] g n h = tt
all-Named (o ∷ os) g n h =
    let rest : IsSound (gather os (gather_one o g)) = unfold gather in h in
    let first = faults_stay os (gather_one o g) rest in
    let same = same_leader o g n first in
    let (leader, _, _) = one_more g n (fault_stays o g first) in
    let rest' = subst (λ x. IsSound (gather os (gather_one x g))) same rest in
    (
      same,
      subst (λ l. Named l os) leader
          (all-Named os (gather_one (some g.leader) g) (ap (λ l. l == 0) leader ∙ n) rest'),
    )

Named-all :
    (os : List (Option ℕ)) (g : Gathered)
    → (g.leader == 0) ≡ false
    → IsSound g
    → Named g.leader os
    → IsSound (gather os g)
      × ((gather os g).leader ≡ g.leader)
      × ((gather os g).healthy ≡ g.healthy + length os)
Named-all [] g n s h = unfold gather in (s, refl, omega arith)
Named-all (o ∷ os) g n s (same, h) =
    let (leader, sound, healthy) = one_more g n s in
    let (a, b, c) =
      Named-all os (gather_one (some g.leader) g) (ap (λ l. l == 0) leader ∙ n) sound
        (subst (λ l. Named l os) (sym leader) h) in
    let cons : gather (o ∷ os) g ≡ gather os (gather_one (some g.leader) g) =
      unfold gather in ap (λ x. gather os (gather_one x g)) same in
    (
      subst IsSound (sym cons) a,
      ap (λ x. x.leader) cons ∙ (b ∙ leader),
      ap (λ x. x.healthy) cons ∙ (omega arith),
    )

-- The first member is the one whose leader is taken.
pub first-Named :
    (leader : ℕ) (os : List (Option ℕ))
    → (leader == 0) ≡ false
    → (IsSound (gather (some leader ∷ os) nothing_gathered) → Named leader os)
      × (Named leader os
          → IsSound (gather (some leader ∷ os) nothing_gathered)
            × ((gather (some leader ∷ os) nothing_gathered).leader ≡ leader)
            × ((gather (some leader ∷ os) nothing_gathered).healthy ≡ suc (length os)))
first-Named leader os n =
    let start : Gathered = record {
      healthy = 1;
      unhealthy = 0;
      leader = leader;
      leader_changed = false;
    } in
    let first : gather_one (some leader) nothing_gathered ≡ start = unfold gather_one in refl in
    let cons : gather (some leader ∷ os) nothing_gathered ≡ gather os start =
      unfold gather in ap (gather os) first in
    (
      λ h. all-Named os start n (subst IsSound cons h),
      λ h.
          let (a, b, c) = Named-all os start n (refl, refl) h in
          (
            subst IsSound (sym cons) a,
            ap (λ x. x.leader) cons ∙ b,
            ap (λ x. x.healthy) cons ∙ (c ∙ omega arith),
          ),
    )

pub not_zero : (n : ℕ) → some n ≢ some 0 → (n == 0) ≡ false
not_zero n h = elim (Bool-cases (n == 0)) [
  | inl e ↦ absurd (h (ap some ((==_iff n 0).0 e)))
  | inr e ↦ e
]
