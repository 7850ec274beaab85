-- ===== src/Etcd/Client/Poll.antt =====
-- The loops of `IsHealthy` and `IsConsistent`, and what is computed from a map of revisions.
use mathlib.Core.Bool.{false≢true}
use etcd_cloud_operator.Prelude.{
  Text, ℕ, zero, suc, ◌+◌, ◌≤◌, ◌<◌, ℤ, pos, lt_int, lt_int_asym, lt_int_irrefl, lt_int-false_trans,
  eq_int, eq_int→eq, eq_int_refl, Bool, true, false, [], ◌∷◌, ◌≡◌, ◌≢◌, ◌↔◌, ◌⊎◌, inl, inr, refl,
  sym, ◌∙◌, ap, arith, All, Map, Outcome, ok, Bool-cases, if◌then◌else◌, subst, ok-injective,
}
use etcd_cloud_operator.Etcd.Config.{get_same_value, same_value_from}
use etcd_cloud_operator.Etcd.Client.{
  ClientError, is_alive, attempts, is_healthy, agrees, is_consistent, highest, get_highest_revision,
}

-- Some round of the loop passes.
abbrev pub Passes : (ℕ → Bool) → ℕ → ℕ → Type 0
Passes test start end = (k : ℕ) × (start ≤ k) × (k < end) × (test k ≡ true)

attempts-Passes :
    (test : ℕ → Bool) (i left : ℕ) → attempts test i left ≡ true → Passes test i (i + left)
unfolding attempts
attempts-Passes test i zero h = absurd (false≢true h)
attempts-Passes test i (suc left) h = elim (Bool-cases (test i)) [
  | inl e ↦ (i, omega arith, omega arith, e)
  | inr e ↦
      let (k, a, b, c) = attempts-Passes test (suc i) left (rw (e, attempts) at h) in
      (k, omega arith, omega arith, c)
]

Passes-attempts :
    (test : ℕ → Bool) (i left : ℕ) → Passes test i (i + left) → attempts test i left ≡ true
unfolding attempts
Passes-attempts test i zero (k, a, b, c) = absurd (omega arith)
Passes-attempts test i (suc left) (k, a, b, c) = elim (Bool-cases (test i)) [
  | inl e ↦ rw (e, attempts)
  | inr e ↦ rw (e, attempts) (Passes-attempts test (suc i) left (k, later e, omega arith, c))
]
  where
    later : test i ≡ false → suc i ≤ k
    later e = let ne : i ≢ k = λ p. false≢true (sym e ∙ ap test p ∙ c) in omega (arith, ne)

attempts_iff : (test : ℕ → Bool) (n : ℕ) → (attempts test 0 n ≡ true) ↔ Passes test 0 n
attempts_iff test n = (
  λ h. subst (Passes test 0) (omega arith) (attempts-Passes test 0 n h),
  λ p. Passes-attempts test 0 n (subst (Passes test 0) (omega arith) p),
)

-- `IsHealthy` is true just when one of its reads, of which there are as many as retries, succeeds
-- or is refused for lack of permission or for compaction.
pub is_healthy-Passes :
    (get : ℕ → Outcome ClientError (Unit {0})) (retries : ℕ)
    → (is_healthy get retries ≡ true) ↔ Passes (λ i. is_alive (get i)) 0 retries
unfolding is_healthy
is_healthy-Passes get retries = attempts_iff (λ i. is_alive (get i)) retries

-- `IsConsistent` returns nil just when one of fifteen readings agrees.
pub is_consistent-Passes :
    (read : ℕ → Outcome ClientError (Map ℤ × Map ℤ))
    → (is_consistent read ≡ true) ↔ Passes (λ i. agrees (read i)) 0 15
unfolding is_consistent
is_consistent-Passes read = attempts_iff (λ i. agrees (read i)) 15

-- No value of the map is above.
abbrev pub AtMost : ℤ → Map ℤ → Type 0
AtMost top = All (λ (e : Text × ℤ). lt_int top e.1 ≡ false)

abbrev Among : ℤ → Map ℤ → Type 0
Among v [] = ⊥
Among v (e ∷ es) = (v ≡ e.1) ⊎ Among v es

-- One turn of the loop.
highest_cases :
    (top rev : ℤ) (name : Text) (revs : Map ℤ)
    → ((lt_int top rev ≡ true) × (highest top ((name, rev) ∷ revs) ≡ highest rev revs))
      ⊎ ((lt_int top rev ≡ false) × (highest top ((name, rev) ∷ revs) ≡ highest top revs))
unfolding highest
highest_cases top rev name revs = elim (Bool-cases (lt_int top rev)) [
  | inl e ↦ inl (e, ap (λ b. highest (if b then rev else top) revs) e)
  | inr e ↦ inr (e, ap (λ b. highest (if b then rev else top) revs) e)
]

highest-grows : (top : ℤ) (revs : Map ℤ) → lt_int (highest top revs) top ≡ false
highest-grows top [] = unfold highest in lt_int_irrefl top
highest-grows top ((name, rev) ∷ revs) = elim (highest_cases top rev name revs) [
  | inl (e, s) ↦ rw s (
      lt_int-false_trans top rev (highest rev revs) (lt_int_asym top rev e)
        (highest-grows rev revs))
  | inr (e, s) ↦ rw s (highest-grows top revs)
]

highest-AtMost : (top : ℤ) (revs : Map ℤ) → AtMost (highest top revs) revs
highest-AtMost top [] = tt
highest-AtMost top ((name, rev) ∷ revs) = elim (highest_cases top rev name revs) [
  | inl (e, s) ↦
      subst (λ t. AtMost t ((name, rev) ∷ revs)) (sym s)
        (highest-grows rev revs, highest-AtMost rev revs)
  | inr (e, s) ↦
      subst (λ t. AtMost t ((name, rev) ∷ revs)) (sym s)
        (
          lt_int-false_trans rev top (highest top revs) e (highest-grows top revs),
          highest-AtMost top revs,
        )
]

IsFrom : ℤ → ℤ → Map ℤ → Type 0
IsFrom v top revs = (v ≡ top) ⊎ Among v revs

IsFrom-cons :
    (v top rev : ℤ) (name : Text) (revs : Map ℤ)
    → IsFrom v rev revs
    → IsFrom v top ((name, rev) ∷ revs)
unfolding IsFrom
IsFrom-cons v top rev name revs (inl e) = inr (inl e)
IsFrom-cons v top rev name revs (inr e) = inr (inr e)

highest-IsFrom : (top : ℤ) (revs : Map ℤ) → IsFrom (highest top revs) top revs
unfolding IsFrom
highest-IsFrom top [] = unfold highest in inl refl
highest-IsFrom top ((name, rev) ∷ revs) = elim (highest_cases top rev name revs) [
  | inl (e, s) ↦
      subst (λ t. IsFrom t top ((name, rev) ∷ revs)) (sym s)
        (IsFrom-cons _ top rev name revs (highest-IsFrom rev revs))
  | inr (e, s) ↦
      subst (λ t. IsFrom t top ((name, rev) ∷ revs)) (sym s)
        (elim (highest-IsFrom top revs) [ inl h ↦ inl h | inr h ↦ inr (inr h) ])
]

-- `GetHighestRevision` fails where the revisions cannot be had, and otherwise returns the highest
-- revision of the members, or 0 where none is above 0.
pub get_highest_revision-AtMost :
    (revs hs : Map ℤ) (top : ℤ)
    → get_highest_revision (ok (revs, hs)) ≡ ok top
    → AtMost top revs × ((top ≡ pos 0) ⊎ Among top revs)
unfolding get_highest_revision IsFrom
get_highest_revision-AtMost revs hs top h =
    subst (λ v. AtMost v revs × ((v ≡ pos 0) ⊎ Among v revs)) (ok-injective {E = ClientError} h)
      (highest-AtMost (pos 0) revs, highest-IsFrom (pos 0) revs)

abbrev pub AllEqual : ℤ → Map ℤ → Type 0
AllEqual v = All (λ (e : Text × ℤ). e.1 ≡ v)

abbrev pub NoZero : Map ℤ → Type 0
NoZero = All (λ (e : Text × ℤ). eq_int e.1 (pos 0) ≡ false)

same_value_from-AllEqual :
    (rv : ℤ) (vals : Map ℤ)
    → eq_int rv (pos 0) ≡ false
    → (same_value_from rv vals ≡ true) ↔ AllEqual rv vals
unfolding same_value_from
same_value_from-AllEqual rv [] nz = (λ h. tt, λ h. refl)
same_value_from-AllEqual rv ((name, v) ∷ vals) nz = elim (Bool-cases (eq_int rv v)) [
  | inl e ↦
      let ih = same_value_from-AllEqual rv vals nz in
      (
        λ h. (sym (eq_int→eq rv v e), ih.0 (rw (nz, e, same_value_from) at h)),
        λ h. rw (nz, e, same_value_from) (ih.1 h.1),
      )
  | inr e ↦ (
    λ h. absurd (false≢true (rw (nz, e, same_value_from) at h)),
    λ h. absurd (false≢true (sym (sym (eq_int_refl rv) ∙ ap (eq_int rv) (sym h.0) ∙ e))),
  )
]

-- On values of which none is 0, `getSameValue` is true just when they are all the same, whichever
-- order the map is visited in.
pub get_same_value-AllEqual :
    (name : Text) (v : ℤ) (vals : Map ℤ)
    → NoZero ((name, v) ∷ vals)
    → (get_same_value ((name, v) ∷ vals) ≡ true) ↔ AllEqual v ((name, v) ∷ vals)
unfolding get_same_value eq_int
get_same_value-AllEqual name v vals nz =
    let ih = same_value_from-AllEqual v vals nz.0 in
    let e : eq_int v v ≡ true = eq_int_refl v in
    (λ h. (refl, ih.0 (rw (e, same_value_from) at h)), λ h. rw (e, same_value_from) (ih.1 h.1))
