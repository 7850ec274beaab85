-- ===== src/Operator/Status/Counts.antt =====
-- What the counts of the states are.
use mathlib.Core.List.{Permᴰ}
use mathlib.Core.List.Permᴰ.{nil, cons, swap, trans}
use native.Mathlib.Nat.{ℕ_set}
use etcd_cloud_operator.Prelude.{
  Text, ℕ, suc, ◌+◌, Bool, List, [], ◌∷◌, Map, lookup, insert, lookup-insert, text_eq, text_eq_iff,
  Perm, Outcome, ok, err, panic, ok-injective, ◌≢◌, Option, if◌then◌else◌, ◌≡◌, refl, sym, ◌∙◌, ap,
  arith, Bool-cases, inl, inr,
}
use etcd_cloud_operator.Operator.Status.{
  Instance, Reply, EcoStatus, View, view, StatusSort, fetch_all, fetch_statuses, or_else,
  state_count, count_from,
}

-- How many of the statuses are in a state.
unfoldable pub tally : Text → List EcoStatus → ℕ
tally state [] = 0
tally state (st ∷ sts) = if text_eq st.state state then suc (tally state sts) else tally state sts

state_count-insert :
    (state key : Text) (n : ℕ) (states : Map ℕ)
    → state_count state (insert key n states)
      ≡ (if text_eq key state then n else state_count state states)
unfolding state_count or_else
state_count-insert state key n states = elim (Bool-cases (text_eq key state)) [
  | inl e ↦ rw (lookup-insert key state n states, e) refl
  | inr e ↦ rw (lookup-insert key state n states, e) refl
]

-- One more status adds one to the count of its own state.
counted_one :
    (state key : Text) (states : Map ℕ) (more : ℕ)
    → state_count state (insert key (state_count key states + 1) states) + more
      ≡ state_count state states + (if text_eq key state then suc more else more)
counted_one state key states more =
    let one = state_count-insert state key (state_count key states + 1) states in
    elim (Bool-cases (text_eq key state)) [
      | inl e ↦
          let same = ap (λ k. state_count k states) ((text_eq_iff key state).0 e) in
          let one' = (rw e at one) in rw e (omega arith)
      | inr e ↦ let one' = (rw e at one) in rw e (omega arith)
    ]

count_from-adds :
    (state : Text) (states : Map ℕ) (sts : List EcoStatus)
    → state_count state (count_from states sts) ≡ state_count state states + tally state sts
unfolding count_from tally
count_from-adds state states [] = omega arith
count_from-adds state states (st ∷ sts) =
    count_from-adds state (insert st.state (state_count st.state states + 1) states) sts
    ∙ counted_one state st.state states (tally state sts)

state_count-nil : (state : Text) → state_count state [] ≡ 0
unfolding state_count or_else lookup
state_count-nil state = refl

-- The count that `fetchStatuses` ends with for a state is the number of statuses in that state.
pub count_from-tally :
    (state : Text) (sts : List EcoStatus) → state_count state (count_from [] sts) ≡ tally state sts
count_from-tally state sts =
    let none_yet = state_count-nil state in let all = count_from-adds state [] sts in omega arith

tally-swap :
    (state : Text) (a b : EcoStatus) (sts : List EcoStatus)
    → tally state (a ∷ b ∷ sts) ≡ tally state (b ∷ a ∷ sts)
unfolding tally
tally-swap state a b sts = ground (arith)

tally-cons :
    (state : Text) (a b : EcoStatus) (xs ys : List EcoStatus)
    → a ≡ b
    → tally state xs ≡ tally state ys
    → tally state (a ∷ xs) ≡ tally state (b ∷ ys)
unfolding tally
tally-cons state a b xs ys p q =
    ap (λ c. tally state (c ∷ xs)) p ∙ ap (λ n. if text_eq b.state state then suc n else n) q

tally-perm_steps :
    (state : Text) {xs ys : List EcoStatus} → Permᴰ xs ys → tally state xs ≡ tally state ys
tally-perm_steps state nil = refl
tally-perm_steps state (cons {a} {b} {l₁} {l₂} p d) =
    tally-cons state a b l₁ l₂ p (tally-perm_steps state d)
tally-perm_steps state (swap {a} {b} {a'} {b'} {l} p q) =
    tally-swap state a b l
    ∙ tally-cons state b a' (a ∷ l) (b' ∷ l) q (tally-cons state a b' l l p refl)
tally-perm_steps state (trans d e) = tally-perm_steps state d ∙ tally-perm_steps state e

pub tally-perm :
    (state : Text) {xs ys : List EcoStatus} → Perm xs ys → tally state xs ≡ tally state ys
tally-perm state p = ∥∥₁_rec (ℕ_set _ _) (tally-perm_steps state) p

view-states :
    (last : Outcome (Unit {0}) Bool) (healthy : Bool) (states : Map ℕ) (v : View)
    → view healthy states last ≡ ok v
    → v.states ≡ states
unfolding view
view-states (ok b) healthy states v h = ap (λ x. x.states) (sym (ok-injective h))
view-states (err e) healthy states v h = absurd (err-ne-view e v h)
  where
    err-ne-view : (e : Unit {0}) (v : View) → ◌≢◌ {A = Outcome (Unit {0}) View} (err e) (ok v)
    err-ne-view e v h = cc
view-states panic healthy states v h = absurd (panic-ne-view v h)
  where
    panic-ne-view : (v : View) → ◌≢◌ {A = Outcome (Unit {0}) View} panic (ok v)
    panic-ne-view v h = cc

-- What a view counts of a state is the number of the instances that report it.
pub fetch_statuses-tally :
    (s : StatusSort) (client_healthy : Option Bool) (answers : Instance → Reply)
    (instances : List Instance) (self : Instance) (v : View) (state : Text)
    → fetch_statuses s client_healthy answers instances self ≡ ok v
    → state_count state v.states ≡ tally state (fetch_all answers instances)
unfolding fetch_statuses
fetch_statuses-tally s client_healthy answers instances self v state h =
    let statuses = fetch_all answers instances in
    ap (state_count state) (view-states _ _ _ v h)
    ∙ (count_from-tally state (s.sort statuses) ∙ tally-perm state (s.sort-perm statuses))
