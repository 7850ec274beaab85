-- ===== src/Operator/Status/Unanimous.antt =====
-- When all instances of a group report one state.
use mathlib.Core.List.{Mem, mem-cons, not-mem-nil, cons≢nil}
use mathlib.Core.List
use mathlib.Core.Logic.Or
use native.Mathlib.Nat.{ℕ_set}
use mathlib.Core.Option.{some-injective}
use etcd_cloud_operator.Prelude.{
  Text, suc, ◌≤◌, Option, none, some, List, [], ◌∷◌, length, All, text_eq, text_eq_iff, ◌≡◌, ◌≢◌,
  ◌⊎◌, inl, inr, refl, sym, ◌∙◌, ap, arith, Bool-cases,
}
use etcd_cloud_operator.Operator.Status.{
  Instance, EcoStatus, Reply, fetch_status, fetch_all, add_status,
}
use etcd_cloud_operator.Operator.Status.Counts.{tally}

-- The instance answers, and what is read from its answer is in the state.
unfoldable pub Reports : Text → (Instance → Reply) → Instance → Type 0
Reports state answers i = (st : EcoStatus) × (fetch_status answers i ≡ some st) × (st.state ≡ state)

added :
    (o : Option EcoStatus) (st : EcoStatus) (rest : List EcoStatus)
    → o ≡ some st
    → add_status o rest ≢ []
unfolding add_status
added o st rest h e = cons≢nil (ap (λ x. add_status x rest) (sym h) ∙ e)

pub answered :
    (answers : Instance → Reply) (first : Instance) (others : List Instance) (st : EcoStatus)
    → fetch_status answers first ≡ some st
    → fetch_all answers (first ∷ others) ≢ []
unfolding fetch_all
answered answers first others st h =
    added (fetch_status answers first) st (fetch_all answers others) h

tally_added :
    (state : Text) (o : Option EcoStatus) (st : EcoStatus) (rest : List EcoStatus)
    → o ≡ some st
    → st.state ≡ state
    → tally state (add_status o rest) ≡ suc (tally state rest)
unfolding tally add_status
tally_added state o st rest h s =
    let same = (text_eq_iff st.state state).1 s in
    ap (λ x. tally state (add_status x rest)) h ∙ (rw same refl)

pub tally-Reports :
    (state : Text) (answers : Instance → Reply) (is : List Instance)
    → All (Reports state answers) is
    → tally state (fetch_all answers is) ≡ length is
unfolding tally fetch_all Reports
tally-Reports state answers [] r = refl
tally-Reports state answers (i ∷ is) ((st, h, s), r) =
    tally_added state (fetch_status answers i) st (fetch_all answers is) h s
    ∙ ap suc (tally-Reports state answers is r)

-- An answer adds one at most, and only in the state.
added_cases :
    (state : Text) (o : Option EcoStatus) (rest : List EcoStatus)
    → (tally state (add_status o rest) ≡ tally state rest)
      ⊎ ((st : EcoStatus) × (o ≡ some st) × (st.state ≡ state))
unfolding tally add_status
added_cases state none rest = inl refl
added_cases state (some st) rest = elim (Bool-cases (text_eq st.state state)) [
  | inl e ↦ inr (st, refl, (text_eq_iff st.state state).0 e)
  | inr e ↦ inl (rw e refl)
]

tally_bound :
    (state : Text) (answers : Instance → Reply) (is : List Instance)
    → tally state (fetch_all answers is) ≤ length is
unfolding tally fetch_all
tally_bound state answers [] = omega arith
tally_bound state answers (i ∷ is) =
    let rest = tally_bound state answers is in
    elim (added_cases state (fetch_status answers i) (fetch_all answers is)) [
      | inl e ↦ omega arith
      | inr (st, h, s) ↦
          let e = tally_added state (fetch_status answers i) st (fetch_all answers is) h s in
          omega arith
    ]

-- A state is counted as often as there are instances only if each of them reports it.
pub Reports-tally :
    (state : Text) (answers : Instance → Reply) (is : List Instance)
    → tally state (fetch_all answers is) ≡ length is
    → All (Reports state answers) is
unfolding tally fetch_all Reports
Reports-tally state answers [] h = tt
Reports-tally state answers (i ∷ is) h =
    let bound = tally_bound state answers is in
    elim (added_cases state (fetch_status answers i) (fetch_all answers is)) [
      | inl e ↦ absurd (omega arith)
      | inr (st, f, s) ↦
          let e = tally_added state (fetch_status answers i) st (fetch_all answers is) f s in
          let rest : tally state (fetch_all answers is) ≡ length is = omega arith in
          ((st, f, s), Reports-tally state answers is rest)
    ]

Text_set : IsSet Text
Text_set = List.is_set ℕ_set

same_state :
    (state : Text) (o : Option EcoStatus) (st st' : EcoStatus)
    → o ≡ some st
    → st.state ≡ state
    → o ≡ some st'
    → st'.state ≡ state
same_state state o st st' h s h' = ap (λ x. x.state) (some-injective _ _ (sym h' ∙ h)) ∙ s

-- Where all report the state, so does each member that answers.
pub Reports-mem :
    (state : Text) (answers : Instance → Reply) (is : List Instance) (i : Instance)
    → All (Reports state answers) is
    → Mem i is
    → (st : EcoStatus) → fetch_status answers i ≡ some st
    → st.state ≡ state
unfolding Reports
Reports-mem state answers [] i r m st h = absurd (not-mem-nil m)
Reports-mem state answers (j ∷ is) i ((st', f, s), r) m st h =
    Or.elim (Text_set _ _) (mem-cons.0 m)
      (λ e.
        same_state state (fetch_status answers j) st' st f s
          (ap (fetch_status answers) (sym e) ∙ h))
      (λ k. Reports-mem state answers is i r k st h)
