-- ===== src/Operator/Status/Elected.antt =====
-- Among statuses that all instances see there is a seeder.
use mathlib.Core.List.{Mem-prop, Mem, mem-cons, not-mem-nil, mem-cons_self, mem-cons_of_mem}
use mathlib.Core.Logic.Or
use mathlib.Core.Bool.{false≢true}
use mathlib.Core.Option.{none-ne-some, some-injective}
use etcd_cloud_operator.Prelude.{
  Bool, true, false, Option, none, some, List, [], ◌∷◌, last?, ok, text_eq, text_eq_iff, ◌≡◌, ◌≢◌,
  inl, inr, refl, sym, ◌∙◌, ap, subst, Bool-cases, Option-cases, sort-nil,
}
use etcd_cloud_operator.Operator.Status.{
  Instance, EcoStatus, Reply, StatusSort, View, fetch_status, fetch_all, fetch_statuses,
  status_less, add_status, or_else, view, is_last, count_from,
}
use etcd_cloud_operator.Operator.Status.Seeder.{IsTop, last-IsTop, tops_agree, by_insertion}

pub has-IsTop :
    (answers : Instance → Reply) (is : List Instance)
    → fetch_all answers is ≢ []
    → (st : EcoStatus) × IsTop st (fetch_all answers is)
has-IsTop answers is n = elim (Option-cases (last? (by_insertion.sort (fetch_all answers is)))) [
  | inl e ↦ absurd (n (sort-nil status_less by_insertion (fetch_all answers is) e))
  | inr (st, e) ↦ (st, last-IsTop by_insertion (fetch_all answers is) st e)
]

reply-name :
    (r : Reply) (i : Instance) (st : EcoStatus)
    → fetch_status (λ j. r) i ≡ some st
    → i.name ≡ st.instance_name
unfolding fetch_status
reply-name Reply.unreachable i st h = absurd (none-ne-some st h)
reply-name Reply.malformed i st h = absurd (none-ne-some st h)
reply-name (Reply.replied state revision) i st h = ap (λ x. x.instance_name) (some-injective _ _ h)

fetch_status-name :
    (answers : Instance → Reply) (i : Instance) (st : EcoStatus)
    → fetch_status answers i ≡ some st
    → i.name ≡ st.instance_name
unfolding fetch_status
fetch_status-name answers i st h = reply-name (answers i) i st h

-- A status was read from the answer of an instance of that name.
pub named :
    (answers : Instance → Reply) (is : List Instance) (st : EcoStatus)
    → Mem st (fetch_all answers is)
    → (i : Instance) × Mem i is × (i.name ≡ st.instance_name)
unfolding fetch_all
named answers [] st m = absurd (not-mem-nil m)
named answers (i ∷ is) st m = elim (Bool-cases (text_eq i.name st.instance_name)) [
  | inl e ↦ (i, mem-cons_self, (text_eq_iff i.name st.instance_name).0 e)
  | inr e ↦
      let (j, n, same) = named answers is st (behind e (fetch_status answers i) refl m) in
      (j, mem-cons_of_mem i n, same)
]
  where
    behind :
        text_eq i.name st.instance_name ≡ false
        → (o : Option EcoStatus) → o ≡ fetch_status answers i
        → Mem st (add_status o (fetch_all answers is))
        → Mem st (fetch_all answers is)
    behind e none h n = n
    behind e (some x) h n =
        Or.elim (Mem-prop) (mem-cons.0 n)
          (λ same. absurd (
            false≢true (
              sym e
              ∙ (text_eq_iff i.name st.instance_name).1
                  (fetch_status-name answers i st (sym h ∙ ap some (sym same))))))
          (λ k. k)

not_healthy : (client : Option Bool) → client ≢ some true → or_else client false ≡ false
unfolding or_else
not_healthy none n = refl
not_healthy (some true) n = absurd (n refl)
not_healthy (some false) n = refl

none-IsTop : (sts : List EcoStatus) (st : EcoStatus) → sts ≡ [] → ¬ IsTop st sts
none-IsTop sts st e (m, top) = not-mem-nil (subst (Mem st) e m)

-- An instance whose name is that of a greatest status is the seeder, whatever sort it uses.
pub seeder_view :
    (sorter : StatusSort) (client : Option Bool) (answers : Instance → Reply) (is : List Instance)
    (self : Instance) (st : EcoStatus)
    → IsTop st (fetch_all answers is)
    → self.name ≡ st.instance_name
    → client ≢ some true
    → (v : View) × (fetch_statuses sorter client answers is self ≡ ok v)
      × (v.is_seeder ≡ true)
      × (v.etcd_healthy ≡ false)
unfolding fetch_statuses is_last view
seeder_view sorter client answers is self st top same n =
    let counts = count_from [] (sorter.sort (fetch_all answers is)) in
    let final = last? (sorter.sort (fetch_all answers is)) in
    elim (Option-cases final) [
      | inl e ↦ absurd (
          none-IsTop (fetch_all answers is) st
            (sort-nil status_less sorter (fetch_all answers is) e) top)
      | inr (st', e) ↦
          let agree = tops_agree _ st' st (last-IsTop sorter (fetch_all answers is) st' e) top in
          let yes = (text_eq_iff st'.instance_name self.name).1 (agree ∙ sym same) in
          (
            record { etcd_healthy = or_else client false; is_seeder = true; states = counts },
            ap (λ o. view (or_else client false) counts (is_last self o)) e
                ∙ ap (λ b. view (or_else client false) counts (ok b)) yes,
            refl,
            not_healthy client n,
          )
    ]

-- With a status at least, and etcd not found healthy, there is a view in which it is not.
pub unhealthy_view :
    (sorter : StatusSort) (client : Option Bool) (answers : Instance → Reply) (is : List Instance)
    (self : Instance)
    → fetch_all answers is ≢ []
    → client ≢ some true
    → (v : View) × (fetch_statuses sorter client answers is self ≡ ok v) × (v.etcd_healthy ≡ false)
unfolding fetch_statuses is_last view
unhealthy_view sorter client answers is self some_answer n =
    let counts = count_from [] (sorter.sort (fetch_all answers is)) in
    elim (Option-cases (last? (sorter.sort (fetch_all answers is)))) [
      | inl e ↦ absurd (some_answer (sort-nil status_less sorter (fetch_all answers is) e))
      | inr (st, e) ↦
          let seeder = text_eq st.instance_name self.name in
          (
            record { etcd_healthy = or_else client false; is_seeder = seeder; states = counts },
            ap (λ o. view (or_else client false) counts (is_last self o)) e,
            not_healthy client n,
          )
    ]
