-- ===== src/Operator/Status/Seeder.antt =====
-- Which instance is the seeder.
use mathlib.Core.List.Perm
use etcd_cloud_operator.Prelude.{
  Text, ℤ, eq_int, lt_int, eq_int→eq, eq_int_refl, lt_int_asym, lt_int_irrefl, lt_int-false_trans,
  lt_int_connex, Bool, true, false, Option, none, some, List, Outcome, ok, panic, Mem, Perm,
  sort-last, insertion_sorter, text_eq, text_eq_iff, text_lt, text_lt-false_trans, text_lt_asym,
  text_lt_connex, text_lt_irrefl, last?, ◌≡◌, ◌≢◌, ◌⊎◌, inl, inr, refl, Map, ok-injective, sym, ◌∙◌,
  ap, subst, Bool-cases, if◌then◌else◌, ℕ,
}
use etcd_cloud_operator.Operator.Status.{
  Instance, EcoStatus, Reply, fetch_all, status_less, StatusSort, is_last, View, view,
  fetch_statuses,
}

-- The lexicographic order of revisions and names.
abbrev lex : ℤ → Text → ℤ → Text → Bool
lex a s b t = if eq_int a b then text_lt s t else lt_int a b

lex_equal : (a : ℤ) (s t : Text) → lex a s a t ≡ text_lt s t
lex_equal a s t = rw (eq_int_refl a) refl

lex_different : (a : ℤ) (s : Text) (b : ℤ) (t : Text) → a ≢ b → lex a s b t ≡ lt_int a b
lex_different a s b t n = elim (Bool-cases (eq_int a b)) [
  | inl e ↦ absurd (n (eq_int→eq a b e))
  | inr e ↦ rw e refl
]

int_cases : (a b : ℤ) → (a ≡ b) ⊎ (a ≢ b)
int_cases a b = elim (Bool-cases (eq_int a b)) [
  | inl e ↦ inl (eq_int→eq a b e)
  | inr e ↦ inr (λ p.
      let q : eq_int a a ≡ false = subst (λ z. eq_int a z ≡ false) (sym p) e in
      let r = eq_int_refl a in cc)
]

-- A revision is below another or not, and "not below" gives an order of different revisions.
lex_first : (a : ℤ) (s : Text) (b : ℤ) (t : Text) → lex b t a s ≡ false → lt_int b a ≡ false
lex_first a s b t h = elim (int_cases b a) [
  | inl p ↦ subst (λ z. lt_int b z ≡ false) p (lt_int_irrefl b)
  | inr n ↦ sym (lex_different b t a s n) ∙ h
]

lex_second : (a : ℤ) (s t : Text) → lex a t a s ≡ false → text_lt t s ≡ false
lex_second a s t h = sym (lex_equal a t s) ∙ h

lex_connex :
    (a : ℤ) (s : Text) (b : ℤ) (t : Text)
    → lex a s b t ≡ false
    → lex b t a s ≡ false
    → (a ≡ b) × (s ≡ t)
lex_connex a s b t h k =
    let p = lt_int_connex a b (lex_first b t a s h) (lex_first a s b t k) in
    (
      p,
      text_lt_connex s t (lex_second a t s (subst (λ z. lex a s z t ≡ false) (sym p) h))
          (lex_second a s t (subst (λ z. lex z t a s ≡ false) (sym p) k)),
    )

lex_trans_equal :
    (a : ℤ) (s t u : Text) → lex a t a s ≡ false → lex a u a t ≡ false → lex a u a s ≡ false
lex_trans_equal a s t u h k =
    lex_equal a u s ∙ text_lt-false_trans s t u (lex_second a s t h) (lex_second a t u k)

lex_trans :
    (a : ℤ) (s : Text) (b : ℤ) (t : Text) (c : ℤ) (u : Text)
    → lex b t a s ≡ false
    → lex c u b t ≡ false
    → lex c u a s ≡ false
lex_trans a s b t c u h k =
    let f = lex_first a s b t h in
    let g = lex_first b t c u k in
    elim (int_cases c a) [
      | inr n ↦ lex_different c u a s n ∙ lt_int-false_trans a b c f g
      | inl p ↦
          let q = lt_int_connex a b (subst (λ z. lt_int z b ≡ false) p g) f in
          subst (λ z. lex z u a s ≡ false) (sym p)
            (lex_trans_equal a s t u (subst (λ z. lex z t a s ≡ false) (sym q) h)
              (subst (λ z. lex a u z t ≡ false) (sym q) (subst (λ z. lex z u b t ≡ false) p k)))
    ]

status_less_trans :
    (a b c : EcoStatus)
    → status_less b a ≡ false
    → status_less c b ≡ false
    → status_less c a ≡ false
unfolding status_less
status_less_trans a b c h k =
    lex_trans a.revision a.instance_name b.revision b.instance_name c.revision c.instance_name h k

status_less_irrefl : (a : EcoStatus) → status_less a a ≡ false
unfolding status_less
status_less_irrefl a =
    lex_equal a.revision a.instance_name a.instance_name ∙ text_lt_irrefl a.instance_name

lex_asym : (a : ℤ) (s : Text) (b : ℤ) (t : Text) → lex a s b t ≡ true → lex b t a s ≡ false
lex_asym a s b t h = elim (int_cases a b) [
  | inl p ↦
      subst (λ z. lex z t a s ≡ false) p
        (lex_equal a t s
          ∙ text_lt_asym s t (sym (lex_equal a s t) ∙ subst (λ z. lex a s z t ≡ true) (sym p) h))
  | inr n ↦
      lex_different b t a s (λ p. n (sym p)) ∙ lt_int_asym a b (sym (lex_different a s b t n) ∙ h)
]

pub status_less_asym : (a b : EcoStatus) → status_less a b ≡ true → status_less b a ≡ false
unfolding status_less
status_less_asym a b h = lex_asym a.revision a.instance_name b.revision b.instance_name h

-- Insertion sort is one of the sorts.
abbrev pub by_insertion : StatusSort
by_insertion = insertion_sorter status_less status_less_asym

status_less_connex :
    (a b : EcoStatus)
    → status_less a b ≡ false
    → status_less b a ≡ false
    → a.instance_name ≡ b.instance_name
unfolding status_less
status_less_connex a b h k =
    (lex_connex a.revision a.instance_name b.revision b.instance_name h k).1

-- The last of the sorted statuses is one that none is above.
abbrev pub IsTop : EcoStatus → List EcoStatus → Type 0
IsTop st sts = Mem st sts × ((other : EcoStatus) → Mem other sts → status_less st other ≡ false)

pub last-IsTop :
    (s : StatusSort) (sts : List EcoStatus) (st : EcoStatus)
    → last? (s.sort sts) ≡ some st
    → IsTop st sts
last-IsTop s sts st e = sort-last status_less status_less_trans status_less_irrefl s sts st e

-- A status above all others in one order of arrival is one in any other.
IsTop-perm : (xs ys : List EcoStatus) (st : EcoStatus) → Perm xs ys → IsTop st xs → IsTop st ys
IsTop-perm xs ys st p (m, top) = (Perm.subset p st m, λ o k. top o (Perm.subset (Perm.symm p) o k))

pub tops_agree :
    (sts : List EcoStatus) (a b : EcoStatus)
    → IsTop a sts
    → IsTop b sts
    → a.instance_name ≡ b.instance_name
tops_agree sts a b (ma, ta) (mb, tb) = status_less_connex a b (ta b mb) (tb a ma)

seeder-last :
    (last : Option EcoStatus) (self : Instance) (healthy : Bool) (states : Map ℕ) (v : View)
    → view healthy states (is_last self last) ≡ ok v
    → (st : EcoStatus) × (last ≡ some st) × (v.is_seeder ≡ text_eq st.instance_name self.name)
unfolding is_last view
seeder-last none self healthy states v h = absurd (panic-ne-okay h)
  where
    panic-ne-okay : ¬ (◌≡◌ {A = Outcome (Unit {0}) View} panic (ok v))
    panic-ne-okay e = cc
seeder-last (some st) self healthy states v h =
    (st, refl, ap (λ x. x.is_seeder) (sym (ok-injective h)))

seeder-IsTop :
    (s : StatusSort) (client : Option Bool) (answers : Instance → Reply) (is : List Instance)
    (self : Instance) (v : View)
    → fetch_statuses s client answers is self ≡ ok v
    → v.is_seeder ≡ true
    → (st : EcoStatus) × IsTop st (fetch_all answers is) × (st.instance_name ≡ self.name)
unfolding fetch_statuses
seeder-IsTop s client answers is self v h seeder =
    let (st, e, q) = seeder-last (last? (s.sort (fetch_all answers is))) self _ _ v h in
    (
      st,
      last-IsTop s (fetch_all answers is) st e,
      (text_eq_iff st.instance_name self.name).0 (sym q ∙ seeder),
    )

-- Instances that got the same statuses, each in its own order and sorted by its own sort, never hold
-- themselves both the seeder unless they are one instance by name.
pub seeders_agree :
    (s t : StatusSort) (client client' : Option Bool) (answers answers' : Instance → Reply)
    (is is' : List Instance) (self self' : Instance) (v v' : View)
    → Perm (fetch_all answers is) (fetch_all answers' is')
    → fetch_statuses s client answers is self ≡ ok v
    → fetch_statuses t client' answers' is' self' ≡ ok v'
    → v.is_seeder ≡ true
    → v'.is_seeder ≡ true
    → self.name ≡ self'.name
seeders_agree s t client client' answers answers' is is' self self' v v' p h h' b b' =
    let (st, top, n) = seeder-IsTop s client answers is self v h b in
    let (st', top', n') = seeder-IsTop t client' answers' is' self' v' h' b' in
    sym n ∙ (tops_agree (fetch_all answers' is') st st' (IsTop-perm _ _ st p top) top' ∙ n')
