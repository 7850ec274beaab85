-- ===== src/Operator/Providers/Registers.antt =====
-- What a register keeps.
use mathlib.Core.Option.{none-ne-some}
use etcd_cloud_operator.Prelude.{
  Text, Option, none, some, [], Map, lookup, insert, lookup-insert, text_eq, text_eq_iff,
  text_eq_refl, Outcome, ok, err, panic, ok-injective, ◌≡◌, ◌≢◌, inl, inr, refl, sym, ◌∙◌, ap,
  Bool-cases,
}
use etcd_cloud_operator.Operator.Providers.{register, register_at}

pub panic-ne-done : {E A : Type 0} {a : A} → ¬ (◌≡◌ {A = Outcome E A} panic (ok a))
panic-ne-done h = cc

pub err-ne-done : {E A : Type 0} {e : E} {a : A} → ¬ (◌≡◌ {A = Outcome E A} (err e) (ok a))
err-ne-done h = cc

register_at-ok :
    {P : Type 0} (name : Text) (p : P) (found : Option P) (providers after : Map P)
    → register_at name p found providers ≡ ok after
    → (found ≡ none) × (after ≡ insert name p providers)
unfolding register_at
register_at-ok name p none providers after h = (refl, sym (ok-injective h))
register_at-ok name p (some dup) providers after h = absurd (panic-ne-done h)

register-ok :
    {P : Type 0} (name : Text) (p : P) (providers after : Map P)
    → register name (some p) providers ≡ ok after
    → (lookup name providers ≡ none) × (after ≡ insert name p providers)
unfolding register
register-ok name p providers after h = elim (Bool-cases (text_eq name [])) [
  | inl e ↦ absurd (panic-ne-done (rw e at h))
  | inr e ↦ register_at-ok name p (lookup name providers) providers after (rw e at h)
]

insert-spares :
    {P : Type 0} (name other : Text) (p q : P) (providers : Map P)
    → lookup name providers ≡ none
    → lookup other providers ≡ some q
    → lookup other (insert name p providers) ≡ some q
insert-spares name other p q providers n o = elim (Bool-cases (text_eq name other)) [
  | inl e ↦
      absurd
        (none-ne-some q (sym n ∙ (ap (λ k. lookup k providers) ((text_eq_iff name other).0 e) ∙ o)))
  | inr e ↦ lookup-insert name other p providers ∙ rw e o
]

-- A registration that does not panic was of a provider that is not nil, under a name that is not taken;
-- it is found under that name afterwards, and what was registered before is found as before.
pub register-keeps :
    {P : Type 0} (name : Text) (p : Option P) (providers after : Map P)
    → register name p providers ≡ ok after
    → (p ≢ none)
      × (lookup name providers ≡ none)
      × (lookup name after ≡ p)
      × ((other : Text) (q : P) → lookup other providers ≡ some q → lookup other after ≡ some q)
register-keeps name none providers after h = absurd (unfold register in panic-ne-done h)
register-keeps name (some p) providers after h =
    let (n, e) = register-ok name p providers after h in
    (
      λ none_given. none-ne-some p (sym none_given),
      n,
      ap (lookup name) e ∙ (lookup-insert name name p providers ∙ rw (text_eq_refl name) refl),
      λ other q o. ap (lookup other) e ∙ insert-spares name other p q providers n o,
    )
