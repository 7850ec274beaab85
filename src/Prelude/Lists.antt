-- ===== src/Prelude/Lists.antt =====
-- Lists over the native numbers.
use Prim.Native.Nat.{ℕ, zero, suc, ◌+◌, ◌≤◌}
use mathlib.Core.Path.{◌≡◌, refl, sym, ◌∙◌, ap, subst}
use mathlib.Core.Logic.{◌⊎◌, inl, inr}
use etcd_cloud_operator.Prelude.Tests.{if◌then◌else◌, Bool-cases}
use mathlib.Core.Bool.{Bool, true, false, ◌||◌}
use mathlib.Core.List.{
  List, [], ◌∷◌, ◌++◌, Mem, mem-cons, not-mem-nil, mem-cons_self, cons≢nil, mem-cons_of_mem,
}
use mathlib.Core.Logic.Or
use mathlib.Core.Option.{Option, none, some, some-injective}
use native.Mathlib.Omega.{arith}

module _ {ℓ} {A : Type ℓ} where
  abbrev pub length : List A → ℕ
  length [] = 0
  length (x ∷ xs) = suc (length xs)

  abbrev pub get_elem? : List A → ℕ → Option A
  get_elem? [] i = none
  get_elem? (x ∷ xs) zero = some x
  get_elem? (x ∷ xs) (suc i) = get_elem? xs i

  -- The first n elements.
  abbrev pub take : ℕ → List A → List A
  take zero xs = []
  take (suc n) [] = []
  take (suc n) (x ∷ xs) = x ∷ take n xs

  -- The last element, `s[len(s)-1]`; none is the panic of an index out of range.
  abbrev pub last? : List A → Option A
  last? [] = none
  last? (x ∷ []) = some x
  last? (x ∷ y ∷ ys) = last? (y ∷ ys)

  pub length-append : (xs ys : List A) → length (xs ++ ys) ≡ length xs + length ys
  length-append [] ys = omega arith
  length-append (x ∷ xs) ys = omega (arith, length-append xs ys)

  pub length-take : (n : ℕ) (xs : List A) → n ≤ length xs → length (take n xs) ≡ n
  length-take zero xs h = refl
  length-take (suc n) [] h = omega arith
  length-take (suc n) (x ∷ xs) h = omega (arith, length-take n xs (omega arith))

  -- A property of every element.
  abbrev pub All {κ} : (A → Type κ) → List A → Type κ
  All P [] = Unit
  All P (x ∷ xs) = P x × All P xs

  abbrev pub any : (A → Bool) → List A → Bool
  any p [] = false
  any p (x ∷ xs) = p x || any p xs

  abbrev pub filter_if : (A → Bool) → List A → List A
  filter_if p [] = []
  filter_if p (x ∷ xs) = elim (p x) [ true ↦ x ∷ filter_if p xs | false ↦ filter_if p xs ]

  pub filter_if-true :
      (p : A → Bool) (x : A) (xs : List A) → p x ≡ true → filter_if p (x ∷ xs) ≡ x ∷ filter_if p xs
  filter_if-true p x xs e = rw (e, filter_if) refl

  pub filter_if-false :
      (p : A → Bool) (x : A) (xs : List A) → p x ≡ false → filter_if p (x ∷ xs) ≡ filter_if p xs
  filter_if-false p x xs e = rw (e, filter_if) refl

  pub mem-last : (xs : List A) (y : A) → last? xs ≡ some y → Mem y xs
  mem-last [] y e = absurd (cc)
  mem-last (x ∷ []) y e = rw (some-injective x y e) mem-cons_self
  mem-last (x ∷ z ∷ zs) y e = mem-cons_of_mem x (mem-last (z ∷ zs) y e)

  pub All-mem {κ} :
      {P : A → Type κ} (prop : (a : A) → IsProp (P a)) (xs : List A)
      → All P xs
      → (a : A) → Mem a xs
      → P a
  All-mem prop [] h a m = absurd (not-mem-nil m)
  All-mem {P} prop (x ∷ xs) h a m =
      Or.elim (prop a) (mem-cons.0 m) (λ e. rw e h.0) (All-mem prop xs h.1 a)

  pub last-none : (xs : List A) → last? xs ≡ none → xs ≡ []
  last-none [] e = refl
  last-none (x ∷ []) e = cc
  last-none (x ∷ y ∷ ys) e = absurd (cons≢nil (last-none (y ∷ ys) e))

  -- The last element that passes, where `found` did before the list.
  unfoldable pub last_where : (A → Bool) → Option A → List A → Option A
  last_where p found [] = found
  last_where p found (x ∷ xs) = last_where p (if p x then some x else found) xs

  -- What is found is an element that passes, and one is found if there is one.
  pub data Found (p : A → Bool) (xs : List A) : Option A → Type ℓ where
    nothing_found : All (λ x. p x ≡ false) xs → Found p xs none
    one_found : (x : A) → Mem x xs → p x ≡ true → Found p xs (some x)

  -- One that was found before is kept where no later one passes.
  found_or_later :
      (p : A → Bool) (found : A) (xs : List A)
      → (last_where p (some found) xs ≡ some found)
        ⊎ ((y : A) × (last_where p (some found) xs ≡ some y) × Mem y xs × (p y ≡ true))
  unfolding last_where
  found_or_later p found [] = inl refl
  found_or_later p found (x ∷ xs) = elim (Bool-cases (p x)) [
    | inl e ↦
        let here = ap (λ b. last_where p (if b then some x else some found) xs) e in
        elim (found_or_later p x xs) [
          | inl same ↦ inr (x, here ∙ same, mem-cons_self, e)
          | inr (y, h, m, f) ↦ inr (y, here ∙ h, mem-cons_of_mem x m, f)
        ]
    | inr e ↦
        let here = ap (λ b. last_where p (if b then some x else some found) xs) e in
        elim (found_or_later p found xs) [
          | inl same ↦ inl (here ∙ same)
          | inr (y, h, m, f) ↦ inr (y, here ∙ h, mem-cons_of_mem x m, f)
        ]
  ]

  Found-later :
      (p : A → Bool) (x : A) (xs : List A) (o : Option A)
      → p x ≡ false
      → Found p xs o
      → Found p (x ∷ xs) o
  Found-later p x xs _ e (nothing_found all) = nothing_found (e, all)
  Found-later p x xs _ e (one_found y m f) = one_found y (mem-cons_of_mem x m) f

  pub last_where-Found : (p : A → Bool) (xs : List A) → Found p xs (last_where p none xs)
  unfolding last_where
  last_where-Found p [] = nothing_found tt
  last_where-Found p (x ∷ xs) = elim (Bool-cases (p x)) [
    | inl e ↦
        subst (λ b. Found p (x ∷ xs) (last_where p (if b then some x else none) xs)) (sym e)
          (elim (found_or_later p x xs) [
            | inl same ↦ subst (Found p (x ∷ xs)) (sym same) (one_found x mem-cons_self e)
            | inr (y, h, m, f) ↦
                subst (Found p (x ∷ xs)) (sym h) (one_found y (mem-cons_of_mem x m) f)
          ])
    | inr e ↦
        subst (λ b. Found p (x ∷ xs) (last_where p (if b then some x else none) xs)) (sym e)
          (Found-later p x xs _ e (last_where-Found p xs))
  ]
