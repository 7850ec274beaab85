-- ===== src/Prelude/Sorting.antt =====
-- The contract of `sort.Slice` and `sort.Sort`: the result is a permutation of the input in which
-- no element is less than the one before it. Which of several equal elements comes first is open.
use mathlib.Core.Path.{◌≡◌, sym, subst}
use mathlib.Core.Bool.{Bool, true, false, Bool-set}
use mathlib.Core.List.{List, [], ◌∷◌, Mem, Perm}
use mathlib.Core.List.Perm
use mathlib.Core.Option.{none, some, some-injective}
use mathlib.Core.Logic.{inl, inr}
use etcd_cloud_operator.Prelude.Tests.{if◌then◌else◌, Bool-cases}
use etcd_cloud_operator.Prelude.Lists.{last?, All, last-none, mem-last, All-mem}

module _ {A : Type 0} (less : A → A → Bool) where
  abbrev pub IsSorted : List A → Type 0
  IsSorted [] = Unit
  IsSorted (x ∷ []) = Unit
  IsSorted (x ∷ y ∷ ys) = (less y x ≡ false) × IsSorted (y ∷ ys)

  pub record Sorter : Type 0 where
    pub sort : List A → List A
    pub sort-perm : (xs : List A) → Perm (sort xs) xs
    pub sort-IsSorted : (xs : List A) → IsSorted (sort xs)

  -- Insertion sort meets the contract.
  unfoldable pub insert_sorted : A → List A → List A
  insert_sorted x [] = x ∷ []
  insert_sorted x (y ∷ ys) = if less y x then y ∷ insert_sorted x ys else x ∷ y ∷ ys

  unfoldable pub insertion_sort : List A → List A
  unfolding insert_sorted
  insertion_sort [] = []
  insertion_sort (x ∷ xs) = insert_sorted x (insertion_sort xs)

  insert_sorted-perm : (x : A) (xs : List A) → Perm (insert_sorted x xs) (x ∷ xs)
  unfolding insert_sorted
  insert_sorted-perm x [] = Perm.refl (x ∷ [])
  insert_sorted-perm x (y ∷ ys) = elim (Bool-cases (less y x)) [
    | inl e ↦ rw e (Perm.trans (Perm.cons y (insert_sorted-perm x ys)) (Perm.swap x y ys))
    | inr e ↦ rw e (Perm.refl (x ∷ y ∷ ys))
  ]

  pub insertion_sort-perm : (xs : List A) → Perm (insertion_sort xs) xs
  unfolding insertion_sort
  insertion_sort-perm [] = Perm.refl []
  insertion_sort-perm (x ∷ xs) =
      Perm.trans (insert_sorted-perm x (insertion_sort xs)) (Perm.cons x (insertion_sort-perm xs))

  module _ (asym : (a b : A) → less a b ≡ true → less b a ≡ false) where
    -- Insertion below a head that no element is below keeps the head first.
    insert_sorted-IsSorted : (x : A) (xs : List A) → IsSorted xs → IsSorted (insert_sorted x xs)
    unfolding insert_sorted
    insert_sorted-IsSorted x [] s = tt
    insert_sorted-IsSorted x (y ∷ []) s = elim (Bool-cases (less y x)) [
      | inl e ↦ rw e (asym y x e, tt)
      | inr e ↦ rw e (e, tt)
    ]
    insert_sorted-IsSorted x (y ∷ z ∷ zs) s =
        let rest = insert_sorted-IsSorted x (z ∷ zs) s.1 in
        elim (Bool-cases (less y x)) [ inl e ↦ rw e (below_head e rest) | inr e ↦ rw e (e, s) ]
      where
        below_head :
            less y x ≡ true
            → IsSorted (insert_sorted x (z ∷ zs))
            → IsSorted (y ∷ insert_sorted x (z ∷ zs))
        below_head e rest = elim (Bool-cases (less z x)) [
          | inl f ↦ rw f (s.0, (rw f at rest))
          | inr f ↦ rw f (asym y x e, (rw f at rest))
        ]

    pub insertion_sort-IsSorted : (xs : List A) → IsSorted (insertion_sort xs)
    unfolding insertion_sort
    insertion_sort-IsSorted [] = tt
    insertion_sort-IsSorted (x ∷ xs) =
        insert_sorted-IsSorted x (insertion_sort xs) (insertion_sort-IsSorted xs)

    abbrev pub insertion_sorter : Sorter
    insertion_sorter = record {
      sort = insertion_sort;
      sort-perm = insertion_sort-perm;
      sort-IsSorted = insertion_sort-IsSorted;
    }

  module _ (trans : (a b c : A) → less b a ≡ false → less c b ≡ false → less c a ≡ false)
      (irreflexive : (a : A) → less a a ≡ false) where
    -- The last element is below no other.
    IsSorted-head_last :
        (x y : A) (ys : List A) → IsSorted (x ∷ ys) → last? (x ∷ ys) ≡ some y → less y x ≡ false
    IsSorted-head_last x y [] s e = rw (some-injective x y e) (irreflexive y)
    IsSorted-head_last x y (z ∷ zs) s e = trans x z y s.0 (IsSorted-head_last z y zs s.1 e)

    IsSorted-last :
        (xs : List A) (y : A) → IsSorted xs → last? xs ≡ some y → All (λ x. less y x ≡ false) xs
    IsSorted-last [] y s e = tt
    IsSorted-last (x ∷ []) y s e = (IsSorted-head_last x y [] s e, tt)
    IsSorted-last (x ∷ z ∷ zs) y s e =
        (IsSorted-head_last x y (z ∷ zs) s e, IsSorted-last (z ∷ zs) y s.1 e)

    -- The last element of a sorted list is a greatest element of the list that was sorted.
    pub sort-last :
        (s : Sorter) (xs : List A) (y : A)
        → last? (s.sort xs) ≡ some y
        → Mem y xs × ((x : A) → Mem x xs → less y x ≡ false)
    sort-last s xs y e = (
      Perm.subset (s.sort-perm xs) y (mem-last (s.sort xs) y e),
      λ x m.
          All-mem (λ z. Bool-set _ _) (s.sort xs)
            (IsSorted-last (s.sort xs) y (s.sort-IsSorted xs) e) x
            (Perm.subset (Perm.symm (s.sort-perm xs)) x m),
    )

  -- Nothing comes out last only if nothing went in.
  pub sort-nil : (s : Sorter) (xs : List A) → last? (s.sort xs) ≡ none → xs ≡ []
  sort-nil s xs e =
      sym (Perm.nil-eq (subst (λ l. Perm l xs) (last-none (s.sort xs) e) (s.sort-perm xs)))
