-- ===== src/Prelude/Maps.antt =====
-- A Go map as an association list with one entry to a key. `range` visits it in an order that Go
-- leaves open; a client that ranges over a map takes the list as it stands.
use mathlib.Core.Path.{◌≡◌, refl, sym, ◌∙◌, ap, subst}
use mathlib.Core.Bool.{false}
use mathlib.Core.Logic.{◌⊎◌, inl, inr}
use mathlib.Core.List.{List, [], ◌∷◌, Memᴰ}
use mathlib.Core.Option.{Option, none, some}
use native.Mathlib.Omega.{arith}
use etcd_cloud_operator.Prelude.Tests.{if◌then◌else◌, Bool-cases}
use etcd_cloud_operator.Prelude.Strings.{Text, text_eq, text_eq_iff, text_eq_refl}

abbrev pub Map : Type 0 → Type 0
Map V = List (Text × V)

module _ {V : Type 0} where
  unfoldable pub lookup : Text → Map V → Option V
  lookup k [] = none
  lookup k ((j, v) ∷ m) = if text_eq j k then some v else lookup k m

  unfoldable pub insert : Text → V → Map V → Map V
  insert k v [] = (k, v) ∷ []
  insert k v ((j, w) ∷ m) = if text_eq j k then (k, v) ∷ m else (j, w) ∷ insert k v m

  pub lookup-insert :
      (k j : Text) (v : V) (m : Map V)
      → lookup j (insert k v m) ≡ (if text_eq k j then some v else lookup j m)
  unfolding lookup insert
  lookup-insert k j v [] = refl
  lookup-insert k j v ((i, w) ∷ m) =
      ground (arith, text_eq_iff k j, text_eq_iff i k, text_eq_iff i j, lookup-insert k j v m)

  -- `delete(m, k)`.
  unfoldable pub remove : Text → Map V → Map V
  remove k [] = []
  remove k ((j, w) ∷ m) = if text_eq j k then remove k m else (j, w) ∷ remove k m

  pub lookup-remove :
      (k j : Text) (m : Map V) → lookup j (remove k m) ≡ (if text_eq k j then none else lookup j m)
  unfolding lookup remove
  lookup-remove k j [] = ground arith
  lookup-remove k j ((i, w) ∷ m) =
      ground (arith, text_eq_iff k j, text_eq_iff i k, text_eq_iff i j, lookup-remove k j m)

  -- Removing a key that was just added, and was not there before, leaves the map as it was.
  pub remove-insert_new :
      (k : Text) (v : V) (m : Map V) → lookup k m ≡ none → remove k (insert k v m) ≡ m
  unfolding lookup insert remove
  remove-insert_new k v [] h = rw (text_eq_refl k)
  remove-insert_new k v ((i, w) ∷ m) h = ground (arith, text_eq_iff i k, remove-insert_new k v m)

  -- The entry that `insert` writes is one of the map's.
  pub mem-insert : (k : Text) (v : V) (m : Map V) → Memᴰ (k, v) (insert k v m)
  unfolding insert
  mem-insert k v [] = Memᴰ.head refl
  mem-insert k v ((j, w) ∷ m) = elim (Bool-cases (text_eq j k)) [
    | inl e ↦ rw e (Memᴰ.head refl)
    | inr e ↦ rw e (Memᴰ.tail (mem-insert k v m))
  ]

  pub mem_cases : (x y : Text × V) (m : Map V) → Memᴰ x (y ∷ m) → (x ≡ y) ⊎ Memᴰ x m
  mem_cases x y m (Memᴰ.head e) = inl e
  mem_cases x y m (Memᴰ.tail i) = inr i

  -- `insert` and `remove` spare the entries of other keys.
  pub mem-insert_other :
      (k : Text) (v : V) (m : Map V) (x : Text × V)
      → Memᴰ x m
      → text_eq x.0 k ≡ false
      → Memᴰ x (insert k v m)
  unfolding insert
  mem-insert_other k v [] x i n = elim i [ ]
  mem-insert_other k v ((j, w) ∷ m) x i n = elim (mem_cases x (j, w) m i) [
    | inl same ↦
        subst (λ b. Memᴰ x (if b then (k, v) ∷ m else (j, w) ∷ insert k v m))
          (sym n ∙ ap (λ y. text_eq y.0 k) same) (Memᴰ.head same)
    | inr later ↦ elim (Bool-cases (text_eq j k)) [
      | inl e ↦ rw e (Memᴰ.tail later)
      | inr e ↦ rw e (Memᴰ.tail (mem-insert_other k v m x later n))
    ]
  ]

  pub mem-remove_other :
      (k : Text) (m : Map V) (x : Text × V) → Memᴰ x m → text_eq x.0 k ≡ false → Memᴰ x (remove k m)
  unfolding remove
  mem-remove_other k [] x i n = elim i [ ]
  mem-remove_other k ((j, w) ∷ m) x i n = elim (mem_cases x (j, w) m i) [
    | inl same ↦
        subst (λ b. Memᴰ x (if b then remove k m else (j, w) ∷ remove k m))
          (sym n ∙ ap (λ y. text_eq y.0 k) same) (Memᴰ.head same)
    | inr later ↦ elim (Bool-cases (text_eq j k)) [
      | inl e ↦ rw e (mem-remove_other k m x later n)
      | inr e ↦ rw e (Memᴰ.tail (mem-remove_other k m x later n))
    ]
  ]

  pub mem-remove_of : (k : Text) (m : Map V) (x : Text × V) → Memᴰ x (remove k m) → Memᴰ x m
  unfolding remove
  mem-remove_of k [] x i = elim i [ ]
  mem-remove_of k ((j, w) ∷ m) x i = elim (Bool-cases (text_eq j k)) [
    | inl e ↦ Memᴰ.tail (mem-remove_of k m x (rw e at i))
    | inr e ↦ elim (mem_cases x (j, w) (remove k m) (rw e at i)) [
      | inl same ↦ Memᴰ.head same
      | inr later ↦ Memᴰ.tail (mem-remove_of k m x later)
    ]
  ]
