-- ===== src/Tester/Trial/Wait.antt =====
-- When the wait for a healthy cluster ends.
use mathlib.Core.Bool.{false≢true}
use mathlib.Core.Option.{none-ne-some, some-injective}
use etcd_cloud_operator.Prelude.{
  ℕ, zero, suc, ◌+◌, ◌≤◌, ◌<◌, Bool, true, false, ltb, ltb→lt, ltb-false→le, ◌-◌, ◌==◌, ==_iff,
  some, ◌≡◌, ◌⊎◌, refl, sym, ◌∙◌, ap, arith, Bool-cases, inl, inr, if◌then◌else◌,
}
use etcd_cloud_operator.Tester.Trial.{wait_healthy}

-- The four checks from k on find the cluster healthy.
abbrev pub IsWindow : (ℕ → Bool) → ℕ → Type 0
IsWindow check k =
    (check k ≡ true) × (check (k + 1) ≡ true) × (check (k + 2) ≡ true) × (check (k + 3) ≡ true)

-- The last i of the n checks made found it healthy, and i is at most four.
abbrev Streak : (ℕ → Bool) → ℕ → ℕ → Type 0
Streak check i n = (i ≤ 4) × (i ≤ n) × ((j : ℕ) → n ≤ j + i → j < n → check j ≡ true)

step-Streak :
    (check : ℕ → Bool) (i n : ℕ)
    → i < 4
    → Streak check i n
    → Streak check (if check n then i + 1 else 0) (n + 1)
step-Streak check i n small (_, le, last) = elim (Bool-cases (check n)) [
  | inl e ↦ rw e (omega arith, omega arith, longer e)
  | inr e ↦ rw e (omega arith, omega arith, λ j h k. absurd (omega arith))
]
  where
    longer : check n ≡ true → (j : ℕ) → n + 1 ≤ j + (i + 1) → j < n + 1 → check j ≡ true
    longer e j h k = elim (Bool-cases (j == n)) [
      | inl same ↦ ap check ((==_iff j n).0 same) ∙ e
      | inr other ↦ last j (omega arith) (before other k)
    ]
      where
        before : (j == n) ≡ false → j < n + 1 → j < n
        before f k = ground arith

-- The wait ends only after a window, which is the last four checks.
ended_at :
    (check : ℕ → Bool) (fuel i n made : ℕ)
    → Streak check i n
    → wait_healthy check fuel i n ≡ some made
    → (k : ℕ) × (made ≡ k + 4) × IsWindow check k
unfolding wait_healthy
ended_at check zero i n made s h = absurd (none-ne-some made h)
ended_at check (suc fuel) i n made s h = elim (Bool-cases (ltb i 4)) [
  | inl e ↦
      ended_at check fuel (if check n then i + 1 else 0) (n + 1) made
        (step-Streak check i n (ltb→lt i 4 e) s) (rw e at h)
  | inr e ↦ ended check i n made s (ltb-false→le i 4 e) (some-injective _ _ (rw e at h))
]
  where
    ended :
        (check : ℕ → Bool) (i n made : ℕ)
        → Streak check i n
        → 4 ≤ i
        → n ≡ made
        → (k : ℕ) × (made ≡ k + 4) × IsWindow check k
    ended check i n made (small, le, last) enough same = (
      n - 4,
      omega arith,
      (
        last (n - 4) (omega arith) (omega arith),
        last (n - 4 + 1) (omega arith) (omega arith),
        last (n - 4 + 2) (omega arith) (omega arith),
        last (n - 4 + 3) (omega arith) (omega arith),
      ),
    )

in_window : (check : ℕ → Bool) (k n : ℕ) → IsWindow check k → k ≤ n → n < k + 4 → check n ≡ true
in_window check k n (a, b, c, d) lo hi = elim (Bool-cases (n == k)) [
  | inl e ↦ ap check ((==_iff n k).0 e) ∙ a
  | inr e ↦ elim (Bool-cases (n == k + 1)) [
    | inl f ↦ ap check ((==_iff n (k + 1)).0 f) ∙ b
    | inr f ↦ elim (Bool-cases (n == k + 2)) [
      | inl g ↦ ap check ((==_iff n (k + 2)).0 g) ∙ c
      | inr g ↦ ap check (final e f g lo hi) ∙ d
    ]
  ]
]
  where
    final :
        (n == k) ≡ false
        → (n == k + 1) ≡ false
        → (n == k + 2) ≡ false
        → k ≤ n
        → n < k + 4
        → n ≡ k + 3
    final e f g lo hi = ground arith

-- From before a window, or from within it with the checks of it made counted, the wait ends by its end.
ends_by :
    (check : ℕ → Bool) (k fuel i n : ℕ)
    → IsWindow check k
    → i ≤ 4
    → n ≤ k + i
    → k + 4 < fuel + n
    → (made : ℕ) × (made ≤ k + 4) × (wait_healthy check fuel i n ≡ some made)
unfolding wait_healthy
ends_by check k zero i n w small le enough = absurd (omega arith)
ends_by check k (suc fuel) i n w small le enough = elim (Bool-cases (ltb i 4)) [
  | inr e ↦ (n, omega arith, (rw e refl))
  | inl e ↦ elim (Bool-cases (check n)) [
    | inl f ↦
        let less = ltb→lt i 4 e in
        let (made, b, h) =
          ends_by check k fuel (i + 1) (n + 1) w (omega arith) (omega arith) (omega arith) in
        (made, b, (rw (e, f) h))
    | inr f ↦
        let early = before_window e f in
        let (made, b, h) =
          ends_by check k fuel 0 (n + 1) w (omega arith) (omega arith) (omega arith) in
        (made, b, (rw (e, f) h))
  ]
]
  where
    before_window : ltb i 4 ≡ true → check n ≡ false → n < k
    before_window e f = elim (Bool-cases (ltb n k)) [
      | inl a ↦ ltb→lt n k a
      | inr a ↦
          let less = ltb→lt i 4 e in
          absurd (false≢true (sym f ∙ in_window check k n w (ltb-false→le n k a) (omega arith)))
    ]

-- Where four checks in a row will find the cluster healthy, the wait ends at the end of the first such four.
pub wait_healthy-IsWindow :
    (check : ℕ → Bool) (k : ℕ)
    → IsWindow check k
    → (j : ℕ) × (wait_healthy check (k + 5) 0 0 ≡ some (j + 4))
      × IsWindow check j
      × ((l : ℕ) → IsWindow check l → j ≤ l)
wait_healthy-IsWindow check k w =
    let (made, b, h) = ends_by check k (k + 5) 0 0 w (omega arith) (omega arith) (omega arith) in
    let (j, e, v) =
      ended_at check (k + 5) 0 0 made (omega arith, omega arith, λ j x y. absurd (omega arith)) h in
    (j, h ∙ ap some e, v, λ l u. first j made e b h l u (Bool-cases (ltb l k)))
  where
    first :
        (j made : ℕ)
        → made ≡ j + 4
        → made ≤ k + 4
        → wait_healthy check (k + 5) 0 0 ≡ some made
        → (l : ℕ) → IsWindow check l
        → (ltb l k ≡ true) ⊎ (ltb l k ≡ false)
        → j ≤ l
    first j made e b h l u (inr late) = let f = ltb-false→le l k late in omega arith
    first j made e b h l u (inl early) =
        let f = ltb→lt l k early in
        let (made', b', h') =
          ends_by check l (k + 5) 0 0 u (omega arith) (omega arith) (omega arith) in
        let same = some-injective made made' (sym h ∙ h') in omega arith
