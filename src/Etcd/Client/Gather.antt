-- ===== src/Etcd/Client/Gather.antt =====
-- What the answer of `ForEachMember` says, in whatever order the goroutines send.
use mathlib.Core.Option.{none-ne-some, some-injective}
use mathlib.Core.List.{cons≢nil}
use etcd_cloud_operator.Prelude.{
  Text, ℕ, zero, suc, ◌≤◌, Option, some, List, [], ◌∷◌, ◌≡◌, ◌↔◌, refl, sym, ap, ◌∙◌, subst, inl,
  inr, arith, All, get_elem?, length, Option-cases,
}
use etcd_cloud_operator.Etcd.Client.{
  Visit, no_client, failed, done, sends, all_sends, set_queue, receive, aggregate, for_each_member,
}

-- A queue that has sent nothing but blank messages: a blank message in front is its last.
abbrev IsFresh : List Text → Type 0
IsFresh [] = Unit
IsFresh ([] ∷ q) = q ≡ []
IsFresh ((c ∷ m) ∷ q) = Unit

abbrev blank_heads : List (List Text) → ℕ
blank_heads [] = 0
blank_heads ([] ∷ qs) = blank_heads qs
blank_heads (([] ∷ q) ∷ qs) = suc (blank_heads qs)
blank_heads (((c ∷ m) ∷ q) ∷ qs) = blank_heads qs

some_cons-injective :
    (x y : Text) (p q : List Text)
    → ◌≡◌ {A = Option (List Text)} (some (x ∷ p)) (some (y ∷ q))
    → (x ≡ y) × (p ≡ q)
some_cons-injective x y p q h = (cc, cc)

-- Taking a blank message from a queue leaves one blank head less.
blank_heads-set_queue :
    (qs : List (List Text)) (i : ℕ) (q : List Text)
    → get_elem? qs i ≡ some ([] ∷ q)
    → All IsFresh qs
    → All IsFresh (set_queue qs i q) × (blank_heads qs ≡ suc (blank_heads (set_queue qs i q)))
blank_heads-set_queue [] i q h f = absurd (none-ne-some _ h)
blank_heads-set_queue ([] ∷ qs) zero q h f = absurd (cc)
blank_heads-set_queue (([] ∷ []) ∷ qs) zero q h f =
    rw (← (some_cons-injective [] [] [] q h).1) ((tt, f.1), refl)
blank_heads-set_queue (([] ∷ x ∷ r) ∷ qs) zero q h f = absurd (cons≢nil f.0)
blank_heads-set_queue (((c ∷ m) ∷ r) ∷ qs) zero q h f = absurd (cc)
blank_heads-set_queue ([] ∷ qs) (suc i) q h f =
    let (g, e) = blank_heads-set_queue qs i q h f.1 in ((f.0, g), e)
blank_heads-set_queue (([] ∷ r) ∷ qs) (suc i) q h f =
    let (g, e) = blank_heads-set_queue qs i q h f.1 in ((f.0, g), ap suc e)
blank_heads-set_queue (((c ∷ m) ∷ r) ∷ qs) (suc i) q h f =
    let (g, e) = blank_heads-set_queue qs i q h f.1 in ((f.0, g), e)

-- What is received first, and then.
data FirstOf (i : ℕ) (order : List ℕ) (qs : List (List Text)) (ms : List Text) : Type 0 where
  first :
      (m : Text) (q rest : List Text)
      → get_elem? qs i ≡ some (m ∷ q)
      → receive order (set_queue qs i q) ≡ some rest
      → ms ≡ m ∷ rest
      → FirstOf i order qs ms

receive-FirstOf :
    (i : ℕ) (order : List ℕ) (qs : List (List Text)) (ms : List Text)
    → receive (i ∷ order) qs ≡ some ms
    → FirstOf i order qs ms
unfolding receive
receive-FirstOf i order qs ms h = elim (Option-cases (get_elem? qs i)) [
  | inl e ↦ absurd (none-ne-some ms (rw (e, receive) at h))
  | inr ([], e) ↦ absurd (none-ne-some ms (rw (e, receive) at h))
  | inr (m ∷ q, e) ↦ elim (Option-cases (receive order (set_queue qs i q))) [
    | inl f ↦ absurd (none-ne-some ms (rw (e, f, receive) at h))
    | inr (rest, f) ↦ first m q rest e f (sym (some-injective _ _ (rw (e, f, receive) at h)))
  ]
]

aggregate-cons :
    (m : Text) (ms : List Text) → aggregate (m ∷ ms) ≡ [] → (m ≡ []) × (aggregate ms ≡ [])
unfolding aggregate
aggregate-cons [] ms h = (refl, h)
aggregate-cons (c ∷ m) ms h = absurd (cons≢nil h)

length-le-blank_heads :
    (order : List ℕ) (qs : List (List Text)) (ms : List Text)
    → receive order qs ≡ some ms
    → All IsFresh qs
    → aggregate ms ≡ []
    → length order ≤ blank_heads qs
length-le-blank_heads [] qs ms h f a = omega arith
length-le-blank_heads (i ∷ order) qs ms h f a = elim (receive-FirstOf i order qs ms h) [
  | first m q rest e r s ↦
      let (blank, a') = aggregate-cons m rest (sym (ap aggregate s) ∙ a) in
      let (f', k) = blank_heads-set_queue qs i q (rw blank at e) f in
      omega (arith, length-le-blank_heads order (set_queue qs i q) rest r f' a', k)
]

all_sends-IsFresh : (visits : List (Text × Visit)) → All IsFresh (all_sends visits)
unfolding all_sends
all_sends-IsFresh [] = tt
all_sends-IsFresh ((name, no_client e) ∷ vs) = (tt, all_sends-IsFresh vs)
all_sends-IsFresh ((name, failed e) ∷ vs) = (tt, all_sends-IsFresh vs)
all_sends-IsFresh ((name, done) ∷ vs) = (refl, all_sends-IsFresh vs)

abbrev pub AllDone : List (Text × Visit) → Type 0
AllDone = All (λ (v : Text × Visit). v.1 ≡ done)

blank_heads-le : (visits : List (Text × Visit)) → blank_heads (all_sends visits) ≤ length visits
unfolding all_sends
blank_heads-le [] = omega arith
blank_heads-le ((name, no_client e) ∷ vs) = omega (arith, blank_heads-le vs)
blank_heads-le ((name, failed e) ∷ vs) = omega (arith, blank_heads-le vs)
blank_heads-le ((name, done) ∷ vs) = omega (arith, blank_heads-le vs)

all_blank-AllDone :
    (visits : List (Text × Visit)) → length visits ≤ blank_heads (all_sends visits) → AllDone visits
unfolding all_sends
all_blank-AllDone [] h = tt
all_blank-AllDone ((name, no_client e) ∷ vs) h = absurd (omega (arith, blank_heads-le vs))
all_blank-AllDone ((name, failed e) ∷ vs) h = absurd (omega (arith, blank_heads-le vs))
all_blank-AllDone ((name, done) ∷ vs) h = (refl, all_blank-AllDone vs (omega arith))

-- Queues that hold blank messages alone send nothing else.
abbrev IsBlank : List Text → Type 0
IsBlank = All (λ m. m ≡ [])

IsBlank-set_queue :
    (qs : List (List Text)) (i : ℕ) (m : Text) (q : List Text)
    → get_elem? qs i ≡ some (m ∷ q)
    → All IsBlank qs
    → (m ≡ []) × All IsBlank (set_queue qs i q)
IsBlank-set_queue [] i m q h b = absurd (none-ne-some _ h)
IsBlank-set_queue ([] ∷ qs) zero m q h b = absurd (cc)
IsBlank-set_queue ((x ∷ p) ∷ qs) zero m q h b =
    let (e, t) = some_cons-injective x m p q h in (sym e ∙ b.0.0, (subst IsBlank t b.0.1, b.1))
IsBlank-set_queue (p ∷ qs) (suc i) m q h b =
    let (e, rest) = IsBlank-set_queue qs i m q h b.1 in (e, (b.0, rest))

aggregate-blank :
    (order : List ℕ) (qs : List (List Text)) (ms : List Text)
    → receive order qs ≡ some ms
    → All IsBlank qs
    → aggregate ms ≡ []
unfolding aggregate receive
aggregate-blank [] qs ms h b = ap aggregate (sym (some-injective _ _ h))
aggregate-blank (i ∷ order) qs ms h b = elim (receive-FirstOf i order qs ms h) [
  | first m q rest e r s ↦
      let (blank, b') = IsBlank-set_queue qs i m q e b in
      ap aggregate (s ∙ ap (λ t. t ∷ rest) blank)
      ∙ aggregate-blank order (set_queue qs i q) rest r b'
]

AllDone-IsBlank : (visits : List (Text × Visit)) → AllDone visits → All IsBlank (all_sends visits)
unfolding all_sends
AllDone-IsBlank [] h = tt
AllDone-IsBlank (v ∷ vs) h = rw (ap (λ o. sends (v.0, o)) h.0) ((refl, tt), AllDone-IsBlank vs h.1)

-- `ForEachMember` returns nil just when the function ran without error on every member, in every
-- order in which the goroutines may send: though it may return before some of them have ended.
pub for_each_member-AllDone :
    (order : List ℕ) (visits : List (Text × Visit)) (errors : List Text)
    → length order ≡ length visits
    → for_each_member order visits ≡ some errors
    → (errors ≡ []) ↔ AllDone visits
unfolding for_each_member
for_each_member-AllDone order visits errors n h =
    elim (Option-cases (receive order (all_sends visits))) [
      | inl e ↦ absurd (none-ne-some errors (rw (e, for_each_member) at h))
      | inr (ms, e) ↦
          let s = some-injective _ _ (rw (e, for_each_member) at h) in
          (
            λ nil. all_blank-AllDone visits (
                subst (λ k. k ≤ blank_heads (all_sends visits)) n
                  (length-le-blank_heads order _ ms e (all_sends-IsFresh visits) (s ∙ nil))),
            λ all. sym s ∙ aggregate-blank order _ ms e (AllDone-IsBlank visits all),
          )
    ]
