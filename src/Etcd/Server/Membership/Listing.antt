-- ===== src/Etcd/Server/Membership/Listing.antt =====
-- The peer URLs that Join takes from the list of members.
use etcd_cloud_operator.Prelude.{
  Text, some, List, [], ◌∷◌, Map, lookup, insert, lookup-insert, All, text_eq, text_eq_iff, ◌≡◌,
  ◌≢◌, inl, inr, refl, sym, ◌∙◌, ap, Bool-cases, if◌then◌else◌,
}
use mathlib.Core.Bool.{false≢true}
use etcd_cloud_operator.Etcd.Effects.{Member}
use etcd_cloud_operator.Etcd.Server.Membership.{cluster_purls, member_id_of}

-- The first member of that name in the list has an id.
pub data IsKnown (name : Text) : List Member → Type 0 where
  known_first : {m : Member} {ms : List Member} → name ≡ m.name → m.id ≢ 0 → IsKnown name (m ∷ ms)
  known_later :
      {m : Member} {ms : List Member} → name ≢ m.name → IsKnown name ms → IsKnown name (m ∷ ms)

pub member_id_of-IsKnown :
    (name : Text) (members : List Member) → IsKnown name members → member_id_of name members ≢ 0
unfolding member_id_of
member_id_of-IsKnown name _ (known_first {m = m} {ms = ms} e n) =
    rw ((text_eq_iff name m.name).1 e) n
member_id_of-IsKnown name _ (known_later {m = m} {ms = ms} e k) =
    elim (Bool-cases (text_eq name m.name)) [
      | inl same ↦ absurd (e ((text_eq_iff name m.name).0 same))
      | inr other ↦ rw other (member_id_of-IsKnown name ms k)
    ]

-- A member with a name has a peer URL.
abbrev pub HasUrl : Member → Type 0
HasUrl m = m.name ≢ [] → m.peer_urls ≢ []

-- The last member of that name in the list has this URL as its first.
pub data LastUrl (name url : Text) : List Member → Type 0 where
  here :
      {m : Member} {ms : List Member} (more : List Text)
      → m.name ≡ name
      → m.peer_urls ≡ url ∷ more
      → All (λ (x : Member). x.name ≢ name) ms
      → LastUrl name url (m ∷ ms)
  later : {m : Member} {ms : List Member} → LastUrl name url ms → LastUrl name url (m ∷ ms)

-- The URLs are those of the listed members that have a name, and under the other names those from before.
pub record Lists (before : Map Text) (members : List Member) (purls : Map Text) : Type 0 where
  pub of_members :
      (name url : Text) → name ≢ [] → LastUrl name url members → lookup name purls ≡ some url
  pub of_others :
      (name : Text)
      → All (λ (x : Member). x.name ≢ name) members
      → lookup name purls ≡ lookup name before

-- One member of the list.
data Noted (m : Member) (purls : Map Text) : Map Text → Type 0 where
  nameless : m.name ≡ [] → Noted m purls purls
  noted :
      (url : Text) (urls : List Text)
      → m.name ≢ []
      → m.peer_urls ≡ url ∷ urls
      → Noted m purls (insert m.name url purls)

cluster_purls-Noted :
    (purls : Map Text) (m : Member) (ms : List Member) (urls : List Text)
    → m.peer_urls ≡ urls
    → HasUrl m
    → (next : Map Text) × Noted m purls next
      × (cluster_purls purls (m ∷ ms) ≡ cluster_purls next ms)
unfolding cluster_purls
cluster_purls-Noted purls m ms [] e has = elim (Bool-cases (text_eq m.name [])) [
  | inl n ↦ (purls, nameless ((text_eq_iff m.name []).0 n), (rw (e, n) refl))
  | inr n ↦ absurd (has (λ k. false≢true (sym n ∙ (text_eq_iff m.name []).1 k)) e)
]
cluster_purls-Noted purls m ms (url ∷ urls) e has = elim (Bool-cases (text_eq m.name [])) [
  | inl n ↦ (purls, nameless ((text_eq_iff m.name []).0 n), (rw (e, n) refl))
  | inr n ↦ (
    insert m.name url purls,
    noted url urls (λ k. false≢true (sym n ∙ (text_eq_iff m.name []).1 k)) e,
    (rw (e, n) refl),
  )
]

lookup-other :
    (name other url : Text) (purls : Map Text)
    → other ≢ name
    → lookup name (insert other url purls) ≡ lookup name purls
lookup-other name other url purls n = elim (Bool-cases (text_eq other name)) [
  | inl e ↦ absurd (n ((text_eq_iff other name).0 e))
  | inr e ↦ lookup-insert other name url purls ∙ rw e refl
]

Noted-other :
    (m : Member) (purls next : Map Text) (name : Text)
    → Noted m purls next
    → m.name ≢ name
    → lookup name next ≡ lookup name purls
Noted-other m purls _ name (nameless e) n = refl
Noted-other m purls _ name (noted url urls named e) n = lookup-other name m.name url purls n

first_url : (url other : Text) (urls more : List Text) → url ∷ urls ≡ other ∷ more → url ≡ other
first_url url other urls more h = cc

Noted-here :
    (m : Member) (purls next : Map Text) (name url : Text) (more : List Text)
    → Noted m purls next
    → name ≢ []
    → m.name ≡ name
    → m.peer_urls ≡ url ∷ more
    → lookup name next ≡ some url
Noted-here m purls _ name url more (nameless e) n same h = absurd (n (sym same ∙ e))
Noted-here m purls _ name url more (noted other urls named e) n same h =
    lookup-insert m.name name other purls
    ∙ (ap (λ b. if b then some other else lookup name purls) ((text_eq_iff m.name name).1 same)
        ∙ ap some (first_url other url urls more (sym e ∙ h)))

-- Where every member that has a name has a peer URL, Join learns the URLs of the listed members.
pub cluster_purls-Lists :
    (before : Map Text) (members : List Member)
    → All HasUrl members
    → (purls : Map Text) × (cluster_purls before members ≡ some purls) × Lists before members purls
cluster_purls-Lists before [] h = (
  before,
  (unfold cluster_purls in refl),
  record { of_members = λ name url n d. elim d [ ]; of_others = λ name a. refl },
)
cluster_purls-Lists before (m ∷ ms) (has, h) =
    let (next, step, e) = cluster_purls-Noted before m ms m.peer_urls refl has in
    let (purls, f, lists) = cluster_purls-Lists next ms h in
    (
      purls,
      e ∙ f,
      record {
        of_members = λ name url n d. by_last next purls step lists name url n d;
        of_others =
            λ name (other, a). lists.of_others name a ∙ Noted-other m before next name step other;
      },
    )
  where
    by_last :
        (next purls : Map Text)
        → Noted m before next
        → Lists next ms purls
        → (name url : Text) → name ≢ []
        → LastUrl name url (m ∷ ms)
        → lookup name purls ≡ some url
    by_last next purls step lists name url n (here more same urls none_later) =
        lists.of_others name none_later ∙ Noted-here m before next name url more step n same urls
    by_last next purls step lists name url n (later d) = lists.of_members name url n d
