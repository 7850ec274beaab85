-- ===== src/Operator/Run/Election.antt =====
-- Which instance of a group that is ready seeds the cluster: there always is one.
use mathlib.Core.List.{Mem, mem-cons_self, mem-cons_of_mem}
use etcd_cloud_operator.Prelude.{
  codes, pos, ℕ, suc, Bool, true, false, Option, none, some, List, [], ◌∷◌, length, All, ok, ◌≡◌,
  ◌≢◌, refl, sym, ◌∙◌, ap, arith,
}
use etcd_cloud_operator.Operator.Status.{
  Instance, EcoStatus, Reply, StatusSort, fetch_status, fetch_all,
}
use etcd_cloud_operator.Operator.Status.Elected.{has-IsTop, named, seeder_view}
use etcd_cloud_operator.Operator.Status.Counts.{tally, fetch_statuses-tally}
use etcd_cloud_operator.Operator.Status.Unanimous.{
  Reports, tally-Reports, Reports-tally, Reports-mem,
}
use etcd_cloud_operator.Operator.Execute.{
  Operator, Group, Sight, evaluate, evaluated, decide, own_status, seeds,
}
use etcd_cloud_operator.Operator.Execute.Evaluations.{evaluate_view}
use etcd_cloud_operator.Operator.Execute.Effects.{seeds_when_all_ready}
use etcd_cloud_operator.Operator.Execute.Decisions.{Fits, FitsOn, decide-Fits}

-- What an instance sees of a group of this size in which every instance answers as its operator does.
unfoldable pub group_sight :
    (Instance → Option Bool) → (Instance → Operator) → List Instance → ℕ → Instance → Sight
group_sight healthy ops instances size self = record {
  group = some (record { instances = instances; self = self; size = size });
  nameless = false;
  client_healthy = healthy self;
  answers = λ i. own_status (ops i);
}

-- The operator of the instance reports the state START, runs no etcd, finds none healthy, and is not to
-- shut down.
abbrev pub IsReady : (Instance → Option Bool) → (Instance → Operator) → Instance → Type 0
IsReady healthy ops i =
    ((ops i).state ≡ codes "START")
    × (healthy i ≢ some true)
    × ((ops i).world.is_running ≡ false)
    × ((ops i).shutdown ≡ false)

-- The status that is read from the answer of an instance.
status_of : (Instance → Operator) → Instance → EcoStatus
status_of ops i = record {
  instance_name = i.name;
  state = (ops i).state;
  revision = elim (ops i).etcd_snapshot [ none ↦ pos 0 | some m ↦ m.revision ];
}

IsReady-Reports :
    (healthy : Instance → Option Bool) (ops : Instance → Operator) (is : List Instance)
    → ((i : Instance) → Mem i is → IsReady healthy ops i)
    → All (Reports (codes "START") (λ j. own_status (ops j))) is
unfolding Reports fetch_status own_status status_of
IsReady-Reports healthy ops [] r = tt
IsReady-Reports healthy ops (i ∷ is) r = (
  (status_of ops i, refl, (r i mem-cons_self).0),
  IsReady-Reports healthy ops is (λ j m. r j (mem-cons_of_mem i m)),
)

some-counted : (sts : List EcoStatus) (n : ℕ) → tally (codes "START") sts ≡ suc n → sts ≢ []
unfolding tally
some-counted sts n h e =
    let none_counted : tally (codes "START") sts ≡ 0 = ap (tally (codes "START")) e in omega arith

-- In a group whose size is the number of its instances, all of which answer and report the state START,
-- none of which runs etcd, finds it healthy or is to shut down, the next evaluation of one of them succeeds
-- and has it seed the cluster, whichever sorts they use.
pub seeder_elected :
    (sorts : Instance → StatusSort) (healthy : Instance → Option Bool) (ops : Instance → Operator)
    (first : Instance) (others : List Instance) (size : ℕ)
    → size ≡ length (first ∷ others)
    → ((i : Instance) → Mem i (first ∷ others) → IsReady healthy ops i)
    → (i : Instance) × Mem i (first ∷ others)
      × (now : Operator) × (evaluate
            (sorts i)
            (group_sight healthy ops (first ∷ others) size i)
            (ops i)
          ≡ (ok tt, now))
      × (decide now ≡ seeds)
unfolding evaluated Fits FitsOn group_sight
seeder_elected sorts healthy ops first others size enough r =
    let is = first ∷ others in
    let answers : Instance → Reply = λ j. own_status (ops j) in
    let counted = tally-Reports (codes "START") answers is (IsReady-Reports healthy ops is r) in
    let (st, top) =
      has-IsTop answers is (some-counted (fetch_all answers is) (length others) counted) in
    let (i, m, n) = named answers is st top.0 in
    let (s, h, stopped, stays) = r i m in
    let (v, f, seeder, unhealthy) = seeder_view (sorts i) (healthy i) answers is i st top n h in
    let starts =
      fetch_statuses-tally (sorts i) (healthy i) answers is i v (codes "START") f
      ∙ (counted ∙ sym enough) in
    let group : Group = record { instances = is; self = i; size = size } in
    (
      i,
      m,
      (evaluated (ops i) group (ok v)).1,
      evaluate_view (sorts i) (group_sight healthy ops is size i) group (ops i) v refl refl f,
      (decide-Fits (evaluated (ops i) group (ok v)).1 seeds).1
          (stays, unhealthy, stopped, starts, seeder),
    )

pub own-Reports :
    (op : Operator) (i : Instance) (answers : Instance → Reply)
    → answers i ≡ own_status op
    → (st : EcoStatus) × (fetch_status answers i ≡ some st) × (st.state ≡ op.state)
unfolding fetch_status own_status status_of
own-Reports op i answers h = (status_of (λ j. op) i, ap (λ r. fetch_status (λ j. r) i) h, refl)

-- An instance that seeds the cluster, in a group that it is a member of, whose size is the number of its
-- instances, and where it hears its own answer, was in the state START before: it has looked up the
-- snapshot.
pub seeds_from_start :
    (s : StatusSort) (sight : Sight) (group : Group) (op now : Operator)
    → sight.group ≡ some group
    → group.size ≡ length group.instances
    → Mem group.self group.instances
    → sight.answers group.self ≡ own_status op
    → evaluate s sight op ≡ (ok tt, now)
    → decide now ≡ seeds
    → op.state ≡ codes "START"
seeds_from_start s sight group op now g size m own e d =
    let counted = seeds_when_all_ready s sight group op now g e d in
    let (st, f, same) = own-Reports op group.self sight.answers own in
    let all = Reports-tally (codes "START") sight.answers group.instances (counted ∙ size) in
    sym same ∙ Reports-mem (codes "START") sight.answers group.instances group.self all m st f
