-- ===== src/Operator/Run/Boot.antt =====
-- How a group comes to seed its cluster.
use mathlib.Core.List.{Mem}
use etcd_cloud_operator.Prelude.{
  ℕ, codes, ◌==◌, ==_iff, Bool, true, false, Option, some, List, [], ◌∷◌, length, Outcome, ok, err,
  panic, ◌≡◌, ◌≢◌, ◌⊎◌, inl, inr, refl, sym, ◌∙◌, ap, arith, Bool-cases,
}
use etcd_cloud_operator.Operator.Status.{Instance, Reply, StatusSort, fetch_all}
use etcd_cloud_operator.Operator.Status.Elected.{unhealthy_view}
use etcd_cloud_operator.Operator.Status.Counts.{tally, fetch_statuses-tally}
use etcd_cloud_operator.Operator.Status.Unanimous.{answered, Reports-tally, Reports-mem}
use etcd_cloud_operator.Operator.Execute.{
  Operator, Group, evaluate, evaluated, server_or_new, decide, own_status, readies, seeds,
}
use etcd_cloud_operator.Operator.Execute.Evaluations.{evaluate_view}
use etcd_cloud_operator.Operator.Execute.Decisions.{Fits, FitsOn, decide-Fits}
use etcd_cloud_operator.Operator.Execute.Readies.{IsInformed, Readied}
use etcd_cloud_operator.Operator.Run.{Circumstances, turn}
use etcd_cloud_operator.Operator.Run.Ready.{turn-Readied}
use etcd_cloud_operator.Operator.Run.Election.{group_sight, IsReady, seeder_elected, own-Reports}

-- No etcd runs on the instance nor is found healthy by it, and it is not to shut down.
abbrev pub IsStopped : (Instance → Option Bool) → (Instance → Operator) → Instance → Type 0
IsStopped healthy ops i =
    (healthy i ≢ some true) × ((ops i).world.is_running ≡ false) × ((ops i).shutdown ≡ false)

-- The turn of the instance sees the group as its operators are, knows of the snapshots, and does not
-- end with the signal.
abbrev pub IsQuiet :
    (Instance → Option Bool)
    → (Instance → Operator)
    → List Instance
    → ℕ
    → Instance
    → Circumstances
    → Type 0
IsQuiet healthy ops instances size i c =
    (c.sight ≡ group_sight healthy ops instances size i) × (c.signalled ≡ false) × IsInformed c.env

left_by : Operator → Outcome (Unit {0}) Operator → Operator
left_by op (ok now) = now
left_by op (err e) = op
left_by op panic = op

-- The operators after a turn of each, all of which see the group as it was.
unfoldable pub after_round :
    (Instance → Circumstances) → (Instance → Operator) → Instance → Operator
unfolding left_by
after_round cs ops i = left_by (ops i) (turn (cs i) (ops i))

some_answer :
    (ops : Instance → Operator) (first : Instance) (others : List Instance)
    → fetch_all (λ j. own_status (ops j)) (first ∷ others) ≢ []
some_answer ops first others =
    let (st, h, _) = own-Reports (ops first) first (λ j. own_status (ops j)) refl in
    answered (λ j. own_status (ops j)) first others st h

-- Where not all instances report the state START, a turn of one of them ends in it.
turn_of :
    (healthy : Instance → Option Bool) (ops : Instance → Operator) (first : Instance)
    (others : List Instance) (size : ℕ) (i : Instance) (c : Circumstances)
    → size ≡ length (first ∷ others)
    → tally (codes "START") (fetch_all (λ j. own_status (ops j)) (first ∷ others))
      ≢ length (first ∷ others)
    → IsStopped healthy ops i
    → IsQuiet healthy ops (first ∷ others) size i c
    → (now : Operator) × (turn c (ops i) ≡ ok now)
      × (now.state ≡ codes "START")
      × (now.world ≡ (ops i).world)
      × (now.shutdown ≡ (ops i).shutdown)
unfolding evaluated Fits FitsOn group_sight Readied
turn_of healthy ops first others size i c enough few (unhealthy, stopped, stays)
      (sees, quiet, known) =
    let is = first ∷ others in
    let answers : Instance → Reply = λ j. own_status (ops j) in
    let group : Group = record { instances = is; self = i; size = size } in
    let (v, f, ill) =
      unhealthy_view c.sorter (healthy i) answers is i (some_answer ops first others) unhealthy in
    let seen = (evaluated (ops i) group (ok v)).1 in
    let e =
      ap (λ s. evaluate c.sorter s (ops i)) sees
      ∙ evaluate_view c.sorter (group_sight healthy ops is size i) group (ops i) v refl refl f in
    let starts = fetch_statuses-tally c.sorter (healthy i) answers is i v (codes "START") f in
    let (now, h, (s, w, d)) =
      turn-Readied c (ops i) seen (server_or_new (ops i) i (ops i).server) quiet e
        ((decide-Fits seen readies).1
          (stays, ill, stopped, inl (λ h. few (sym starts ∙ (h ∙ enough)))))
        refl stopped known in
    (now, h, s, w, d)

after_round-turn :
    (cs : Instance → Circumstances) (ops : Instance → Operator) (i : Instance) (now : Operator)
    → turn (cs i) (ops i) ≡ ok now
    → after_round cs ops i ≡ now
unfolding after_round
after_round-turn cs ops i now h = ap (left_by (ops i)) h

after_round-IsReady :
    (healthy : Instance → Option Bool) (ops : Instance → Operator) (cs : Instance → Circumstances)
    (first : Instance) (others : List Instance) (size : ℕ) (i : Instance)
    → size ≡ length (first ∷ others)
    → tally (codes "START") (fetch_all (λ j. own_status (ops j)) (first ∷ others))
      ≢ length (first ∷ others)
    → IsStopped healthy ops i
    → IsQuiet healthy ops (first ∷ others) size i (cs i)
    → IsReady healthy (after_round cs ops) i
after_round-IsReady healthy ops cs first others size i enough few stopped quiet =
    let (now, h, s, w, d) =
      turn_of healthy ops first others size i (cs i) enough few stopped quiet in
    let e = after_round-turn cs ops i now h in
    (
      ap (λ x. x.state) e ∙ s,
      stopped.0,
      ap (λ x. x.world.is_running) e ∙ (ap (λ x. x.is_running) w ∙ stopped.1),
      ap (λ x. x.shutdown) e ∙ (d ∙ stopped.2),
    )

-- An instance of the group whose next evaluation has it seed the cluster.
abbrev pub Elects :
    (Instance → StatusSort)
    → (Instance → Option Bool)
    → (Instance → Operator)
    → List Instance
    → ℕ
    → Type 0
Elects sorts healthy ops is size =
    (i : Instance) × Mem i is
    × (now : Operator) × (evaluate (sorts i) (group_sight healthy ops is size i) (ops i)
        ≡ (ok tt, now))
    × (decide now ≡ seeds)

all-IsReady :
    (healthy : Instance → Option Bool) (ops : Instance → Operator) (is : List Instance)
    (i : Instance)
    → tally (codes "START") (fetch_all (λ j. own_status (ops j)) is) ≡ length is
    → Mem i is
    → IsStopped healthy ops i
    → IsReady healthy ops i
all-IsReady healthy ops is i h m (unhealthy, stopped, stays) =
    let answers : Instance → Reply = λ j. own_status (ops j) in
    let (st, f, same) = own-Reports (ops i) i answers refl in
    let all = Reports-tally (codes "START") answers is h in
    (sym same ∙ Reports-mem (codes "START") answers is i all m st f, unhealthy, stopped, stays)

-- In a group whose size is the number of its instances, all of which answer, none of which runs etcd, finds it
-- healthy or is to shut down, while the snapshots are known and no signal comes, the next evaluation of one of
-- them has it seed the cluster, or the one after a turn of each, whatever the instances reported before.
pub boots :
    (sorts : Instance → StatusSort) (healthy : Instance → Option Bool) (ops : Instance → Operator)
    (cs : Instance → Circumstances) (first : Instance) (others : List Instance) (size : ℕ)
    → size ≡ length (first ∷ others)
    → ((i : Instance) → Mem i (first ∷ others) → IsStopped healthy ops i)
    → ((i : Instance) → Mem i (first ∷ others) → IsQuiet healthy ops (first ∷ others) size i (cs i))
    → Elects sorts healthy ops (first ∷ others) size
      ⊎ Elects sorts healthy (after_round cs ops) (first ∷ others) size
boots sorts healthy ops cs first others size enough stopped quiet =
    let is = first ∷ others in
    let starts = tally (codes "START") (fetch_all (λ j. own_status (ops j)) is) in
    elim (Bool-cases (starts == length is)) [
      | inl e ↦ inl (
          seeder_elected sorts healthy ops first others size enough
            (λ i m. all-IsReady healthy ops is i ((==_iff starts (length is)).0 e) m (stopped i m)))
      | inr e ↦
          let few : starts ≢ length is = ground arith in
          inr (
            seeder_elected sorts healthy (after_round cs ops) first others size enough (λ i m.
              after_round-IsReady healthy ops cs first others size i enough few (stopped i m)
                (quiet i m)))
    ]
