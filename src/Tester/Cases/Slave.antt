-- ===== src/Tester/Cases/Slave.antt =====
-- Which members the cases hit that look at the leader.
use etcd_cloud_operator.Prelude.{
  Text, ℕ, Bool, true, false, not, ◌&&◌, Option, none, some, List, [], ◌∷◌, ◌++◌, map, take,
  filter_if, filter_if-true, filter_if-false, ◌==◌, ◌≡◌, inl, inr, refl, sym, ◌∙◌, ap, Bool-cases,
}
use etcd_cloud_operator.Etcd.Client.{Visit, done}
use etcd_cloud_operator.Tester.Cases.{
  Closure, kill, kill_wipe, Peer, Remote, visit_members, slave_step, wipe_slave_step, wiped_once,
  run_on, remote_on, kill_one_slave, kill_wipe_one_slave,
}

abbrev pub is_slave : ℕ → Peer → Bool
is_slave leader m = not (m.id == leader)

module _ (host : Text → Text) (exec : Remote → Visit) (leader : ℕ) where
  visit_one :
      {S : Type 0} (f : Closure S) (s s' : S) (remotes : List Remote) (visit : Visit) (m : Peer)
      (ms : List Peer)
      → f s m ≡ (s', (remotes, visit))
      → ((visit_members host exec f s (m ∷ ms)).1.0
          ≡ remotes ++ (visit_members host exec f s' ms).1.0)
        × ((visit_members host exec f s (m ∷ ms)).0 ≡ (visit_members host exec f s' ms).0)
  unfolding visit_members
  visit_one f s s' remotes visit m ms e = (
    ap (λ r. r.1.0 ++ (visit_members host exec f r.0 ms).1.0) e,
    ap (λ r. (visit_members host exec f r.0 ms).0) e,
  )

  passed :
      (once : Bool) (m : Peer)
      → not (m.id == leader) && not once ≡ false
      → slave_step host exec leader once m ≡ (once, ([], done))
  unfolding slave_step
  passed once m e = rw e refl

  hit :
      (m : Peer)
      → not (m.id == leader) ≡ true
      → slave_step host exec leader false m
        ≡ (true, (remote_on host kill m ∷ [], exec (remote_on host kill m)))
  unfolding slave_step run_on
  hit m e = rw e refl

  once_over :
      (ms : List Peer) → (visit_members host exec (slave_step host exec leader) true ms).1.0 ≡ []
  once_over [] = unfold visit_members in refl
  once_over (m ∷ ms) =
      (visit_one (slave_step host exec leader) true true [] done m ms
        (passed true m (never (not (m.id == leader))))).0
      ∙ once_over ms
    where
      never : (b : Bool) → b && not true ≡ false
      never true = refl
      never false = refl

  once_left :
      (ms : List Peer)
      → (visit_members host exec (slave_step host exec leader) false ms).1.0
        ≡ map (remote_on host kill) (take 1 (filter_if (is_slave leader) ms))
  once_left [] = unfold visit_members in refl
  once_left (m ∷ ms) = elim (Bool-cases (is_slave leader m)) [
    | inr e ↦
        (visit_one (slave_step host exec leader) false false [] done m ms
          (passed false m (rw e refl))).0
        ∙ (once_left ms
            ∙ ap (λ l. map (remote_on host kill) (take 1 l))
                (sym (filter_if-false (is_slave leader) m ms e)))
    | inl e ↦
        (visit_one (slave_step host exec leader) false true _ _ m ms (hit m e)).0
        ∙ (ap (λ l. remote_on host kill m ∷ l) (once_over ms)
            ∙ ap (λ l. map (remote_on host kill) (take 1 l))
                (sym (filter_if-true (is_slave leader) m ms e)))
  ]

  wiped_pass :
      (once : Option Visit) (m : Peer)
      → is_slave leader m ≡ false
      → wipe_slave_step host exec leader once m ≡ (once, ([], done))
  unfolding wipe_slave_step
  wiped_pass once m e = rw e refl

  wiped_hit :
      (once : Option Visit) (m : Peer)
      → is_slave leader m ≡ true
      → wipe_slave_step host exec leader once m ≡ wiped_once host exec once m
  unfolding wipe_slave_step
  wiped_hit once m e = rw e refl

  wiped_over :
      (visit : Visit) (ms : List Peer)
      → (visit_members host exec (wipe_slave_step host exec leader) (some visit) ms).1.0 ≡ []
  unfolding wiped_once
  wiped_over visit [] = unfold visit_members in refl
  wiped_over visit (m ∷ ms) = elim (Bool-cases (is_slave leader m)) [
    | inr e ↦
        (visit_one (wipe_slave_step host exec leader) (some visit) (some visit) [] done m ms
          (wiped_pass (some visit) m e)).0
        ∙ wiped_over visit ms
    | inl e ↦
        (visit_one (wipe_slave_step host exec leader) (some visit) (some visit) [] visit m ms
          (wiped_hit (some visit) m e)).0
        ∙ wiped_over visit ms
  ]

  wiped_left :
      (ms : List Peer)
      → (visit_members host exec (wipe_slave_step host exec leader) none ms).1.0
        ≡ map (remote_on host kill_wipe) (take 1 (filter_if (is_slave leader) ms))
  unfolding wiped_once run_on
  wiped_left [] = unfold visit_members in refl
  wiped_left (m ∷ ms) = elim (Bool-cases (is_slave leader m)) [
    | inr e ↦
        (visit_one (wipe_slave_step host exec leader) none none [] done m ms
          (wiped_pass none m e)).0
        ∙ (wiped_left ms
            ∙ ap (λ l. map (remote_on host kill_wipe) (take 1 l))
                (sym (filter_if-false (is_slave leader) m ms e)))
    | inl e ↦
        (visit_one (wipe_slave_step host exec leader) none
          (some (exec (remote_on host kill_wipe m))) (remote_on host kill_wipe m ∷ [])
          (exec (remote_on host kill_wipe m)) m ms (wiped_hit none m e)).0
        ∙ (ap (λ l. remote_on host kill_wipe m ∷ l)
              (wiped_over (exec (remote_on host kill_wipe m)) ms)
            ∙ ap (λ l. map (remote_on host kill_wipe) (take 1 l))
                (sym (filter_if-true (is_slave leader) m ms e)))
  ]

  -- The cases killOneSlave and killWipeOneSlave run their command on the first member that comes and is not
  -- the leader, and on no other; on none if there is no such member.
  pub kill_one_slave_lem :
      (order : List ℕ) (ms : List Peer)
      → ((kill_one_slave host exec leader order ms).0
          ≡ map (remote_on host kill) (take 1 (filter_if (is_slave leader) ms)))
        × ((kill_wipe_one_slave host exec leader order ms).0
            ≡ map (remote_on host kill_wipe) (take 1 (filter_if (is_slave leader) ms)))
  unfolding kill_one_slave kill_wipe_one_slave
  kill_one_slave_lem order ms = (once_left ms, wiped_left ms)
