-- ===== src/Guard/Completed.antt =====
-- When the gate takes the migration for done (cmd/migration-gate/main.go: waitForDone).
use pbt_devnet.Prelude.{
  ℕ, suc, ◌+◌, ◌≤◌, ◌≡◌, refl, inl, inr, String, Bool, true, false, none, some, List, [], ◌∷◌,
  arith, length, All, Some, Bool-cases, if◌then◌else◌, ◌==◌, ==_iff, some_of, str_eq, ◌↔◌,
}
use pbt_devnet.Migmon.{done, no_phase, inactive, running, other_chain}
use pbt_devnet.Guard.Wait.{
  Report, Polled, poll_client, poll_clients, DoneRound, wait_done, wait_for_done,
}

-- Every watched client reports that it is done.
abbrev pub AllDone : DoneRound → Type 0
AllDone r = All (λ (c : String × Report). c.1 ≡ some done) r.reports

abbrev dones : List (String × Report) → ℕ
dones [] = 0
dones ((name, some done) ∷ cs) = suc (dones cs)
dones (_ ∷ cs) = dones cs

dones-length : (cs : List (String × Report)) → dones cs ≤ length cs
dones-length [] = omega arith
dones-length ((name, none) ∷ cs) = omega (arith, dones-length cs)
dones-length ((name, some done) ∷ cs) = omega (arith, dones-length cs)
dones-length ((name, some no_phase) ∷ cs) = omega (arith, dones-length cs)
dones-length ((name, some inactive) ∷ cs) = omega (arith, dones-length cs)
dones-length ((name, some running) ∷ cs) = omega (arith, dones-length cs)
dones-length ((name, some (other_chain x)) ∷ cs) = omega (arith, dones-length cs)

unread-finished : (name : String) (p : Polled) → (poll_client name none p).finished ≡ p.finished
unfolding poll_client
unread-finished name p = by_known (some_of (λ n. str_eq n name) p.stalled)
  where
    by_known :
        (b : Bool)
        → (let q : Polled =
              if b
              then p
              else record p { stalled = name ∷ p.stalled; reported = name ∷ p.reported } in
            q.finished ≡ p.finished)
    by_known true = refl
    by_known false = refl

poll_clients-finished :
    (cs : List (String × Report)) (p : Polled)
    → (poll_clients cs p).finished ≡ p.finished + dones cs
unfolding poll_clients poll_client
poll_clients-finished [] p = omega arith
poll_clients-finished ((name, none) ∷ cs) p =
    omega (arith, poll_clients-finished cs (poll_client name none p), unread-finished name p)
poll_clients-finished ((name, some done) ∷ cs) p =
    omega (arith, poll_clients-finished cs (poll_client name (some done) p))
poll_clients-finished ((name, some no_phase) ∷ cs) p =
    omega (arith, poll_clients-finished cs (poll_client name (some no_phase) p))
poll_clients-finished ((name, some inactive) ∷ cs) p =
    omega (arith, poll_clients-finished cs (poll_client name (some inactive) p))
poll_clients-finished ((name, some running) ∷ cs) p =
    omega (arith, poll_clients-finished cs (poll_client name (some running) p))
poll_clients-finished ((name, some (other_chain x)) ∷ cs) p =
    omega (arith, poll_clients-finished cs (poll_client name (some (other_chain x)) p))

dones-All :
    (cs : List (String × Report))
    → (dones cs ≡ length cs) ↔ All (λ (c : String × Report). c.1 ≡ some done) cs
dones-All [] = (λ e. tt, λ h. refl)
dones-All ((name, some done) ∷ cs) =
    let (to, from) = dones-All cs in (λ e. (refl, to (omega arith)), λ h. omega (arith, from h.1))
dones-All ((name, none) ∷ cs) =
    (λ e. absurd (omega (arith, dones-length cs)), λ h. absurd (let k = h.0 in cc))
dones-All ((name, some no_phase) ∷ cs) =
    (λ e. absurd (omega (arith, dones-length cs)), λ h. absurd (let k = h.0 in cc))
dones-All ((name, some inactive) ∷ cs) =
    (λ e. absurd (omega (arith, dones-length cs)), λ h. absurd (let k = h.0 in cc))
dones-All ((name, some running) ∷ cs) =
    (λ e. absurd (omega (arith, dones-length cs)), λ h. absurd (let k = h.0 in cc))
dones-All ((name, some (other_chain x)) ∷ cs) =
    (λ e. absurd (omega (arith, dones-length cs)), λ h. absurd (let k = h.0 in cc))

wait_done_iff :
    (rs : List DoneRound) (stalled : List String)
    → All (λ r. r.awake ≡ true) rs
    → (wait_done stalled rs ≡ some true) ↔ Some AllDone rs
unfolding wait_done
wait_done_iff [] stalled a = (λ e. cc, λ h. absurd h)
wait_done_iff (r ∷ rs) stalled a =
    let start : Polled = record { stalled = stalled; reported = []; finished = 0 } in
    let p : Polled = poll_clients r.reports start in
    let count = poll_clients-finished r.reports start in
    let (all, back) = dones-All r.reports in
    let (to, from) = wait_done_iff rs p.stalled a.1 in
    elim (Bool-cases (p.finished == length r.reports)) [
      | inl e ↦
          let k = (==_iff p.finished (length r.reports)).0 e in
          rw e (λ h. inl (all (omega (arith, count, k))), λ h. refl)
      | inr e ↦
          rw (e, a.0)
            (
              λ h. inr (to h),
              λ h. elim h [
                | inl d ↦ absurd (
                    let k =
                      (==_iff p.finished (length r.reports)).1 (omega (arith, count, back d)) in
                    cc)
                | inr s ↦ from s
              ],
            )
    ]

-- While no sleep is interrupted and some client reports at all, the gate takes the migration for
-- done exactly if in some round every watched client reports that it is.
pub wait_for_done_iff :
    (introspects : List Bool) (rs : List DoneRound)
    → some_of (λ b. b) introspects ≡ true
    → All (λ r. r.awake ≡ true) rs
    → (wait_for_done introspects rs ≡ some true) ↔ Some AllDone rs
unfolding wait_for_done
wait_for_done_iff introspects rs h a = rw h (wait_done_iff rs [] a)
