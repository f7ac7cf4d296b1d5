-- ===== src/Guard/Handoff.antt =====
-- The gate's own partition after the migration (cmd/migration-gate/main.go: runPostOp). Its calls
-- are a list in order, each with the answer that it got; what it logs is left out.
use pbt_devnet.Prelude.{
  ℕ, ◌+◌, ◌≤◌, ◌≡◌, refl, Bool, true, false, not, Option, none, some, List, [], ◌∷◌, ltb,
  if◌then◌else◌, arith, subst,
}
use pbt_devnet.Schedule.Topology.{others}
use pbt_devnet.Guard.{hold_own}
use pbt_devnet.Guard.Wait.{Convergence}

abbrev pub deep_window : ℕ
deep_window = 190

abbrev pub short_window : ℕ
short_window = 150

pub data PostKind : Type 0 where
  short_light deep_pair : PostKind

pub data PostAct : Type 0 where
  claimed : (until : Option ℕ) → PostAct
  asked_partition : List (List ℕ) → (done : Bool) → PostAct
  slept : (awake : Bool) → PostAct
  asked_clear : (done : Bool) → PostAct
  asked_repeer : (done : Bool) → PostAct
  awaited : Convergence → PostAct
  released : PostAct

pub data PostEnd : Type 0 where
  no_light no_containers partition_failed heal_failed cut_short : PostEnd
  too_few : ℕ → PostEnd
  over : Convergence → PostEnd

-- The answers; `containers` is none where disruptoor could not tell.
pub record PostWorld : Type 0 where
  pub now : ℕ
  pub containers : Option ℕ
  pub partitions : Bool
  pub awake : Bool
  pub clears : Bool
  pub repeers : Bool
  pub convergence : Convergence

-- The victims and the window, or why there is none.
pub data Choice : Type 0 where
  nothing : PostEnd → Choice
  chosen : (victims : List ℕ) → (window : ℕ) → Choice

unfoldable pub choose : PostKind → (lights : List ℕ) → Choice
choose short_light [] = nothing no_light
choose short_light (v ∷ vs) = chosen (v ∷ []) short_window
choose deep_pair [] = nothing (too_few 0)
choose deep_pair (v ∷ []) = nothing (too_few 1)
choose deep_pair (v ∷ u ∷ vs) = chosen (v ∷ u ∷ []) deep_window

abbrev pub sees_some : Option ℕ → Bool
sees_some none = false
sees_some (some n) = ltb 0 n

-- What follows an accepted partition.
unfoldable pub close_window : PostWorld → List PostAct × PostEnd
close_window w =
    if not w.awake
    then (slept false ∷ asked_clear w.clears ∷ [], cut_short)
    else if not w.clears
    then (slept true ∷ asked_clear false ∷ [], heal_failed)
    else (
      slept true
          ∷ asked_clear true
          ∷ asked_repeer w.repeers
          ∷ awaited w.convergence
          ∷ released
          ∷ [],
      over w.convergence,
    )

unfoldable pub open_window :
    (participants : ℕ) → PostWorld → (victims : List ℕ) → (window : ℕ) → List PostAct × PostEnd
unfolding hold_own close_window
open_window participants w victims window =
    let groups = others participants victims ∷ victims ∷ [] in
    let rest = close_window w in
    if not w.partitions
    then (
      claimed (hold_own w.now window) ∷ asked_partition groups false ∷ released ∷ [],
      partition_failed,
    )
    else (claimed (hold_own w.now window) ∷ asked_partition groups true ∷ rest.0, rest.1)

unfoldable pub run_post_op :
    PostKind → (lights : List ℕ) → (participants : ℕ) → PostWorld → List PostAct × PostEnd
unfolding choose open_window
run_post_op kind lights participants w = elim (choose kind lights) [
  | nothing e ↦ ([], e)
  | chosen victims window ↦
      if sees_some w.containers
      then open_window participants w victims window
      else ([], no_containers)
]

-- Whether the partition is in force, and until when the window is claimed, after some calls.
abbrev pub in_force : Bool → List PostAct → Bool
in_force b [] = b
in_force b (asked_partition g true ∷ as') = in_force true as'
in_force b (asked_clear true ∷ as') = in_force false as'
in_force b (_ ∷ as') = in_force b as'

abbrev pub Claimed : (window : ℕ) → (now : ℕ) → Option ℕ → List PostAct → Type 0
Claimed window now own [] = Unit
Claimed window now own (claimed u ∷ as') = Claimed window now u as'
Claimed window now own (released ∷ as') = Claimed window now none as'
Claimed window now own (asked_partition g d ∷ as') =
    ((u : ℕ) × (own ≡ some u) × (now + window + 120 ≤ u)) × Claimed window now own as'
Claimed window now own (_ ∷ as') = Claimed window now own as'

abbrev pub window_of : PostKind → ℕ
window_of short_light = short_window
window_of deep_pair = deep_window

-- A partition stays only if the clear failed, and is asked for only under a claim not released.
abbrev pub IsCareful : (window : ℕ) → PostWorld → List PostAct → Type 0
IsCareful window w as' =
    (in_force false as' ≡ true → w.clears ≡ false) × Claimed window w.now none as'

close_window-Cleared :
    (w : PostWorld) (window : ℕ) (own : Option ℕ)
    → (in_force true (close_window w).0 ≡ true → w.clears ≡ false)
      × Claimed window w.now own (close_window w).0
unfolding close_window
close_window-Cleared w window own = by_answers w.awake w.clears refl
  where
    by_answers :
        (a c : Bool)
        → w.clears ≡ c
        → let r : List PostAct × PostEnd =
            if not a
            then (slept false ∷ asked_clear w.clears ∷ [], cut_short)
            else if not c
            then (slept true ∷ asked_clear false ∷ [], heal_failed)
            else (
              slept true
                  ∷ asked_clear true
                  ∷ asked_repeer w.repeers
                  ∷ awaited w.convergence
                  ∷ released
                  ∷ [],
              over w.convergence,
            ) in
          (in_force true r.0 ≡ true → w.clears ≡ false) × Claimed window w.now own r.0
    by_answers false true e = (
      λ h.
          let k : false ≡ true = subst (λ b. in_force true (asked_clear b ∷ []) ≡ true) e h in
          absurd (cc),
      tt,
    )
    by_answers false false e = (λ h. e, tt)
    by_answers true false e = (λ h. e, tt)
    by_answers true true e = (λ h. cc, tt)

open_window-IsCareful :
    (participants : ℕ) (w : PostWorld) (victims : List ℕ) (window : ℕ)
    → IsCareful window w (open_window participants w victims window).0
unfolding open_window hold_own
open_window-IsCareful participants w victims window = by_answer w.partitions
  where
    groups : List (List ℕ)
    groups = others participants victims ∷ victims ∷ []

    by_answer :
        (d : Bool)
        → let r : List PostAct × PostEnd =
            if not d
            then (
              claimed (hold_own w.now window) ∷ asked_partition groups false ∷ released ∷ [],
              partition_failed,
            )
            else (
              claimed (hold_own w.now window) ∷ asked_partition groups true ∷ (close_window w).0,
              (close_window w).1,
            ) in
          IsCareful window w r.0
    by_answer false = (λ h. cc, ((_, refl, omega arith), tt))
    by_answer true =
        let (cleared, kept) = close_window-Cleared w window (hold_own w.now window) in
        (cleared, ((_, refl, omega arith), kept))

choose-window :
    (kind : PostKind) (lights vs : List ℕ) (window : ℕ)
    → choose kind lights ≡ chosen vs window
    → window ≡ window_of kind
unfolding choose
choose-window short_light [] vs window e = cc
choose-window short_light (v ∷ ls) vs window e = cc
choose-window deep_pair [] vs window e = cc
choose-window deep_pair (v ∷ []) vs window e = cc
choose-window deep_pair (v ∷ u ∷ ls) vs window e = cc

-- However disruptoor answers, the partition that the gate makes after the migration is in force at
-- the end of its run only if the clear failed; and it is asked for only while the gate holds a
-- claim, not released, that lasts for the whole window of its kind and two minutes more.
pub run_post_op-IsCareful :
    (kind : PostKind) (lights : List ℕ) (participants : ℕ) (w : PostWorld)
    → IsCareful (window_of kind) w (run_post_op kind lights participants w).0
unfolding run_post_op
run_post_op-IsCareful kind lights participants w = by_choice (choose kind lights) refl
  where
    by_choice :
        (c : Choice)
        → choose kind lights ≡ c
        → let r : List PostAct × PostEnd = elim c [
          | nothing e ↦ ([], e)
          | chosen victims window ↦
              if sees_some w.containers
              then open_window participants w victims window
              else ([], no_containers)
        ] in
          IsCareful (window_of kind) w r.0
    by_choice (nothing e) k = (λ h. cc, tt)
    by_choice (chosen vs window) k = by_sight (sees_some w.containers)
      where
        by_sight :
            (b : Bool)
            → let r : List PostAct × PostEnd =
                if b then open_window participants w vs window else ([], no_containers) in
              IsCareful (window_of kind) w r.0
        by_sight false = (λ h. cc, tt)
        by_sight true =
            subst (λ n. IsCareful n w (open_window participants w vs window).0)
              (choose-window kind lights vs window k)
              (open_window-IsCareful participants w vs window)
