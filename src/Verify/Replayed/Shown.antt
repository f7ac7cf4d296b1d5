-- ===== src/Verify/Replayed/Shown.antt =====
-- What the monitor's stream has to show of a replay (offline.go: checkReplayCaughtUp,
-- lifecycleCaughtUp).
use pbt_devnet.Prelude.{
  iff_trans, ◌⊎◌, ℕ, ◌+◌, ◌≤◌, ◌≡◌, ◌≢◌, refl, sym, ap, subst, ◌↔◌, inl, inr, Bool, true, false,
  Option, none, some, List, [], ◌∷◌, ◌++◌, ltb, leb, leb→le, le→leb, ltb→ge, ◌==◌, ==_iff,
  each-eq-nil, if◌then◌else◌, Bool-cases, All, arith,
}
use pbt_devnet.Migmon.{DirectionProgress, MigrationProgress, u64}
use pbt_devnet.Verify.{
  passed, OfflineLap, SwapDone, LapManifest, ManifestFile, loaded, conclude_passed,
  require_offline_passed,
}
use pbt_devnet.Verify.Replayed.{
  Seen, head_of, progress_of, other_event, is_near, corroborates, next_tip, caught_up_from,
  lifecycle_caught_up, caught_up_lag, never_caught_up, no_corroboration, after_deadline,
  replay_problems, all_replay_problems, judge_replays, check_replay_caught_up,
}

-- No head of node 1.
abbrev pub IsAside : Seen → Type 0
IsAside (head_of i n) = i ≢ 1
IsAside (progress_of i time p) = Unit
IsAside other_event = Unit

-- Node 1's last head in some events.
abbrev pub LastHead : List Seen → ℕ → Type 0
LastHead [] tip = ⊥
LastHead (ev ∷ evs) tip = ((ev ≡ head_of 1 tip) × All IsAside evs) ⊎ LastHead evs tip

abbrev tip_after : Option ℕ → List Seen → Option ℕ
tip_after tip [] = tip
tip_after tip (ev ∷ evs) = tip_after (next_tip tip ev) evs

-- A report of the node, no earlier than a time, with its cursor within the lag of the last head of
-- node 1 before it.
abbrev pub IsSeen : (node after : ℕ) → List Seen → Type 0
IsSeen node after evs =
    (before : List Seen) × (rest : List Seen) × (time : ℕ) × (p : MigrationProgress)
    × (d : DirectionProgress) × (tip : ℕ) × (evs ≡ before ++ progress_of node time (some p) ∷ rest)
    × LastHead before tip
    × (after ≤ time)
    × (p.binary ≡ some d)
    × (tip ≤ u64 (d.cursor + 2))

-- The same by the tip that the loop keeps.
abbrev IsShown : (node after : ℕ) → Option ℕ → List Seen → Type 0
IsShown node after start evs =
    (before : List Seen) × (rest : List Seen) × (time : ℕ) × (p : MigrationProgress)
    × (d : DirectionProgress) × (tip : ℕ) × (evs ≡ before ++ progress_of node time (some p) ∷ rest)
    × (tip_after start before ≡ some tip)
    × (after ≤ time)
    × (p.binary ≡ some d)
    × (tip ≤ u64 (d.cursor + caught_up_lag))

module _ (node after : ℕ) where
  is_near-true :
      (tip : ℕ) (o : Option MigrationProgress)
      → is_near tip o ≡ true
      → (p : MigrationProgress) × (d : DirectionProgress) × (o ≡ some p)
        × (p.binary ≡ some d)
        × (tip ≤ u64 (d.cursor + caught_up_lag))
  unfolding is_near
  is_near-true tip none h = absurd (cc)
  is_near-true tip (some p) h = by_binary p.binary refl h
    where
      by_binary :
          (o : Option DirectionProgress)
          → p.binary ≡ o
          → let it : Bool = elim o [
            | none ↦ false
            | some d ↦ leb tip (u64 (d.cursor + caught_up_lag))
          ] in
            it ≡ true
            → (q : MigrationProgress) × (d : DirectionProgress) × (some p ≡ some q)
              × (q.binary ≡ some d)
              × (tip ≤ u64 (d.cursor + caught_up_lag))
      by_binary none e h = absurd (cc)
      by_binary (some d) e h = (p, d, refl, e, leb→le _ _ h)

  now-IsShown :
      (tip : Option ℕ) (ev : Seen) (evs : List Seen)
      → corroborates node after tip ev ≡ true
      → IsShown node after tip (ev ∷ evs)
  unfolding corroborates
  now-IsShown tip (head_of i n) evs h = absurd (cc)
  now-IsShown tip other_event evs h = absurd (cc)
  now-IsShown none (progress_of i time p) evs h = absurd (cc)
  now-IsShown (some tip) (progress_of i time o) evs h =
      let same : i ≡ node = (==_iff i node).0 (ground (arith, h)) in
      let near : is_near tip o ≡ true = ground (arith, h) in
      let (p, d, eo, eb, low) = is_near-true tip o near in
      ([], evs, time, p, d, tip, cc, refl, ground (arith, h), eb, low)

  near_of :
      (tip : ℕ) (p : MigrationProgress) (d : DirectionProgress)
      → p.binary ≡ some d
      → tip ≤ u64 (d.cursor + caught_up_lag)
      → is_near tip (some p) ≡ true
  unfolding is_near
  near_of tip p d e low = rw e (le→leb _ _ low)

  shown_now :
      (time tip : ℕ) (p : MigrationProgress) (d : DirectionProgress)
      → after ≤ time
      → p.binary ≡ some d
      → tip ≤ u64 (d.cursor + caught_up_lag)
      → corroborates node after (some tip) (progress_of node time (some p)) ≡ true
  unfolding corroborates
  shown_now time tip p d since e low =
      let near = near_of tip p d e low in ground (arith, near, ==_iff node node)

  not_empty : (xs ys : List Seen) (x : Seen) → [] ≡ xs ++ x ∷ ys → ⊥
  not_empty [] ys x e = cc
  not_empty (y ∷ xs) ys x e = cc

  IsShown-later :
      (tip : Option ℕ) (ev : Seen) (evs : List Seen)
      → corroborates node after tip ev ≡ false
      → IsShown node after tip (ev ∷ evs)
      → IsShown node after (next_tip tip ev) evs
  IsShown-later tip ev evs out ([], rest, time, p, d, t, e, et, since, eb, low) =
      let hit = shown_now time t p d since eb low in
      let one : ev ≡ progress_of node time (some p) = cc in absurd (cc (hit, out, one, et))
  IsShown-later tip ev evs out (x ∷ before, rest, time, p, d, t, e, et, since, eb, low) =
      let one : ev ≡ x = cc in
      (
        before,
        rest,
        time,
        p,
        d,
        t,
        cc,
        subst (λ y. tip_after (next_tip tip y) before ≡ some t) (sym one) et,
        since,
        eb,
        low,
      )

  pub caught_up_from_iff :
      (tip : Option ℕ) (evs : List Seen)
      → (caught_up_from node after tip evs ≡ true) ↔ IsShown node after tip evs
  unfolding caught_up_from
  caught_up_from_iff tip [] = (λ h. absurd (cc), λ h. absurd (not_empty h.0 h.1 _ h.6))
  caught_up_from_iff tip (ev ∷ evs) = elim (Bool-cases (corroborates node after tip ev)) [
    | inl hit ↦ rw hit (λ h. now-IsShown tip ev evs hit, λ h. refl)
    | inr out ↦
        let (to, from) = caught_up_from_iff (next_tip tip ev) evs in
        rw out (
          λ h.
              let (before, rest, time, p, d, t, e, et, since, eb, low) = to h in
              (ev ∷ before, rest, time, p, d, t, ap (λ xs. ev ∷ xs) e, et, since, eb, low),
          λ h. from (IsShown-later tip ev evs out h),
        )
  ]

-- The loop's tip is the last head of node 1, or the one that it started from.
next_tip_iff :
    (start : Option ℕ) (ev : Seen) (tip : ℕ)
    → (next_tip start ev ≡ some tip) ↔ ((ev ≡ head_of 1 tip) ⊎ (IsAside ev × (start ≡ some tip)))
unfolding next_tip
next_tip_iff start (head_of i n) tip = elim (Bool-cases (i == 1)) [
  | inl e ↦
      let one : i ≡ 1 = (==_iff i 1).0 e in
      rw e (
        λ h. inl (let same : n ≡ tip = cc in cc),
        λ h. elim h [ inl a ↦ cc | inr b ↦ absurd (b.0 one) ],
      )
  | inr e ↦ rw e (
    λ h. inr (λ k. let z = (==_iff i 1).1 k in cc, h),
    λ h. elim h [
      | inl a ↦ absurd (let one : i ≡ 1 = cc in let z = (==_iff i 1).1 one in cc)
      | inr b ↦ b.1
    ],
  )
]
next_tip_iff start (progress_of i time p) tip =
    (λ h. inr (tt, h), λ h. elim h [ inl a ↦ absurd (cc) | inr b ↦ b.1 ])
next_tip_iff start other_event tip =
    (λ h. inr (tt, h), λ h. elim h [ inl a ↦ absurd (cc) | inr b ↦ b.1 ])

tip_after_iff :
    (start : Option ℕ) (evs : List Seen) (tip : ℕ)
    → (tip_after start evs ≡ some tip) ↔ (LastHead evs tip ⊎ (All IsAside evs × (start ≡ some tip)))
tip_after_iff start [] tip = (λ h. inr (tt, h), λ h. elim h [ inl l ↦ absurd l | inr r ↦ r.1 ])
tip_after_iff start (ev ∷ evs) tip =
    let (to, from) = tip_after_iff (next_tip start ev) evs tip in
    let (n_to, n_from) = next_tip_iff start ev tip in
    (
      λ h. elim (to h) [
        | inl l ↦ inl (inr l)
        | inr r ↦ elim (n_to r.1) [ inl a ↦ inl (inl (a, r.0)) | inr b ↦ inr ((b.0, r.0), b.1) ]
      ],
      λ h. elim h [
        | inl (inl a) ↦ from (inr (a.1, n_from (inl a.0)))
        | inl (inr l) ↦ from (inl l)
        | inr r ↦ from (inr (r.0.1, n_from (inr (r.0.0, r.1))))
      ],
    )

IsShown-IsSeen :
    (node after : ℕ) (evs : List Seen) → IsShown node after none evs ↔ IsSeen node after evs
IsShown-IsSeen node after evs = (
  λ (before, rest, time, p, d, tip, e, et, since, eb, low). (
    before,
    rest,
    time,
    p,
    d,
    tip,
    e,
    elim ((tip_after_iff none before tip).0 et) [ inl l ↦ l | inr r ↦ absurd (let z = r.1 in cc) ],
    since,
    eb,
    low,
  ),
  λ (before, rest, time, p, d, tip, e, last, since, eb, low). (
    before,
    rest,
    time,
    p,
    d,
    tip,
    e,
    (tip_after_iff none before tip).1 (inl last),
    since,
    eb,
    low,
  ),
)

-- A swap caught up before the fork by the margin, and the monitor saw that for itself.
abbrev pub IsReplayed : (fork margin : ℕ) → List Seen → SwapDone → Type 0
IsReplayed fork margin monitor s =
    (s.caught_up_at ≢ 0) × (s.caught_up_at + margin ≤ fork) × IsSeen s.node s.start_at monitor

replay_problems_iff :
    (fork margin : ℕ) (monitor : List Seen) (s : SwapDone)
    → (replay_problems fork margin monitor s ≡ []) ↔ IsReplayed fork margin monitor s
unfolding replay_problems lifecycle_caught_up
replay_problems_iff fork margin monitor s = by_tests _ refl _ refl _ refl
  where
    shown :
        (caught_up_from s.node s.start_at none monitor ≡ true) ↔ IsSeen s.node s.start_at monitor
    shown =
        iff_trans (caught_up_from_iff s.node s.start_at none monitor)
          (IsShown-IsSeen s.node s.start_at monitor)

    by_tests :
        (never : Bool)
        → (s.caught_up_at == 0) ≡ never
        → (late : Bool) → ltb fork (s.caught_up_at + margin) ≡ late
        → (seen : Bool) → caught_up_from s.node s.start_at none monitor ≡ seen
        → ((if never
              then never_caught_up s.node ∷ []
              else (if late then after_deadline s.node s.caught_up_at ∷ [] else [])
                ++ (if seen then [] else no_corroboration s.node ∷ []))
            ≡ [])
          ↔ IsReplayed fork margin monitor s
    by_tests true en l el b eb =
        (λ h. absurd (cc), λ h. absurd (h.0 ((==_iff s.caught_up_at 0).0 en)))
    by_tests false en true el b eb = (λ h. absurd (cc), λ h. absurd (ground (arith, h.1)))
    by_tests false en false el false eb = (λ h. absurd (cc), λ h. absurd (cc (shown.1 h.2)))
    by_tests false en false el true eb =
        (λ h. (λ z. cc (en, (==_iff s.caught_up_at 0).1 z), ltb→ge _ _ el, shown.0 eb), λ h. refl)

-- The check of the replays passes exactly on a manifest with an enabled offline lap and some swap,
-- where every swap, also one that was skipped, caught up by the margin before the fork, and the
-- monitor's stream shows it: after the start, a report of the node with its cursor within the lag
-- of node 1's last head.
pub check_replay_caught_up_iff :
    (fork : ℕ) (monitor : List Seen) (file : ManifestFile)
    → (check_replay_caught_up fork monitor file ≡ passed tt) ↔ (
        (m : LapManifest) × (lap : OfflineLap) × (file ≡ loaded m)
        × (m.offline ≡ some lap)
        × (lap.enabled ≡ true)
        × (m.swaps ≢ [])
        × All (IsReplayed fork lap.margin_seconds monitor) m.swaps)
unfolding check_replay_caught_up
check_replay_caught_up_iff fork monitor file =
    let (to, from) =
      require_offline_passed file (λ m lap. judge_replays fork monitor lap m.swaps) tt in
    (
      λ h.
          let (m, lap, em, el, t, done) = to h in
          let (some_swap, each) = (judged lap m.swaps).0 done in
          (m, lap, em, el, t, some_swap, each),
      λ (m, lap, em, el, t, some_swap, each).
          from (m, lap, em, el, t, (judged lap m.swaps).1 (some_swap, each)),
    )
  where
    each_iff :
        (margin : ℕ) (swaps : List SwapDone)
        → (all_replay_problems fork margin monitor swaps ≡ [])
          ↔ All (IsReplayed fork margin monitor) swaps
    each_iff margin =
        unfold all_replay_problems in
        each-eq-nil (replay_problems fork margin monitor) (all_replay_problems fork margin monitor)
          (IsReplayed fork margin monitor) refl (λ s swaps. refl)
          (replay_problems_iff fork margin monitor)

    judged :
        (lap : OfflineLap) (swaps : List SwapDone)
        → (judge_replays fork monitor lap swaps ≡ passed tt)
          ↔ ((swaps ≢ []) × All (IsReplayed fork lap.margin_seconds monitor) swaps)
    judged lap [] = unfold judge_replays in (λ h. absurd (cc), λ h. absurd (h.0 refl))
    judged lap (s ∷ swaps) =
        let (to, from) = each_iff lap.margin_seconds (s ∷ swaps) in
        let (split, join) =
          conclude_passed (all_replay_problems fork lap.margin_seconds monitor (s ∷ swaps))
            (passed tt) tt in
        unfold judge_replays in (λ h. (λ e. cc, to (split h).0), λ h. join (from h.1, refl))
