-- ===== src/Examples/Dump.antt =====
-- The theorems of a published schedule, at the plan for five participants.
use pbt_devnet.Prelude.{ℕ, ◌≤◌, ◌<◌, ◌≡◌, refl, ◌↔◌, true, false, none, [], ◌∷◌, Some, sort, insert}
use pbt_devnet.Schedule.{deep}
use pbt_devnet.Dump.{DumpOp, Dump, new_dump, latest, gaps, contains}
use pbt_devnet.Dump.Gaps.{Holds}
use pbt_devnet.Dump.Publish.{IsOpen, publish-gaps}
use pbt_devnet.Examples.Layout.{parts, five, plan, plan-resolved}

publish-gaps_example :
    Some (Holds 1801900) (gaps (new_dump plan 1800000 1801800 1) 1800000 1803600)
    ↔ ((1800000 ≤ 1801900) × (1801900 < 1803600) × (¬ Some (IsOpen 1801900) plan.ops))
publish-gaps_example =
    publish-gaps parts 1801800 five "composite" 1800000 plan plan-resolved 1800000 1803600 1801900

abbrev drop : ℕ → ℕ → ℕ → DumpOp
drop start end hold = record {
  name = ("drop", start);
  class = deep;
  start = start;
  end = end;
  hold_until = hold;
  victims = 2 ∷ [];
  mutual_islands = false;
  refused = none;
}

-- Two ops, the later one first; the other holds until 320.
abbrev day : Dump
day = record {
  profile = "day";
  genesis = 0;
  fork = 500;
  anchor = 1;
  slot_seconds = 6;
  ops = drop 400 450 0 ∷ drop 100 200 320 ∷ [];
  failsafes = 320 ∷ 480 ∷ 620 ∷ [];
  quiet = 740;
}

day-gaps : gaps day 150 600 ≡ (320, 400) ∷ (450, 600) ∷ []
unfolding gaps sort insert latest
day-gaps = refl

day-contains : contains (gaps day 150 600) 330 390 ≡ true
unfolding gaps contains sort insert latest
day-contains = refl
