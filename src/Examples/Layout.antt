-- ===== src/Examples/Layout.antt =====
-- The shipped layout of five participants, resolved, with shares in units of 1/60000.
use pbt_devnet.Prelude.{
  ℕ, ◌+◌, ◌-◌, ◌*◌, ◌/◌, ◌≡◌, refl, List, [], ◌∷◌, ltb, leb, map, sort, insert, Result, ok, err,
  Bool, false, true, Option, none, some,
}
use pbt_devnet.Schedule.Sweeps.{failsafes, sweep_ops, check_failsafes}
use pbt_devnet.Schedule.Admission.{
  island_share, worst_share, admit_deep, admit_straddle, admit_window,
}
use pbt_devnet.Schedule.{
  profile_of, shift, latest, admitted, Class, deep, short, straddle, window, Op, Schedule, Error,
}
use pbt_devnet.Schedule.Topology.{Float64, Topology, share}
use pbt_devnet.Schedule.Resolve.{resolve}

abbrev pub parts : Float64
parts = record {
  F = ℕ;
  of_nat = λ n. n * 60000;
  ratio = λ n d. n * 60000 / d;
  add = λ a b. a + b;
  sub = λ a b. a - b;
  mul = λ a b. a * b / 60000;
  div = λ a b. a * 60000 / b;
  lt = ltb;
  le = leb;
}

abbrev pub five : Topology ℕ
five = record {
  anchor = 1;
  lights = 2 ∷ 3 ∷ 4 ∷ 5 ∷ [];
  participants = 5;
  anchor_share = 17400;
  seconds_per_slot = 6;
}

abbrev starts : Result Error Schedule → List ℕ
starts (ok s) = map (λ o. o.start) s.ops
starts (err e) = []

abbrev victims : Result Error Schedule → List (List ℕ)
victims (ok s) = map (λ o. o.victims) s.ops
victims (err e) = []

program : Unit {0}
unfolding resolve sort insert profile_of shift share island_share worst_share admit_deep
    admit_straddle admit_window failsafes sweep_ops check_failsafes latest admitted
program = tt

composite_starts :
    starts (resolve parts 1801000 five "composite" 1800000)
    ≡ 1800240 ∷ 1800540 ∷ 1800790 ∷ 1800880 ∷ 1801300 ∷ []
unfolding program
composite_starts = refl

-- The op of a window, by its place, class and times.
abbrev planned :
    (i : ℕ) (c : Class) (start end : ℕ) (victims : List ℕ) (split : Bool) (hold : Option ℕ) → Op
planned i c start end victims split hold = record {
  name = ("composite", i);
  class = c;
  start = start;
  end = end;
  victims = victims;
  mutual_islands = split;
  refused = none;
  hold_until = hold;
}

-- The composite profile's schedule, for a genesis at 1800000 and a fork at 1801800.
abbrev pub plan : Schedule
plan = record {
  profile = "composite";
  ops =
      planned 1 deep 1800240 1800430 (2 ∷ 3 ∷ []) false none
      ∷ planned 2 deep 1800540 1800730 (3 ∷ 4 ∷ []) false none
      ∷ planned 3 short 1800790 1800940 (2 ∷ []) false none
      ∷ planned 4 straddle 1801680 1801860 (2 ∷ 3 ∷ 4 ∷ 5 ∷ []) true (some 1801980)
      ∷ planned 5 window 1802100 1802250 (3 ∷ []) false none
      ∷ [];
  failsafes = 1800940 ∷ 1801410 ∷ 1801980 ∷ 1802040 ∷ 1802310 ∷ [];
  quiet = 1802370;
  slot_seconds = 6;
}

pub plan-resolved : resolve parts 1801800 five "composite" 1800000 ≡ ok plan
unfolding program
plan-resolved = refl
