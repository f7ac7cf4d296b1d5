-- ===== src/Dump.antt =====
-- The published schedule (internal/migsched/dump.go). Times are Unix seconds; a `hold_until` of 0
-- is an op that holds nothing. The JSON decoder is a parameter of `parse_dump`.
pub mod Gaps
pub mod Deadline
pub mod Publish
use pbt_devnet.Prelude.{
  ℕ, ◌+◌, ◌≤◌, String, Bool, true, false, not, ◌&&◌, ◌||◌, Option, none, some, List, [], ◌∷◌, ◌++◌,
  map, keep, some_of, sort, ltb, leb, ◌==◌, str_eq, Result, ok, err, if◌then◌else◌,
}
use pbt_devnet.Schedule.{Class, straddle, window, Refusal, Op, Schedule, heal_converge_allowance}

pub record DumpOp : Type 0 where
  pub name : String × ℕ
  pub class : Class
  pub start : ℕ
  pub end : ℕ
  pub hold_until : ℕ
  pub victims : List ℕ
  pub mutual_islands : Bool
  pub refused : Option Refusal

pub record Dump : Type 0 where
  pub profile : String
  pub genesis : ℕ
  pub fork : ℕ
  pub anchor : ℕ
  pub slot_seconds : ℕ
  pub ops : List DumpOp
  pub failsafes : List ℕ
  pub quiet : ℕ

unfoldable pub latest : DumpOp → ℕ
latest o = if o.hold_until == 0 then o.end else o.hold_until

unfoldable pub dump_op : Op → DumpOp
dump_op o = record {
  name = o.name;
  class = o.class;
  start = o.start;
  end = o.end;
  hold_until = elim o.hold_until [ none ↦ 0 | some t ↦ t ];
  victims = o.victims;
  mutual_islands = o.mutual_islands;
  refused = o.refused;
}

unfoldable pub new_dump : Schedule → (genesis fork anchor : ℕ) → Dump
unfolding dump_op
new_dump s genesis fork anchor = record {
  profile = s.profile;
  genesis = genesis;
  fork = fork;
  anchor = anchor;
  slot_seconds = s.slot_seconds;
  ops = map dump_op s.ops;
  failsafes = s.failsafes;
  quiet = s.quiet;
}

pub data ParseError : Type 0 where
  bad_json no_profile_or_fork : ParseError

unfoldable pub parse_dump : {Raw : Type 0} → (Raw → Option Dump) → Raw → Result ParseError Dump
parse_dump unmarshal raw = elim (unmarshal raw) [
  | none ↦ err bad_json
  | some d ↦ if str_eq d.profile "" || d.fork == 0 then err no_profile_or_fork else ok d
]

unfoldable pub runs : DumpOp → Bool
runs o = elim o.refused [ none ↦ true | some _ ↦ false ]

unfoldable pub admitted : Dump → List DumpOp
unfolding runs
admitted d = keep runs d.ops

-- The loop over the sweeps of `HealDeadline`.
unfoldable pub last_sweep : (fork deadline : ℕ) → List ℕ → ℕ
last_sweep fork deadline [] = deadline
last_sweep fork deadline (f ∷ fs) =
    last_sweep fork
      (if leb f fork && ltb deadline f || deadline == fork && leb f fork then f else deadline) fs

abbrev is_post_fork : Class → Bool
is_post_fork straddle = true
is_post_fork window = true
is_post_fork _ = false

unfoldable pub heal_deadline : Dump → DumpOp → ℕ
unfolding last_sweep
heal_deadline d o =
    if is_post_fork o.class
    then latest o + heal_converge_allowance
    else last_sweep d.fork d.fork d.failsafes

-- The order of the busy intervals by their start.
abbrev pub starts_before : ℕ × ℕ → ℕ × ℕ → Bool
starts_before a b = ltb a.0 b.0

-- The free interval before a busy one that ends after the cursor.
unfoldable pub free_before : (to cursor start : ℕ) → List (ℕ × ℕ)
free_before to cursor start =
    let end = if ltb to start then to else start in
    if ltb cursor start then if ltb cursor end then (cursor, end) ∷ [] else [] else []

-- The loop over the busy intervals.
unfoldable pub gaps_from : (to cursor : ℕ) → List (ℕ × ℕ) → List (ℕ × ℕ)
unfolding free_before
gaps_from to cursor [] = if ltb cursor to then (cursor, to) ∷ [] else []
gaps_from to cursor (b ∷ bs) =
    let behind = gaps_from to cursor bs in
    let moved = if ltb cursor b.1 then b.1 else cursor in
    let beyond = gaps_from to moved bs in
    if not (ltb cursor b.1)
    then behind
    else free_before to cursor b.0 ++ (if not (ltb moved to) then [] else beyond)

abbrev busy_of : DumpOp → ℕ × ℕ
busy_of o = (o.start, latest o)

unfoldable pub gaps : Dump → (from to : ℕ) → List (ℕ × ℕ)
unfolding gaps_from admitted
gaps d from to = gaps_from to from (sort starts_before (map busy_of (admitted d)))

unfoldable pub contains : List (ℕ × ℕ) → (start end : ℕ) → Bool
contains gs start end = some_of (λ g. not (ltb start g.0) && not (ltb g.1 end)) gs
