-- ===== src/Schedule/Sweeps.antt =====
-- Failsafe sweeps and the quiet instant (internal/migsched/schedule.go: failsafes, checkFailsafes).
pub mod Clear
use pbt_devnet.Prelude.{
  ℕ, ◌+◌, Bool, true, false, not, ◌&&◌, Option, none, some, List, [], ◌∷◌, ◌++◌, ltb, sort, Result,
  ok, err, ◌>>◌, ◌>>=◌, refuse_if, if◌then◌else◌,
}
use pbt_devnet.Schedule.{
  Class, straddle, window, Op, Error, admitted, latest, failsafe_repeat, quiet_tail, sweep_inside,
}

-- The variables of the loop of `failsafes`; `last_pre` is none while it is the zero time.
pub record Sweep : Type 0 where
  pub out : List ℕ
  pub last_pre : Option ℕ
  pub quiet : ℕ

-- `t.After(last)` at a `last` that may be the zero time.
unfoldable pub after_last : ℕ → Option ℕ → Bool
after_last t none = true
after_last t (some last) = ltb last t

unfoldable pub stretch : ℕ → Op → ℕ
stretch quiet o = let q = latest o + quiet_tail in if ltb quiet q then q else quiet

unfoldable pub sweep_op : Class → Op → Sweep → Sweep
unfolding after_last stretch
sweep_op straddle o s = record s {
  out = s.out ++ latest o ∷ (latest o + failsafe_repeat) ∷ [];
  quiet = stretch s.quiet o;
}
sweep_op window o s = record s {
  out = s.out ++ (o.end + failsafe_repeat) ∷ [];
  quiet = stretch s.quiet o;
}
sweep_op _ o s =
    if admitted o && after_last o.end s.last_pre then record s { last_pre = some o.end } else s

unfoldable pub sweep_ops : List Op → Sweep → Sweep
unfolding sweep_op
sweep_ops [] s = s
sweep_ops (o ∷ os) s = sweep_ops os (sweep_op o.class o s)

-- The last pre-fork op's sweep, when it ends before the deadline.
unfoldable pub early_sweep : Option ℕ → ℕ → List ℕ
early_sweep none deadline = []
early_sweep (some last) deadline = if ltb last deadline then last ∷ [] else []

unfoldable pub failsafes : List Op → ℕ → List ℕ × ℕ
unfolding early_sweep
failsafes ops deadline =
    let s = sweep_ops ops (record { out = []; last_pre = none; quiet = deadline }) in
    (sort ltb (s.out ++ early_sweep s.last_pre deadline ++ deadline ∷ []), s.quiet)

-- `!f.Before(o.Start) && f.Before(o.Latest())`, of an admitted op.
unfoldable pub inside : ℕ → Op → Bool
inside f o = admitted o && (not (ltb f o.start) && ltb f (latest o))

unfoldable pub check_sweep : ℕ → List Op → Result Error (Unit {0})
unfolding inside
check_sweep f [] = ok tt
check_sweep f (o ∷ os) = refuse_if (inside f o) (sweep_inside f o) >> check_sweep f os

unfoldable pub check_failsafes : List Op → List ℕ → Result Error (Unit {0})
unfolding check_sweep
check_failsafes ops [] = ok tt
check_failsafes ops (f ∷ fs) = check_sweep f ops >> check_failsafes ops fs
