-- ===== src/Schedule/Admission/Bounds.antt =====
-- What an admitted window or straddle op satisfies (internal/migsched/schedule.go: admitStraddle,
-- admitWindow).
use pbt_devnet.Prelude.{
  ℕ, ◌+◌, ◌≤◌, ◌≡◌, refl, ◌≢◌, Bool, true, false, List, [], ◌∷◌, arith, Result, ok, refuse_if, ◌>>◌,
}
use pbt_devnet.Schedule.{Op, latest}
use pbt_devnet.Schedule.Topology.{Float64, Topology}
use pbt_devnet.Schedule.Admission.{admit_window, admit_straddle, not_single_light}

pub record IsWindow (fork anchor : ℕ) (o : Op) : Type 0 where
  pub victim : ℕ
  pub single : o.victims ≡ victim ∷ []
  pub not_anchor : victim ≢ anchor
  pub long_enough : o.start + 60 ≤ o.end
  pub short_enough : o.end ≤ o.start + 180
  pub opens : fork + 300 ≤ o.start
  pub closes : o.end ≤ fork + 480

single_light :
    (vs : List ℕ) (anchor : ℕ)
    → not_single_light vs anchor ≡ false
    → (v : ℕ) × (vs ≡ v ∷ []) × (v ≢ anchor)
unfolding not_single_light
single_light [] anchor h = cc
single_light (v ∷ []) anchor h = (v, refl, ground arith)
single_light (v ∷ w ∷ vs) anchor h = cc

-- A guard that lets the rest run was false.
pub refuse_if-ok :
    {E : Type 0} (b : Bool) (e : E) (rest : Result E (Unit {0}))
    → (refuse_if b e >> rest) ≡ ok tt
    → (b ≡ false) × (rest ≡ ok tt)
refuse_if-ok true e rest h = cc
refuse_if-ok false e rest h = (refl, h)

pub admit_window-IsWindow :
    (fork anchor : ℕ) (o : Op) → admit_window fork anchor o ≡ ok tt → IsWindow fork anchor o
unfolding admit_window
admit_window-IsWindow fork anchor o h =
    let (one, h1) = refuse_if-ok (not_single_light o.victims anchor) _ _ h in
    let (v, e, n) = single_light o.victims anchor one in
    record {
      victim = v;
      single = e;
      not_anchor = n;
      long_enough = ground arith;
      short_enough = ground arith;
      opens = ground arith;
      closes = ground arith;
    }

IsWindow-admit_window :
    (fork anchor : ℕ) (o : Op) → IsWindow fork anchor o → admit_window fork anchor o ≡ ok tt
unfolding admit_window
IsWindow-admit_window fork anchor o w = rw w.single (ground arith)

-- What the times of an admitted straddle satisfy, and who it isolates.
pub record IsStraddle (fork : ℕ) (o : Op) : Type 0 where
  pub islands : o.mutual_islands ≡ true
  pub some_island : o.victims ≢ []
  pub sets_up : o.start + 60 ≤ fork
  pub crosses : fork + 60 ≤ o.end
  pub released : latest o ≤ fork + 180

module _ (fl : Float64) where
  pub admit_straddle-IsStraddle :
      (fork : ℕ) (topo : Topology fl.F) (o : Op)
      → admit_straddle fl fork topo o ≡ ok tt
      → IsStraddle fork o
  unfolding admit_straddle
  admit_straddle-IsStraddle fork topo o h = ground arith
