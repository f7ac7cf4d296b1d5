-- ===== src/Schedule/Resolve/Stakes.antt =====
-- The stakes that the ops of a resolved schedule isolate (internal/migsched/schedule.go: admitDeep,
-- admitStraddle, Resolve).
use pbt_devnet.Prelude.{
  ℕ, ◌+◌, ◌-◌, ◌/◌, ◌≡◌, refl, ◌≢◌, sym, ap, ◌∙◌, ◌⊎◌, inl, inr, false, List, [], ◌∷◌, arith,
  length, ◌==◌, ok, All, Bool-cases, if◌then◌else◌,
}
use mathlib.Core.Path.{ap₂}
use pbt_devnet.Schedule.{deep, straddle, Op, latest, straddle_max_drop}
use pbt_devnet.Schedule.Topology.{Float64, Topology, share}
use pbt_devnet.Schedule.Admission.{island_share, worst_share, admit_straddle}

module _ (fl : Float64) (topo : Topology fl.F) where
  open fl use {F, of_nat, ratio, add, sub, mul, div, lt, le}

  -- What is not the anchor's stake, shared by the other participants.
  abbrev pub light_stake : F
  light_stake = div (sub (of_nat 1) topo.anchor_share) (of_nat (topo.participants - 1))

  -- The stake of a light, if it is more than none.
  abbrev pub light_loss : F
  light_loss = if lt (of_nat 0) light_stake then light_stake else of_nat 0

  -- Two lights that are cut off together hold more than a third of the stake and less than half. While
  -- every light is on its own, the anchor has less than two thirds, and five parts in a hundred more
  -- than a light, and a light that is away until the end of the hold loses no more than the drop.
  pub record IsWeighed (o : Op) : Type 0 where
    pub deep_pair : o.class ≡ deep → length o.victims ≡ 2
    pub deep_more :
        o.class ≡ deep → le (add (add (of_nat 0) light_stake) light_stake) (ratio 1 3) ≡ false
    pub deep_less :
        o.class ≡ deep → le (ratio 1 2) (add (add (of_nat 0) light_stake) light_stake) ≡ false
    pub anchor_less : o.class ≡ straddle → le (ratio 2 3) topo.anchor_share ≡ false
    pub anchor_more :
        o.class ≡ straddle → lt topo.anchor_share (add light_loss (ratio 5 100)) ≡ false
    pub drops :
        o.class ≡ straddle
        → lt (of_nat 24) (mul (of_nat ((o.end + 120 - o.start) / topo.seconds_per_slot)) light_loss)
          ≡ false

  abbrev IsApart : List ℕ → Type 0
  IsApart = All (λ l. (l == topo.anchor) ≡ false)

  share-light : (v : ℕ) → (v == topo.anchor) ≡ false → share fl topo v ≡ light_stake
  unfolding share
  share-light v e = rw e refl

  pub share-anchor : share fl topo topo.anchor ≡ topo.anchor_share
  unfolding share
  share-anchor = ground arith

  pub island-pair :
      (a b : ℕ)
      → (a == topo.anchor) ≡ false
      → (b == topo.anchor) ≡ false
      → island_share fl topo (of_nat 0) (a ∷ b ∷ []) ≡ add (add (of_nat 0) light_stake) light_stake
  unfolding island_share
  island-pair a b e f = ap₂ (λ x y. add (add (of_nat 0) x) y) (share-light a e) (share-light b f)

  -- A worst share that is no less than a light's stays.
  worst-still :
      (w : F) (vs : List ℕ)
      → (lt w light_stake ≡ false) ⊎ (w ≡ light_stake)
      → IsApart vs
      → worst_share fl topo w vs ≡ w
  unfolding worst_share
  worst-still w [] k h = refl
  worst-still w (v ∷ vs) k h =
      ap (λ z. worst_share fl topo z vs)
        (ap (λ s. if lt w s then s else w) (share-light v h.0) ∙ stays k)
      ∙ worst-still w vs k h.1
    where
      stays :
          (lt w light_stake ≡ false) ⊎ (w ≡ light_stake)
          → (if lt w light_stake then light_stake else w) ≡ w
      stays (inl e) = rw e refl
      stays (inr e) = elim (Bool-cases (lt w light_stake)) [
        | inl l ↦ rw l (sym e)
        | inr l ↦ rw l refl
      ]

  pub worst-lights :
      (vs : List ℕ) → vs ≢ [] → IsApart vs → worst_share fl topo (of_nat 0) vs ≡ light_loss
  unfolding worst_share
  worst-lights [] n h = absurd (n refl)
  worst-lights (v ∷ vs) n h =
      ap (λ s. worst_share fl topo (if lt (of_nat 0) s then s else of_nat 0) vs) (share-light v h.0)
      ∙ worst-still light_loss vs settled h.1
    where
      settled : (lt light_loss light_stake ≡ false) ⊎ (light_loss ≡ light_stake)
      settled = elim (Bool-cases (lt (of_nat 0) light_stake)) [
        | inl e ↦ inr (rw e refl)
        | inr e ↦ inl (rw (e, e) refl)
      ]

  -- What the tests of a straddle were.
  pub admit_straddle-stakes :
      (fork : ℕ) (o : Op)
      → admit_straddle fl fork topo o ≡ ok tt
      → let worst = worst_share fl topo (of_nat 0) o.victims in
        (le (ratio 2 3) (share fl topo topo.anchor) ≡ false)
        × (lt (share fl topo topo.anchor) (add worst (ratio 5 100)) ≡ false)
        × (lt
              (of_nat straddle_max_drop)
              (mul (of_nat ((latest o - o.start) / topo.seconds_per_slot)) worst)
            ≡ false)
  unfolding admit_straddle
  admit_straddle-stakes fork o h = (ground arith, ground arith, ground arith)
