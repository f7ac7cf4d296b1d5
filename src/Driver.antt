-- ===== src/Driver.antt =====
-- The chaos driver's calls (cmd/migration-chaos/main.go: execute and what it calls). All that it
-- does is kept in a trace, newest first; what lies outside (the clock, the signals, disruptoor, the
-- clients, the injector) answers each call as it likes, by the trace up to it. An interrupted run
-- stops; one whose hold has used up its fuel is stuck.
pub mod Hold
pub mod Execute
pub mod Neutral
pub mod Quiet
pub mod Parts
pub mod Flag
pub mod Verdict
pub mod Pairing
pub mod Held
pub mod Release
pub mod Plan
pub mod Starts
pub mod Clock
pub mod Crossing
pub mod Running
pub mod Finish
use pbt_devnet.Prelude.{
  ℕ, ◌+◌, ◌-◌, ◌≡◌, refl, String, Bool, true, false, Option, none, some, List, [], ◌∷◌, ltb, ◌==◌,
  str_eq, ◌&&◌, map, if◌then◌else◌,
}
use pbt_devnet.Schedule.{Class, Refusal, Op}
use pbt_devnet.Schedule.Topology.{others}
use pbt_devnet.Migmon.{Kind, warn, heal, Finding, no_finding}

abbrev pub Name : Type 0
Name = String × ℕ

-- What an event says.
pub data Note : Type 0 where
  refused : Option Refusal → Note
  deploy_failed partition_failed heal_failed failsafe_failed probe_failed repeer_failed : Note
  stale never_applied : Name → Note
  isolated : Class → (start end : ℕ) → Note
  crossed_fork window_closed never_crossed never_reached : Note
  waiting_for : List ℕ → Note
  outlived swept repeered complete : Note

-- The fields of an Event that the driver sets; `node` is a participant.
pub record Line : Type 0 where
  pub kind : Kind
  pub node : Option ℕ
  pub finding : Finding
  pub note : Note

-- A probe of an island: its error, or whether the victim crossed the fork on its own branch.
pub data Probe : Type 0 where
  unreachable : Probe
  answers : Bool → Probe

-- What the driver did, with the answer that it got.
pub data Act : Type 0 where
  slept : (until : ℕ) → (awake : Bool) → Act
  read_clock : ℕ → Act
  asked_partition : Name → List (List ℕ) → (done : Bool) → Act
  asked_clear : (done : Bool) → Act
  probed : (victim : ℕ) → Probe → Act
  deployed : (done : Bool) → Act
  wrote_split : Act
  asked_repeer : (done : Bool) → Act
  logged : Line → Act

abbrev pub Trace : Type 0
Trace = List Act

pub record World : Type 0 where
  pub awake : Trace → (until : ℕ) → Bool
  pub clock : Trace → ℕ
  pub partitions : Trace → Name → List (List ℕ) → Bool
  pub clears : Trace → Bool
  pub probes : Trace → ℕ → Probe
  pub deploys : Trace → Bool
  pub repeers : Trace → Bool

-- The variables of `execute`: the ops that disruptoor accepted, and whether the last heal worked.
pub record Run : Type 0 where
  pub trace : Trace
  pub applied : List Name
  pub healed : Bool

pub data Flow (A : Type 0) : Type 0 where
  next : A → Run → Flow A
  stop : Run → Flow A
  stuck : Flow A

abbrev pub Step : Type 0 → Type 0
Step A = Run → Flow A

infixl 5 ◌>>=◌ ◌>>◌
abbrev pub ◌>>=◌ : {A B : Type 0} → Step A → (A → Step B) → Step B
◌>>=◌ m f r = elim (m r) [ next a r' ↦ f a r' | stop r' ↦ stop r' | stuck ↦ stuck ]

abbrev pub ◌>>◌ : {B : Type 0} → Step (Unit {0}) → Step B → Step B
m >> k = m >>= λ _. k

abbrev pub give : {A : Type 0} → A → Step A
give a r = next a r

abbrev pub act : Act → Step (Unit {0})
act a r = next tt (record r { trace = a ∷ r.trace })

unfoldable pub log : Kind → Option ℕ → Finding → Note → Step (Unit {0})
log k node f note = act (logged (record { kind = k; node = node; finding = f; note = note }))

-- One event for each victim.
unfoldable pub log_all : Kind → (ℕ → Note) → List ℕ → Step (Unit {0})
log_all k note [] = give tt
log_all k note (v ∷ vs) = do log k (some v) no_finding (note v); log_all k note vs

unfoldable pub same_name : Name → Name → Bool
same_name a b = str_eq a.0 b.0 && a.1 == b.1

-- Every victim of a split op is an island of its own.
unfoldable pub alone : List ℕ → List (List ℕ)
alone [] = []
alone (v ∷ vs) = (v ∷ []) ∷ alone vs

unfoldable pub islands : (participants : ℕ) → Op → List (List ℕ)
unfolding alone
islands participants o =
    others participants o.victims ∷ (if o.mutual_islands then alone o.victims else o.victims ∷ [])

module _ (w : World) where
  unfoldable pub sleep_until : ℕ → Step Bool
  sleep_until t r =
      let awake = w.awake r.trace t in next awake (record r { trace = slept t awake ∷ r.trace })

  unfoldable pub now : Step ℕ
  now r = let t = w.clock r.trace in next t (record r { trace = read_clock t ∷ r.trace })

  unfoldable pub clear : Step Bool
  clear r =
      let done = w.clears r.trace in next done (record r { trace = asked_clear done ∷ r.trace })

  unfoldable pub partition : Name → List (List ℕ) → Step Bool
  partition name groups r =
      let done = w.partitions r.trace name groups in
      next done (record r { trace = asked_partition name groups done ∷ r.trace })

  unfoldable pub probe : ℕ → Step Probe
  probe v r = let p = w.probes r.trace v in next p (record r { trace = probed v p ∷ r.trace })

  unfoldable pub deploy : Step Bool
  deploy r =
      let done = w.deploys r.trace in next done (record r { trace = deployed done ∷ r.trace })

  abbrev pub halt : {A : Type 0} → Step A
  halt r = stop r

  -- A shutdown clears, and ends the run.
  unfoldable pub quit : {A : Type 0} → Step A
  unfolding clear
  quit = clear >>= λ _. halt

  -- `if !wait(t) { return false }`.
  unfoldable pub wait : ℕ → Step (Unit {0})
  unfolding sleep_until quit
  wait t = sleep_until t >>= λ awake. if awake then give tt else quit

  unfoldable pub ask_repeer : Step Bool
  ask_repeer r =
      let done = w.repeers r.trace in next done (record r { trace = asked_repeer done ∷ r.trace })

  unfoldable pub repeer : (participants : ℕ) → Step (Unit {0})
  unfolding ask_repeer log
  repeer participants =
      if ltb participants 2
      then give tt
      else (ask_repeer >>= λ done.
          if done
          then log heal none no_finding repeered
          else log warn none no_finding repeer_failed)
