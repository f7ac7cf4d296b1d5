-- ===== src/Lifecycle.antt =====
-- The steps of the offline migration, as the monitor keeps them
-- (cmd/migration-monitor/lifecycle.go). The JSON decoders are parameters; the lock makes every
-- operation one step. The clock is read in whole seconds.
pub mod Steps
pub mod Seed
use pbt_devnet.Prelude.{
  ℕ, zero, suc, ◌+◌, String, Bool, true, false, not, ◌&&◌, ◌||◌, Option, none, some, List, [], ◌∷◌,
  ◌++◌, ltb, leb, ◌==◌, str_eq, some_of, length, max, Result, ok, err, if◌then◌else◌,
}
use pbt_devnet.Prelude.Maps.{Map, lookup, store, erase, has_key, get_or, nat_key}
use pbt_devnet.Migmon.{MigrationProgress, DirectionProgress, u64}

-- What a step says: a pushed text, or the cursor and the tip that it was derived from.
pub data Said : Type 0 where
  text : String → Said
  cursor_at : (cursor tip : ℕ) → Said

pub record Lifecycle : Type 0 where
  pub producer : Bool
  pub producer_step : String
  pub importer : String
  pub reason : String
  pub since : ℕ
  pub anchor : ℕ
  pub hash : String
  pub detail : Said

abbrev pub no_lifecycle : Lifecycle
no_lifecycle = record {
  producer = false;
  producer_step = "";
  importer = "";
  reason = "";
  since = 0;
  anchor = 0;
  hash = "";
  detail = text "";
}

-- The names of the participants, 1 first, are kept by their number.
pub record Offline : Type 0 where
  pub participants : ℕ
  pub nodes : Map ℕ Lifecycle
  pub swaps : List ℕ
  pub source : Map ℕ ℕ
  pub reset : Map ℕ Bool

unfoldable pub is_producer_step : String → Bool
is_producer_step s = str_eq s "exporting" || str_eq s "exported" || str_eq s "export_failed"

unfoldable pub is_consumer_step : String → Bool
is_consumer_step s =
    some_of (λ t. str_eq t s)
      ("pending" ∷ "disconnecting" ∷ "importing" ∷ "reconnecting" ∷ "replaying" ∷ "caught_up"
        ∷ "failed" ∷ "timeout" ∷ "skipped" ∷ [])

-- The swap's own doing: the node is down or rewound.
unfoldable pub is_quiet_step : String → Bool
is_quiet_step s =
    str_eq s "disconnecting"
    || str_eq s "importing"
    || str_eq s "reconnecting"
    || str_eq s "replaying"

-- `o.node(n)`, a record made where there is none.
abbrev pub node_of : ℕ → Offline → Lifecycle
node_of n o = get_or no_lifecycle (lookup n o.nodes)

unfoldable pub anchor_of : ℕ → Offline → ℕ × String
anchor_of n o =
    let own = node_of n o in
    if not (own.anchor == 0)
    then (own.anchor, own.hash)
    else elim (lookup (get_or 0 (lookup n o.source)) o.nodes) [
      | none ↦ (0, "")
      | some p ↦ (p.anchor, p.hash)
    ]

-- An event of a lifecycle: the node, its step, the anchor, and what the step says.
pub record Pushed : Type 0 where
  pub node : ℕ
  pub step : String
  pub number : ℕ
  pub hash : String
  pub detail : Said

unfoldable pub emit : (n : ℕ) → (step : String) → Said → Offline → Pushed
unfolding anchor_of
emit n step detail o =
    let at = anchor_of n o in
    record { node = n; step = step; number = at.0; hash = at.1; detail = detail }

pub data StepError : Type 0 where
  unknown_node : ℕ → StepError
  unknown_step : String → StepError

-- A pushed anchor is kept; 0 is none.
unfoldable pub with_anchor : (anchor : ℕ) → (hash : String) → Lifecycle → Lifecycle
with_anchor anchor hash lc = if anchor == 0 then lc else record lc { anchor = anchor; hash = hash }

unfoldable pub with_step : (step : String) → Lifecycle → Lifecycle
with_step step lc =
    if is_producer_step step
    then record lc { producer = true; producer_step = step }
    else record lc { importer = step }

unfoldable pub is_fresh_start : (step : String) → Lifecycle → Bool
is_fresh_start step lc =
    not (is_producer_step step) && (str_eq step "reconnecting" && not (str_eq lc.importer step))

-- `apply` behind its two tests.
unfoldable pub record_step :
    (now n : ℕ) → (step : String) → (anchor : ℕ) → (hash detail : String) → Offline → Offline
unfolding with_anchor with_step is_fresh_start
record_step now n step anchor hash detail o =
    let lc = with_anchor anchor hash (node_of n o) in
    record o {
      nodes = store n (record (with_step step lc) { since = now; detail = text detail }) o.nodes;
      reset = if is_fresh_start step lc then store n true o.reset else o.reset;
    }

unfoldable pub apply :
    (now n : ℕ)
    → (step : String) → (anchor : ℕ) → (hash detail : String) → Offline
    → Result StepError (Offline × Pushed)
unfolding record_step emit
apply now n step anchor hash detail o =
    if ltb n 1 || ltb o.participants n
    then err (unknown_node n)
    else if not (is_producer_step step) && not (is_consumer_step step)
    then err (unknown_step step)
    else let next = record_step now n step anchor hash detail o in
      ok (next, emit n step (text detail) next)

-- The operations that a monitor without an offline lap has too.
unfoldable pub take_reset : ℕ → Option Offline → Bool × Option Offline
take_reset n none = (false, none)
take_reset n (some o) =
    (get_or false (lookup n o.reset), some (record o { reset = erase n o.reset }))

unfoldable pub quiet : ℕ → Option Offline → Bool
unfolding is_quiet_step
quiet n none = false
quiet n (some o) = elim (lookup n o.nodes) [
  | none ↦ false
  | some lc ↦ is_quiet_step lc.importer || str_eq lc.producer_step "exporting"
]

-- What the collector has of a node: its last report and its last head.
pub record NodeReading : Type 0 where
  pub progress : Option MigrationProgress
  pub head : Option ℕ

abbrev pub caught_up_lag : ℕ
caught_up_lag = 2

-- The step that a cursor and a tip show.
unfoldable pub derived_step : (cursor tip : ℕ) → String
derived_step cursor tip =
    if ltb (u64 (cursor + caught_up_lag)) tip then "replaying" else "caught_up"

unfoldable pub may_derive : ℕ → Lifecycle → Offline → Bool
may_derive n lc o =
    not (get_or false (lookup n o.reset))
    && (str_eq lc.importer "reconnecting" || str_eq lc.importer "replaying")

-- `derive` behind its reads.
unfoldable pub derive_from : (now n cursor tip : ℕ) → Lifecycle → Offline → Offline × List Pushed
unfolding derived_step may_derive emit
derive_from now n cursor tip lc o =
    let step = derived_step cursor tip in
    let next = record o {
      nodes =
          store n (record lc { importer = step; since = now; detail = cursor_at cursor tip })
            o.nodes;
    } in
    if not (may_derive n lc o) || str_eq step lc.importer
    then (o, [])
    else (next, emit n step (cursor_at cursor tip) next ∷ [])

unfoldable pub derive : (now n : ℕ) → NodeReading → (tip : ℕ) → Offline → Offline × List Pushed
unfolding derive_from
derive now n r tip o = elim r.progress [
  | none ↦ (o, [])
  | some p ↦ elim p.binary [
    | none ↦ (o, [])
    | some d ↦ elim r.head [
      | none ↦ (o, [])
      | some head ↦ elim (lookup n o.nodes) [
        | none ↦ (o, [])
        | some lc ↦ derive_from now n d.cursor (max head tip) lc o
      ]
    ]
  ]
]

pub record AnchorMark : Type 0 where
  pub node : ℕ
  pub number : ℕ
  pub hash : String

pub record SwapView : Type 0 where
  pub node : ℕ
  pub producer : ℕ
  pub importer : String
  pub anchor : ℕ
  pub step_since : ℕ

-- The marks of the producers from a participant up, `left` of them.
unfoldable pub anchor_marks : (left n : ℕ) → Offline → List AnchorMark
anchor_marks zero n o = []
anchor_marks (suc left) n o =
    let rest = anchor_marks left (suc n) o in
    elim (lookup n o.nodes) [
      | none ↦ rest
      | some lc ↦
          if lc.producer && not (lc.anchor == 0)
          then record { node = n; number = lc.anchor; hash = lc.hash } ∷ rest
          else rest
    ]

-- A consumer of the queue has had a record since `parseOffline`.
unfoldable pub swap_views : List ℕ → Offline → List SwapView
unfolding anchor_of
swap_views [] o = []
swap_views (n ∷ ns) o =
    record {
      node = n;
      producer = get_or 0 (lookup n o.source);
      importer = (node_of n o).importer;
      anchor = (anchor_of n o).0;
      step_since = (node_of n o).since;
    }
    ∷ swap_views ns o

unfoldable pub views : Option Offline → List AnchorMark × List SwapView
unfolding anchor_marks swap_views
views none = ([], [])
views (some o) = (anchor_marks o.participants 1 o, swap_views o.swaps o)
