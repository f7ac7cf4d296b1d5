-- ===== src/Compare/Once.antt =====
-- Findings of the comparison, and their repetition (compare.go: reportDissent).
use pbt_devnet.Prelude.{
  ℕ, ◌≤◌, ◌≡◌, refl, sym, ap, ◌∙◌, ◌⊎◌, inl, inr, String, Bool, true, false, Option, none, some,
  List, [], ◌∷◌, ltb, ==_iff, length, if◌then◌else◌, All, All-append, All-of_members, Some,
  Some-map, arith,
}
use pbt_devnet.Migmon.{Event}
use pbt_devnet.Compare.{
  CompareRow, CompareView, Verdict, header_dissent, istar_dissent, shadow_dissent, fork, partial,
  absent, fine,
}
use pbt_devnet.Compare.Report.{
  Key, key_eq, was_fired, worth, finding_of, fire, report_row, report_rows, report_dissent,
}

module _ (name : ℕ → String) (v : CompareView) where
  -- A row that is worth no finding, or whose finding has been made.
  abbrev Done : List Key → CompareRow → Type 0
  Done fired r = (k : Bool) → worth r ≡ some k → was_fired (r.node, v.height, k) fired ≡ true

  -- A finding of this view for a row that is not expected to differ.
  abbrev pub IsFound : Event → Type 0
  IsFound e =
      Some
        (λ r.
          (r.expected ≡ false)
          × (((r.verdict ≡ header_dissent) × (e ≡ finding_of name v r true))
              ⊎ ((r.verdict ≡ istar_dissent) × (e ≡ finding_of name v r false))))
        v.rows

  fired_grows :
      (k : Key) (r : CompareRow) (fired : List Key) (out : List Event)
      → was_fired k fired ≡ true
      → was_fired k (report_row name v r (fired, out)).0 ≡ true
  unfolding report_row
  fired_grows k r fired out h = by_worth (worth r)
    where
      by_test : (j : Key) (e : Event) (t : Bool) → was_fired k (fire t j e (fired, out)).0 ≡ true
      by_test j e true = h
      by_test j e false = unfold was_fired in ground (arith, h)

      by_worth :
          (o : Option Bool)
          → let it : List Key × List Event = elim o [
            | none ↦ (fired, out)
            | some w ↦
                fire
                  (was_fired (r.node, v.height, w) fired)
                  (r.node, v.height, w)
                  (finding_of name v r w)
                  (fired, out)
          ] in
            was_fired k it.0 ≡ true
      by_worth none = h
      by_worth (some w) = by_test _ _ (was_fired (r.node, v.height, w) fired)

  all_fired_grows :
      (k : Key) (rows : List CompareRow) (p : List Key × List Event)
      → was_fired k p.0 ≡ true
      → was_fired k (report_rows name v rows p).0 ≡ true
  unfolding report_rows
  all_fired_grows k [] p h = h
  all_fired_grows k (r ∷ rows) p h =
      all_fired_grows k rows (report_row name v r p) (fired_grows k r p.0 p.1 h)

  key_self : (k : Key) (fired : List Key) → was_fired k (k ∷ fired) ≡ true
  unfolding was_fired key_eq
  key_self (a, b, true) fired = ground (arith, ==_iff a a, ==_iff b b)
  key_self (a, b, false) fired = ground (arith, ==_iff a a, ==_iff b b)

  report_row-Done :
      (r : CompareRow) (fired : List Key) (out : List Event)
      → Done (report_row name v r (fired, out)).0 r
  unfolding report_row
  report_row-Done r fired out k e = rw (e, report_row) (by_test _ refl)
    where
      by_test :
          (t : Bool)
          → was_fired (r.node, v.height, k) fired ≡ t
          → was_fired
              (r.node, v.height, k)
              (fire t (r.node, v.height, k) (finding_of name v r k) (fired, out)).0
            ≡ true
      by_test true h = h
      by_test false h = key_self (r.node, v.height, k) fired

  report_rows-Done :
      (rows : List CompareRow) (p : List Key × List Event)
      → All (Done (report_rows name v rows p).0) rows
  unfolding report_rows
  report_rows-Done [] p = tt
  report_rows-Done (r ∷ rows) p = (
    λ k e.
        all_fired_grows (r.node, v.height, k) rows (report_row name v r p)
          (report_row-Done r p.0 p.1 k e),
    report_rows-Done rows (report_row name v r p),
  )

  report_row_again :
      (r : CompareRow) (fired : List Key) (out : List Event)
      → Done fired r
      → report_row name v r (fired, out) ≡ (fired, out)
  unfolding report_row
  report_row_again r fired out d = by_worth (worth r) refl
    where
      by_worth :
          (o : Option Bool)
          → worth r ≡ o
          → let it : List Key × List Event = elim o [
            | none ↦ (fired, out)
            | some w ↦
                fire
                  (was_fired (r.node, v.height, w) fired)
                  (r.node, v.height, w)
                  (finding_of name v r w)
                  (fired, out)
          ] in
            it ≡ (fired, out)
      by_worth none e = refl
      by_worth (some w) e = rw (d w e) refl

  report_rows_again :
      (rows : List CompareRow) (fired : List Key) (out : List Event)
      → All (Done fired) rows
      → report_rows name v rows (fired, out) ≡ (fired, out)
  unfolding report_rows
  report_rows_again [] fired out d = refl
  report_rows_again (r ∷ rows) fired out d =
      rw (report_row_again r fired out d.0) (report_rows_again rows fired out d.1)

  -- A table that is reported again gives no finding again, as long as its keys were kept.
  pub report_dissent_once :
      (fired : List Key)
      → length (report_rows name v v.rows (fired, [])).0 ≤ 4096
      → report_dissent name v (report_dissent name v fired).0
        ≡ ((report_dissent name v fired).0, [])
  unfolding report_dissent
  report_dissent_once fired few =
      let kept : ltb 4096 (length (report_rows name v v.rows (fired, [])).0) ≡ false =
        ground arith in
      rw kept (
        rw
          (report_rows_again v.rows (report_rows name v v.rows (fired, [])).0 []
            (report_rows-Done v.rows (fired, [])))
          (rw kept refl))

  worth_found :
      (r : CompareRow) (k : Bool)
      → worth r ≡ some k
      → (r.expected ≡ false)
        × (((r.verdict ≡ header_dissent) × (k ≡ true))
            ⊎ ((r.verdict ≡ istar_dissent) × (k ≡ false)))
  unfolding worth
  worth_found r k h = by_fields r.expected refl r.verdict refl h
    where
      by_fields :
          (x : Bool)
          → r.expected ≡ x
          → (w : Verdict) → r.verdict ≡ w
          → let it : Option Bool =
              if x
              then none
              else elim w [ header_dissent ↦ some true | istar_dissent ↦ some false | _ ↦ none ] in
            it ≡ some k
            → (x ≡ false)
              × (((w ≡ header_dissent) × (k ≡ true)) ⊎ ((w ≡ istar_dissent) × (k ≡ false)))
      by_fields true ex w ew h = absurd (cc)
      by_fields false ex header_dissent ew h = (refl, inl (refl, ground (arith, h)))
      by_fields false ex istar_dissent ew h = (refl, inr (refl, ground (arith, h)))
      by_fields false ex shadow_dissent ew h = absurd (cc)
      by_fields false ex fork ew h = absurd (cc)
      by_fields false ex partial ew h = absurd (cc)
      by_fields false ex absent ew h = absurd (cc)
      by_fields false ex fine ew h = absurd (cc)

  Worthy : CompareRow → Type 0
  Worthy r = (k : Bool) → worth r ≡ some k → IsFound (finding_of name v r k)

  row-Worthy : (r : CompareRow) → Some (λ y. y ≡ r) v.rows → Worthy r
  unfolding Worthy
  row-Worthy r member k e =
      let (unexpected, kinds) = worth_found r k e in
      Some-map _ _
        (λ y same. (
          ap (λ z. z.expected) same ∙ unexpected,
          elim kinds [
            | inl (is, of) ↦ inl (ap (λ z. z.verdict) same ∙ is, ap_row r y k true (sym same) of)
            | inr (is, of) ↦ inr (ap (λ z. z.verdict) same ∙ is, ap_row r y k false (sym same) of)
          ],
        ))
        v.rows member
    where
      ap_row :
          (a b : CompareRow) (j i : Bool)
          → a ≡ b
          → j ≡ i
          → finding_of name v a j ≡ finding_of name v b i
      ap_row a b j i p q = cc

  one_row :
      (r : CompareRow) (fired : List Key) (out : List Event)
      → Worthy r
      → All IsFound out
      → All IsFound (report_row name v r (fired, out)).1
  unfolding report_row Worthy
  one_row r fired out w h = by_worth (worth r) refl
    where
      by_test :
          (t : Bool) (j : Key) (e : Event) → IsFound e → All IsFound (fire t j e (fired, out)).1
      by_test true j e found = h
      by_test false j e found = All-append IsFound out (e ∷ []) h (found, tt)

      by_worth :
          (o : Option Bool)
          → worth r ≡ o
          → let it : List Key × List Event = elim o [
            | none ↦ (fired, out)
            | some k ↦
                fire
                  (was_fired (r.node, v.height, k) fired)
                  (r.node, v.height, k)
                  (finding_of name v r k)
                  (fired, out)
          ] in
            All IsFound it.1
      by_worth none e = h
      by_worth (some k) e = by_test _ _ _ (w k e)

  report_rows-IsFound :
      (rows : List CompareRow) (p : List Key × List Event)
      → All Worthy rows
      → All IsFound p.1
      → All IsFound (report_rows name v rows p).1
  unfolding report_rows
  report_rows-IsFound [] p w h = h
  report_rows-IsFound (r ∷ rows) p w h =
      report_rows-IsFound rows (report_row name v r p) w.1 (one_row r p.0 p.1 w.0 h)

  -- Every finding of the comparison is of a row that is not expected to differ, and whose verdict is
  -- a dissent on the header or on the fork block.
  pub report_dissent-IsFound : (fired : List Key) → All IsFound (report_dissent name v fired).1
  unfolding report_dissent
  report_dissent-IsFound fired =
      report_rows-IsFound v.rows (fired, []) (All-of_members Worthy v.rows row-Worthy) tt
