-- ===== src/Collector/Cycle.antt =====
-- A whole cycle keeps what its obligations say.
use scrinium.Base.{
  ℕ, ◌≤◌, Text, Bool, true, false, Option, none, List, [], ◌∷◌, ◌≡◌, refl, ◌⊎◌, inl, inr, arith,
  All, Bool-cases, Option-cases,
}
use scrinium.Layout.{LayoutError, ref_from_path}
use scrinium.Index.{find_blob}
use scrinium.Collector.{
  World, Error, turn, ctx_err, mark_tombstone, is_tombstone, resolve, list_files, mark,
  collect_unknown, mark_unknown, reconcile_media, run_cycle, count_marked, unknown_by, already,
  add_if,
}
use scrinium.Collector.Loops.{ctx_err-Keeps, for_each-Keeps, rows, ends_at}
use scrinium.Collector.Passes.{
  Obligations, Kept, Good, alive-Kept, counted, turned, then-Kept, Kept-Good, idle,
  mark_tombstone-Kept, is_tombstone-Kept, resolve-Kept,
}
use scrinium.Collector.Orphans.{act-Kept, mark-Kept, sweep-Kept}

parse-cases :
    (r : LayoutError ⊎ Text) → ((e : LayoutError) × (r ≡ inl e)) ⊎ ((ref : Text) × (r ≡ inr ref))
parse-cases (inl e) = inl (e, refl)
parse-cases (inr ref) = inr (ref, refl)

module _ (grace bound : ℕ) (o : Obligations grace bound) where
  -- A path whose reference the index does not know.
  abbrev IsUnknown : World → Text → Type 0
  IsUnknown w p = (ref : Text) × (ref_from_path p ≡ inr ref) × (find_blob ref (rows w) ≡ none)

  IsUnknown-stable :
      (u v : World) (p : Text) → Kept grace bound o u v → IsUnknown u p → IsUnknown v p
  IsUnknown-stable u v p k (ref, e, n) = (
    ref,
    e,
    (elim (Option-cases (find_blob ref (rows v))) [
      | inl gone ↦ gone
      | inr (b, f) ↦ ground (arith, n, k.shrinks ref b f)
    ]),
  )

  resolve_missing :
      (r : Text) (w : World)
      → unknown_by (resolve r w).0 ≡ true
      → find_blob r (rows (resolve r w).1) ≡ none
  unfolding resolve
  resolve_missing r w h = elim (Option-cases (turn w).0) [
    | inr (e, f) ↦ ground (arith, h, f)
    | inl n ↦ (elim (Option-cases (find_blob r (rows (turn w).1))) [
      | inl e ↦ ground (arith, n, e)
      | inr (b, e) ↦ ground (arith, h, n, e)
    ])
  ]

  -- What the listing's callback has done so far.
  abbrev Collected : World → (List Text × Option Error) × World → Type 0
  Collected w q = Kept grace bound o w q.1 × All (IsUnknown q.1) q.0.0

  Collected-after :
      (u v : World) (q : (List Text × Option Error) × World)
      → Kept grace bound o u v
      → Collected v q
      → Collected u q
  Collected-after u v q k c = (then-Kept grace bound o u v q.1 k c.0, c.1)

  added :
      (w : World) (unknown : Bool) (p : Text) (q : (List Text × Option Error) × World)
      → (unknown ≡ true → IsUnknown q.1 p)
      → Collected w q
      → Collected w (add_if unknown p q)
  added w false p q i c = c
  added w true p ((found, e), v) i c = (c.0, (i refl, c.1))

  collect-Collected :
      (ps : List Text) (w : World) → Good grace bound o w → Collected w (collect_unknown ps w)
  unfolding collect_unknown
  collect-Collected [] w g = (idle grace bound o w g, tt)
  collect-Collected (p ∷ ps) w g =
      let first = ctx_err-Keeps o.Q o.Q_refl o.Q_trans w g in
      let v : World = (ctx_err w).1 in
      let good = Kept-Good grace bound o w v first in
      elim (Option-cases (ctx_err w).0) [
        | inr (e, c) ↦ rw (collect_unknown, c) (first, tt)
        | inl c ↦ elim (parse-cases (ref_from_path p)) [
          | inl (e, r) ↦
              rw (collect_unknown, c, r)
                (Collected-after w v (collect_unknown ps v) first (collect-Collected ps v good))
          | inr (ref, r) ↦
              let second = resolve-Kept grace bound o ref v good in
              let u : World = (resolve ref v).1 in
              let rest = collect-Collected ps u (Kept-Good grace bound o v u second) in
              rw (collect_unknown, c, r)
                (added w (unknown_by (resolve ref v).0) p (collect_unknown ps u)
                  (λ n.
                    IsUnknown-stable u (collect_unknown ps u).1 p rest.0
                      (ref, r, resolve_missing ref v n))
                  (Collected-after w u (collect_unknown ps u)
                    (then-Kept grace bound o w v u first second) rest))
        ]
      ]

  mark_unknown-Kept :
      (p : Text) (w : World)
      → Good grace bound o w
      → IsUnknown w p
      → Kept grace bound o w (mark_unknown p w).1
  unfolding mark_unknown
  mark_unknown-Kept p w g h = alive-Kept grace bound o w _ g (λ v k gv.
      let second = is_tombstone-Kept grace bound o p v gv in
      let u : World = (is_tombstone p v).1 in
      let gu = Kept-Good grace bound o v u second in
      let (ref, e, n) = IsUnknown-stable w u p (then-Kept grace bound o w v u k second) h in
      elim (Bool-cases (already (is_tombstone p v).0)) [
        | inl y ↦ rw y second
        | inr y ↦ rw y (
            then-Kept grace bound o v u _ second (
              act-Kept grace bound o u (mark_tombstone p u) (λ _. count_marked)
                (mark_tombstone-Kept grace bound o p u gu (λ t. o.unknowns u.site t p ref e n))
                (λ a x ga. counted grace bound o (mark_tombstone p u).1 _ _ ga)))
      ])

  list_files-Kept : (w : World) → Good grace bound o w → Kept grace bound o w (list_files w).1
  unfolding list_files
  list_files-Kept w g = turned grace bound o w g

  reconcile_media-Kept :
      (complete : Bool) (w : World)
      → Good grace bound o w
      → Kept grace bound o w (reconcile_media complete w).1
  unfolding reconcile_media
  reconcile_media-Kept false w g = idle grace bound o w g
  reconcile_media-Kept true w g =
      let first = list_files-Kept w g in
      let v : World = (list_files w).1 in
      let ps : List Text = (list_files w).0.0 in
      let found = collect-Collected ps v (Kept-Good grace bound o w v first) in
      let q : (List Text × Option Error) × World = collect_unknown ps v in
      let both = then-Kept grace bound o w v q.1 first found.0 in
      let good = Kept-Good grace bound o w q.1 both in
      elim (Option-cases q.0.1) [
        | inr (e, c) ↦ rw (reconcile_media, c) both
        | inl c ↦ (elim (Option-cases (list_files w).0.1) [
          | inr (e, l) ↦ rw (reconcile_media, c, l) both
          | inl l ↦
              rw (reconcile_media, c, l)
                (then-Kept grace bound o w q.1 _ both (
                  for_each-Keeps o.Q o.Q_refl o.Q_trans IsUnknown mark_unknown
                    (λ u x p k. IsUnknown-stable u x p k) (λ p u gu h. mark_unknown-Kept p u gu h)
                    q.0.0 q.1 good found.1))
        ])
      ]

  -- A cycle whose schedule ends by `bound` keeps what the obligations say, whatever its calls answer.
  pub run_cycle-Kept :
      (complete : Bool) (w : World)
      → ends_at w ≤ bound
      → Good grace bound o w
      → Kept grace bound o w (run_cycle grace complete w).1
  unfolding run_cycle
  run_cycle-Kept complete w l g = alive-Kept grace bound o w _ g (λ v k gv.
      let first = mark-Kept grace bound o v gv in
      let w1 : World = (mark v).1 in
      let second = reconcile_media-Kept complete w1 (Kept-Good grace bound o v w1 first) in
      let w2 : World = (reconcile_media complete w1).1 in
      let both = then-Kept grace bound o v w1 w2 first second in
      let good = Kept-Good grace bound o v w2 both in
      let t = turned grace bound o w2 good in
      then-Kept grace bound o v w2 _ both
        (sweep-Kept grace bound o w2 (omega (arith, l, k.ends, both.ends, t.ends)) good))
