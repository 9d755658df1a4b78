-- ===== src/Collector/Orphans.antt =====
-- The two passes over the orphan rows, mark and sweep, keep what the obligations say.
use scrinium.Base.{
  ℕ, zero, suc, ◌≤◌, Text, Bool, true, false, Option, none, some, List, [], ◌∷◌, ◌≡◌, refl, sym, ap,
  subst, ◌∙◌, inl, inr, arith, All, Bool-cases, Option-cases, if◌then◌else◌, lookup, take, erase,
}
use scrinium.Index.{BlobRow, find_blob, orphan_blobs}
use scrinium.Collector.{
  Site, File, with_markers, World, Result, ok, Error, Fault, turn, Pass, for_each, and_then, skip,
  mark_site, mark_tombstone, tombstone_info, remove_tombstone, list_orphan_blobs, listed,
  delete_orphan_blob, mark_one, mark, then_listing, sweep_one, sweep_marked, sweep, remove_blob,
  within_grace, count_marked, count_removed, count_scanned, Address,
}
use scrinium.Collector.Loops.{
  and_then-Keeps, for_each-Keeps, rows, IsOrphan, orphans-IsOrphan, All-map, turn_site,
}
use scrinium.Collector.Passes.{
  Obligations, Kept, Good, resolved-Kept, alive-Kept, StaysOrphan, StaysOrphan-stable, counted,
  turned, then-Kept, Kept-Good, idle, mark_tombstone-Kept, remove_tombstone-Kept,
  delete_orphan_blob-Kept, tombstone_info-Kept,
}

take-All : (P : Text → Type 0) (n : ℕ) (xs : List Text) → All P xs → All P (take n xs)
take-All P zero xs h = tt
take-All P (suc n) [] h = tt
take-All P (suc n) (x ∷ xs) h = (h.0, take-All P n xs h.1)

listed-All :
    (P : Text → Type 0) (xs : List Text) (f : Option (Fault × ℕ)) → All P xs → All P (listed xs f).0
listed-All P xs none h = h
listed-All P xs (some (e, n)) h = take-All P n xs h

listing_world : (p : Option Error × World) (l : Option Error) → (then_listing p l).1 ≡ p.1
listing_world (none, w) l = refl
listing_world (some e, w) l = refl

module _ (grace bound : ℕ) (o : Obligations grace bound) where
  -- An action whose failure the loop skips.
  pub act-Kept :
      {A : Type 0} (w : World) (p : Result A × World) (next : A → Pass)
      → Kept grace bound o w p.1
      → ((a : A) → p.0 ≡ ok a → Good grace bound o p.1 → Kept grace bound o p.1 (next a p.1).1)
      → Kept grace bound o w (and_then p skip next).1
  act-Kept w p next k n =
      let good = Kept-Good grace bound o w p.1 k in
      and_then-Keeps o.Q o.Q_refl o.Q_trans w p skip next k (λ e. idle grace bound o p.1 good)
        (λ a e. n a e good)

  mark_one-Kept :
      (r : Text) (w : World)
      → Good grace bound o w
      → StaysOrphan grace bound o w r
      → Kept grace bound o w (mark_one r w).1
  unfolding mark_one
  mark_one-Kept r w g h = alive-Kept grace bound o w _ g (λ v k gv.
      let first = counted grace bound o v _ v.deleted gv in
      let good = Kept-Good grace bound o v (count_scanned v) first in
      then-Kept grace bound o v (count_scanned v) _ first (
        resolved-Kept grace bound o r (count_scanned v)
          (λ addr u. and_then (mark_tombstone addr.path u) skip (λ _. count_marked)) good
          (StaysOrphan-stable grace bound o w v r k h)
          (λ addr u b gu f z p.
            act-Kept u (mark_tombstone addr.path u) (λ _. count_marked)
              (mark_tombstone-Kept grace bound o addr.path u gu (λ n.
                subst (λ t. o.Q u.site (mark_site t n u.site)) (sym p) (o.marks u.site n r b f z)))
              (λ a e ga. counted grace bound o (mark_tombstone addr.path u).1 _ _ ga))))

  orphan_stays : (w : World) (r : Text) → IsOrphan (rows w) r → StaysOrphan grace bound o w r
  orphan_stays w r (c, f, z) b h = ground (arith, f, z, h)

  -- A loop over the listed orphans.
  over_orphans :
      (w : World) (body : World → Text → Pass)
      → Good grace bound o w
      → ((r : Text) (u : World)
          → Good grace bound o u
          → StaysOrphan grace bound o u r
          → Kept grace bound o u (body (turn w).1 r u).1)
      → Kept grace bound o w
          (for_each
            (body (turn w).1)
            (listed (orphan_blobs (rows (turn w).1)) (turn w).0).0
            (turn w).1).1
  over_orphans w body g step =
      let first = turned grace bound o w g in
      let good = Kept-Good grace bound o w (turn w).1 first in
      then-Kept grace bound o w (turn w).1 _ first (
        for_each-Keeps o.Q o.Q_refl o.Q_trans (StaysOrphan grace bound o) (body (turn w).1)
          (λ u v x k. StaysOrphan-stable grace bound o u v x k) step _ (turn w).1 good
          (listed-All (StaysOrphan grace bound o (turn w).1) (orphan_blobs (rows (turn w).1))
            (turn w).0
            (All-map (IsOrphan (rows (turn w).1)) (StaysOrphan grace bound o (turn w).1) _
              (orphan_stays (turn w).1) (orphans-IsOrphan (rows (turn w).1) good.keyed))))

  pub mark-Kept : (w : World) → Good grace bound o w → Kept grace bound o w (mark w).1
  unfolding mark list_orphan_blobs
  mark-Kept w g =
      subst (Kept grace bound o w) (sym (listing_world _ _))
        (over_orphans w (λ v. mark_one) g (λ r u. mark_one-Kept r u))

  -- The marker that TombstoneInfo saw.
  marker_seen :
      (p : Text) (w : World) (since : ℕ)
      → (tombstone_info p w).0 ≡ ok (some since)
      → (f : File) × (lookup p (tombstone_info p w).1.site.markers ≡ some f) × (f.mtime ≡ since)
  unfolding tombstone_info
  marker_seen p w since h = elim (Option-cases (turn w).0) [
    | inr (e, f) ↦ ground (arith, h, f)
    | inl n ↦ (elim (Option-cases (lookup p (turn w).1.site.markers)) [
      | inl e ↦ ground (arith, h, n, e)
      | inr (f, e) ↦ (f, ground (arith, n, e), ground (arith, h, n, e))
    ])
  ]

  info_site : (p : Text) (w : World) → (tombstone_info p w).1.site ≡ (turn w).1.site
  unfolding tombstone_info
  info_site p w = elim (Option-cases (turn w).0) [
    | inl e ↦ ground (arith, e)
    | inr (e, f) ↦ ground (arith, f)
  ]

  removed_if :
      (r : Text) (size : ℕ) (removed : Bool) (w : World)
      → Good grace bound o w
      → Kept grace bound o w (if removed then count_removed r size w else (none, w)).1
  removed_if r size true w g = counted grace bound o w _ _ g
  removed_if r size false w g = idle grace bound o w g

  remove_blob-Kept :
      (r : Text) (addr : Address) (w : World)
      → Good grace bound o w
      → o.Q w.site (with_markers (erase addr.path w.site.markers) w.site)
      → Kept grace bound o w (remove_blob r addr w).1
  unfolding remove_blob
  remove_blob-Kept r addr w g q =
      act-Kept w (remove_tombstone addr.path w) _
        (remove_tombstone-Kept grace bound o addr.path w g q)
        (λ a e gv.
          act-Kept (remove_tombstone addr.path w).1
            (delete_orphan_blob r (remove_tombstone addr.path w).1) _
            (delete_orphan_blob-Kept grace bound o r (remove_tombstone addr.path w).1 gv)
            (λ removed e' gu. removed_if r addr.size removed _ gu))

  sweep_marked-Kept :
      (now : ℕ) (r : Text) (addr : Address) (since : Option ℕ) (b : BlobRow) (w : World)
      → Good grace bound o w
      → now ≤ bound
      → find_blob r (rows w) ≡ some b
      → b.ref_count ≡ 0
      → addr.path ≡ b.physical_path
      → ((t : ℕ)
          → since ≡ some t
          → (f : File) × (lookup addr.path w.site.markers ≡ some f) × (f.mtime ≡ t))
      → Kept grace bound o w (sweep_marked grace now r addr since w).1
  unfolding sweep_marked
  sweep_marked-Kept now r addr none b w g l f z p seen = idle grace bound o w g
  sweep_marked-Kept now r addr (some t) b w g l f z p seen =
      let (m, at_path, mt) = seen t refl in
      let there : lookup b.physical_path w.site.markers ≡ some m =
        subst (λ q. lookup q w.site.markers ≡ some m) p at_path in
      elim (Bool-cases (within_grace grace now t)) [
        | inl e ↦ rw e (idle grace bound o w g)
        | inr e ↦ rw e (
            remove_blob-Kept r addr w g (
              subst (λ q. o.Q w.site (with_markers (erase q w.site.markers) w.site)) (sym p)
                (o.removes w.site now r b m l f z there
                  (subst (λ x. within_grace grace now x ≡ false) (sym mt) e))))
      ]

  sweep_one-Kept :
      (now : ℕ) (r : Text) (w : World)
      → now ≤ bound
      → Good grace bound o w
      → StaysOrphan grace bound o w r
      → Kept grace bound o w (sweep_one grace now r w).1
  unfolding sweep_one
  sweep_one-Kept now r w l g h = alive-Kept grace bound o w _ g (λ v k gv.
      resolved-Kept grace bound o r v
        (λ addr u. and_then (tombstone_info addr.path u) skip (sweep_marked grace now r addr)) gv
        (StaysOrphan-stable grace bound o w v r k h)
        (λ addr u b gu f z p.
          act-Kept u (tombstone_info addr.path u) (sweep_marked grace now r addr)
            (tombstone_info-Kept grace bound o addr.path u gu)
            (λ since e gi.
              sweep_marked-Kept now r addr since b (tombstone_info addr.path u).1 gi l
                (subst (λ (s : Site). find_blob r s.index.blobs ≡ some b)
                  (sym (info_site addr.path u ∙ turn_site u gu.calm)) f)
                z p (λ t s. marker_seen addr.path u t (e ∙ ap ok s)))))

  pub sweep-Kept :
      (w : World)
      → (turn w).1.now ≤ bound
      → Good grace bound o w
      → Kept grace bound o w (sweep grace w).1
  unfolding sweep list_orphan_blobs
  sweep-Kept w l g =
      subst (Kept grace bound o w) (sym (listing_world _ _))
        (over_orphans w (λ v. sweep_one grace v.now) g (λ r u. sweep_one-Kept (turn w).1.now r u l))
