-- ===== src/Collector/Passes.antt =====
-- The passes of a cycle against the obligations of a relation on the files and markers.
use scrinium.Base.{
  ℕ, ◌≤◌, Text, false, Option, none, some, List, [], ◌≡◌, refl, sym, subst, ◌∙◌, inl, inr, arith,
  Bool-cases, Option-cases, if◌then◌else◌, text_eq, lookup, erase, ◌==◌,
}
use scrinium.Layout.{ref_from_path}
use scrinium.Index.{BlobRow, Tables, find_blob, drop_orphan}
use scrinium.Collector.{
  Site, World, File, Stats, Address, Result, ok, Fault, turn, Pass, ctx_err, and_then, while_alive,
  skip_missing, mark_site, mark_tombstone, is_tombstone, tombstone_info, remove_tombstone, resolve,
  address_of, delete_orphan_blob, within_grace, on_site, with_markers, unless_fault,
}
use scrinium.Collector.Loops.{
  Keeps, Keeps-refl, Keeps-trans, IsGood, Keeps-IsGood, turn-Keeps, turn_site, counted-Keeps,
  and_then-Keeps, while_alive-Keeps, skip_missing-Keeps, ctx_err-Keeps, IsKeyed, rows, find-drop,
  drop-IsKeyed,
}

pub mark_site-index : (p : Text) (n : ℕ) (s : Site) → (mark_site p n s).index ≡ s.index
unfolding mark_site
mark_site-index p n s = elim (Option-cases (lookup p s.markers)) [
  | inr (f, h) ↦ rw (mark_site, h) refl
  | inl h ↦ (elim (Option-cases (lookup p s.files)) [
    | inr (f, k) ↦ rw (mark_site, h, k) refl
    | inl k ↦ rw (mark_site, h, k) refl
  ])
]

-- What a relation has to satisfy: the marking of an orphan's path, and of a path that the index does
-- not know, and the removal of an orphan's marker that is out of its grace period by the time `bound`.
pub record Obligations (grace bound : ℕ) : Type 1 where
  pub Q : Site → Site → Type 0
  pub Q_refl : (s : Site) → Q s s
  pub Q_trans : (s t u : Site) → Q s t → Q t u → Q s u
  pub drops :
      (s : Site) (ref : Text)
      → IsKeyed s.index.blobs
      → Q s (record s { index = record s.index { blobs = (drop_orphan ref s.index.blobs).1 } })
  pub marks :
      (s : Site) (now : ℕ) (r : Text) (b : BlobRow)
      → find_blob r s.index.blobs ≡ some b
      → b.ref_count ≡ 0
      → Q s (mark_site b.physical_path now s)
  pub unknowns :
      (s : Site) (now : ℕ) (p ref : Text)
      → ref_from_path p ≡ inr ref
      → find_blob ref s.index.blobs ≡ none
      → Q s (mark_site p now s)
  pub removes :
      (s : Site) (now : ℕ) (r : Text) (b : BlobRow) (f : File)
      → now ≤ bound
      → find_blob r s.index.blobs ≡ some b
      → b.ref_count ≡ 0
      → lookup b.physical_path s.markers ≡ some f
      → within_grace grace now f.mtime ≡ false
      → Q s (with_markers (erase b.physical_path s.markers) s)

module _ (grace bound : ℕ) (o : Obligations grace bound) where
  abbrev pub Kept : World → World → Type 0
  Kept = Keeps o.Q o.Q_refl o.Q_trans

  abbrev pub Good : World → Type 0
  Good = IsGood o.Q o.Q_refl o.Q_trans

  -- A change of the site that leaves the index.
  changed :
      (v : World) (f : Site → Site)
      → Good v
      → ((s : Site) → (f s).index ≡ s.index)
      → o.Q v.site (f v.site)
      → Kept v (on_site f v)
  changed v f g same q = record {
    calm = g.calm;
    keyed = subst (λ (t : Tables). IsKeyed t.blobs) (sym (same v.site)) g.keyed;
    later = omega arith;
    ends = omega arith;
    shrinks = λ r b h. subst (λ (t : Tables). find_blob r t.blobs ≡ some b) (same v.site) h;
    persists =
        λ r b h l. subst (λ (t : Tables). find_blob r t.blobs ≡ some b) (sym (same v.site)) h;
    site = q;
  }

  acts :
      {A : Type 0} (u : World) (p : Option (Fault × ℕ) × World) (a : World → Result A)
      (f : World → World)
      → Kept u p.1
      → (Good p.1 → Kept p.1 (f p.1))
      → Kept u (unless_fault p (λ v. (a v, f v))).1
  acts u (none, v) a f k n =
      Keeps-trans o.Q o.Q_refl o.Q_trans u v (f v) k (n (Keeps-IsGood o.Q o.Q_refl o.Q_trans u v k))
  acts u (some (e, m), v) a f k n = k

  reads :
      {A : Type 0} (u : World) (p : Option (Fault × ℕ) × World) (a : World → Result A)
      → Kept u p.1
      → Kept u (unless_fault p (λ v. (a v, v))).1
  reads u (none, v) a k = k
  reads u (some (e, m), v) a k = k

  pub turned : (w : World) → Good w → Kept w (turn w).1
  turned = turn-Keeps o.Q o.Q_refl o.Q_trans

  pub resolve-Kept : (r : Text) (w : World) → Good w → Kept w (resolve r w).1
  unfolding resolve
  resolve-Kept r w g =
      reads w (turn w) (λ v. address_of (find_blob r v.site.index.blobs)) (turned w g)

  pub tombstone_info-Kept : (p : Text) (w : World) → Good w → Kept w (tombstone_info p w).1
  unfolding tombstone_info
  tombstone_info-Kept p w g = reads w (turn w) _ (turned w g)

  pub is_tombstone-Kept : (p : Text) (w : World) → Good w → Kept w (is_tombstone p w).1
  unfolding is_tombstone
  is_tombstone-Kept p w g = reads w (turn w) _ (turned w g)

  pub mark_tombstone-Kept :
      (p : Text) (w : World)
      → Good w
      → ((n : ℕ) → o.Q w.site (mark_site p n w.site))
      → Kept w (mark_tombstone p w).1
  unfolding mark_tombstone
  mark_tombstone-Kept p w g q =
      acts w (turn w) (λ v. ok tt) (λ v. on_site (mark_site p v.now) v) (turned w g)
        (λ h. changed (turn w).1 (mark_site p (turn w).1.now) h (mark_site-index p (turn w).1.now) (
          subst (λ s. o.Q s (mark_site p (turn w).1.now s)) (sym (turn_site w g.calm))
            (q (turn w).1.now)))

  pub remove_tombstone-Kept :
      (p : Text) (w : World)
      → Good w
      → o.Q w.site (with_markers (erase p w.site.markers) w.site)
      → Kept w (remove_tombstone p w).1
  unfolding remove_tombstone
  remove_tombstone-Kept p w g q =
      acts w (turn w) (λ v. ok tt) (λ v. on_site (λ s. with_markers (erase p s.markers) s) v)
        (turned w g)
        (λ h.
          changed (turn w).1 (λ s. with_markers (erase p s.markers) s) h (λ s. refl)
            (subst (λ s. o.Q s (with_markers (erase p s.markers) s)) (sym (turn_site w g.calm)) q))

  dropped :
      (ref : Text) (v : World)
      → Good v
      → Kept v (
          on_site
            (λ s. record s { index = record s.index { blobs = (drop_orphan ref s.index.blobs).1 } })
            v)
  dropped ref v g = record {
    calm = g.calm;
    keyed = drop-IsKeyed ref (rows v) g.keyed;
    later = omega arith;
    ends = omega arith;
    shrinks = λ r b h. shrunk r b (sym (find-drop r ref (rows v) g.keyed) ∙ h);
    persists = λ r b h l. find-drop r ref (rows v) g.keyed ∙ ground (arith, h, l);
    site = o.drops v.site ref g.keyed;
  }
    where
      shrunk :
          (r : Text) (b : BlobRow)
          → (elim (find_blob r (rows v)) [
            | none ↦ none
            | some c ↦ if text_eq ref r then (if c.ref_count == 0 then none else some c) else some c
          ])
            ≡ some b
          → find_blob r (rows v) ≡ some b
      shrunk r b h = ground (arith, h)

  pub delete_orphan_blob-Kept :
      (ref : Text) (w : World) → Good w → Kept w (delete_orphan_blob ref w).1
  unfolding delete_orphan_blob
  delete_orphan_blob-Kept ref w g =
      acts w (turn w) (λ v. ok (drop_orphan ref (rows v)).0)
        (λ v.
          on_site
            (λ s. record s { index = record s.index { blobs = (drop_orphan ref s.index.blobs).1 } })
            v)
        (turned w g) (dropped ref (turn w).1)

  -- The row whose address Resolve gave.
  resolve_row_at :
      (r : Text) (p : Option (Fault × ℕ) × World) (addr : Address)
      → (unless_fault p (λ v. (address_of (find_blob r (rows v)), v))).0 ≡ ok addr
      → (b : BlobRow) × (find_blob r
            (rows (unless_fault p (λ v. (address_of (find_blob r (rows v)), v))).1)
          ≡ some b)
        × (addr.path ≡ b.physical_path)
  resolve_row_at r (some (e, n), v) addr h = ground (arith, h)
  resolve_row_at r (none, v) addr h = elim (Option-cases (find_blob r (rows v))) [
    | inl e ↦ ground (arith, h, e)
    | inr (b, e) ↦ (b, e, ground (arith, h, e))
  ]

  pub resolve_row :
      (r : Text) (w : World) (addr : Address)
      → (resolve r w).0 ≡ ok addr
      → (b : BlobRow) × (find_blob r (rows (resolve r w).1) ≡ some b)
        × (addr.path ≡ b.physical_path)
  unfolding resolve
  resolve_row r w addr h = resolve_row_at r (turn w) addr h

  -- Whatever row the reference has, it is that of an orphan.
  abbrev pub StaysOrphan : World → Text → Type 0
  StaysOrphan w r = (b : BlobRow) → find_blob r (rows w) ≡ some b → b.ref_count ≡ 0

  pub StaysOrphan-stable : (u v : World) (r : Text) → Kept u v → StaysOrphan u r → StaysOrphan v r
  StaysOrphan-stable u v r k h b f = h b (k.shrinks r b f)

  -- What the loops do with the address of an orphan.
  pub resolved-Kept :
      (r : Text) (w : World) (next : Address → Pass)
      → Good w
      → StaysOrphan w r
      → ((addr : Address) (u : World) (b : BlobRow)
          → Good u
          → find_blob r (rows u) ≡ some b
          → b.ref_count ≡ 0
          → addr.path ≡ b.physical_path
          → Kept u (next addr u).1)
      → Kept w
          (and_then
            (resolve r w)
            skip_missing
            (λ addr u. if text_eq addr.path [] then (none, u) else next addr u)).1
  resolved-Kept r w next g h step =
      let first = resolve-Kept r w g in
      let good = Keeps-IsGood o.Q o.Q_refl o.Q_trans w (resolve r w).1 first in
      and_then-Keeps o.Q o.Q_refl o.Q_trans w (resolve r w) skip_missing _ first
        (λ e. skip_missing-Keeps o.Q o.Q_refl o.Q_trans (resolve r w).1 e good)
        (λ addr e.
          let (b, f, p) = resolve_row r w addr e in
          (elim (Bool-cases (text_eq addr.path [])) [
            | inl t ↦ rw t (Keeps-refl o.Q o.Q_refl o.Q_trans (resolve r w).1 good)
            | inr t ↦ rw t (
                step addr (resolve r w).1 b good f
                  (StaysOrphan-stable w (resolve r w).1 r first h b f) p)
          ]))

  pub alive-Kept :
      (w : World) (next : Pass)
      → Good w
      → ((v : World) → Kept w v → Good v → Kept v (next v).1)
      → Kept w (while_alive (ctx_err w) next).1
  alive-Kept w next g step =
      let first = ctx_err-Keeps o.Q o.Q_refl o.Q_trans w g in
      while_alive-Keeps o.Q o.Q_refl o.Q_trans w (ctx_err w) next first
        (step (ctx_err w).1 first (Keeps-IsGood o.Q o.Q_refl o.Q_trans w (ctx_err w).1 first))

  pub counted :
      (w : World) (st : Stats) (d : List Text)
      → Good w
      → Kept w (record w { stats = st; deleted = d })
  counted = counted-Keeps o.Q o.Q_refl o.Q_trans

  pub then-Kept : (u v w : World) → Kept u v → Kept v w → Kept u w
  then-Kept = Keeps-trans o.Q o.Q_refl o.Q_trans

  pub Kept-Good : (u v : World) → Kept u v → Good v
  Kept-Good = Keeps-IsGood o.Q o.Q_refl o.Q_trans

  pub idle : (w : World) → Good w → Kept w w
  idle = Keeps-refl o.Q o.Q_refl o.Q_trans
