-- ===== src/Collector/Grace.antt =====
-- The markers over time: the grace period, the markers that no row leads to, and a blob that is marked
-- and removed in one cycle.
use scrinium.Base.{
  ℕ, ◌+◌, ◌≤◌, ◌<◌, Text, Bool, true, false, none, some, [], ◌∷◌, ◌≡◌, ◌≢◌, refl, sym, ap, subst,
  ◌∙◌, inl, inr, arith, Bool-cases, text_eq, text_eq_sound, text_eq_refl, lookup, set, erase,
  lookup-erase,
}
use scrinium.Index.{BlobRow, Tables, find_blob, drop_orphan, orphan_blobs}
use scrinium.Collector.{
  Site, World, File, mark_site, with_markers, within_grace, run_cycle, mark, sweep, mark_one,
  sweep_one, sweep_marked, remove_blob, for_each, ctx_err, resolve, mark_tombstone, tombstone_info,
  remove_tombstone, delete_orphan_blob, list_orphan_blobs, turn, reconcile_media,
}
use scrinium.Collector.Loops.{IsKeyed, AreCalm, rows, ends_at}
use scrinium.Collector.Passes.{Obligations, mark_site-index}
use scrinium.Collector.Cycle.{run_cycle-Kept}
use scrinium.Collector.Markers.{mark_keeps, left_before, apart}

abbrev Holds : Text → File → Site → Site → Type 0
Holds p m s t = lookup p s.markers ≡ some m → lookup p t.markers ≡ some m

erase_other :
    (p q : Text) (m : File) (s : Site)
    → text_eq q p ≡ false
    → Holds p m s (with_markers (erase q s.markers) s)
erase_other p q m s off h = lookup-erase q p s.markers ∙ rw off h

young :
    (grace bound now mtime : ℕ)
    → 0 < grace
    → now ≤ bound
    → bound < mtime + grace
    → within_grace grace now mtime ≡ true
young grace bound now mtime g l k = ground (arith, l, k)

young_obligations :
    (p : Text) (m : File) (grace bound : ℕ)
    → 0 < grace
    → bound < m.mtime + grace
    → Obligations grace bound
young_obligations p m grace bound g k = record {
  Q = Holds p m;
  Q_refl = λ s h. h;
  Q_trans = λ s t u f g h. g (f h);
  drops = λ s ref keyed h. h;
  marks = λ s now r b row z h. mark_keeps p b.physical_path now s m h;
  unknowns = λ s now q ref e n h. mark_keeps p q now s m h;
  removes = λ s now r b f j row z there late h. elim (Bool-cases (text_eq b.physical_path p)) [
    | inr off ↦ erase_other p b.physical_path m s off h
    | inl e ↦
        let same : some f ≡ some m =
          sym there ∙ ap (λ q. lookup q s.markers) (text_eq_sound b.physical_path p e) ∙ h in
        let at_m : f.mtime ≡ m.mtime = ground (arith, same) in
        absurd (
          ground (
            arith,
            late,
            young grace bound now m.mtime g j k,
            ap (λ (t : ℕ). within_grace grace now t) at_m,
          ))
  ];
}

-- A marker whose last write is less than the grace period before the end of the cycle's schedule is
-- never removed, whatever the calls of the cycle answer; no other process changes the site.
pub run_cycle_grace :
    (grace : ℕ) (complete : Bool) (p : Text) (m : File) (w : World)
    → AreCalm w.turns
    → IsKeyed (rows w)
    → lookup p w.site.markers ≡ some m
    → 0 < grace
    → ends_at w < m.mtime + grace
    → lookup p (run_cycle grace complete w).1.site.markers ≡ some m
unfolding young_obligations
run_cycle_grace grace complete p m w calm keyed h g k =
    (run_cycle-Kept grace (ends_at w) (young_obligations p m grace (ends_at w) g k) complete w
        (omega arith) (record { calm = calm; keyed = keyed })).site
      h

-- No row of the index has the path.
abbrev pub IsUnindexed : Text → Site → Type 0
IsUnindexed p s =
    (r : Text) (b : BlobRow) → find_blob r s.index.blobs ≡ some b → b.physical_path ≢ p

abbrev Forgotten : Text → File → Site → Site → Type 0
Forgotten p m s t =
    IsUnindexed p s → lookup p s.markers ≡ some m → IsUnindexed p t × (lookup p t.markers ≡ some m)

forgotten_obligations : (p : Text) (m : File) (grace bound : ℕ) → Obligations grace bound
forgotten_obligations p m grace bound = record {
  Q = Forgotten p m;
  Q_refl = λ s n h. (n, h);
  Q_trans = λ s t u f g n h. let (n', h') = f n h in g n' h';
  drops = λ s ref keyed n h. (λ r b e. n r b (left_before r ref b s.index.blobs keyed e), h);
  marks = λ s now r b row z n h. (
    λ r' b' e. n r' b' (
        subst (λ (t : Tables). find_blob r' t.blobs ≡ some b')
          (mark_site-index b.physical_path now s) e),
    mark_keeps p b.physical_path now s m h,
  );
  unknowns = λ s now q ref e n' n h. (
    λ r' b' e'.
        n r' b'
          (subst (λ (t : Tables). find_blob r' t.blobs ≡ some b') (mark_site-index q now s) e'),
    mark_keeps p q now s m h,
  );
  removes = λ s now r b f j row z there late n h.
      (n, erase_other p b.physical_path m s (apart p b.physical_path (n r b row)) h);
}

-- The defect: a marker at a path that no row of the index has outlasts a cycle, however old it is. The
-- media reconciliation marks the files that the index has never heard of, so these are never
-- physically removed.
pub run_cycle-IsUnindexed :
    (grace : ℕ) (complete : Bool) (p : Text) (m : File) (w : World)
    → AreCalm w.turns
    → IsKeyed (rows w)
    → IsUnindexed p w.site
    → lookup p w.site.markers ≡ some m
    → lookup p (run_cycle grace complete w).1.site.markers ≡ some m
unfolding forgotten_obligations
run_cycle-IsUnindexed grace complete p m w calm keyed n h =
    ((run_cycle-Kept grace (ends_at w) (forgotten_obligations p m grace (ends_at w)) complete w
        (omega arith) (record { calm = calm; keyed = keyed })).site
      n h).1

-- A Location that nothing else touches.
abbrev pub quiet : Site → ℕ → World
quiet s now = record {
  site = s;
  now = now;
  stats = record { scanned_blobs = 0; marked_blobs = 0; removed_blobs = 0; freed_bytes = 0 };
  deleted = [];
  turns = [];
}

-- A row without references, with a path that is not empty.
abbrev pub orphan : BlobRow → ℕ → Text → BlobRow
orphan b c path = record b { ref_count = 0; physical_path = c ∷ path }

-- A store of one blob that has lost its last reference, with its file.
abbrev pub orphaned : BlobRow → ℕ → Text → File → Tables → Site
orphaned b c path f t = record {
  files = (c ∷ path, f) ∷ [];
  markers = [];
  index = record t { blobs = orphan b c path ∷ [] };
}

abbrev pub emptied : Tables → Site
emptied t = record { files = []; markers = []; index = record t { blobs = [] } }

out_of_grace : (grace now since : ℕ) → since + grace ≤ now → within_grace grace now since ≡ false
out_of_grace grace now since l = ground (arith, l)

not_empty : (c : ℕ) (path : Text) → text_eq (c ∷ path) [] ≡ false
unfolding text_eq
not_empty c path = refl

abbrev only_marker : BlobRow → ℕ → Text → File → Tables → Site
only_marker b c path f t = record {
  files = [];
  markers = (c ∷ path, f) ∷ [];
  index = record t { blobs = orphan b c path ∷ [] };
}

abbrev after_mark : Site → ℕ → World
after_mark s now = record (quiet s now) {
  stats = record { scanned_blobs = 1; marked_blobs = 1; removed_blobs = 0; freed_bytes = 0 };
}

abbrev after_sweep : Site → ℕ → Text → World
after_sweep s now ref = record (quiet s now) {
  stats = record { scanned_blobs = 1; marked_blobs = 1; removed_blobs = 1; freed_bytes = 0 };
  deleted = ref ∷ [];
}

marked_first :
    (now : ℕ) (b : BlobRow) (c : ℕ) (path : Text) (f : File) (t : Tables)
    → mark (quiet (orphaned b c path f t) now) ≡ (none, after_mark (only_marker b c path f t) now)
unfolding mark mark_one for_each ctx_err resolve mark_tombstone mark_site list_orphan_blobs turn
    lookup erase set find_blob orphan_blobs
marked_first now b c path f t =
    ground (arith, text_eq_refl b.blob_ref, not_empty c path, text_eq_refl (c ∷ path))

swept_next :
    (grace now : ℕ) (b : BlobRow) (c : ℕ) (path : Text) (f : File) (t : Tables)
    → f.mtime + grace ≤ now
    → sweep grace (after_mark (only_marker b c path f t) now)
      ≡ (none, after_sweep (emptied t) now b.blob_ref)
unfolding sweep sweep_one sweep_marked remove_blob for_each ctx_err resolve tombstone_info
    remove_tombstone delete_orphan_blob list_orphan_blobs turn lookup erase find_blob orphan_blobs
    drop_orphan
swept_next grace now b c path f t l = ground (
  arith,
  text_eq_refl b.blob_ref,
  not_empty c path,
  text_eq_refl (c ∷ path),
  out_of_grace grace now f.mtime l,
)

-- The defect: MarkTombstone renames the file, which keeps the time of its last write, and the sweep
-- takes that time for the time of the marking. So a blob that was written at least the grace period
-- ago is marked and removed for good in the first cycle after it lost its last reference, and no
-- grace period passes: its file, its marker and its row are gone. The cycle also counts no freed
-- bytes, since Resolve gives no size.
pub run_cycle_at_once :
    (grace now : ℕ) (b : BlobRow) (c : ℕ) (path : Text) (f : File) (t : Tables)
    → f.mtime + grace ≤ now
    → let w = (run_cycle grace false (quiet (orphaned b c path f t) now)).1 in
      (w.site ≡ emptied t) × (w.deleted ≡ b.blob_ref ∷ []) × (w.stats.freed_bytes ≡ 0)
unfolding run_cycle ctx_err turn reconcile_media
run_cycle_at_once grace now b c path f t l =
    rw (run_cycle, marked_first now b c path f t, swept_next grace now b c path f t l)
      (refl, refl, refl)
