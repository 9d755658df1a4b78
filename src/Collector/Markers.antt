-- ===== src/Collector/Markers.antt =====
-- What a cycle never touches, whatever fails in it: the file of a referenced blob, a marker within its
-- grace period, and a marker that the index knows nothing of.
use scrinium.Base.{
  ℕ, ◌<◌, Text, Bool, false, some, List, ◌≡◌, ◌≢◌, refl, sym, ap, subst, ◌∙◌, inl, inr, arith,
  Bool-cases, Option-cases, text_eq, text_eq_sound, lookup, lookup-set, lookup-erase,
}
use scrinium.Layout.{ref_from_path}
use scrinium.Index.{BlobRow, Tables, find_blob, drop_orphan}
use scrinium.Collector.{Site, World, File, mark_site, run_cycle}
use scrinium.Collector.Loops.{IsKeyed, AreCalm, rows, find-drop, ends_at}
use scrinium.Collector.Passes.{Obligations, mark_site-index}
use scrinium.Collector.Cycle.{run_cycle-Kept}

mark_other :
    (p q : Text) (n : ℕ) (s : Site)
    → text_eq q p ≡ false
    → (lookup p (mark_site q n s).files ≡ lookup p s.files)
      × (lookup p (mark_site q n s).markers ≡ lookup p s.markers)
unfolding mark_site
mark_other p q n s a = elim (Option-cases (lookup q s.markers)) [
  | inr (f, h) ↦ rw (mark_site, h) (lookup-erase q p s.files ∙ rw a refl, refl)
  | inl h ↦ (elim (Option-cases (lookup q s.files)) [
    | inr (f, k) ↦
        rw (mark_site, h, k)
          (lookup-erase q p s.files ∙ rw a refl, lookup-set q p f s.markers ∙ rw a refl)
    | inl k ↦ rw (mark_site, h, k) (refl, lookup-set q p _ s.markers ∙ rw a refl)
  ])
]

marked_again :
    (p : Text) (n : ℕ) (s : Site) (m : File)
    → lookup p s.markers ≡ some m
    → lookup p (mark_site p n s).markers ≡ some m
unfolding mark_site
marked_again p n s m h = rw (mark_site, h, h) refl

-- A marker outlasts any marking.
pub mark_keeps :
    (p q : Text) (n : ℕ) (s : Site) (m : File)
    → lookup p s.markers ≡ some m
    → lookup p (mark_site q n s).markers ≡ some m
mark_keeps p q n s m h = elim (Bool-cases (text_eq q p)) [
  | inr a ↦ (mark_other p q n s a).1 ∙ h
  | inl e ↦
      subst (λ t. lookup p (mark_site t n s).markers ≡ some m) (sym (text_eq_sound q p e))
        (marked_again p n s m h)
]

-- The row that is left after the removal of an orphan was there before.
pub left_before :
    (r ref : Text) (b : BlobRow) (bs : List BlobRow)
    → IsKeyed bs
    → find_blob r (drop_orphan ref bs).1 ≡ some b
    → find_blob r bs ≡ some b
left_before r ref b bs keyed h = elim (Option-cases (find_blob r bs)) [
  | inl e ↦ ground (arith, h, e, find-drop r ref bs keyed)
  | inr (c, e) ↦ ground (arith, h, e, find-drop r ref bs keyed)
]

-- The blobs at the path are referenced, and so is the blob whose reference the path spells.
pub record IsLive (p : Text) (s : Site) : Type 0 where
  pub referenced :
      (r : Text) (b : BlobRow)
      → find_blob r s.index.blobs ≡ some b
      → b.physical_path ≡ p
      → 0 < b.ref_count
  pub known :
      (ref : Text)
      → ref_from_path p ≡ inr ref
      → (b : BlobRow) × (find_blob ref s.index.blobs ≡ some b) × (0 < b.ref_count)

-- The file at the path and its marker are as they were.
pub record SameAt (p : Text) (s t : Site) : Type 0 where
  pub file : lookup p t.files ≡ lookup p s.files
  pub marker : lookup p t.markers ≡ lookup p s.markers

abbrev Spares : Text → Site → Site → Type 0
Spares p s t = IsLive p s → SameAt p s t × IsLive p t

pub apart : (p q : Text) → q ≢ p → text_eq q p ≡ false
apart p q h = elim (Bool-cases (text_eq q p)) [
  | inl e ↦ absurd (h (text_eq_sound q p e))
  | inr e ↦ e
]

mark-Spares :
    (p q : Text) (n : ℕ) (s : Site)
    → q ≢ p
    → IsLive p s
    → SameAt p s (mark_site q n s) × IsLive p (mark_site q n s)
mark-Spares p q n s a l =
    let (f, m) = mark_other p q n s (apart p q a) in
    let same : (mark_site q n s).index ≡ s.index = mark_site-index q n s in
    (
      record { file = f; marker = m },
      record {
        referenced =
            λ r b h. l.referenced r b (subst (λ (t : Tables). find_blob r t.blobs ≡ some b) same h);
        known = λ ref e.
            let (b, h, z) = l.known ref e in
            (b, subst (λ (t : Tables). find_blob ref t.blobs ≡ some b) (sym same) h, z);
      },
    )

live_obligations : (p : Text) (grace bound : ℕ) → Obligations grace bound
live_obligations p grace bound = record {
  Q = Spares p;
  Q_refl = λ s l. (record { file = refl; marker = refl }, l);
  Q_trans = λ s t u f g l.
      let (a, l') = f l in
      let (b, l'') = g l' in (record { file = b.file ∙ a.file; marker = b.marker ∙ a.marker }, l'');
  drops = λ s ref keyed l. (
    record { file = refl; marker = refl },
    record {
      referenced = λ r b h. l.referenced r b (left_before r ref b s.index.blobs keyed h);
      known = λ r e.
          let (b, h, z) = l.known r e in
          (b, find-drop r ref s.index.blobs keyed ∙ ground (arith, h, z), z);
    },
  );
  marks = λ s now r b h z l.
      mark-Spares p b.physical_path now s (λ e. absurd (ground (arith, z, l.referenced r b h e))) l;
  unknowns = λ s now q ref e n l.
      mark-Spares p q now s
        (λ same.
          let (b, h, z) = l.known ref (ap ref_from_path (sym same) ∙ e) in
          absurd (ground (arith, n, h)))
        l;
  removes = λ s now r b f j h z at_path late l.
      let off = apart p b.physical_path (λ e. absurd (ground (arith, z, l.referenced r b h e))) in
      (
        record { file = refl; marker = lookup-erase b.physical_path p s.markers ∙ rw off refl },
        record { referenced = l.referenced; known = l.known },
      );
}

-- A cycle never touches a referenced blob: whatever its calls answer, the file at the path and its
-- marker are afterwards as they were. The path is that of referenced rows only, the blob whose
-- reference it spells is referenced, the primary key of the blobs holds, and no other process
-- changes the site.
pub run_cycle-IsLive :
    (grace : ℕ) (complete : Bool) (p : Text) (w : World)
    → AreCalm w.turns
    → IsKeyed (rows w)
    → IsLive p w.site
    → SameAt p w.site (run_cycle grace complete w).1.site
unfolding live_obligations
run_cycle-IsLive grace complete p w calm keyed l =
    ((run_cycle-Kept grace (ends_at w) (live_obligations p grace (ends_at w)) complete w
        (omega arith) (record { calm = calm; keyed = keyed })).site
      l).0
