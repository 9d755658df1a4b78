-- ===== src/Collector/Tests.antt =====
-- The collector at concrete inputs: a referenced blob beside an orphan and a marker that no row leads
-- to, on a schedule in which time passes and a call fails.
use scrinium.Base.{
  ℕ, ◌≡◌, Text, false, true, none, some, [], ◌∷◌, refl, sym, ap, arith, codes, text_eq, lookup, inr,
}
use scrinium.Index.{BlobRow, find_blob}
use scrinium.Index.Tests.{empty_tables}
use scrinium.Layout.{ref_from_path, last_segment, ref_shape_ok, all_hex}
use scrinium.Cut.{cut_last}
use scrinium.Collector.{Site, World, File, run_cycle, io_error}
use scrinium.Collector.Loops.{IsKeyed, AreCalm, rows}
use scrinium.Collector.Markers.{IsLive, SameAt, run_cycle-IsLive}
use scrinium.Collector.Grace.{
  run_cycle_grace, run_cycle-IsUnindexed, IsUnindexed, run_cycle_at_once, quiet, orphaned, emptied,
}

abbrev pub row_of : Text → Text → ℕ → BlobRow
row_of ref path n = record {
  blob_ref = ref;
  content_hash = ref;
  original_size = 3;
  crypto_identity = [];
  physical_path = path;
  ref_count = n;
  last_verified_at = none;
  created_at = 0;
}

abbrev pub written : ℕ → File
written t = record { body = codes "abc"; mtime = t }

-- "ab12" is referenced, "ab34" is an orphan with a marker of time 90, "ab56" has a marker and no row.
abbrev site : Site
site = record {
  files = (codes "blobs/ab12", written 10) ∷ [];
  markers = (codes "blobs/ab34", written 90) ∷ (codes "blobs/ab56", written 5) ∷ [];
  index = record empty_tables {
    blobs =
        row_of (codes "ab12") (codes "blobs/ab12") 1
        ∷ row_of (codes "ab34") (codes "blobs/ab34") 0
        ∷ [];
  };
}

abbrev world : World
world = record (quiet site 100) {
  turns =
      record { elapsed = 2; others = λ s. s; fault = none; seen = 0 }
      ∷ record { elapsed = 3; others = λ s. s; fault = some (io_error 5); seen = 1 }
      ∷ [];
}

world-IsKeyed : IsKeyed (rows world)
unfolding find_blob text_eq
world-IsKeyed = (refl, (refl, tt))

parsed : ref_from_path (codes "blobs/ab12") ≡ inr (codes "ab12")
unfolding ref_from_path last_segment text_eq cut_last ref_shape_ok all_hex
parsed = refl

site-IsLive : IsLive (codes "blobs/ab12") site
unfolding find_blob text_eq
site-IsLive = record {
  referenced = λ r b h e. ground (arith, h, e);
  known = λ ref e.
      let same : codes "ab12" ≡ ref = ground (arith, parsed, e) in
      (
        row_of (codes "ab12") (codes "blobs/ab12") 1,
        ap (λ t. find_blob t site.index.blobs) (sym same),
        omega arith,
      );
}

world-AreCalm : AreCalm world.turns
world-AreCalm = (λ s. refl, (λ s. refl, tt))

run_cycle-IsLive_example : SameAt (codes "blobs/ab12") site (run_cycle 50 true world).1.site
run_cycle-IsLive_example =
    run_cycle-IsLive 50 true (codes "blobs/ab12") world world-AreCalm world-IsKeyed site-IsLive

run_cycle_grace_example :
    lookup (codes "blobs/ab34") (run_cycle 50 true world).1.site.markers ≡ some (written 90)
unfolding lookup text_eq
run_cycle_grace_example =
    run_cycle_grace 50 true (codes "blobs/ab34") (written 90) world world-AreCalm world-IsKeyed refl
      (omega arith) (omega arith)

site-IsUnindexed : IsUnindexed (codes "blobs/ab56") site
unfolding find_blob text_eq
site-IsUnindexed r b h e = ground (arith, h, e)

run_cycle-IsUnindexed_example :
    lookup (codes "blobs/ab56") (run_cycle 50 true world).1.site.markers ≡ some (written 5)
unfolding lookup text_eq
run_cycle-IsUnindexed_example =
    run_cycle-IsUnindexed 50 true (codes "blobs/ab56") (written 5) world world-AreCalm world-IsKeyed
      site-IsUnindexed refl

run_cycle_at_once_example :
    let w =
      (run_cycle 50 false (
        quiet
          (orphaned (row_of (codes "ab34") [] 0) b'b' (codes "lobs/ab34") (written 10) empty_tables)
          100)).1 in
    (w.site ≡ emptied empty_tables) × (w.deleted ≡ codes "ab34" ∷ []) × (w.stats.freed_bytes ≡ 0)
run_cycle_at_once_example =
    run_cycle_at_once 50 100 (row_of (codes "ab34") [] 0) b'b' (codes "lobs/ab34") (written 10)
      empty_tables (omega arith)
