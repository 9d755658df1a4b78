-- ===== src/Collector.antt =====
-- The collector of engine/agent/gc: the cycle of gc.go and media_reconcile.go over the index and over
-- the blob files and tombstones of engine/driver/localfs/tombstone.go. Before each call others may
-- change the site and time may pass, and the call may fail: that is a schedule of turns, one for each
-- call; past its end calls are undisturbed.
pub mod Loops
pub mod Passes
pub mod Orphans
pub mod Cycle
pub mod Markers
pub mod Grace
pub mod Tests
use scrinium.Base.{
  ℕ, zero, suc, ◌+◌, ◌-◌, Text, Bool, true, false, ◌&&◌, Option, none, some, List, [], ◌∷◌, ◌++◌,
  ltb, ◌==◌, if◌then◌else◌, take, text_eq, lookup, set, erase, inl, inr,
}
use scrinium.Layout.{ref_from_path}
use scrinium.Index.{Tables, BlobRow, find_blob, orphan_blobs, drop_orphan}

-- A file with the time of its last write.
pub record File : Type 0 where
  pub body : Text
  pub mtime : ℕ

-- `files` are the blob files, which listings show; `markers` are the files "<path>.tombstone" by
-- the path, which listings hide.
pub record Site : Type 0 where
  pub files : List (Text × File)
  pub markers : List (Text × File)
  pub index : Tables

-- The failures of calls: a cancelled context, and any other.
pub data Fault : Type 0 where
  ctx_cancelled : Fault
  io_error : ℕ → Fault

pub data Error : Type 0 where
  artifact_not_found : Error
  call_failed : Fault → Error

-- `seen` is how much of a listing came before its fault.
pub record Turn : Type 0 where
  pub elapsed : ℕ
  pub others : Site → Site
  pub fault : Option Fault
  pub seen : ℕ

-- GCStats, less the compaction that no code performs.
pub record Stats : Type 0 where
  pub scanned_blobs : ℕ
  pub marked_blobs : ℕ
  pub removed_blobs : ℕ
  pub freed_bytes : ℕ

-- `deleted` are the published BlobPhysicallyDeleted events.
pub record World : Type 0 where
  pub site : Site
  pub now : ℕ
  pub stats : Stats
  pub deleted : List Text
  pub turns : List Turn

pub data Result (A : Type 0) : Type 0 where
  ok : A → Result A
  err : Error → Result A

-- The turn before a call: its fault, and the world after it.
unfoldable pub turn : World → Option (Fault × ℕ) × World
turn w = elim w.turns [
  | [] ↦ (none, w)
  | t ∷ ts ↦ (
    (elim t.fault [ none ↦ none | some e ↦ some (e, t.seen) ]),
    record w { site = t.others w.site; now = w.now + t.elapsed; turns = ts },
  )
]

abbrev pub unless_fault :
    {A : Type 0} → Option (Fault × ℕ) × World → (World → Result A × World) → Result A × World
unless_fault (some (e, _), w) call = (err (call_failed e), w)
unless_fault (none, w) call = call w

abbrev pub with_markers : List (Text × File) → Site → Site
with_markers m s = record s { markers = m }

abbrev pub with_files : List (Text × File) → Site → Site
with_files f s = record s { files = f }

-- The switch of MarkTombstone; os.Rename keeps the time of the last write.
unfoldable pub mark_site : Text → ℕ → Site → Site
mark_site p now s = elim (lookup p s.markers) [
  | some _ ↦ with_files (erase p s.files) s
  | none ↦ (elim (lookup p s.files) [
    | some f ↦ record s { files = erase p s.files; markers = set p f s.markers }
    | none ↦ with_markers (set p (record { body = []; mtime = now }) s.markers) s
  ])
]

abbrev pub on_site : (Site → Site) → World → World
on_site f w = record w { site = f w.site }

unfoldable pub mark_tombstone : Text → World → Result (Unit {0}) × World
mark_tombstone p w = unless_fault (turn w) (λ v. (ok tt, on_site (mark_site p v.now) v))

unfoldable pub is_tombstone : Text → World → Result Bool × World
is_tombstone p w =
    unless_fault (turn w)
      (λ v. (ok (elim (lookup p v.site.markers) [ none ↦ false | some _ ↦ true ]), v))

-- TombstoneInfo: none where there is no marker.
unfoldable pub tombstone_info : Text → World → Result (Option ℕ) × World
tombstone_info p w =
    unless_fault (turn w)
      (λ v. (ok (elim (lookup p v.site.markers) [ none ↦ none | some f ↦ some f.mtime ]), v))

unfoldable pub remove_tombstone : Text → World → Result (Unit {0}) × World
remove_tombstone p w =
    unless_fault (turn w) (λ v. (ok tt, on_site (λ s. with_markers (erase p s.markers) s) v))

-- ctx.Err()
unfoldable pub ctx_err : World → Option Error × World
ctx_err w =
    let (f, v) = turn w in
    elim f [
      | none ↦ (none, v)
      | some (e, n) ↦ (elim e [
        | ctx_cancelled ↦ (some (call_failed ctx_cancelled), v)
        | other ↦ (none, v)
      ])
    ]

-- domain.PhysicalAddress; Resolve of the index does not fill in the size.
pub record Address : Type 0 where
  pub path : Text
  pub size : ℕ

abbrev pub address_of : Option BlobRow → Result Address
address_of none = err artifact_not_found
address_of (some b) = ok (record { path = b.physical_path; size = 0 })

unfoldable pub resolve : Text → World → Result Address × World
resolve ref w = unless_fault (turn w) (λ v. (address_of (find_blob ref v.site.index.blobs), v))

-- What a listing showed, and the error that it ended in; its callback may have ended it too.
abbrev pub listed : List Text → Option (Fault × ℕ) → List Text × Option Error
listed all none = (all, none)
listed all (some (e, n)) = (take n all, some (call_failed e))

unfoldable pub list_orphan_blobs : World → (List Text × Option Error) × World
list_orphan_blobs w = let (f, v) = turn w in (listed (orphan_blobs v.site.index.blobs) f, v)

abbrev pub paths : List (Text × File) → List Text
paths [] = []
paths ((p, _) ∷ rest) = p ∷ paths rest

unfoldable pub list_files : World → (List Text × Option Error) × World
list_files w = let (f, v) = turn w in (listed (paths v.site.files) f, v)

unfoldable pub delete_orphan_blob : Text → World → Result Bool × World
delete_orphan_blob ref w = unless_fault (turn w) (λ v. (
  ok (drop_orphan ref v.site.index.blobs).0,
  on_site (λ s. record s { index = record s.index { blobs = (drop_orphan ref s.index.blobs).1 } })
      v,
))

abbrev pub is_ctx_err : Error → Bool
is_ctx_err (call_failed ctx_cancelled) = true
is_ctx_err _ = false

-- A pass of a loop: none to continue, an error to return.
abbrev pub Pass : Type 0
Pass = World → Option Error × World

unfoldable pub for_each : (Text → Pass) → List Text → Pass
for_each body [] w = (none, w)
for_each body (x ∷ xs) w =
    let (r, v) = body x w in
    let rest = for_each body xs v in elim r [ some e ↦ (some e, v) | none ↦ rest ]

-- `if agent.IsCtxErr(err) { return err }; continue`
abbrev pub skip : Error → Pass
skip e w = (if is_ctx_err e then some e else none, w)

-- `if errors.Is(err, errs.ErrArtifactNotFound) { continue }; return err`
abbrev pub skip_missing : Error → Pass
skip_missing artifact_not_found w = (none, w)
skip_missing e w = (some e, w)

abbrev pub and_then :
    {A : Type 0} → Result A × World → (Error → Pass) → (A → Pass) → Option Error × World
and_then (ok a, w) failed next = next a w
and_then (err e, w) failed next = failed e w

abbrev pub while_alive : Option Error × World → Pass → Option Error × World
while_alive (none, w) next = next w
while_alive (some e, w) next = (some e, w)

abbrev count_scanned : World → World
count_scanned w = record w { stats = record w.stats { scanned_blobs = w.stats.scanned_blobs + 1 } }

abbrev pub count_marked : Pass
count_marked w =
    (none, record w { stats = record w.stats { marked_blobs = w.stats.marked_blobs + 1 } })

-- The loop body of mark.
unfoldable pub mark_one : Text → Pass
mark_one ref w = while_alive (ctx_err w) (λ v.
    and_then (resolve ref (count_scanned v)) skip_missing (λ addr u.
      if text_eq addr.path []
      then (none, u)
      else and_then (mark_tombstone addr.path u) skip (λ _. count_marked)))

abbrev then_listing : Option Error × World → Option Error → Option Error × World
then_listing (some e, w) l = (some e, w)
then_listing (none, w) l = (l, w)

unfoldable pub mark : Pass
mark w = let ((refs, l), v) = list_orphan_blobs w in then_listing (for_each mark_one refs v) l

abbrev pub count_removed : Text → ℕ → Pass
count_removed ref size w = (
  none,
  record w {
    stats = record w.stats {
      removed_blobs = w.stats.removed_blobs + 1;
      freed_bytes = w.stats.freed_bytes + size;
    };
    deleted = w.deleted ++ (ref ∷ []);
  },
)

-- `grace > 0 && now.Sub(since) < grace`
abbrev pub within_grace : ℕ → ℕ → ℕ → Bool
within_grace grace now since = ltb 0 grace && ltb (now - since) grace

unfoldable pub remove_blob : Text → Address → Pass
remove_blob ref addr w = and_then (remove_tombstone addr.path w) skip (λ _ v.
    and_then (delete_orphan_blob ref v) skip
      (λ removed u. if removed then count_removed ref addr.size u else (none, u)))

unfoldable pub sweep_marked : ℕ → ℕ → Text → Address → Option ℕ → Pass
sweep_marked grace now ref addr none w = (none, w)
sweep_marked grace now ref addr (some since) w =
    let rest = remove_blob ref addr w in if within_grace grace now since then (none, w) else rest

-- The loop body of sweep.
unfoldable pub sweep_one : ℕ → ℕ → Text → Pass
sweep_one grace now ref w = while_alive (ctx_err w) (λ v.
    and_then (resolve ref v) skip_missing (λ addr u.
      if text_eq addr.path []
      then (none, u)
      else and_then (tombstone_info addr.path u) skip (sweep_marked grace now ref addr)))

unfoldable pub sweep : ℕ → Pass
sweep grace w =
    let ((refs, l), v) = list_orphan_blobs w in
    then_listing (for_each (sweep_one grace v.now) refs v) l

-- What the callback of the listing does with a path: whether the file is unknown to the index.
abbrev unknown_by : Result Address → Bool
unknown_by (err artifact_not_found) = true
unknown_by _ = false

abbrev pub add_if :
    Bool → Text → (List Text × Option Error) × World → (List Text × Option Error) × World
add_if false p q = q
add_if true p ((found, e), w) = ((p ∷ found, e), w)

unfoldable pub collect_unknown : List Text → World → (List Text × Option Error) × World
collect_unknown [] w = (([], none), w)
collect_unknown (p ∷ ps) w =
    let (c, v) = ctx_err w in
    let without_it = collect_unknown ps v in
    elim c [
      | some e ↦ (([], some e), v)
      | none ↦ (elim (ref_from_path p) [
        | inl _ ↦ without_it
        | inr ref ↦ (let (a, u) = resolve ref v in add_if (unknown_by a) p (collect_unknown ps u))
      ])
    ]

abbrev already : Result Bool → Bool
already (ok marked) = marked
already (err e) = false

-- The loop body of reconcileMedia.
unfoldable pub mark_unknown : Text → Pass
mark_unknown p w = while_alive (ctx_err w) (λ v.
    let (m, u) = is_tombstone p v in
    if already m then (none, u) else and_then (mark_tombstone p u) skip (λ _. count_marked))

-- reconcileMedia; `complete` is IndexComplete of the store.
unfoldable pub reconcile_media : Bool → Pass
reconcile_media complete w =
    let ((ps, l), v) = list_files w in
    let ((unknown, c), u) = collect_unknown ps v in
    if complete
    then (elim c [
      | some e ↦ (some e, u)
      | none ↦ (elim l [ some e ↦ (some e, u) | none ↦ for_each mark_unknown unknown u ])
    ])
    else (none, w)

abbrev first_of : Option Error → Option Error → Option Error
first_of none later = later
first_of (some e) later = if is_ctx_err e then later else some e

-- FirstNonCtxErr
unfoldable pub first_non_ctx_err : List (Option Error) → Option Error
first_non_ctx_err [] = none
first_non_ctx_err (e ∷ es) = first_of e (first_non_ctx_err es)

-- runCycle
unfoldable pub run_cycle : ℕ → Bool → Pass
run_cycle grace complete w = while_alive (ctx_err w) (λ v.
    let (e1, w1) = mark v in
    let (e2, w2) = reconcile_media complete w1 in
    let (e3, w3) = sweep grace w2 in (first_non_ctx_err (e1 ∷ e2 ∷ e3 ∷ []), w3))
