-- ===== src/Index/Counts.antt =====
-- The table `blobs`: what the registration and the deletion of references do to the reference count.
use scrinium.Base.{
  ℕ, ◌+◌, ◌-◌, Text, Bool, true, false, Option, none, some, List, [], ◌∷◌, ◌++◌, ◌≡◌, refl, sym, ap,
  ◌∙◌, arith, text_eq, text_eq_iff, text_eq_sound, if◌then◌else◌, Option-cases, inl, inr,
}
use scrinium.Index.{
  Manifest, BlobRow, find_blob, insert_blob, bump, unbump, blob_row, register_refs, unbump_all,
}
use scrinium.Index.Edges.{occurs}

abbrev count_in : Option BlobRow → ℕ
count_in none = 0
count_in (some b) = b.ref_count

-- The reference count of a blob; 0 where it has no row.
abbrev pub count_of : Text → List BlobRow → ℕ
count_of r bs = count_in (find_blob r bs)

abbrev pub has_blob : Text → List BlobRow → Bool
has_blob r bs = elim (find_blob r bs) [ none ↦ false | some _ ↦ true ]

count-bump :
    (r ref : Text) (bs : List BlobRow)
    → count_of r (bump ref bs)
      ≡ count_of r bs + (if text_eq ref r then (if has_blob r bs then 1 else 0) else 0)
unfolding find_blob bump
count-bump r ref [] = ground arith
count-bump r ref (b ∷ bs) = ground (
  arith,
  text_eq_iff b.blob_ref ref,
  text_eq_iff b.blob_ref r,
  text_eq_iff ref r,
  count-bump r ref bs,
)

pub find-append :
    (r : Text) (row : BlobRow) (bs : List BlobRow)
    → find_blob r (bs ++ (row ∷ [])) ≡ (elim (find_blob r bs) [
      | none ↦ if text_eq row.blob_ref r then some row else none
      | some b ↦ some b
    ])
unfolding find_blob
find-append r row [] = ground arith
find-append r row (b ∷ bs) = ground (arith, find-append r row bs)

present :
    (r ref : Text) (bs : List BlobRow) (b : BlobRow)
    → find_blob ref bs ≡ some b
    → text_eq ref r ≡ true
    → has_blob r bs ≡ true
present r ref bs b h e =
    ap (λ t. has_blob t bs) (sym (text_eq_sound ref r e)) ∙ rw (has_blob, h) refl

pub insert_known :
    (row b : BlobRow) (bs : List BlobRow)
    → find_blob row.blob_ref bs ≡ some b
    → insert_blob row bs ≡ bs
unfolding insert_blob
insert_known row b bs h = rw (insert_blob, h) refl

pub insert_new :
    (row : BlobRow) (bs : List BlobRow)
    → find_blob row.blob_ref bs ≡ none
    → insert_blob row bs ≡ bs ++ (row ∷ [])
unfolding insert_blob
insert_new row bs h = rw (insert_blob, h) refl

count-append :
    (r : Text) (row : BlobRow) (bs : List BlobRow)
    → find_blob row.blob_ref bs ≡ none
    → row.ref_count ≡ 0
    → (count_of r (bs ++ (row ∷ [])) ≡ count_of r bs)
      × (text_eq row.blob_ref r ≡ true → has_blob r (bs ++ (row ∷ [])) ≡ true)
count-append r row bs h z = ground (arith, h, z, find-append r row bs, text_eq_iff row.blob_ref r)

count-register_one :
    (r ref path : Text) (m : Manifest) (now : ℕ) (bs : List BlobRow)
    → count_of r (bump ref (insert_blob (blob_row m path now ref) bs))
      ≡ count_of r bs + (if text_eq ref r then 1 else 0)
count-register_one r ref path m now bs = elim (Option-cases (find_blob ref bs)) [
  | inr (b, h) ↦
      rw (insert_known (blob_row m path now ref) b bs h)
        (ground (arith, count-bump r ref bs, present r ref bs b h))
  | inl h ↦
      let row : BlobRow = blob_row m path now ref in
      let added = count-append r row bs h refl in
      rw (insert_new row bs h)
        (ground (arith, count-bump r ref (bs ++ (row ∷ [])), added.0, added.1))
]

-- Registering the references of a manifest adds one to a blob for each time it is referenced.
pub count-register_refs :
    (r path : Text) (m : Manifest) (now : ℕ) (refs : List Text) (bs : List BlobRow)
    → count_of r (register_refs m path now refs bs) ≡ count_of r bs + occurs r refs
unfolding register_refs
count-register_refs r path m now [] bs = omega arith
count-register_refs r path m now (ref ∷ refs) bs = omega (
  arith,
  count-register_one r ref path m now bs,
  count-register_refs r path m now refs (bump ref (insert_blob (blob_row m path now ref) bs)),
)

count-unbump :
    (r ref : Text) (bs : List BlobRow)
    → count_of r (unbump ref bs) ≡ count_of r bs - (if text_eq ref r then 1 else 0)
unfolding find_blob unbump
count-unbump r ref [] = ground arith
count-unbump r ref (b ∷ bs) = ground (
  arith,
  text_eq_iff b.blob_ref ref,
  text_eq_iff b.blob_ref r,
  text_eq_iff ref r,
  count-unbump r ref bs,
)

pub count-unbump_all :
    (r : Text) (refs : List Text) (bs : List BlobRow)
    → count_of r (unbump_all refs bs) ≡ count_of r bs - occurs r refs
unfolding unbump_all
count-unbump_all r [] bs = omega arith
count-unbump_all r (ref ∷ refs) bs =
    omega (arith, count-unbump r ref bs, count-unbump_all r refs (unbump ref bs))
