-- ===== src/Lease/Holder.antt =====
-- Renew and Release on a Location that nothing else touches.
use scrinium.Base.{
  ℕ, ◌↔◌, Text, true, some, ◌≡◌, ◌⊎◌, inl, inr, refl, arith, text_eq_iff, Bool-cases,
}
use scrinium.Driver.{quiet, World, Objects, obj_get, obj_put, obj_remove, remove}
use scrinium.Driver
use scrinium.Named.{validate_name, cell_of, remove_cell, remove_if_there}
use scrinium.Lease.{
  LeaseRecord, Lease, Codec, ok, err, lease_lost, record_at, still_ours, stored, renew, release,
}
use scrinium.Lease.Table.{path_ok, read_record, write_over}

-- The cell's record is the lease's own.
abbrev pub IsOurs : Lease → LeaseRecord → Type 0
IsOurs l r = (r.host_id ≡ l.host_id) × (r.nonce ≡ l.nonce)

still_ours_iff : (l : Lease) (r : LeaseRecord) → (still_ours l r ≡ true) ↔ IsOurs l r
still_ours_iff l r = (
  λ h. (
    ground (arith, h, text_eq_iff r.host_id l.host_id, text_eq_iff r.nonce l.nonce),
    ground (arith, h, text_eq_iff r.host_id l.host_id, text_eq_iff r.nonce l.nonce),
  ),
  λ h. ground (arith, h.0, h.1, text_eq_iff r.host_id l.host_id, text_eq_iff r.nonce l.nonce),
)

removed :
    (codec : Codec) (l : Lease) (o : Objects) (now : ℕ) (old : Text)
    → validate_name l.name ≡ Driver.ok tt
    → obj_get (cell_of l.name) o ≡ some old
    → stored (remove_cell l.name) (quiet o now) ≡ (ok tt, quiet (obj_remove (cell_of l.name) o) now)
unfolding remove_cell remove_if_there remove
removed codec l o now old valid h = ground (arith, path_ok codec l valid)

-- On a Location that nothing else touches, a renewal under a valid name, with a record that encodes,
-- of a cell with a valid record: a lease whose host and nonce are the record's rewrites the cell with
-- its record of now; any other is told that it is lost, and writes nothing.
pub renew_table :
    (codec : Codec) (l : Lease) (o : Objects) (now : ℕ) (old bytes : Text) (current : LeaseRecord)
    → validate_name l.name ≡ Driver.ok tt
    → codec.encode l.name (record_at l now) ≡ some bytes
    → obj_get (cell_of l.name) o ≡ some old
    → codec.decode old ≡ some current
    → (IsOurs l current
        × (renew codec l (quiet o now) ≡ (ok tt, quiet (obj_put (cell_of l.name) bytes o) now)))
      ⊎ (¬ IsOurs l current × (renew codec l (quiet o now) ≡ (err lease_lost, quiet o now)))
unfolding renew
renew_table codec l o now old bytes current valid e h d =
    let found = read_record codec l valid o now old current h d in
    elim (Bool-cases (still_ours l current)) [
      | inl ours ↦ inl (
        (still_ours_iff l current).0 ours,
        rw (renew, found, found, ours) (write_over codec l valid o now bytes e),
      )
      | inr lost ↦ inr (
        λ m. ground (arith, lost, (still_ours_iff l current).1 m),
        rw (renew, found, found, lost) refl,
      )
    ]

-- On a Location that nothing else touches, a release under a valid name of a cell with a valid record:
-- a lease whose host and nonce are the record's removes the cell; any other leaves it to its new
-- holder, and reports no error.
release_table :
    (codec : Codec) (l : Lease) (o : Objects) (now : ℕ) (old : Text) (current : LeaseRecord)
    → validate_name l.name ≡ Driver.ok tt
    → obj_get (cell_of l.name) o ≡ some old
    → codec.decode old ≡ some current
    → (IsOurs l current
        × (release codec l (quiet o now) ≡ (ok tt, quiet (obj_remove (cell_of l.name) o) now)))
      ⊎ (¬ IsOurs l current × (release codec l (quiet o now) ≡ (ok tt, quiet o now)))
unfolding release
release_table codec l o now old current valid h d =
    let found = read_record codec l valid o now old current h d in
    elim (Bool-cases (still_ours l current)) [
      | inl ours ↦ inl (
        (still_ours_iff l current).0 ours,
        rw (release, found, found, ours) (removed codec l o now old valid h),
      )
      | inr lost ↦ inr (
        λ m. ground (arith, lost, (still_ours_iff l current).1 m),
        rw (release, found, found, lost) refl,
      )
    ]
