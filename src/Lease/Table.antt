-- ===== src/Lease/Table.antt =====
-- The reads and writes of the slot on a Location that nothing else touches.
use scrinium.Base.{ℕ, Text, true, false, none, some, ◌≡◌, arith}
use scrinium.Driver.{
  quiet, Error, already_exists, artifact_not_found, not_exist, World, Objects, get, put, obj_get,
  obj_put, turn,
}
use scrinium.Driver
use scrinium.Named.{validate_name, cell_path, cell_of, write_cell}
use scrinium.Lease.{LeaseRecord, Lease, Codec, ok, err, storage, record_at, read, write}

module _ (codec : Codec) (l : Lease) (valid : validate_name l.name ≡ Driver.ok tt) where
  abbrev pub slot : Text
  slot = cell_of l.name

  pub path_ok : cell_path l.name ≡ Driver.ok slot
  unfolding cell_path
  path_ok = ground arith

  pub read_absent :
      (o : Objects) (now : ℕ)
      → obj_get slot o ≡ none
      → read codec l (quiet o now) ≡ (Driver.err artifact_not_found, quiet o now)
  unfolding read get
  read_absent o now h = ground (arith, path_ok)

  pub read_corrupt :
      (o : Objects) (now : ℕ) (bytes : Text)
      → obj_get slot o ≡ some bytes
      → codec.decode bytes ≡ none
      → read codec l (quiet o now) ≡ (Driver.err already_exists, quiet o now)
  unfolding read get
  read_corrupt o now bytes h d = ground (arith, path_ok)

  pub read_record :
      (o : Objects) (now : ℕ) (bytes : Text) (r : LeaseRecord)
      → obj_get slot o ≡ some bytes
      → codec.decode bytes ≡ some r
      → read codec l (quiet o now) ≡ (Driver.ok r, quiet o now)
  unfolding read get
  read_record o now bytes r h d = ground (arith, path_ok)

  -- An exclusive write of a populated slot writes nothing.
  pub write_refused :
      (o : Objects) (now : ℕ) (bytes old : Text)
      → codec.encode l.name (record_at l now) ≡ some bytes
      → obj_get slot o ≡ some old
      → write codec l true (quiet o now) ≡ (err (storage already_exists), quiet o now)
  unfolding write write_cell put
  write_refused o now bytes old e h = ground (arith, path_ok)

  pub write_new :
      (o : Objects) (now : ℕ) (bytes : Text)
      → codec.encode l.name (record_at l now) ≡ some bytes
      → obj_get slot o ≡ none
      → write codec l true (quiet o now) ≡ (ok tt, quiet (obj_put slot bytes o) now)
  unfolding write write_cell put
  write_new o now bytes e h = ground (arith, path_ok)

  pub write_over :
      (o : Objects) (now : ℕ) (bytes : Text)
      → codec.encode l.name (record_at l now) ≡ some bytes
      → write codec l false (quiet o now) ≡ (ok tt, quiet (obj_put slot bytes o) now)
  unfolding write write_cell put
  write_over o now bytes e = ground (arith, path_ok)
