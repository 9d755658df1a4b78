-- ===== src/Segaead/RoundTrip/Opens.antt =====
-- What the reader of open.go yields over the frames of the writer, and over its header.
use scrinium.Base.{
  be32, be16, ℕ, suc, ◌+◌, ◌^◌, ◌≤◌, ◌<◌, Text, true, false, none, some, List, [], ◌∷◌, ◌++◌, ◌≡◌,
  refl, arith, lt→ltb, length,
}
use scrinium.Segaead.{ok, Aead, mode_valid, max_segment_size}
use scrinium.Segaead.Header.{fixed_part, decode-fixed_part}
use scrinium.Segaead.Pull.{Pull, fill_kept_ok, eof, Yields-chunk, stops_eof, fills}
use scrinium.Segaead.Seal.{frame_of}
use scrinium.Segaead.Open.{
  OpenInner, read_header, try_candidates, read_frame, read_segment, open_fill,
}
use scrinium.Segaead.RoundTrip.Reads.{reader, read_full_exact, read_full_end, read_frame_sealed}
use scrinium.Segaead.RoundTrip.Writes.{IsSplit, concat, YieldsSome, next_index, frames}

-- A reader past the header.
abbrev pub opener_at : List Aead → Text → Text → Pull OpenInner
opener_at cands bs p = record {
  inner = record { src = reader bs; aeads = cands; header_done = true };
  pending = p;
  src_done = false;
  kept_err = none;
}

module _ (a : Aead) (cands : List Aead) (n : ℕ) (iv : ℕ → Text → Text)
    (n_fits : n ≤ max_segment_size) (iv_length : (i : ℕ) (s : Text) → length (iv i s) ≡ 12)
    (overhead : (i s : Text) → length (a.seal i s) ≤ length s + 64)
    (opens : (i s : Text) → try_candidates cands i (a.seal i s) ≡ some s) where
  open_frame :
      (i : ℕ) (s rest : Text)
      → length s ≤ n
      → open_fill (opener_at cands (frame_of a (iv i s) s ++ rest) [])
        ≡ (none, opener_at cands rest s)
  unfolding open_fill read_segment
  open_frame i s rest l = rw (
    read_frame_sealed cands a (iv i s) s rest (iv_length i s) (omega (arith, overhead (iv i s) s))
        (opens (iv i s) s),
    read_segment,
  )

  no_frame : read_frame cands (reader []) ≡ ok none
  unfolding read_frame
  no_frame = rw (read_full_end 16 (omega arith), read_frame)

  open_end :
      open_fill (opener_at cands [] []) ≡ (none, record (opener_at cands [] []) { src_done = true })
  unfolding open_fill read_segment
  open_end = rw (no_frame, read_segment)

  -- The reader yields the segments of the frames.
  pub opener_yields :
      (i : ℕ) (ss : List Text)
      → IsSplit n ss
      → YieldsSome open_fill (opener_at cands (frames a iv i ss) []) (concat ss) eof
  opener_yields i [] split = (
    1,
    fills refl refl refl
        (rw (fill_kept_ok open_fill _ _ open_end) (stops_eof refl refl refl refl refl)),
  )
  opener_yields i (s ∷ ss) split =
      let (m, y) = opener_yields (next_index i) ss split.3 in
      (
        suc (length s + m),
        fills refl refl refl (
            rw (fill_kept_ok open_fill _ _ (open_frame i s (frames a iv (next_index i) ss) split.1))
              (Yields-chunk open_fill m (opener_at cands (frames a iv (next_index i) ss) []) s
                (concat ss) eof y)),
      )

length-fixed_part : (mode size n : ℕ) → length (fixed_part mode size n) ≡ 12
unfolding be32 be16
length-fixed_part mode size n = refl

-- The reader steps over the header that the writer wrote.
pub read_header_written :
    (mode size : ℕ) (key_id rest : Text)
    → mode_valid mode ≡ true
    → size ≤ max_segment_size
    → length key_id < 2 ^ 16
    → read_header (reader (fixed_part mode size (length key_id) ++ (key_id ++ rest)))
      ≡ ok (reader rest)
unfolding read_header
read_header_written mode size [] rest v s l =
    rw
      (
        read_full_exact 12 (fixed_part mode size 0) rest (length-fixed_part mode size 0),
        read_header,
      )
      (rw (decode-fixed_part mode size 0 v s l))
read_header_written mode size (b ∷ bs) rest v s l =
    let key : Text = b ∷ bs in
    rw
      (
        read_full_exact 12 (fixed_part mode size (length key)) (key ++ rest)
            (length-fixed_part mode size (length key)),
        read_header,
      )
      (rw (decode-fixed_part mode size (length key) v s l)
        (rw (read_full_exact (length key) key rest refl, lt→ltb 0 (length key) (omega arith))))
