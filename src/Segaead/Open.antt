-- ===== src/Segaead/Open.antt =====
-- open.go: the reader that opens a blob frame by frame.
use scrinium.Base.{
  Text, Bool, true, false, Option, none, some, List, [], ◌∷◌, ◌++◌, ltb, ◌==◌, if◌then◌else◌, take,
  drop, be_value,
}
use scrinium.Segaead.{
  Error, truncated, segment_too_large, segment_auth, no_candidates, wrong_nonce_size, read_failed,
  Result, ok, err, ◌>>=◌, iv_len, fixed_header_len, frame_header_len, max_ciphertext_len,
  decode_fixed_header, Reader, full, short, at_eof, faulted, read_full, Aead,
}
use scrinium.Segaead.Pull.{Pull}

-- The fields of openReader that only fill uses.
pub record OpenInner : Type 0 where
  pub src : Reader
  pub aeads : List Aead
  pub header_done : Bool

-- The checks of Open on its candidates, in their order; a nil candidate is none.
unfoldable pub check_candidates : List (Option Aead) → Result (List Aead)
check_candidates [] = ok []
check_candidates (none ∷ cs) = err no_candidates
check_candidates (some a ∷ cs) =
    let others = check_candidates cs in
    if a.nonce_size == iv_len then others >>= (λ rest. ok (a ∷ rest)) else err wrong_nonce_size

unfoldable pub open_blob : Reader → List (Option Aead) → Result (Pull OpenInner)
unfolding check_candidates
open_blob src [] = err no_candidates
open_blob src (c ∷ cs) = do
  aeads ← check_candidates (c ∷ cs)
  ok (record {
    inner = record { src = src; aeads = aeads; header_done = false };
    pending = [];
    src_done = false;
    kept_err = none;
  })

-- readHeader: the reader after it.
unfoldable pub read_header : Reader → Result Reader
read_header src = elim (read_full fixed_header_len src) [
  | full fixed rest ↦
      (decode_fixed_header fixed >>= λ h.
      if ltb 0 h.key_id_len
      then (elim (read_full h.key_id_len rest) [
        | full _ after ↦ ok after
        | short _ ↦ err truncated
        | at_eof ↦ err truncated
        | faulted _ ↦ err read_failed
      ])
      else ok rest)
  | short _ ↦ err truncated
  | at_eof ↦ err truncated
  | faulted _ ↦ err read_failed
]

-- The first candidate that authenticates.
unfoldable pub try_candidates : List Aead → Text → Text → Option Text
try_candidates [] iv ct = none
try_candidates (a ∷ others) iv ct =
    let later = try_candidates others iv ct in
    elim (a.open_ct iv ct) [ some pt ↦ some pt | none ↦ later ]

-- One frame of the source: none at a clean end, else the plaintext and the reader after it.
unfoldable pub read_frame : List Aead → Reader → Result (Option (Text × Reader))
read_frame aeads src = elim (read_full frame_header_len src) [
  | full fh rest ↦
      let ct_len = be_value (drop iv_len fh) 0 in
      if ltb max_ciphertext_len ct_len
      then err segment_too_large
      else (elim (read_full ct_len rest) [
        | full ct after ↦ (elim (try_candidates aeads (take iv_len fh) ct) [
          | some pt ↦ ok (some (pt, after))
          | none ↦ err segment_auth
        ])
        | short _ ↦ err truncated
        | at_eof ↦ err truncated
        | faulted _ ↦ err truncated
      ])
  | short _ ↦ err truncated
  | at_eof ↦ ok none
  | faulted _ ↦ err read_failed
]

unfoldable pub read_segment : Pull OpenInner → Option Error × Pull OpenInner
read_segment d = elim (read_frame d.inner.aeads d.inner.src) [
  | err e ↦ (some e, d)
  | ok none ↦ (none, record d { src_done = true })
  | ok (some (pt, after)) ↦
      (none, record d { pending = d.pending ++ pt; inner = record d.inner { src = after } })
]

-- openReader.fill
unfoldable pub open_fill : Pull OpenInner → Option Error × Pull OpenInner
open_fill d = if d.inner.header_done then read_segment d else (elim (read_header d.inner.src) [
  | err e ↦ (some e, d)
  | ok after ↦ (none, record d { inner = record d.inner { src = after; header_done = true } })
])
