-- ===== src/Segaead/Seal.antt =====
-- seal.go and iv.go: the reader that frames its source into a blob.
use scrinium.Base.{
  ℕ, ◌+◌, ◌%◌, ◌^◌, Text, true, false, ◌&&◌, Option, none, some, [], ◌++◌, ltb, ◌==◌, if◌then◌else◌,
  length, take, be32, be64,
}
use scrinium.Segaead.{
  Error, bad_mode, segment_too_large, wrong_nonce_size, dek_required, no_candidates, random_failed,
  read_failed, Result, ok, err, ◌>>=◌, iv_mode_random, iv_mode_convergent, mode_valid, iv_len,
  default_segment_size, max_segment_size, encode_header, Reader, full, short, at_eof, faulted,
  read_full, Aead,
}
use scrinium.Segaead.Pull.{Pull}

-- Go's crypto packages. `random_iv i` is the 12 bytes that rand.Read gives for the segment of index
-- i, none where it fails.
pub record Primitives : Type 0 where
  pub sha256 : Text → Text
  pub hmac_sha256 : Text → Text → Text
  pub random_iv : ℕ → Option Text

-- A nil AEAD is none; a segment size that is not positive is 0.
pub record SealParams : Type 0 where
  pub aead : Option Aead
  pub mode : ℕ
  pub dek : Text
  pub key_id : Text
  pub segment_size : ℕ

-- The fields of SealReader that only fill uses. Its field headerDone is never read, and `written` is
-- the number of bytes handed out.
pub record SealInner : Type 0 where
  pub src : Reader
  pub aead : Aead
  pub mode : ℕ
  pub dek : Text
  pub key_id : Text
  pub seg_size : ℕ
  pub index : ℕ

-- iv ‖ ct_len ‖ ciphertext and tag
unfoldable pub frame_of : Aead → Text → Text → Text
frame_of a iv plain = let ct = a.seal iv plain in iv ++ (be32 (length ct % 2 ^ 32) ++ ct)

module _ (go : Primitives) where
  unfoldable pub convergent_iv : Text → Text → Text → ℕ → Text
  convergent_iv dek key_id plaintext index =
      take iv_len (go.hmac_sha256 dek (go.sha256 plaintext ++ (key_id ++ be64 index)))

  -- The switch on the mode at the start of sealSegment.
  unfoldable pub segment_iv : SealInner → Text → Result Text
  segment_iv e plain =
      if e.mode == iv_mode_random
      then (elim (go.random_iv e.index) [ none ↦ err random_failed | some iv ↦ ok iv ])
      else if e.mode == iv_mode_convergent
      then ok (convergent_iv e.dek e.key_id plain e.index)
      else err bad_mode

  unfoldable pub seal_segment : Pull SealInner → Text → Option Error × Pull SealInner
  seal_segment e plain = elim (segment_iv e.inner plain) [
    | err x ↦ (some x, e)
    | ok iv ↦ (
      none,
      record e {
        pending = e.pending ++ frame_of e.inner.aead iv plain;
        inner = record e.inner { index = (e.inner.index + 1) % 2 ^ 64 };
      },
    )
  ]

  -- SealReader.fill: one frame more.
  unfoldable pub seal_fill : Pull SealInner → Option Error × Pull SealInner
  seal_fill e = elim (read_full e.inner.seg_size e.inner.src) [
    | full plain src ↦ seal_segment (record e { inner = record e.inner { src = src } }) plain
    | short plain ↦
        seal_segment
          (record e {
            src_done = true;
            inner = record e.inner { src = record e.inner.src { bytes = [] } };
          })
          plain
    | at_eof ↦ (none, record e { src_done = true })
    | faulted x ↦ (
      some read_failed,
      record e { inner = record e.inner { src = record e.inner.src { bytes = [] } } },
    )
  ]

unfoldable pub seg_size_of : ℕ → ℕ
seg_size_of n = if ltb 0 n then n else default_segment_size

unfoldable pub new_seal_reader : Reader → Aead → SealParams → Result (Pull SealInner)
unfolding seg_size_of
new_seal_reader src a p =
    if ltb max_segment_size (seg_size_of p.segment_size) then err segment_too_large else do
      hdr ←
          encode_header
            (record { mode = p.mode; segment_size = seg_size_of p.segment_size; key_id = p.key_id })
      ok (record {
        inner = record {
          src = src;
          aead = a;
          mode = p.mode;
          dek = p.dek;
          key_id = p.key_id;
          seg_size = seg_size_of p.segment_size;
          index = 0;
        };
        pending = hdr;
        src_done = false;
        kept_err = none;
      })

-- Seal
unfoldable pub seal : Reader → SealParams → Result (Pull SealInner)
seal src p = elim p.aead [
  | none ↦ err no_candidates
  | some a ↦
      if a.nonce_size == iv_len
      then (if mode_valid p.mode
          then (if p.mode == iv_mode_convergent && length p.dek == 0
              then err dek_required
              else new_seal_reader src a p)
          else err bad_mode)
      else err wrong_nonce_size
]
