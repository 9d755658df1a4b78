-- ===== src/Segaead/RoundTrip/Whole.antt =====
-- The round trip of whole blobs, through both readers.
use scrinium.Base.{
  be64, ℕ, suc, ◌+◌, ◌≤◌, ◌<◌, Text, true, false, Option, none, some, List, [], ◌∷◌, ◌++◌, ◌≡◌,
  refl, ap, sym, ◌∙◌, arith, if◌then◌else◌, length, length-take, All, append_assoc, Bool-cases, inl,
  inr, ◌==◌, subst,
}
use scrinium.Segaead.{ok, Reader, Aead, mode_valid, encode_header, max_segment_size, iv_mode_random}
use scrinium.Segaead.Header.{fixed_part, encode_header_inv}
use scrinium.Segaead.Pull.{
  Pull, fill_kept_ok, eof, Yields, Yields-chunk, fills, drain, drain-Yields,
}
use scrinium.Segaead.Seal.{
  Primitives, SealParams, SealInner, convergent_iv, segment_iv, seal_fill, seg_size_of,
  new_seal_reader, seal,
}
use scrinium.Segaead.Open.{OpenInner, check_candidates, open_blob, try_candidates, open_fill}
use scrinium.Segaead.RoundTrip.Reads.{reader}
use scrinium.Segaead.RoundTrip.Writes.{
  IsSplit, concat, exists-IsSplit, YieldsSome, inner_at, writer_at, frames, writer_yields,
}
use scrinium.Segaead.RoundTrip.Opens.{opener_at, opener_yields, read_header_written}

-- Go's primitives and an AEAD as documented: HMAC-SHA256 has 32 bytes, rand.Read fills the 12 bytes
-- of an IV, what is sealed opens again, and sealing adds at most 64 bytes.
pub record IsSound (go : Primitives) (a : Aead) : Type 0 where
  pub hmac_length : (k m : Text) → length (go.hmac_sha256 k m) ≡ 32
  pub random_ok : (i : ℕ) → (iv : Text) × (go.random_iv i ≡ some iv) × (length iv ≡ 12)
  pub open-seal : (iv p : Text) → a.open_ct iv (a.seal iv p) ≡ some p
  pub overhead : (iv p : Text) → length (a.seal iv p) ≤ length p + 64

-- An AEAD under another key: it authenticates nothing that `a` sealed.
abbrev pub Refuses : Aead → Aead → Type 0
Refuses a c = (iv p : Text) → c.open_ct iv (a.seal iv p) ≡ none

try_skips :
    (a : Aead) (before after : List Aead) (iv p : Text)
    → All (Refuses a) before
    → a.open_ct iv (a.seal iv p) ≡ some p
    → try_candidates (before ++ (a ∷ after)) iv (a.seal iv p) ≡ some p
unfolding try_candidates
try_skips a [] after iv p r o = rw o
try_skips a (c ∷ before) after iv p r o = rw (r.0 iv p) (try_skips a before after iv p r.1 o)

new_seal_reader_inv :
    (src : Reader) (a : Aead) (p : SealParams) (w : Pull SealInner)
    → new_seal_reader src a p ≡ ok w
    → (seg_size_of p.segment_size ≤ max_segment_size)
      × (encode_header
            (record { mode = p.mode; segment_size = seg_size_of p.segment_size; key_id = p.key_id })
          ≡ ok w.pending)
      × (w.inner ≡ record {
        src = src;
        aead = a;
        mode = p.mode;
        dek = p.dek;
        key_id = p.key_id;
        seg_size = seg_size_of p.segment_size;
        index = 0;
      })
      × (w.src_done ≡ false)
      × (w.kept_err ≡ none)
unfolding new_seal_reader
new_seal_reader_inv src a p w e = ground arith

seal_inv :
    (src : Reader) (a : Aead) (p : SealParams) (w : Pull SealInner)
    → p.aead ≡ some a
    → seal src p ≡ ok w
    → (mode_valid p.mode ≡ true) × (new_seal_reader src a p ≡ ok w)
unfolding seal
seal_inv src a p w e h = (ground arith, ground arith)

module _ (go : Primitives) (a : Aead) (sound : IsSound go a) (p : SealParams) where
  abbrev size : ℕ
  size = seg_size_of p.segment_size

  -- The IV of a segment, under either mode.
  abbrev iv_of : ℕ → Text → Text
  iv_of i s =
      if p.mode == iv_mode_random
      then (sound.random_ok i).0
      else convergent_iv go p.dek p.key_id s i

  iv_of_ok :
      (i : ℕ) (bs s : Text)
      → mode_valid p.mode ≡ true
      → segment_iv go (inner_at a p.mode p.dek p.key_id size i bs) s ≡ ok (iv_of i s)
  unfolding segment_iv
  iv_of_ok i bs s v = ground (arith, (sound.random_ok i).1)

  abbrev message : ℕ → Text → Text
  message i s = go.sha256 s ++ (p.key_id ++ be64 i)

  abbrev mac : ℕ → Text → Text
  mac i s = go.hmac_sha256 p.dek (message i s)

  length-iv_of : (i : ℕ) (s : Text) → length (iv_of i s) ≡ 12
  unfolding convergent_iv
  length-iv_of i s = elim (Bool-cases (p.mode == iv_mode_random)) [
    | inl e ↦ rw e (sound.random_ok i).2
    | inr e ↦ rw e (omega (arith, length-take 12 (mac i s), sound.hmac_length p.dek (message i s)))
  ]

  -- The blob of a plaintext in segments.
  abbrev blob_of : List Text → Text
  blob_of ss = fixed_part p.mode size (length p.key_id) ++ (p.key_id ++ frames a iv_of 0 ss)

  abbrev start : Text → List Aead → Pull OpenInner
  start bs cands = record {
    inner = record { src = reader bs; aeads = cands; header_done = false };
    pending = [];
    src_done = false;
    kept_err = none;
  }

  abbrev writer_start : Text → Text → Pull SealInner
  writer_start plain hdr = writer_at a p.mode p.dek p.key_id size 0 plain hdr

  -- What Seal returns: a writer at the start of the plaintext with the header pending.
  seal_starts :
      (plain : Text) (w : Pull SealInner)
      → p.aead ≡ some a
      → seal (reader plain) p ≡ ok w
      → (mode_valid p.mode ≡ true)
        × (size ≤ max_segment_size)
        × (length p.key_id ≤ 255)
        × (w ≡ writer_start plain (fixed_part p.mode size (length p.key_id) ++ p.key_id))
  seal_starts plain w e h =
      let (v, n) = seal_inv (reader plain) a p w e h in
      let (fits, hdr, inner, done, kept) = new_seal_reader_inv (reader plain) a p w n in
      let (_, short_key, bytes) = encode_header_inv _ w.pending hdr in (v, fits, short_key, cc)

  size_pos : 0 < size
  unfolding seg_size_of
  size_pos = ground arith

  start_fill :
      (cands : List Aead) (ss : List Text)
      → mode_valid p.mode ≡ true
      → size ≤ max_segment_size
      → length p.key_id ≤ 255
      → open_fill (start (blob_of ss) cands) ≡ (none, opener_at cands (frames a iv_of 0 ss) [])
  unfolding open_fill
  start_fill cands ss v f l =
      rw (
        read_header_written p.mode size p.key_id (frames a iv_of 0 ss) v f (omega arith),
        open_fill,
      )

  writer_start_yields :
      (ss : List Text)
      → mode_valid p.mode ≡ true
      → IsSplit size ss
      → YieldsSome
          (seal_fill go)
          (writer_start (concat ss) (fixed_part p.mode size (length p.key_id) ++ p.key_id))
          (blob_of ss)
          eof
  writer_start_yields ss v split =
      let hdr : Text = fixed_part p.mode size (length p.key_id) ++ p.key_id in
      let (m, y) =
        writer_yields go a p.mode p.dek p.key_id size size_pos iv_of (λ i bs s. iv_of_ok i bs s v) 0
          ss split in
      (
        length hdr + m,
        subst (λ t. Yields (seal_fill go) (length hdr + m) (writer_start (concat ss) hdr) t eof)
            (append_assoc (fixed_part p.mode size (length p.key_id)) p.key_id (frames a iv_of 0 ss))
            (Yields-chunk (seal_fill go) m (writer_at a p.mode p.dek p.key_id size 0 (concat ss) [])
              hdr (frames a iv_of 0 ss) eof y),
      )

  opener_start_yields :
      (cands : List Aead) (ss : List Text)
      → mode_valid p.mode ≡ true
      → size ≤ max_segment_size
      → length p.key_id ≤ 255
      → IsSplit size ss
      → ((i s : Text) → try_candidates cands i (a.seal i s) ≡ some s)
      → YieldsSome open_fill (start (blob_of ss) cands) (concat ss) eof
  opener_start_yields cands ss v f l split opens =
      let (m, y) =
        opener_yields a cands size iv_of f length-iv_of sound.overhead opens 0 ss split in
      (suc m, fills refl refl refl (rw (fill_kept_ok open_fill _ _ (start_fill cands ss v f l)) y))

  -- Over an AEAD that opens what it seals and adds at most 64 bytes, an HMAC of 32 bytes and a
  -- random source that does not fail: a plaintext that Seal accepts is framed into a blob, and Open
  -- over that blob gives the plaintext back and a clean end, with any buffers of at least one byte on
  -- either side, from some amount of fuel on. The sealing AEAD may stand anywhere among the
  -- candidates, if those before it refuse what it sealed (key rotation).
  pub seal-open :
      (plain : Text) (w : Pull SealInner) (c : Option Aead) (cs : List (Option Aead))
      (before after : List Aead)
      → p.aead ≡ some a
      → seal (reader plain) p ≡ ok w
      → check_candidates (c ∷ cs) ≡ ok (before ++ (a ∷ after))
      → All (Refuses a) before
      → (blob : Text) × (o : Pull OpenInner) × (rounds : ℕ) × (open_blob (reader blob) (c ∷ cs)
          ≡ ok o)
        × ((f k : ℕ)
            → rounds < f
            → (drain (seal_fill go) f (suc k) w ≡ some (blob, eof))
              × (drain open_fill f (suc k) o ≡ some (plain, eof)))
  unfolding open_blob
  seal-open plain w c cs before after e h chk refuse =
      from_split (exists-IsSplit (length plain) size plain (omega arith) size_pos)
    where
      cands : List Aead
      cands = before ++ (a ∷ after)

      hdr : Text
      hdr = fixed_part p.mode size (length p.key_id) ++ p.key_id

      from_split :
          (ss : List Text) × IsSplit size ss × (concat ss ≡ plain)
          → (blob : Text) × (o : Pull OpenInner) × (rounds : ℕ) × (open_blob (reader blob) (c ∷ cs)
              ≡ ok o)
            × ((f k : ℕ)
                → rounds < f
                → (drain (seal_fill go) f (suc k) w ≡ some (blob, eof))
                  × (drain open_fill f (suc k) o ≡ some (plain, eof)))
      from_split (ss, split, whole) =
          let (v, fits, key, starts) = seal_starts plain w e h in
          let (m, y) = writer_start_yields ss v split in
          let (m', y') =
            opener_start_yields cands ss v fits key split
              (λ i s. try_skips a before after i s refuse (sound.open-seal i s)) in
          let w_starts : writer_start (concat ss) hdr ≡ w =
            ap (λ t. writer_start t hdr) whole ∙ sym starts in
          (
            blob_of ss,
            start (blob_of ss) cands,
            m + m',
            rw chk,
            λ f k l. (
              subst (λ t. drain (seal_fill go) f (suc k) t ≡ some (blob_of ss, eof)) w_starts
                  (drain-Yields (seal_fill go) f k m (writer_start (concat ss) hdr) (blob_of ss) eof
                    y (omega arith)),
              subst (λ t. drain open_fill f (suc k) (start (blob_of ss) cands) ≡ some (t, eof))
                  whole
                  (drain-Yields open_fill f k m' (start (blob_of ss) cands) (concat ss) eof y'
                    (omega arith)),
            ),
          )
