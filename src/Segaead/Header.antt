-- ===== src/Segaead/Header.antt =====
-- The header codec of format.go: what is written is read back, and nothing else is read.
use scrinium.Base.{
  ℕ, ◌^◌, ◌≤◌, ◌<◌, Text, [], ◌∷◌, ◌++◌, ◌≡◌, refl, sym, ap, ◌∙◌, arith, length, take, drop, All,
  IsByte, be16, be32, be_value, text_eq, le→ltb_false, true, ◌/◌, ◌%◌,
}
use scrinium.Segaead.{
  mode_valid, ok, BlobHeader, FixedHeader, magic, version, max_segment_size, max_key_id_len,
  encode_header, decode_fixed_header,
}

-- The first twelve bytes of a header.
abbrev pub fixed_part : ℕ → ℕ → ℕ → Text
fixed_part mode size n = magic ++ version ∷ mode ∷ be32 size ++ be16 n

-- What the encoder writes, and when.
pub encode_header_inv :
    (h : BlobHeader) (out : Text)
    → encode_header h ≡ ok out
    → (mode_valid h.mode ≡ true)
      × (length h.key_id ≤ max_key_id_len)
      × (out ≡ fixed_part h.mode h.segment_size (length h.key_id) ++ h.key_id)
unfolding encode_header be32 be16
encode_header_inv h out e = (ground arith, ground arith, ground arith)

be_value_four :
    (n : ℕ)
    → n < 2 ^ 32
    → be_value ((n / 2 ^ 24 % 256) ∷ (n / 2 ^ 16 % 256) ∷ (n / 2 ^ 8 % 256) ∷ (n % 256) ∷ []) 0 ≡ n
unfolding be_value
be_value_four n h = omega arith

be_value_two : (n : ℕ) → n < 2 ^ 16 → be_value ((n / 2 ^ 8 % 256) ∷ (n % 256) ∷ []) 0 ≡ n
unfolding be_value
be_value_two n h = omega arith

pub decode-fixed_part :
    (m size n : ℕ)
    → mode_valid m ≡ true
    → size ≤ max_segment_size
    → n < 2 ^ 16
    → decode_fixed_header (fixed_part m size n)
      ≡ ok (record { mode = m; segment_size = size; key_id_len = n })
unfolding decode_fixed_header be32 be16 text_eq
decode-fixed_part m size n v s l =
    rw (v, be_value_four size (omega arith), be_value_two n l, le→ltb_false max_segment_size size s)

-- A header that encode_header accepts, of a size that decode_fixed_header accepts, is read back: the
-- twelve fixed bytes give its mode, its size and the length of its KeyID, and the rest is the KeyID,
-- whatever follows it.
decode-encode_header :
    (h : BlobHeader) (out rest : Text)
    → h.segment_size ≤ max_segment_size
    → encode_header h ≡ ok out
    → (decode_fixed_header (take 12 (out ++ rest))
        ≡ ok
            (record { mode = h.mode; segment_size = h.segment_size; key_id_len = length h.key_id }))
      × (drop 12 (out ++ rest) ≡ h.key_id ++ rest)
decode-encode_header h out rest s e =
    let (v, l, o) = encode_header_inv h out e in
    rw o (
      (unfold be32 be16 in
          decode-fixed_part h.mode h.segment_size (length h.key_id) v s (omega arith)),
      (unfold be32 be16 in refl),
    )

fixed_bytes :
    (b : Text) (f : FixedHeader)
    → All IsByte b
    → decode_fixed_header b ≡ ok f
    → (take 12 b ≡ fixed_part f.mode f.segment_size f.key_id_len)
      × (mode_valid f.mode ≡ true)
      × (f.segment_size ≤ max_segment_size)
unfolding decode_fixed_header be32 be16 text_eq be_value
fixed_bytes (b0 ∷ b1 ∷ b2 ∷ b3 ∷ b4 ∷ b5 ∷ b6 ∷ b7 ∷ b8 ∷ b9 ∷ b10 ∷ b11 ∷ rest) f all h =
    (ground arith, ground arith, ground arith)
fixed_bytes b f all h = cc

-- What encode_header writes for a header within its limits.
written :
    (mode size : ℕ) (k : Text)
    → mode_valid mode ≡ true
    → length k ≤ max_key_id_len
    → encode_header (record { mode = mode; segment_size = size; key_id = k })
      ≡ ok (fixed_part mode size (length k) ++ k)
unfolding encode_header be32 be16
written mode size k v l = ground (arith, v, l)

-- Nothing but what the encoder writes is read: where decode_fixed_header accepts bytes and the length of
-- the KeyID that it returns is that of a KeyID within MaxKeyIDLen (the decoder itself accepts any length
-- of two bytes), encode_header accepts the mode, the segment size and the KeyID, and writes exactly the
-- first twelve of the bytes and then the KeyID; the segment size is within its limit.
pub decode_fixed_header_only :
    (b k : Text) (f : FixedHeader)
    → All IsByte b
    → decode_fixed_header b ≡ ok f
    → length k ≡ f.key_id_len
    → length k ≤ max_key_id_len
    → (encode_header (record { mode = f.mode; segment_size = f.segment_size; key_id = k })
        ≡ ok (take 12 b ++ k))
      × (f.segment_size ≤ max_segment_size)
decode_fixed_header_only b k f all h same l =
    let (bytes, valid, s) = fixed_bytes b f all h in
    (
      written f.mode f.segment_size k valid l
          ∙ ap (λ t. ok (t ++ k)) (ap (fixed_part f.mode f.segment_size) same ∙ sym bytes),
      s,
    )
