-- ===== src/Segaead/Tests.antt =====
-- Toy primitives, a small blob, and the theorems of the siblings at them.
use scrinium.Base.{
  ℕ, zero, suc, ◌≤◌, ◌<◌, Text, Option, none, some, false, [], ◌∷◌, ◌++◌, ◌≡◌, refl, arith, take,
  if◌then◌else◌, ◌==◌, be16, be32, be_value, text_eq,
}
use scrinium.Segaead.{
  ok, err, Aead, encode_header, decode_fixed_header, max_segment_size, read_full, segment_auth,
}
use scrinium.Segaead.Header.{decode_fixed_header_only}
use scrinium.Segaead.Pull.{Pull, eof, drain, read, fill_kept}
use scrinium.Segaead.Seal.{
  Primitives, SealParams, SealInner, seal, seal_fill, seal_segment, segment_iv, frame_of,
  convergent_iv, new_seal_reader, seg_size_of,
}
use scrinium.Segaead.Open.{
  OpenInner, check_candidates, open_blob, open_fill, read_frame, try_candidates,
}
use scrinium.Segaead.RoundTrip.Reads.{reader}
use scrinium.Segaead.RoundTrip.Whole.{IsSound, seal-open}
use scrinium.Segaead.RoundTrip.Authentic.{FrameRead, read_frame_authentic}

abbrev zeros : ℕ → Text
zeros zero = []
zeros (suc n) = 0 ∷ zeros n

-- An AEAD that only marks what it sealed with the byte of its key.
abbrev open_marked : ℕ → Text → Option Text
open_marked k [] = none
open_marked k (t ∷ p) = if t == k then some p else none

abbrev marker : ℕ → Aead
marker k = record { nonce_size = 12; seal = λ iv p. k ∷ p; open_ct = λ iv ct. open_marked k ct }

abbrev toy : Primitives
toy = record { sha256 = λ t. t; hmac_sha256 = λ k m. zeros 32; random_iv = λ i. some (zeros 12) }

toy-IsSound : IsSound toy (marker 7)
toy-IsSound = record {
  hmac_length = λ k m. refl;
  random_ok = λ i. (zeros 12, refl, refl);
  open-seal = λ iv p. refl;
  overhead = λ iv p. omega arith;
}

-- Segments of two bytes.
abbrev params : SealParams
params = record {
  aead = some (marker 7);
  mode = 1;
  dek = 1 ∷ [];
  key_id = b'k' ∷ [];
  segment_size = 2;
}

abbrev header_bytes : Text
header_bytes = 0 ∷ b'S' ∷ b'B' ∷ b'1' ∷ 1 ∷ 1 ∷ 0 ∷ 0 ∷ 0 ∷ 2 ∷ 0 ∷ 1 ∷ b'k' ∷ []

abbrev sealer : Pull SealInner
sealer = record {
  inner = record {
    src = reader (10 ∷ 11 ∷ 12 ∷ []);
    aead = marker 7;
    mode = 1;
    dek = 1 ∷ [];
    key_id = b'k' ∷ [];
    seg_size = 2;
    index = 0;
  };
  pending = header_bytes;
  src_done = false;
  kept_err = none;
}

seal_starts_sealer : seal (reader (10 ∷ 11 ∷ 12 ∷ [])) params ≡ ok sealer
unfolding seal new_seal_reader encode_header seg_size_of be32 be16
seal_starts_sealer = refl

-- The whole blob, read with a buffer of five bytes.
seal_run :
    drain (seal_fill toy) 60 5 sealer
    ≡ some (
      header_bytes
          ++ (zeros 12
              ++ (0 ∷ 0 ∷ 0 ∷ 3 ∷ 7 ∷ 10 ∷ 11 ∷ (zeros 12 ++ (0 ∷ 0 ∷ 0 ∷ 2 ∷ 7 ∷ 12 ∷ [])))),
      eof,
    )
unfolding drain read fill_kept seal_fill seal_segment segment_iv frame_of convergent_iv read_full
    be32
seal_run = refl

-- A flipped tag is refused.
open_tampered :
    read_frame (marker 7 ∷ []) (reader (zeros 12 ++ (0 ∷ 0 ∷ 0 ∷ 2 ∷ 8 ∷ 12 ∷ [])))
    ≡ err segment_auth
unfolding read_frame read_full try_candidates be_value
open_tampered = refl

decode_fixed_header_only_example :
    (encode_header (record { mode = 1; segment_size = 2; key_id = 9 ∷ [] })
      ≡ ok (take 12 header_bytes ++ 9 ∷ []))
    × (2 ≤ max_segment_size)
decode_fixed_header_only_example =
    decode_fixed_header_only header_bytes (9 ∷ [])
      (record { mode = 1; segment_size = 2; key_id_len = 1 }) (omega arith)
      (unfold decode_fixed_header be_value text_eq in refl) refl (omega arith)

seal-open_example :
    (blob : Text) × (o : Pull OpenInner) × (rounds : ℕ) × (open_blob
        (reader blob)
        (some (marker 8) ∷ some (marker 7) ∷ [])
      ≡ ok o)
    × ((f k : ℕ)
        → rounds < f
        → (drain (seal_fill toy) f (suc k) sealer ≡ some (blob, eof))
          × (drain open_fill f (suc k) o ≡ some (10 ∷ 11 ∷ 12 ∷ [], eof)))
seal-open_example =
    seal-open toy (marker 7) toy-IsSound params (10 ∷ 11 ∷ 12 ∷ []) sealer (some (marker 8))
      (some (marker 7) ∷ []) (marker 8 ∷ []) [] refl seal_starts_sealer
      (unfold check_candidates in refl) (λ iv p. refl, tt)

read_frame_authentic_example :
    FrameRead
      (marker 7 ∷ [])
      (reader (zeros 12 ++ (0 ∷ 0 ∷ 0 ∷ 2 ∷ 7 ∷ 12 ∷ 99 ∷ [])))
      (12 ∷ [])
      (reader (99 ∷ []))
read_frame_authentic_example =
    read_frame_authentic (marker 7 ∷ []) (reader (zeros 12 ++ (0 ∷ 0 ∷ 0 ∷ 2 ∷ 7 ∷ 12 ∷ 99 ∷ [])))
      (12 ∷ []) (reader (99 ∷ [])) (unfold read_frame read_full try_candidates be_value in refl)
