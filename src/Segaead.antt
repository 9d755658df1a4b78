-- ===== src/Segaead.antt =====
-- engine/pipeline/internal/segaead: the header of a segmented-AEAD blob (format.go), and the
-- primitives of the two readers. The writer is in Segaead/Seal.antt, the reader in
-- Segaead/Open.antt, the loop that both share in Segaead/Pull.antt.
pub mod Header
pub mod Pull
pub mod Seal
pub mod Open
pub mod RoundTrip
mod Tests
use scrinium.Base.{
  ℕ, zero, suc, ◌+◌, ◌*◌, ◌^◌, ◌≤◌, ◌<◌, Text, Bool, true, false, ◌||◌, Option, none, some, List,
  [], ◌∷◌, ◌++◌, ltb, leb, ◌==◌, if◌then◌else◌, length, take, drop, text_eq, be16, be32, be_value,
}

pub data Error : Type 0 where
  bad_magic bad_mode truncated segment_too_large segment_auth key_id_too_long : Error
  unsupported_version : ℕ → Error
  no_candidates wrong_nonce_size dek_required random_failed read_failed : Error

pub data Result {ℓ} (A : Type ℓ) : Type ℓ where
  ok : A → Result A
  err : Error → Result A

infixl 5 ◌>>=◌
abbrev pub ◌>>=◌ {ℓ κ} : {A : Type ℓ} {B : Type κ} → Result A → (A → Result B) → Result B
ok a >>= f = f a
err e >>= f = err e

abbrev pub magic : Text
magic = 0 ∷ b'S' ∷ b'B' ∷ b'1' ∷ []

abbrev pub version : ℕ
version = 1

abbrev pub iv_mode_random : ℕ
iv_mode_random = 0

abbrev pub iv_mode_convergent : ℕ
iv_mode_convergent = 1

-- IVMode.valid
abbrev pub mode_valid : ℕ → Bool
mode_valid m = m == iv_mode_random || m == iv_mode_convergent

abbrev pub iv_len : ℕ
iv_len = 12

abbrev pub fixed_header_len : ℕ
fixed_header_len = 12

abbrev pub frame_header_len : ℕ
frame_header_len = 16

abbrev pub max_key_id_len : ℕ
max_key_id_len = 255

-- 64 MiB
abbrev pub max_segment_size : ℕ
max_segment_size = 64 * 2 ^ 20

abbrev pub max_aead_overhead : ℕ
max_aead_overhead = 64

abbrev pub max_ciphertext_len : ℕ
max_ciphertext_len = max_segment_size + max_aead_overhead

abbrev pub default_segment_size : ℕ
default_segment_size = 2 ^ 20

pub record BlobHeader : Type 0 where
  pub mode : ℕ
  pub segment_size : ℕ
  pub key_id : Text

unfoldable pub encode_header : BlobHeader → Result Text
encode_header h =
    if mode_valid h.mode
    then (if ltb max_key_id_len (length h.key_id)
        then err key_id_too_long
        else ok (
            magic
            ++ version ∷ h.mode ∷ be32 h.segment_size
            ++ (be16 (length h.key_id) ++ h.key_id)))
    else err bad_mode

-- `b[i]`, where the length was tested.
abbrev pub byte_at : ℕ → Text → ℕ
byte_at i [] = 0
byte_at zero (b ∷ bs) = b
byte_at (suc i) (b ∷ bs) = byte_at i bs

-- The mode, the segment size and the length of the KeyID.
pub record FixedHeader : Type 0 where
  pub mode : ℕ
  pub segment_size : ℕ
  pub key_id_len : ℕ

unfoldable pub decode_fixed_header : Text → Result FixedHeader
decode_fixed_header b =
    if ltb (length b) fixed_header_len
    then err truncated
    else if text_eq (take 4 b) magic
    then (if byte_at 4 b == version
        then (if mode_valid (byte_at 5 b)
            then (let seg_size = be_value (take 4 (drop 6 b)) 0 in
                if ltb max_segment_size seg_size
                then err segment_too_large
                else ok (record {
                  mode = byte_at 5 b;
                  segment_size = seg_size;
                  key_id_len = be_value (take 2 (drop 10 b)) 0;
                }))
            else err bad_mode)
        else err (unsupported_version (byte_at 4 b)))
    else err bad_magic

-- An io.Reader: the bytes that it still gives, and then an error or, at `none`, io.EOF.
pub record Reader : Type 0 where
  pub bytes : Text
  pub fault : Option Error

pub data ReadFull : Type 0 where
  full : Text → Reader → ReadFull
  short : Text → ReadFull
  at_eof : ReadFull
  faulted : Error → ReadFull

-- io.ReadFull into a buffer of n bytes: `short` is io.ErrUnexpectedEOF, `at_eof` io.EOF.
unfoldable pub read_full : ℕ → Reader → ReadFull
read_full n r =
    if leb n (length r.bytes)
    then full (take n r.bytes) (record r { bytes = drop n r.bytes })
    else (elim r.fault [
      | some e ↦ faulted e
      | none ↦ (elim r.bytes [ [] ↦ at_eof | b ∷ bs ↦ short r.bytes ])
    ])

-- crypto/cipher.AEAD, without additional data.
pub record Aead : Type 0 where
  pub nonce_size : ℕ
  pub seal : Text → Text → Text
  pub open_ct : Text → Text → Option Text
