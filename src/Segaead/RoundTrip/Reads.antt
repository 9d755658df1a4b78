-- ===== src/Segaead/RoundTrip/Reads.antt =====
-- io.ReadFull at the three places where the framing calls it, and one frame read back.
use scrinium.Base.{
  ℕ, ◌%◌, ◌^◌, ◌≤◌, ◌<◌, Text, true, false, none, some, List, [], ◌∷◌, ◌++◌, ◌≡◌, refl, arith, leb,
  length, drop, length-append, take-append, drop-append, append_assoc, be32, be_value,
  be_value-be32, le→ltb_false,
}
use scrinium.Segaead.{ok, Reader, full, short, at_eof, read_full, Aead, max_ciphertext_len}
use scrinium.Segaead.Seal.{frame_of}
use scrinium.Segaead.Open.{try_candidates, read_frame}

-- A reader that ends cleanly.
abbrev pub reader : Text → Reader
reader bs = record { bytes = bs; fault = none }

le→leb : (a b : ℕ) → a ≤ b → leb a b ≡ true
le→leb a b h = ground arith

lt→leb_false : (a b : ℕ) → b < a → leb a b ≡ false
lt→leb_false a b h = ground arith

pub read_full_exact :
    (n : ℕ) (xs ys : Text) → length xs ≡ n → read_full n (reader (xs ++ ys)) ≡ full xs (reader ys)
unfolding read_full
read_full_exact n xs ys e =
    rw (le→leb n (length (xs ++ ys)) (omega (arith, length-append xs ys)))
      (rw (take-append n xs ys e, drop-append n xs ys e))

pub read_full_short :
    (n b : ℕ) (bs : Text) → length (b ∷ bs) < n → read_full n (reader (b ∷ bs)) ≡ short (b ∷ bs)
unfolding read_full
read_full_short n b bs h = rw (lt→leb_false n (length (b ∷ bs)) h)

pub read_full_end : (n : ℕ) → 0 < n → read_full n (reader []) ≡ at_eof
unfolding read_full
read_full_end n h = rw (lt→leb_false n 0 h)

length-be32 : (n : ℕ) → length (be32 n) ≡ 4
unfolding be32
length-be32 n = refl

module _ (aeads : List Aead) (a : Aead) (iv plain rest : Text) (iv_length : length iv ≡ 12)
    (fits : length (a.seal iv plain) ≤ max_ciphertext_len)
    (opens : try_candidates aeads iv (a.seal iv plain) ≡ some plain) where
  abbrev ct : Text
  ct = a.seal iv plain

  abbrev fh : Text
  fh = iv ++ be32 (length ct)

  ct_len_fits : length ct % 2 ^ 32 ≡ length ct
  ct_len_fits = omega arith

  regroup : frame_of a iv plain ++ rest ≡ fh ++ (ct ++ rest)
  unfolding frame_of
  regroup = rw ct_len_fits (simp append_assoc)

  fh_length : length fh ≡ 16
  fh_length = omega (arith, length-append iv (be32 (length ct)), length-be32 (length ct))

  read_ct_len : be_value (drop 12 fh) 0 ≡ length ct
  read_ct_len =
      rw (drop-append 12 iv (be32 (length ct)) iv_length) (be_value-be32 (length ct) (omega arith))

  -- A frame that was sealed is read back, and the source goes on behind it.
  pub read_frame_sealed :
      read_frame aeads (reader (frame_of a iv plain ++ rest)) ≡ ok (some (plain, reader rest))
  unfolding read_frame
  read_frame_sealed = rw regroup (
      rw (read_full_exact 16 fh (ct ++ rest) fh_length, read_frame)
        (rw (read_ct_len, le→ltb_false max_ciphertext_len (length ct) fits)
          (rw (read_full_exact (length ct) ct rest refl)
            (rw (take-append 12 iv (be32 (length ct)) iv_length, opens)))))
