-- ===== src/Segaead/RoundTrip/Authentic.antt =====
-- What the reader of open.go hands out was authenticated, and was read within the size bound.
use scrinium.Base.{
  ℕ, ◌≤◌, Text, some, List, [], ◌∷◌, ◌++◌, ◌≡◌, ◌⊎◌, inl, inr, refl, sym, ap, ap₂, ◌∙◌, arith,
  length, take, drop, length-take, take-append-drop, be_value, Option-cases,
}
use scrinium.Segaead.{ok, Reader, ReadFull, full, read_full, Aead, max_ciphertext_len}
use scrinium.Segaead.Open.{try_candidates, read_frame}

-- Some candidate opens the ciphertext to that plaintext.
abbrev pub Authenticates : List Aead → Text → Text → Text → Type 0
Authenticates [] iv ct pt = ⊥
Authenticates (a ∷ others) iv ct pt = (a.open_ct iv ct ≡ some pt) ⊎ Authenticates others iv ct pt

try_candidates_sound :
    (aeads : List Aead) (iv ct pt : Text)
    → try_candidates aeads iv ct ≡ some pt
    → Authenticates aeads iv ct pt
unfolding try_candidates
try_candidates_sound [] iv ct pt h = cc
try_candidates_sound (a ∷ others) iv ct pt h = elim (Option-cases (a.open_ct iv ct)) [
  | inl e ↦ inr (try_candidates_sound others iv ct pt (rw e at h))
  | inr (x, e) ↦ inl (ground arith)
]

pub read_full_inv :
    (n : ℕ) (r after : Reader) (xs : Text)
    → read_full n r ≡ full xs after
    → (length xs ≡ n) × (r.bytes ≡ xs ++ after.bytes)
unfolding read_full
read_full_inv n r after xs h =
    let got : take n r.bytes ≡ xs = ground arith in
    let left : drop n r.bytes ≡ after.bytes = ground arith in
    (ground (arith, length-take n r.bytes), sym (take-append-drop n r.bytes) ∙ ap₂ ◌++◌ got left)

-- The frame that a successful readSegment consumed.
pub record FrameRead (aeads : List Aead) (src : Reader) (pt : Text) (after : Reader) : Type 0 where
  pub fh : Text
  pub ct : Text
  pub fh_length : length fh ≡ 16
  pub ct_length : length ct ≡ be_value (drop 12 fh) 0
  pub bounded : length ct ≤ max_ciphertext_len
  pub consumed : src.bytes ≡ fh ++ (ct ++ after.bytes)
  pub authentic : Authenticates aeads (take 12 fh) ct pt

-- Whatever bytes the source holds, what one frame hands out is what some candidate authenticated,
-- under the IV and over the ciphertext that stand in the source there; that ciphertext is as long
-- as its ct_len says and within the bound on what is read at once; and the source goes on right
-- behind it.
pub read_frame_authentic :
    (aeads : List Aead) (src : Reader) (pt : Text) (after : Reader)
    → read_frame aeads src ≡ ok (some (pt, after))
    → FrameRead aeads src pt after
read_frame_authentic aeads src pt after h = by_header (read_full 16 src) refl
  where
    by_body :
        (fh : Text) (rest : Reader)
        → read_full 16 src ≡ full fh rest
        → (body : ReadFull) → read_full (be_value (drop 12 fh) 0) rest ≡ body
        → FrameRead aeads src pt after
    by_body fh rest e (full ct later) e' =
        let head = read_full_inv 16 src rest fh e in
        let tail = read_full_inv (be_value (drop 12 fh) 0) rest later ct e' in
        let same : later ≡ after = unfold read_frame in ground arith in
        let opened : try_candidates aeads (take 12 fh) ct ≡ some pt =
          unfold read_frame in ground arith in
        let small : be_value (drop 12 fh) 0 ≤ max_ciphertext_len =
          unfold read_frame in ground arith in
        record {
          fh = fh;
          ct = ct;
          fh_length = head.0;
          ct_length = tail.0;
          bounded = omega (arith, tail.0);
          consumed = head.1 ∙ ap (λ t. fh ++ t) (tail.1 ∙ ap (λ (t : Reader). ct ++ t.bytes) same);
          authentic = try_candidates_sound aeads (take 12 fh) ct pt opened;
        }
    by_body fh rest e _ e' = absurd (unfold read_frame in ground arith)

    by_header : (r : ReadFull) → read_full 16 src ≡ r → FrameRead aeads src pt after
    by_header (full fh rest) e = by_body fh rest e (read_full (be_value (drop 12 fh) 0) rest) refl
    by_header _ e = absurd (unfold read_frame in ground arith)
