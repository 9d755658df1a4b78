-- ===== src/Segaead/RoundTrip/Writes.antt =====
-- The plaintext as segments
use scrinium.Base.{
  ℕ, zero, suc, ◌+◌, ◌%◌, ◌^◌, ◌≤◌, ◌<◌, Text, true, false, Option, none, List, [], ◌∷◌, ◌++◌, ◌≡◌,
  refl, ap, ◌∙◌, arith, ltb, ltb→lt, leb, length, take, drop, length-take, length-drop,
  take-append-drop, append-nil, Bool-cases, inl, inr,
}
use scrinium.Segaead.{Error, ok, Aead}
use scrinium.Segaead.Pull.{Pull, fill_kept_ok, eof, ReadEnd, Yields, Yields-chunk, stops_eof, fills}
use scrinium.Segaead.Seal.{Primitives, SealInner, segment_iv, frame_of, seal_segment, seal_fill}
use scrinium.Segaead.RoundTrip.Reads.{reader, read_full_exact, read_full_short, read_full_end}

-- Segments of a plaintext: none empty, none longer than n, and only the last shorter.
abbrev pub IsSplit : ℕ → List Text → Type 0
IsSplit n [] = Unit {0}
IsSplit n (s ∷ ss) = (0 < length s) × (length s ≤ n) × (length s < n → ss ≡ []) × IsSplit n ss

abbrev pub concat : List Text → Text
concat [] = []
concat (s ∷ ss) = s ++ concat ss

-- Every plaintext has such segments.
pub exists-IsSplit :
    (fuel n : ℕ) (p : Text)
    → length p ≤ fuel
    → 0 < n
    → (ss : List Text) × IsSplit n ss × (concat ss ≡ p)
exists-IsSplit fuel n [] h l = ([], tt, refl)
exists-IsSplit zero n (b ∷ bs) h l = absurd (omega arith)
exists-IsSplit (suc fuel) n (b ∷ bs) h l = elim (Bool-cases (leb n (length (b ∷ bs)))) [
  | inl long ↦
      let p : Text = b ∷ bs in
      let (ss, split, whole) =
        exists-IsSplit fuel n (drop n p) (ground (arith, length-drop n p)) l in
      let n_le : n ≤ length p = ground arith in
      (
        take n p ∷ ss,
        (
          omega (arith, length-take n p),
          omega (arith, length-take n p),
          λ less. absurd (omega (arith, length-take n p)),
          split,
        ),
        ap (λ t. take n p ++ t) whole ∙ take-append-drop n p,
      )
  | inr small ↦ ((b ∷ bs) ∷ [], (omega arith, ground arith, λ _. refl, tt), append-nil (b ∷ bs))
]

-- A reader that yields, in some number of rounds.
abbrev pub YieldsSome :
    {X : Type 0} → (Pull X → Option Error × Pull X) → Pull X → Text → ReadEnd → Type 0
YieldsSome fill d out end = (n : ℕ) × Yields fill n d out end

-- Indices count modulo 2^64, as uint64.
abbrev pub next_index : ℕ → ℕ
next_index i = (i + 1) % 2 ^ 64

module _ (a : Aead) (mode : ℕ) (dek key_id : Text) (n : ℕ) where
  abbrev pub inner_at : ℕ → Text → SealInner
  inner_at i bs = record {
    src = reader bs;
    aead = a;
    mode = mode;
    dek = dek;
    key_id = key_id;
    seg_size = n;
    index = i;
  }

  abbrev pub writer_at : ℕ → Text → Text → Pull SealInner
  writer_at i bs p = record {
    inner = inner_at i bs;
    pending = p;
    src_done = false;
    kept_err = none;
  }

-- One frame for each segment, the IV by the index of the segment.
abbrev pub frames : Aead → (ℕ → Text → Text) → ℕ → List Text → Text
frames a iv i [] = []
frames a iv i (s ∷ ss) = frame_of a (iv i s) s ++ frames a iv (next_index i) ss

module _ (go : Primitives) (a : Aead) (mode : ℕ) (dek key_id : Text) (n : ℕ) (n_pos : 0 < n)
    (iv : ℕ → Text → Text)
    (iv_ok : (i : ℕ) (bs s : Text)
      → segment_iv go (inner_at a mode dek key_id n i bs) s ≡ ok (iv i s)) where
  fill_full :
      (i : ℕ) (s bs : Text)
      → length s ≡ n
      → seal_fill go (writer_at a mode dek key_id n i (s ++ bs) [])
        ≡ (none, writer_at a mode dek key_id n (next_index i) bs (frame_of a (iv i s) s))
  unfolding seal_fill seal_segment
  fill_full i s bs e = rw (read_full_exact n s bs e, seal_fill) (rw (iv_ok i bs s, seal_segment))

  fill_short :
      (i b : ℕ) (s : Text)
      → length (b ∷ s) < n
      → seal_fill go (writer_at a mode dek key_id n i (b ∷ s) []) ≡ (
        none,
        record (writer_at a mode dek key_id n
            (next_index i)
            []
            (frame_of a (iv i (b ∷ s)) (b ∷ s))) { src_done = true },
      )
  unfolding seal_fill seal_segment
  fill_short i b s h =
      rw (read_full_short n b s h, seal_fill) (rw (iv_ok i [] (b ∷ s), seal_segment))

  fill_end :
      (i : ℕ)
      → seal_fill go (writer_at a mode dek key_id n i [] [])
        ≡ (none, record (writer_at a mode dek key_id n i [] []) { src_done = true })
  unfolding seal_fill
  fill_end i = rw (read_full_end n n_pos, seal_fill)

  last_segment :
      (i b : ℕ) (s : Text)
      → length (b ∷ s) < n
      → YieldsSome
          (seal_fill go)
          (writer_at a mode dek key_id n i (b ∷ s) [])
          (frame_of a (iv i (b ∷ s)) (b ∷ s) ++ [])
          eof
  last_segment i b s h =
      let frame : Text = frame_of a (iv i (b ∷ s)) (b ∷ s) in
      (
        suc (length frame + 0),
        fills refl refl refl (
            rw (fill_kept_ok (seal_fill go) _ _ (fill_short i b s h)) (
              Yields-chunk (seal_fill go) 0
                (record (writer_at a mode dek key_id n (next_index i) [] []) { src_done = true })
                frame [] eof (stops_eof refl refl refl refl refl))),
      )

  -- The writer yields one frame for each segment of its source, under the index of the segment.
  pub writer_yields :
      (i : ℕ) (ss : List Text)
      → IsSplit n ss
      → YieldsSome
          (seal_fill go)
          (writer_at a mode dek key_id n i (concat ss) [])
          (frames a iv i ss)
          eof
  writer_yields i [] split = (
    1,
    fills refl refl refl
        (rw (fill_kept_ok (seal_fill go) _ _ (fill_end i)) (stops_eof refl refl refl refl refl)),
  )
  writer_yields i ([] ∷ ss) split = absurd (omega (arith, split.0))
  writer_yields i ((b ∷ s) ∷ ss) split = elim (Bool-cases (ltb (length (b ∷ s)) n)) [
    | inl less ↦
        rw (split.2 (ltb→lt _ _ less))
          (rw (append-nil (b ∷ s)) (last_segment i b s (ltb→lt _ _ less)))
    | inr fits ↦
        let (m, y) = writer_yields (next_index i) ss split.3 in
        (
          suc (length (frame_of a (iv i (b ∷ s)) (b ∷ s)) + m),
          fills refl refl refl (
              rw (fill_kept_ok (seal_fill go) _ _ (fill_full i (b ∷ s) (concat ss) (ground arith)))
                (Yields-chunk (seal_fill go) m
                  (writer_at a mode dek key_id n (next_index i) (concat ss) [])
                  (frame_of a (iv i (b ∷ s)) (b ∷ s)) (frames a iv (next_index i) ss) eof y)),
        )
  ]
