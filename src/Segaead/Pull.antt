-- ===== src/Segaead/Pull.antt =====
-- The Read methods of SealReader (seal.go) and openReader (open.go) have one body over two `fill`
-- methods: this is that body, io.ReadAll over it, and the bytes that it gives whatever the sizes of
-- the caller's buffers are.
use Prim.Native.Nat.add
use scrinium.Base.{
  ◌+◌, length, ℕ, zero, suc, ◌≤◌, ◌<◌, Text, Bool, true, false, Option, none, some, [], ◌∷◌, ◌++◌,
  ◌≡◌, refl, ap, ap₂, subst, sym, ◌∙◌, arith, take, drop, if◌then◌else◌,
}
use scrinium.Segaead.{Error}

-- What the two readers share: bytes not yet handed out, the end of the source seen, a kept error.
-- `inner` is what only `fill` uses.
pub record Pull (X : Type 0) : Type 0 where
  pub inner : X
  pub pending : Text
  pub src_done : Bool
  pub kept_err : Option Error

pub data ReadEnd : Type 0 where
  eof : ReadEnd
  failed : Error → ReadEnd

-- One Read: the bytes copied into the buffer, the error beside them, and the reader after it.
pub record ReadResult (X : Type 0) : Type 0 where
  pub got : Text
  pub stop : Option ReadEnd
  pub after : Pull X

-- `d.err = err`
abbrev keep : {X : Type 0} → Option Error × Pull X → Pull X
keep (none, d) = d
keep (some e, d) = record d { kept_err = some e }

module _ {X : Type 0} (fill : Pull X → Option Error × Pull X) where
  -- A failed fill leaves its error in the reader. With nothing pending Go returns it at once, which
  -- is what the next round of the loop does.
  unfoldable pub fill_kept : Pull X → Pull X
  fill_kept d = keep (fill d)

  pub fill_kept_ok : (d d' : Pull X) → fill d ≡ (none, d') → fill_kept d ≡ d'
  unfolding fill_kept
  fill_kept_ok d d' e = ap keep e

  pub fill_kept_failed :
      (d d' : Pull X) (x : Error)
      → fill d ≡ (some x, d')
      → fill_kept d ≡ record d' { kept_err = some x }
  unfolding fill_kept
  fill_kept_failed d d' x e = ap keep e

  -- Read with a buffer of k bytes. The loop goes on while nothing is pending; `none` means that the
  -- fuel ran out.
  unfoldable pub read : ℕ → ℕ → Pull X → Option (ReadResult X)
  read zero k d = none
  read (suc f) k d =
      let again = read f k (fill_kept d) in
      elim d.pending [
        | [] ↦ (elim d.kept_err [
          | some e ↦ some (record { got = []; stop = some (failed e); after = d })
          | none ↦
              if d.src_done then some (record { got = []; stop = some eof; after = d }) else again
        ])
        | b ∷ bs ↦ some (record {
          got = take k (b ∷ bs);
          stop = none;
          after = record d { pending = drop k (b ∷ bs) };
        })
      ]

  -- io.ReadAll with buffers of k bytes.
  unfoldable pub drain : ℕ → ℕ → Pull X → Option (Text × ReadEnd)
  drain zero k d = none
  drain (suc f) k d = elim (read (suc f) k d) [
    | none ↦ none
    | some r ↦ (elim r.stop [
      | some e ↦ some (r.got, e)
      | none ↦ (elim (drain f k r.after) [ none ↦ none | some (out, e) ↦ some (r.got ++ out, e) ])
    ])
  ]

  -- The bytes that a reader has still to give, and how it ends, with the number of rounds.
  pub data Yields : ℕ → Pull X → Text → ReadEnd → Type 0 where
    stops_failed :
        {n : ℕ} {d : Pull X} {out : Text} {end : ReadEnd} (e : Error)
        → d.pending ≡ []
        → d.kept_err ≡ some e
        → out ≡ []
        → end ≡ failed e
        → Yields n d out end
    stops_eof :
        {n : ℕ} {d : Pull X} {out : Text} {end : ReadEnd}
        → d.pending ≡ []
        → d.kept_err ≡ none
        → d.src_done ≡ true
        → out ≡ []
        → end ≡ eof
        → Yields n d out end
    fills :
        {n : ℕ} {d : Pull X} {out : Text} {end : ReadEnd}
        → d.pending ≡ []
        → d.kept_err ≡ none
        → d.src_done ≡ false
        → Yields n (fill_kept d) out end
        → Yields (suc n) d out end
    hands :
        {n : ℕ} {d : Pull X} {out : Text} {end : ReadEnd} (b : ℕ) (bs rest : Text)
        → d.pending ≡ b ∷ bs
        → out ≡ b ∷ rest
        → Yields n (record d { pending = bs }) rest end
        → Yields (suc n) d out end

  -- The reader after `k` of its pending bytes were handed out.
  record Handed (n k : ℕ) (d : Pull X) (out : Text) (end : ReadEnd) : Type 0 where
    rounds : ℕ
    rest : Text
    fewer : rounds ≤ n
    split : out ≡ take k d.pending ++ rest
    goes_on : Yields rounds (record d { pending = drop k d.pending }) rest end

  Yields-Handed :
      (k n : ℕ) (d : Pull X) (p out : Text) (end : ReadEnd)
      → Yields n (record d { pending = p }) out end
      → Handed n k (record d { pending = p }) out end
  Yields-Handed zero n d p out end y = record {
    rounds = n;
    rest = out;
    fewer = omega arith;
    split = refl;
    goes_on = y;
  }
  Yields-Handed (suc k) n d [] out end y = record {
    rounds = n;
    rest = out;
    fewer = omega arith;
    split = refl;
    goes_on = y;
  }
  Yields-Handed (suc k) n d (b ∷ bs) out end (stops_failed e p _ _ _) = absurd (ground arith)
  Yields-Handed (suc k) n d (b ∷ bs) out end (stops_eof p _ _ _ _) = absurd (ground arith)
  Yields-Handed (suc k) _ d (b ∷ bs) out end (fills p _ _ _) = absurd (ground arith)
  Yields-Handed (suc k) (suc n) d (b ∷ bs) out end (hands b' bs' rest p o y) =
      let same : bs' ≡ bs = ground arith in
      let h =
        Yields-Handed k n d bs rest end
          (subst (λ t. Yields n (record d { pending = t }) rest end) same y) in
      record {
        rounds = h.rounds;
        rest = h.rest;
        fewer = omega (arith, h.fewer);
        split = o ∙ ap₂ (λ x (t : Text). x ∷ t) (ground arith) h.split;
        goes_on = h.goes_on;
      }

  -- What one Read of a reader that yields `out` and `end` does.
  data ReadSpec (n k : ℕ) (read_now : Option (ReadResult X)) (out : Text) (end : ReadEnd)
      : Type 0 where
    at_end :
        (d : Pull X)
        → read_now ≡ some (record { got = []; stop = some end; after = d })
        → out ≡ []
        → ReadSpec n k read_now out end
    goes :
        (r : ReadResult X) (m : ℕ) (rest : Text)
        → read_now ≡ some r
        → r.stop ≡ none
        → out ≡ r.got ++ rest
        → m < n
        → Yields m r.after rest end
        → ReadSpec n k read_now out end

  read_fills :
      (f k : ℕ) (d : Pull X)
      → d.pending ≡ []
      → d.kept_err ≡ none
      → d.src_done ≡ false
      → read (suc f) k d ≡ read f k (fill_kept d)
  unfolding read
  read_fills f k d p e s = ground arith

  read_hands :
      (f k : ℕ) (d : Pull X) (b : ℕ) (bs : Text)
      → d.pending ≡ b ∷ bs
      → read (suc f) k d
        ≡ some (record {
          got = take k (b ∷ bs);
          stop = none;
          after = record d { pending = drop k (b ∷ bs) };
        })
  unfolding read
  read_hands f k d b bs p = ground arith

  read-ReadSpec :
      (f k n : ℕ) (d : Pull X) (out : Text) (end : ReadEnd)
      → Yields n d out end
      → n < f
      → ReadSpec n (suc k) (read f (suc k) d) out end
  read-ReadSpec zero k n d out end y h = elim h [ ]
  read-ReadSpec (suc f) k n d out end (stops_failed e p x o g) h =
      at_end d (unfold read in ground arith) o
  read-ReadSpec (suc f) k n d out end (stops_eof p x s o g) h =
      at_end d (unfold read in ground arith) o
  read-ReadSpec (suc f) k (suc n) d out end (fills p x s y) h =
      rw (read_fills f (suc k) d p x s) (later (read-ReadSpec f k n _ out end y (omega arith)))
    where
      later :
          ReadSpec n (suc k) (read f (suc k) (fill_kept d)) out end
          → ReadSpec (suc n) (suc k) (read f (suc k) (fill_kept d)) out end
      later (at_end d' r o) = at_end d' r o
      later (goes r m rest e st o l y') = goes r m rest e st o (omega arith) y'
  read-ReadSpec (suc f) k (suc n) d out end (hands b bs rest p o y) h =
      let t = Yields-Handed k n d bs rest end y in
      goes _ t.rounds t.rest (read_hands f (suc k) d b bs p) refl (o ∙ ap (λ u. b ∷ u) t.split)
        (omega (arith, t.fewer)) t.goes_on

  drain_stops :
      (f k : ℕ) (d : Pull X) (r : ReadResult X) (e : ReadEnd)
      → read (suc f) k d ≡ some r
      → r.stop ≡ some e
      → drain (suc f) k d ≡ some (r.got, e)
  unfolding drain
  drain_stops f k d r e h s = ground arith

  drain_goes :
      (f k : ℕ) (d : Pull X) (r : ReadResult X) (out : Text) (e : ReadEnd)
      → read (suc f) k d ≡ some r
      → r.stop ≡ none
      → drain f k r.after ≡ some (out, e)
      → drain (suc f) k d ≡ some (r.got ++ out, e)
  unfolding drain
  drain_goes f k d r out e h s i = ground arith

  -- Whatever the buffer size, at least one byte, io.ReadAll gets exactly what the reader yields, with
  -- more fuel than rounds.
  pub drain-Yields :
      (f k n : ℕ) (d : Pull X) (out : Text) (end : ReadEnd)
      → Yields n d out end
      → n < f
      → drain f (suc k) d ≡ some (out, end)
  drain-Yields zero k n d out end y h = elim h [ ]
  drain-Yields (suc f) k n d out end y h =
      by_spec (λ m d' rest y' l. drain-Yields f k m d' rest end y' (omega arith))
        (read-ReadSpec (suc f) k n d out end y h)
    where
      by_spec :
          ((m : ℕ) (d' : Pull X) (rest : Text)
            → Yields m d' rest end
            → m < n
            → drain f (suc k) d' ≡ some (rest, end))
          → ReadSpec n (suc k) (read (suc f) (suc k) d) out end
          → drain (suc f) (suc k) d ≡ some (out, end)
      by_spec rest_of (at_end d' r o) =
          drain_stops f (suc k) d _ end r refl ∙ ap (λ t. some (t, end)) (sym o)
      by_spec rest_of (goes r m rest e st o l y') =
          drain_goes f (suc k) d r rest end e st (rest_of m r.after rest y' l)
          ∙ ap (λ t. some (t, end)) (sym o)

  -- A chunk of pending bytes is handed out, one round a byte.
  pub Yields-chunk :
      (n : ℕ) (d : Pull X) (p out : Text) (end : ReadEnd)
      → Yields n (record d { pending = [] }) out end
      → Yields (length p + n) (record d { pending = p }) (p ++ out) end
  Yields-chunk n d [] out end y = rw add.zero y
  Yields-chunk n d (b ∷ bs) out end y =
      rw add.suc (hands b bs (bs ++ out) refl refl (Yields-chunk n d bs out end y))
