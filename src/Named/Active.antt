-- ===== src/Named/Active.antt =====
-- ResolveActiveSeq and ClaimVersion of version.go on a Location that nothing else touches.
use scrinium.Base.{
  ℕ, ◌^◌, ◌≤◌, ◌<◌, Text, Bool, true, Option, none, some, List, [], ◌∷◌, ◌++◌, ◌≡◌, inl, inr, refl,
  sym, ap, ◌∙◌, arith, length, drop, ltb, if◌then◌else◌, Bool-cases, Option-cases, All, text_eq,
  text_eq_sound, has_prefix, has_prefix-append, drop-append, append_assoc,
}
use scrinium.Driver.{quiet, ok, World, Objects, obj_get, obj_put, put, turn, paths, list_objects}
use scrinium.Driver.Objects.{paths-put_new}
use scrinium.Named.{
  validate_name, version_of, version_path, seq_prefix, root_slash, dot, parse_seq, format_seq,
  seqs_of, scan_seqs, max_seq, resolve_active_seq, next_seq, put_or_lost, claim_attempt, claim_loop,
  claim_version,
}
use scrinium.Named.Seq.{parse_seq_iff}

-- The active sequence number of the objects, where there is one.
abbrev pub active_of : Text → Objects → Option ℕ
active_of name o = max_seq (seqs_of (seq_prefix name) (paths o)) none

version_split : (name : Text) (n : ℕ) → version_of name n ≡ seq_prefix name ++ format_seq n
version_split name n =
    ap (λ t. root_slash ++ t) (sym (append_assoc name (dot ∷ []) (format_seq n)))
    ∙ sym (append_assoc root_slash (name ++ (dot ∷ [])) (format_seq n))

-- The path of a version with at most ten digits is listed with its number.
seqs_of-version :
    (name : Text) (n : ℕ) (rest : List Text)
    → n < 10 ^ 10
    → seqs_of (seq_prefix name) (version_of name n ∷ rest) ≡ n ∷ seqs_of (seq_prefix name) rest
unfolding seqs_of
seqs_of-version name n rest h = rw (
  version_split name n,
  has_prefix-append (seq_prefix name) (format_seq n),
  drop-append (length (seq_prefix name)) (seq_prefix name) (format_seq n) refl,
  (parse_seq_iff (format_seq n) n).1 (refl, h),
)

seqs_of-append :
    (pfx : Text) (ps qs : List Text) → seqs_of pfx (ps ++ qs) ≡ seqs_of pfx ps ++ seqs_of pfx qs
unfolding seqs_of
seqs_of-append pfx [] qs = refl
seqs_of-append pfx (p ∷ ps) qs = elim (Bool-cases (has_prefix p pfx)) [
  | inr other ↦ rw other (seqs_of-append pfx ps qs)
  | inl mine ↦ (elim (Option-cases (parse_seq (drop (length pfx) p))) [
    | inl other ↦ rw (mine, other) (seqs_of-append pfx ps qs)
    | inr (n, seq) ↦ rw (mine, seq) (ap (λ t. n ∷ t) (seqs_of-append pfx ps qs))
  ])
]

max_seq_grows : (ns : List ℕ) (b : ℕ) → (m : ℕ) × (max_seq ns (some b) ≡ some m) × (b ≤ m)
unfolding max_seq
max_seq_grows [] b = (b, refl, omega arith)
max_seq_grows (n ∷ ns) b =
    let (m, e, l) = max_seq_grows ns (if ltb b n then n else b) in (m, e, ground arith)

max_seq-append :
    (ns ms : List ℕ) (best : Option ℕ) → max_seq (ns ++ ms) best ≡ max_seq ms (max_seq ns best)
unfolding max_seq
max_seq-append [] ms best = refl
max_seq-append (n ∷ ns) ms none = max_seq-append ns ms (some n)
max_seq-append (n ∷ ns) ms (some b) = max_seq-append ns ms (some (if ltb b n then n else b))

-- A version that is there is no newer than the active one.
version_known :
    (name : Text) (n : ℕ) (body : Text) (o : Objects)
    → n < 10 ^ 10
    → obj_get (version_of name n) o ≡ some body
    → (before after : List ℕ) × (seqs_of (seq_prefix name) (paths o) ≡ before ++ (n ∷ after))
unfolding obj_get
version_known name n body [] h g = cc
version_known name n body ((q, old) ∷ rest) h g =
    elim (Bool-cases (text_eq q (version_of name n))) [
      | inl here ↦ (
        [],
        seqs_of (seq_prefix name) (paths rest),
        rw (text_eq_sound q (version_of name n) here) (seqs_of-version name n (paths rest) h),
      )
      | inr there ↦
          let (before, after, e) = version_known name n body rest h (rw there at g) in
          (
            seqs_of (seq_prefix name) (q ∷ []) ++ before,
            after,
            seqs_of-append (seq_prefix name) (q ∷ []) (paths rest)
                ∙ ap (λ t. seqs_of (seq_prefix name) (q ∷ []) ++ t) e
                ∙ sym (append_assoc (seqs_of (seq_prefix name) (q ∷ [])) before (n ∷ after)),
          )
    ]

max_seq_covers :
    (before after : List ℕ) (n : ℕ)
    → (m : ℕ) × (max_seq (before ++ (n ∷ after)) none ≡ some m) × (n ≤ m)
max_seq_covers before after n = elim (Option-cases (max_seq before none)) [
  | inl e ↦
      let (m, p, l) = max_seq_grows after n in
      (m, max_seq-append before (n ∷ after) none ∙ rw e (unfold max_seq in p), l)
  | inr (b, e) ↦
      let (m, p, l) = max_seq_grows after (if ltb b n then n else b) in
      (m, max_seq-append before (n ∷ after) none ∙ rw e (unfold max_seq in p), ground arith)
]

seqs_of_small : (pfx : Text) (ps : List Text) → All (λ n. n < 10 ^ 10) (seqs_of pfx ps)
unfolding seqs_of
seqs_of_small pfx [] = tt
seqs_of_small pfx (p ∷ ps) = elim (Bool-cases (has_prefix p pfx)) [
  | inr other ↦ rw other (seqs_of_small pfx ps)
  | inl mine ↦ (elim (Option-cases (parse_seq (drop (length pfx) p))) [
    | inl e ↦ rw (mine, e) (seqs_of_small pfx ps)
    | inr (n, e) ↦
        rw (mine, e) (((parse_seq_iff (drop (length pfx) p) n).0 e).1, seqs_of_small pfx ps)
  ])
]

max_seq_small :
    (ns : List ℕ) (best : Option ℕ) (m : ℕ)
    → All (λ n. n < 10 ^ 10) ns
    → ((b : ℕ) → best ≡ some b → b < 10 ^ 10)
    → max_seq ns best ≡ some m
    → m < 10 ^ 10
unfolding max_seq
max_seq_small [] best m small sb h = sb m h
max_seq_small (n ∷ ns) none m small sb h =
    max_seq_small ns (some n) m small.1 (λ b e. ground (arith, e, small.0)) h
max_seq_small (n ∷ ns) (some c) m small sb h =
    max_seq_small ns (some (if ltb c n then n else c)) m small.1
      (λ b e. ground (arith, e, small.0, sb c refl)) h

-- The next version is always free.
next_free :
    (name : Text) (o : Objects)
    → next_seq (active_of name o) < 10 ^ 10
    → obj_get (version_of name (next_seq (active_of name o))) o ≡ none
next_free name o h =
    elim (Option-cases (obj_get (version_of name (next_seq (active_of name o))) o)) [
      | inl free ↦ free
      | inr (body, there) ↦
          let (before, after, e) =
            version_known name (next_seq (active_of name o)) body o h there in
          let (m, p, l) = max_seq_covers before after (next_seq (active_of name o)) in
          let active : active_of name o ≡ some m = ap (λ ns. max_seq ns none) e ∙ p in
          let small : m < 10 ^ 10 =
            max_seq_small (seqs_of (seq_prefix name) (paths o)) none m
              (seqs_of_small (seq_prefix name) (paths o)) (λ b z. cc) active in
          absurd (ground (arith, active, l, small))
    ]

resolve_quiet :
    (name : Text) (o : Objects) (now : ℕ)
    → validate_name name ≡ ok tt
    → resolve_active_seq name (quiet o now) ≡ (ok (active_of name o), quiet o now)
unfolding resolve_active_seq scan_seqs list_objects turn
resolve_quiet name o now valid = ground (arith, valid)

put-quiet :
    (path body : Text) (o : Objects) (now : ℕ)
    → obj_get path o ≡ none
    → put path body true (quiet o now) ≡ (ok tt, quiet (obj_put path body o) now)
unfolding put turn
put-quiet path body o now h = ground (arith, h)

attempt_quiet :
    (name body : Text) (o : Objects) (now : ℕ)
    → validate_name name ≡ ok tt
    → next_seq (active_of name o) < 10 ^ 10
    → claim_attempt true name body (quiet o now) ≡ (
      ok (some (next_seq (active_of name o), version_of name (next_seq (active_of name o)))),
      quiet (obj_put (version_of name (next_seq (active_of name o))) body o) now,
    )
unfolding claim_attempt version_path put_or_lost
attempt_quiet name body o now valid h = ground (
  arith,
  valid,
  resolve_quiet name o now valid,
  put-quiet (version_of name (next_seq (active_of name o))) body o now (next_free name o h),
)

newest :
    (best : Option ℕ)
    → ((m : ℕ) → best ≡ some m → m < 10 ^ 10)
    → max_seq (next_seq best ∷ []) best ≡ some (next_seq best)
unfolding max_seq
newest none h = refl
newest (some a) h = let small : a < 10 ^ 10 = h a refl in ground (arith, small)

-- The next version, once there, is the active one.
active_put :
    (name body : Text) (o : Objects)
    → next_seq (active_of name o) < 10 ^ 10
    → active_of name (obj_put (version_of name (next_seq (active_of name o))) body o)
      ≡ some (next_seq (active_of name o))
active_put name body o h =
    let next : ℕ = next_seq (active_of name o) in
    ap (λ ps. max_seq (seqs_of (seq_prefix name) ps) none)
      (paths-put_new (version_of name next) body o (next_free name o h))
    ∙ ap (λ ns. max_seq ns none)
        (seqs_of-append (seq_prefix name) (paths o) (version_of name next ∷ []))
    ∙ max_seq-append (seqs_of (seq_prefix name) (paths o))
        (seqs_of (seq_prefix name) (version_of name next ∷ [])) none
    ∙ ap (λ ns. max_seq ns (active_of name o)) (seqs_of-version name next [] h)
    ∙ unfold seqs_of in
      newest (active_of name o) (λ m e.
        max_seq_small (seqs_of (seq_prefix name) (paths o)) none m
          (seqs_of_small (seq_prefix name) (paths o)) (λ b z. cc) e)

-- On a Location that nothing else touches, a claim of a valid name whose context is live at the
-- first attempt takes, while
-- ten digits are left, the sequence number after the active one (1 where there is none), and then
-- ResolveActiveSeq finds that number.
pub claim_version_next :
    (live : ℕ → Bool) (name body : Text) (o : Objects) (now : ℕ)
    → live 63 ≡ true
    → validate_name name ≡ ok tt
    → next_seq (active_of name o) < 10 ^ 10
    → (after : World) × (claim_version live name body (quiet o now)
        ≡ (ok (next_seq (active_of name o), version_of name (next_seq (active_of name o))), after))
      × (resolve_active_seq name after ≡ (ok (some (next_seq (active_of name o))), after))
unfolding claim_version claim_loop
claim_version_next live name body o now alive valid h =
    let next : ℕ = next_seq (active_of name o) in
    (
      quiet (obj_put (version_of name next) body o) now,
      ground (arith, alive, attempt_quiet name body o now valid h),
      resolve_quiet name (obj_put (version_of name next) body o) now valid
          ∙ ap (λ a. (ok a, quiet (obj_put (version_of name next) body o) now))
              (active_put name body o h),
    )
