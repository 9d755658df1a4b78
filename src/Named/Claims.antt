-- ===== src/Named/Claims.antt =====
-- ClaimVersion of version.go: the exclusive create is its only synchronisation.
use scrinium.Base.{
  ℕ, zero, suc, Text, Bool, true, false, Option, none, some, ◌≡◌, inl, inr, refl, sym, ap, subst,
  ◌∙◌, arith, Option-cases,
}
use scrinium.Driver.{ok, World, obj_get, obj_put, put, turn}
use scrinium.Driver.Objects.{run-cases, result-cases}
use scrinium.Named.{
  validate_name, version_of, version_path, resolve_active_seq, next_seq, put_or_lost, claim_attempt,
  claim_loop, claim_version, max_claim_attempts,
}

-- From the first world to the second by attempts of the claim that lost their race.
pub data Retried (name body : Text) : World → World → Type 0 where
  first : {w : World} → Retried name body w w
  again :
      {w v u : World} (live : Bool)
      → claim_attempt live name body w ≡ (ok none, v)
      → Retried name body v u
      → Retried name body w u

-- The winning call of a claim: after some lost attempts it listed the versions and took the number after
-- the active one; when its Put ran the path was free, and the Put stored the body there and changed
-- nothing else.
pub record Wins (name body : Text) (w : World) (seq : ℕ) (path : Text) (after : World)
    : Type 0 where
  pub placed : path ≡ version_of name seq
  pub start : World
  pub retried : Retried name body w start
  pub active : Option ℕ
  pub listed : World
  pub resolved : resolve_active_seq name start ≡ (ok active, listed)
  pub next : seq ≡ next_seq active
  pub free : obj_get path (turn listed).1.objects ≡ none
  pub written : after.objects ≡ obj_put path body (turn listed).1.objects

-- An exclusive Put that has succeeded met a free path.
record Free (body path : Text) (w after : World) : Type 0 where
  free : obj_get path (turn w).1.objects ≡ none
  written : after.objects ≡ obj_put path body (turn w).1.objects

put-Free :
    (body path : Text) (w after : World)
    → put path body true w ≡ (ok tt, after)
    → Free body path w after
unfolding put turn
put-Free body path w after h = elim (Option-cases (obj_get path (turn w).1.objects)) [
  | inr (old, there) ↦ ground (arith, h, there)
  | inl free ↦ record { free = free; written = ground (arith, h, free) }
]

put_or_lost-Free :
    (body : Text) (next : ℕ) (path : Text) (got : ℕ × Text) (w after : World)
    → put_or_lost body next path w ≡ (ok (some got), after)
    → (got ≡ (next, path)) × Free body path w after
unfolding put_or_lost
put_or_lost-Free body next path got w after h = elim (run-cases (put path body true w)) [
  | inr (x, v, p) ↦ ground (arith, h, p)
  | inl (_, v, p) ↦ (ground (arith, h, p), ground (arith, h, p, put-Free body path w v p))
]

attempt-Wins :
    (live : Bool) (name body : Text) (got : ℕ × Text) (w after : World)
    → claim_attempt live name body w ≡ (ok (some got), after)
    → Wins name body w got.0 got.1 after
unfolding claim_attempt version_path
attempt-Wins false name body got w after h = ground (arith, h)
attempt-Wins true name body got w after h = elim (run-cases (resolve_active_seq name w)) [
  | inr (e, v, p) ↦ ground (arith, h, p)
  | inl (active, v, p) ↦ (elim (result-cases (validate_name name)) [
    | inr (e, q) ↦ ground (arith, h, p, q)
    | inl (_, q) ↦
        let (it, f) =
          put_or_lost-Free body (next_seq active) (version_of name (next_seq active)) got v after
            (ground (arith, h, p, q)) in
        subst (λ (g : ℕ × Text). Wins name body w g.0 g.1 after) (sym it)
          (record {
            placed = refl;
            start = w;
            retried = first;
            active = active;
            listed = v;
            resolved = p;
            next = refl;
            free = f.free;
            written = f.written;
          })
  ])
]

retried-Wins :
    (live : Bool) (name body : Text) (got : ℕ × Text) (w v after : World)
    → claim_attempt live name body w ≡ (ok none, v)
    → Wins name body v got.0 got.1 after
    → Wins name body w got.0 got.1 after
retried-Wins live name body got w v after lost h = record {
  placed = h.placed;
  start = h.start;
  retried = again live lost h.retried;
  active = h.active;
  listed = h.listed;
  resolved = h.resolved;
  next = h.next;
  free = h.free;
  written = h.written;
}

loop-Wins :
    (left : ℕ) (live : ℕ → Bool) (name body : Text) (got : ℕ × Text) (w after : World)
    → claim_loop left live name body w ≡ (ok got, after)
    → Wins name body w got.0 got.1 after
unfolding claim_loop
loop-Wins zero live name body got w after h = ground (arith, h)
loop-Wins (suc left) live name body got w after h =
    elim (run-cases (claim_attempt (live left) name body w)) [
      | inr (e, v, p) ↦ ground (arith, h, p)
      | inl (claimed, v, p) ↦ (elim (Option-cases claimed) [
        | inl lost ↦
            retried-Wins (live left) name body got w v after (p ∙ ap (λ c. (ok c, v)) lost)
              (loop-Wins left live name body got v after (ground (arith, h, p, lost)))
        | inr (won, c) ↦ attempt-Wins (live left) name body got w after (ground (arith, h, p, c))
      ])
    ]

-- On any schedule of other writers, failures and cancellations, where ClaimVersion succeeds it has
-- created the file of the sequence number it returns. After some attempts that lost their race, it
-- listed the versions and took the number after the active one; the path is that version's, no object
-- was there when its last call ran, and the call put the body there and changed nothing else.
pub claim_version-Wins :
    (live : ℕ → Bool) (name body : Text) (got : ℕ × Text) (w after : World)
    → claim_version live name body w ≡ (ok got, after)
    → Wins name body w got.0 got.1 after
unfolding claim_version
claim_version-Wins live name body got w after h =
    loop-Wins max_claim_attempts live name body got w after h
