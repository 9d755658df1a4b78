-- ===== src/View/Freshness/Dropping.antt =====
-- The queue of a path without one of its claimants.
use scrinium.Base.{
  Text, true, false, List, [], ◌∷◌, ◌≡◌, ◌⊎◌, inl, inr, refl, sym, ap, subst, ◌∙◌, arith, All,
  if◌then◌else◌, text_eq, Bool-cases,
}
use scrinium.View.Nodes.{Manifest}
use scrinium.View.Ops.{entry_of, drop_loser}
use scrinium.View.Freshness.{Beats, Descends, Beats-irrefl, entries, In}

-- The queue without the claimant of an identifier.
unfoldable pub drop_claim : Text → List Manifest → List Manifest
drop_claim id [] = []
drop_claim id (m ∷ ms) =
    let rest = drop_claim id ms in if text_eq m.artifact_id id then ms else m ∷ rest

pub drop_loser-entries :
    (id : Text) (ms : List Manifest) → drop_loser id (entries ms) ≡ entries (drop_claim id ms)
unfolding drop_loser drop_claim
drop_loser-entries id [] = refl
drop_loser-entries id (m ∷ ms) = elim (Bool-cases (text_eq m.artifact_id id)) [
  | inl e ↦ rw e refl
  | inr e ↦ rw e (ap (λ ls. entry_of m ∷ ls) (drop_loser-entries id ms))
]

drop_claim-All :
    (P : Manifest → Type 0) (id : Text) (ms : List Manifest) → All P ms → All P (drop_claim id ms)
unfolding drop_claim
drop_claim-All P id [] h = tt
drop_claim-All P id (m ∷ ms) h = elim (Bool-cases (text_eq m.artifact_id id)) [
  | inl e ↦ rw e h.1
  | inr e ↦ rw e (h.0, drop_claim-All P id ms h.1)
]

pub drop_claim-Descends :
    (id : Text) (ms : List Manifest) → Descends ms → Descends (drop_claim id ms)
unfolding drop_claim
drop_claim-Descends id [] h = tt
drop_claim-Descends id (m ∷ ms) h = elim (Bool-cases (text_eq m.artifact_id id)) [
  | inl e ↦ rw e h.1
  | inr e ↦ rw e (drop_claim-All (Beats m) id ms h.0, drop_claim-Descends id ms h.1)
]

pub All-In : (P : Manifest → Type 0) (ms : List Manifest) (m : Manifest) → All P ms → In m ms → P m
All-In P [] m h i = elim i [ ]
All-In P (k ∷ ms) m h i = elim i [ inl e ↦ subst P (sym e) h.0 | inr j ↦ All-In P ms m h.1 j ]

pub All-of :
    (P : Manifest → Type 0) (ms : List Manifest) → ((m : Manifest) → In m ms → P m) → All P ms
All-of P [] f = tt
All-of P (k ∷ ms) f = (f k (inl refl), All-of P ms (λ m i. f m (inr i)))

drop_claim-here :
    (id : Text) (h : Manifest) (t : List Manifest)
    → text_eq h.artifact_id id ≡ true
    → drop_claim id (h ∷ t) ≡ t
unfolding drop_claim
drop_claim-here id h t e = rw e refl

drop_claim-there :
    (id : Text) (h : Manifest) (t : List Manifest)
    → text_eq h.artifact_id id ≡ false
    → drop_claim id (h ∷ t) ≡ h ∷ drop_claim id t
unfolding drop_claim
drop_claim-there id h t e = rw e refl

-- No claimant of the identifier is left, where all its claims are one.
pub drop_claim-Apart :
    (id : Text) (m : Manifest) (ms : List Manifest)
    → Descends ms
    → ((a : Manifest) → In a ms → text_eq a.artifact_id id ≡ true → a ≡ m)
    → (k : Manifest) → In k (drop_claim id ms)
    → In k ms × (text_eq k.artifact_id id ≡ false)
unfolding drop_claim
drop_claim-Apart id m [] d u k i = elim i [ ]
drop_claim-Apart id m (h ∷ t) d u k i = elim (Bool-cases (text_eq h.artifact_id id)) [
  | inr e ↦
      let j : (k ≡ h) ⊎ In k (drop_claim id t) = subst (In k) (drop_claim-there id h t e) i in
      elim j [
        | inl s ↦ (inl s, subst (λ (x : Manifest). text_eq x.artifact_id id ≡ false) (sym s) e)
        | inr j' ↦ let (a, b) = drop_claim-Apart id m t d.1 (λ x y. u x (inr y)) k j' in (inr a, b)
      ]
  | inl e ↦
      let j : In k t = subst (In k) (drop_claim-here id h t e) i in
      (
        inr j,
        elim (Bool-cases (text_eq k.artifact_id id)) [
          | inr f ↦ f
          | inl f ↦
              let same : k ≡ h = u k (inr j) f ∙ sym (u h (inl refl) e) in
              let beaten : Beats h h = subst (Beats h) same (All-In (Beats h) t k d.0 j) in
              absurd (ground (arith, beaten, Beats-irrefl h))
        ],
      )
]

pub drop_claim-kept :
    (id : Text) (ms : List Manifest) (k : Manifest)
    → In k ms
    → text_eq k.artifact_id id ≡ false
    → In k (drop_claim id ms)
unfolding drop_claim
drop_claim-kept id [] k i f = elim i [ ]
drop_claim-kept id (h ∷ t) k i f = elim (Bool-cases (text_eq h.artifact_id id)) [
  | inl e ↦ rw e (elim i [
    | inl s ↦ absurd (ground (arith, e, f, ap (λ (x : Manifest). text_eq x.artifact_id id) s))
    | inr j ↦ j
  ])
  | inr e ↦ rw e (elim i [ inl s ↦ inl s | inr j ↦ inr (drop_claim-kept id t k j f) ])
]
