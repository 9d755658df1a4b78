-- ===== src/View/Freshness.antt =====
-- The order of the claimants of a path: isFresherWinner and the order of the losers.
pub mod Dropping
use scrinium.Base.{
  true, false, List, [], ◌∷◌, ◌≡◌, ◌⊎◌, inl, inr, refl, ap, ◌∙◌, arith, All, if◌then◌else◌, text_eq,
  text_eq_iff, Bool-cases,
}
use scrinium.Base.Order.{text_ltb, ltb_irrefl, ltb_trans, ltb_total}
use scrinium.View.Nodes.{Manifest}
use scrinium.View.Ops.{LoserEntry, entry_of, is_fresher_winner, belongs_before, insert_loser}

abbrev pub Beats : Manifest → Manifest → Type 0
Beats a b = is_fresher_winner a b ≡ true

abbrev pub Apart : Manifest → Manifest → Type 0
Apart a b = text_eq a.artifact_id b.artifact_id ≡ false

-- Freshest first.
abbrev pub Descends : List Manifest → Type 0
Descends [] = Unit {0}
Descends (m ∷ ms) = All (Beats m) ms × Descends ms

pub Beats-trans : (a b c : Manifest) → Beats a b → Beats b c → Beats a c
unfolding is_fresher_winner
Beats-trans a b c h k = ground (arith, ltb_trans c.artifact_id b.artifact_id a.artifact_id)

pub Beats-total : (a b : Manifest) → Apart a b → is_fresher_winner a b ≡ false → Beats b a
unfolding is_fresher_winner
Beats-total a b d h = elim (Bool-cases (text_ltb a.artifact_id b.artifact_id)) [
  | inl l ↦ ground (arith, d, h, l)
  | inr l ↦ ground (
    arith,
    d,
    h,
    l,
    ltb_total b.artifact_id a.artifact_id,
    text_eq_iff a.artifact_id b.artifact_id,
  )
]

pub Beats-irrefl : (a : Manifest) → is_fresher_winner a a ≡ false
unfolding is_fresher_winner
Beats-irrefl a = ground (arith, ltb_irrefl a.artifact_id)

-- The loser's order is that of the winner.
belongs-fresher :
    (a b : Manifest) → Apart a b → belongs_before (entry_of a) (entry_of b) ≡ is_fresher_winner a b
unfolding belongs_before is_fresher_winner
belongs-fresher a b d = elim (Bool-cases (text_ltb a.artifact_id b.artifact_id)) [
  | inl l ↦ elim (Bool-cases (text_ltb b.artifact_id a.artifact_id)) [
    | inl k ↦
        ground (
          arith,
          l,
          k,
          ltb_irrefl a.artifact_id,
          ltb_trans a.artifact_id b.artifact_id a.artifact_id,
        )
    | inr k ↦ ground (arith, l, k)
  ]
  | inr l ↦ elim (Bool-cases (text_ltb b.artifact_id a.artifact_id)) [
    | inl k ↦ ground (arith, l, k)
    | inr k ↦ ground (
      arith,
      l,
      k,
      d,
      text_eq_iff a.artifact_id b.artifact_id,
      ltb_total a.artifact_id b.artifact_id,
    )
  ]
]

belongs-Beats : (a b : Manifest) → Beats a b → belongs_before (entry_of a) (entry_of b) ≡ true
unfolding belongs_before is_fresher_winner
belongs-Beats a b h = elim (Bool-cases (text_ltb a.artifact_id b.artifact_id)) [
  | inl l ↦
      ground
        (arith, h, l, ltb_irrefl a.artifact_id, ltb_trans a.artifact_id b.artifact_id a.artifact_id)
  | inr l ↦ ground (arith, h, l)
]

-- The reference: a claimant takes its place by freshness alone.
unfoldable pub insert_fresh : Manifest → List Manifest → List Manifest
insert_fresh m [] = m ∷ []
insert_fresh m (h ∷ t) =
    let rest = insert_fresh m t in if is_fresher_winner m h then m ∷ h ∷ t else h ∷ rest

abbrev pub entries : List Manifest → List LoserEntry
entries [] = []
entries (m ∷ ms) = entry_of m ∷ entries ms

pub insert_loser-entries :
    (m : Manifest) (ms : List Manifest)
    → All (Apart m) ms
    → insert_loser (entry_of m) (entries ms) ≡ entries (insert_fresh m ms)
unfolding insert_loser insert_fresh
insert_loser-entries m [] d = refl
insert_loser-entries m (h ∷ t) d = elim (Bool-cases (is_fresher_winner m h)) [
  | inl e ↦ rw (belongs-fresher m h d.0, e) refl
  | inr e ↦
      rw (belongs-fresher m h d.0, e) (ap (λ ls. entry_of h ∷ ls) (insert_loser-entries m t d.1))
]

-- The demoted owner is the freshest loser.
pub demoted :
    (h : Manifest) (t : List Manifest)
    → All (Beats h) t
    → insert_loser (entry_of h) (entries t) ≡ entry_of h ∷ entries t
unfolding insert_loser
demoted h [] b = refl
demoted h (k ∷ t) b = rw (belongs-Beats h k b.0) refl

insert_fresh-All :
    (P : Manifest → Type 0) (m : Manifest) (ms : List Manifest)
    → P m
    → All P ms
    → All P (insert_fresh m ms)
unfolding insert_fresh
insert_fresh-All P m [] h hs = (h, tt)
insert_fresh-All P m (k ∷ t) h hs = elim (Bool-cases (is_fresher_winner m k)) [
  | inl e ↦ rw e (h, (hs.0, hs.1))
  | inr e ↦ rw e (hs.0, insert_fresh-All P m t h hs.1)
]

Beats-All : (a b : Manifest) (ms : List Manifest) → Beats a b → All (Beats b) ms → All (Beats a) ms
Beats-All a b [] h hs = tt
Beats-All a b (m ∷ ms) h hs = (Beats-trans a b m h hs.0, Beats-All a b ms h hs.1)

pub insert_fresh-Descends :
    (m : Manifest) (ms : List Manifest)
    → All (Apart m) ms
    → Descends ms
    → Descends (insert_fresh m ms)
unfolding insert_fresh
insert_fresh-Descends m [] d h = (tt, tt)
insert_fresh-Descends m (k ∷ t) d h = elim (Bool-cases (is_fresher_winner m k)) [
  | inl e ↦ rw e ((e, Beats-All m k t e h.0), (h.0, h.1))
  | inr e ↦ rw e (
    insert_fresh-All (Beats k) m t (Beats-total m k d.0 e) h.0,
    insert_fresh-Descends m t d.1 h.1,
  )
]

abbrev pub In : Manifest → List Manifest → Type 0
In m [] = ⊥
In m (k ∷ t) = (m ≡ k) ⊎ In m t

pub insert_fresh-In :
    (m k : Manifest) (ms : List Manifest)
    → (In k (insert_fresh m ms) → (k ≡ m) ⊎ In k ms)
      × (((k ≡ m) ⊎ In k ms) → In k (insert_fresh m ms))
unfolding insert_fresh
insert_fresh-In m k [] = (λ h. h, λ h. h)
insert_fresh-In m k (j ∷ t) = elim (Bool-cases (is_fresher_winner m j)) [
  | inl e ↦ rw e (λ h. h, λ h. h)
  | inr e ↦
      let (a, b) = insert_fresh-In m k t in
      rw e (
        λ h. elim h [
          | inl x ↦ inr (inl x)
          | inr x ↦ (elim (a x) [ inl y ↦ inl y | inr y ↦ inr (inr y) ])
        ],
        λ h. elim h [
          | inl x ↦ inr (b (inl x))
          | inr x ↦ (elim x [ inl y ↦ inl y | inr y ↦ inr (b (inr y)) ])
        ],
      )
]
