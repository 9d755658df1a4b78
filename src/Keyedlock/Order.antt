-- ===== src/Keyedlock/Order.antt =====
-- Go's `<` on strings is a strict total order, and LockAll's keys come strictly ascending.
use scrinium.Base.{
  Text, true, false, List, [], ◌∷◌, ◌≡◌, inl, inr, subst, arith, All, Bool-cases, text_eq,
  text_eq_iff,
}
use scrinium.Base.Order.{text_ltb, ltb_irrefl, ltb_trans, ltb_total}
use scrinium.Keyedlock.{insert_key, sort_keys, compact, lock_order}

abbrev AtLeast : Text → Text → Type 0
AtLeast s t = text_ltb t s ≡ false

abbrev pub Below : Text → Text → Type 0
Below s t = text_ltb s t ≡ true

AtLeast-trans : (s t u : Text) → AtLeast s t → AtLeast t u → AtLeast s u
AtLeast-trans s t u h k = elim (Bool-cases (text_ltb u s)) [
  | inr e ↦ e
  | inl e ↦ (elim (Bool-cases (text_ltb s t)) [
    | inl l ↦ ground (arith, k, ltb_trans u s t e l)
    | inr l ↦ ground (arith, e, k, subst (λ x. text_ltb u x ≡ true) (ltb_total s t l h) e)
  ])
]

Below-AtLeast : (s t u : Text) → Below s t → AtLeast t u → Below s u
Below-AtLeast s t u h k = elim (Bool-cases (text_ltb t u)) [
  | inl l ↦ ltb_trans s t u h l
  | inr l ↦ subst (λ x. text_ltb s x ≡ true) (ltb_total t u l k) h
]

abbrev Ascends : List Text → Type 0
Ascends [] = Unit {0}
Ascends (k ∷ ks) = All (AtLeast k) ks × Ascends ks

-- Strictly ascending.
abbrev pub IsStrict : List Text → Type 0
IsStrict [] = Unit {0}
IsStrict (k ∷ ks) = All (Below k) ks × IsStrict ks

insert-All :
    (P : Text → Type 0) (k : Text) (ks : List Text) → P k → All P ks → All P (insert_key k ks)
unfolding insert_key
insert-All P k [] h hs = (h, tt)
insert-All P k (j ∷ js) h hs = elim (Bool-cases (text_ltb j k)) [
  | inl e ↦ rw e (hs.0, insert-All P k js h hs.1)
  | inr e ↦ rw e (h, (hs.0, hs.1))
]

weaken : (k j : Text) (ks : List Text) → AtLeast k j → All (AtLeast j) ks → All (AtLeast k) ks
weaken k j [] h hs = tt
weaken k j (i ∷ ks) h hs = (AtLeast-trans k j i h hs.0, weaken k j ks h hs.1)

above : (k j : Text) → text_ltb j k ≡ true → AtLeast j k
above k j e = elim (Bool-cases (text_ltb k j)) [
  | inr l ↦ l
  | inl l ↦ ground (arith, ltb_irrefl j, ltb_trans j k j e l)
]

insert-Ascends : (k : Text) (ks : List Text) → Ascends ks → Ascends (insert_key k ks)
unfolding insert_key
insert-Ascends k [] h = (tt, tt)
insert-Ascends k (j ∷ js) h = elim (Bool-cases (text_ltb j k)) [
  | inl e ↦ rw e (insert-All (AtLeast j) k js (above k j e) h.0, insert-Ascends k js h.1)
  | inr e ↦ rw e ((e, weaken k j js e h.0), (h.0, h.1))
]

sort_keys-Ascends : (ks : List Text) → Ascends (sort_keys ks)
unfolding sort_keys
sort_keys-Ascends [] = tt
sort_keys-Ascends (k ∷ ks) = insert-Ascends k (sort_keys ks) (sort_keys-Ascends ks)

compact-All : (P : Text → Type 0) (ks : List Text) → All P ks → All P (compact ks)
unfolding compact
compact-All P [] h = tt
compact-All P (k ∷ []) h = h
compact-All P (k ∷ j ∷ js) h = elim (Bool-cases (text_eq k j)) [
  | inl e ↦ rw e (compact-All P (j ∷ js) h.1)
  | inr e ↦ rw e (h.0, compact-All P (j ∷ js) h.1)
]

All-Below : (k j : Text) (ks : List Text) → Below k j → All (AtLeast j) ks → All (Below k) ks
All-Below k j [] h hs = tt
All-Below k j (i ∷ ks) h hs = (Below-AtLeast k j i h hs.0, All-Below k j ks h hs.1)

strictly : (k j : Text) → AtLeast k j → text_eq k j ≡ false → Below k j
strictly k j h e = elim (Bool-cases (text_ltb k j)) [
  | inl l ↦ l
  | inr l ↦ ground (arith, e, text_eq_iff k j, ltb_total k j l h)
]

compact-IsStrict : (ks : List Text) → Ascends ks → IsStrict (compact ks)
unfolding compact
compact-IsStrict [] h = tt
compact-IsStrict (k ∷ []) h = (tt, tt)
compact-IsStrict (k ∷ j ∷ js) h = elim (Bool-cases (text_eq k j)) [
  | inl e ↦ rw e (compact-IsStrict (j ∷ js) h.1)
  | inr e ↦
      let l = strictly k j (h.0).0 e in
      rw e (
        compact-All (Below k) (j ∷ js) (l, All-Below k j js l (h.1).0),
        compact-IsStrict (j ∷ js) h.1,
      )
]

pub lock_order-IsStrict : (keys : List Text) → IsStrict (lock_order keys)
unfolding lock_order
lock_order-IsStrict keys = compact-IsStrict (sort_keys keys) (sort_keys-Ascends keys)
