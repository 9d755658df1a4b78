-- ===== src/Removal/Calls.antt =====
-- What the calls of Delete and RollbackSession change on a Location that no other process touches.
pub mod Loading
use scrinium.Base.{
  ℕ, ◌≤◌, Text, none, some, List, [], ◌∷◌, ◌≡◌, ◌≢◌, ◌⊎◌, inl, inr, refl, sym, ap, ◌∙◌, arith, All,
  Option-cases,
}
use scrinium.Driver
use scrinium.Driver.{World, Turn, Objects, not_exist, obj_get, turn}
use scrinium.Store.{enter_write}
use scrinium.Removal.{Site, ask, poll, enter, called}

-- The other processes leave the Location alone. Calls may fail, but none reports a file as missing that
-- is there; time may pass.
abbrev pub IsCalm : List Turn → Type 0
IsCalm ts = All (λ (t : Turn). ((o : Objects) → t.others o ≡ o) × (t.fault ≢ some not_exist)) ts

pub record CalmTurn (w : World) : Type 0 where
  pub objects : (turn w).1.objects ≡ w.objects
  pub calm : IsCalm (turn w).1.turns
  pub later : w.now ≤ (turn w).1.now
  pub fault : (turn w).0 ≢ some not_exist

pub turn-CalmTurn :
    (o : Objects) (now : ℕ) (ts : List Turn)
    → IsCalm ts
    → CalmTurn (record { objects = o; now = now; turns = ts })
unfolding turn
turn-CalmTurn o now [] h = record {
  objects = refl;
  calm = tt;
  later = omega arith;
  fault = λ e. ground (arith, e);
}
turn-CalmTurn o now (t ∷ ts) h = record {
  objects = (h.0).0 o;
  calm = h.1;
  later = omega arith;
  fault = (h.0).1;
}

List-cases : {A : Type 0} (xs : List A) → (xs ≡ []) ⊎ ((a : A) × (more : List A) × (xs ≡ a ∷ more))
List-cases [] = inl refl
List-cases (a ∷ more) = inr (a, more, refl)

pub sum-cases : {A B : Type 0} (x : A ⊎ B) → ((a : A) × (x ≡ inl a)) ⊎ ((b : B) × (x ≡ inr b))
sum-cases (inl a) = inl (a, refl)
sum-cases (inr b) = inr (b, refl)

got_now : Text → Driver.Exec Text
got_now p w = elim (obj_get p w.objects) [
  | none ↦ (Driver.err not_exist, w)
  | some body ↦ (Driver.ok body, w)
]

get_over : (p : Text) (w : World) → Driver.get p w ≡ Driver.unless_fault (turn w) (got_now p)
unfolding Driver.get turn got_now
get_over p w = elim (Option-cases (turn w).0) [
  | inl e ↦ (elim (Option-cases (obj_get p (turn w).1.objects)) [
    | inl n ↦ ground (arith, e, n)
    | inr (b, n) ↦ ground (arith, e, n)
  ])
  | inr (x, e) ↦ ground (arith, e)
]

module _ {C : Type 0} where
  -- Neither the objects nor the tables nor the store have changed; time may have passed.
  pub record Kept (s s' : Site C) : Type 0 where
    pub objects : s'.world.objects ≡ s.world.objects
    pub tables : s'.tables ≡ s.tables
    pub store : s'.store ≡ s.store
    pub later : s.world.now ≤ s'.world.now
    pub calm : IsCalm s'.world.turns

  pub Kept_refl : (s : Site C) → IsCalm s.world.turns → Kept s s
  Kept_refl s h = record {
    objects = refl;
    tables = refl;
    store = refl;
    later = omega arith;
    calm = h;
  }

  pub Kept_trans : (s s' s'' : Site C) → Kept s s' → Kept s' s'' → Kept s s''
  Kept_trans s s' s'' a b = record {
    objects = b.objects ∙ a.objects;
    tables = b.tables ∙ a.tables;
    store = b.store ∙ a.store;
    later = omega (arith, a.later, b.later);
    calm = b.calm;
  }

  pub ask-Kept : (s : Site C) → IsCalm s.world.turns → Kept s (ask s).1
  unfolding ask
  ask-Kept s h = elim (List-cases s.answers) [
    | inl e ↦
        rw (e, ask)
          (record { objects = refl; tables = refl; store = refl; later = omega arith; calm = h })
    | inr (a, more, e) ↦
        rw (e, ask)
          (record { objects = refl; tables = refl; store = refl; later = omega arith; calm = h })
  ]

  pub poll-Kept : (s : Site C) → IsCalm s.world.turns → Kept s (poll s).1
  unfolding poll
  poll-Kept s h = elim (List-cases s.polls) [
    | inl e ↦
        rw (e, poll)
          (record { objects = refl; tables = refl; store = refl; later = omega arith; calm = h })
    | inr (c, more, e) ↦
        rw (e, poll)
          (record { objects = refl; tables = refl; store = refl; later = omega arith; calm = h })
  ]

  pub enter-Kept : (s : Site C) → IsCalm s.world.turns → Kept s (enter s).1
  unfolding enter
  enter-Kept s h = elim (Option-cases (enter_write (poll s).0 (poll s).1.store)) [
    | inl e ↦ rw (e, enter) (poll-Kept s h)
    | inr (x, e) ↦ rw (e, enter) (poll-Kept s h)
  ]

  -- What Get of a path has found out.
  abbrev pub Found : Text → Site C → Driver.Result Text × Site C → Type 0
  Found path s (Driver.ok raw, s') = Kept s s' × (obj_get path s.world.objects ≡ some raw)
  Found path s (Driver.err e, s') = Kept s s'

  pub get-Found :
      (path : Text) (s : Site C) → IsCalm s.world.turns → Found path s (called (Driver.get path) s)
  unfolding got_now
  get-Found path s h =
      let c = turn-CalmTurn s.world.objects s.world.now s.world.turns h in
      elim (Option-cases (turn s.world).0) [
        | inr (x, e) ↦
            rw (get_over path s.world, e)
              (record {
                objects = c.objects;
                tables = refl;
                store = refl;
                later = c.later;
                calm = c.calm;
              })
        | inl e ↦ (elim (Option-cases (obj_get path (turn s.world).1.objects)) [
          | inl f ↦
              rw (get_over path s.world, e, f, got_now)
                (record {
                  objects = c.objects;
                  tables = refl;
                  store = refl;
                  later = c.later;
                  calm = c.calm;
                })
          | inr (raw, f) ↦
              rw (get_over path s.world, e, f, got_now)
                (
                  record {
                    objects = c.objects;
                    tables = refl;
                    store = refl;
                    later = c.later;
                    calm = c.calm;
                  },
                  sym (ap (obj_get path) c.objects) ∙ f,
                )
        ])
      ]
