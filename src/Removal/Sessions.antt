-- ===== src/Removal/Sessions.antt =====
-- RollbackSession: all artifacts are checked before the first is deleted.
use scrinium.Base.{
  ℕ, ◌≤◌, Text, Bool, false, Option, none, some, List, [], ◌∷◌, ◌++◌, ◌≡◌, ◌≢◌, ◌⊎◌, inl, inr, refl,
  sym, ap, subst, ◌∙◌, arith, All, if◌then◌else◌, length, text_eq, Bool-cases, Option-cases,
}
use scrinium.Driver.{Objects, obj_get}
use scrinium.Layout.{manifest_path}
use scrinium.Store.{Store}
use scrinium.Index.{Tables}
use scrinium.Removal.{
  Failure, Site, Passport, deletion_forbidden, resolve_manifest_digest, get_by_session, ask, enter,
  load, is_protected, check_all, delete_all, rollback_all, rollback_session, rollback_completed,
  then_,
}
use scrinium.Removal.Calls.{IsCalm, Kept, Kept_refl, Kept_trans, ask-Kept, enter-Kept, sum-cases}
use scrinium.Removal.Calls.Loading.{Readable, LoadedAs, load-LoadedAs}

module _ {C : Type 0} (decode : Text → Text → ℕ ⊎ Option ℕ) (no_delete : C → Bool) where
  -- The artifact can be read, and its retention is over at the time `now`.
  abbrev pub Cleared : ℕ → Tables → Objects → Text → Type 0
  Cleared now t o id =
      (m : Passport) × Readable decode no_delete t o id m
      × (is_protected now m.retention_until ≡ false)

  moved :
      (now : ℕ) (t t' : Tables) (o o' : Objects) (ids : List Text)
      → t' ≡ t
      → o' ≡ o
      → All (Cleared now t' o') ids
      → All (Cleared now t o) ids
  moved now t t' o o' ids e f h =
      subst (λ x. All (Cleared now t x) ids) f (subst (λ x. All (Cleared now x o') ids) e h)

  abbrev Checked : ℕ → List Text → Site C → Option Failure × Site C → Type 0
  Checked now ids s (some e, s') = Kept s s'
  Checked now ids s (none, s') = Kept s s' × All (Cleared now s.tables s.world.objects) ids

  then-Checked :
      (now : ℕ) (id : Text) (ids : List Text) (s s' : Site C) (m : Passport)
      (p : Option Failure × Site C)
      → Kept s s'
      → Readable decode no_delete s.tables s.world.objects id m
      → is_protected now m.retention_until ≡ false
      → Checked now ids s' p
      → Checked now (id ∷ ids) s p
  then-Checked now id ids s s' m (some e, s'') k r u c = Kept_trans s s' s'' k c
  then-Checked now id ids s s' m (none, s'') k r u (k', c) = (
    Kept_trans s s' s'' k k',
    (
      (m, r, u),
      moved now s.tables s'.tables s.world.objects s'.world.objects ids k.tables k.objects c,
    ),
  )

  check_all-Checked :
      (now : ℕ) (ids : List Text) (s : Site C)
      → IsCalm s.world.turns
      → Checked now ids s (check_all decode no_delete now ids s)
  unfolding check_all
  check_all-Checked now [] s h = (Kept_refl s h, tt)
  check_all-Checked now (id ∷ ids) s h =
      let l = load-LoadedAs decode no_delete id s h in
      elim (sum-cases (load decode no_delete id s).0) [
        | inl (e, f) ↦
            rw (check_all, f)
              (subst (λ x. LoadedAs decode no_delete id s (x, (load decode no_delete id s).1)) f l)
        | inr (m, f) ↦
            let (k, r) =
              subst (λ x. LoadedAs decode no_delete id s (x, (load decode no_delete id s).1)) f l in
            (elim (Bool-cases (is_protected now m.retention_until)) [
              | inl e ↦ rw (check_all, f, e) k
              | inr e ↦
                  rw (check_all, f, e)
                    (then-Checked now id ids s _ m _ k r e (check_all-Checked now ids _ k.calm))
            ])
      ]

  -- What RollbackSession of the artifacts `ids` leaves.
  pub data RollbackOutcome (ids : List Text) (s : Site C) : Option Failure → Site C → Type 0 where
    nothing_there : {s' : Site C} → ids ≡ [] → Kept s s' → RollbackOutcome ids s none s'
    nothing_deleted : {e : Failure} {s' : Site C} → Kept s s' → RollbackOutcome ids s (some e) s'
    all_cleared :
        {r : Option Failure} {s' : Site C} (now : ℕ)
        → s.world.now ≤ now
        → All (Cleared now s.tables s.world.objects) ids
        → no_delete s.store.active_config ≡ false
        → RollbackOutcome ids s r s'

  abbrev pub RollsBack : List Text → Site C → Option Failure × Site C → Type 0
  RollsBack ids s (r, s') = RollbackOutcome ids s r s'

  -- What the pre-check leaves for the loop that deletes.
  Checked-rollback :
      (sid id : Text) (more : List Text) (s : Site C) (p : Option Failure × Site C)
      → Checked s.world.now (id ∷ more) s p
      → RollsBack (id ∷ more) s (
          then_ decode no_delete p (λ s'.
            if no_delete s'.store.active_config
            then (some deletion_forbidden, s')
            else then_ decode no_delete (delete_all decode no_delete (id ∷ more) s') (λ s''. (
              none,
              record s'' {
                published = s''.published ++ (rollback_completed sid (length (id ∷ more)) ∷ []);
              },
            ))))
  Checked-rollback sid id more s (some e, s') k = nothing_deleted k
  Checked-rollback sid id more s (none, s') (k, c) =
      elim (Bool-cases (no_delete s'.store.active_config)) [
        | inl e ↦ rw e (nothing_deleted k)
        | inr e ↦
            all_cleared s.world.now (omega arith) c
              (ap (λ (x : Store C). no_delete x.active_config) (sym k.store) ∙ e)
      ]

  rollback_all-RollsBack :
      (sid : Text) (ids : List Text) (s : Site C)
      → IsCalm s.world.turns
      → RollsBack ids s (rollback_all decode no_delete sid ids s)
  unfolding rollback_all
  rollback_all-RollsBack sid [] s h = nothing_there refl (Kept_refl s h)
  rollback_all-RollsBack sid (id ∷ more) s h =
      Checked-rollback sid id more s (check_all decode no_delete s.world.now (id ∷ more) s)
        (check_all-Checked s.world.now (id ∷ more) s h)

  -- The calls before the pre-check change nothing.
  later_RollsBack :
      (ids : List Text) (s s' : Site C) (p : Option Failure × Site C)
      → Kept s s'
      → RollsBack ids s' p
      → RollsBack ids s p
  later_RollsBack ids s s' (r, s'') k (nothing_there e q) =
      nothing_there e (Kept_trans s s' s'' k q)
  later_RollsBack ids s s' (r, s'') k (nothing_deleted q) =
      nothing_deleted (Kept_trans s s' s'' k q)
  later_RollsBack ids s s' (r, s'') k (all_cleared now l c a) =
      all_cleared now (omega (arith, l, k.later))
        (moved now s.tables s'.tables s.world.objects s'.world.objects ids k.tables k.objects c)
        (ap (λ (x : Store C). no_delete x.active_config) (sym k.store) ∙ a)

  asked-RollsBack :
      (sid : Text) (s s' : Site C)
      → Kept s s'
      → RollsBack
          (get_by_session sid s.tables.manifests)
          s
          (rollback_all decode no_delete sid (get_by_session sid s'.tables.manifests) s')
  asked-RollsBack sid s s' k =
      subst
        (λ t.
          RollsBack (get_by_session sid t.manifests) s
            (rollback_all decode no_delete sid (get_by_session sid s'.tables.manifests) s'))
        k.tables
        (later_RollsBack _ s s' _ k
          (rollback_all-RollsBack sid (get_by_session sid s'.tables.manifests) s' k.calm))

  -- No other process touches the Location, and no call reports a file as missing that is there; the
  -- calls may fail in any other way, and time may pass. Then RollbackSession checks every artifact of
  -- the session before it deletes the first: it reports no failure where the session has no artifact,
  -- and nothing has changed; or it fails and nothing has changed; or every artifact of the session could
  -- be read and its retention was over at one time that is not before the call, and the policy of the
  -- store allows deletions.
  pub rollback_session-RollsBack :
      (sid : Text) (s : Site C)
      → IsCalm s.world.turns
      → RollsBack
          (get_by_session sid s.tables.manifests)
          s
          (rollback_session decode no_delete sid s)
  unfolding rollback_session
  rollback_session-RollsBack sid s calm =
      let k = enter-Kept s calm in
      elim (sum-cases (enter s).0) [
        | inl (e, f) ↦ rw (f, rollback_session) (nothing_deleted k)
        | inr (u, f) ↦ (elim (Bool-cases (text_eq sid [])) [
          | inl e ↦ rw (f, rollback_session, e) (nothing_deleted k)
          | inr e ↦
              let q = Kept_trans s (enter s).1 _ k (ask-Kept (enter s).1 k.calm) in
              (elim (Option-cases (ask (enter s).1).0.sql) [
                | inr (x, g) ↦ rw (f, rollback_session, e, g) (nothing_deleted q)
                | inl g ↦ rw (f, rollback_session, e, g) (asked-RollsBack sid s _ q)
              ])
        ])
      ]

  no_middle : (before after : List Text) (id : Text) → [] ≢ before ++ id ∷ after
  no_middle [] after id h = ground (arith, h)
  no_middle (x ∷ before) after id h = ground (arith, h)

  middle-All :
      (P : Text → Type 0) (before after : List Text) (id : Text)
      → All P (before ++ id ∷ after)
      → P id
  middle-All P [] after id h = h.0
  middle-All P (x ∷ before) after id h = middle-All P before after id h.1

  -- Stuck: it fails, and nothing has changed.
  pub record IsStuck (s : Site C) (p : Option Failure × Site C) : Type 0 where
    pub error : Failure
    pub fails : p.0 ≡ some error
    pub kept : Kept s p.1

  unreadable-IsStuck :
      (ids before after : List Text) (id digest path : Text) (s : Site C)
      (p : Option Failure × Site C)
      → ids ≡ before ++ id ∷ after
      → resolve_manifest_digest id s.tables ≡ some digest
      → manifest_path digest ≡ inr path
      → obj_get path s.world.objects ≡ none
      → RollsBack ids s p
      → IsStuck s p
  unreadable-IsStuck ids before after id digest path s (r, s') at e f g (nothing_there n k) =
      absurd (no_middle before after id (sym n ∙ at))
  unreadable-IsStuck ids before after id digest path s (some x, s') at e f g (nothing_deleted k) =
      record { error = x; fails = refl; kept = k }
  unreadable-IsStuck ids before after id digest path s (r, s') at e f g (all_cleared now l c a) =
      let (m, q, u) =
        middle-All (Cleared now s.tables s.world.objects) before after id
          (subst (All (Cleared now s.tables s.world.objects)) at c) in
      absurd (ground (arith, q.resolved, q.at, q.held, e, f, g))

  -- A session that has an artifact whose row is there and whose manifest file is gone, as a Delete
  -- leaves it that the index has failed, can be rolled back by no further call: where no other process
  -- touches the Location, and no call reports a file as missing that is there, RollbackSession fails and
  -- changes nothing, whatever else its calls answer.
  pub rollback_session-IsStuck :
      (sid : Text) (before after : List Text) (id digest path : Text) (s : Site C)
      → IsCalm s.world.turns
      → get_by_session sid s.tables.manifests ≡ before ++ id ∷ after
      → resolve_manifest_digest id s.tables ≡ some digest
      → manifest_path digest ≡ inr path
      → obj_get path s.world.objects ≡ none
      → IsStuck s (rollback_session decode no_delete sid s)
  rollback_session-IsStuck sid before after id digest path s calm at e f g =
      unreadable-IsStuck _ before after id digest path s _ at e f g
        (rollback_session-RollsBack sid s calm)
