-- ===== src/Removal/Deleting.antt =====
-- Delete: the manifest file goes first, the row of the index second.
use scrinium.Base.{
  ℕ, ◌≤◌, Text, Bool, true, false, Option, none, some, List, [], ◌∷◌, ◌≡◌, ◌≢◌, ◌⊎◌, inl, inr, refl,
  sym, ap, subst, ◌∙◌, arith, if◌then◌else◌, ltb, text_eq, text_eq_refl, Bool-cases, Option-cases,
}
use scrinium.Driver
use scrinium.Driver.{World, not_exist, obj_remove, turn}
use scrinium.Layout.{manifest_path}
use scrinium.Store.{Store}
use scrinium.Index.{
  Tables, ManifestRow, IndexError, Outside, has_row, delete_manifest, without_manifest,
}
use scrinium.Removal.{
  Failure, Site, Passport, Answer, driver_failed, newest_row, has_handle, newer_row,
  resolve_manifest_digest, ask, enter, is_protected, drop_from_index, remove_file, delete_loaded,
  delete, finished,
}
use scrinium.Removal.Calls.{
  IsCalm, turn-CalmTurn, Kept, Kept_trans, ask-Kept, enter-Kept, sum-cases,
}
use scrinium.Removal.Calls.Loading.{Readable, LoadedAs, load-LoadedAs}

remove_over :
    (p : Text) (w : World)
    → Driver.remove p w
      ≡ Driver.unless_fault
          (turn w)
          (λ v. (Driver.ok tt, record v { objects = obj_remove p v.objects }))
unfolding Driver.remove turn
remove_over p w = elim (Option-cases (turn w).0) [
  | inl e ↦ ground (arith, e)
  | inr (x, e) ↦ ground (arith, e)
]

picked :
    (b : Bool) (q : ManifestRow) (rest : Option ManifestRow) (r : ManifestRow)
    → (if b then some (newer_row q rest) else rest) ≡ some r
    → (r ≡ q) ⊎ (rest ≡ some r)
picked false q rest r h = inr h
picked true q none r h = inl (cc)
picked true q (some o) r h = elim (Bool-cases (ltb q.csn o.csn)) [
  | inl e ↦ inr (ground (arith, h, e))
  | inr e ↦ inl (ground (arith, h, e))
]

-- The row that a handle resolves to is there.
newest-has_row :
    (id : Text) (rs : List ManifestRow) (r : ManifestRow)
    → newest_row id rs ≡ some r
    → has_row r.manifest_digest rs ≡ true
unfolding newest_row has_row
newest-has_row id [] r h = absurd (ground (arith, h))
newest-has_row id (q ∷ rs) r h = elim (picked (has_handle id q) q (newest_row id rs) r h) [
  | inl e ↦ rw (e, text_eq_refl q.manifest_digest) refl
  | inr e ↦
      ground
        (arith, newest-has_row id rs r e, Bool-cases (text_eq q.manifest_digest r.manifest_digest))
]

resolved-has_row :
    (id digest : Text) (t : Tables)
    → resolve_manifest_digest id t ≡ some digest
    → has_row digest t.manifests ≡ true
unfolding resolve_manifest_digest
resolved-has_row id digest t h = elim (Option-cases (newest_row id t.manifests)) [
  | inl e ↦ absurd (ground (arith, h, e))
  | inr (r, e) ↦
      let same : r.manifest_digest ≡ digest = ground (arith, h, e) in
      subst (λ d. has_row d t.manifests ≡ true) same (newest-has_row id t.manifests r e)
]

-- A deletion of a row that is there fails and leaves the tables, or drops the row and its edges.
row_deleted :
    (x : Outside) (d : Text) (t : Tables)
    → has_row d t.manifests ≡ true
    → ((e : IndexError) × (delete_manifest x d t ≡ (some e, t)))
      ⊎ (delete_manifest x d t ≡ (none, without_manifest d t))
unfolding delete_manifest
row_deleted x d t h = elim (Option-cases x.sql) [
  | inr (e, f) ↦ inl (e, rw f refl)
  | inl f ↦ (elim (Option-cases x.custom) [
    | inr (e, c) ↦ inl (e, rw (f, h, c) refl)
    | inl c ↦ inr (rw (f, h, c) refl)
  ])
]

module _ {C : Type 0} (decode : Text → Text → ℕ ⊎ Option ℕ) (no_delete : C → Bool) where
  -- The manifest of the artifact could be read, its retention was over, the policy allows the deletion,
  -- and its file is gone; everything else on the Location is as it was.
  pub record FileGone (id digest : Text) (s s' : Site C) : Type 0 where
    pub passport : Passport
    pub path : Text
    pub named : passport.digest ≡ digest
    pub readable : Readable decode no_delete s.tables s.world.objects id passport
    pub at : manifest_path digest ≡ inr path
    pub time : ℕ
    pub later : s.world.now ≤ time
    pub unprotected : is_protected time passport.retention_until ≡ false
    pub allowed : no_delete s.store.active_config ≡ false
    pub removed : s'.world.objects ≡ obj_remove path s.world.objects

  -- What Delete leaves: everything as it was; the file gone and the row left; or both gone, and then it
  -- reports no failure.
  pub data DeleteOutcome (id : Text) (s : Site C) : Option Failure → Site C → Type 0 where
    nothing_done : {e : Failure} {s' : Site C} → Kept s s' → DeleteOutcome id s (some e) s'
    row_left :
        {e : Failure} {s' : Site C} (digest : Text)
        → FileGone id digest s s'
        → s'.tables ≡ s.tables
        → DeleteOutcome id s (some e) s'
    deleted :
        {s' : Site C} (digest : Text)
        → FileGone id digest s s'
        → s'.tables ≡ without_manifest digest s.tables
        → DeleteOutcome id s none s'

  abbrev pub EndsIn : Text → Site C → Option Failure × Site C → Type 0
  EndsIn id s (r, s') = DeleteOutcome id s r s'

  regone :
      (id digest : Text) (s s' s'' : Site C)
      → FileGone id digest s s'
      → s''.world.objects ≡ s'.world.objects
      → FileGone id digest s s''
  regone id digest s s' s'' g e = record {
    passport = g.passport;
    path = g.path;
    named = g.named;
    readable = g.readable;
    at = g.at;
    time = g.time;
    later = g.later;
    unprotected = g.unprotected;
    allowed = g.allowed;
    removed = e ∙ g.removed;
  }

  -- The index's part: the file is gone already.
  index_part :
      (id digest : Text) (s s' : Site C)
      → FileGone id digest s s'
      → s'.tables ≡ s.tables
      → IsCalm s'.world.turns
      → EndsIn id s (drop_from_index decode no_delete id digest s')
  unfolding drop_from_index
  index_part id digest s s' g t calm =
      let k = ask-Kept s' calm in
      let row : has_row digest (ask s').1.tables.manifests ≡ true =
        subst (λ (x : Tables). has_row digest x.manifests ≡ true) (sym (k.tables ∙ t))
          (subst (λ d. has_row d s.tables.manifests ≡ true) g.named
            (resolved-has_row id g.passport.digest s.tables g.readable.resolved)) in
      elim (row_deleted (ask s').0 digest (ask s').1.tables row) [
        | inl (e, f) ↦
            rw (f, drop_from_index)
              (rw f (row_left digest (regone id digest s s' _ g k.objects) (k.tables ∙ t)))
        | inr f ↦
            rw (f, drop_from_index)
              (rw f (
                deleted digest (regone id digest s s' _ g k.objects)
                  (ap (without_manifest digest) (k.tables ∙ t))))
      ]

  failed_remove :
      (id : Text) (s s' : Site C) (e : Driver.Error) (gone : Option Failure × Site C)
      → e ≢ not_exist
      → Kept s s'
      → EndsIn id s (elim e [ not_exist ↦ gone | other ↦ (some (driver_failed other), s') ])
  failed_remove id s s' not_exist gone n k = absurd (n refl)
  failed_remove id s s' e gone n k = nothing_done k

  file_part :
      (id : Text) (m : Passport) (path : Text) (s s' : Site C)
      → Kept s s'
      → Readable decode no_delete s.tables s.world.objects id m
      → manifest_path m.digest ≡ inr path
      → is_protected s'.world.now m.retention_until ≡ false
      → no_delete s'.store.active_config ≡ false
      → EndsIn id s (remove_file decode no_delete id m.digest path s')
  unfolding remove_file
  file_part id m path s s' k r p u a =
      let c = turn-CalmTurn s'.world.objects s'.world.now s'.world.turns k.calm in
      elim (Option-cases (turn s'.world).0) [
        | inr (e, f) ↦
            rw (remove_over path s'.world, remove_file, f)
              (failed_remove id s _ e _ (λ x. c.fault (f ∙ ap some x))
                (subst (λ w. Kept s (record s' { world = w }))
                  (sym (ap (λ x. x.1) (remove_over path s'.world) ∙ rw f refl))
                  (Kept_trans s s' (record s' { world = (turn s'.world).1 }) k
                    (record {
                      objects = c.objects;
                      tables = refl;
                      store = refl;
                      later = c.later;
                      calm = c.calm;
                    }))))
        | inl f ↦
            rw (remove_over path s'.world, remove_file, f)
              (rw (remove_over path s'.world, f)
                (index_part id m.digest s _
                  (record {
                    passport = m;
                    path = path;
                    named = refl;
                    readable = r;
                    at = p;
                    time = s'.world.now;
                    later = k.later;
                    unprotected = u;
                    allowed = ap (λ (x : Store C). no_delete x.active_config) (sym k.store) ∙ a;
                    removed = ap (obj_remove path) (c.objects ∙ k.objects);
                  })
                  k.tables c.calm))
      ]

  loaded_part :
      (id : Text) (m : Passport) (s s' : Site C)
      → Kept s s'
      → Readable decode no_delete s.tables s.world.objects id m
      → EndsIn id s (delete_loaded decode no_delete id m s')
  unfolding delete_loaded
  loaded_part id m s s' k r = elim (Bool-cases (is_protected s'.world.now m.retention_until)) [
    | inl e ↦ rw (delete_loaded, e) (nothing_done k)
    | inr e ↦ (elim (Bool-cases (no_delete s'.store.active_config)) [
      | inl a ↦ rw (delete_loaded, e, a) (nothing_done k)
      | inr a ↦ rw (delete_loaded, e, a, r.at) (file_part id m r.path s s' k r r.at e a)
    ])
  ]

  load_part :
      (id : Text) (s s' : Site C) (a : Answer C Passport)
      → Kept s s'
      → LoadedAs decode no_delete id s' a
      → EndsIn id s (finished decode no_delete a (λ m. delete_loaded decode no_delete id m))
  load_part id s s' (inl e, s'') k l = nothing_done (Kept_trans s s' s'' k l)
  load_part id s s' (inr m, s'') k (l, r) = loaded_part id m s s'' (Kept_trans s s' s'' k l) (
      subst (λ t. Readable decode no_delete t s.world.objects id m) k.tables
        (subst (λ o. Readable decode no_delete s'.tables o id m) k.objects r))

  -- No other process touches the Location, and no call reports a file as missing that is there; the
  -- calls may fail in any other way, and time may pass. Then Delete ends in one of three ways: nothing
  -- has changed; or the manifest file is gone and the row is left; or both are gone, with the edges and
  -- counts of the row, and then, and only then, it reports no failure. The row never goes while the file
  -- stays. Where the file is gone, the manifest could be read, its retention was over at a time that is
  -- not before the call, and the policy of the store allows deletions.
  pub delete-EndsIn :
      (id : Text) (s : Site C) → IsCalm s.world.turns → EndsIn id s (delete decode no_delete id s)
  unfolding delete
  delete-EndsIn id s calm =
      let k = enter-Kept s calm in
      elim (sum-cases (enter s).0) [
        | inl (e, f) ↦ rw (f, delete) (nothing_done k)
        | inr (u, f) ↦
            rw (f, delete)
              (load_part id s (enter s).1 _ k
                (load-LoadedAs decode no_delete id (enter s).1 k.calm))
      ]
