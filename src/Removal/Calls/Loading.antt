-- ===== src/Removal/Calls/Loading.antt =====
-- What Load of a manifest finds out, and that it changes nothing.
use scrinium.Base.{
  ℕ, Text, Bool, Option, some, [], ◌≡◌, ◌⊎◌, inl, inr, sym, ap, subst, ◌∙◌, arith, ltb, length,
  text_eq, Bool-cases, Option-cases,
}
use scrinium.Driver
use scrinium.Driver.{Objects, obj_get}
use scrinium.Driver.Objects.{result-cases}
use scrinium.Layout.{manifest_path}
use scrinium.Index.{Tables}
use scrinium.Removal.{
  Site, Passport, Answer, max_manifest_size, resolve_manifest_digest, ask, called, decoded,
  load_manifest_by_digest, load,
}
use scrinium.Removal.Calls.{
  IsCalm, sum-cases, Kept, Kept_refl, Kept_trans, ask-Kept, Found, get-Found,
}

module _ {C : Type 0} (decode : Text → Text → ℕ ⊎ Option ℕ) (no_delete : C → Bool) where
  -- The manifest `m` of the artifact can be read from the tables and the objects.
  pub record Readable (t : Tables) (o : Objects) (id : Text) (m : Passport) : Type 0 where
    pub path : Text
    pub raw : Text
    pub resolved : resolve_manifest_digest id t ≡ some m.digest
    pub at : manifest_path m.digest ≡ inr path
    pub held : obj_get path o ≡ some raw
    pub good : decoded decode no_delete m.digest raw ≡ inr m

  abbrev Loads : Text → Site C → Answer C Passport → Type 0
  Loads digest s (inl e, s') = Kept s s'
  Loads digest s (inr m, s') =
      Kept s s'
      × ((path : Text) × (raw : Text) × (digest ≡ m.digest)
          × (manifest_path m.digest ≡ inr path)
          × (obj_get path s.world.objects ≡ some raw)
          × (decoded decode no_delete m.digest raw ≡ inr m))

  decoded-digest :
      (digest raw : Text) (m : Passport)
      → decoded decode no_delete digest raw ≡ inr m
      → m.digest ≡ digest
  unfolding decoded
  decoded-digest digest raw m h = elim (Bool-cases (ltb max_manifest_size (length raw))) [
    | inl e ↦ absurd (ground (arith, h, e))
    | inr e ↦ (elim (sum-cases (decode digest raw)) [
      | inl (x, f) ↦ absurd (ground (arith, h, e, f))
      | inr (until, f) ↦ ground (arith, h, e, f)
    ])
  ]

  raw-Loads :
      (digest path raw : Text) (s s' : Site C)
      → Kept s s'
      → manifest_path digest ≡ inr path
      → obj_get path s.world.objects ≡ some raw
      → Loads digest s (decoded decode no_delete digest raw, s')
  raw-Loads digest path raw s s' k p g = elim (sum-cases (decoded decode no_delete digest raw)) [
    | inl (e, f) ↦ rw f k
    | inr (m, f) ↦
        let same = decoded-digest digest raw m f in
        rw f (
          k,
          (
            path,
            raw,
            sym same,
            ap manifest_path same ∙ p,
            g,
            ap (λ x. decoded decode no_delete x raw) same ∙ f,
          ),
        )
  ]

  by_digest-Loads :
      (digest : Text) (s : Site C)
      → IsCalm s.world.turns
      → Loads digest s (load_manifest_by_digest decode no_delete digest s)
  unfolding load_manifest_by_digest
  by_digest-Loads digest s h = elim (sum-cases (manifest_path digest)) [
    | inl (e, p) ↦ rw (p, load_manifest_by_digest) (Kept_refl s h)
    | inr (path, p) ↦ (elim (result-cases (Driver.get path s.world).0) [
      | inl (raw, g) ↦
          let found =
            subst (λ r. Found path s (r, (called (Driver.get path) s).1)) g (get-Found path s h) in
          rw (p, load_manifest_by_digest, g) (raw-Loads digest path raw s _ found.0 p found.1)
      | inr (x, g) ↦
          let found =
            subst (λ r. Found path s (r, (called (Driver.get path) s).1)) g (get-Found path s h) in
          rw (p, load_manifest_by_digest, g) found
    ])
  ]

  -- What Load has found out.
  abbrev pub LoadedAs : Text → Site C → Answer C Passport → Type 0
  LoadedAs id s (inl e, s') = Kept s s'
  LoadedAs id s (inr m, s') = Kept s s' × Readable s.tables s.world.objects id m

  found_out :
      (id digest : Text) (s s' : Site C) (a : Answer C Passport)
      → Kept s s'
      → resolve_manifest_digest id s'.tables ≡ some digest
      → Loads digest s' a
      → LoadedAs id s a
  found_out id digest s s' (inl e, s'') k r l = Kept_trans s s' s'' k l
  found_out id digest s s' (inr m, s'') k r (l, (path, raw, same, p, g, f)) = (
    Kept_trans s s' s'' k l,
    record {
      path = path;
      raw = raw;
      resolved = ap (resolve_manifest_digest id) (sym k.tables) ∙ r ∙ ap some same;
      at = p;
      held = ap (obj_get path) (sym k.objects) ∙ g;
      good = f;
    },
  )

  pub load-LoadedAs :
      (id : Text) (s : Site C) → IsCalm s.world.turns → LoadedAs id s (load decode no_delete id s)
  unfolding load
  load-LoadedAs id s h =
      let k = ask-Kept s h in
      elim (Bool-cases (text_eq id [])) [
        | inl e ↦ rw (e, load) (Kept_refl s h)
        | inr e ↦ (elim (Option-cases (ask s).0.sql) [
          | inr (x, q) ↦ rw (e, load, q) k
          | inl q ↦ (elim (Option-cases (resolve_manifest_digest id (ask s).1.tables)) [
            | inl r ↦ rw (e, load, q, r) k
            | inr (digest, r) ↦
                rw (e, load, q, r)
                  (found_out id digest s (ask s).1 _ k r (by_digest-Loads digest (ask s).1 k.calm))
          ])
        ])
      ]
