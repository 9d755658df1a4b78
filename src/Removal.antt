-- ===== src/Removal.antt =====
-- Delete (engine/store/data_delete.go) and RollbackSession (data_rollback.go) of a store, with the
-- loading of a manifest (engine/internal/cas/read.go), over the gates of Store, the objects of Driver
-- and the tables of Index.
pub mod Calls
pub mod Deleting
pub mod Sessions
mod Tests
use scrinium.Base.{
  ℕ, ◌*◌, Text, Bool, true, false, ◌&&◌, Option, none, some, List, [], ◌∷◌, ◌++◌, ◌⊎◌, inl, inr,
  ltb, if◌then◌else◌, length, text_eq,
}
use scrinium.Driver
use scrinium.Driver.{World, not_exist}
use scrinium.Layout.{LayoutError, manifest_path}
use scrinium.Store.{Store, Ctx, CtxError, Refusal, enter_write}
use scrinium.Index.{Tables, ManifestRow, IndexError, Outside, delete_manifest}

pub data Failure : Type 0 where
  refused : Refusal → Failure
  ctx_ended : CtxError → Failure
  artifact_not_found manifest_too_large retention_not_expired deletion_forbidden : Failure
  empty_session_id : Failure
  bad_path : LayoutError → Failure
  driver_failed : Driver.Error → Failure
  index_failed : IndexError → Failure
  undecodable : ℕ → Failure

pub data Event : Type 0 where
  artifact_deleted : Text → Event
  rollback_completed : Text → ℕ → Event

-- The Location, the index and what has been published. `answers` says what fails in each call of the
-- index, `polls` what each look at the context finds; past their ends nothing fails and the context
-- lives.
pub record Site (C : Type 0) : Type 0 where
  pub store : Store C
  pub world : World
  pub tables : Tables
  pub answers : List Outside
  pub polls : List Ctx
  pub published : List Event

-- The highest change number among the rows of a handle.
abbrev newer_row : ManifestRow → Option ManifestRow → ManifestRow
newer_row r none = r
newer_row r (some other) = if ltb r.csn other.csn then other else r

abbrev has_handle : Text → ManifestRow → Bool
has_handle id r = elim r.artifact_id [ none ↦ false | some h ↦ text_eq h id ]

unfoldable pub newest_row : Text → List ManifestRow → Option ManifestRow
newest_row id [] = none
newest_row id (r ∷ rs) =
    let rest = newest_row id rs in if has_handle id r then some (newer_row r rest) else rest

-- ResolveManifestDigest
unfoldable pub resolve_manifest_digest : Text → Tables → Option Text
resolve_manifest_digest id t = elim (newest_row id t.manifests) [
  | none ↦ none
  | some r ↦ some r.manifest_digest
]

-- GetBySession
unfoldable pub get_by_session : Text → List ManifestRow → List Text
get_by_session sid [] = []
get_by_session sid (r ∷ rs) =
    let rest = get_by_session sid rs in
    elim r.artifact_id [
      | none ↦ rest
      | some id ↦ if text_eq r.session_id sid then id ∷ rest else rest
    ]

abbrev pub max_manifest_size : ℕ
max_manifest_size = 33554432

-- What a manifest says on its retention; none is the zero time.
pub record Passport : Type 0 where
  pub digest : Text
  pub retention_until : Option ℕ

abbrev pub no_failure : Outside
no_failure = record { sql = none; custom = none }

-- `now` is before the end of the retention.
unfoldable pub is_protected : ℕ → Option ℕ → Bool
is_protected now none = false
is_protected now (some until) = ltb now until

abbrev pub Answer : Type 0 → Type 0 → Type 0
Answer C A = (Failure ⊎ A) × Site C

module _ {C : Type 0} where
  -- A call of the index takes the next answer.
  unfoldable pub ask : Site C → Outside × Site C
  ask s = elim s.answers [ [] ↦ (no_failure, s) | a ∷ more ↦ (a, record s { answers = more }) ]

  unfoldable pub poll : Site C → Ctx × Site C
  poll s = elim s.polls [ [] ↦ (none, s) | c ∷ cs ↦ (c, record s { polls = cs }) ]

  -- enterWrite, which looks at the context first.
  unfoldable pub enter : Site C → Answer C (Unit {0})
  enter s =
      let (ctx, s') = poll s in
      elim (enter_write ctx s'.store) [ some e ↦ (inl (refused e), s') | none ↦ (inr tt, s') ]

  -- A call of the driver.
  abbrev pub called : {A : Type 0} → Driver.Exec A → Site C → Driver.Result A × Site C
  called f s = let (r, w) = f s.world in (r, record s { world = w })

  -- `decode` verifies the digest of the bytes and decodes them: a code for what is wrong, or the
  -- retention.
  module _ (decode : Text → Text → ℕ ⊎ Option ℕ) (no_delete : C → Bool) where
    unfoldable pub decoded : Text → Text → Failure ⊎ Passport
    decoded digest raw =
        if ltb max_manifest_size (length raw)
        then inl manifest_too_large
        else (elim (decode digest raw) [
          | inl e ↦ inl (undecodable e)
          | inr until ↦ inr (record { digest = digest; retention_until = until })
        ])

    -- loadManifestByDigest
    unfoldable pub load_manifest_by_digest : Text → Site C → Answer C Passport
    load_manifest_by_digest digest s = elim (manifest_path digest) [
      | inl e ↦ (inl (bad_path e), s)
      | inr path ↦
          let (r, s') = called (Driver.get path) s in
          elim r [
            | Driver.err e ↦
                (inl (elim e [ not_exist ↦ artifact_not_found | other ↦ driver_failed other ]), s')
            | Driver.ok raw ↦ (decoded digest raw, s')
          ]
    ]

    -- Load. It sets the handle that was asked for, so guardHandleless never refuses what it loads.
    unfoldable pub load : Text → Site C → Answer C Passport
    load id s =
        let (a, s') = ask s in
        if text_eq id [] then (inl artifact_not_found, s) else (elim a.sql [
          | some e ↦ (inl (index_failed e), s')
          | none ↦ (elim (resolve_manifest_digest id s'.tables) [
            | none ↦ (inl artifact_not_found, s')
            | some digest ↦ load_manifest_by_digest digest s'
          ])
        ])

    -- The index's part of Delete, after the manifest file is gone, and the event.
    unfoldable pub drop_from_index : Text → Text → Site C → Option Failure × Site C
    drop_from_index id digest s =
        let (a, s') = ask s in
        let (e, t) = delete_manifest a digest s'.tables in
        elim e [
          | some x ↦ (some (index_failed x), record s' { tables = t })
          | none ↦ (
            none,
            record s' { tables = t; published = s'.published ++ (artifact_deleted id ∷ []) },
          )
        ]

    -- Driver.Remove of the manifest file; a file that is not there is no error.
    unfoldable pub remove_file : Text → Text → Text → Site C → Option Failure × Site C
    remove_file id digest path s =
        let (r, s') = called (Driver.remove path) s in
        elim r [
          | Driver.ok _ ↦ drop_from_index id digest s'
          | Driver.err e ↦ (elim e [
            | not_exist ↦ drop_from_index id digest s'
            | other ↦ (some (driver_failed other), s')
          ])
        ]

    -- Delete after the manifest is loaded.
    unfoldable pub delete_loaded : Text → Passport → Site C → Option Failure × Site C
    delete_loaded id m s =
        if is_protected s.world.now m.retention_until
        then (some retention_not_expired, s)
        else if no_delete s.store.active_config
        then (some deletion_forbidden, s)
        else (elim (manifest_path m.digest) [
          | inl e ↦ (some (bad_path e), s)
          | inr path ↦ remove_file id m.digest path s
        ])

    abbrev finished :
        {A : Type 0} → Answer C A → (A → Site C → Option Failure × Site C) → Option Failure × Site C
    finished (inl e, s) f = (some e, s)
    finished (inr a, s) f = f a s

    unfoldable pub delete : Text → Site C → Option Failure × Site C
    delete id s = finished (enter s) (λ _ s'. finished (load id s') (λ m. delete_loaded id m))

    -- The pre-check of RollbackSession over the artifacts, at the time `now`.
    unfoldable pub check_all : ℕ → List Text → Site C → Option Failure × Site C
    check_all now [] s = (none, s)
    check_all now (id ∷ ids) s = finished (load id s) (λ m s'.
        if is_protected now m.retention_until
        then (some retention_not_expired, s')
        else check_all now ids s')

    abbrev is_gone : Failure → Bool
    is_gone artifact_not_found = true
    is_gone _ = false

    -- The loop over Delete: what another caller has deleted is skipped.
    unfoldable pub delete_all : List Text → Site C → Option Failure × Site C
    delete_all [] s = (none, s)
    delete_all (id ∷ ids) s =
        let (ctx, s') = poll s in
        elim ctx [
          | some e ↦ (some (ctx_ended e), s')
          | none ↦
              let (r, s'') = delete id s' in
              elim r [
                | none ↦ delete_all ids s''
                | some e ↦ if is_gone e then delete_all ids s'' else (some e, s'')
              ]
        ]

    abbrev pub then_ :
        Option Failure × Site C → (Site C → Option Failure × Site C) → Option Failure × Site C
    then_ (some e, s) f = (some e, s)
    then_ (none, s) f = f s

    unfoldable pub rollback_all : Text → List Text → Site C → Option Failure × Site C
    rollback_all sid [] s = (none, s)
    rollback_all sid (id ∷ ids) s = then_ (check_all s.world.now (id ∷ ids) s) (λ s'.
        if no_delete s'.store.active_config
        then (some deletion_forbidden, s')
        else then_ (delete_all (id ∷ ids) s') (λ s''. (
          none,
          record s'' {
            published = s''.published ++ (rollback_completed sid (length (id ∷ ids)) ∷ []);
          },
        )))

    -- RollbackSession
    unfoldable pub rollback_session : Text → Site C → Option Failure × Site C
    rollback_session sid s = finished (enter s) (λ _ s'.
        if text_eq sid []
        then (some empty_session_id, s')
        else let (a, s'') = ask s' in
          (elim a.sql [
            | some e ↦ (some (index_failed e), s'')
            | none ↦ rollback_all sid (get_by_session sid s''.tables.manifests) s''
          ]))
