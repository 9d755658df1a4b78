-- ===== src/Collector/Loops.antt =====
-- What a cycle keeps, whatever its calls answer: a rule for any relation on the files and markers that
-- the marking and the removal of single paths satisfy, with what a cycle does to the index.
use scrinium.Base.{
  ℕ, ◌+◌, ◌≤◌, ◌<◌, Text, true, Option, none, some, List, [], ◌∷◌, ◌≡◌, refl, sym, ap, subst, inl,
  inr, arith, All, Bool-cases, Option-cases, if◌then◌else◌, text_eq, text_eq_sound, text_eq_iff,
  text_eq_refl, ◌&&◌, ◌==◌,
}
use scrinium.Index.{BlobRow, find_blob, orphan_blobs, drop_orphan}
use scrinium.Collector.{
  Site, World, Turn, Stats, turn, Error, call_failed, ctx_cancelled, artifact_not_found, io_error,
  Result, ok, err, Pass, for_each, ctx_err, and_then, while_alive, skip_missing,
}

-- PRIMARY KEY (blob_ref)
abbrev pub IsKeyed : List BlobRow → Type 0
IsKeyed [] = Unit {0}
IsKeyed (b ∷ bs) = (find_blob b.blob_ref bs ≡ none) × IsKeyed bs

find_ref : (r q : Text) (bs : List BlobRow) → text_eq r q ≡ true → find_blob r bs ≡ find_blob q bs
find_ref r q bs e = ap (λ t. find_blob t bs) (text_eq_sound r q e)

-- The row that a lookup finds after the removal of an orphan.
pub find-drop :
    (r ref : Text) (bs : List BlobRow)
    → IsKeyed bs
    → find_blob r (drop_orphan ref bs).1 ≡ (elim (find_blob r bs) [
      | none ↦ none
      | some b ↦ if text_eq ref r then (if b.ref_count == 0 then none else some b) else some b
    ])
unfolding find_blob drop_orphan
find-drop r ref [] h = refl
find-drop r ref (b ∷ bs) h = ground (
  arith,
  text_eq_iff b.blob_ref ref,
  text_eq_iff b.blob_ref r,
  text_eq_iff ref r,
  h.0,
  find-drop r ref bs h.1,
  find_ref b.blob_ref r bs,
)

pub drop-IsKeyed : (ref : Text) (bs : List BlobRow) → IsKeyed bs → IsKeyed (drop_orphan ref bs).1
unfolding drop_orphan
drop-IsKeyed ref [] h = tt
drop-IsKeyed ref (b ∷ bs) h = elim (Bool-cases (text_eq b.blob_ref ref && b.ref_count == 0)) [
  | inl e ↦ rw e (drop-IsKeyed ref bs h.1)
  | inr e ↦ rw e (rw (find-drop b.blob_ref ref bs h.1, h.0) refl, drop-IsKeyed ref bs h.1)
]

-- The reference is that of a blob without references.
abbrev pub IsOrphan : List BlobRow → Text → Type 0
IsOrphan bs r = (b : BlobRow) × (find_blob r bs ≡ some b) × (b.ref_count ≡ 0)

later-IsOrphan :
    (b : BlobRow) (bs : List BlobRow) (rs : List Text)
    → find_blob b.blob_ref bs ≡ none
    → All (IsOrphan bs) rs
    → All (IsOrphan (b ∷ bs)) rs
unfolding find_blob
later-IsOrphan b bs [] n h = tt
later-IsOrphan b bs (r ∷ rs) n h =
    let (c, f, z) = h.0 in
    ((c, ground (arith, n, f, find_ref b.blob_ref r bs), z), later-IsOrphan b bs rs n h.1)

-- Every listed reference is that of an orphan.
pub orphans-IsOrphan : (bs : List BlobRow) → IsKeyed bs → All (IsOrphan bs) (orphan_blobs bs)
unfolding orphan_blobs find_blob
orphans-IsOrphan [] h = tt
orphans-IsOrphan (b ∷ bs) h =
    let rest = later-IsOrphan b bs (orphan_blobs bs) h.0 (orphans-IsOrphan bs h.1) in
    elim (Bool-cases (b.ref_count == 0)) [
      | inl e ↦ rw e ((b, rw (text_eq_refl b.blob_ref) refl, ground arith), rest)
      | inr e ↦ rw e rest
    ]

-- The other processes leave the site alone; calls may fail and time may pass.
abbrev pub AreCalm : List Turn → Type 0
AreCalm ts = All (λ (t : Turn). (s : Site) → t.others s ≡ s) ts

abbrev pub rows : World → List BlobRow
rows w = w.site.index.blobs

ctx_err_world : (w : World) → (ctx_err w).1 ≡ (turn w).1
unfolding ctx_err
ctx_err_world w = elim (Option-cases (turn w).0) [
  | inl e ↦ rw (ctx_err, e) refl
  | inr ((ctx_cancelled, n), e) ↦ rw (ctx_err, e) refl
  | inr ((io_error k, n), e) ↦ rw (ctx_err, e) refl
]

pub All-map :
    (P R : Text → Type 0) (xs : List Text) → ((x : Text) → P x → R x) → All P xs → All R xs
All-map P R [] f h = tt
All-map P R (x ∷ xs) f h = (f x h.0, All-map P R xs f h.1)

abbrev at : Site → ℕ → Stats → List Text → List Turn → World
at s n st d ts = record { site = s; now = n; stats = st; deleted = d; turns = ts }

turn_site_at :
    (s : Site) (n : ℕ) (st : Stats) (d : List Text) (ts : List Turn)
    → AreCalm ts
    → (turn (at s n st d ts)).1.site ≡ s
unfolding turn
turn_site_at s n st d [] h = refl
turn_site_at s n st d (t ∷ ts) h = h.0 s

pub turn_site : (w : World) → AreCalm w.turns → (turn w).1.site ≡ w.site
turn_site w h = turn_site_at w.site w.now w.stats w.deleted w.turns h

abbrev pub total : List Turn → ℕ
total [] = 0
total (t ∷ ts) = t.elapsed + total ts

-- The time at the end of the schedule.
abbrev pub ends_at : World → ℕ
ends_at w = w.now + total w.turns

module _ (Q : Site → Site → Type 0) (Q_refl : (s : Site) → Q s s)
    (Q_trans : (s t u : Site) → Q s t → Q t u → Q s u) where
  -- From one world to a later one.
  pub record Keeps (u v : World) : Type 0 where
    pub calm : AreCalm v.turns
    pub keyed : IsKeyed (rows v)
    pub later : u.now ≤ v.now
    pub ends : ends_at v ≤ ends_at u
    pub shrinks :
        (r : Text) (b : BlobRow) → find_blob r (rows v) ≡ some b → find_blob r (rows u) ≡ some b
    pub persists :
        (r : Text) (b : BlobRow)
        → find_blob r (rows u) ≡ some b
        → 0 < b.ref_count
        → find_blob r (rows v) ≡ some b
    pub site : Q u.site v.site

  pub record IsGood (w : World) : Type 0 where
    pub calm : AreCalm w.turns
    pub keyed : IsKeyed (rows w)

  pub Keeps-refl : (w : World) → IsGood w → Keeps w w
  Keeps-refl w g = record {
    calm = g.calm;
    keyed = g.keyed;
    later = omega arith;
    ends = omega arith;
    shrinks = λ r b h. h;
    persists = λ r b h l. h;
    site = Q_refl w.site;
  }

  pub Keeps-trans : (u v w : World) → Keeps u v → Keeps v w → Keeps u w
  Keeps-trans u v w h k = record {
    calm = k.calm;
    keyed = k.keyed;
    later = omega (arith, h.later, k.later);
    ends = omega (arith, h.ends, k.ends);
    shrinks = λ r b f. h.shrinks r b (k.shrinks r b f);
    persists = λ r b f l. k.persists r b (h.persists r b f l) l;
    site = Q_trans u.site v.site w.site h.site k.site;
  }

  pub Keeps-IsGood : (u v : World) → Keeps u v → IsGood v
  Keeps-IsGood u v k = record { calm = k.calm; keyed = k.keyed }

  -- What a call does before it takes effect.
  turn_on :
      (s : Site) (n : ℕ) (st : Stats) (d : List Text) (ts : List Turn)
      → IsGood (at s n st d ts)
      → Keeps (at s n st d ts) (turn (at s n st d ts)).1
  unfolding turn
  turn_on s n st d [] g = Keeps-refl (at s n st d []) g
  turn_on s n st d (t ∷ ts) g =
      subst (λ x. Keeps (at s n st d (t ∷ ts)) (at x (n + t.elapsed) st d ts)) (sym ((g.calm).0 s))
        (record {
          calm = (g.calm).1;
          keyed = g.keyed;
          later = omega arith;
          ends = omega arith;
          shrinks = λ r b h. h;
          persists = λ r b h l. h;
          site = Q_refl s;
        })

  pub turn-Keeps : (w : World) → IsGood w → Keeps w (turn w).1
  turn-Keeps w g = turn_on w.site w.now w.stats w.deleted w.turns g

  -- Statistics and events are no part of what is kept.
  pub counted-Keeps :
      (w : World) (st : Stats) (d : List Text)
      → IsGood w
      → Keeps w (record w { stats = st; deleted = d })
  counted-Keeps w st d g = record {
    calm = g.calm;
    keyed = g.keyed;
    later = omega arith;
    ends = omega arith;
    shrinks = λ r b h. h;
    persists = λ r b h l. h;
    site = Q_refl w.site;
  }

  pub and_then-Keeps :
      {A : Type 0} (w : World) (p : Result A × World) (failed : Error → Pass) (next : A → Pass)
      → Keeps w p.1
      → ((e : Error) → Keeps p.1 (failed e p.1).1)
      → ((a : A) → p.0 ≡ ok a → Keeps p.1 (next a p.1).1)
      → Keeps w (and_then p failed next).1
  and_then-Keeps w (ok a, v) failed next k f n = Keeps-trans w v (next a v).1 k (n a refl)
  and_then-Keeps w (err e, v) failed next k f n = Keeps-trans w v (failed e v).1 k (f e)

  pub while_alive-Keeps :
      (w : World) (p : Option Error × World) (next : Pass)
      → Keeps w p.1
      → Keeps p.1 (next p.1).1
      → Keeps w (while_alive p next).1
  while_alive-Keeps w (none, v) next k n = Keeps-trans w v (next v).1 k n
  while_alive-Keeps w (some e, v) next k n = k

  pub skip_missing-Keeps : (w : World) (e : Error) → IsGood w → Keeps w (skip_missing e w).1
  skip_missing-Keeps w artifact_not_found g = Keeps-refl w g
  skip_missing-Keeps w (call_failed e) g = Keeps-refl w g

  pub ctx_err-Keeps : (w : World) → IsGood w → Keeps w (ctx_err w).1
  ctx_err-Keeps w g = subst (Keeps w) (sym (ctx_err_world w)) (turn-Keeps w g)

  -- A loop whose body keeps what it should for items that are as they were at the start.
  pub for_each-Keeps :
      (H : World → Text → Type 0) (body : Text → Pass)
      → ((u v : World) (x : Text) → Keeps u v → H u x → H v x)
      → ((x : Text) (w : World) → IsGood w → H w x → Keeps w (body x w).1)
      → (xs : List Text) (w : World) → IsGood w
      → All (H w) xs
      → Keeps w (for_each body xs w).1
  unfolding for_each
  for_each-Keeps H body stable step [] w g h = Keeps-refl w g
  for_each-Keeps H body stable step (x ∷ xs) w g h =
      let first = step x w g h.0 in
      elim (Option-cases (body x w).0) [
        | inr (e, c) ↦ rw (for_each, c) first
        | inl c ↦
            rw (for_each, c)
              (Keeps-trans w (body x w).1 (for_each body xs (body x w).1).1 first (
                for_each-Keeps H body stable step xs (body x w).1
                  (Keeps-IsGood w (body x w).1 first)
                  (All-map (H w) (H (body x w).1) xs (λ y. stable w (body x w).1 y first) h.1)))
      ]
