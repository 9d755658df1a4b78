-- ===== src/Named/Versions/Kept.antt =====
-- What Prune and RemoveAll keep, on a Location that nothing else touches.
use scrinium.Base.{
  ℕ, zero, suc, ◌-◌, ◌≤◌, Text, none, List, [], ◌∷◌, ◌++◌, ◌≡◌, ◌≢◌, inl, inr, refl, ◌∙◌, arith,
  leb, length, length-drop, take-append-drop, take, drop, All, Bool-cases, true, false,
  if◌then◌else◌, text_eq, text_eq_sound, text_eq_refl,
}
use scrinium.Driver.{quiet, ok, Objects, obj_get, obj_remove, remove, turn, paths, list_objects}
use scrinium.Driver.Objects.{get-remove}
use scrinium.Named.{
  validate_name, version_of, version_path, seq_prefix, seqs_of, scan_seqs, remove_if_there,
}
use scrinium.Named.Versions.{
  insert_seq, sort_seqs, list_versions, remove_versions, all_removed, prune, remove_all,
  at_least_one,
}

abbrev Ordered : List ℕ → Type 0
Ordered [] = Unit {0}
Ordered (n ∷ ns) = All (λ m. n ≤ m) ns × Ordered ns

insert-All : (P : ℕ → Type 0) (n : ℕ) (ns : List ℕ) → P n → All P ns → All P (insert_seq n ns)
unfolding insert_seq
insert-All P n [] h hs = (h, tt)
insert-All P n (m ∷ ms) h hs = elim (Bool-cases (leb n m)) [
  | inl e ↦ rw e (h, (hs.0, hs.1))
  | inr e ↦ rw e (hs.0, insert-All P n ms h hs.1)
]

above : (n m : ℕ) (ms : List ℕ) → n ≤ m → All (λ k. m ≤ k) ms → All (λ k. n ≤ k) ms
above n m [] l h = tt
above n m (k ∷ ms) l h = (omega (arith, l, h.0), above n m ms l h.1)

insert-Ordered : (n : ℕ) (ns : List ℕ) → Ordered ns → Ordered (insert_seq n ns)
unfolding insert_seq
insert-Ordered n [] h = (tt, tt)
insert-Ordered n (m ∷ ms) h = elim (Bool-cases (leb n m)) [
  | inl e ↦ let l : n ≤ m = ground (arith, e) in rw e ((l, above n m ms l h.0), (h.0, h.1))
  | inr e ↦
      let l : m ≤ n = ground (arith, e) in
      rw e (insert-All (λ k. m ≤ k) n ms l h.0, insert-Ordered n ms h.1)
]

sort_seqs-Ordered : (ns : List ℕ) → Ordered (sort_seqs ns)
unfolding sort_seqs
sort_seqs-Ordered [] = tt
sort_seqs-Ordered (n ∷ ns) = insert-Ordered n (sort_seqs ns) (sort_seqs-Ordered ns)

drop-All : (P : ℕ → Type 0) (k : ℕ) (ns : List ℕ) → All P ns → All P (drop k ns)
drop-All P zero ns h = h
drop-All P (suc k) [] h = tt
drop-All P (suc k) (n ∷ ns) h = drop-All P k ns h.1

-- In an ordered list the first k are no larger than the rest.
Ordered-split :
    (k : ℕ) (ns : List ℕ) → Ordered ns → All (λ n. All (λ m. n ≤ m) (drop k ns)) (take k ns)
Ordered-split zero ns h = tt
Ordered-split (suc k) [] h = tt
Ordered-split (suc k) (n ∷ ns) h = (drop-All (λ m. n ≤ m) k ns h.0, Ordered-split k ns h.1)

-- The versions of a name among the objects, oldest first.
abbrev pub versions_of : Text → Objects → List ℕ
versions_of name o = sort_seqs (seqs_of (seq_prefix name) (paths o))

-- The objects without some versions of a name.
abbrev without : Text → List ℕ → Objects → Objects
without name [] o = o
without name (n ∷ ns) o = without name ns (obj_remove (version_of name n) o)

removes :
    (name : Text) (ns : List ℕ) (o : Objects) (now : ℕ)
    → validate_name name ≡ ok tt
    → remove_versions name ns (quiet o now) ≡ ([], quiet (without name ns o) now)
unfolding remove_versions version_path remove_if_there remove turn
removes name [] o now valid = refl
removes name (n ∷ ns) o now valid =
    ground (arith, valid, removes name ns (obj_remove (version_of name n) o) now valid)

without_others :
    (name q : Text) (ns : List ℕ) (o : Objects)
    → All (λ n. version_of name n ≢ q) ns
    → obj_get q (without name ns o) ≡ obj_get q o
without_others name q [] o h = refl
without_others name q (n ∷ ns) o h =
    without_others name q ns (obj_remove (version_of name n) o) h.1
    ∙ get-remove (version_of name n) q o
    ∙ elim (Bool-cases (text_eq (version_of name n) q)) [
      | inl e ↦ absurd (h.0 (text_eq_sound (version_of name n) q e))
      | inr e ↦ rw e refl
    ]

gone_stays :
    (name q : Text) (ns : List ℕ) (o : Objects)
    → obj_get q o ≡ none
    → obj_get q (without name ns o) ≡ none
gone_stays name q [] o h = h
gone_stays name q (n ∷ ns) o h = gone_stays name q ns (obj_remove (version_of name n) o) (
    get-remove (version_of name n) q o
    ∙ elim (Bool-cases (text_eq (version_of name n) q)) [ inl e ↦ rw e refl | inr e ↦ rw e h ])

without_gone :
    (name : Text) (ns : List ℕ) (o : Objects)
    → All (λ n. obj_get (version_of name n) (without name ns o) ≡ none) ns
without_gone name [] o = tt
without_gone name (n ∷ ns) o = (
  gone_stays name (version_of name n) ns (obj_remove (version_of name n) o) (
      get-remove (version_of name n) (version_of name n) o
      ∙ rw (text_eq_refl (version_of name n)) refl),
  without_gone name ns (obj_remove (version_of name n) o),
)

listed :
    (name : Text) (o : Objects) (now : ℕ)
    → validate_name name ≡ ok tt
    → list_versions name (quiet o now) ≡ (ok (versions_of name o), quiet o now)
unfolding list_versions scan_seqs list_objects turn
listed name o now valid = ground (arith, valid)

abbrev one_at_least : ℕ → ℕ
one_at_least zero = 1
one_at_least (suc n) = suc n

abbrev least : ℕ → ℕ → ℕ
least m n = if leb m n then m else n

-- What Prune leaves: it drops the oldest versions only, all of these are gone, as many as asked for
-- are left, or all where there are fewer, and every other object is as it was.
pub record Pruned (name : Text) (keep : ℕ) (o o' : Objects) : Type 0 where
  pub dropped : List ℕ
  pub kept : List ℕ
  pub whole : dropped ++ kept ≡ versions_of name o
  pub enough : length kept ≡ least (length (versions_of name o)) (one_at_least keep)
  pub oldest : All (λ n. All (λ m. n ≤ m) kept) dropped
  pub gone : All (λ n. obj_get (version_of name n) o' ≡ none) dropped
  pub untouched : (q : Text) → All (λ n. version_of name n ≢ q) dropped → obj_get q o' ≡ obj_get q o

same_bound : (keep : ℕ) → at_least_one keep ≡ one_at_least keep
same_bound zero = refl
same_bound (suc n) = ground arith

nothing-Pruned :
    (name : Text) (keep : ℕ) (o : Objects)
    → leb (length (versions_of name o)) (at_least_one keep) ≡ true
    → Pruned name keep o o
nothing-Pruned name keep o few = record {
  dropped = [];
  kept = versions_of name o;
  whole = refl;
  enough = rw⁻¹ (same_bound keep) (rw few refl);
  oldest = tt;
  gone = tt;
  untouched = λ q h. refl;
}

some-Pruned :
    (name : Text) (keep : ℕ) (o : Objects)
    → leb (length (versions_of name o)) (at_least_one keep) ≡ false
    → Pruned name keep o (
        without name
          (take (length (versions_of name o) - at_least_one keep) (versions_of name o))
          o)
some-Pruned name keep o h =
    let seqs : List ℕ = versions_of name o in
    let k : ℕ = length seqs - at_least_one keep in
    record {
      dropped = take k seqs;
      kept = drop k seqs;
      whole = take-append-drop k seqs;
      enough = rw⁻¹ (same_bound keep) (rw h (length-drop k seqs ∙ ground (arith, h)));
      oldest = Ordered-split k seqs (sort_seqs-Ordered (seqs_of (seq_prefix name) (paths o)));
      gone = without_gone name (take k seqs) o;
      untouched = λ q d. without_others name q (take k seqs) o d;
    }

-- Prune of a valid name on a Location that nothing else touches reports no failure, and drops only
-- the oldest versions: the sorted versions split into those it removed and those it left, of which
-- there are exactly `keep` (one, where keep is 0), or all where there are no more than that; the files
-- of the removed are gone; no removed version is newer than one that is left; and every object that is
-- not the file of a removed version is as it was.
pub prune-Pruned :
    (name : Text) (keep : ℕ) (o : Objects) (now : ℕ)
    → validate_name name ≡ ok tt
    → (o' : Objects) × (prune name keep (quiet o now) ≡ (all_removed, quiet o' now))
      × Pruned name keep o o'
unfolding prune
prune-Pruned name keep o now valid =
    elim (Bool-cases (leb (length (versions_of name o)) (at_least_one keep))) [
      | inl few ↦ (o, ground (arith, listed name o now valid, few), nothing-Pruned name keep o few)
      | inr many ↦
          let old : List ℕ =
            take (length (versions_of name o) - at_least_one keep) (versions_of name o) in
          (
            without name old o,
            ground (arith, listed name o now valid, many, removes name old o now valid),
            some-Pruned name keep o many,
          )
    ]

-- RemoveAll of a valid name on a Location that nothing else touches reports no failure; every version
-- it listed is gone, and every object that is not the file of a listed version is as it was.
remove_all-versions_of :
    (name : Text) (o : Objects) (now : ℕ)
    → validate_name name ≡ ok tt
    → (o' : Objects) × (remove_all name (quiet o now) ≡ (all_removed, quiet o' now))
      × All (λ n. obj_get (version_of name n) o' ≡ none) (versions_of name o)
      × ((q : Text)
          → All (λ n. version_of name n ≢ q) (versions_of name o)
          → obj_get q o' ≡ obj_get q o)
unfolding remove_all
remove_all-versions_of name o now valid = (
  without name (versions_of name o) o,
  ground (arith, listed name o now valid, removes name (versions_of name o) o now valid),
  without_gone name (versions_of name o) o,
  λ q d. without_others name q (versions_of name o) o d,
)
