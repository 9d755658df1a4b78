-- ===== src/Named.antt =====
-- engine/internal/named: the names of system artifacts (name.go), the versioned files (version.go)
-- and the exclusive cells (cell.go) over the driver.
pub mod Names
pub mod Seq
pub mod Claims
pub mod Active
pub mod Versions
pub mod Listing
mod Tests
use scrinium.Base.{
  ℕ, zero, suc, ◌+◌, ◌-◌, ◌*◌, ◌/◌, ◌%◌, ◌^◌, Text, Bool, true, false, not, ◌&&◌, ◌||◌, Option,
  none, some, List, [], ◌∷◌, ◌++◌, ltb, leb, ◌==◌, if◌then◌else◌, length, take, drop, codes,
  text_eq, has_prefix,
}
use scrinium.Driver.{
  Error, Result, ok, err, not_exist, already_exists, invalid_system_name, ctx_cancelled,
  lost_seq_races, Exec, pure, fail, ◌>>=◌, ◌>>◌, put, get, remove, list_objects,
}

abbrev pub root_slash : Text
root_slash = codes "named/"

abbrev pub slash : ℕ
slash = b'/'

abbrev pub dot : ℕ
dot = b'.'

-- strings.Split(s, "/"): the segments, the first of them apart.
unfoldable pub split_slash : Text → Text × List Text
split_slash [] = ([], [])
split_slash (c ∷ s) =
    let (seg, rest) = split_slash s in if c == slash then ([], seg ∷ rest) else (c ∷ seg, rest)

abbrev pub segments : Text → List Text
segments s = let (seg, rest) = split_slash s in seg ∷ rest

-- strings.Contains(s, "//")
unfoldable pub has_double_slash : Text → Bool
has_double_slash [] = false
has_double_slash (c ∷ s) = (c == slash && has_prefix s (slash ∷ [])) || has_double_slash s

unfoldable pub ends_with_slash : Text → Bool
ends_with_slash [] = false
ends_with_slash (c ∷ []) = c == slash
ends_with_slash (c ∷ d ∷ s) = ends_with_slash (d ∷ s)

abbrev pub is_traversal : Text → Bool
is_traversal seg = text_eq seg (dot ∷ []) || text_eq seg (dot ∷ dot ∷ [])

unfoldable pub any_traversal : List Text → Bool
any_traversal [] = false
any_traversal (seg ∷ rest) = is_traversal seg || any_traversal rest

-- ValidateName
unfoldable pub validate_name : Text → Result (Unit {0})
validate_name [] = err invalid_system_name
validate_name (c ∷ s) =
    if c == slash || ends_with_slash (c ∷ s)
    then err invalid_system_name
    else if has_double_slash (c ∷ s)
    then err invalid_system_name
    else if any_traversal (segments (c ∷ s))
    then err invalid_system_name
    else ok tt

abbrev pub seq_width : ℕ
seq_width = 10

-- The decimal digits of n in w places, before `rest`; what does not fit is dropped.
unfoldable pub pad_digits : ℕ → ℕ → Text → Text
pad_digits zero n rest = rest
pad_digits (suc w) n rest = pad_digits w (n / 10) ((b'0' + n % 10) ∷ rest)

-- The decimal digits of n with no leading zero, before `rest`; ten places are enough for a uint64
-- cut by ten digits.
unfoldable pub more_digits : ℕ → ℕ → Text → Text
more_digits zero n rest = rest
more_digits (suc fuel) n rest =
    let longer = more_digits fuel (n / 10) ((b'0' + n % 10) ∷ rest) in
    if n == 0 then rest else longer

-- formatSeq, %0*d at width 10
unfoldable pub format_seq : ℕ → Text
format_seq n = more_digits 10 (n / 10 ^ 10) (pad_digits 10 n [])

abbrev pub is_digit : ℕ → Bool
is_digit c = leb b'0' c && leb c b'9'

-- strconv.ParseUint in base 10, of at most ten bytes: it cannot overflow.
unfoldable pub parse_digits : Text → ℕ → Option ℕ
parse_digits [] acc = some acc
parse_digits (c ∷ s) acc =
    let more = parse_digits s (acc * 10 + (c - b'0')) in if is_digit c then more else none

-- parseSeq
unfoldable pub parse_seq : Text → Option ℕ
parse_seq leaf = if length leaf == seq_width then parse_digits leaf 0 else none

-- `if err := ValidateName(name); err != nil`
abbrev pub checked : {A : Type 0} → Text → A → Result A
checked name a = elim (validate_name name) [ ok _ ↦ ok a | err e ↦ err e ]

abbrev pub version_of : Text → ℕ → Text
version_of name seq = root_slash ++ (name ++ (dot ∷ format_seq seq))

unfoldable pub version_path : Text → ℕ → Result Text
version_path name seq = checked name (version_of name seq)

abbrev pub cell_leaf : Text
cell_leaf = codes "cell"

abbrev pub cell_of : Text → Text
cell_of name = root_slash ++ (name ++ (dot ∷ cell_leaf))

unfoldable pub cell_path : Text → Result Text
cell_path name = checked name (cell_of name)

abbrev pub lift : {A : Type 0} → Result A → Exec A
lift r w = (r, w)

-- WriteCell
unfoldable pub write_cell : Text → Text → Bool → Exec (Unit {0})
write_cell name body exclusive = do path ← lift (cell_path name); put path body exclusive

-- `err != nil && !errors.Is(err, os.ErrNotExist)`
unfoldable pub remove_if_there : Text → Exec (Unit {0})
remove_if_there path w =
    let (r, w') = remove path w in
    elim r [
      | ok _ ↦ (ok tt, w')
      | err e ↦ (elim e [ not_exist ↦ (ok tt, w') | other ↦ (err other, w') ])
    ]

-- RemoveCell
unfoldable pub remove_cell : Text → Exec (Unit {0})
remove_cell name = do path ← lift (cell_path name); remove_if_there path

-- The callback of scanSeqs over the listing.
unfoldable pub seqs_of : Text → List Text → List ℕ
seqs_of pfx [] = []
seqs_of pfx (p ∷ rest) =
    let others = seqs_of pfx rest in
    if has_prefix p pfx
    then (elim (parse_seq (drop (length pfx) p)) [ none ↦ others | some n ↦ n ∷ others ])
    else others

abbrev pub seq_prefix : Text → Text
seq_prefix name = root_slash ++ (name ++ (dot ∷ []))

unfoldable pub scan_seqs : Text → Exec (List ℕ)
scan_seqs name = do listed ← list_objects; pure (seqs_of (seq_prefix name) listed)

-- The loop of ResolveActiveSeq: none until a version was found.
unfoldable pub max_seq : List ℕ → Option ℕ → Option ℕ
max_seq [] best = best
max_seq (n ∷ ns) none = max_seq ns (some n)
max_seq (n ∷ ns) (some m) = max_seq ns (some (if ltb m n then n else m))

unfoldable pub resolve_active_seq : Text → Exec (Option ℕ)
resolve_active_seq name = do
  lift (validate_name name)
  seqs ← scan_seqs name
  pure (max_seq seqs none)

abbrev pub next_seq : Option ℕ → ℕ
next_seq none = 1
next_seq (some active) = (active + 1) % 2 ^ 64

-- The switch on the error of the exclusive Put: none after a lost race.
unfoldable pub put_or_lost : Text → ℕ → Text → Exec (Option (ℕ × Text))
put_or_lost body next path w =
    let (r, w') = put path body true w in
    elim r [
      | ok _ ↦ (ok (some (next, path)), w')
      | err e ↦ (elim e [ already_exists ↦ (ok none, w') | other ↦ (err other, w') ])
    ]

-- One attempt of ClaimVersion. `live` is `ctx.Err() == nil`.
unfoldable pub claim_attempt : Bool → Text → Text → Exec (Option (ℕ × Text))
claim_attempt live name body = do
  if live then pure tt else fail ctx_cancelled
  active ← resolve_active_seq name
  path ← lift (version_path name (next_seq active))
  put_or_lost body (next_seq active) path

-- The loop of ClaimVersion over the attempts left; `live` answers for each.
unfoldable pub claim_loop : ℕ → (ℕ → Bool) → Text → Text → Exec (ℕ × Text)
claim_loop zero live name body = fail lost_seq_races
claim_loop (suc left) live name body = do
  claimed ← claim_attempt (live left) name body
  elim claimed [ none ↦ claim_loop left live name body | some won ↦ pure won ]

abbrev pub max_claim_attempts : ℕ
max_claim_attempts = 64

unfoldable pub claim_version : (ℕ → Bool) → Text → Text → Exec (ℕ × Text)
claim_version live name body = claim_loop max_claim_attempts live name body
