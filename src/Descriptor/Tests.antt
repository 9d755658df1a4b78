-- ===== src/Descriptor/Tests.antt =====
-- The descriptor at concrete inputs: two descriptors of one store, with a codec that writes the
-- sequence number as one byte and marks the content with a leading byte.
use scrinium.Base.{
  ℕ, Text, false, none, some, [], ◌∷◌, ◌≡◌, ◌↔◌, refl, arith, codes, text_eq, Option, ◌==◌,
  if◌then◌else◌, Bool-cases, ap, sym, ◌∙◌, inl, inr,
}
use scrinium.Driver.{quiet, World, Objects, obj_get, io_error}
use scrinium.Descriptor.{
  equal, Descriptor, Codec, Loaded, content, mismatch, unreadable, l0, l1, valid, corrupted,
  reconcile, failed, chosen, Action, heal_both_from_l0, heal_l0_from_l1, write_both,
  load_canonical_descriptor, done, unreadable_manifest, validate, unmarshalled,
}
use scrinium.Descriptor.Consensus.{IsNewest, equal_sound, equal_refl, reconcile_iff}
use scrinium.Descriptor.Cells.{cell, IsFaithful}
use scrinium.Descriptor.Register.{Represents, IsRegisterWrite, write_both-IsRegisterWrite}
use scrinium.Descriptor.Healing.{
  IsWritable, BothHold, load_canonical_heals, load_canonical_unreadable,
}

abbrev version : ℕ → Descriptor
version n = record {
  store_id = codes "s1";
  schema_version = 1;
  sequence = n;
  dek = [];
  dek_encrypted = false;
  kdf_params = none;
}

abbrev parse_byte : Text → Option Descriptor
parse_byte (n ∷ []) = some (version n)
parse_byte _ = none

abbrev load_marked : Text → Loaded
load_marked [] = unreadable
load_marked (c ∷ json) = if c == 1 then content json else if c == 2 then mismatch else unreadable

abbrev marshal_byte : Descriptor → Option Text
marshal_byte d = if equal d (version d.sequence) then some (d.sequence ∷ []) else none

abbrev byte_codec : Codec
byte_codec = record {
  marshal = marshal_byte;
  parse = parse_byte;
  build = λ now name json. some (1 ∷ json);
  load = load_marked;
}

byte_codec-IsFaithful : IsFaithful byte_codec
byte_codec-IsFaithful now name json body d m b = elim (Bool-cases (equal d (version d.sequence))) [
  | inr e ↦ ground (arith, m, e)
  | inl e ↦
      let same : d ≡ version d.sequence = equal_sound d (version d.sequence) e in
      let one : d.sequence ∷ [] ≡ json = ground (arith, m, e) in
      let two : 1 ∷ json ≡ body = ground (arith, b) in
      (ap load_marked (sym two), ap parse_byte (sym one) ∙ ap some (sym same))
]

byte_codec-IsWritable : IsWritable byte_codec (version 7)
byte_codec-IsWritable = record {
  marshalled = (7 ∷ [], rw (equal_refl (version 7)) refl);
  built = λ now name json. (1 ∷ json, refl);
}

reconcile_iff_example :
    ((act : Action) × (reconcile (valid (version 3)) (valid (version 7)) ≡ chosen (version 7) act))
    ↔ IsNewest (version 7) (valid (version 3)) (valid (version 7))
reconcile_iff_example = reconcile_iff (version 7) (valid (version 3)) (valid (version 7))

-- The first cell is damaged, the second one has version 3.
abbrev damaged : Objects
damaged = (cell l0, 2 ∷ []) ∷ (cell l1, 1 ∷ 3 ∷ []) ∷ []

damaged-Represents : Represents byte_codec damaged (version 3)
unfolding obj_get text_eq unmarshalled validate reconcile equal
damaged-Represents = record {
  status0 = corrupted;
  status1 = valid (version 3);
  first = refl;
  second = refl;
  settled = (heal_l0_from_l1, refl);
}

-- The second Put of WriteBoth fails.
abbrev failing : World
failing = record {
  objects = damaged;
  now = 5;
  turns =
      record { elapsed = 1; others = λ o. o; fault = none }
      ∷ record { elapsed = 1; others = λ o. o; fault = some (io_error 5) }
      ∷ [];
}

write_both-IsRegisterWrite_example :
    IsRegisterWrite byte_codec (version 3) (version 7) (write_both byte_codec (version 7) failing)
write_both-IsRegisterWrite_example =
    write_both-IsRegisterWrite byte_codec (version 3) (version 7) failing byte_codec-IsFaithful
      (λ o. refl, (λ o. refl, tt)) (omega arith) damaged-Represents

-- WriteBoth was cut off after the first cell.
abbrev half_written : Objects
half_written = (cell l0, 1 ∷ 7 ∷ []) ∷ (cell l1, 1 ∷ 3 ∷ []) ∷ []

half_written-Represents : Represents byte_codec half_written (version 7)
unfolding obj_get text_eq unmarshalled validate reconcile equal
half_written-Represents = record {
  status0 = valid (version 7);
  status1 = valid (version 3);
  first = refl;
  second = refl;
  settled = (heal_both_from_l0, refl);
}

load_canonical_heals_example :
    (o' : Objects) × (load_canonical_descriptor byte_codec (quiet half_written 9)
      ≡ (done (version 7), quiet o' 9))
    × BothHold byte_codec o' (version 7)
load_canonical_heals_example =
    load_canonical_heals byte_codec half_written 9 (version 7) byte_codec-IsFaithful
      byte_codec-IsWritable half_written-Represents

load_canonical_unreadable_example :
    load_canonical_descriptor byte_codec (quiet ((cell l0, 9 ∷ []) ∷ (cell l1, 1 ∷ 3 ∷ []) ∷ []) 9)
    ≡ (failed unreadable_manifest, quiet ((cell l0, 9 ∷ []) ∷ (cell l1, 1 ∷ 3 ∷ []) ∷ []) 9)
unfolding obj_get text_eq
load_canonical_unreadable_example =
    load_canonical_unreadable byte_codec ((cell l0, 9 ∷ []) ∷ (cell l1, 1 ∷ 3 ∷ []) ∷ []) 9 (9 ∷ [])
      refl refl
