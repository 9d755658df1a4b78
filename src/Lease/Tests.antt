-- ===== src/Lease/Tests.antt =====
-- A codec in length-prefixed fields, and the lease's theorems at concrete slots.
use scrinium.Base.{
  to_second, ℕ, ◌*◌, ◌^◌, Text, Bool, true, false, Option, none, some, [], ◌∷◌, ◌++◌, ◌≡◌, ◌≢◌, ◌⊎◌,
  refl, arith, codes, length, take, drop, take-append, drop-append, text_eq, has_prefix,
}
use scrinium.Driver.{quiet, Objects, obj_get, obj_put, World, put, get, turn}
use scrinium.Named.{
  validate_name, split_slash, has_double_slash, ends_with_slash, any_traversal, cell_of, cell_path,
  write_cell,
}
use scrinium.Lease.{
  LeaseRecord, Lease, Config, Codec, ok, err, lease_held_by, lease_lost, record_at, on_disk,
  acquire, acquire_slot, read, create, write, contend, renew, lease_of,
}
use scrinium.Lease.Acquire.{IsUsable, IsFaithful, MayTake, forced, run_out, acquire_populated}
use scrinium.Lease.Holder.{IsOurs, renew_table}
use scrinium.Lease.Races.{both_take_over}
use scrinium.Lease.Taking.{Takes, acquire_owns}

abbrev fields_of : ℕ → ℕ → ℕ → ℕ → ℕ → Text → LeaseRecord
fields_of acquired expires h a n s = record {
  host_id = take h s;
  acquired_at = acquired;
  expires_at = expires;
  agent_type = take a (drop h s);
  nonce = take n (drop a (drop h s));
  store_id = drop n (drop a (drop h s));
}

decode_fields : Text → Option LeaseRecord
decode_fields (acquired ∷ expires ∷ h ∷ a ∷ n ∷ s) = some (fields_of acquired expires h a n s)
decode_fields _ = none

abbrev body_of : LeaseRecord → Text
body_of r = r.host_id ++ (r.agent_type ++ (r.nonce ++ r.store_id))

abbrev plain_body : LeaseRecord → Text
plain_body r =
    to_second r.acquired_at
    ∷ to_second r.expires_at
    ∷ length r.host_id
    ∷ length r.agent_type
    ∷ length r.nonce
    ∷ body_of r

abbrev plain_codec : Codec
plain_codec = record { encode = λ name r. some (plain_body r); decode = decode_fields }

fields_of-body :
    (r : LeaseRecord)
    → fields_of
        (to_second r.acquired_at)
        (to_second r.expires_at)
        (length r.host_id)
        (length r.agent_type)
        (length r.nonce)
        (body_of r)
      ≡ on_disk r
fields_of-body r = rw (
  take-append (length r.host_id) r.host_id (r.agent_type ++ (r.nonce ++ r.store_id)) refl,
  drop-append (length r.host_id) r.host_id (r.agent_type ++ (r.nonce ++ r.store_id)) refl,
  take-append (length r.agent_type) r.agent_type (r.nonce ++ r.store_id) refl,
  drop-append (length r.agent_type) r.agent_type (r.nonce ++ r.store_id) refl,
  take-append (length r.nonce) r.nonce r.store_id refl,
  drop-append (length r.nonce) r.nonce r.store_id refl,
)

plain_codec-IsFaithful : IsFaithful plain_codec
unfolding decode_fields
plain_codec-IsFaithful name r bytes e = ground (arith, e, fields_of-body r)

abbrev config : Text → Bool → Config
config host force = record {
  name = codes "host/lease";
  host_id = host;
  agent_type = codes "gc";
  ttl = 60 * 10 ^ 9;
  store_id = codes "S";
  force = force;
}

abbrev box_a : Text
box_a = codes "a"

abbrev box_b : Text
box_b = codes "b"

-- Ten minutes after the epoch.
abbrev clock : ℕ
clock = 600 * 10 ^ 9

abbrev lease_a : Lease
lease_a = lease_of (config box_a false) (codes "n1")

abbrev lease_b : Lease
lease_b = lease_of (config box_b true) (codes "n2")

abbrev bytes_a : Text
bytes_a = plain_body (record_at lease_a clock)

abbrev bytes_b : Text
bytes_b = plain_body (record_at lease_b clock)

abbrev held : Objects
held = (cell_of (codes "host/lease"), bytes_a) ∷ []

usable : (host : Text) (force : Bool) → host ≢ [] → IsUsable (config host force)
unfolding validate_name split_slash has_double_slash ends_with_slash any_traversal has_prefix
    text_eq
usable host force h = record {
  valid = refl;
  named = λ e. ground (arith, e);
  hosted = h;
  lasting = ground arith;
}

hosted_a : box_a ≢ []
hosted_a e = ground (arith, e)

hosted_b : box_b ≢ []
hosted_b e = ground (arith, e)

acquire_populated_example :
    (MayTake (config box_b true) (on_disk (record_at lease_a clock)) clock
      × (acquire plain_codec (some (codes "n2")) (config box_b true) (quiet held clock) ≡ (
        ok (lease_b, some (on_disk (record_at lease_a clock))),
        quiet (obj_put (cell_of (codes "host/lease")) bytes_b held) clock,
      )))
    ⊎ (¬ MayTake (config box_b true) (on_disk (record_at lease_a clock)) clock
        × (acquire plain_codec (some (codes "n2")) (config box_b true) (quiet held clock)
            ≡ (err (lease_held_by box_a (codes "gc") (660 * 10 ^ 9)), quiet held clock)))
unfolding validate_name split_slash has_double_slash ends_with_slash any_traversal has_prefix
    obj_get decode_fields text_eq
acquire_populated_example =
    acquire_populated plain_codec (config box_b true) (codes "n2") held clock bytes_a bytes_b
      (on_disk (record_at lease_a clock)) plain_codec-IsFaithful (usable box_b true hosted_b) refl
      refl refl

renew_table_example :
    (IsOurs lease_a (on_disk (record_at lease_a clock))
      × (renew plain_codec lease_a (quiet held clock)
          ≡ (ok tt, quiet (obj_put (cell_of (codes "host/lease")) bytes_a held) clock)))
    ⊎ (¬ IsOurs lease_a (on_disk (record_at lease_a clock))
        × (renew plain_codec lease_a (quiet held clock) ≡ (err lease_lost, quiet held clock)))
unfolding validate_name split_slash has_double_slash ends_with_slash any_traversal has_prefix
    obj_get decode_fields text_eq
renew_table_example =
    renew_table plain_codec lease_a held clock bytes_a bytes_a (on_disk (record_at lease_a clock))
      refl refl refl refl

-- Another process writes its record between the calls of the acquisition.
abbrev busy : World
busy = record {
  objects = [];
  now = clock;
  turns =
      record { elapsed = 5; others = λ o. obj_put (codes "other") [] o; fault = none }
      ∷ record { elapsed = 7; others = λ o. o; fault = none }
      ∷ [];
}

abbrev after_busy : World
after_busy = (acquire plain_codec (some (codes "n1")) (config box_a false) busy).1

acquire_owns_example :
    Takes plain_codec (config box_a false) lease_a busy (lease_a, none) after_busy
unfolding validate_name split_slash has_double_slash ends_with_slash any_traversal has_prefix
    obj_get decode_fields text_eq acquire acquire_slot read create write write_cell cell_path put
    get turn obj_put
acquire_owns_example =
    acquire_owns plain_codec (config box_a false) (codes "n1") (lease_a, none) busy after_busy
      plain_codec-IsFaithful refl

both_take_over_example :
    (w : World) × (contend plain_codec
        (config box_a true)
        lease_a
        (on_disk (record_at lease_b 0))
        (quiet held clock)
      ≡ (ok (lease_a, some (on_disk (record_at lease_b 0))), w))
    × (w' : World) × (contend plain_codec
          (config box_b true)
          lease_b
          (on_disk (record_at lease_b 0))
          w
        ≡ (ok (lease_b, none), w'))
    × (renew plain_codec lease_a w' ≡ (err lease_lost, w'))
unfolding validate_name split_slash has_double_slash ends_with_slash any_traversal has_prefix
    obj_get decode_fields text_eq
both_take_over_example =
    both_take_over plain_codec (config box_a true) (config box_b true) (codes "n1") (codes "n2")
      held clock (on_disk (record_at lease_b 0)) bytes_a bytes_b plain_codec-IsFaithful refl refl
      (λ e. ground (arith, e)) (forced refl) (run_out (omega arith)) refl refl
