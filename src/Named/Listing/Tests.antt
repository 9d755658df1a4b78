-- ===== src/Named/Listing/Tests.antt =====
-- The entries of the listings at concrete paths, and one listing.
use scrinium.Base.{[], ◌∷◌, ◌≡◌, refl, codes, has_prefix, text_eq}
use scrinium.Driver.{quiet, ok, list_objects, turn}
use scrinium.Cut.{cut_last}
use scrinium.Named.{parse_seq, parse_digits}
use scrinium.Named.Listing.{
  split_leaf, rel_of, active_entry, insert_name, sort_names, keep_best, best_of, list_active,
}
use scrinium.Base.Order.{text_ltb}

list_active_run :
    list_active [] (
      quiet
        ((codes "named/b.0000000002", [])
          ∷ (codes "named/a.0000000001", [])
          ∷ (codes "named/b.0000000003", [])
          ∷ (codes "named/c.cell", [])
          ∷ [])
        0)
    ≡ (
      ok (
          record { name = codes "a"; seq = 1; path = codes "named/a.0000000001" }
          ∷ record { name = codes "b"; seq = 3; path = codes "named/b.0000000003" }
          ∷ []),
      quiet
          ((codes "named/b.0000000002", [])
            ∷ (codes "named/a.0000000001", [])
            ∷ (codes "named/b.0000000003", [])
            ∷ (codes "named/c.cell", [])
            ∷ [])
          0,
    )
unfolding list_active list_objects turn best_of keep_best sort_names insert_name text_ltb
    active_entry rel_of split_leaf cut_last parse_seq parse_digits has_prefix text_eq
list_active_run = refl
