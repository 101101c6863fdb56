-- ===== src/Examples/Zones.antt =====
-- Zones that are written and reset.
use test_flash_sim.Base.{ℕ, ◌+◌, ◌≡◌, refl, true, false, some, [], ◌∷◌, ok, arith, success}
use test_flash_sim.Event.{Event}
use test_flash_sim.Event
use test_flash_sim.Zns.{ZnsZone, Controller, blank, validate_and_advance_zns}
use test_flash_sim.Zns
use test_flash_sim.Zns.Limits.{ZoneIsValid, TableIsValid, validate-IsValid}
use test_flash_sim.Zns.Fill.{page_write, write_pages, with_filled, write_pages_accepted}
use test_flash_sim.Zns.Gate.{Sqe, direct_zns_gate}
use test_flash_sim.Zns.Reset.{gate_reset}
use test_flash_sim.Address.Linear.{IsPositive}
use test_flash_sim.Examples.{geometry}

-- A zone with one of two pages written, and an empty one.
abbrev half : ZnsZone
half = record { wptr = 1; is_full = false; erase_count = 0 }

abbrev full : ZnsZone
full = record { wptr = 2; is_full = true; erase_count = 0 }

abbrev two_zones : Controller
two_zones = record { zns_zones = some (half ∷ blank ∷ []); total_zns_zones = 2 }

half-ZoneIsValid : ZoneIsValid 2 half
half-ZoneIsValid = record { within = omega arith; marked = refl }

blank-ZoneIsValid : ZoneIsValid 2 blank
blank-ZoneIsValid = record { within = omega arith; marked = refl }

-- The second page fills the zone.
validated :
    validate_and_advance_zns 5 2 two_zones (page_write 1)
    ≡ ok (record two_zones { zns_zones = some (full ∷ blank ∷ []) }, true)
unfolding validate_and_advance_zns Zns.hard_block_size Zns.admits Zns.open_zones_count_check
    Zns.is_open Zns.advanced Event.new
validated = refl

validate-IsValid_example : TableIsValid 2 (some (full ∷ blank ∷ []))
unfolding Zns.hard_block_size Zns.is_open
validate-IsValid_example =
    validate-IsValid 5 2 two_zones (page_write 1)
      (record two_zones { zns_zones = some (full ∷ blank ∷ []) }, true) (omega arith)
      (record { each = (half-ZoneIsValid, (blank-ZoneIsValid, tt)); limited = omega arith })
      validated

write_pages_accepted_example :
    write_pages 2 1 2 two_zones ≡ ok (with_filled 2 two_zones (half ∷ blank ∷ []) 1 2 blank, true)
unfolding Zns.hard_block_size Zns.is_open
write_pages_accepted_example =
    write_pages_accepted 2 1 2 two_zones (half ∷ blank ∷ []) blank (omega arith) refl (omega arith)
      refl refl refl (omega arith) (omega arith)

-- Hardware that accepts every request and counts them.
abbrev accept : Sqe → ℕ → ℕ × ℕ
accept s n = (0, n + 1)

gate_reset_example :
    direct_zns_gate accept 64 2 two_zones 0
    ≡ ok (
      success,
      record two_zones {
        zns_zones = some (half ∷ record { wptr = 65536; is_full = false; erase_count = 0 } ∷ []);
      },
      1,
    )
gate_reset_example =
    gate_reset accept 64 two_zones 0 (half ∷ blank ∷ []) blank refl refl (omega arith) (omega arith)
      refl (omega arith)

geometry-IsPositive : IsPositive geometry
geometry-IsPositive = record {
  ssd = omega arith;
  package_pos = omega arith;
  die = omega arith;
  plane = omega arith;
  block = omega arith;
}
