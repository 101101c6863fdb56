-- ===== src/Zns/Limits.antt =====
-- The zone table under validate_and_advance_zns.
use mathlib.Core.Path.{subst}
use test_flash_sim.Base.{
  ℕ, zero, suc, ◌/◌, ◌%◌, ◌≤◌, ◌<◌, ◌≡◌, ◌↔◌, ◌⊎◌, inl, inr, Bool, true, false, ◌&&◌, List, some,
  none, Option, ok, arith, Bool-cases, Option-cases, if◌then◌else◌, ltb, leb, ◌==◌, All, All-set,
  All-get_elem?, count, count-set, count-replicate, set, get_elem?, replicate, u32_mod,
}
use test_flash_sim.Event.{Event}
use test_flash_sim.Event
use test_flash_sim.Zns.{
  ZnsZone, Controller, new, blank, hard_block_size, is_open, is_write, advanced, admits,
  validate_and_advance_zns,
}

-- A zone holds at most its size, and is marked full exactly when it is.
pub record ZoneIsValid (hard : ℕ) (z : ZnsZone) : Type 0 where
  pub within : z.wptr ≤ hard
  pub marked : z.is_full ≡ leb hard z.wptr

-- At most four zones are open.
pub record IsValid (hard : ℕ) (zones : List ZnsZone) : Type 0 where
  pub each : All (ZoneIsValid hard) zones
  pub limited : count is_open zones ≤ 4

-- What the checks of a write say.
pub admits_iff :
    (hard : ℕ) (zones : List ZnsZone) (z : ZnsZone) (lba : ℕ)
    → (admits hard zones z lba ≡ true)
      ↔ (z.is_full ≡ false)
        × (lba % hard % u32_mod ≡ z.wptr)
        × ((0 < z.wptr) ⊎ (count is_open zones < 4))
unfolding admits
admits_iff hard zones z lba = (λ h. ground arith, λ h. ground arith)

-- Writing a page of an admitted zone.
advance-IsValid :
    (hard i lba : ℕ) (zones : List ZnsZone) (z : ZnsZone)
    → 0 < hard
    → hard < u32_mod
    → IsValid hard zones
    → get_elem? zones i ≡ some z
    → admits hard zones z lba ≡ true
    → IsValid hard (set zones i (advanced hard z))
unfolding advanced is_open
advance-IsValid hard i lba zones z pos small v found h =
    let zv = All-get_elem? (ZoneIsValid hard) zones i z v.each found in
    let (part, _, room) = (admits_iff hard zones z lba).0 h in
    let change = count-set is_open zones i z (advanced hard z) found in
    record {
      each = All-set (ZoneIsValid hard) zones i (advanced hard z) v.each (record {
        within = ground (arith, zv.within, zv.marked, part);
        marked = ground (arith, zv.within, zv.marked, part);
      });
      limited = ground (arith, change, v.limited, room, zv.within, zv.marked, part);
    }

abbrev pub TableIsValid : ℕ → Option (List ZnsZone) → Type 0
TableIsValid hard none = Unit {0}
TableIsValid hard (some zones) = IsValid hard zones

new_counts : (n : ℕ) → count is_open (replicate n blank) ≡ 0
unfolding is_open
new_counts n = ground (arith, count-replicate is_open n blank)

new_each : (hard n : ℕ) → 0 < hard → All (ZoneIsValid hard) (replicate n blank)
new_each hard zero pos = tt
new_each hard (suc n) pos =
    (record { within = omega arith; marked = ground arith }, new_each hard n pos)

-- The table of a new controller is valid for zones of any positive size.
pub new-IsValid : (hard total : ℕ) → 0 < hard → TableIsValid hard (new total).zns_zones
unfolding new
new-IsValid hard total pos =
    let zones : ℕ = if total == 0 then 1024 else total in
    record { each = new_each hard zones pos; limited = omega (arith, new_counts zones) }

pub hard_block_size_pos :
    (block_size : ℕ)
    → block_size < u32_mod
    → (0 < hard_block_size block_size) × (hard_block_size block_size < u32_mod)
unfolding hard_block_size
hard_block_size_pos block_size small = ground arith

-- How a call of the validation of a write ends, for a zone of the table.
pub validate_write :
    (block_size : ℕ) (ctl : Controller) (e : Event) (zones : List ZnsZone) (z : ZnsZone)
    → e.type ≡ Event.write
    → ctl.zns_zones ≡ some zones
    → e.logical_address / hard_block_size block_size < ctl.total_zns_zones
    → get_elem? zones (e.logical_address / hard_block_size block_size) ≡ some z
    → validate_and_advance_zns 5 block_size ctl e ≡ (
        if admits (hard_block_size block_size) zones z e.logical_address
        then ok (
          record ctl {
            zns_zones = some (
                set zones
                  (e.logical_address / hard_block_size block_size)
                  (advanced (hard_block_size block_size) z));
          },
          true,
        )
        else ok (ctl, false))
unfolding validate_and_advance_zns
validate_write block_size ctl e zones z write table inside found = ground arith

-- The table either stays as it is, or a zone that admits the write is advanced.
validate_cases :
    (ftl_implementation block_size : ℕ) (ctl : Controller) (e : Event) (r : Controller × Bool)
    → validate_and_advance_zns ftl_implementation block_size ctl e ≡ ok r
    → let hard = hard_block_size block_size in
      let i = e.logical_address / hard in
      (r.0.zns_zones ≡ ctl.zns_zones)
      ⊎ ((zones : List ZnsZone) × (z : ZnsZone) × (ctl.zns_zones ≡ some zones)
          × (get_elem? zones i ≡ some z)
          × (admits hard zones z e.logical_address ≡ true)
          × (r.0.zns_zones ≡ some (set zones i (advanced hard z))))
unfolding validate_and_advance_zns
validate_cases ftl_implementation block_size ctl e r h = elim (Option-cases ctl.zns_zones) [
  | inl missing ↦ inl (ground arith)
  | inr (zones, table) ↦
      let hard = hard_block_size block_size in
      let i = e.logical_address / hard in
      elim (Option-cases (get_elem? zones i)) [
        | inl outside ↦ inl (ground arith)
        | inr (z, found) ↦ elim (Bool-cases (admits hard zones z e.logical_address)) [
          | inr refused ↦ inl (ground arith)
          | inl admitted ↦
              elim (Bool-cases
                (is_write e.type && (ftl_implementation == 5) && ltb i ctl.total_zns_zones)) [
                  | inl writes ↦ inr (zones, z, table, found, admitted, ground arith)
                  | inr other ↦ inl (ground arith)
                ]
        ]
      ]
]

-- For a block size that fits 32 bits, the validation of a request that returns keeps the zones
-- within their size, marked full exactly when they are, and at most four of them open.
pub validate-IsValid :
    (ftl_implementation block_size : ℕ) (ctl : Controller) (e : Event) (r : Controller × Bool)
    → block_size < u32_mod
    → TableIsValid (hard_block_size block_size) ctl.zns_zones
    → validate_and_advance_zns ftl_implementation block_size ctl e ≡ ok r
    → TableIsValid (hard_block_size block_size) r.0.zns_zones
validate-IsValid ftl_implementation block_size ctl e r small v h =
    let hard = hard_block_size block_size in
    let (pos, word) = hard_block_size_pos block_size small in
    elim (validate_cases ftl_implementation block_size ctl e r h) [
      | inl same ↦ rw same v
      | inr (zones, z, table, found, admitted, done) ↦ rw done (
          advance-IsValid hard (e.logical_address / hard) e.logical_address zones z pos word
            (subst (TableIsValid hard) table v) found admitted)
    ]
