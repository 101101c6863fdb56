-- ===== src/Zns/Fill.antt =====
-- Writing the pages of a zone in order.
use test_flash_sim.Base.{
  ℕ, zero, suc, ◌+◌, ◌*◌, ◌%◌, ◌≤◌, ◌<◌, ◌≡◌, refl, ◌∙◌, Bool, true, false, ◌&&◌, List, some, Run,
  ok, ◌>>=◌, arith, u32_mod, get_elem?, set, leb, get_elem?-set_self, lt-length_of_get_elem?, count,
  count-set, set-set, set_self,
}
use test_flash_sim.Address.Linear.{quotient, remainder}
use test_flash_sim.Event.{Event}
use test_flash_sim.Event
use test_flash_sim.Zns.{
  ZnsZone, Controller, hard_block_size, is_open, admits, advanced, validate_and_advance_zns,
}
use test_flash_sim.Zns.Limits.{validate_write, admits_iff, hard_block_size_pos}

-- The request to write the page of that number.
abbrev pub page_write : ℕ → Event
page_write lba = Event.new Event.write lba 1 0

-- Requests to write the first `n` pages of a zone, in order: whether all of them are accepted.
pub write_pages : ℕ → ℕ → ℕ → Controller → Run (Controller × Bool)
write_pages block_size zone zero ctl = ok (ctl, true)
write_pages block_size zone (suc n) ctl = do
  (ctl', before) ← write_pages block_size zone n ctl
  (ctl'', last) ←
      validate_and_advance_zns 5 block_size ctl'
        (page_write (zone * hard_block_size block_size + n))
  ok (ctl'', before && last)

-- A zone with its first `n` pages written.
abbrev pub filled : ℕ → ℕ → ZnsZone → ZnsZone
filled hard n z = record z { wptr = n; is_full = leb hard n }

filled_zero :
    (hard : ℕ) (z : ZnsZone) → 0 < hard → z.wptr ≡ 0 → z.is_full ≡ false → filled hard 0 z ≡ z
filled_zero hard z pos empty part = ground arith

advanced-filled :
    (hard n : ℕ) (z : ZnsZone)
    → n < hard
    → hard < u32_mod
    → advanced hard (filled hard n z) ≡ filled hard (suc n) z
unfolding advanced
advanced-filled hard n z h small = ground arith

admits-filled :
    (hard i n lba : ℕ) (zones : List ZnsZone) (z : ZnsZone)
    → lba % hard ≡ n
    → n < hard
    → hard < u32_mod
    → get_elem? zones i ≡ some z
    → z.wptr ≡ 0
    → count is_open zones < 4
    → admits hard (set zones i (filled hard n z)) (filled hard n z) lba ≡ true
unfolding is_open
admits-filled hard i n lba zones z target h small found empty room =
    let change = count-set is_open zones i z (filled hard n z) found in
    (admits_iff hard (set zones i (filled hard n z)) (filled hard n z) lba).1
      (ground arith, omega arith, ground (arith, change))

-- The controller with the first `n` pages of a zone written.
abbrev pub with_filled : ℕ → Controller → List ZnsZone → ℕ → ℕ → ZnsZone → Controller
with_filled hard ctl zones i n z = record ctl { zns_zones = some (set zones i (filled hard n z)) }

-- The write of the next page.
next_write :
    (block_size i n : ℕ) (ctl : Controller) (zones : List ZnsZone) (z : ZnsZone)
    → block_size < u32_mod
    → i < ctl.total_zns_zones
    → get_elem? zones i ≡ some z
    → z.wptr ≡ 0
    → count is_open zones < 4
    → n < hard_block_size block_size
    → validate_and_advance_zns 5 block_size
        (with_filled (hard_block_size block_size) ctl zones i n z)
        (page_write (i * hard_block_size block_size + n))
      ≡ ok (with_filled (hard_block_size block_size) ctl zones i (suc n) z, true)
unfolding Event.new
next_write block_size i n ctl zones z small inside found empty room h =
    let hard = hard_block_size block_size in
    let (pos, word) = hard_block_size_pos block_size small in
    let lba = i * hard + n in
    let zone = quotient i hard n pos h in
    let before = filled hard n z in
    let zones' = set zones i before in
    let there = get_elem?-set_self zones i before (lt-length_of_get_elem? zones i z found) in
    let ctl' = with_filled hard ctl zones i n z in
    validate_write block_size ctl' (page_write lba) zones' before refl refl (rw zone inside)
      (rw zone there)
    ∙ rw (
      admits-filled hard i n lba zones z (remainder i hard n h) h word found empty room,
      zone,
      advanced-filled hard n z h word,
      set-set zones i before (filled hard (suc n) z),
    )

-- Take an empty zone of the table that is not marked full, while fewer than four zones are open
-- and the block size fits 32 bits. The writes of its pages in order are all accepted, up to the
-- last page, and leave exactly that many pages written.
pub write_pages_accepted :
    (block_size i n : ℕ) (ctl : Controller) (zones : List ZnsZone) (z : ZnsZone)
    → block_size < u32_mod
    → ctl.zns_zones ≡ some zones
    → i < ctl.total_zns_zones
    → get_elem? zones i ≡ some z
    → z.wptr ≡ 0
    → z.is_full ≡ false
    → count is_open zones < 4
    → n ≤ hard_block_size block_size
    → write_pages block_size i n ctl
      ≡ ok (with_filled (hard_block_size block_size) ctl zones i n z, true)
unfolding write_pages
write_pages_accepted block_size i zero ctl zones z small table inside found empty part room h =
    let pos = (hard_block_size_pos block_size small).0 in
    rw
      (filled_zero (hard_block_size block_size) z pos empty part, set_self zones i z found, ← table)
write_pages_accepted block_size i (suc n) ctl zones z small table inside found empty part room h =
    rw (
      write_pages_accepted block_size i n ctl zones z small table inside found empty part room
          (omega arith),
      next_write block_size i n ctl zones z small inside found empty room h,
    )
