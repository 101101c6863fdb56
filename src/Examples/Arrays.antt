-- ===== src/Examples/Arrays.antt =====
-- An array of two disks, whose controllers count the requests.
use test_flash_sim.Base.{
  ℕ, ◌+◌, ◌≡◌, refl, Option, some, List, [], ◌∷◌, Run, ok, Status, success, get_elem?,
}
use test_flash_sim.Event.{Event}
use test_flash_sim.Event
use test_flash_sim.Raid.{Arrival, event_arrive, raid_event_arrive, num_pages}
use test_flash_sim.Raid.Served.{IsServed, Returns, raid_event_arrive_stripes}
use test_flash_sim.Examples.{config}

abbrev array : Arrival
array = record {
  geometry = config.geometry;
  virtual_page_size = 1;
  page_size = 2;
  raid_number_of_physical_ssds = 2;
  parallelism_mode = 1;
}

abbrev count : Event → ℕ → Run (Status × Event × ℕ)
count e s = ok (success, e, s + 1)

abbrev buffer : Option (List ℕ)
buffer = some (70 ∷ 71 ∷ 72 ∷ 73 ∷ [])

count-Returns : Returns array count Event.write 5 1 0 buffer
unfolding event_arrive num_pages Event.new Event.set_payload
count-Returns b s = (0, s + 1, refl)

raid_event_arrive_stripes_example :
    (time t : ℕ) × (left : List ℕ) × (s' first' : ℕ) × (raid_event_arrive array count Event.write 5
        1 0 buffer
        (7 ∷ 9 ∷ [])
      ≡ ok (time, left))
    × IsServed array count Event.write 5 1 0 buffer 0 7 time first'
    × IsServed array count Event.write 5 1 0 buffer 1 9 t s'
    × (get_elem? left 1 ≡ some s')
raid_event_arrive_stripes_example =
    raid_event_arrive_stripes array count Event.write 5 1 0 buffer (7 ∷ 9 ∷ []) 1 9 7 count-Returns
      refl refl refl refl
