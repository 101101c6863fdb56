-- ===== src/Examples/Transmissions.antt =====
-- Transmissions on a bus channel.
use test_flash_sim.Base.{
  ℕ, ◌≢◌, get_elem?, ◌+◌, ◌-◌, ◌≤◌, ◌<◌, ◌≡◌, refl, inl, [], ◌∷◌, some, ok, arith,
}
use test_flash_sim.Event.{Event}
use test_flash_sim.Event
use test_flash_sim.Channel.{Channel, lock}
use test_flash_sim.Channel
use test_flash_sim.Channel.Gap.{window}
use test_flash_sim.Channel.Lock.{IsExclusive, FitsIn, lock-IsExclusive, lock_earliest}
use test_flash_sim.Bus.{Bus}
use test_flash_sim.Bus
use test_flash_sim.Bus.Exclusive.{IsServing, BusIsServing, bus_lock}
use test_flash_sim.Examples.{address_37, at}

-- Two transmissions, with room for one of 10 ticks between them.
abbrev two_busy : Channel
two_busy = record {
  timings =
      record { lock_time = 0; unlock_time = 10 } ∷ record { lock_time = 20; unlock_time = 30 } ∷ [];
  num_connected = 2;
  max_connections = 4;
  ctrl_delay = 1;
  data_delay = 1;
  ready_at = some 30;
}

abbrev after_lock : Channel
after_lock = record two_busy {
  timings =
      record { lock_time = 0; unlock_time = 10 }
      ∷ record { lock_time = 20; unlock_time = 30 }
      ∷ record { lock_time = 10; unlock_time = 18 }
      ∷ [];
}

abbrev request : Event
request = at Event.read address_37

abbrev served : Event
served = record request { bus_wait_time = 5; time_taken = 13 }

two_busy-IsExclusive : IsExclusive two_busy
two_busy-IsExclusive = record {
  disjoint = ((inl (omega arith), tt), (tt, tt));
  busy = (omega arith, (omega arith, tt));
  ready = (omega arith, (omega arith, tt));
}

-- The lock takes the gap.
lock_gap : lock 5 8 two_busy request ≡ ok (after_lock, served)
unfolding lock Channel.unlock Channel.drop_expired Channel.sort Channel.insert
    Channel.timings_sorter Channel.schedule Channel.find_gap Channel.back Channel.latest
    Event.incr_time_taken Event.incr_bus_wait_time
lock_gap = refl

lock-IsExclusive_example : IsExclusive after_lock
lock-IsExclusive_example =
    lock-IsExclusive 5 8 two_busy request (after_lock, served) (omega arith) two_busy-IsExclusive
      lock_gap

lock_earliest_example :
    (r : Channel × Event) × (t : ℕ) × (lock 5 8 two_busy request ≡ ok r)
    × (5 ≤ t)
    × FitsIn 5 two_busy (window t 8)
    × ((s : ℕ) → 5 ≤ s → s < t → ¬ FitsIn 5 two_busy (window s 8))
    × (r.1.bus_wait_time ≡ 0 + (t - 5))
    × (r.1.time_taken ≡ 0 + (t - 5 + 8))
lock_earliest_example =
    lock_earliest 5 8 two_busy request (omega arith) (omega arith) two_busy-IsExclusive

-- A bus whose second channel is `two_busy`.
abbrev bus : Bus
bus = record { num_channels = 2; channels = two_busy ∷ two_busy ∷ [] }

two_busy-IsServing : IsServing two_busy
two_busy-IsServing = record { exclusive = two_busy-IsExclusive; room = omega arith }

bus_lock_example :
    (r : Bus × Event) × (ch' : Channel) × (Bus.lock bus 1 5 8 request ≡ ok r)
    × (lock 5 8 two_busy request ≡ ok (ch', r.1))
    × (get_elem? r.0.channels 1 ≡ some ch')
    × ((j : ℕ) → j ≢ 1 → get_elem? r.0.channels j ≡ get_elem? bus.channels j)
    × BusIsServing r.0
bus_lock_example =
    bus_lock bus 1 5 8 request two_busy (two_busy-IsServing, (two_busy-IsServing, tt)) (omega arith)
      refl
