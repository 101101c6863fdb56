-- ===== src/Channel.antt =====
-- OriginalFlashSim/ssd_channel.cpp: one bus channel, as a table of the transmissions that are not
-- over. The flag BUS_CHANNEL_FREE_FLAG and the -1 of `ready_at` are `none`.
pub mod Sort
pub mod Gap
pub mod Overlap
pub mod Lock
use test_flash_sim.Base.{
  ℕ, suc, ◌+◌, ◌-◌, Bool, true, false, not, ◌&&◌, Option, none, some, List, [], ◌∷◌, ◌++◌, Run, ok,
  guard, ◌>>◌, Status, failure, success, if◌then◌else◌, ltb, leb,
}
use test_flash_sim.Config.{Config}
use test_flash_sim.Event.{Event, incr_bus_wait_time, incr_time_taken}

pub record LockTimes : Type 0 where
  pub lock_time : ℕ
  pub unlock_time : ℕ

pub record Channel : Type 0 where
  pub timings : List LockTimes
  pub num_connected : ℕ
  pub max_connections : ℕ
  pub ctrl_delay : ℕ
  pub data_delay : ℕ
  pub ready_at : Option ℕ

unfoldable pub new : ℕ → ℕ → ℕ → Channel
new ctrl_delay data_delay max_connections = record {
  timings = [];
  num_connected = 0;
  max_connections = max_connections;
  ctrl_delay = ctrl_delay;
  data_delay = data_delay;
  ready_at = none;
}

unfoldable pub connect : Channel → Status × Channel
connect ch =
    if ltb ch.num_connected ch.max_connections
    then (success, record ch { num_connected = ch.num_connected + 1 })
    else (failure, ch)

unfoldable pub disconnect : Channel → Status × Channel
disconnect ch =
    if ltb 0 ch.num_connected
    then (success, record ch { num_connected = ch.num_connected - 1 })
    else (failure, ch)

-- The loop of unlock that removes the entries that are over at `now`.
unfoldable pub drop_expired : ℕ → List LockTimes → List LockTimes
drop_expired now [] = []
drop_expired now (l ∷ ls) =
    if leb l.unlock_time now then drop_expired now ls else l ∷ drop_expired now ls

unfoldable pub timings_sorter : LockTimes → LockTimes → Bool
timings_sorter a b = ltb a.lock_time b.lock_time

-- `std::sort` with timings_sorter. Entries with equal lock times may come in any order there; no
-- two entries that do not overlap have the same one, unless one is empty.
unfoldable pub insert : LockTimes → List LockTimes → List LockTimes
unfolding timings_sorter
insert a [] = a ∷ []
insert a (l ∷ ls) = if timings_sorter l a then l ∷ insert a ls else a ∷ l ∷ ls

unfoldable pub sort : List LockTimes → List LockTimes
unfolding insert
sort [] = []
sort (l ∷ ls) = insert l (sort ls)

unfoldable pub unlock : ℕ → Channel → Channel
unfolding drop_expired sort
unlock start_time ch = record ch { timings = sort (drop_expired start_time ch.timings) }

-- The loop over neighbours: the end of the first entry that leaves room before the next one.
-- The difference of the source may be negative, and is at least `duration` when this sum is at
-- most the next lock time.
unfoldable pub find_gap : ℕ → ℕ → LockTimes → List LockTimes → Option ℕ
find_gap start_time duration l [] = none
find_gap start_time duration l (next ∷ ls) =
    if leb start_time l.unlock_time && leb (l.unlock_time + duration) next.lock_time
    then some l.unlock_time
    else find_gap start_time duration next ls

-- `timings.back()`
unfoldable pub back : LockTimes → List LockTimes → LockTimes
back l [] = l
back l (next ∷ ls) = back next ls

-- When the transmission is scheduled, over the sorted table.
unfoldable pub schedule : ℕ → ℕ → List LockTimes → ℕ
unfolding find_gap back
schedule start_time duration [] = start_time
schedule start_time duration (l ∷ ls) =
    if ltb start_time l.lock_time && leb (start_time + duration) l.lock_time
    then start_time
    else elim (find_gap start_time duration l ls) [ some t ↦ t | none ↦ (back l ls).unlock_time ]

unfoldable pub latest : Option ℕ → ℕ → Option ℕ
latest none t = some t
latest (some r) t = if ltb r t then some t else some r

-- The result is always SUCCESS, so that only the channel and the event are returned.
unfoldable pub lock : ℕ → ℕ → Channel → Event → Run (Channel × Event)
lock start_time duration ch e = do
  guard (leb ch.num_connected ch.max_connections)
  let freed = unlock start_time ch
  let sched_time = schedule start_time duration freed.timings
  let lt : LockTimes = record { lock_time = sched_time; unlock_time = sched_time + duration }
  ok (
    record freed {
      timings = freed.timings ++ lt ∷ [];
      ready_at = latest freed.ready_at (sched_time + duration);
    },
    incr_time_taken (incr_bus_wait_time e (sched_time - start_time))
        (sched_time - start_time + duration),
  )
