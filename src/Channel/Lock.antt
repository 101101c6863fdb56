-- ===== src/Channel/Lock.antt =====
-- What Channel::lock keeps and what it gives the event.
use native.Mathlib.Nat.{le_trans}
use test_flash_sim.Base.{
  ℕ, ◌+◌, ◌-◌, ◌≤◌, ◌<◌, ◌≡◌, inl, inr, refl, List, [], ◌∷◌, ◌++◌, Option, some, none, ok, arith,
  Bool-cases, Run-cases, Fault, abort, ◌≢◌, leb, ltb, All, All-imp, All-append, All-apply, ◌↔◌,
}
use test_flash_sim.Event.{Event, incr_bus_wait_time, incr_time_taken}
use test_flash_sim.Channel.{
  LockTimes, Channel, lock, unlock, schedule, latest, new, sort, drop_expired,
}
use test_flash_sim.Channel.Sort.{
  sort-All, sort-All_inv, drop_expired-All_inv, drop_expired-All, drop_expired-after, sort-IsSorted,
  AllFrom,
}
use test_flash_sim.Channel.Overlap.{
  Apart, IsBusy, Disjoint, sort-Disjoint, drop_expired-Disjoint, append-Disjoint, Chain, Chain-of,
}
use test_flash_sim.Channel.Gap.{window, schedule-Apart, schedule_earliest}

-- `ready_at` bounds the ends of the transmissions.
abbrev pub ReadyAfter : Option ℕ → List LockTimes → Type 0
ReadyAfter none ls = ls ≡ []
ReadyAfter (some r) ls = All (λ l. l.unlock_time ≤ r) ls

pub record IsExclusive (ch : Channel) : Type 0 where
  pub disjoint : Disjoint ch.timings
  pub busy : All IsBusy ch.timings
  pub ready : ReadyAfter ch.ready_at ch.timings

-- The table that unlock leaves: the entries that are not over, sorted.
abbrev pub table : ℕ → Channel → List LockTimes
table now ch = sort (drop_expired now ch.timings)

table-after : (now : ℕ) (ch : Channel) → All (λ l. now < l.unlock_time) (table now ch)
table-after now ch =
    sort-All (λ l. now < l.unlock_time) (drop_expired now ch.timings)
      (drop_expired-after now ch.timings)

AllFrom-zero : (ls : List LockTimes) → AllFrom 0 ls
AllFrom-zero [] = tt
AllFrom-zero (l ∷ ls) = (omega arith, AllFrom-zero ls)

module _ (now : ℕ) (ch : Channel) (v : IsExclusive ch) where
  table-All : (P : LockTimes → Type 0) → All P ch.timings → All P (table now ch)
  table-All P f = sort-All P (drop_expired now ch.timings) (drop_expired-All P now ch.timings f)

  table-Disjoint : Disjoint (table now ch)
  table-Disjoint =
      sort-Disjoint (drop_expired now ch.timings) (drop_expired-Disjoint now ch.timings v.disjoint)

  table-Chain : Chain 0 (table now ch)
  table-Chain =
      Chain-of 0 (table now ch) (sort-IsSorted (drop_expired now ch.timings)) table-Disjoint
        (table-All IsBusy v.busy) (AllFrom-zero (table now ch))

-- The new transmission ends no later than the new `ready_at`.
latest_after :
    (o : Option ℕ) (t : ℕ) (ls ms : List LockTimes) (l : LockTimes)
    → l.unlock_time ≡ t
    → ReadyAfter o ls
    → (ls ≡ [] → ms ≡ [])
    → ((P : LockTimes → Type 0) → All P ls → All P ms)
    → ReadyAfter (latest o t) (ms ++ l ∷ [])
unfolding latest
latest_after none t ls ms l e f none_left kept = rw (none_left f) (omega arith, tt)
latest_after (some r) t ls ms l e f none_left kept = elim (Bool-cases (ltb r t)) [
  | inl later ↦ rw later (
      All-append _ ms (l ∷ []) (All-imp _ _ ms (λ x h. le_trans h (ground arith)) (kept _ f))
        (omega arith, tt))
  | inr sooner ↦ rw sooner (All-append _ ms (l ∷ []) (kept _ f) (ground arith, tt))
]

table_nil : (now : ℕ) (ch : Channel) → ch.timings ≡ [] → table now ch ≡ []
unfolding sort drop_expired
table_nil now ch e = rw e

-- A call that returns, with the time for which it scheduled the transmission.
lock_parts :
    (start duration : ℕ) (ch : Channel) (e : Event) (r : Channel × Event)
    → lock start duration ch e ≡ ok r
    → let t = schedule start duration (table start ch) in
      (r.0.timings ≡ table start ch ++ window t duration ∷ [])
      × (r.0.ready_at ≡ latest ch.ready_at (t + duration))
      × (r.1 ≡ incr_time_taken (incr_bus_wait_time e (t - start)) (t - start + duration))
unfolding lock unlock
lock_parts start duration ch e r h = elim (Bool-cases (leb ch.num_connected ch.max_connections)) [
  | inl fits ↦ (ground arith, ground arith, ground arith)
  | inr over ↦ absurd (ground arith)
]

lock_no_abort :
    (start duration : ℕ) (ch : Channel) (e : Event) (f : Fault)
    → ch.num_connected ≤ ch.max_connections
    → lock start duration ch e ≢ abort f
unfolding lock
lock_no_abort start duration ch e f room aborts = ground arith

lock_returns :
    (start duration : ℕ) (ch : Channel) (e : Event)
    → ch.num_connected ≤ ch.max_connections
    → (r : Channel × Event) × (lock start duration ch e ≡ ok r)
lock_returns start duration ch e room = elim (Run-cases (lock start duration ch e)) [
  | inl returns ↦ returns
  | inr (f, aborts) ↦ absurd (lock_no_abort start duration ch e f room aborts)
]

-- Requests to lock a channel keep its transmissions from overlapping: if no two entries of the
-- table overlap, none is empty and `ready_at` bounds their ends, then so it is after a lock of
-- a positive duration that returns.
pub lock-IsExclusive :
    (start duration : ℕ) (ch : Channel) (e : Event) (r : Channel × Event)
    → 0 < duration
    → IsExclusive ch
    → lock start duration ch e ≡ ok r
    → IsExclusive r.0
lock-IsExclusive start duration ch e r pos v h =
    let (timings, ready, _) = lock_parts start duration ch e r h in
    let ls = table start ch in
    let t = schedule start duration ls in
    let (_, apart) =
      schedule-Apart start duration ls pos (table-Chain start ch v) (table-after start ch) in
    record {
      disjoint =
          rw timings (append-Disjoint ls (window t duration) (table-Disjoint start ch v) apart);
      busy = rw timings (
          All-append IsBusy ls (window t duration ∷ []) (table-All start ch v IsBusy v.busy)
            (omega arith, tt));
      ready =
          rw (timings, ready)
            (latest_after ch.ready_at (t + duration) ch.timings ls (window t duration) refl v.ready
              (table_nil start ch) (table-All start ch v));
    }

-- A transmission overlaps none of the entries that are not over.
abbrev pub FitsIn : ℕ → Channel → LockTimes → Type 0
FitsIn now ch w = All (λ l. now < l.unlock_time → Apart w l) ch.timings

FitsIn-iff :
    (now : ℕ) (ch : Channel) (w : LockTimes) → FitsIn now ch w ↔ All (Apart w) (table now ch)
FitsIn-iff now ch w = (
  λ f. sort-All (Apart w) (drop_expired now ch.timings) (
      All-apply _ (Apart w) (drop_expired now ch.timings) (drop_expired-All _ now ch.timings f)
        (drop_expired-after now ch.timings)),
  λ f.
      drop_expired-All_inv (Apart w) now ch.timings
        (sort-All_inv (Apart w) (drop_expired now ch.timings) f),
)

-- A lock of a positive duration, of an exclusive channel with no more connections than allowed,
-- returns. The event waits from the request to the time of its transmission, and is charged the
-- wait and the duration. That time is the earliest from which a transmission of the duration
-- overlaps none of the entries that are not over at the request.
pub lock_earliest :
    (start duration : ℕ) (ch : Channel) (e : Event)
    → 0 < duration
    → ch.num_connected ≤ ch.max_connections
    → IsExclusive ch
    → (r : Channel × Event) × (t : ℕ) × (lock start duration ch e ≡ ok r)
      × (start ≤ t)
      × FitsIn start ch (window t duration)
      × ((s : ℕ) → start ≤ s → s < t → ¬ FitsIn start ch (window s duration))
      × (r.1.bus_wait_time ≡ e.bus_wait_time + (t - start))
      × (r.1.time_taken ≡ e.time_taken + (t - start + duration))
unfolding incr_bus_wait_time incr_time_taken
lock_earliest start duration ch e pos room v =
    let (r, h) = lock_returns start duration ch e room in
    let (_, _, event) = lock_parts start duration ch e r h in
    let ls = table start ch in
    let after = table-after start ch in
    let (from, apart) = schedule-Apart start duration ls pos (table-Chain start ch v) after in
    (
      r,
      schedule start duration ls,
      h,
      from,
      (FitsIn-iff start ch (window (schedule start duration ls) duration)).1 apart,
      λ s a b f.
          schedule_earliest start duration s ls pos after a b
            ((FitsIn-iff start ch (window s duration)).0 f),
      rw event (ground arith),
      rw event (ground arith),
    )

-- A new channel has no transmissions.
pub new-IsExclusive :
    (ctrl_delay data_delay max_connections : ℕ)
    → IsExclusive (new ctrl_delay data_delay max_connections)
unfolding new
new-IsExclusive ctrl_delay data_delay max_connections = record {
  disjoint = tt;
  busy = tt;
  ready = refl;
}
