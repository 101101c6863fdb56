-- ===== src/Event/Times.antt =====
-- The times of an event.
use test_flash_sim.Base.{
  ℕ, ◌+◌, ◌-◌, ◌≤◌, ◌≡◌, refl, ◌⊎◌, inl, List, [], ◌∷◌, arith, ltb, if◌then◌else◌,
}
use test_flash_sim.Event.{
  Event, consolidate_loop, consolidate_metaevent, incr_time_taken, incr_bus_wait_time,
}

pub time_taken-incr_time_taken :
    (e : Event) (t : ℕ) → (incr_time_taken e t).time_taken ≡ e.time_taken + t
unfolding incr_time_taken
time_taken-incr_time_taken e t = ground arith

pub bus_wait_time-incr_bus_wait_time :
    (e : Event) (t : ℕ) → (incr_bus_wait_time e t).bus_wait_time ≡ e.bus_wait_time + t
unfolding incr_bus_wait_time
bus_wait_time-incr_bus_wait_time e t = ground arith

-- The time from the metaevent's start to the end of `cur`.
abbrev pub span : ℕ → Event → ℕ
span start cur = start + cur.time_taken - cur.start_time

abbrev pub AtMost : ℕ → ℕ → List Event → Type 0
AtMost start m [] = Unit {0}
AtMost start m (cur ∷ rest) = (span start cur ≤ m) × AtMost start m rest

abbrev pub OneOf : ℕ → ℕ → List Event → Type 0
OneOf start m [] = ⊥
OneOf start m (cur ∷ rest) = (m ≡ span start cur) ⊎ OneOf start m rest

abbrev pub waits : List Event → ℕ
waits [] = 0
waits (cur ∷ rest) = cur.bus_wait_time + waits rest

-- One round of the loop.
abbrev larger : ℕ → ℕ → ℕ
larger m t = if ltb m t then t else m

loop_cons :
    (start m w : ℕ) (cur : Event) (rest : List Event)
    → consolidate_loop start m w (cur ∷ rest)
      ≡ consolidate_loop start (larger m (span start cur)) (w + cur.bus_wait_time) rest
unfolding consolidate_loop
loop_cons start m w cur rest = refl

AtMost-mono : (start m n : ℕ) (l : List Event) → m ≤ n → AtMost start m l → AtMost start n l
AtMost-mono start m n [] h a = tt
AtMost-mono start m n (cur ∷ rest) h a = (omega arith, AtMost-mono start m n rest h a.1)

loop_upper :
    (start m w : ℕ) (l : List Event)
    → (m ≤ (consolidate_loop start m w l).0) × AtMost start (consolidate_loop start m w l).0 l
unfolding consolidate_loop
loop_upper start m w [] = (omega arith, tt)
loop_upper start m w (cur ∷ rest) =
    let next = larger m (span start cur) in
    let ih = loop_upper start next (w + cur.bus_wait_time) rest in
    rw loop_cons (ground (arith, ih.0), (ground (arith, ih.0), ih.1))

loop_attained :
    (start m w : ℕ) (l : List Event)
    → ((consolidate_loop start m w l).0 ≡ m) ⊎ OneOf start (consolidate_loop start m w l).0 l
unfolding consolidate_loop
loop_attained start m w [] = inl refl
loop_attained start m w (cur ∷ rest) =
    rw loop_cons
      (ground (arith, loop_attained start (larger m (span start cur)) (w + cur.bus_wait_time) rest))

loop_waits : (start m w : ℕ) (l : List Event) → (consolidate_loop start m w l).1 ≡ w + waits l
unfolding consolidate_loop
loop_waits start m w [] = omega arith
loop_waits start m w (cur ∷ rest) =
    omega (arith, loop_waits start (larger m (span start cur)) (w + cur.bus_wait_time) rest)

-- consolidate_metaevent gives the metaevent the time from its start to the latest end of the
-- events of the list: none ends later, and one ends then. Its bus wait time grows by those of
-- the events after the first, and nothing else of it changes.
pub consolidate_metaevent_correct :
    (e first : Event) (rest : List Event)
    → let r = consolidate_metaevent e first rest in
      AtMost e.start_time r.time_taken (first ∷ rest)
      × OneOf e.start_time r.time_taken (first ∷ rest)
      × (r.bus_wait_time ≡ e.bus_wait_time + waits rest)
      × (r ≡ record e { time_taken = r.time_taken; bus_wait_time = r.bus_wait_time })
unfolding consolidate_metaevent
consolidate_metaevent_correct e first rest =
    let m = span e.start_time first in
    let upper = loop_upper e.start_time m e.bus_wait_time rest in
    (
      upper,
      loop_attained e.start_time m e.bus_wait_time rest,
      loop_waits e.start_time m e.bus_wait_time rest,
      refl,
    )
