-- ===== src/Bus/Exclusive.antt =====
-- The channels of a bus under its requests.
use test_flash_sim.Base.{
  ℕ, ◌<◌, ◌≤◌, ◌≡◌, ◌≢◌, refl, sym, inl, inr, some, ok, arith, Bool-cases, leb, lt→ltb, All,
  All-set, All-get_elem?, set, get_elem?, get_elem?-set_ne, get_elem?-set_self,
  lt-length_of_get_elem?, ◌>>=◌,
}
use test_flash_sim.Event.{Event}
use test_flash_sim.Channel.{Channel}
use test_flash_sim.Channel
use test_flash_sim.Channel.Lock.{IsExclusive, lock-IsExclusive, lock_earliest}
use test_flash_sim.Bus.{Bus, lock}

-- A channel whose transmissions do not overlap, with no more connections than allowed.
pub record IsServing (ch : Channel) : Type 0 where
  pub exclusive : IsExclusive ch
  pub room : ch.num_connected ≤ ch.max_connections

-- Every channel of the bus is so.
abbrev pub BusIsServing : Bus → Type 0
BusIsServing b = All IsServing b.channels

lock_connections :
    (start duration : ℕ) (ch : Channel) (e : Event) (r : Channel × Event)
    → Channel.lock start duration ch e ≡ ok r
    → (r.0.num_connected ≡ ch.num_connected) × (r.0.max_connections ≡ ch.max_connections)
unfolding Channel.lock Channel.unlock
lock_connections start duration ch e r h =
    elim (Bool-cases (leb ch.num_connected ch.max_connections)) [
      | inl fits ↦ (ground arith, ground arith)
      | inr over ↦ absurd (ground arith)
    ]

-- On a bus whose channels all serve, none with overlapping transmissions, a lock of one of its
-- channels for a positive duration returns. It does to that channel and the event what
-- Channel::lock does, no other channel changes, and all channels still serve.
pub bus_lock :
    (b : Bus) (i start duration : ℕ) (e : Event) (ch : Channel)
    → BusIsServing b
    → 0 < duration
    → get_elem? b.channels i ≡ some ch
    → (r : Bus × Event) × (ch' : Channel) × (lock b i start duration e ≡ ok r)
      × (Channel.lock start duration ch e ≡ ok (ch', r.1))
      × (get_elem? r.0.channels i ≡ some ch')
      × ((j : ℕ) → j ≢ i → get_elem? r.0.channels j ≡ get_elem? b.channels j)
      × BusIsServing r.0
unfolding lock
bus_lock b i start duration e ch v pos found =
    let serving = All-get_elem? IsServing b.channels i ch v found in
    let (r, _, h, _, _, _, _, _) =
      lock_earliest start duration ch e pos serving.room serving.exclusive in
    let (connected, allowed) = lock_connections start duration ch e r h in
    (
      (record b { channels = set b.channels i r.0 }, r.1),
      r.0,
      rw (lt→ltb 0 duration pos, found, ◌>>=◌, h) refl,
      h,
      get_elem?-set_self b.channels i r.0 (lt-length_of_get_elem? b.channels i ch found),
      λ j other. get_elem?-set_ne b.channels i j r.0 (λ e. other (sym e)),
      All-set IsServing b.channels i r.0 v (record {
        exclusive = lock-IsExclusive start duration ch e r pos serving.exclusive h;
        room = omega (arith, connected, allowed, serving.room);
      }),
    )
