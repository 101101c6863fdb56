-- ===== src/Raid/Served.antt =====
-- The striping of OriginalFlashSim/ssd_raidssd.cpp: each disk serves its part of the request.
use test_flash_sim.Base.{
  ℕ, zero, suc, ◌+◌, ◌-◌, ◌*◌, ◌≤◌, ◌<◌, ◌≡◌, ◌≢◌, ◌⊎◌, ◌∙◌, inl, inr, refl, sym, ap, Option, some,
  List, [], ◌∷◌, Run, ok, arith, Status, length, length-set, get_elem?, get_elem?_of_lt,
  lt-length_of_get_elem?, subst, set, get_elem?-set_self, get_elem?-set_ne, Bool-cases, ◌==◌, ltb,
  u32,
}
use test_flash_sim.Event.{Event, EventType}
use test_flash_sim.Raid.{Arrival, shift_buffer, event_arrive, stripe, raid_event_arrive}

some-injective : {A : Type 0} {a b : A} → some a ≡ some b → a ≡ b
some-injective {A} {a} {b} h = cc

module _ {S : Type 0} (c : Arrival) (controller_event_arrive : Event → S → Run (Status × Event × S))
    (type : EventType) (logical_address size start_time : ℕ) (buffer : Option (List ℕ)) where
  -- A disk returns from its part of the request.
  abbrev pub Returns : Type 0
  Returns =
      (b : Option (List ℕ)) (s : S)
      → (t : ℕ) × (s' : S) × (event_arrive c controller_event_arrive type logical_address size
            start_time b s
          ≡ ok (t, s'))

  -- What the disk at an index did with its part.
  abbrev pub IsServed : ℕ → S → ℕ → S → Type 0
  IsServed j s t s' =
      event_arrive c controller_event_arrive type logical_address size start_time
        (shift_buffer (u32 (j * c.page_size)) buffer) s
      ≡ ok (t, s')

  -- What the loop left of the disk at an index and of its time.
  Left : ℕ → ℕ → List ℕ → List S → ℕ → S → Type 0
  Left i n times left j s =
      ((j < i) × (get_elem? left j ≡ some s))
      ⊎ ((i + n ≤ j) × (get_elem? left j ≡ some s))
      ⊎ ((i ≤ j)
          × (j < i + n)
          × ((t : ℕ) × (s' : S) × IsServed j s t s'
              × (get_elem? left j ≡ some s')
              × (get_elem? times (j - i) ≡ some t)))

  -- One disk more, before the others.
  Left-set :
      (i n : ℕ) (ssds : List S) (s s' : S) (t : ℕ) (times : List ℕ) (left : List S)
      → get_elem? ssds i ≡ some s
      → IsServed i s t s'
      → ((j : ℕ) (u : S) → get_elem? (set ssds i s') j ≡ some u → Left (suc i) n times left j u)
      → (j : ℕ) (u : S) → get_elem? ssds j ≡ some u
      → Left i (suc n) (t ∷ times) left j u
  unfolding Left
  Left-set i n ssds s s' t times left found served each j u there = elim (Bool-cases (j == i)) [
    | inl here ↦
        let same : j ≡ i = ground (arith, here) in
        let disk : s ≡ u = some-injective (sym found ∙ ap (get_elem? ssds) (sym same) ∙ there) in
        let first : j - i ≡ 0 = omega (arith, same) in
        let now = get_elem?-set_self ssds i s' (lt-length_of_get_elem? ssds i s found) in
        elim (each i s' now) [
          | inl (before, kept) ↦ inr (
              inr (
                omega (arith, same),
                omega (arith, same),
                (
                  t,
                  s',
                  subst (λ (x : ℕ). IsServed x u t s') (sym same)
                      (subst (λ (x : S). IsServed i x t s') disk served),
                  ap (get_elem? left) same ∙ kept,
                  ap (get_elem? (t ∷ times)) first,
                ),
              ))
          | inr (inl (after, kept)) ↦ absurd (omega (arith, after))
          | inr (inr (after, high, rest)) ↦ absurd (omega (arith, after))
        ]
    | inr elsewhere ↦
        let apart : i ≢ j = ground (arith, elsewhere) in
        elim (each j u (get_elem?-set_ne ssds i j s' apart ∙ there)) [
          | inl (before, kept) ↦ inl (omega (arith, before, apart), kept)
          | inr (inl (after, kept)) ↦ inr (inl (omega (arith, after), kept))
          | inr (inr (low, high, (t', u', ran, kept, time))) ↦
              let index : j - i ≡ suc (j - suc i) = omega (arith, low) in
              inr (
                inr (
                  omega (arith, low),
                  omega (arith, high),
                  (t', u', ran, kept, ap (get_elem? (t ∷ times)) index ∙ time),
                ))
        ]
  ]

  stripe_serves :
      (i n : ℕ) (ssds : List S)
      → Returns
      → i + n ≤ length ssds
      → (times : List ℕ) × (left : List S) × (stripe c controller_event_arrive type logical_address
            size start_time buffer i n ssds
          ≡ ok (times, left))
        × ((j : ℕ) (s : S) → get_elem? ssds j ≡ some s → Left i n times left j s)
  unfolding stripe Left
  stripe_serves i zero ssds returns inside = (
    [],
    ssds,
    refl,
    λ j s there. elim (Bool-cases (ltb j i)) [
      | inl before ↦ inl (ground (arith, before), there)
      | inr later ↦ inr (inl (ground (arith, later), there))
    ],
  )
  stripe_serves i (suc n) ssds returns inside =
      let (s, found) = get_elem?_of_lt ssds i (omega arith) in
      let (t, s', served) = returns (shift_buffer (u32 (i * c.page_size)) buffer) s in
      let (times, left, ran, each) =
        stripe_serves (suc i) n (set ssds i s') returns
          (omega (arith, inside, length-set ssds i s')) in
      (
        t ∷ times,
        left,
        ground (arith, found, served, ran),
        λ j u there. Left-set i n ssds s s' t times left found served each j u there,
      )

  -- What is left of a disk of an array that is striped over whole.
  IsServed-Left :
      (n : ℕ) (times : List ℕ) (left : List S) (j : ℕ) (s : S)
      → j < n
      → Left 0 n times left j s
      → (t : ℕ) × (s' : S) × IsServed j s t s'
        × (get_elem? left j ≡ some s')
        × (get_elem? times j ≡ some t)
  unfolding Left
  IsServed-Left n times left j s inside (inl (before, kept)) = absurd (omega arith)
  IsServed-Left n times left j s inside (inr (inl (after, kept))) = absurd (omega arith)
  IsServed-Left n times left j s inside (inr (inr (low, high, (t, s', ran, kept, time)))) =
      let index : j ≡ j - 0 = omega arith in (t, s', ran, kept, ap (get_elem? times) index ∙ time)

  -- Let every disk return from its part of a request. Under striping over all disks of an array
  -- that has a first one, the array returns with the time of the first disk, which got the
  -- whole buffer. The disk at each index is left as its own event_arrive leaves it, with the
  -- buffer from the page of its index on.
  pub raid_event_arrive_stripes :
      (ssds : List S) (j : ℕ) (s first : S)
      → Returns
      → c.parallelism_mode ≡ 1
      → c.raid_number_of_physical_ssds ≡ length ssds
      → get_elem? ssds j ≡ some s
      → get_elem? ssds 0 ≡ some first
      → (time t : ℕ) × (left : List S) × (s' first' : S) × (raid_event_arrive c
            controller_event_arrive type logical_address size start_time buffer ssds
          ≡ ok (time, left))
        × IsServed 0 first time first'
        × IsServed j s t s'
        × (get_elem? left j ≡ some s')
  unfolding raid_event_arrive
  raid_event_arrive_stripes ssds j s first returns mode all there head =
      let (times, left, ran, each) = stripe_serves 0 (length ssds) ssds returns (omega arith) in
      let (t, s', served, kept, timed) =
        IsServed-Left (length ssds) times left j s (lt-length_of_get_elem? ssds j s there)
          (each j s there) in
      let (time, first', first_served, first_kept, first_timed) =
        IsServed-Left (length ssds) times left 0 first (lt-length_of_get_elem? ssds 0 first head)
          (each 0 first head) in
      (
        time,
        t,
        left,
        s',
        first',
        ground (arith, mode, all, ran, first_timed),
        first_served,
        served,
        kept,
      )
