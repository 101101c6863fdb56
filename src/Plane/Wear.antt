-- ===== src/Plane/Wear.antt =====
-- What update_wear_stats finds.
use test_flash_sim.Base.{
  ℕ, zero, suc, ◌+◌, ◌≤◌, ◌<◌, ◌≡◌, inl, inr, refl, ◌⊎◌, Bool-cases, List, [], ◌∷◌, some, ok, arith,
  ltb, if◌then◌else◌, get_elem?,
}
use test_flash_sim.Block.{Block}
use test_flash_sim.Plane.{Plane, wear_loop, update_wear_stats}

-- No block of the list has more than `max` erases remaining.
abbrev pub NoneAbove : ℕ → List Block → Type 0
NoneAbove max [] = Unit {0}
NoneAbove max (b ∷ bs) = (b.erases_remaining ≤ max) × NoneAbove max bs

-- The list has a block with more than `max`, at index `j`, and none behind it.
abbrev pub LastAbove : ℕ → ℕ → List Block → Type 0
LastAbove max j [] = ⊥
LastAbove max zero (b ∷ bs) = (max < b.erases_remaining) × NoneAbove max bs
LastAbove max (suc j) (b ∷ bs) = LastAbove max j bs

wear_loop-NoneAbove :
    (max best i : ℕ) (bs : List Block) → NoneAbove max bs → wear_loop max best i bs ≡ best
unfolding wear_loop
wear_loop-NoneAbove max best i [] n = refl
wear_loop-NoneAbove max best i (b ∷ bs) n = ground (arith, wear_loop-NoneAbove max best (suc i) bs)

wear_loop-LastAbove :
    (max best i j : ℕ) (bs : List Block) → LastAbove max j bs → wear_loop max best i bs ≡ i + j
unfolding wear_loop
wear_loop-LastAbove max best i j [] l = absurd l
wear_loop-LastAbove max best i zero (b ∷ bs) l =
    ground (arith, wear_loop-NoneAbove max i (suc i) bs l.1)
wear_loop-LastAbove max best i (suc j) (b ∷ bs) l =
    ground (
      arith,
      wear_loop-LastAbove max (if ltb max b.erases_remaining then i else best) (suc i) j bs l,
    )

above_cases : (max : ℕ) (bs : List Block) → NoneAbove max bs ⊎ ((j : ℕ) × LastAbove max j bs)
above_cases max [] = inl tt
above_cases max (b ∷ bs) = elim (above_cases max bs) [
  | inr (j, l) ↦ inr (suc j, l)
  | inl n ↦ elim (Bool-cases (ltb max b.erases_remaining)) [
    | inl more ↦ inr (0, (ground arith, n))
    | inr less ↦ inl (ground arith, n)
  ]
]

LastAbove-found :
    (max j : ℕ) (bs : List Block) → LastAbove max j bs → (b : Block) × (get_elem? bs j ≡ some b)
LastAbove-found max j [] l = absurd l
LastAbove-found max zero (b ∷ bs) l = (b, refl)
LastAbove-found max (suc j) (b ∷ bs) l = LastAbove-found max j bs l

-- What the loop chooses, from the first block and the others.
chosen :
    (first : Block) (rest : List Block)
    → let max = first.erases_remaining in
      let i = wear_loop max 0 1 rest in
      (b : Block) × (get_elem? (first ∷ rest) i ≡ some b)
      × ((NoneAbove max rest × (i ≡ 0)) ⊎ ((j : ℕ) × LastAbove max j rest × (i ≡ j + 1)))
chosen first rest = elim (above_cases first.erases_remaining rest) [
  | inl n ↦
      let zeroth = wear_loop-NoneAbove first.erases_remaining 0 1 rest n in
      (first, rw zeroth refl, inl (n, zeroth))
  | inr (j, l) ↦
      let index = wear_loop-LastAbove first.erases_remaining 0 1 j rest l in
      let (b, found) = LastAbove-found first.erases_remaining j rest l in
      let next : wear_loop first.erases_remaining 0 1 rest ≡ suc j = omega (arith, index) in
      (b, rw next found, inr (j, l, omega (arith, index)))
]

-- On a plane with at least one block update_wear_stats returns. The plane then reports the
-- erases remaining of its first block, not the greatest number, and as its least worn block the
-- last one that has more of them than the first, or the first if none has; the last erase time
-- is that of the block reported.
pub update_wear_stats_correct :
    (p : Plane) (first : Block) (rest : List Block)
    → p.blocks ≡ first ∷ rest
    → (q : Plane) × (b : Block) × (update_wear_stats p ≡ ok q)
      × (get_elem? p.blocks q.least_worn ≡ some b)
      × (q.last_erase_time ≡ b.last_erase_time)
      × (q.erases_remaining ≡ first.erases_remaining)
      × ((NoneAbove first.erases_remaining rest × (q.least_worn ≡ 0))
          ⊎ ((j : ℕ) × LastAbove first.erases_remaining j rest × (q.least_worn ≡ j + 1)))
unfolding update_wear_stats
update_wear_stats_correct p first rest array =
    let (b, found, cases) = chosen first rest in
    (
      record p {
        least_worn = wear_loop first.erases_remaining 0 1 rest;
        erases_remaining = first.erases_remaining;
        last_erase_time = b.last_erase_time;
      },
      b,
      ground arith,
      rw array found,
      refl,
      refl,
      cases,
    )
