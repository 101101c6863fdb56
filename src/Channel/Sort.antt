-- ===== src/Channel/Sort.antt =====
-- The order of the table after unlock.
use native.Mathlib.Nat.{le_trans}
use test_flash_sim.Base.{
  ℕ, ◌≤◌, ◌<◌, ◌≡◌, inl, inr, true, false, List, [], ◌∷◌, arith, Bool-cases, leb, All, All-imp,
}
use test_flash_sim.Channel.{LockTimes, insert, sort, timings_sorter, drop_expired}

-- No entry locks before `t`.
abbrev pub AllFrom : ℕ → List LockTimes → Type 0
AllFrom t = All (λ l. t ≤ l.lock_time)

abbrev pub IsSorted : List LockTimes → Type 0
IsSorted [] = Unit {0}
IsSorted (l ∷ ls) = AllFrom l.lock_time ls × IsSorted ls

module _ (P : LockTimes → Type 0) where
  pub insert-All : (a : LockTimes) (ls : List LockTimes) → P a → All P ls → All P (insert a ls)
  unfolding insert
  insert-All a [] h f = (h, tt)
  insert-All a (l ∷ ls) h f = elim (Bool-cases (timings_sorter l a)) [
    | inl less ↦ rw less (f.0, insert-All a ls h f.1)
    | inr more ↦ rw more (h, f)
  ]

  pub sort-All : (ls : List LockTimes) → All P ls → All P (sort ls)
  unfolding sort
  sort-All [] f = tt
  sort-All (l ∷ ls) f = insert-All l (sort ls) f.0 (sort-All ls f.1)

  insert-All_inv : (a : LockTimes) (ls : List LockTimes) → All P (insert a ls) → P a × All P ls
  unfolding insert
  insert-All_inv a [] f = f
  insert-All_inv a (l ∷ ls) f = elim (Bool-cases (timings_sorter l a)) [
    | inl less ↦
        let (first, rest) = rw (less, insert) at f in
        let (here, others) = insert-All_inv a ls rest in (here, (first, others))
    | inr more ↦ rw (more, insert) at f
  ]

  -- Sorting loses no entry.
  pub sort-All_inv : (ls : List LockTimes) → All P (sort ls) → All P ls
  unfolding sort
  sort-All_inv [] f = tt
  sort-All_inv (l ∷ ls) f =
      let (first, rest) = insert-All_inv l (sort ls) f in (first, sort-All_inv ls rest)

  -- Nor does the removal lose an entry that is not over.
  pub drop_expired-All_inv :
      (now : ℕ) (ls : List LockTimes)
      → All P (drop_expired now ls)
      → All (λ l. now < l.unlock_time → P l) ls
  unfolding drop_expired
  drop_expired-All_inv now [] f = tt
  drop_expired-All_inv now (l ∷ ls) f = elim (Bool-cases (leb l.unlock_time now)) [
    | inl over ↦
        let rest = rw (over, drop_expired) at f in
        (λ h. absurd (ground arith), drop_expired-All_inv now ls rest)
    | inr busy ↦
        let (first, rest) = rw (busy, drop_expired) at f in
        (λ h. first, drop_expired-All_inv now ls rest)
  ]

  pub drop_expired-All : (now : ℕ) (ls : List LockTimes) → All P ls → All P (drop_expired now ls)
  unfolding drop_expired
  drop_expired-All now [] f = tt
  drop_expired-All now (l ∷ ls) f = elim (Bool-cases (leb l.unlock_time now)) [
    | inl over ↦ rw over (drop_expired-All now ls f.1)
    | inr busy ↦ rw busy (f.0, drop_expired-All now ls f.1)
  ]

-- What is left is not over.
pub drop_expired-after :
    (now : ℕ) (ls : List LockTimes) → All (λ l. now < l.unlock_time) (drop_expired now ls)
unfolding drop_expired
drop_expired-after now [] = tt
drop_expired-after now (l ∷ ls) = elim (Bool-cases (leb l.unlock_time now)) [
  | inl over ↦ rw over (drop_expired-after now ls)
  | inr busy ↦ rw busy (ground arith, drop_expired-after now ls)
]

insert-IsSorted : (a : LockTimes) (ls : List LockTimes) → IsSorted ls → IsSorted (insert a ls)
unfolding insert
insert-IsSorted a [] s = (tt, tt)
insert-IsSorted a (l ∷ ls) s = elim (Bool-cases (timings_sorter l a)) [
  | inl less ↦
      rw less (
        insert-All (λ x. l.lock_time ≤ x.lock_time) a ls (after less) s.0,
        insert-IsSorted a ls s.1,
      )
  | inr more ↦ rw more ((before more, All-imp _ _ ls (λ x h. le_trans (before more) h) s.0), s)
]
  where
    after : timings_sorter l a ≡ true → l.lock_time ≤ a.lock_time
    after h = ground arith

    before : timings_sorter l a ≡ false → a.lock_time ≤ l.lock_time
    before h = ground arith

pub sort-IsSorted : (ls : List LockTimes) → IsSorted (sort ls)
unfolding sort
sort-IsSorted [] = tt
sort-IsSorted (l ∷ ls) = insert-IsSorted l (sort ls) (sort-IsSorted ls)
