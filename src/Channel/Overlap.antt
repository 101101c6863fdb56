-- ===== src/Channel/Overlap.antt =====
-- Transmissions that do not overlap.
use native.Mathlib.Nat.{le_trans}
use test_flash_sim.Base.{
  ℕ, ◌≤◌, ◌<◌, ◌⊎◌, inl, inr, List, [], ◌∷◌, ◌++◌, arith, Bool-cases, leb, All, All-imp, All-append,
}
use test_flash_sim.Channel.{LockTimes, insert, sort, timings_sorter, drop_expired}
use test_flash_sim.Channel.Sort.{AllFrom, IsSorted, insert-All, sort-All, drop_expired-All}

-- One ends before the other begins.
abbrev pub Apart : LockTimes → LockTimes → Type 0
Apart a b = (a.unlock_time ≤ b.lock_time) ⊎ (b.unlock_time ≤ a.lock_time)

abbrev pub IsBusy : LockTimes → Type 0
IsBusy l = l.lock_time < l.unlock_time

-- No two entries of the table overlap.
abbrev pub Disjoint : List LockTimes → Type 0
Disjoint [] = Unit {0}
Disjoint (l ∷ ls) = All (Apart l) ls × Disjoint ls

Apart-symm : (a b : LockTimes) → Apart a b → Apart b a
Apart-symm a b (inl h) = inr h
Apart-symm a b (inr h) = inl h

insert-Disjoint :
    (a : LockTimes) (ls : List LockTimes) → All (Apart a) ls → Disjoint ls → Disjoint (insert a ls)
unfolding insert
insert-Disjoint a [] f d = (tt, tt)
insert-Disjoint a (l ∷ ls) f d = elim (Bool-cases (timings_sorter l a)) [
  | inl less ↦
      rw less (insert-All (Apart l) a ls (Apart-symm a l f.0) d.0, insert-Disjoint a ls f.1 d.1)
  | inr more ↦ rw more (f, d)
]

pub sort-Disjoint : (ls : List LockTimes) → Disjoint ls → Disjoint (sort ls)
unfolding sort
sort-Disjoint [] d = tt
sort-Disjoint (l ∷ ls) d =
    insert-Disjoint l (sort ls) (sort-All (Apart l) ls d.0) (sort-Disjoint ls d.1)

pub drop_expired-Disjoint :
    (now : ℕ) (ls : List LockTimes) → Disjoint ls → Disjoint (drop_expired now ls)
unfolding drop_expired
drop_expired-Disjoint now [] d = tt
drop_expired-Disjoint now (l ∷ ls) d = elim (Bool-cases (leb l.unlock_time now)) [
  | inl over ↦ rw over (drop_expired-Disjoint now ls d.1)
  | inr busy ↦ rw busy (drop_expired-All (Apart l) now ls d.0, drop_expired-Disjoint now ls d.1)
]

pub append-Disjoint :
    (ls : List LockTimes) (a : LockTimes) → Disjoint ls → All (Apart a) ls → Disjoint (ls ++ a ∷ [])
append-Disjoint [] a d f = (tt, tt)
append-Disjoint (l ∷ ls) a d f =
    (All-append (Apart l) ls (a ∷ []) d.0 (Apart-symm a l f.0, tt), append-Disjoint ls a d.1 f.1)

-- Each entry begins where the one before it has ended, the first not before `t`.
abbrev pub Chain : ℕ → List LockTimes → Type 0
Chain t [] = Unit {0}
Chain t (l ∷ ls) = (t ≤ l.lock_time) × IsBusy l × Chain l.unlock_time ls

-- In a sorted table an entry that is apart from `l` and not before it lies behind it.
behind :
    (l x : LockTimes)
    → l.lock_time ≤ x.lock_time
    → IsBusy x
    → Apart l x
    → l.unlock_time ≤ x.lock_time
behind l x s b h = ground arith

All-behind :
    (l : LockTimes) (ls : List LockTimes)
    → AllFrom l.lock_time ls
    → All IsBusy ls
    → All (Apart l) ls
    → AllFrom l.unlock_time ls
All-behind l [] s b d = tt
All-behind l (x ∷ ls) s b d = (behind l x s.0 b.0 d.0, All-behind l ls s.1 b.1 d.1)

pub Chain-of :
    (t : ℕ) (ls : List LockTimes)
    → IsSorted ls
    → Disjoint ls
    → All IsBusy ls
    → AllFrom t ls
    → Chain t ls
Chain-of t [] s d b f = tt
Chain-of t (l ∷ ls) s d b f =
    (f.0, b.0, Chain-of l.unlock_time ls s.1 d.1 b.1 (All-behind l ls s.0 b.1 d.0))

-- A chain lies behind its start.
pub Chain-AllFrom : (t : ℕ) (ls : List LockTimes) → Chain t ls → AllFrom t ls
Chain-AllFrom t [] c = tt
Chain-AllFrom t (l ∷ ls) c = (
  c.0,
  All-imp _ _ ls (λ x h. le_trans (le_trans c.0 (omega (arith, c.1))) h)
      (Chain-AllFrom l.unlock_time ls c.2),
)
