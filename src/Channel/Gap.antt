-- ===== src/Channel/Gap.antt =====
-- Where a transmission is scheduled in a sorted table without overlaps.
use native.Mathlib.Nat.{le_refl, le_trans, le_of_eq}
use mathlib.Core.Path.{subst}
use test_flash_sim.Base.{
  ℕ, ◌+◌, ◌≤◌, ◌<◌, ◌≡◌, ◌⊎◌, inl, inr, refl, sym, List, [], ◌∷◌, some, none, arith, All, All-imp,
}
use test_flash_sim.Channel.{LockTimes, find_gap, back, schedule}
use test_flash_sim.Channel.Overlap.{Apart, Chain, Chain-AllFrom}

-- A transmission of `duration` from `t` on.
abbrev pub window : ℕ → ℕ → LockTimes
window t duration = record { lock_time = t; unlock_time = t + duration }

-- The time after `l` that the loop and the statement behind it find.
after : ℕ → ℕ → LockTimes → List LockTimes → ℕ
after start duration l ls = elim (find_gap start duration l ls) [
  | some t ↦ t
  | none ↦ (back l ls).unlock_time
]

after_end : (start duration : ℕ) (l : LockTimes) → after start duration l [] ≡ l.unlock_time
unfolding after find_gap back
after_end start duration l = refl

after_cases :
    (start duration : ℕ) (l next : LockTimes) (ls : List LockTimes)
    → start < l.unlock_time
    → ((l.unlock_time + duration ≤ next.lock_time)
        × (after start duration l (next ∷ ls) ≡ l.unlock_time))
      ⊎ ((next.lock_time < l.unlock_time + duration)
          × (after start duration l (next ∷ ls) ≡ after start duration next ls))
unfolding after find_gap back
after_cases start duration l next ls h = ground arith

-- A time behind `l` that is apart from all that follows.
abbrev Late : ℕ → LockTimes → List LockTimes → ℕ → Type 0
Late duration l ls t = (l.unlock_time ≤ t) × All (Apart (window t duration)) ls

after_apart :
    (start duration t : ℕ) (l : LockTimes) (ls : List LockTimes)
    → Chain t (l ∷ ls)
    → All (λ x. start < x.unlock_time) (l ∷ ls)
    → Late duration l ls (after start duration l ls)
after_apart start duration t l [] c f =
    subst (Late duration l []) (sym (after_end start duration l)) (le_refl l.unlock_time, tt)
after_apart start duration t l (next ∷ ls) c f = elim (after_cases start duration l next ls f.0) [
  | inl (room, here) ↦ subst (Late duration l (next ∷ ls)) (sym here) (
    le_refl l.unlock_time,
    (
      inl room,
      All-imp _ _ ls (λ x h. inl (le_trans room (le_trans ends h)))
          (Chain-AllFrom next.unlock_time ls c.2.2),
    ),
  )
  | inr (full, there) ↦
      let (late, apart) = after_apart start duration l.unlock_time next ls c.2 f.1 in
      subst (Late duration l (next ∷ ls)) (sym there)
        (le_trans (le_trans c.2.0 ends) late, (inr late, apart))
]
  where
    ends : next.lock_time ≤ next.unlock_time
    ends = omega (arith, c.2.1)

-- Nothing earlier is free, among the times whose window is not wholly before `l`.
after_earliest :
    (start duration s : ℕ) (l : LockTimes) (ls : List LockTimes)
    → All (λ x. start < x.unlock_time) (l ∷ ls)
    → l.lock_time < s + duration
    → s < after start duration l ls
    → ¬ All (Apart (window s duration)) (l ∷ ls)
after_earliest start duration s l ls f begun early (inl before, rest) = omega arith
after_earliest start duration s l [] f begun early (inr past, rest) =
    omega (arith, after_end start duration l)
after_earliest start duration s l (next ∷ ls) f begun early (inr past, rest) =
    elim (after_cases start duration l next ls f.0) [
      | inl (room, here) ↦ omega arith
      | inr (full, there) ↦
          after_earliest start duration s next ls f.1 (omega arith) (omega arith) rest
    ]

schedule_nil : (start duration : ℕ) → schedule start duration [] ≡ start
unfolding schedule
schedule_nil start duration = refl

schedule_cases :
    (start duration : ℕ) (l : LockTimes) (ls : List LockTimes)
    → 0 < duration
    → ((start + duration ≤ l.lock_time) × (schedule start duration (l ∷ ls) ≡ start))
      ⊎ ((l.lock_time < start + duration)
          × (schedule start duration (l ∷ ls) ≡ after start duration l ls))
unfolding schedule after
schedule_cases start duration l ls pos = ground arith

-- The time that is chosen is not before the request, and the transmission overlaps no entry.
pub schedule-Apart :
    (start duration : ℕ) (ls : List LockTimes)
    → 0 < duration
    → Chain 0 ls
    → All (λ x. start < x.unlock_time) ls
    → (start ≤ schedule start duration ls)
      × All (Apart (window (schedule start duration ls) duration)) ls
schedule-Apart start duration [] pos c f = (le_of_eq (sym (schedule_nil start duration)), tt)
schedule-Apart start duration (l ∷ ls) pos c f = elim (schedule_cases start duration l ls pos) [
  | inl (room, here) ↦ subst Fits (sym here) (
    le_refl start,
    (
      inl room,
      All-imp _ _ ls (λ x h. inl (le_trans room (le_trans begins h)))
          (Chain-AllFrom l.unlock_time ls c.2),
    ),
  )
  | inr (full, there) ↦
      let (late, apart) = after_apart start duration 0 l ls c f in
      subst Fits (sym there) (omega (arith, f.0), (inr late, apart))
]
  where
    begins : l.lock_time ≤ l.unlock_time
    begins = omega (arith, c.1)

    Fits : ℕ → Type 0
    Fits t = (start ≤ t) × All (Apart (window t duration)) (l ∷ ls)

-- And it is the earliest such time: from any time between the request and it, a transmission of
-- that duration overlaps an entry.
pub schedule_earliest :
    (start duration s : ℕ) (ls : List LockTimes)
    → 0 < duration
    → All (λ x. start < x.unlock_time) ls
    → start ≤ s
    → s < schedule start duration ls
    → ¬ All (Apart (window s duration)) ls
schedule_earliest start duration s [] pos f from early =
    absurd (omega (arith, schedule_nil start duration))
schedule_earliest start duration s (l ∷ ls) pos f from early =
    elim (schedule_cases start duration l ls pos) [
      | inl (room, here) ↦ absurd (omega arith)
      | inr (full, there) ↦ after_earliest start duration s l ls f (omega arith) (omega arith)
    ]
