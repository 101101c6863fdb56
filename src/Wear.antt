-- ===== src/Wear.antt =====
-- The loop of update_wear_stats in OriginalFlashSim/ssd_die.cpp, ssd_package.cpp and ssd_ssd.cpp.
use test_flash_sim.Base.{
  ℕ, suc, List, [], ◌∷◌, Run, ok, abort, out_of_range, ◌>>=◌, if◌then◌else◌, ltb,
}

-- From the i-th part on, with the index so far. `max` stays what it is.
unfoldable pub best_loop : {A : Type 0} → (A → Run ℕ) → ℕ → ℕ → ℕ → List A → Run ℕ
best_loop erases max best i [] = ok best
best_loop erases max best i (x ∷ xs) = do
  n ← erases x
  best_loop erases max (if ltb max n then i else best) (suc i) xs

-- The number of the first part, and the index that the loop ends with.
unfoldable pub best_index : {A : Type 0} → (A → Run ℕ) → List A → Run (ℕ × ℕ)
unfolding best_loop
best_index erases [] = abort out_of_range
best_index erases (x ∷ xs) = do
  max ← erases x
  max_index ← best_loop erases max 0 1 xs
  ok (max, max_index)
