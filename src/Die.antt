-- ===== src/Die.antt =====
-- OriginalFlashSim/ssd_die.cpp: an array of planes behind one channel.
use test_flash_sim.Base.{
  ℕ, zero, suc, ◌+◌, ◌*◌, not, ◌&&◌, List, [], ◌∷◌, Run, ok, guard, fetch, ◌>>=◌, ◌>>◌, failure,
  success, if◌then◌else◌, ltb, ◌==◌, set, u32,
}
use test_flash_sim.Config.{Config}
use test_flash_sim.Address.{Address, die_level, plane_level, valid_to, valid_beyond}
use test_flash_sim.Event.{Event}
use test_flash_sim.Memory.{Memory}
use test_flash_sim.Page.{Done, PageState}
use test_flash_sim.Block.{Block, BlockState}
use test_flash_sim.Wear.{best_index}
use test_flash_sim.Plane.{Plane}
use test_flash_sim.Plane
use test_flash_sim.Plane.Merge
use test_flash_sim.Channel.{Channel, connect}

-- `planes` is the source's `data`. The channel is not kept: the die only connects to it.
pub record Die : Type 0 where
  pub size : ℕ
  pub planes : List Plane
  pub least_worn : ℕ
  pub erases_remaining : ℕ
  pub last_erase_time : ℕ

unfoldable pub new_planes : Config → ℕ → ℕ → ℕ → List Plane
unfolding Plane.new
new_planes c physical_address zero i = []
new_planes c physical_address (suc n) i =
    Plane.new c c.plane_size c.plane_reg_read_delay c.plane_reg_write_delay
      (physical_address + u32 (c.plane_size * c.block_size * i))
    ∷ new_planes c physical_address n (suc i)

-- The channel may refuse the connection; the die is built all the same.
unfoldable pub new : Config → Channel → ℕ → ℕ → Die × Channel
unfolding new_planes connect
new c channel die_size physical_address = (
  record {
    size = die_size;
    planes = new_planes c physical_address die_size 0;
    least_worn = 0;
    erases_remaining = c.block_erases;
    last_erase_time = 0;
  },
  (connect channel).1,
)

-- A request that a plane has served, with the plane back in its place.
unfoldable pub put : Die → ℕ → Done Plane → Done Die
put d i r = record {
  status = r.status;
  self = record d { planes = set d.planes i r.self };
  event = r.event;
  memory = r.memory;
}

unfoldable pub read : Config → Die → Event → Memory → Run (Done Die)
unfolding put valid_beyond
read c d e m = do
  guard (ltb e.address.plane d.size && valid_beyond e.address die_level)
  x ← fetch d.planes e.address.plane
  r ← Plane.read c x e m
  ok (put d e.address.plane r)

unfoldable pub write : Config → Die → Event → Memory → Run (Done Die)
unfolding put valid_beyond
write c d e m = do
  guard (ltb e.address.plane d.size && valid_beyond e.address die_level)
  x ← fetch d.planes e.address.plane
  r ← Plane.write c x e m
  ok (put d e.address.plane r)

-- Its assert reads the address of the event, and its index the replace address.
unfoldable pub replace : Die → Event → Memory → Run (Done Die)
unfolding put
replace d e m = do
  guard (ltb e.address.plane d.size)
  x ← fetch d.planes e.replace_address.plane
  r ← Plane.replace x e m
  ok (put d e.replace_address.plane r)

unfoldable pub get_last_erase_time : Die → Address → Run ℕ
unfolding valid_beyond
get_last_erase_time d a =
    if valid_beyond a die_level && ltb a.plane d.size
    then (do x ← fetch d.planes a.plane; Plane.get_last_erase_time x a)
    else ok d.last_erase_time

unfoldable pub get_erases_remaining : Die → Address → Run ℕ
unfolding valid_beyond
get_erases_remaining d a =
    if valid_beyond a die_level && ltb a.plane d.size
    then (do x ← fetch d.planes a.plane; Plane.get_erases_remaining x a)
    else ok d.erases_remaining

unfoldable pub update_wear_stats : Die → Address → Run Die
unfolding best_index
update_wear_stats d a = do
  (max, max_index) ← best_index (λ x. Plane.get_erases_remaining x a) d.planes
  best ← fetch d.planes max_index
  time ← Plane.get_last_erase_time best a
  ok (record d { least_worn = max_index; erases_remaining = max; last_erase_time = time })

unfoldable pub erase : Die → Event → Memory → Run (Done Die)
unfolding put valid_beyond
erase d e m = do
  guard (ltb e.address.plane d.size && valid_beyond e.address die_level)
  x ← fetch d.planes e.address.plane
  r ← Plane.erase x e m
  let done = put d e.address.plane r
  elim r.status [
    | failure ↦ ok done
    | success ↦ do worn ← update_wear_stats done.self e.address; ok (record done { self = worn })
  ]

-- The merge of two planes is a stub.
unfoldable pub merge_planes : Die → Event → Memory → Run (Done Die)
unfolding valid_beyond
merge_planes d e m = do
  guard (
      ltb e.address.plane d.size
      && valid_beyond e.address die_level
      && ltb e.merge_address.plane d.size
      && valid_beyond e.merge_address die_level)
  guard (not (e.address.plane == e.merge_address.plane))
  ok (record { status = success; self = d; event = e; memory = m })

unfoldable pub merge : Config → Die → Event → Memory → Run (Done Die)
unfolding put valid_beyond merge_planes
merge c d e m = do
  guard (
      ltb e.address.plane d.size
      && valid_beyond e.address die_level
      && ltb e.merge_address.plane d.size
      && valid_beyond e.merge_address die_level)
  if e.address.plane == e.merge_address.plane
      then (do
        x ← fetch d.planes e.address.plane
        r ← Merge.merge c x e m
        ok (put d e.address.plane r))
      else merge_planes d e m

unfoldable pub get_least_worn : Die → Address → Run Address
get_least_worn d a = do
  guard (ltb d.least_worn d.size)
  x ← fetch d.planes d.least_worn
  Plane.get_least_worn x (record a { plane = d.least_worn; valid = plane_level })

unfoldable pub get_state : Die → Address → Run PageState
unfolding valid_to
get_state d a = do
  guard (ltb a.plane d.size && valid_to a die_level)
  x ← fetch d.planes a.plane
  Plane.get_state x a

unfoldable pub get_block_state : Die → Address → Run BlockState
unfolding valid_to
get_block_state d a = do
  guard (ltb a.plane d.size && valid_to a die_level)
  x ← fetch d.planes a.plane
  Plane.get_block_state x a

unfoldable pub get_free_page : Config → Die → Address → Run Address
unfolding valid_to
get_free_page c d a = do
  guard (ltb a.plane d.size && valid_to a plane_level)
  x ← fetch d.planes a.plane
  Plane.get_free_page c x a

unfoldable pub get_num_free : Die → Address → Run ℕ
unfolding valid_to
get_num_free d a = do
  guard (valid_to a plane_level)
  x ← fetch d.planes a.plane
  Plane.get_num_free x a

unfoldable pub get_num_valid : Die → Address → Run ℕ
unfolding valid_to
get_num_valid d a = do
  guard (valid_to a plane_level)
  x ← fetch d.planes a.plane
  Plane.get_num_valid x a

unfoldable pub get_num_invalid : Die → Address → Run ℕ
unfolding valid_to
get_num_invalid d a = do
  guard (valid_to a plane_level)
  x ← fetch d.planes a.plane
  Plane.get_num_invalid x a

unfoldable pub get_block_pointer : Die → Address → Run Block
unfolding valid_to
get_block_pointer d a = do
  guard (valid_to a plane_level)
  x ← fetch d.planes a.plane
  Plane.get_block_pointer x a
