-- ===== src/Package.antt =====
-- OriginalFlashSim/ssd_package.cpp: an array of dies that share a channel.
use test_flash_sim.Base.{
  ℕ, zero, suc, ◌+◌, ◌*◌, ◌&&◌, List, [], ◌∷◌, Run, ok, guard, fetch, ◌>>=◌, ◌>>◌, failure, success,
  if◌then◌else◌, ltb, set, u32,
}
use test_flash_sim.Config.{Config}
use test_flash_sim.Address.{Address, package_level, die_level, valid_to, valid_beyond}
use test_flash_sim.Event.{Event}
use test_flash_sim.Memory.{Memory}
use test_flash_sim.Page.{Done, PageState}
use test_flash_sim.Block.{Block, BlockState}
use test_flash_sim.Wear.{best_index}
use test_flash_sim.Die.{Die}
use test_flash_sim.Die
use test_flash_sim.Channel.{Channel}

-- `dies` is the source's `data`.
pub record Package : Type 0 where
  pub size : ℕ
  pub dies : List Die
  pub least_worn : ℕ
  pub erases_remaining : ℕ
  pub last_erase_time : ℕ

-- Each die connects to the channel in its turn.
unfoldable pub new_dies : Config → Channel → ℕ → ℕ → ℕ → List Die × Channel
unfolding Die.new
new_dies c channel physical_address zero i = ([], channel)
new_dies c channel physical_address (suc n) i =
    let (d, connected) =
      Die.new c channel c.die_size
        (physical_address + u32 (c.die_size * c.plane_size * c.block_size * i)) in
    let (ds, last) = new_dies c connected physical_address n (suc i) in (d ∷ ds, last)

unfoldable pub new : Config → Channel → ℕ → ℕ → Package × Channel
unfolding new_dies
new c channel package_size physical_address =
    let (ds, last) = new_dies c channel physical_address package_size 0 in
    (
      record {
        size = package_size;
        dies = ds;
        least_worn = 0;
        erases_remaining = c.block_erases;
        last_erase_time = 0;
      },
      last,
    )

-- A request that a die has served, with the die back in its place.
unfoldable pub put : Package → ℕ → Done Die → Done Package
put d i r = record {
  status = r.status;
  self = record d { dies = set d.dies i r.self };
  event = r.event;
  memory = r.memory;
}

unfoldable pub read : Config → Package → Event → Memory → Run (Done Package)
unfolding put valid_beyond
read c d e m = do
  guard (ltb e.address.die d.size && valid_beyond e.address package_level)
  x ← fetch d.dies e.address.die
  r ← Die.read c x e m
  ok (put d e.address.die r)

unfoldable pub write : Config → Package → Event → Memory → Run (Done Package)
unfolding put valid_beyond
write c d e m = do
  guard (ltb e.address.die d.size && valid_beyond e.address package_level)
  x ← fetch d.dies e.address.die
  r ← Die.write c x e m
  ok (put d e.address.die r)

unfoldable pub replace : Package → Event → Memory → Run (Done Package)
unfolding put
replace d e m = do
  x ← fetch d.dies e.replace_address.die
  r ← Die.replace x e m
  ok (put d e.replace_address.die r)

unfoldable pub get_last_erase_time : Package → Address → Run ℕ
unfolding valid_beyond
get_last_erase_time d a =
    if valid_beyond a package_level && ltb a.die d.size
    then (do x ← fetch d.dies a.die; Die.get_last_erase_time x a)
    else ok d.last_erase_time

unfoldable pub get_erases_remaining : Package → Address → Run ℕ
unfolding valid_beyond
get_erases_remaining d a =
    if valid_beyond a package_level && ltb a.die d.size
    then (do x ← fetch d.dies a.die; Die.get_erases_remaining x a)
    else ok d.erases_remaining

unfoldable pub update_wear_stats : Package → Address → Run Package
unfolding best_index
update_wear_stats d a = do
  (max, max_index) ← best_index (λ x. Die.get_erases_remaining x a) d.dies
  best ← fetch d.dies max_index
  time ← Die.get_last_erase_time best a
  ok (record d { least_worn = max_index; erases_remaining = max; last_erase_time = time })

unfoldable pub erase : Package → Event → Memory → Run (Done Package)
unfolding put valid_beyond
erase d e m = do
  guard (ltb e.address.die d.size && valid_beyond e.address package_level)
  x ← fetch d.dies e.address.die
  r ← Die.erase x e m
  let done = put d e.address.die r
  elim r.status [
    | failure ↦ ok done
    | success ↦ do worn ← update_wear_stats done.self e.address; ok (record done { self = worn })
  ]

unfoldable pub merge : Config → Package → Event → Memory → Run (Done Package)
unfolding put valid_beyond
merge c d e m = do
  guard (ltb e.address.die d.size && valid_beyond e.address package_level)
  x ← fetch d.dies e.address.die
  r ← Die.merge c x e m
  ok (put d e.address.die r)

unfoldable pub get_least_worn : Package → Address → Run Address
get_least_worn d a = do
  guard (ltb d.least_worn d.size)
  x ← fetch d.dies d.least_worn
  Die.get_least_worn x (record a { die = d.least_worn; valid = die_level })

unfoldable pub get_state : Package → Address → Run PageState
unfolding valid_to
get_state d a = do
  guard (ltb a.die d.size && valid_to a package_level)
  x ← fetch d.dies a.die
  Die.get_state x a

unfoldable pub get_block_state : Package → Address → Run BlockState
unfolding valid_to
get_block_state d a = do
  guard (ltb a.die d.size && valid_to a package_level)
  x ← fetch d.dies a.die
  Die.get_block_state x a

unfoldable pub get_free_page : Config → Package → Address → Run Address
unfolding valid_to
get_free_page c d a = do
  guard (ltb a.die d.size && valid_to a die_level)
  x ← fetch d.dies a.die
  Die.get_free_page c x a

unfoldable pub get_num_free : Package → Address → Run ℕ
unfolding valid_to
get_num_free d a = do guard (valid_to a die_level); x ← fetch d.dies a.die; Die.get_num_free x a

unfoldable pub get_num_valid : Package → Address → Run ℕ
unfolding valid_to
get_num_valid d a = do guard (valid_to a die_level); x ← fetch d.dies a.die; Die.get_num_valid x a

unfoldable pub get_num_invalid : Package → Address → Run ℕ
unfolding valid_to
get_num_invalid d a = do
  guard (valid_to a die_level)
  x ← fetch d.dies a.die
  Die.get_num_invalid x a

unfoldable pub get_block_pointer : Package → Address → Run Block
unfolding valid_to
get_block_pointer d a = do
  guard (valid_to a die_level)
  x ← fetch d.dies a.die
  Die.get_block_pointer x a
