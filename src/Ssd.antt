-- ===== src/Ssd.antt =====
-- OriginalFlashSim/ssd_ssd.cpp: an array of packages, one to a channel of the bus.
use test_flash_sim.Base.{
  ℕ, suc, ◌*◌, ◌&&◌, List, [], ◌∷◌, Run, ok, guard, fetch, ◌>>=◌, ◌>>◌, failure, success,
  if◌then◌else◌, length, Option, none, some, ltb, ◌==◌, set, u32,
}
use test_flash_sim.Config.{Config}
use test_flash_sim.Address.{Address, package_level, rank, valid_to}
use test_flash_sim.Event.{Event}
use test_flash_sim.Memory.{Memory}
use test_flash_sim.Page.{Done, PageState}
use test_flash_sim.Block.{Block, BlockState}
use test_flash_sim.Wear.{best_index}
use test_flash_sim.Package.{Package}
use test_flash_sim.Package
use test_flash_sim.Channel.{Channel}

-- The flash side of the disk. `packages` is the source's `data`; its controller, RAM and bus are
-- apart.
pub record Ssd : Type 0 where
  pub size : ℕ
  pub packages : List Package
  pub least_worn : ℕ
  pub erases_remaining : ℕ
  pub last_erase_time : ℕ

-- Package i takes channel i of the bus.
unfoldable pub new_packages : Config → List Channel → ℕ → List Package × List Channel
unfolding Package.new
new_packages c [] i = ([], [])
new_packages c (ch ∷ chs) i =
    let (p, connected) =
      Package.new c ch c.package_size
        (u32 (c.package_size * c.die_size * c.plane_size * c.block_size * i)) in
    let (ps, rest) = new_packages c chs (suc i) in (p ∷ ps, connected ∷ rest)

-- The channels are those of the bus, as many as the disk has packages.
unfoldable pub new : Config → List Channel → Ssd × List Channel
unfolding new_packages
new c channels =
    let (ps, connected) = new_packages c channels 0 in
    (
      record {
        size = length channels;
        packages = ps;
        least_worn = 0;
        erases_remaining = c.block_erases;
        last_erase_time = 0;
      },
      connected,
    )

-- A request that a package has served, with the package back in its place.
unfoldable pub put : Ssd → ℕ → Done Package → Done Ssd
put d i r = record {
  status = r.status;
  self = record d { packages = set d.packages i r.self };
  event = r.event;
  memory = r.memory;
}

unfoldable pub read : Config → Ssd → Event → Memory → Run (Done Ssd)
unfolding put valid_to
read c d e m = do
  guard (ltb e.address.pkg d.size && valid_to e.address package_level)
  x ← fetch d.packages e.address.pkg
  r ← Package.read c x e m
  ok (put d e.address.pkg r)

unfoldable pub write : Config → Ssd → Event → Memory → Run (Done Ssd)
unfolding put valid_to
write c d e m = do
  guard (ltb e.address.pkg d.size && valid_to e.address package_level)
  x ← fetch d.packages e.address.pkg
  r ← Package.write c x e m
  ok (put d e.address.pkg r)

-- Nothing is replaced unless the replace address is a page's.
unfoldable pub replace : Ssd → Event → Memory → Run (Done Ssd)
unfolding put rank
replace d e m =
    let unchanged : Run (Done Ssd) =
      ok (record { status = success; self = d; event = e; memory = m }) in
    if rank e.replace_address.valid == 0 then unchanged else (do
      guard (ltb e.replace_address.pkg d.size)
      if rank e.replace_address.valid == 5
          then (do
            x ← fetch d.packages e.replace_address.pkg
            r ← Package.replace x e m
            ok (put d e.replace_address.pkg r))
          else unchanged)

unfoldable pub get_last_erase_time : Ssd → Address → Run ℕ
unfolding valid_to
get_last_erase_time d a =
    if valid_to a package_level && ltb a.pkg d.size
    then (do x ← fetch d.packages a.pkg; Package.get_last_erase_time x a)
    else ok d.last_erase_time

unfoldable pub get_erases_remaining : Ssd → Address → Run ℕ
unfolding valid_to
get_erases_remaining d a =
    if valid_to a package_level && ltb a.pkg d.size
    then (do x ← fetch d.packages a.pkg; Package.get_erases_remaining x a)
    else ok d.erases_remaining

unfoldable pub update_wear_stats : Ssd → Address → Run Ssd
unfolding best_index
update_wear_stats d a = do
  (max, max_index) ← best_index (λ x. Package.get_erases_remaining x a) d.packages
  best ← fetch d.packages max_index
  time ← Package.get_last_erase_time best a
  ok (record d { least_worn = max_index; erases_remaining = max; last_erase_time = time })

unfoldable pub erase : Ssd → Event → Memory → Run (Done Ssd)
unfolding put valid_to
erase d e m = do
  guard (ltb e.address.pkg d.size && valid_to e.address package_level)
  x ← fetch d.packages e.address.pkg
  r ← Package.erase x e m
  let done = put d e.address.pkg r
  elim r.status [
    | failure ↦ ok done
    | success ↦ do worn ← update_wear_stats done.self e.address; ok (record done { self = worn })
  ]

unfoldable pub merge : Config → Ssd → Event → Memory → Run (Done Ssd)
unfolding put valid_to
merge c d e m = do
  guard (ltb e.address.pkg d.size && valid_to e.address package_level)
  x ← fetch d.packages e.address.pkg
  r ← Package.merge c x e m
  ok (put d e.address.pkg r)

-- `Ssd::ready_at`: the earliest time at which a channel that was used is ready.
unfoldable pub ready_at : List Channel → Option ℕ
ready_at [] = none
ready_at (ch ∷ chs) = elim ch.ready_at [
  | none ↦ ready_at chs
  | some t ↦ elim (ready_at chs) [
    | none ↦ some t
    | some next ↦ if ltb t next then some t else some next
  ]
]

unfoldable pub get_least_worn : Ssd → Address → Run Address
get_least_worn d a = do
  guard (ltb d.least_worn d.size)
  x ← fetch d.packages d.least_worn
  Package.get_least_worn x (record a { pkg = d.least_worn; valid = package_level })

unfoldable pub get_state : Ssd → Address → Run PageState
unfolding valid_to
get_state d a = do
  guard (ltb a.pkg d.size && valid_to a package_level)
  x ← fetch d.packages a.pkg
  Package.get_state x a

unfoldable pub get_block_state : Ssd → Address → Run BlockState
unfolding valid_to
get_block_state d a = do
  guard (ltb a.pkg d.size && valid_to a package_level)
  x ← fetch d.packages a.pkg
  Package.get_block_state x a

unfoldable pub get_free_page : Config → Ssd → Address → Run Address
unfolding valid_to
get_free_page c d a = do
  guard (ltb a.pkg d.size && valid_to a package_level)
  x ← fetch d.packages a.pkg
  Package.get_free_page c x a

unfoldable pub get_num_valid : Ssd → Address → Run ℕ
unfolding valid_to
get_num_valid d a = do
  guard (valid_to a package_level)
  x ← fetch d.packages a.pkg
  Package.get_num_valid x a

unfoldable pub get_num_invalid : Ssd → Address → Run ℕ
unfolding valid_to
get_num_invalid d a = do
  guard (valid_to a package_level)
  x ← fetch d.packages a.pkg
  Package.get_num_invalid x a

unfoldable pub get_block_pointer : Ssd → Address → Run Block
unfolding valid_to
get_block_pointer d a = do
  guard (valid_to a package_level)
  x ← fetch d.packages a.pkg
  Package.get_block_pointer x a
