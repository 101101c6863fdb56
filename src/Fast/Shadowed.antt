-- ===== src/Fast/Shadowed.antt =====
-- The reads after a write that goes to the RW log, of OriginalFlashSim/FTLs/fast_ftl.cpp.
use test_flash_sim.Base.{
  ℕ, ◌+◌, ◌*◌, ◌%◌, ◌≤◌, ◌<◌, ◌≡◌, ◌≢◌, ◌⊎◌, inl, inr, ◌∙◌, refl, sym, ap, subst, true, false,
  Option, none, some, ok, ◌>>=◌, if◌then◌else◌, ◌==◌, arith, length, get_elem?, set,
  get_elem?_of_lt, Option-cases, u32, u32_mod, u64_mod,
}
use native.Mathlib.Nat.{mod-eq_of_lt, mod-lt}
use test_flash_sim.Options.{Options}
use test_flash_sim.Address.{Address, page_level, of_linear, add}
use test_flash_sim.Address
use test_flash_sim.Event.{Event, set_address}
use test_flash_sim.Page.{is_empty}
use test_flash_sim.Controller.{Controller}
use test_flash_sim.BlockManager.{World, has_room, insert_events}
use test_flash_sim.Fast.{
  LogBlock, Fast, State, logical_block, lbn_offset, is_entry, find_logged, initialize_log_pages,
}
use test_flash_sim.Fast.Writes.{append_log, write_random, write_to_log_block}
use test_flash_sim.Fast.Requests.{target, unlogged_target, pin_page, place, finish, write}
use test_flash_sim.Fast.Filled.{
  IsFilled, AreSmall, aim, or_else, find_logged_runs, place_entry-IsAppended, place_entry-AreSmall,
}

-- There are as many log blocks as allowed, filled from the first on.
pub record IsLog (o : Options) (f : Fast) : Type 0 where
  pub whole : length f.log_pages ≡ o.fast_log_block_limit
  pub filled : IsFilled o.block_size f.log_page_next f.log_pages
  pub bounded : f.log_page_next ≤ o.fast_log_block_limit * o.block_size

target_by_aim :
    (o : Options) (f : Fast) (e : Event)
    → target o f e
      ≡ aim (find_logged e.logical_address f.log_pages 0) >>= λ r. elim r [
        | some n ↦ ok (of_linear o.geometry n page_level, e.noop)
        | none ↦ unlogged_target o f e
      ]
unfolding target
target_by_aim o f e = ground arith

initialize_log_pages_idle :
    {S : Type 0} (k : Controller S) (o : Options) (f : Fast) (w : World S)
    → 0 < length f.log_pages
    → initialize_log_pages k o f w ≡ ok (f, w)
unfolding initialize_log_pages
initialize_log_pages_idle k o f w some_block = ground arith

-- An entry that is put in behind the others: a search finds it unless it found one before.
target_logged :
    (o : Options) (f g : Fast) (e : Event) (n la : ℕ)
    → ((la' i : ℕ)
        → aim (find_logged la' g.log_pages i)
          ≡ or_else (aim (find_logged la' f.log_pages i)) (if la == la' then some n else none))
    → unlogged_target o g e ≡ unlogged_target o f e
    → (find_logged e.logical_address f.log_pages 0 ≡ ok none)
    → la ≡ e.logical_address
    → target o g e ≡ ok (of_linear o.geometry n page_level, e.noop)
target_logged o f g e n la searched unlogged nothing same =
    let after = searched e.logical_address 0 in
    target_by_aim o g e ∙ ground (arith, after, nothing, same)

target_kept :
    (o : Options) (f g : Fast) (e : Event) (n la : ℕ)
    → ((la' i : ℕ)
        → aim (find_logged la' g.log_pages i)
          ≡ or_else (aim (find_logged la' f.log_pages i)) (if la == la' then some n else none))
    → unlogged_target o g e ≡ unlogged_target o f e
    → ((x : ℕ × LogBlock × ℕ) × (find_logged e.logical_address f.log_pages 0 ≡ ok (some x)))
      ⊎ (((r : Option (ℕ × LogBlock × ℕ)) × (find_logged e.logical_address f.log_pages 0 ≡ ok r))
          × (e.logical_address ≢ la))
    → target o g e ≡ target o f e
target_kept o f g e n la searched unlogged (inl (x, found)) =
    let after = searched e.logical_address 0 in
    target_by_aim o g e ∙ ground (arith, after, found) ∙ sym (target_by_aim o f e)
target_kept o f g e n la searched unlogged (inr ((r, ran), other)) =
    let after = searched e.logical_address 0 in
    target_by_aim o g e ∙ ground (arith, after, ran, unlogged, other) ∙ sym (target_by_aim o f e)

-- The page behind a small block's linear address.
add-of_linear :
    (o : Options) (a : Address) (slot : ℕ)
    → slot < o.block_size
    → a.real_address + o.block_size ≤ u32_mod
    → add o.geometry (record a { valid = page_level }) slot
      ≡ of_linear o.geometry (a.real_address + slot) page_level
unfolding add of_linear Address.set_linear_level Address.set_linear_address
add-of_linear o a slot inside small =
    let wide : (a.real_address + slot) % u64_mod ≡ a.real_address + slot =
      mod-eq_of_lt (omega arith) in
    let short : (a.real_address + slot) % u32_mod ≡ a.real_address + slot =
      mod-eq_of_lt (omega arith) in
    rw wide (rw short refl)

-- What an append leaves.
pub record Appends (o : Options) (e : Event) (f : Fast) (a : Address) (g : Fast) : Type 0 where
  pub log : IsLog o g
  pub unlogged : (x : Event) → unlogged_target o g x ≡ unlogged_target o f x
  pub linear : ℕ
  pub searched :
      (la i : ℕ)
      → aim (find_logged la g.log_pages i)
        ≡ or_else
            (aim (find_logged la f.log_pages i))
            (if e.logical_address == la then some linear else none)
  pub sent : a ≡ of_linear o.geometry linear page_level

module _ {S : Type 0} (k : Controller S) (o : Options) (positive : 0 < o.block_size)
    (few : o.fast_log_block_limit * o.block_size < u32_mod) where
  append_log-Appends :
      (s : State S)
      → IsLog o s.ftl
      → AreSmall o.block_size s.ftl.log_pages
      → s.ftl.log_page_next < o.fast_log_block_limit * o.block_size
      → (t : State S) × (append_log k o s ≡ ok t)
        × Appends o s.event s.ftl t.event.address t.ftl
        × (t.world ≡ s.world)
        × (t.event.noop ≡ s.event.noop)
  unfolding append_log set_address
  append_log-Appends s log small room =
      let f = s.ftl in
      let slot = f.log_page_next % o.block_size in
      let (c, blocks, h) =
        place_entry-IsAppended o.block_size f.log_page_next s.event.logical_address f.log_pages
          positive (subst (λ (n : ℕ). f.log_page_next < n * o.block_size) (sym log.whole) room)
          log.filled in
      let next : u32 (f.log_page_next + 1) ≡ f.log_page_next + 1 = mod-eq_of_lt (omega arith) in
      (
        record s {
          event =
              set_address s.event (add o.geometry (record c.address { valid = page_level }) slot);
          ftl = record f { log_pages = blocks; log_page_next = u32 (f.log_page_next + 1) };
        },
        ground (arith, h.placed),
        record {
          log = record {
            whole = h.same_length ∙ log.whole;
            filled = subst (λ (n : ℕ). IsFilled o.block_size n blocks) (sym next) h.filled;
            bounded = omega (arith, next);
          };
          unlogged = λ x. (unfold unlogged_target in refl);
          linear = c.address.real_address + slot;
          searched = h.searched;
          sent = add-of_linear o c.address slot (mod-lt f.log_page_next positive) (
              place_entry-AreSmall o.block_size s.event.logical_address slot f.log_pages (c, blocks)
                small h.placed);
        },
        refl,
        refl,
      )

-- What sends a write to the RW log: its logical block has a data block, whose page is not empty,
-- the page is not the first of its block, and the SW block belongs to another one.
pub record GoesToLog {S : Type 0} (k : Controller S) (o : Options) (e : Event) (f : Fast)
    (w : World S) : Type 0 where
  pub data_block : ℕ
  pub mapped : get_elem? f.data_list (logical_block f e) ≡ some (some data_block)
  pub taken :
      is_empty
        (k.get_state w.device (of_linear o.geometry (data_block + lbn_offset o e) page_level))
      ≡ false
  pub inner : lbn_offset o e ≢ 0
  pub foreign : is_entry (logical_block f e) f.sequential_logicalblock_address ≡ false
  pub known : e.logical_address < length f.pin_list

module _ {S : Type 0} (k : Controller S) (o : Options) (positive : 0 < o.block_size)
    (few : o.fast_log_block_limit * o.block_size < u32_mod) where
  place_runs :
      (e : Event) (f : Fast) (w : World S)
      → IsLog o f
      → AreSmall o.block_size f.log_pages
      → f.log_page_next < o.fast_log_block_limit * o.block_size
      → (h : GoesToLog k o e f w)
      → (t : State S) × (place k o (logical_block f e) (some h.data_block) (record {
        event = e;
        ftl = record f { pin_list = set f.pin_list e.logical_address true };
        world = w;
      })
          ≡ ok t)
        × Appends o e f t.event.address t.ftl
        × (t.world ≡ w)
        × (t.event.noop ≡ e.noop)
  unfolding place write_to_log_block write_random logical_block lbn_offset unlogged_target
  place_runs e f w log small room h =
      let g = record f { pin_list = set f.pin_list e.logical_address true } in
      let s : State S = record { event = e; ftl = g; world = w } in
      let (t, ran, appends, world, noop) =
        append_log-Appends k o positive few s
          (record { whole = log.whole; filled = log.filled; bounded = log.bounded }) small room in
      let modulus : u32 (o.fast_log_block_limit * o.block_size)
          ≡ o.fast_log_block_limit * o.block_size =
        mod-eq_of_lt few in
      (
        t,
        ground (arith, h.taken, h.inner, h.foreign, modulus, ran),
        record {
          log = appends.log;
          unlogged = appends.unlogged;
          linear = appends.linear;
          searched = appends.searched;
          sent = appends.sent;
        },
        world,
        noop,
      )

  -- On a log with room that is filled from the first block on, with blocks below 2 ^ 32, let
  -- the block manager have room, and a write go to the RW log. Then the write ends with what
  -- the controller returns for its request, and leaves the log filled. If the log had an entry
  -- for the logical address, a read of it is still aimed where it was before the write; if not,
  -- at the page that the request was sent to. A read of another address is aimed where it was.
  pub write_shadowed :
      (e other : Event) (f : Fast) (w : World S)
      → IsLog o f
      → AreSmall o.block_size f.log_pages
      → f.log_page_next < o.fast_log_block_limit * o.block_size
      → GoesToLog k o e f w
      → has_room o w.manager ≡ true
      → other.logical_address ≢ e.logical_address
      → (s : State S) × (write k o e f w ≡ finish k s)
        × IsLog o s.ftl
        × (((x : ℕ × LogBlock × ℕ) × (find_logged e.logical_address f.log_pages 0 ≡ ok (some x))
              × (target o s.ftl e ≡ target o f e))
            ⊎ ((find_logged e.logical_address f.log_pages 0 ≡ ok none)
                × (target o s.ftl e ≡ ok (s.event.address, e.noop))))
        × (target o s.ftl other ≡ target o f other)
  unfolding write pin_page insert_events
  write_shadowed e other f w log small room h manager apart =
      let (t, placed, appends, world, noop) = place_runs e f w log small room h in
      let idle = initialize_log_pages_idle k o f w (grind (arith, log.whole)) in
      let (p, pinned) = get_elem?_of_lt f.pin_list e.logical_address h.known in
      let (r, ran) =
        find_logged_runs o.block_size f.log_page_next e.logical_address f.log_pages 0 log.filled in
      let other_ran =
        find_logged_runs o.block_size f.log_page_next other.logical_address f.log_pages 0
          log.filled in
      let s : State S = record t {
        world = record t.world {
          stats = record t.world.stats { num_ftl_write = t.world.stats.num_ftl_write + 1 };
        };
      } in
      (
        s,
        ground (arith, idle, pinned, h.mapped, placed, world, manager),
        record {
          whole = appends.log.whole;
          filled = appends.log.filled;
          bounded = appends.log.bounded;
        },
        elim (Option-cases r) [
          | inr (x, old) ↦ inl (
            x,
            ran ∙ ap ok old,
            target_kept o f s.ftl e appends.linear e.logical_address appends.searched
                (appends.unlogged e) (inl (x, ran ∙ ap ok old)),
          )
          | inl new ↦ inr (
            ran ∙ ap ok new,
            target_logged o f s.ftl e appends.linear e.logical_address appends.searched
                  (appends.unlogged e) (ran ∙ ap ok new) refl
                ∙ ap (λ (a : Address). ok (a, e.noop)) (sym appends.sent),
          )
        ],
        target_kept o f s.ftl other appends.linear e.logical_address appends.searched
            (appends.unlogged other) (inr (other_ran, apart)),
      )
