-- ===== src/Fast/Logs.antt =====
-- random_merge of OriginalFlashSim/FTLs/fast_ftl.cpp.
use test_flash_sim.Base.{
  ℕ, zero, suc, ◌+◌, ◌-◌, ◌%◌, ◌/◌, ◌^◌, Bool, true, false, not, ◌&&◌, Option, none, some, List, [],
  ◌∷◌, Run, ok, abort, null_pointer, fetch, ◌>>=◌, Status, success, failure, if◌then◌else◌, ltb,
  ◌==◌, replicate, get_elem?, set,
}
use test_flash_sim.Options.{Options}
use test_flash_sim.Address.{page_level, block_level, of_linear, get_linear_address}
use test_flash_sim.Event.{incr_time_taken}
use test_flash_sim.Page.{is_empty, is_valid}
use test_flash_sim.Block.{dat}
use test_flash_sim.Controller.{Controller}
use test_flash_sim.BlockManager.{get_free_block, invalidate}
use test_flash_sim.Fast.{LogBlock, State, set_data, update_map_block}
use test_flash_sim.Fast.Merging.{copy_page, replenish}

-- `mergeBlocks[key] = true`, in the order of the keys.
unfoldable pub insert_key : ℕ → List ℕ → List ℕ
insert_key key [] = key ∷ []
insert_key key (x ∷ xs) =
    let later = insert_key key xs in
    if ltb x key then x ∷ later else (if x == key then x ∷ xs else key ∷ x ∷ xs)

-- -1 as a number of 32 bits, which is what an address is cut to.
unfoldable pub linear_of_entry : Option ℕ → ℕ
linear_of_entry none = 4294967295
linear_of_entry (some d) = d

-- `pinned` is the local array of random_merge.
pub record Merge (S : Type 0) : Type 0 where
  pub state : State S
  pub pinned : List Bool

unfoldable pub pin : {S : Type 0} → ℕ → Merge S → Merge S
pin i m = record m { pinned = set m.pinned i true }

-- `log_pages` with another entry at a page of its block at an index.
unfoldable pub set_entry : {S : Type 0} → ℕ → LogBlock → ℕ → Option ℕ → State S → State S
set_entry index b i v s = record s {
  ftl = record s.ftl {
    log_pages = set s.ftl.log_pages index (record b { a_pages = set b.a_pages i v });
  };
}

module _ {S : Type 0} (k : Controller S) (o : Options) where
  -- `event.incr_time_taken(RAM_READ_DELAY)`
  unfoldable pub charge : State S → State S
  unfolding incr_time_taken
  charge s = record s { event = incr_time_taken s.event o.ram_read_delay }

  -- The loop that finds the logical blocks to merge, from the i-th page of the victim on.
  unfoldable pub victims : List (Option ℕ) → ℕ → ℕ → List ℕ → State S → Run (List ℕ × State S)
  unfolding charge insert_key
  victims pages i zero keys s = ok (keys, s)
  victims pages i (suc n) keys s = do
    p ← fetch pages i
    victims pages (suc i) n
        (elim p [ none ↦ keys | some a ↦ insert_key (a / 2 ^ s.ftl.address_shift) keys ]) (charge s)

  -- A page of the logical block, at a page of a log block: it is copied, unless a page of that
  -- place was, in which case its entry goes.
  unfoldable pub merge_entry : ℕ → LogBlock → ℕ → ℕ → ℕ → Merge S → Run (Status × Merge S)
  unfolding copy_page pin set_entry get_linear_address
  merge_entry index b i to a m = do
    let place = a % o.block_size
    let target = of_linear o.geometry (to + place) page_level
    pinned ← fetch m.pinned place
    if pinned
        then ok (success, record m { state = set_entry index b i none m.state })
        else (if is_empty (k.get_state m.state.world.device target)
            then (do
              (status, t) ←
                  copy_page k o (of_linear o.geometry (get_linear_address b.address + i) page_level)
                    (to + place) m.state
              ok (
                status,
                elim status [
                  | failure ↦ record m { state = t }
                  | success ↦ pin place (record m { state = t })
                ],
              ))
            else ok (success, m))

  -- What is done for an entry. 4294967295 is the `-1u` of the source, which -1 is not equal to; -1
  -- shifted is -1, which is no logical block that is merged.
  unfoldable pub merge_page : ℕ → ℕ → LogBlock → ℕ → ℕ → Merge S → Run (Status × Merge S)
  unfolding charge merge_entry
  merge_page lba index b i to m = do
    let charged = record m { state = charge m.state }
    p ← fetch b.a_pages i
    elim p [
      | none ↦ ok (success, charged)
      | some a ↦
          if not (a == 4294967295) && a / 2 ^ m.state.ftl.address_shift == lba
          then merge_entry index b i to a charged
          else ok (success, charged)
    ]

  -- The loop down from the i-th page of the log block at an index to page 1.
  unfoldable pub merge_pages : ℕ → ℕ → ℕ → ℕ → Merge S → Run (Status × Merge S)
  unfolding merge_page
  merge_pages lba index to zero m = ok (success, m)
  merge_pages lba index to (suc i) m = elim (get_elem? m.state.ftl.log_pages index) [
    | none ↦ abort null_pointer
    | some b ↦ do
      (status, t) ← merge_page lba index b (suc i) to m
      elim status [ failure ↦ ok (failure, t) | success ↦ merge_pages lba index to i t ]
  ]

  -- The loop over the log blocks, from the last of the `n` that there may be.
  unfoldable pub merge_blocks : ℕ → ℕ → ℕ → Merge S → Run (Status × Merge S)
  unfolding merge_pages
  merge_blocks lba to zero m = ok (success, m)
  merge_blocks lba to (suc n) m = elim (get_elem? m.state.ftl.log_pages n) [
    | none ↦ abort null_pointer
    | some b ↦ do
      (status, t) ← merge_pages lba n to (b.num_pages - 1) m
      elim status [ failure ↦ ok (failure, t) | success ↦ merge_blocks lba to n t ]
  ]

  -- The page of the data block for a place of the new block, if it is wanted.
  unfoldable pub merge_data_page : ℕ → ℕ → ℕ → Merge S → Run (Status × Merge S)
  unfolding charge copy_page pin linear_of_entry
  merge_data_page lba to i m = do
    let charged = record m { state = charge m.state }
    pinned ← fetch m.pinned i
    old ← fetch m.state.ftl.data_list lba
    let target = of_linear o.geometry (to + i) page_level
    let from = of_linear o.geometry (linear_of_entry old + i) page_level
    if is_empty (k.get_state m.state.world.device target)
          && not pinned
          && is_valid (k.get_state m.state.world.device from)
        then (do
          (status, t) ← copy_page k o from (to + i) charged.state
          ok (
            status,
            elim status [
              | failure ↦ record m { state = t }
              | success ↦ pin i (record m { state = t })
            ],
          ))
        else ok (success, charged)

  unfoldable pub merge_data : ℕ → ℕ → ℕ → ℕ → Merge S → Run (Status × Merge S)
  unfolding merge_data_page
  merge_data lba to i zero m = ok (success, m)
  merge_data lba to i (suc n) m = do
    (status, t) ← merge_data_page lba to i m
    elim status [ failure ↦ ok (failure, t) | success ↦ merge_data lba to (suc i) n t ]

  -- The end of the merge of one logical block: an entry -1 is invalidated too, cut to 32 bits.
  unfoldable pub remap : ℕ → ℕ → State S → Run (State S)
  unfolding set_data linear_of_entry invalidate
  remap lba to s = do
    old ← fetch s.ftl.data_list lba
    f ← set_data lba (some to) s.ftl
    ok (record s {
      ftl = f;
      world = invalidate k o (of_linear o.geometry (linear_of_entry old) block_level) dat s.world;
    })

  -- A logical block goes to a new data block.
  unfoldable pub merge_victim : ℕ → State S → Run (Status × State S)
  unfolding replenish merge_blocks merge_data remap get_linear_address
  merge_victim lba s = do
    (e, w) ← replenish k o s.event s.world
    (fresh, e', w') ← get_free_block k o dat e w
    let to = get_linear_address fresh
    (logged, m) ← merge_blocks lba to o.fast_log_block_limit (record {
      state = record s { event = e'; world = w' };
      pinned = replicate o.block_size false;
    })
    elim logged [
      | failure ↦ ok (failure, m.state)
      | success ↦ do
        (copied, n) ← merge_data lba to 0 o.block_size m
        elim copied [
          | failure ↦ ok (failure, n.state)
          | success ↦ do t ← remap lba to n.state; ok (success, t)
        ]
    ]

  unfoldable pub merge_victims : List ℕ → State S → Run (Status × State S)
  unfolding merge_victim
  merge_victims [] s = ok (success, s)
  merge_victims (lba ∷ rest) s = do
    (status, t) ← merge_victim lba s
    elim status [ failure ↦ ok (failure, t) | success ↦ merge_victims rest t ]

  -- What random_merge leaves: its caller does not look at what it returns.
  unfoldable pub random_merge : LogBlock → State S → Run (State S)
  unfolding victims merge_victims update_map_block
  random_merge b s = do
    (keys, t) ← victims b.a_pages 0 b.num_pages [] s
    (status, u) ← merge_victims keys t
    elim status [
      | failure ↦ ok u
      | success ↦ update_map_block k o (record u {
        world = record u.world {
          stats = record u.world.stats {
            num_log_merge_full = u.world.stats.num_log_merge_full + 1;
          };
        };
      })
    ]
