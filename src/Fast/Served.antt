-- ===== src/Fast/Served.antt =====
-- The requests that the layer of OriginalFlashSim/FTLs/fast_ftl.cpp serves, one after the other.
use test_flash_sim.Base.{
  ℕ, ◌+◌, ◌*◌, ◌<◌, ◌≡◌, ◌∙◌, inl, inr, refl, sym, ap, subst, Bool, Option, none, some, List, [],
  ok, fetch, Status, arith, Bool-cases, Run-cases, ◌==◌, u32, u32_mod,
}
use native.Mathlib.Nat.{mod-eq_of_lt}
use test_flash_sim.Options.{Options}
use test_flash_sim.Address.{page_level, of_linear}
use test_flash_sim.Event.{Event}
use test_flash_sim.Page.{is_empty}
use test_flash_sim.Controller.{Controller}
use test_flash_sim.BlockManager.{World, insert_events}
use test_flash_sim.Fast.{
  LogBlock, Fast, State, new, logical_block, lbn_offset, is_entry, set_data, find_logged,
  initialize_log_pages,
}
use test_flash_sim.Fast.Merging.{switch_sequential, merge_sequential}
use test_flash_sim.Fast.Writes.{
  open_sequential, append_sequential, recycle_log, write_random, write_first, write_owned,
  write_to_log_block,
}
use test_flash_sim.Fast.Requests.{finish, read, open_block, place, pin_page, write, target}
use test_flash_sim.Fast.Trims.{trim_page, trim}
use test_flash_sim.Fast.Filled.{find_logged_runs}
use test_flash_sim.Fast.Shadowed.{IsLog}
use test_flash_sim.Fast.Kept.{
  SameLog, SameLog-refl, SameLog-trans, bind_ok, switch_sequential-SameLog,
  merge_sequential-SameLog,
}
use test_flash_sim.Fast.Trimmed.{trim_page-SameLog}
use test_flash_sim.Fast.Invariant.{
  IsReady, SameLog-IsLog, initialize_log_pages-IsLog, append_log-IsLog, recycle_log-IsLog,
}

module _ {S : Type 0} (k : Controller S) (o : Options) where
  open_sequential-SameLog :
      (lba : ℕ) (s t : State S) → open_sequential k o lba s ≡ ok t → SameLog s.ftl t.ftl
  unfolding open_sequential
  open_sequential-SameLog lba s t h = SameLog-refl s.ftl t.ftl (ground arith) (ground arith)

  write_first-SameLog :
      (lba : ℕ) (s t : State S) → write_first k o lba s ≡ ok t → SameLog s.ftl t.ftl
  unfolding write_first
  write_first-SameLog lba s t h = elim (Bool-cases (s.ftl.sequential_offset == o.block_size)) [
    | inl full ↦ elim (Run-cases (switch_sequential k o s)) [
      | inr (x, stopped) ↦ absurd (ground (arith, h, full, stopped))
      | inl (m, switched) ↦
          SameLog-trans (switch_sequential-SameLog k o s m switched)
            (open_sequential-SameLog lba m t (ground (arith, h, full, switched)))
    ]
    | inr room ↦ elim (Run-cases (merge_sequential k o s)) [
      | inr (x, stopped) ↦ absurd (ground (arith, h, room, stopped))
      | inl (m, merged) ↦
          SameLog-trans (merge_sequential-SameLog k o s m merged)
            (open_sequential-SameLog lba m t (ground (arith, h, room, merged)))
    ]
  ]

  write_owned-SameLog :
      (lba : ℕ) (s t : State S) → write_owned k o lba s ≡ ok t → SameLog s.ftl t.ftl
  unfolding write_owned append_sequential
  write_owned-SameLog lba s t h =
      elim (Bool-cases (lbn_offset o s.event == s.ftl.sequential_offset)) [
        | inl next ↦ SameLog-refl s.ftl t.ftl (ground (arith, h, next)) (ground (arith, h, next))
        | inr elsewhere ↦ elim (Run-cases (merge_sequential k o s)) [
          | inr (x, stopped) ↦ absurd (ground (arith, h, elsewhere, stopped))
          | inl (m, merged) ↦
              SameLog-trans (merge_sequential-SameLog k o s m merged)
                (open_sequential-SameLog lba m t (ground (arith, h, elsewhere, merged)))
        ]
      ]

  open_block-SameLog : (lba : ℕ) (s t : State S) → open_block k o lba s ≡ ok t → SameLog s.ftl t.ftl
  unfolding open_block set_data
  open_block-SameLog lba s t h = SameLog-refl s.ftl t.ftl (ground arith) (ground arith)

module _ {S : Type 0} (k : Controller S) (o : Options) (positive : 0 < o.block_size)
    (one : 0 < o.fast_log_block_limit) (few : o.fast_log_block_limit * o.block_size < u32_mod) where
  write_random-IsLog : (s t : State S) → IsLog o s.ftl → write_random k o s ≡ ok t → IsLog o t.ftl
  unfolding write_random
  write_random-IsLog s t v h =
      let word : u32 (o.fast_log_block_limit * o.block_size)
          ≡ o.fast_log_block_limit * o.block_size =
        mod-eq_of_lt few in
      elim (Bool-cases (s.ftl.log_page_next == u32 (o.fast_log_block_limit * o.block_size))) [
        | inr room ↦
            let bounded = v.bounded in
            append_log-IsLog k o positive one few s t (ground (arith, room, word, bounded)) v
              (ground (arith, h, room))
        | inl full ↦ elim (Run-cases (recycle_log k o s)) [
          | inr (x, stopped) ↦ absurd (ground (arith, h, full, stopped))
          | inl (m, recycled) ↦
              let (w, room) =
                recycle_log-IsLog k o positive one few s m (ground (arith, full, word)) v
                  recycled in
              append_log-IsLog k o positive one few m t room w (ground (arith, h, full, recycled))
        ]
      ]

  write_to_log_block-IsLog :
      (lba : ℕ) (s t : State S)
      → IsLog o s.ftl
      → write_to_log_block k o lba s ≡ ok t
      → IsLog o t.ftl
  unfolding write_to_log_block
  write_to_log_block-IsLog lba s t v h = elim (Bool-cases (lbn_offset o s.event == 0)) [
    | inl first ↦
        SameLog-IsLog o s.ftl t.ftl (write_first-SameLog k o lba s t (ground (arith, h, first))) v
    | inr inner ↦ elim (Bool-cases (is_entry lba s.ftl.sequential_logicalblock_address)) [
      | inl owned ↦
          SameLog-IsLog o s.ftl t.ftl
            (write_owned-SameLog k o lba s t (ground (arith, h, inner, owned))) v
      | inr foreign ↦ write_random-IsLog s t v (ground (arith, h, inner, foreign))
    ]
  ]

  place-IsLog :
      (lba : ℕ) (base : Option ℕ) (s t : State S)
      → IsLog o s.ftl
      → place k o lba base s ≡ ok t
      → IsLog o t.ftl
  unfolding place
  place-IsLog lba none s t v h = SameLog-IsLog o s.ftl t.ftl (open_block-SameLog k o lba s t h) v
  place-IsLog lba (some d) s t v h =
      elim (Bool-cases (
        is_empty (
          k.get_state s.world.device
            (of_linear o.geometry (d + lbn_offset o s.event) page_level)))) [
              | inl free ↦
                  SameLog-IsLog o s.ftl t.ftl
                    (SameLog-refl s.ftl t.ftl (ground (arith, h, free)) (ground (arith, h, free))) v
              | inr taken ↦ write_to_log_block-IsLog lba s t v (ground (arith, h, taken))
            ]

  write-IsLog :
      (e : Event) (f : Fast) (w : World S) (r : Status × State S)
      → IsReady o f
      → write k o e f w ≡ ok r
      → IsLog o r.1.ftl
  unfolding write
  write-IsLog e f w r v h =
      let (g, made, h1) = bind_ok (initialize_log_pages k o f w) _ r h in
      let start = initialize_log_pages-IsLog k o positive one few f w g v made in
      let (p, pinned, h2) = bind_ok (pin_page k o e g.0) _ r h1 in
      let same : SameLog g.0 p =
        unfold pin_page in SameLog-refl g.0 p (ground (arith, pinned)) (ground (arith, pinned)) in
      let (base, found, h3) = bind_ok (fetch p.data_list (logical_block p e)) _ r h2 in
      let s : State S = record { event = e; ftl = p; world = g.1 } in
      let (t, placed, h4) = bind_ok (place k o (logical_block p e) base s) _ r h3 in
      let w = place-IsLog (logical_block p e) base s t (SameLog-IsLog o g.0 p same start) placed in
      let (c, cleaned, h5) = bind_ok (insert_events k o t.event t.world) _ r h4 in
      let kept : r.1.ftl ≡ t.ftl = unfold finish in ground (arith, h5) in
      subst (IsLog o) (sym kept) w

  read-IsLog :
      (e : Event) (f : Fast) (w : World S) (r : Status × State S)
      → IsReady o f
      → read k o e f w ≡ ok r
      → IsLog o r.1.ftl
  unfolding read
  read-IsLog e f w r v h =
      let (g, made, h1) = bind_ok (initialize_log_pages k o f w) _ r h in
      let start = initialize_log_pages-IsLog k o positive one few f w g v made in
      let (a, aimed, h2) = bind_ok (target o g.0 e) _ r h1 in
      let kept : r.1.ftl ≡ g.0 = unfold finish in ground (arith, h2) in
      subst (IsLog o) (sym kept) start

  trim-IsLog :
      (e : Event) (f : Fast) (w : World S) (r : Status × State S)
      → IsReady o f
      → trim k o e f w ≡ ok r
      → IsLog o r.1.ftl
  unfolding trim
  trim-IsLog e f w r v h =
      let (g, made, h1) = bind_ok (initialize_log_pages k o f w) _ r h in
      let start = initialize_log_pages-IsLog k o positive one few f w g v made in
      let s : State S = record { event = e; ftl = g.0; world = g.1 } in
      let (t, trimmed, h2) = bind_ok (trim_page k o s) _ r h1 in
      let (c, cleaned, h3) = bind_ok (insert_events k o _ t.world) _ r h2 in
      let kept : r.1.ftl ≡ t.ftl = unfold finish in ground (arith, h3) in
      subst (IsLog o) (sym kept)
        (SameLog-IsLog o g.0 t.ftl (trim_page-SameLog k o s t trimmed) start)

-- Any history of the layer: the requests that it serves and that end, one after the other.
pub data Served {S : Type 0} (k : Controller S) (o : Options) (f : Fast) (w : World S)
    : Fast → World S → Type 0 where
  here : Served k o f w f w
  reads :
      {g : Fast} {v : World S} (e : Event) (r : Status × State S)
      → Served k o f w g v
      → read k o e g v ≡ ok r
      → Served k o f w r.1.ftl r.1.world
  writes :
      {g : Fast} {v : World S} (e : Event) (r : Status × State S)
      → Served k o f w g v
      → write k o e g v ≡ ok r
      → Served k o f w r.1.ftl r.1.world
  trims :
      {g : Fast} {v : World S} (e : Event) (r : Status × State S)
      → Served k o f w g v
      → trim k o e g v ≡ ok r
      → Served k o f w r.1.ftl r.1.world

Served-IsReady_from :
    {S : Type 0} (k : Controller S) (o : Options) (f : Fast) (w : World S) (g : Fast) (v : World S)
    → 0 < o.block_size
    → 0 < o.fast_log_block_limit
    → o.fast_log_block_limit * o.block_size < u32_mod
    → IsReady o f
    → Served k o f w g v
    → IsReady o g
Served-IsReady_from k o f w g v positive one few h here = h
Served-IsReady_from k o f w g v positive one few h (reads {g = g'} {v = v'} e r s ran) = inr (
    read-IsLog k o positive one few e g' v' r
      (Served-IsReady_from k o f w g' v' positive one few h s) ran)
Served-IsReady_from k o f w g v positive one few h (writes {g = g'} {v = v'} e r s ran) = inr (
    write-IsLog k o positive one few e g' v' r
      (Served-IsReady_from k o f w g' v' positive one few h s) ran)
Served-IsReady_from k o f w g v positive one few h (trims {g = g'} {v = v'} e r s ran) = inr (
    trim-IsLog k o positive one few e g' v' r
      (Served-IsReady_from k o f w g' v' positive one few h s) ran)

-- Let a block have pages, let there be log blocks, and let the number of their pages be below 2
-- ^ 32. In every history of requests that end, from a new layer, either the log blocks are not
-- made yet and `log_page_next` is 0, or there are as many as allowed and `log_page_next` counts
-- the pages in use, which fill the blocks from the first on. And a search for any logical
-- address ends within the blocks.
pub Served-IsReady :
    {S : Type 0} (k : Controller S) (o : Options) (pinned : Bool) (unset : ℕ) (w v : World S)
    (g : Fast)
    → 0 < o.block_size
    → 0 < o.fast_log_block_limit
    → o.fast_log_block_limit * o.block_size < u32_mod
    → Served k o (new o pinned unset) w g v
    → IsReady o g
      × ((la : ℕ) → (r : Option (ℕ × LogBlock × ℕ)) × (find_logged la g.log_pages 0 ≡ ok r))
unfolding new
Served-IsReady k o pinned unset w v g positive one few s =
    let ready =
      Served-IsReady_from k o (new o pinned unset) w g v positive one few (inl (refl, refl)) s in
    (
      ready,
      λ la. elim ready [
        | inl (unmade, zero_next) ↦
            let nothing : find_logged la [] 0 ≡ ok none = unfold find_logged in refl in
            (none, ap (λ (blocks : List LogBlock). find_logged la blocks 0) unmade ∙ nothing)
        | inr h ↦ find_logged_runs o.block_size g.log_page_next la g.log_pages 0 h.filled
      ],
    )
