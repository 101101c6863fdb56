-- ===== src/ReadBack/Array.antt =====
-- Read back in a block and a plane (OriginalFlashSim/ssd_block.cpp, ssd_plane.cpp).
use test_flash_sim.Base.{
  ◌≡◌, inl, inr, refl, true, ◌&&◌, some, none, Fault, abort, ok, arith, Option-cases, Run-cases,
  Bool-cases, success, ltb, ◌>>=◌, set, get_elem?, get_elem?-set_self, lt-length_of_get_elem?, ◌≢◌,
}
use test_flash_sim.Config.{Config}
use test_flash_sim.Address.{plane_level, valid_beyond}
use test_flash_sim.Event.{Event, incr_time_taken}
use test_flash_sim.Memory.{Memory}
use test_flash_sim.Page.{Page, Done, copy_payload, point_buffer}
use test_flash_sim.Page
use test_flash_sim.Block.{Block}
use test_flash_sim.Block
use test_flash_sim.Plane.{Plane}
use test_flash_sim.Plane
use test_flash_sim.ReadBack.{Reads, ReadsBack}

no_page :
    (c : Config) (b : Block) (e : Event) (m : Memory) (r : Done Block)
    → get_elem? b.pages e.address.page ≡ none
    → Block.write c b e m ≢ ok r
unfolding Block.write
no_page c b e m r missing h = ground arith

not_copied :
    (c : Config) (b : Block) (e : Event) (m : Memory) (r : Done Block) (p : Page) (fault : Fault)
    → get_elem? b.pages e.address.page ≡ some p
    → copy_payload c e m ≡ abort fault
    → Block.write c b e m ≢ ok r
unfolding Block.write Page.write
not_copied c b e m r p fault found failed h = ground (arith, found, failed, h)

block_stores :
    (c : Config) (b : Block) (e : Event) (m stored : Memory) (r : Done Block) (p : Page)
    → get_elem? b.pages e.address.page ≡ some p
    → copy_payload c e m ≡ ok stored
    → Block.write c b e m ≡ ok r
    → (r.memory.page_data ≡ stored.page_data)
      × ((q : Page) × (r.self.pages ≡ set b.pages e.address.page q))
unfolding Block.write Page.write
block_stores c b e m stored r p found copied h = elim (Bool-cases e.noop) [
  | inl noop ↦ (ground arith, (p, ground arith))
  | inr real ↦ (ground arith, (record p { state = Page.valid }, ground arith))
]

block_read :
    (c : Config) (b : Block) (e : Event) (m n : Memory) (p : Page)
    → get_elem? b.pages e.address.page ≡ some p
    → point_buffer c e m ≡ ok n
    → Reads n (Block.read c b e m)
unfolding Block.read Page.read
block_read c b e m n p found pointed = record {
  result = record {
    status = success;
    self = record b { pages = set b.pages e.address.page p };
    event = incr_time_taken e p.read_delay;
    memory = n;
  };
  returns = ground (arith, found, pointed);
  succeeds = refl;
  points = refl;
}

pub Block-ReadsBack :
    (c : Config) (b : Block) (e : Event) (m : Memory) (r : Done Block)
    → Block.write c b e m ≡ ok r
    → ReadsBack c e m r (Block.read c r.self)
Block-ReadsBack c b e m r h = elim (Option-cases (get_elem? b.pages e.address.page)) [
  | inl missing ↦ absurd (no_page c b e m r missing h)
  | inr (p, found) ↦ elim (Run-cases (copy_payload c e m)) [
    | inr (fault, failed) ↦ absurd (not_copied c b e m r p fault found failed h)
    | inl (stored, copied) ↦
        let (stores, (q, array)) = block_stores c b e m stored r p found copied h in
        record {
          stored = stored;
          copies = copied;
          stores = stores;
          reads = λ e' m' n same pointed.
              block_read c r.self e' m' n q
                (rw (array, same)
                  (get_elem?-set_self b.pages e.address.page q
                    (lt-length_of_get_elem? b.pages e.address.page p found)))
                pointed;
        }
  ]
]

plane_parts :
    (c : Config) (d : Plane) (e : Event) (m : Memory) (r : Done Plane)
    → Plane.write c d e m ≡ ok r
    → (x : Block) × (s : Done Block) × (get_elem? d.blocks e.address.block ≡ some x)
      × (Block.write c x e m ≡ ok s)
      × ((ltb e.address.block d.size && valid_beyond e.address plane_level) ≡ true)
      × (r.self.size ≡ d.size)
      × (r.self.blocks ≡ set d.blocks e.address.block s.self)
      × (r.memory ≡ s.memory)
unfolding Plane.write Plane.put
plane_parts c d e m r h = elim (Option-cases (get_elem? d.blocks e.address.block)) [
  | inl missing ↦ absurd (ground arith)
  | inr (x, found) ↦ elim (Run-cases (Block.write c x e m)) [
    | inr (f, failed) ↦ absurd (ground arith)
    | inl (s, served) ↦
        (x, s, found, served, ground arith, ground arith, ground arith, ground arith)
  ]
]

plane_read :
    (c : Config) (d : Plane) (e : Event) (m n : Memory) (x : Block)
    → get_elem? d.blocks e.address.block ≡ some x
    → (ltb e.address.block d.size && valid_beyond e.address plane_level) ≡ true
    → Reads n (Block.read c x e m)
    → Reads n (Plane.read c d e m)
unfolding Plane.read Plane.put
plane_read c d e m n x found passes rd = record {
  result = Plane.put d e.address.block rd.result;
  returns = rw (passes, found, ◌>>=◌, rd.returns);
  succeeds = rd.succeeds;
  points = rd.points;
}

pub Plane-ReadsBack :
    (c : Config) (d : Plane) (e : Event) (m : Memory) (r : Done Plane)
    → Plane.write c d e m ≡ ok r
    → ReadsBack c e m r (Plane.read c r.self)
Plane-ReadsBack c d e m r h =
    let (x, s, found, served, passes, size, array, memory) = plane_parts c d e m r h in
    let back = Block-ReadsBack c x e m s served in
    record {
      stored = back.stored;
      copies = back.copies;
      stores = rw memory back.stores;
      reads = λ e' m' n same pointed.
          plane_read c r.self e' m' n s.self
            (rw (array, same)
              (get_elem?-set_self d.blocks e.address.block s.self
                (lt-length_of_get_elem? d.blocks e.address.block x found)))
            (rw (size, same) passes) (back.reads e' m' n same pointed);
    }
