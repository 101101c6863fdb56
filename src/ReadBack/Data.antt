-- ===== src/ReadBack/Data.antt =====
-- Read back from the disk (OriginalFlashSim/ssd_ssd.cpp, ssd_page.cpp).
use test_flash_sim.Base.{
  ℕ, ◌<◌, ◌≤◌, ◌≡◌, ◌≢◌, ◌∙◌, ap, sym, true, false, some, List, ok, success, length, length-set,
  take, set, get_elem?, get_elem?-set_self, get_elem?-set_ne,
}
use test_flash_sim.Config.{Config}
use test_flash_sim.Event.{Event}
use test_flash_sim.Memory.{Memory}
use test_flash_sim.Page.{Done}
use test_flash_sim.Ssd.{Ssd}
use test_flash_sim.Ssd
use test_flash_sim.ReadBack.{buffer_points, payload_stored}
use test_flash_sim.ReadBack.Device.{Ssd-ReadsBack}

-- What the disk writes it reads back. Let a write of a payload, not a noop, return on a disk
-- that stores data. Then its address lies in the data area and the payload has at least a page
-- of bytes. After it a read of the same address that is not a noop returns with success, the
-- buffer pointing at the page of that address and the first page of bytes of the payload there.
-- At every other address the data area is what it was before the write.
pub write-read :
    (c : Config) (d : Ssd) (e e' : Event) (m : Memory) (r : Done Ssd) (bytes : List ℕ)
    → c.page_enable_data ≡ true
    → e.payload ≡ some bytes
    → e.noop ≡ false
    → e'.noop ≡ false
    → e'.address ≡ e.address
    → Ssd.write c d e m ≡ ok r
    → (e.address.real_address < length m.page_data)
      × (c.page_size ≤ length bytes)
      × ((r' : Done Ssd) × (Ssd.read c r.self e' r.memory ≡ ok r')
          × (r'.status ≡ success)
          × (r'.memory.global_buffer ≡ some e.address.real_address)
          × (get_elem? r'.memory.page_data e.address.real_address ≡ some (take c.page_size bytes))
          × ((i : ℕ)
              → i ≢ e.address.real_address
              → get_elem? r'.memory.page_data i ≡ get_elem? m.page_data i))
write-read c d e e' m r bytes data_on payload real real' same h =
    let back = Ssd-ReadsBack c d e m r h in
    let address = e.address.real_address in
    let (area, whole, content) =
      payload_stored c e m back.stored bytes data_on payload real back.copies in
    let written : r.memory.page_data ≡ set m.page_data address (take c.page_size bytes) =
      back.stores ∙ content in
    let kept : length r.memory.page_data ≡ length m.page_data =
      ap length written ∙ length-set m.page_data address (take c.page_size bytes) in
    let aimed : e'.address.real_address ≡ address = ap (λ a. a.real_address) same in
    let n = record r.memory { global_buffer = some e'.address.real_address } in
    let pointed = buffer_points c e' r.memory data_on real' (rw (aimed, kept) area) in
    let rd = back.reads e' r.memory n same pointed in
    let left : rd.result.memory.page_data ≡ set m.page_data address (take c.page_size bytes) =
      ap (λ x. x.page_data) rd.points ∙ written in
    (
      area,
      whole,
      (
        rd.result,
        rd.returns,
        rd.succeeds,
        ap (λ x. x.global_buffer) rd.points ∙ ap some aimed,
        ap (λ xs. get_elem? xs address) left
            ∙ get_elem?-set_self m.page_data address (take c.page_size bytes) area,
        λ i other.
            ap (λ xs. get_elem? xs i) left
            ∙ get_elem?-set_ne m.page_data address i (take c.page_size bytes)
                (λ is. other (sym is)),
      ),
    )
