-- ===== src/Nbd/Management.antt =====
-- A session of management_socket_thread of OriginalFlashSim/sim_main.cpp: a client sends the number
-- of a zone to reset, and one byte acknowledges.
use test_flash_sim.Base.{
  ℕ, zero, suc, ◌+◌, ◌-◌, ◌*◌, ◌/◌, ◌≤◌, ◌<◌, ◌≡◌, ◌∙◌, refl, sym, ap, true, false, Option, none,
  some, List, [], ◌∷◌, ◌++◌, Run, ok, abort, out_of_range, ◌>>=◌, if◌then◌else◌, ltb, ◌==◌, arith,
  length, get_elem?, replicate, overwrite, length-replicate, take, drop, take-overwrite, u32, u64,
  u32_mod,
}
use test_flash_sim.Bridge.{
  Circuit, bram_words, sim_set_io_trigger, sim_set_io_cmd, sim_set_validated_zone_id,
  sim_get_out_status,
}
use test_flash_sim.Nbd.{Disk, Host, Server, total_size_bytes, byte_at}
use test_flash_sim.Nbd.Requests.{release}

-- The 8 bytes of a number in the order of the host, the lowest first.
unfoldable pub zone_of_bytes : List ℕ → ℕ
unfolding byte_at
zone_of_bytes bytes =
    byte_at bytes 0
    + byte_at bytes 1 * 256
    + byte_at bytes 2 * 65536
    + byte_at bytes 3 * 16777216
    + (byte_at bytes 4
        + byte_at bytes 5 * 256
        + byte_at bytes 6 * 65536
        + byte_at bytes 7 * 16777216)
      * u32_mod

-- The size of a zone on the disk, in 64 bits.
unfoldable pub zone_size : Disk → ℕ
unfolding total_size_bytes
zone_size d = total_size_bytes d / d.num_zones

module _ {C X : Type 0} (c : Circuit C) (d : Disk) (h : Host X) (unset : ℕ → List ℕ) where
  -- The loop that receives: it fails if the stream ends before as many bytes as are missing.
  unfoldable pub receive_zone : ℕ → ℕ → X → Option (List ℕ)
  receive_zone zero missing x = some []
  receive_zone (suc fuel) missing x = elim (missing == 0) [
    | true ↦ some []
    | false ↦ elim (h.recv missing x).0 [
      | [] ↦ none
      | b ∷ bytes ↦ elim (receive_zone fuel (missing - suc (length bytes)) (h.recv missing x).1) [
        | none ↦ none
        | some later ↦ some (b ∷ bytes ++ later)
      ]
    ]
  ]

  -- The reset on the circuit; then all words of the table become 0, and the bytes of the zone.
  unfoldable pub reset_zone : ℕ → Server C X → Run (Server C X)
  unfolding sim_set_io_trigger sim_set_validated_zone_id sim_set_io_cmd sim_get_out_status release
      zone_size
  reset_zone zone s =
      let submitted =
        sim_set_io_trigger c 1
          (sim_set_validated_zone_id c (u32 zone) (sim_set_io_cmd c 2 s.bridge)) in
      let finished = release c d h unset (sim_get_out_status c submitted).1 in
      let start = u64 (zone * zone_size d) in
      if ltb (length s.user_disk_storage) (start + zone_size d)
      then abort out_of_range
      else ok (record s {
        bridge = record finished { mock_bram_storage = replicate bram_words 0 };
        user_disk_storage = overwrite start (replicate (zone_size d) 0) s.user_disk_storage;
      })

  -- A client of the management socket, with the byte that it is sent.
  unfoldable pub manage : X → Server C X → Run (Option ℕ × Server C X)
  unfolding receive_zone zone_of_bytes reset_zone
  manage x s = elim (receive_zone 8 8 x) [
    | none ↦ ok (none, s)
    | some bytes ↦ do t ← reset_zone (zone_of_bytes bytes) s; ok (some 1, t)
  ]

get_elem?-replicate_zero : (n i : ℕ) → i < n → get_elem? {A = ℕ} (replicate n 0) i ≡ some 0
get_elem?-replicate_zero zero i h = absurd (omega arith)
get_elem?-replicate_zero (suc n) zero h = refl
get_elem?-replicate_zero (suc n) (suc i) h = get_elem?-replicate_zero n i (omega arith)

module _ {C X : Type 0} (c : Circuit C) (d : Disk) (h : Host X) (unset : ℕ → List ℕ) where
  -- A client of the management socket that sends the number of a zone of the disk is
  -- acknowledged. Then the bytes of the zone are 0, but so is the word of every zone in the
  -- table, and not only that of the zone.
  pub manage_resets_all :
      (x : X) (bytes : List ℕ) (s : Server C X) (other : ℕ)
      → receive_zone c d h unset 8 8 x ≡ some bytes
      → u64 (zone_of_bytes bytes * zone_size d) + zone_size d ≤ length s.user_disk_storage
      → other < bram_words
      → (t : Server C X) × (manage c d h unset x s ≡ ok (some 1, t))
        × (take (zone_size d) (drop (u64 (zone_of_bytes bytes * zone_size d)) t.user_disk_storage)
            ≡ replicate (zone_size d) 0)
        × (get_elem? t.bridge.mock_bram_storage other ≡ some 0)
  unfolding manage reset_zone
  manage_resets_all x bytes s other received inside table =
      let submitted =
        sim_set_io_trigger c 1
          (sim_set_validated_zone_id c (u32 (zone_of_bytes bytes)) (sim_set_io_cmd c 2 s.bridge)) in
      let finished = release c d h unset (sim_get_out_status c submitted).1 in
      let start = u64 (zone_of_bytes bytes * zone_size d) in
      let zeros : List ℕ = replicate (zone_size d) 0 in
      let size : length zeros ≡ zone_size d = length-replicate (zone_size d) 0 in
      (
        record s {
          bridge = record finished { mock_bram_storage = replicate bram_words 0 };
          user_disk_storage = overwrite start zeros s.user_disk_storage;
        },
        ground (arith, received, inside),
        ap (λ (n : ℕ). take n (drop start (overwrite start zeros s.user_disk_storage))) (sym size)
            ∙ take-overwrite start zeros s.user_disk_storage (omega (arith, size, inside)),
        get_elem?-replicate_zero bram_words other table,
      )
