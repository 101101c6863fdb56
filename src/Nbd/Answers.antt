-- ===== src/Nbd/Answers.antt =====
-- What a client may see of the server of OriginalFlashSim/nbd_server.cpp: a block device whose
-- circuit may refuse a read or drop a write.
use test_flash_sim.Base.{
  ℕ, ◌+◌, ◌*◌, ◌/◌, ◌%◌, ◌≡◌, ◌≢◌, List, [], ◌∷◌, ◌++◌, some, get_elem?, set, replicate, take, drop,
  overwrite,
}
use test_flash_sim.Bridge.{
  Circuit, Bridge, sim_set_io_trigger, sim_set_io_cmd, sim_set_validated_zone_id,
  sim_get_out_status,
}
use test_flash_sim.Nbd.{
  Disk, Host, Request, cmd_read, cmd_write, cmd_flush, cmd_trim, reply, target_zone_id, target_page,
}
use test_flash_sim.Nbd.Requests.{submit, release, wait}

module _ {C X : Type 0} (c : Circuit C) (d : Disk) (h : Host X) (unset : ℕ → List ℕ) where
  -- The words of the zone table with that of the request's zone, which holds m, aligned: its
  -- erase count stays and its write pointer is the page of the request.
  abbrev pub aligned : Request → ℕ → List ℕ → List ℕ
  aligned r m words =
      set words (target_zone_id d r) (m / 65536 % 256 * 65536 + target_page d r % 128)

  -- The answer to a request with the bytes that follow it, on a disk and a circuit with its zone
  -- table: the disk, the circuit and the table that it leaves, and what is sent. The circuit is
  -- asked whether a read or a write is refused, and the status 1 alone refuses it.
  pub data Answers (r : Request) (bytes disk : List ℕ) (b : Bridge C)
      : List ℕ → Bridge C → List (List ℕ) → Type 0 where
    reads :
        (polled : ℕ × Bridge C)
        → r.type ≡ cmd_read
        → polled ≡ sim_get_out_status c (submit c d h unset 0 r b)
        → polled.0 ≢ 1
        → Answers r bytes disk b disk
            (release c d h unset polled.1)
            (reply 0 r ∷ take r.len (drop r.from disk) ∷ [])
    refuses :
        (polled : ℕ × Bridge C)
        → r.type ≡ cmd_read
        → polled ≡ sim_get_out_status c (submit c d h unset 0 r b)
        → polled.0 ≡ 1
        → Answers r bytes disk b disk (release c d h unset polled.1) (reply h.eio r ∷ [])
    writes :
        (m : ℕ) (waited : ℕ × Bridge C)
        → r.type ≡ cmd_write
        → get_elem? b.mock_bram_storage (target_zone_id d r) ≡ some m
        → waited ≡ wait c d h unset r (aligned r m b.mock_bram_storage) b
        → waited.0 ≢ 1
        → Answers r bytes disk b (overwrite r.from bytes disk) waited.1 (reply 0 r ∷ [])
    drops :
        (m : ℕ) (waited : ℕ × Bridge C)
        → r.type ≡ cmd_write
        → get_elem? b.mock_bram_storage (target_zone_id d r) ≡ some m
        → waited ≡ wait c d h unset r (aligned r m b.mock_bram_storage) b
        → waited.0 ≡ 1
        → Answers r bytes disk b disk waited.1 (reply 0 r ∷ [])
    trims :
        r.type ≡ cmd_trim
        → Answers r bytes disk b
            (overwrite r.from (replicate r.len 0) disk)
            (release c d h unset
              (sim_get_out_status c (
                sim_set_io_trigger c 1
                  (sim_set_validated_zone_id c (target_zone_id d r) (sim_set_io_cmd c 2 b)))).1)
            (reply 0 r ∷ [])
    flushes : r.type ≡ cmd_flush → Answers r bytes disk b disk b (reply 0 r ∷ [])
    rejects :
        r.type ≢ cmd_read
        → r.type ≢ cmd_write
        → r.type ≢ cmd_trim
        → r.type ≢ cmd_flush
        → Answers r bytes disk b disk b (reply h.einval r ∷ [])

  -- The answers to requests, one after the other, each on the disk and the circuit that the one
  -- before it left.
  pub data Session
      : List (Request × List ℕ)
        → List ℕ
        → Bridge C
        → List ℕ
        → Bridge C
        → List (List ℕ)
        → Type 0 where
    over : {disk : List ℕ} {b : Bridge C} → Session [] disk b disk b []
    answered :
        {r : Request} {bytes : List ℕ} {rest : List (Request × List ℕ)} {before disk after : List ℕ}
        {b mid last : Bridge C} {out outs : List (List ℕ)}
        → Answers r bytes before b disk mid out
        → Session rest disk mid after last outs
        → Session ((r, bytes) ∷ rest) before b after last (out ++ outs)
