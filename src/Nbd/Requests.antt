-- ===== src/Nbd/Requests.antt =====
-- handle_nbd_transmission_loop of OriginalFlashSim/nbd_server.cpp.
use test_flash_sim.Base.{
  ℕ, zero, suc, ◌+◌, ◌-◌, ◌*◌, ◌/◌, ◌%◌, Bool, true, false, ◌||◌, List, [], ◌∷◌, ◌++◌, Run, ok,
  abort, out_of_range, out_of_fuel, fetch, ◌>>=◌, if◌then◌else◌, ltb, ◌==◌, length, replicate, set,
  take, drop, overlay, overwrite,
}
use test_flash_sim.Bridge.{
  Circuit, Bridge, verilator_tick_hardware, sim_set_io_trigger, sim_set_io_cmd,
  sim_set_validated_target_page, sim_set_validated_zone_id, sim_get_out_status,
}
use test_flash_sim.Nbd.{
  Disk, Host, Request, Server, request_magic, cmd_read, cmd_write, cmd_disconnect, cmd_flush,
  cmd_trim, decode, reply, send, target_zone_id, target_page,
}

-- Bytes of `user_disk_storage` from a place on, which lie in the array.
unfoldable pub stored : {C X : Type 0} → Request → Server C X → Run (List ℕ)
stored r s =
    if ltb (length s.user_disk_storage) (r.from + r.len)
    then abort out_of_range
    else ok (take r.len (drop r.from s.user_disk_storage))

-- `memcpy` and `memset` into it.
unfoldable pub store : {C X : Type 0} → Request → List ℕ → Server C X → Run (Server C X)
store r bytes s =
    if ltb (length s.user_disk_storage) (r.from + r.len)
    then abort out_of_range
    else ok (record s { user_disk_storage = overwrite r.from bytes s.user_disk_storage })

-- The erase count of the zone stays, and its write pointer becomes the page of the request.
unfoldable pub align : ℕ → ℕ → List ℕ → Run (List ℕ)
align zone page words = do
  current_meta ← fetch words zone
  ok (set words zone (current_meta / 65536 % 256 * 65536 + page % 128))

module _ {C X : Type 0} (c : Circuit C) (d : Disk) (h : Host X) (unset : ℕ → List ℕ) where
  -- The command, the zone and the page on the bus, and the trigger.
  unfoldable pub submit : ℕ → Request → Bridge C → Bridge C
  unfolding sim_set_io_cmd sim_set_validated_zone_id sim_set_validated_target_page
      sim_set_io_trigger target_zone_id target_page
  submit cmd r b = sim_set_io_trigger c 1 (
      sim_set_validated_target_page c (target_page d r)
        (sim_set_validated_zone_id c (target_zone_id d r) (sim_set_io_cmd c cmd b)))

  -- The trigger goes, and the circuit ticks once more.
  unfoldable pub release : Bridge C → Bridge C
  unfolding sim_set_io_trigger verilator_tick_hardware
  release b = verilator_tick_hardware c (sim_set_io_trigger c 0 b)

  unfoldable pub handle_read : Request → Server C X → Run (Server C X)
  unfolding submit release sim_get_out_status send reply stored
  handle_read r s =
      let polled = sim_get_out_status c (submit 0 r s.bridge) in
      let t = record s { bridge = release polled.1 } in
      if polled.0 == 1
      then ok (send (reply h.eio r) t)
      else (do bytes ← stored r t; ok (send bytes (send (reply 0 r) t)))

  -- The loop that receives the bytes to write: each `read` that goes on returns one at least.
  unfoldable pub receive : ℕ → ℕ → X → List ℕ × X
  receive zero missing x = ([], x)
  receive (suc fuel) missing x = elim (missing == 0) [
    | true ↦ ([], x)
    | false ↦ elim (h.recv missing x).0 [
      | [] ↦ ([], (h.recv missing x).1)
      | b ∷ bytes ↦
          let later = receive fuel (missing - suc (length bytes)) (h.recv missing x).1 in
          (b ∷ bytes ++ later.0, later.1)
    ]
  ]

  -- At most `n` ticks, until the circuit answers 3 or 1.
  unfoldable pub poll : ℕ → ℕ → Bridge C → ℕ × Bridge C
  unfolding sim_get_out_status
  poll zero status b = (status, b)
  poll (suc n) status b =
      let polled = sim_get_out_status c b in
      elim (polled.0 == 3 || polled.0 == 1) [ true ↦ polled | false ↦ poll n polled.0 polled.1 ]

  -- The write is submitted and waited for, once the word of the zone is aligned.
  unfoldable pub wait : Request → List ℕ → Bridge C → ℕ × Bridge C
  unfolding submit poll release
  wait r words b =
      let polled = poll 10 0 (submit 1 r (record b { mock_bram_storage = words })) in
      (polled.0, release polled.1)

  -- `write_buf`, whose bytes are unset where none was received.
  unfoldable pub handle_write : Request → Server C X → Run (Server C X)
  unfolding receive align wait send reply store target_zone_id target_page
  handle_write r s = do
    let received = receive r.len r.len s.socket
    let write_buf = overlay received.0 (unset r.len)
    words ← align (target_zone_id d r) (target_page d r) s.bridge.mock_bram_storage
    let waited = wait r words s.bridge
    let t = record s { socket = received.1; bridge = waited.1 }
    if waited.0 == 1
        then ok (send (reply 0 r) t)
        else (do u ← store r write_buf t; ok (send (reply 0 r) u))

  -- The page of the bus stays what it was.
  unfoldable pub handle_trim : Request → Server C X → Run (Server C X)
  unfolding sim_set_io_cmd sim_set_validated_zone_id sim_set_io_trigger sim_get_out_status release
      target_zone_id send reply store
  handle_trim r s = do
    let submitted =
        sim_set_io_trigger c 1
          (sim_set_validated_zone_id c (target_zone_id d r) (sim_set_io_cmd c 2 s.bridge))
    let t = record s { bridge = release (sim_get_out_status c submitted).1 }
    u ← store r (replicate r.len 0) t
    ok (send (reply 0 r) u)

  -- A request, and whether the loop goes on.
  unfoldable pub dispatch : Request → Server C X → Run (Bool × Server C X)
  unfolding handle_read handle_write handle_trim send reply
  dispatch r s =
      if r.type == cmd_read
      then (do t ← handle_read r s; ok (true, t))
      else (if r.type == cmd_write
          then (do t ← handle_write r s; ok (true, t))
          else (if r.type == cmd_trim
              then (do t ← handle_trim r s; ok (true, t))
              else (if r.type == cmd_disconnect
                  then ok (false, s)
                  else (if r.type == cmd_flush
                      then ok (true, send (reply 0 r) s)
                      else ok (true, send (reply h.einval r) s)))))

  -- The body of the loop.
  unfoldable pub step : Server C X → Run (Bool × Server C X)
  step s = elim (h.recv 28 s.socket).0 [
    | [] ↦ ok (false, record s { socket = (h.recv 28 s.socket).1 })
    | b ∷ bytes ↦
        let request = overlay (b ∷ bytes) s.request in
        let t = record s { socket = (h.recv 28 s.socket).1; request = request } in
        if (decode request).magic == request_magic
        then dispatch (decode request) t
        else ok (false, t)
  ]

  -- At most `n` rounds of the loop.
  unfoldable pub handle_nbd_transmission_loop : ℕ → Server C X → Run (Server C X)
  unfolding step
  handle_nbd_transmission_loop zero s = abort out_of_fuel
  handle_nbd_transmission_loop (suc n) s = do
    (more, t) ← step s
    elim more [ false ↦ ok t | true ↦ handle_nbd_transmission_loop n t ]
