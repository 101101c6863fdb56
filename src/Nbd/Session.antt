-- ===== src/Nbd/Session.antt =====
-- The sessions that a client has with the server of OriginalFlashSim/nbd_server.cpp.
use mathlib.Core.List.{append_assoc, append-nil}
use test_flash_sim.Base.{
  ℕ, suc, ◌≡◌, ◌≢◌, ◌∙◌, sym, ap, subst, true, false, List, [], ◌∷◌, ◌++◌, ok, arith, length,
  overlay_whole, All,
}
use test_flash_sim.Bridge.{Circuit}
use test_flash_sim.Nbd.{Disk, Host, Request, Server, request_magic, cmd_disconnect, decode}
use test_flash_sim.Nbd.Requests.{dispatch, step, handle_nbd_transmission_loop}
use test_flash_sim.Nbd.Words.{num_words}
use test_flash_sim.Nbd.Answers.{Session}
use test_flash_sim.Nbd.Handled.{IsInside, Follows, Handles, dispatch-Handles}

module _ {C X : Type 0} (c : Circuit C) (d : Disk) (h : Host X) (unset : ℕ → List ℕ) where
  -- The requests that arrive at the socket, whole, with the bytes to write, up to the end of the
  -- stream or a request to disconnect.
  pub data Arrives : X → List (Request × List ℕ) → Type 0 where
    ends : {x : X} → (h.recv 28 x).0 ≡ [] → Arrives x []
    leaves :
        {x : X}
        → length (h.recv 28 x).0 ≡ 28
        → (decode (h.recv 28 x).0).magic ≡ request_magic
        → (decode (h.recv 28 x).0).type ≡ cmd_disconnect
        → Arrives x []
    arrives :
        {x y : X} {r : Request} {bytes : List ℕ} {rest : List (Request × List ℕ)}
        → length (h.recv 28 x).0 ≡ 28
        → decode (h.recv 28 x).0 ≡ r
        → r.magic ≡ request_magic
        → r.type ≢ cmd_disconnect
        → Follows c d h unset r (h.recv 28 x).1 bytes y
        → Arrives y rest
        → Arrives x ((r, bytes) ∷ rest)

  -- Every request is on the disk and has a zone.
  abbrev pub IsInsideAll : ℕ → ℕ → List (Request × List ℕ) → Type 0
  IsInsideAll size words ops = All (λ op. IsInside d size words op.0) ops

  -- A request whose 28 bytes arrive is dispatched.
  step_whole :
      (s : Server C X)
      → length s.request ≡ 28
      → length (h.recv 28 s.socket).0 ≡ 28
      → (decode (h.recv 28 s.socket).0).magic ≡ request_magic
      → step c d h unset s
        ≡ dispatch c d h unset
            (decode (h.recv 28 s.socket).0)
            (record s { socket = (h.recv 28 s.socket).1; request = (h.recv 28 s.socket).0 })
  unfolding step
  step_whole s buffer whole magic =
      let all = overlay_whole (h.recv 28 s.socket).0 s.request (whole ∙ sym buffer) in
      ground (arith, all, whole, magic)

  -- A step on a request that arrives.
  step_arrived :
      (s : Server C X) (r : Request) (bytes : List ℕ) (y : X)
      → ((n : ℕ) → length (unset n) ≡ n)
      → length s.request ≡ 28
      → length (h.recv 28 s.socket).0 ≡ 28
      → decode (h.recv 28 s.socket).0 ≡ r
      → r.magic ≡ request_magic
      → r.type ≢ cmd_disconnect
      → Follows c d h unset r (h.recv 28 s.socket).1 bytes y
      → IsInside d (length s.user_disk_storage) (num_words s.bridge) r
      → (t : Server C X) × (step c d h unset s ≡ ok (true, t))
        × (length t.request ≡ 28)
        × Handles c d h unset r bytes y
            (record s { socket = (h.recv 28 s.socket).1; request = (h.recv 28 s.socket).0 })
            t
  step_arrived s r bytes y unset_size buffer whole same magic stays follows inside =
      let u = record s { socket = (h.recv 28 s.socket).1; request = (h.recv 28 s.socket).0 } in
      let (t, ran, handled) =
        dispatch-Handles c d h unset r bytes y u unset_size
          (record { on_disk = inside.on_disk; in_table = inside.in_table }) stays follows in
      (
        t,
        step_whole s buffer whole (ap (λ (x : Request). x.magic) same ∙ magic)
            ∙ ap (λ (x : Request). dispatch c d h unset x u) same
            ∙ ran,
        ap length handled.same_request ∙ whole,
        handled,
      )

  -- Let requests arrive at the socket whole, each write with all its bytes, up to the end of
  -- the stream or a request to disconnect; let all of them lie on the disk and in the zone
  -- table. Then the loop ends after one round for each request and one more, on any circuit.
  -- The replies that it sent, and the disk and the bridge that it left, are those of a block
  -- device that answers the requests in their order, each on the disk and the bridge that the
  -- one before it left (Nbd/Answers). A read is answered with its bytes if the status that is
  -- polled once it is submitted is not 1, and with EIO if it is 1. A write is acknowledged with
  -- error 0 in any case; the word of its zone is aligned first, and its bytes are on the disk
  -- if the status with which waiting for it ends is not 1, and dropped if it is 1. A trim
  -- clears its bytes whatever the status, and any other request leaves the disk and the bridge.
  pub handle_nbd_transmission_loop-Session :
      (s : Server C X) (ops : List (Request × List ℕ))
      → ((n : ℕ) → length (unset n) ≡ n)
      → length s.request ≡ 28
      → IsInsideAll (length s.user_disk_storage) (num_words s.bridge) ops
      → Arrives s.socket ops
      → (t : Server C X) × (outs : List (List ℕ)) × (handle_nbd_transmission_loop c d h unset
            (suc (length ops))
            s
          ≡ ok t)
        × Session c d h unset ops s.user_disk_storage s.bridge t.user_disk_storage t.bridge outs
        × (t.sent ≡ s.sent ++ outs)
  unfolding handle_nbd_transmission_loop
  handle_nbd_transmission_loop-Session s [] unset_size buffer inside (ends nothing) =
      let u = record s { socket = (h.recv 28 s.socket).1 } in
      let stops : step c d h unset s ≡ ok (false, u) = unfold step in ground (arith, nothing) in
      (u, [], ground (arith, stops), Session.over, sym (append-nil s.sent))
  handle_nbd_transmission_loop-Session s [] unset_size buffer inside (leaves whole magic type) =
      let r = decode (h.recv 28 s.socket).0 in
      let u = record s { socket = (h.recv 28 s.socket).1; request = (h.recv 28 s.socket).0 } in
      let stops : step c d h unset s ≡ ok (false, u) =
        step_whole s buffer whole magic ∙ (unfold dispatch in ground (arith, type)) in
      (u, [], ground (arith, stops), Session.over, sym (append-nil s.sent))
  handle_nbd_transmission_loop-Session s ((r, bytes) ∷ rest) unset_size buffer inside
        (arrives {y = y} whole same magic stays follows later) =
      let (t, ran, buffer', handled) =
        step_arrived s r bytes y unset_size buffer whole same magic stays follows inside.0 in
      let moved : IsInsideAll (length t.user_disk_storage) (num_words t.bridge) rest =
        subst (λ (n : ℕ). IsInsideAll n (num_words t.bridge) rest) (sym handled.same_size)
          (subst (λ (n : ℕ). IsInsideAll (length s.user_disk_storage) n rest)
            (sym handled.same_words) inside.1) in
      let (last, outs, went, session, sent) =
        handle_nbd_transmission_loop-Session t rest unset_size buffer' moved
          (subst (λ (z : X). Arrives z rest) (sym handled.socket) later) in
      (
        last,
        handled.out ++ outs,
        ground (arith, ran, went),
        Session.answered handled.answers session,
        sent
            ∙ ap (λ (xs : List (List ℕ)). xs ++ outs) handled.sends
            ∙ append_assoc s.sent handled.out outs,
      )
