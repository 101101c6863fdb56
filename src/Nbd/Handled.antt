-- ===== src/Nbd/Handled.antt =====
-- The requests of OriginalFlashSim/nbd_server.cpp against the answers of a block device.
use test_flash_sim.Base.{
  ℕ, ◌+◌, ◌*◌, ◌/◌, ◌%◌, ◌≤◌, ◌<◌, ◌≡◌, ◌≢◌, ◌⊎◌, ◌∙◌, inl, inr, refl, sym, ap, subst, true, List,
  [], ◌∷◌, ◌++◌, ok, some, arith, length, get_elem?, get_elem?_of_lt, length-set, replicate, take,
  drop, overlay, overwrite, overlay_whole, length-overwrite, Bool-cases, ◌==◌,
}
use mathlib.Core.List.{append_assoc}
use test_flash_sim.Bridge.{
  Circuit, Bridge, sim_set_io_trigger, sim_set_io_cmd, sim_set_validated_zone_id,
  sim_get_out_status,
}
use test_flash_sim.Nbd.{
  Disk, Host, Request, Server, cmd_read, cmd_write, cmd_disconnect, cmd_flush, cmd_trim, reply,
  send, target_zone_id, target_page,
}
use test_flash_sim.Nbd.Requests.{
  stored, store, align, submit, release, handle_read, receive, wait, handle_write, handle_trim,
  dispatch,
}
use test_flash_sim.Nbd.Answers.{aligned, Answers}
use test_flash_sim.Nbd.Words.{
  num_words, num_words-status, num_words-trigger, num_words-cmd, num_words-zone, num_words-submit,
  num_words-release, num_words-wait,
}

-- The bytes of a request are on the disk, and its zone has a word.
pub record IsInside (d : Disk) (size words : ℕ) (r : Request) : Type 0 where
  pub on_disk : r.from + r.len ≤ size
  pub in_table : target_zone_id d r < words

module _ {C X : Type 0} (c : Circuit C) (d : Disk) (h : Host X) (unset : ℕ → List ℕ) where
  -- What follows a request in the stream: the bytes to write, all of them.
  abbrev pub Follows : Request → X → List ℕ → X → Type 0
  Follows r x bytes y =
      ((r.type ≡ cmd_write)
        × (receive c d h unset r.len r.len x ≡ (bytes, y))
        × (length bytes ≡ r.len))
      ⊎ ((r.type ≢ cmd_write) × (x ≡ y))

  -- What a request does that is answered.
  pub record Handles (r : Request) (bytes : List ℕ) (y : X) (s t : Server C X) : Type 0 where
    pub out : List (List ℕ)
    pub answers :
        Answers c d h unset r bytes s.user_disk_storage s.bridge t.user_disk_storage t.bridge out
    pub sends : t.sent ≡ s.sent ++ out
    pub socket : t.socket ≡ y
    pub same_request : t.request ≡ s.request
    pub same_size : length t.user_disk_storage ≡ length s.user_disk_storage
    pub same_words : num_words t.bridge ≡ num_words s.bridge

  handle_read-Handles :
      (r : Request) (bytes : List ℕ) (s : Server C X)
      → IsInside d (length s.user_disk_storage) (num_words s.bridge) r
      → r.type ≡ cmd_read
      → (t : Server C X) × (handle_read c d h unset r s ≡ ok t) × Handles r bytes s.socket s t
  unfolding handle_read stored send
  handle_read-Handles r bytes s inside type =
      let polled = sim_get_out_status c (submit c d h unset 0 r s.bridge) in
      let t = record s { bridge = release c d h unset polled.1 } in
      let words : num_words t.bridge ≡ num_words s.bridge =
        num_words-release c d h unset polled.1
        ∙ num_words-status c (submit c d h unset 0 r s.bridge)
        ∙ num_words-submit c d h unset 0 r s.bridge in
      let content = take r.len (drop r.from s.user_disk_storage) in
      let on_disk = inside.on_disk in
      elim (Bool-cases (polled.0 == 1)) [
        | inl refused ↦ (
          send (reply h.eio r) t,
          ground (arith, refused),
          record {
            out = reply h.eio r ∷ [];
            answers = Answers.refuses polled type refl (ground (arith, refused));
            sends = refl;
            socket = refl;
            same_request = refl;
            same_size = refl;
            same_words = words;
          },
        )
        | inr accepted ↦ (
          send content (send (reply 0 r) t),
          ground (arith, accepted, on_disk),
          record {
            out = reply 0 r ∷ content ∷ [];
            answers = Answers.reads polled type refl (ground (arith, accepted));
            sends = append_assoc s.sent (reply 0 r ∷ []) (content ∷ []);
            socket = refl;
            same_request = refl;
            same_size = refl;
            same_words = words;
          },
        )
      ]

  -- The word of the zone is aligned, and the array keeps its size.
  align_runs :
      (r : Request) (words : List ℕ)
      → target_zone_id d r < length words
      → (m : ℕ) × (get_elem? words (target_zone_id d r) ≡ some m)
        × (align (target_zone_id d r) (target_page d r) words ≡ ok (aligned c d h unset r m words))
        × (length (aligned c d h unset r m words) ≡ length words)
  unfolding align
  align_runs r words inside =
      let (m, found) = get_elem?_of_lt words (target_zone_id d r) inside in
      (
        m,
        found,
        ground (arith, found),
        length-set words (target_zone_id d r) (m / 65536 % 256 * 65536 + target_page d r % 128),
      )

  handle_write_aligned :
      (r : Request) (bytes words : List ℕ) (y : X) (s : Server C X)
      → ((n : ℕ) → length (unset n) ≡ n)
      → r.from + r.len ≤ length s.user_disk_storage
      → align (target_zone_id d r) (target_page d r) s.bridge.mock_bram_storage ≡ ok words
      → receive c d h unset r.len r.len s.socket ≡ (bytes, y)
      → length bytes ≡ r.len
      → let waited = wait c d h unset r words s.bridge in
        (disk : List ℕ) × (handle_write c d h unset r s
          ≡ ok (
              send
                (reply 0 r)
                (record s { socket = y; bridge = waited.1; user_disk_storage = disk })))
        × (((waited.0 ≡ 1) × (disk ≡ s.user_disk_storage))
            ⊎ ((waited.0 ≢ 1) × (disk ≡ overwrite r.from bytes s.user_disk_storage)))
  unfolding handle_write store send
  handle_write_aligned r bytes words y s unset_size on_disk ran received whole =
      let waited = wait c d h unset r words s.bridge in
      let all : overlay bytes (unset r.len) ≡ bytes =
        overlay_whole bytes (unset r.len) (whole ∙ sym (unset_size r.len)) in
      elim (Bool-cases (waited.0 == 1)) [
        | inl refused ↦ (
          s.user_disk_storage,
          ground (arith, ran, received, refused),
          inl (ground (arith, refused), refl),
        )
        | inr accepted ↦ (
          overwrite r.from bytes s.user_disk_storage,
          ground (arith, ran, received, accepted, all, on_disk),
          inr (ground (arith, accepted), refl),
        )
      ]

  -- Let the bytes of a write arrive, all of them, and lie on the disk, and its zone have a
  -- word. The write is acknowledged with error 0 on any circuit, and leaves the bridge that
  -- waiting for it leaves, on the zone table in which the word of the zone keeps its erase
  -- count and has the page of the request as its write pointer, and no other word is changed.
  -- If the status with which that waiting ends is 1, the disk stays as it was; if not, also
  -- where the circuit never answered 3, the bytes are on the disk.
  pub handle_write_ends :
      (r : Request) (bytes : List ℕ) (y : X) (s : Server C X)
      → ((n : ℕ) → length (unset n) ≡ n)
      → IsInside d (length s.user_disk_storage) (num_words s.bridge) r
      → receive c d h unset r.len r.len s.socket ≡ (bytes, y)
      → length bytes ≡ r.len
      → (m : ℕ) × (waited : ℕ × Bridge C) × (t : Server C X) × (get_elem? s.bridge.mock_bram_storage
            (target_zone_id d r)
          ≡ some m)
        × (waited
            ≡ wait c d h unset r (aligned c d h unset r m s.bridge.mock_bram_storage) s.bridge)
        × (handle_write c d h unset r s ≡ ok t)
        × (t.bridge ≡ waited.1)
        × (t.sent ≡ s.sent ++ reply 0 r ∷ [])
        × (t.socket ≡ y)
        × (t.request ≡ s.request)
        × (num_words t.bridge ≡ num_words s.bridge)
        × (((waited.0 ≡ 1) × (t.user_disk_storage ≡ s.user_disk_storage))
            ⊎ ((waited.0 ≢ 1) × (t.user_disk_storage ≡ overwrite r.from bytes s.user_disk_storage)))
  unfolding send
  handle_write_ends r bytes y s unset_size inside received whole =
      let (m, found, ran, size) = align_runs r s.bridge.mock_bram_storage inside.in_table in
      let words = aligned c d h unset r m s.bridge.mock_bram_storage in
      let waited = wait c d h unset r words s.bridge in
      let (disk, went, ends) =
        handle_write_aligned r bytes words y s unset_size inside.on_disk ran received whole in
      (
        m,
        waited,
        send (reply 0 r) (record s { socket = y; bridge = waited.1; user_disk_storage = disk }),
        found,
        refl,
        went,
        refl,
        refl,
        refl,
        refl,
        num_words-wait c d h unset r words s.bridge ∙ size,
        ends,
      )

  handle_trim-Handles :
      (r : Request) (bytes : List ℕ) (s : Server C X)
      → IsInside d (length s.user_disk_storage) (num_words s.bridge) r
      → r.type ≡ cmd_trim
      → (t : Server C X) × (handle_trim c d h unset r s ≡ ok t) × Handles r bytes s.socket s t
  unfolding handle_trim store send
  handle_trim-Handles r bytes s inside type =
      let commanded = sim_set_io_cmd c 2 s.bridge in
      let zoned = sim_set_validated_zone_id c (target_zone_id d r) commanded in
      let submitted = sim_set_io_trigger c 1 zoned in
      let polled = sim_get_out_status c submitted in
      let zeros : List ℕ = replicate r.len 0 in
      let on_disk = inside.on_disk in
      (
        send (reply 0 r) (record s {
          bridge = release c d h unset polled.1;
          user_disk_storage = overwrite r.from zeros s.user_disk_storage;
        }),
        ground (arith, on_disk),
        record {
          out = reply 0 r ∷ [];
          answers = Answers.trims type;
          sends = refl;
          socket = refl;
          same_request = refl;
          same_size = length-overwrite r.from zeros s.user_disk_storage;
          same_words =
              num_words-release c d h unset polled.1
              ∙ num_words-status c submitted
              ∙ num_words-trigger c 1 zoned
              ∙ num_words-zone c (target_zone_id d r) commanded
              ∙ num_words-cmd c 2 s.bridge;
        },
      )

  handle_write-Handles :
      (r : Request) (bytes : List ℕ) (y : X) (s : Server C X)
      → ((n : ℕ) → length (unset n) ≡ n)
      → IsInside d (length s.user_disk_storage) (num_words s.bridge) r
      → r.type ≡ cmd_write
      → receive c d h unset r.len r.len s.socket ≡ (bytes, y)
      → length bytes ≡ r.len
      → (t : Server C X) × (handle_write c d h unset r s ≡ ok t) × Handles r bytes y s t
  handle_write-Handles r bytes y s unset_size inside type received whole =
      let (m, waited, t, found, is_wait, ran, bridge, sends, socket, request, words, ends) =
        handle_write_ends r bytes y s unset_size inside received whole in
      let handled =
        λ (disk : List ℕ) (same : t.user_disk_storage ≡ disk)
            (size : length disk ≡ length s.user_disk_storage)
            (answers : Answers c d h unset r bytes s.user_disk_storage s.bridge disk waited.1
              (reply 0 r ∷ [])).
          let kept : Handles r bytes y s t = record {
            out = reply 0 r ∷ [];
            answers =
                subst
                  (λ (x : Bridge C).
                    Answers c d h unset r bytes s.user_disk_storage s.bridge t.user_disk_storage x
                      (reply 0 r ∷ []))
                  (sym bridge)
                  (subst
                    (λ (x : List ℕ).
                      Answers c d h unset r bytes s.user_disk_storage s.bridge x waited.1
                        (reply 0 r ∷ []))
                    (sym same) answers);
            sends = sends;
            socket = socket;
            same_request = request;
            same_size = ap length same ∙ size;
            same_words = words;
          } in
          kept in
      (
        t,
        ran,
        elim ends [
          | inl (refused, same) ↦
              handled s.user_disk_storage same refl
                (Answers.drops m waited type found is_wait refused)
          | inr (accepted, new) ↦
              handled (overwrite r.from bytes s.user_disk_storage) new
                (length-overwrite r.from bytes s.user_disk_storage)
                (Answers.writes m waited type found is_wait accepted)
        ],
      )

  unread-Handles :
      (r : Request) (bytes : List ℕ) (s : Server C X) (error : ℕ)
      → Answers c d h unset r bytes s.user_disk_storage s.bridge s.user_disk_storage s.bridge
          (reply error r ∷ [])
      → Handles r bytes s.socket s (send (reply error r) s)
  unfolding send
  unread-Handles r bytes s error answers = record {
    out = reply error r ∷ [];
    answers = answers;
    sends = refl;
    socket = refl;
    same_request = refl;
    same_size = refl;
    same_words = refl;
  }

  dispatch_unfollowed :
      (r : Request) (bytes : List ℕ) (s : Server C X)
      → IsInside d (length s.user_disk_storage) (num_words s.bridge) r
      → r.type ≢ cmd_disconnect
      → r.type ≢ cmd_write
      → (t : Server C X) × (dispatch c d h unset r s ≡ ok (true, t)) × Handles r bytes s.socket s t
  unfolding dispatch
  dispatch_unfollowed r bytes s inside stays unwritten = elim (Bool-cases (r.type == cmd_read)) [
    | inl read ↦
        let (t, ran, handled) = handle_read-Handles r bytes s inside (ground (arith, read)) in
        (t, ground (arith, read, ran), handled)
    | inr not_read ↦ elim (Bool-cases (r.type == cmd_trim)) [
      | inl trim ↦
          let (t, ran, handled) = handle_trim-Handles r bytes s inside (ground (arith, trim)) in
          (t, ground (arith, not_read, trim, ran, unwritten), handled)
      | inr not_trim ↦ elim (Bool-cases (r.type == cmd_flush)) [
        | inl flush ↦ (
          send (reply 0 r) s,
          ground (arith, not_read, not_trim, flush, unwritten, stays),
          unread-Handles r bytes s 0 (Answers.flushes (ground (arith, flush))),
        )
        | inr not_flush ↦ (
          send (reply h.einval r) s,
          ground (arith, not_read, not_trim, not_flush, unwritten, stays),
          unread-Handles r bytes s h.einval (
              Answers.rejects (ground (arith, not_read)) unwritten (ground (arith, not_trim))
                (ground (arith, not_flush))),
        )
      ]
    ]
  ]

  pub dispatch-Handles :
      (r : Request) (bytes : List ℕ) (y : X) (s : Server C X)
      → ((n : ℕ) → length (unset n) ≡ n)
      → IsInside d (length s.user_disk_storage) (num_words s.bridge) r
      → r.type ≢ cmd_disconnect
      → Follows r s.socket bytes y
      → (t : Server C X) × (dispatch c d h unset r s ≡ ok (true, t)) × Handles r bytes y s t
  dispatch-Handles r bytes y s unset_size inside stays (inl (type, received, whole)) =
      let (t, ran, handled) =
        handle_write-Handles r bytes y s unset_size inside type received whole in
      (t, (unfold dispatch in ground (arith, type, ran)), handled)
  dispatch-Handles r bytes y s unset_size inside stays (inr (type, same)) =
      let (t, ran, handled) = dispatch_unfollowed r bytes s inside stays type in
      (t, ran, subst (λ (z : X). Handles r bytes z s t) same handled)
