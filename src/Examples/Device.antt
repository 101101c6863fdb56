-- ===== src/Examples/Device.antt =====
-- A block device of sixteen bytes in two zones. The client writes two bytes, reads them back, and
-- ends the stream; the circuit answers 3 throughout.
use test_flash_sim.Base.{
  ℕ, ◌+◌, ◌≡◌, ◌≢◌, ◌⊎◌, refl, inl, inr, false, none, some, List, [], ◌∷◌, ◌++◌, ok, arith, length,
  length-replicate, replicate, take, drop, overwrite, get_elem?,
}
use test_flash_sim.Bridge.{Circuit, Bridge}
use test_flash_sim.Nbd.{
  Disk, Host, Request, Server, request_magic, cmd_write, cmd_read, htonl, htonll, byte_at, ntohl,
  ntohll, decode, reply, target_zone_id, zone_size_bytes, total_size_bytes,
}
use test_flash_sim.Nbd.Requests.{receive, wait, handle_write, handle_nbd_transmission_loop}
use test_flash_sim.Nbd.Codec.{encode, IsRequest, decode-encode}
use test_flash_sim.Nbd.Words.{num_words}
use test_flash_sim.Nbd.Answers.{aligned, Session}
use test_flash_sim.Nbd.Handled.{IsInside, handle_write_ends}
use test_flash_sim.Nbd.Management.{
  zone_of_bytes, zone_size, receive_zone, manage, manage_resets_all,
}
use test_flash_sim.Nbd.Session.{Arrives, handle_nbd_transmission_loop-Session}

abbrev pub ready : Circuit ℕ
ready = record {
  set_io_trigger = λ n s. s;
  set_io_cmd = λ n s. s;
  set_validated_target_page = λ n s. s;
  set_validated_zone_id = λ n s. s;
  set_bram_rdata = λ n s. s;
  set_thermal_shutdown_tripped = λ b s. s;
  set_addr_bound_error = λ n s. s;
  eval = λ n s. s + n;
  bram_addr = λ s. 0;
  bram_we = λ s. false;
  bram_wdata = λ s. 0;
  out_status = λ s. 3;
  out_err_code = λ s. 0;
}

abbrev disk : Disk
disk = record { num_zones = 2; zone_size_pages = 2; page_size = 4 }

-- A socket that delivers as many bytes as it is asked for and has.
abbrev host : Host (List ℕ)
host = record { recv = λ n x. (take n x, drop n x); eio = 5; einval = 22 }

abbrev unset : ℕ → List ℕ
unset n = replicate n 0

unset_size : (n : ℕ) → length (unset n) ≡ n
unset_size n = length-replicate n 0

abbrev write_request : Request
write_request = record {
  magic = request_magic;
  type = cmd_write;
  handle = 1 ∷ 2 ∷ 3 ∷ 4 ∷ 5 ∷ 6 ∷ 7 ∷ 8 ∷ [];
  from = 9;
  len = 2;
}

abbrev read_request : Request
read_request = record write_request { type = cmd_read }

write_request-IsRequest : IsRequest write_request
write_request-IsRequest = record {
  magic_fits = omega arith;
  type_fits = omega arith;
  from_fits = omega arith;
  len_fits = omega arith;
  whole = refl;
}

decode-encode_example : decode (encode write_request) ≡ write_request
decode-encode_example = decode-encode write_request write_request-IsRequest

-- The stream that the client sends.
stream : List ℕ
stream = encode write_request ++ (70 ∷ 71 ∷ []) ++ encode read_request

abbrev server : List ℕ → Server ℕ (List ℕ)
server x = record {
  socket = x;
  request = replicate 28 0;
  user_disk_storage = replicate 16 0;
  bridge = record {
    top = some 0;
    mock_bram_storage = 0 ∷ 0 ∷ [];
    bram_rdata_latch = 0;
    thermal = none;
  };
  sent = [];
}

inside : (r : Request) → r.from ≡ 9 → r.len ≡ 2 → IsInside disk 16 2 r
unfolding target_zone_id zone_size_bytes total_size_bytes
inside r from len = record { on_disk = omega (arith, from, len); in_table = ground (arith, from) }

handle_write_ends_example :
    (m : ℕ) × (waited : ℕ × Bridge ℕ) × (t : Server ℕ (List ℕ)) × (get_elem?
        (0 ∷ 0 ∷ [])
        (target_zone_id disk write_request)
      ≡ some m)
    × (waited
        ≡ wait ready disk host unset write_request
            (aligned ready disk host unset write_request m (0 ∷ 0 ∷ []))
            (server []).bridge)
    × (handle_write ready disk host unset write_request (server (70 ∷ 71 ∷ [])) ≡ ok t)
    × (t.bridge ≡ waited.1)
    × (t.sent ≡ [] ++ reply 0 write_request ∷ [])
    × (t.socket ≡ [])
    × (t.request ≡ replicate 28 0)
    × (num_words t.bridge ≡ 2)
    × (((waited.0 ≡ 1) × (t.user_disk_storage ≡ replicate 16 0))
        ⊎ ((waited.0 ≢ 1) × (t.user_disk_storage ≡ overwrite 9 (70 ∷ 71 ∷ []) (replicate 16 0))))
unfolding receive
handle_write_ends_example =
    handle_write_ends ready disk host unset write_request (70 ∷ 71 ∷ []) [] (server (70 ∷ 71 ∷ []))
      unset_size (inside write_request refl refl) refl refl

arriving :
    Arrives ready disk host unset stream ((write_request, 70 ∷ 71 ∷ []) ∷ (read_request, []) ∷ [])
unfolding stream encode decode htonl htonll byte_at ntohl ntohll receive
arriving =
    Arrives.arrives refl refl refl (omega arith) (inl (refl, refl, refl))
      (Arrives.arrives refl refl refl (omega arith) (inr (omega arith, refl)) (Arrives.ends refl))

handle_nbd_transmission_loop-Session_example :
    (t : Server ℕ (List ℕ)) × (outs : List (List ℕ)) × (handle_nbd_transmission_loop ready disk host
        unset 3
        (server stream)
      ≡ ok t)
    × Session ready disk host unset
        ((write_request, 70 ∷ 71 ∷ []) ∷ (read_request, []) ∷ [])
        (replicate 16 0)
        (server []).bridge
        t.user_disk_storage
        t.bridge
        outs
    × (t.sent ≡ [] ++ outs)
handle_nbd_transmission_loop-Session_example =
    handle_nbd_transmission_loop-Session ready disk host unset (server stream)
      ((write_request, 70 ∷ 71 ∷ []) ∷ (read_request, []) ∷ []) unset_size refl
      (inside write_request refl refl, (inside read_request refl refl, tt)) arriving

manage_resets_all_example :
    (t : Server ℕ (List ℕ)) × (manage ready disk host unset
        (1 ∷ 0 ∷ 0 ∷ 0 ∷ 0 ∷ 0 ∷ 0 ∷ 0 ∷ [])
        (server [])
      ≡ ok (some 1, t))
    × (take 8 (drop 8 t.user_disk_storage) ≡ replicate 8 0)
    × (get_elem? t.bridge.mock_bram_storage 0 ≡ some 0)
unfolding zone_of_bytes zone_size total_size_bytes receive_zone byte_at
manage_resets_all_example =
    manage_resets_all ready disk host unset (1 ∷ 0 ∷ 0 ∷ 0 ∷ 0 ∷ 0 ∷ 0 ∷ 0 ∷ [])
      (1 ∷ 0 ∷ 0 ∷ 0 ∷ 0 ∷ 0 ∷ 0 ∷ 0 ∷ []) (server []) 0 refl (omega arith) (omega arith)
