-- ===== src/Nbd.antt =====
-- OriginalFlashSim/nbd_server.cpp, nbd_server.h and nbd_protocol.h: the server of a network block
-- device. Bytes are numbers below 256. The socket and the circuit are parameters.
pub mod Requests
pub mod Codec
pub mod Words
pub mod Answers
pub mod Handled
pub mod Session
pub mod Management
use test_flash_sim.Base.{
  ℕ, zero, suc, ◌+◌, ◌-◌, ◌*◌, ◌/◌, ◌%◌, Option, none, some, List, [], ◌∷◌, ◌++◌, get_elem?, u32,
  u64, u32_mod,
}
use test_flash_sim.Bridge.{Bridge}

-- The constants of nbd_server.h.
pub record Disk : Type 0 where
  pub num_zones : ℕ
  pub zone_size_pages : ℕ
  pub page_size : ℕ

unfoldable pub total_size_bytes : Disk → ℕ
total_size_bytes d = u64 (u64 (d.num_zones * d.zone_size_pages) * d.page_size)

-- What the server relies on of the C library: `read` and the numbers of errors. `recv n` returns the
-- bytes that a call read, at most `n` of them, and none at the end of the stream or on an error.
pub record Host (X : Type 0) : Type 0 where
  pub recv : ℕ → X → List ℕ × X
  pub eio : ℕ
  pub einval : ℕ

abbrev pub request_magic : ℕ
request_magic = 627086611

abbrev pub reply_magic : ℕ
reply_magic = 1732535960

abbrev pub cmd_read : ℕ
cmd_read = 0

abbrev pub cmd_write : ℕ
cmd_write = 1

abbrev pub cmd_disconnect : ℕ
cmd_disconnect = 2

abbrev pub cmd_flush : ℕ
cmd_flush = 3

abbrev pub cmd_trim : ℕ
cmd_trim = 5

-- The fields of struct nbd_request_t, in the order of the host. `handle` stays as its 8 bytes.
pub record Request : Type 0 where
  pub magic : ℕ
  pub type : ℕ
  pub handle : List ℕ
  pub from : ℕ
  pub len : ℕ

-- `htonl`: the bytes of a number of 32 bits, the highest first.
unfoldable pub htonl : ℕ → List ℕ
htonl n = n / 16777216 % 256 ∷ n / 65536 % 256 ∷ n / 256 % 256 ∷ n % 256 ∷ []

unfoldable pub htonll : ℕ → List ℕ
unfolding htonl
htonll n = htonl (n / u32_mod) ++ htonl (n % u32_mod)

unfoldable pub byte_at : List ℕ → ℕ → ℕ
byte_at bytes i = elim (get_elem? bytes i) [ none ↦ 0 | some n ↦ n ]

-- `ntohl` of the field at a place of the buffer.
unfoldable pub ntohl : List ℕ → ℕ → ℕ
unfolding byte_at
ntohl bytes i =
    byte_at bytes i * 16777216
    + byte_at bytes (i + 1) * 65536
    + byte_at bytes (i + 2) * 256
    + byte_at bytes (i + 3)

unfoldable pub ntohll : List ℕ → ℕ → ℕ
unfolding ntohl
ntohll bytes i = ntohl bytes i * u32_mod + ntohl bytes (i + 4)

unfoldable pub decode : List ℕ → Request
unfolding ntohl ntohll byte_at
decode bytes = record {
  magic = ntohl bytes 0;
  type = ntohl bytes 4;
  handle =
      byte_at bytes 8
      ∷ byte_at bytes 9
      ∷ byte_at bytes 10
      ∷ byte_at bytes 11
      ∷ byte_at bytes 12
      ∷ byte_at bytes 13
      ∷ byte_at bytes 14
      ∷ byte_at bytes 15
      ∷ [];
  from = ntohll bytes 16;
  len = ntohl bytes 24;
}

-- The bytes of a reply, with the error in the order of the host.
unfoldable pub reply : ℕ → Request → List ℕ
unfolding htonl
reply error r = htonl reply_magic ++ htonl error ++ r.handle

-- What the loop works on: the socket, the 28 bytes of `request`, which a short read leaves in part as
-- they were, `user_disk_storage`, the circuit with its memory, and what each `write` was asked to
-- send.
pub record Server (C X : Type 0) : Type 0 where
  pub socket : X
  pub request : List ℕ
  pub user_disk_storage : List ℕ
  pub bridge : Bridge C
  pub sent : List (List ℕ)

unfoldable pub send : {C X : Type 0} → List ℕ → Server C X → Server C X
send bytes s = record s { sent = s.sent ++ bytes ∷ [] }

unfoldable pub zone_size_bytes : Disk → ℕ
unfolding total_size_bytes
zone_size_bytes d = u32 (total_size_bytes d / d.num_zones)

unfoldable pub target_zone_id : Disk → Request → ℕ
unfolding zone_size_bytes
target_zone_id d r = u32 (r.from / zone_size_bytes d)

unfoldable pub target_page : Disk → Request → ℕ
unfolding zone_size_bytes
target_page d r = u32 (r.from % zone_size_bytes d / d.page_size)
