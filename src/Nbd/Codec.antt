-- ===== src/Nbd/Codec.antt =====
-- The layout of struct nbd_request_t of OriginalFlashSim/nbd_protocol.h, with its fields in the order
-- of the network.
use test_flash_sim.Base.{
  ℕ, ◌+◌, ◌*◌, ◌/◌, ◌%◌, ◌<◌, ◌≡◌, refl, List, [], ◌∷◌, ◌++◌, arith, u32_mod, u64_mod, ap, length,
  ◌∙◌, sym,
}
use test_flash_sim.Nbd.{Request, htonl, htonll, byte_at, ntohl, ntohll, decode}

-- What a client sends.
unfoldable pub encode : Request → List ℕ
unfolding htonl htonll
encode r = htonl r.magic ++ htonl r.type ++ r.handle ++ htonll r.from ++ htonl r.len

word_bytes :
    (n : ℕ)
    → n < u32_mod
    → n / 16777216 % 256 * 16777216 + n / 65536 % 256 * 65536 + n / 256 % 256 * 256 + n % 256 ≡ n
word_bytes n h = omega arith

abbrev low_bytes : ℕ → ℕ
low_bytes n =
    n / 16777216 % 256 * 16777216 + n / 65536 % 256 * 65536 + n / 256 % 256 * 256 + n % 256

long_words : (n : ℕ) → n < u64_mod → n / u32_mod * u32_mod + n % u32_mod ≡ n
long_words n h = omega arith

high_word : (n : ℕ) → n < u64_mod → n / u32_mod < u32_mod
high_word n h = omega arith

low_word : (n : ℕ) → n % u32_mod < u32_mod
low_word n = omega arith

-- Fields that fit their widths, with a handle of 8 bytes.
pub record IsRequest (r : Request) : Type 0 where
  pub magic_fits : r.magic < u32_mod
  pub type_fits : r.type < u32_mod
  pub from_fits : r.from < u64_mod
  pub len_fits : r.len < u32_mod
  pub whole : length r.handle ≡ 8

bytes_of_eight :
    (xs : List ℕ)
    → length xs ≡ 8
    → (a b c d e f g h : ℕ) × (xs ≡ a ∷ b ∷ c ∷ d ∷ e ∷ f ∷ g ∷ h ∷ [])
bytes_of_eight (a ∷ b ∷ c ∷ d ∷ e ∷ f ∷ g ∷ h ∷ []) eq = (a, b, c, d, e, f, g, h, refl)
bytes_of_eight xs eq = absurd (omega arith)

decode-encode_at :
    (magic type from len a b c d e f g h : ℕ)
    → magic < u32_mod
    → type < u32_mod
    → from < u64_mod
    → len < u32_mod
    → decode (
        encode (record {
          magic = magic;
          type = type;
          handle = a ∷ b ∷ c ∷ d ∷ e ∷ f ∷ g ∷ h ∷ [];
          from = from;
          len = len;
        }))
      ≡ record {
        magic = magic;
        type = type;
        handle = a ∷ b ∷ c ∷ d ∷ e ∷ f ∷ g ∷ h ∷ [];
        from = from;
        len = len;
      }
unfolding decode encode ntohl ntohll byte_at htonl htonll
decode-encode_at magic type from len a b c d e f g h m t p l = λ i. record {
  magic = word_bytes magic m i;
  type = word_bytes type t i;
  handle = a ∷ b ∷ c ∷ d ∷ e ∷ f ∷ g ∷ h ∷ [];
  from =
      (ap (λ (n : ℕ). n * u32_mod + low_bytes (from % u32_mod))
            (word_bytes (from / u32_mod) (high_word from p))
          ∙ ap (λ (n : ℕ). from / u32_mod * u32_mod + n)
              (word_bytes (from % u32_mod) (low_word from))
          ∙ long_words from p)
        i;
  len = word_bytes len l i;
}

-- Let the fields of a request fit their widths, and its handle have 8 bytes. Then the server
-- reads from the bytes of the request, in the order of the network, its fields.
pub decode-encode : (r : Request) → IsRequest r → decode (encode r) ≡ r
decode-encode r v =
    let (a, b, c, d, e, f, g, h, bytes) = bytes_of_eight r.handle v.whole in
    let same : r ≡ record r { handle = a ∷ b ∷ c ∷ d ∷ e ∷ f ∷ g ∷ h ∷ [] } =
      ap (λ (xs : List ℕ). record r { handle = xs }) bytes in
    ap (λ (x : Request). decode (encode x)) same
    ∙ decode-encode_at r.magic r.type r.from r.len a b c d e f g h v.magic_fits v.type_fits
        v.from_fits v.len_fits
    ∙ sym same
