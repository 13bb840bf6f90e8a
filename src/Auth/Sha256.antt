-- ===== src/Auth/Sha256.antt =====
-- SHA-256 of src/core/auth_rbac.c: `sha256_transform`, `_init`, `_update` and `_final`. A word is a
-- number below 2 ^ 32; shifts of words are quotients and wrapped products.
pub mod Padding
use Prim.Native.Nat.{bit_and, bit_or, bit_xor}
use edgehost.Prelude.{
  ℕ, zero, suc, ◌+◌, ◌-◌, ◌*◌, ◌/◌, ◌%◌, ◌^◌, List, [], ◌∷◌, ◌++◌, ltb, ◌==◌, if◌then◌else◌, length,
  get_or, replicate,
}
use edgehost.Prelude.Text.{Bytes}

abbrev pub word : ℕ
word = 2 ^ 32

abbrev pub rotr : ℕ → ℕ → ℕ
rotr x n = bit_or (x / 2 ^ n) (x * 2 ^ (32 - n) % word)

abbrev pub complement : ℕ → ℕ
complement x = word - 1 - x

-- `k`
abbrev pub round_constants : List ℕ
round_constants =
    0x428a2f98 ∷ 0x71374491 ∷ 0xb5c0fbcf ∷ 0xe9b5dba5 ∷ 0x3956c25b ∷ 0x59f111f1 ∷ 0x923f82a4
    ∷ 0xab1c5ed5 ∷ 0xd807aa98 ∷ 0x12835b01 ∷ 0x243185be ∷ 0x550c7dc3 ∷ 0x72be5d74 ∷ 0x80deb1fe
    ∷ 0x9bdc06a7 ∷ 0xc19bf174 ∷ 0xe49b69c1 ∷ 0xefbe4786 ∷ 0x0fc19dc6 ∷ 0x240ca1cc ∷ 0x2de92c6f
    ∷ 0x4a7484aa ∷ 0x5cb0a9dc ∷ 0x76f988da ∷ 0x983e5152 ∷ 0xa831c66d ∷ 0xb00327c8 ∷ 0xbf597fc7
    ∷ 0xc6e00bf3 ∷ 0xd5a79147 ∷ 0x06ca6351 ∷ 0x14292967 ∷ 0x27b70a85 ∷ 0x2e1b2138 ∷ 0x4d2c6dfc
    ∷ 0x53380d13 ∷ 0x650a7354 ∷ 0x766a0abb ∷ 0x81c2c92e ∷ 0x92722c85 ∷ 0xa2bfe8a1 ∷ 0xa81a664b
    ∷ 0xc24b8b70 ∷ 0xc76c51a3 ∷ 0xd192e819 ∷ 0xd6990624 ∷ 0xf40e3585 ∷ 0x106aa070 ∷ 0x19a4c116
    ∷ 0x1e376c08 ∷ 0x2748774c ∷ 0x34b0bcb5 ∷ 0x391c0cb3 ∷ 0x4ed8aa4a ∷ 0x5b9cca4f ∷ 0x682e6ff3
    ∷ 0x748f82ee ∷ 0x78a5636f ∷ 0x84c87814 ∷ 0x8cc70208 ∷ 0x90befffa ∷ 0xa4506ceb ∷ 0xbef9a3f7
    ∷ 0xc67178f2 ∷ []

-- `state`, and the variables `a` to `h` of the rounds.
pub record Registers : Type 0 where
  pub a : ℕ
  pub b : ℕ
  pub c : ℕ
  pub d : ℕ
  pub e : ℕ
  pub f : ℕ
  pub g : ℕ
  pub h : ℕ

-- The first sixteen words of `m`: the block's bytes, four by four.
unfoldable pub block_words : ℕ → Bytes → List ℕ
block_words zero block = []
block_words (suc n) (b0 ∷ b1 ∷ b2 ∷ b3 ∷ block) =
    (b0 * 2 ^ 24 + b1 * 2 ^ 16 + b2 * 2 ^ 8 + b3) ∷ block_words n block
block_words (suc n) block = []

abbrev pub small_sigma0 : ℕ → ℕ
small_sigma0 x = bit_xor (bit_xor (rotr x 7) (rotr x 18)) (x / 2 ^ 3)

abbrev pub small_sigma1 : ℕ → ℕ
small_sigma1 x = bit_xor (bit_xor (rotr x 17) (rotr x 19)) (x / 2 ^ 10)

-- The other words of `m`: `n` more of them, from index `i` on.
unfoldable pub extend_words : ℕ → ℕ → List ℕ → List ℕ
extend_words zero i m = m
extend_words (suc n) i m =
    let w =
      (get_or m (i - 16) 0
        + small_sigma0 (get_or m (i - 15) 0)
        + get_or m (i - 7) 0
        + small_sigma1 (get_or m (i - 2) 0))
      % word in
    extend_words n (i + 1) (m ++ (w ∷ []))

abbrev pub big_sigma0 : ℕ → ℕ
big_sigma0 x = bit_xor (bit_xor (rotr x 2) (rotr x 13)) (rotr x 22)

abbrev pub big_sigma1 : ℕ → ℕ
big_sigma1 x = bit_xor (bit_xor (rotr x 6) (rotr x 11)) (rotr x 25)

abbrev pub choose : ℕ → ℕ → ℕ → ℕ
choose e f g = bit_xor (bit_and e f) (bit_and (complement e) g)

abbrev pub majority : ℕ → ℕ → ℕ → ℕ
majority a b c = bit_xor (bit_xor (bit_and a b) (bit_and a c)) (bit_and b c)

-- One round, with the round's constant and word.
unfoldable pub round : ℕ → ℕ → Registers → Registers
round k m r =
    let t1 = (r.h + big_sigma1 r.e + choose r.e r.f r.g + k + m) % word in
    let t2 = (big_sigma0 r.a + majority r.a r.b r.c) % word in
    record {
      a = (t1 + t2) % word;
      b = r.a;
      c = r.b;
      d = r.c;
      e = (r.d + t1) % word;
      f = r.e;
      g = r.f;
      h = r.g;
    }

-- The 64 rounds.
unfoldable pub rounds : List ℕ → List ℕ → Registers → Registers
unfolding round
rounds [] ms r = r
rounds (k ∷ ks) [] r = r
rounds (k ∷ ks) (m ∷ ms) r = rounds ks ms (round k m r)

-- `sha256_transform`; `block` is a block of 64 bytes.
unfoldable pub transform : Registers → Bytes → Registers
unfolding block_words extend_words rounds
transform s block =
    let r = rounds round_constants (extend_words 48 16 (block_words 16 block)) s in
    record {
      a = (s.a + r.a) % word;
      b = (s.b + r.b) % word;
      c = (s.c + r.c) % word;
      d = (s.d + r.d) % word;
      e = (s.e + r.e) % word;
      f = (s.f + r.f) % word;
      g = (s.g + r.g) % word;
      h = (s.h + r.h) % word;
    }

-- `buffer` is the first `datalen` bytes of `data`, the only ones that are read.
pub record Hash : Type 0 where
  pub state : Registers
  pub bitlen : ℕ
  pub buffer : Bytes

-- `sha256_init`
abbrev pub init : Hash
init = record {
  state = record {
    a = 0x6a09e667;
    b = 0xbb67ae85;
    c = 0x3c6ef372;
    d = 0xa54ff53a;
    e = 0x510e527f;
    f = 0x9b05688c;
    g = 0x1f83d9ab;
    h = 0x5be0cd19;
  };
  bitlen = 0;
  buffer = [];
}

-- The body of the loop of `sha256_update`.
unfoldable pub add_byte : Hash → ℕ → Hash
add_byte ctx x =
    let filled = ctx.buffer ++ (x ∷ []) in
    if length filled == 64
    then record {
      state = transform ctx.state filled;
      bitlen = (ctx.bitlen + 512) % 2 ^ 64;
      buffer = [];
    }
    else record ctx { buffer = filled }

unfoldable pub update : Hash → Bytes → Hash
unfolding add_byte
update ctx [] = ctx
update ctx (x ∷ bs) = update (add_byte ctx x) bs

-- The eight bytes of a 64-bit number, the highest first.
unfoldable pub length_bytes : ℕ → Bytes
length_bytes n =
    (n / 2 ^ 56 % 256)
    ∷ (n / 2 ^ 48 % 256)
    ∷ (n / 2 ^ 40 % 256)
    ∷ (n / 2 ^ 32 % 256)
    ∷ (n / 2 ^ 24 % 256)
    ∷ (n / 2 ^ 16 % 256)
    ∷ (n / 2 ^ 8 % 256)
    ∷ (n % 256)
    ∷ []

abbrev pub word_bytes : ℕ → Bytes
word_bytes w = (w / 2 ^ 24 % 256) ∷ (w / 2 ^ 16 % 256) ∷ (w / 2 ^ 8 % 256) ∷ (w % 256) ∷ []

unfoldable pub words_bytes : List ℕ → Bytes
words_bytes [] = []
words_bytes (w ∷ ws) = word_bytes w ++ words_bytes ws

-- The bytes of `hash`.
unfoldable pub digest : Registers → Bytes
unfolding words_bytes
digest s = words_bytes (s.a ∷ s.b ∷ s.c ∷ s.d ∷ s.e ∷ s.f ∷ s.g ∷ s.h ∷ [])

-- What is in the first 56 bytes of the buffer when the length is written, and the state then.
unfoldable pub padded_block : Hash → Registers × Bytes
padded_block ctx =
    if ltb (length ctx.buffer) 56
    then (ctx.state, ctx.buffer ++ (0x80 ∷ replicate (55 - length ctx.buffer) 0))
    else (
      transform ctx.state (ctx.buffer ++ (0x80 ∷ replicate (63 - length ctx.buffer) 0)),
      replicate 56 0,
    )

-- `sha256_final`
unfoldable pub final : Hash → Bytes
unfolding padded_block
final ctx =
    let (state, front) = padded_block ctx in
    let bits = (ctx.bitlen + length ctx.buffer * 8) % 2 ^ 64 in
    digest (transform state (front ++ length_bytes bits))

-- `sha256_init`, `sha256_update` and `sha256_final` of one text.
unfoldable pub sha256 : Bytes → Bytes
sha256 msg = final (update init msg)
