-- ===== src/Stream/Sha1.antt =====
-- SHA-1 of src/host/ws_stream.c: `sha1_transform`, `sha1_init`, `sha1_update` and `sha1_final`.
use Prim.Native.Nat.{bit_and, bit_or, bit_xor}
use edgehost.Prelude.{
  ℕ, zero, suc, ◌+◌, ◌-◌, ◌*◌, ◌/◌, ◌%◌, ◌^◌, List, [], ◌∷◌, ◌++◌, ltb, ◌==◌, if◌then◌else◌, length,
  get_or, replicate,
}
use edgehost.Prelude.Text.{Bytes}
use edgehost.Auth.Sha256.{word, complement, block_words, length_bytes, words_bytes}

-- `sha1_rol`
abbrev pub rol : ℕ → ℕ → ℕ
rol v n = bit_or (v * 2 ^ n % word) (v / 2 ^ (32 - n))

-- The words of `w` behind the first sixteen: `n` more of them, from index `i` on.
unfoldable pub extend : ℕ → ℕ → List ℕ → List ℕ
extend zero i w = w
extend (suc n) i w =
    let x =
      rol
        (bit_xor (bit_xor (bit_xor (get_or w (i - 3) 0) (get_or w (i - 8) 0)) (get_or w (i - 14) 0))
          (get_or w (i - 16) 0))
        1 in
    extend n (i + 1) (w ++ (x ∷ []))

-- `state`, and the variables `a` to `e` of the rounds.
pub record Words : Type 0 where
  pub a : ℕ
  pub b : ℕ
  pub c : ℕ
  pub d : ℕ
  pub e : ℕ

-- `f` and `k` of round `i`.
unfoldable pub mix : ℕ → Words → ℕ
mix i r =
    if ltb i 20
    then bit_or (bit_and r.b r.c) (bit_and (complement r.b) r.d)
    else if ltb i 40
    then bit_xor (bit_xor r.b r.c) r.d
    else if ltb i 60
    then bit_or (bit_or (bit_and r.b r.c) (bit_and r.b r.d)) (bit_and r.c r.d)
    else bit_xor (bit_xor r.b r.c) r.d

abbrev pub constant : ℕ → ℕ
constant i =
    if ltb i 20
    then 0x5A827999
    else if ltb i 40
    then 0x6ED9EBA1
    else if ltb i 60
    then 0x8F1BBCDC
    else 0xCA62C1D6

-- The rounds from number `i` on, with their words.
unfoldable pub rounds : ℕ → List ℕ → Words → Words
unfolding mix
rounds i [] r = r
rounds i (w ∷ ws) r =
    let t = (rol r.a 5 + mix i r + r.e + constant i + w) % word in
    rounds (i + 1) ws (record { a = t; b = r.a; c = rol r.b 30; d = r.c; e = r.d })

-- `sha1_transform`
unfoldable pub transform : Words → Bytes → Words
unfolding extend rounds block_words
transform s block =
    let r = rounds 0 (extend 64 16 (block_words 16 block)) s in
    record {
      a = (s.a + r.a) % word;
      b = (s.b + r.b) % word;
      c = (s.c + r.c) % word;
      d = (s.d + r.d) % word;
      e = (s.e + r.e) % word;
    }

-- `buffer` is the first `count & 63` bytes of the code's, the only ones that are read.
pub record Sha1 : Type 0 where
  pub state : Words
  pub count : ℕ
  pub buffer : Bytes

-- `sha1_init`
abbrev pub init : Sha1
init = record {
  state = record { a = 0x67452301; b = 0xEFCDAB89; c = 0x98BADCFE; d = 0x10325476; e = 0xC3D2E1F0 };
  count = 0;
  buffer = [];
}

-- The loop of `sha1_update`.
unfoldable pub feed : Words → Bytes → Bytes → Words × Bytes
feed s buffer [] = (s, buffer)
feed s buffer (x ∷ bs) =
    let filled = buffer ++ (x ∷ []) in
    let full = length filled == 64 in
    feed (if full then transform s filled else s) (if full then [] else filled) bs

-- `sha1_update`
unfoldable pub update : Sha1 → Bytes → Sha1
unfolding feed transform
update ctx bs =
    let (s, buffer) = feed ctx.state ctx.buffer bs in
    record { state = s; count = (ctx.count + length bs) % 2 ^ 64; buffer = buffer }

-- `pad`: a one bit and zeros up to the last eight bytes of a block.
unfoldable pub pad : ℕ → Bytes
pad idx =
    let pad_len = if ltb idx 56 then 56 - idx else 120 - idx in 0x80 ∷ replicate (pad_len - 1) 0

-- `sha1_final`
unfoldable pub final : Sha1 → Bytes
unfolding update pad length_bytes words_bytes
final ctx =
    let bits = ctx.count * 8 % 2 ^ 64 in
    let s = (update (update ctx (pad (ctx.count % 64))) (length_bytes bits)).state in
    words_bytes (s.a ∷ s.b ∷ s.c ∷ s.d ∷ s.e ∷ [])

unfoldable pub sha1 : Bytes → Bytes
sha1 msg = final (update init msg)
