-- ===== src/Auth/Sha256/Padding.antt =====
-- The hash byte by byte against the hash of the padded message, block by block.
use edgehost.Prelude.{
  ℕ, zero, suc, ◌+◌, ◌-◌, ◌*◌, ◌/◌, ◌%◌, ◌^◌, ◌≤◌, ◌<◌, ◌≡◌, ◌≢◌, refl, arith, false, List, [], ◌∷◌,
  ◌++◌, append_assoc, ltb, length, length-append, length-replicate, length-take, length-drop,
  lt→ltb, replicate, take, drop, ap, ap₂, sym, ◌∙◌, subst, dec_lt,
}
use edgehost.Prelude.Text.{Bytes}
use edgehost.Auth.Sha256.{
  Registers, Hash, transform, init, add_byte, update, length_bytes, digest, padded_block, final,
  sha256,
}

-- The hash after a whole block, and after part of one.
abbrev after_block : Hash → Bytes → Hash
after_block ctx bs = record {
  state = transform ctx.state (ctx.buffer ++ bs);
  bitlen = (ctx.bitlen + 512) % 2 ^ 64;
  buffer = [];
}

abbrev after_part : Hash → Bytes → Hash
after_part ctx bs = record ctx { buffer = ctx.buffer ++ bs }

add_byte_part :
    (ctx : Hash) (x : ℕ) → length ctx.buffer + 1 < 64 → add_byte ctx x ≡ after_part ctx (x ∷ [])
unfolding add_byte
add_byte_part ctx x h = ground (arith, length-append ctx.buffer (x ∷ []))

add_byte_block :
    (ctx : Hash) (x : ℕ) → length ctx.buffer + 1 ≡ 64 → add_byte ctx x ≡ after_block ctx (x ∷ [])
unfolding add_byte
add_byte_block ctx x h = ground (arith, length-append ctx.buffer (x ∷ []))

pub update-append : (ctx : Hash) (a b : Bytes) → update ctx (a ++ b) ≡ update (update ctx a) b
unfolding update
update-append ctx [] b = refl
update-append ctx (x ∷ a) b = update-append (add_byte ctx x) a b

after_part_more :
    (ctx : Hash) (x : ℕ) (bs : Bytes)
    → after_block (after_part ctx (x ∷ [])) bs ≡ after_block ctx (x ∷ bs)
after_part_more ctx x bs =
    ap
      (λ b.
        (let w : Hash = record {
          state = transform ctx.state b;
          bitlen = (ctx.bitlen + 512) % 2 ^ 64;
          buffer = [];
        } in
          w))
      (append_assoc ctx.buffer (x ∷ []) bs)

-- Bytes that fill the buffer.
update_fill :
    (ctx : Hash) (x : ℕ) (bs : Bytes)
    → length ctx.buffer + suc (length bs) ≡ 64
    → update ctx (x ∷ bs) ≡ after_block ctx (x ∷ bs)
unfolding update
update_fill ctx x [] h = add_byte_block ctx x (omega arith)
update_fill ctx x (y ∷ bs) h =
    ap (λ c. update c (y ∷ bs)) (add_byte_part ctx x (omega arith))
    ∙ update_fill (after_part ctx (x ∷ [])) y bs (omega (arith, length-append ctx.buffer (x ∷ [])))
    ∙ after_part_more ctx x (y ∷ bs)

-- What the buffer and the length counter hold after some bytes.
record Counted (ctx : Hash) (n : ℕ) (after : Hash) : Type 0 where
  pub buffered : length after.buffer ≡ (length ctx.buffer + n) % 64
  pub counted :
      (after.bitlen + length after.buffer * 8) % 2 ^ 64
      ≡ (ctx.bitlen + (length ctx.buffer + n) * 8) % 2 ^ 64

add_byte-Counted : (ctx : Hash) (x : ℕ) → length ctx.buffer < 64 → Counted ctx 1 (add_byte ctx x)
add_byte-Counted ctx x small = elim (dec_lt (length ctx.buffer + 1) 64) [
  | yes part ↦ subst (Counted ctx 1) (sym (add_byte_part ctx x part)) (record {
    buffered = omega (arith, length-append ctx.buffer (x ∷ []));
    counted = omega (arith, length-append ctx.buffer (x ∷ []));
  })
  | no whole ↦
      subst (Counted ctx 1) (sym (add_byte_block ctx x (omega arith)))
        (record { buffered = omega arith; counted = omega arith })
]

update-Counted :
    (ctx : Hash) (bs : Bytes) → length ctx.buffer < 64 → Counted ctx (length bs) (update ctx bs)
unfolding update
update-Counted ctx [] small = record { buffered = omega arith; counted = omega arith }
update-Counted ctx (x ∷ bs) small =
    let one = add_byte-Counted ctx x small in
    let more = update-Counted (add_byte ctx x) bs (omega (arith, one.buffered)) in
    record {
      buffered = omega (arith, one.buffered, more.buffered);
      counted = omega (arith, one.counted, more.counted);
    }

-- The padding of a message: a one bit, zeros, and the message's length in bits.
pub padding : ℕ → Bytes
padding n = 0x80 ∷ (replicate ((119 - n % 64) % 64) 0 ++ length_bytes (n * 8 % 2 ^ 64))

-- The message cut into `n` blocks of 64 bytes.
pub blocks : ℕ → Bytes → List Bytes
blocks zero m = []
blocks (suc n) m = take 64 m ∷ blocks n (drop 64 m)

pub absorb : Registers → List Bytes → Registers
absorb s [] = s
absorb s (b ∷ bs) = absorb (transform s b) bs

-- The standard's reading: pad the message, cut it into blocks, and take them one after the other.
pub sha256_of_blocks : Bytes → Bytes
sha256_of_blocks msg =
    let m = msg ++ padding (length msg) in digest (absorb init.state (blocks (length m / 64) m))

update_full :
    (ctx : Hash) (bs : Bytes)
    → length bs ≢ 0
    → length ctx.buffer + length bs ≡ 64
    → update ctx bs ≡ after_block ctx bs
update_full ctx [] ne h = absurd (ne refl)
update_full ctx (x ∷ bs) ne h = update_fill ctx x bs h

take-drop : (n : ℕ) (m : Bytes) → take n m ++ drop n m ≡ m
take-drop zero m = refl
take-drop (suc n) [] = refl
take-drop (suc n) (x ∷ m) = ap (λ r. x ∷ r) (take-drop n m)

abbrev emptied : Registers → ℕ → Hash
emptied s n = record { state = s; bitlen = n; buffer = [] }

update-blocks :
    (n l : ℕ) (s : Registers) (m : Bytes)
    → length m ≡ n * 64
    → (update (emptied s l) m).state ≡ absorb s (blocks n m)
unfolding absorb blocks update
update-blocks zero l s [] h = refl
update-blocks zero l s (x ∷ m) h = absurd (omega arith)
update-blocks (suc n) l s m h =
    ap (λ t. (update (emptied s l) t).state) (sym (take-drop 64 m))
    ∙ ap (λ (w : Hash). w.state) (update-append (emptied s l) (take 64 m) (drop 64 m))
    ∙ ap (λ w. (update w (drop 64 m)).state)
        (update_full (emptied s l) (take 64 m) (λ e. absurd (omega (arith, length-take 64 m)))
          (omega (arith, length-take 64 m)))
    ∙ update-blocks n _ (transform s (take 64 m)) (drop 64 m) (omega (arith, length-drop 64 m))

-- The end of a message, as `sha256_final` sees it.
abbrev tail_of : Hash → Bytes
tail_of ctx =
    0x80
    ∷ (replicate ((119 - length ctx.buffer) % 64) 0
        ++ length_bytes ((ctx.bitlen + length ctx.buffer * 8) % 2 ^ 64))

replicate_add : (a b x : ℕ) → replicate (a + b) x ≡ replicate a x ++ replicate b x
replicate_add zero b x = ap (λ k. replicate k x) (omega arith)
replicate_add (suc a) b x =
    ap (λ k. replicate k x) (let e : suc a + b ≡ suc (a + b) = omega arith in e)
    ∙ ap (λ r. x ∷ r) (replicate_add a b x)

length-length_bytes : (n : ℕ) → length (length_bytes n) ≡ 8
unfolding length_bytes
length-length_bytes n = refl

module _ (ctx : Hash) where
  abbrev bits : ℕ
  bits = (ctx.bitlen + length ctx.buffer * 8) % 2 ^ 64

  abbrev zeros : ℕ
  zeros = (119 - length ctx.buffer) % 64

  length-tail_of : length (tail_of ctx) ≡ 9 + zeros
  length-tail_of = omega (
    arith,
    length-append (replicate zeros 0) (length_bytes bits),
    length-replicate {A = ℕ} zeros 0,
    length-length_bytes bits,
  )

  final_short : length ctx.buffer < 56 → final ctx ≡ digest (update ctx (tail_of ctx)).state
  unfolding final padded_block
  final_short h = rw (lt→ltb (length ctx.buffer) 56 h) (
      ap (λ b. digest (transform ctx.state b))
        (append_assoc ctx.buffer (0x80 ∷ replicate (55 - length ctx.buffer) 0) (length_bytes bits)
          ∙ ap (λ k. ctx.buffer ++ (0x80 ∷ (replicate k 0 ++ length_bytes bits))) (omega arith))
      ∙ sym (
          ap (λ (w : Hash). digest w.state)
            (update_full ctx (tail_of ctx) (λ e. absurd (omega (arith, length-tail_of)))
              (omega (arith, length-tail_of)))))

  -- The padding of a buffer that has no room for the length: the end of one block and another block.
  abbrev first_part : Bytes
  first_part = 0x80 ∷ replicate (63 - length ctx.buffer) 0

  abbrev second_part : Bytes
  second_part = replicate 56 0 ++ length_bytes bits

  tail_parts :
      56 ≤ length ctx.buffer → length ctx.buffer < 64 → tail_of ctx ≡ first_part ++ second_part
  tail_parts h k =
      ap (λ n. 0x80 ∷ (replicate n 0 ++ length_bytes bits)) (omega arith)
      ∙ ap (λ r. 0x80 ∷ (r ++ length_bytes bits)) (replicate_add (63 - length ctx.buffer) 56 0)
      ∙ ap (λ r. 0x80 ∷ r)
          (append_assoc (replicate (63 - length ctx.buffer) 0) (replicate 56 0) (length_bytes bits))

  final_long :
      56 ≤ length ctx.buffer
      → length ctx.buffer < 64
      → final ctx ≡ digest (update ctx (tail_of ctx)).state
  unfolding final padded_block
  final_long h k =
      let long : ltb (length ctx.buffer) 56 ≡ false = ground arith in
      rw long (
        sym (
          ap (λ (w : Hash). digest w.state)
            (ap (update ctx) (tail_parts h k)
              ∙ update-append ctx first_part second_part
              ∙ ap (λ w. update w second_part)
                  (update_full ctx first_part (λ e. absurd (omega arith))
                    (omega (arith, length-replicate {A = ℕ} (63 - length ctx.buffer) 0)))
              ∙ update_full (after_block ctx first_part) second_part (λ e. absurd (omega arith))
                  (omega (arith, length-length_bytes bits)))))

  final-update : length ctx.buffer < 64 → final ctx ≡ digest (update ctx (tail_of ctx)).state
  final-update k = elim (dec_lt (length ctx.buffer) 56) [
    | yes short ↦ final_short short
    | no long ↦ final_long (omega arith) k
  ]

length-padding : (n : ℕ) → length (padding n) ≡ 9 + (119 - n % 64) % 64
unfolding padding
length-padding n = omega (
  arith,
  length-append (replicate ((119 - n % 64) % 64) 0) (length_bytes (n * 8 % 2 ^ 64)),
  length-replicate {A = ℕ} ((119 - n % 64) % 64) 0,
  length-length_bytes (n * 8 % 2 ^ 64),
)

tail_of-padding : (msg : Bytes) → tail_of (update init msg) ≡ padding (length msg)
unfolding padding
tail_of-padding msg =
    let c = update-Counted init msg (omega arith) in
    ap₂ (λ l n. 0x80 ∷ (replicate ((119 - l) % 64) 0 ++ length_bytes n))
      (let e : length (update init msg).buffer ≡ length msg % 64 = omega (arith, c.buffered) in e)
      (let e : bits (update init msg) ≡ length msg * 8 % 2 ^ 64 = omega (arith, c.counted) in e)

-- The byte-wise hash of a message is the hash of its padded blocks.
pub sha256_lem : (msg : Bytes) → sha256 msg ≡ sha256_of_blocks msg
unfolding sha256 sha256_of_blocks
sha256_lem msg =
    let w = update init msg in
    let m = msg ++ padding (length msg) in
    final-update w (omega (arith, (update-Counted init msg (omega arith)).buffered))
    ∙ ap (λ t. digest (update w t).state) (tail_of-padding msg)
    ∙ ap (λ (v : Hash). digest v.state) (sym (update-append init msg (padding (length msg))))
    ∙ ap digest (
        update-blocks (length m / 64) 0 init.state m
          (omega (arith, length-append msg (padding (length msg)), length-padding (length msg))))
