-- ===== src/Stream/Handshake.antt =====
-- The WebSocket handshake of src/host/ws_stream.c: `edge_ws_accept_key` and `edge_ws_build_101`.
use edgehost.Prelude.{
  ℕ, ◌+◌, ◌*◌, ◌/◌, ◌≡◌, ◌≤◌, ◌<◌, refl, arith, Bool, true, false, ◌&&◌, ◌||◌, [], ◌∷◌, ◌++◌,
  Option, none, some, ltb, leb, ◌==◌, if◌then◌else◌, length, length-append, All, ap, sym, ◌∙◌,
  subst,
}
use edgehost.Prelude.Text.{Bytes, text, is_empty}
use edgehost.Auth.Base64.{encode_groups}
use edgehost.Stream.Sha1.{sha1, final}
use edgehost.Auth.Sha256.{words_bytes}
use edgehost.Auth.Base64.Size.{length-groups}

abbrev pub guid : Bytes
guid = text "258EAFA5-E914-47DA-95CA-C5AB0DC85B11"

-- `b64_encode`; `none` is -1.
unfoldable pub b64_encode : Bytes → ℕ → Option Bytes
unfolding encode_groups
b64_encode input out_sz =
    if ltb out_sz ((length input + 2) / 3 * 4 + 1) then none else some (encode_groups input)

abbrev pub is_blank : ℕ → Bool
is_blank c = c == b' ' || c == 9

abbrev pub is_end : ℕ → Bool
is_end c = c == b' ' || c == 9 || c == 13 || c == 10

unfoldable pub trim_front : Bytes → Bytes
trim_front [] = []
trim_front (c ∷ s) = let rest = trim_front s in if is_blank c then rest else c ∷ s

unfoldable pub trim_end : Bytes → Bytes
trim_end [] = []
trim_end (c ∷ s) = let rest = trim_end s in if is_empty rest && is_end c then [] else c ∷ rest

-- The key without the blanks around it.
abbrev pub trimmed : Bytes → Bytes
trimmed key = trim_end (trim_front key)

-- `edge_ws_accept_key`: the text in `out`; `none` is -1. `out` is not NULL.
unfoldable pub accept_key : Option Bytes → ℕ → Option Bytes
unfolding trim_front trim_end sha1 b64_encode
accept_key none out_sz = none
accept_key (some sec_ws_key) out_sz =
    let key = trimmed sec_ws_key in
    if ltb out_sz 29
    then none
    else if is_empty key || leb 64 (length key)
    then none
    else b64_encode (sha1 (key ++ guid)) out_sz

abbrev pub response : Bytes → Bytes
response accept =
    text
      "HTTP/1.1 101 Switching Protocols\r\nUpgrade: websocket\r\nConnection: Upgrade\r\nSec-WebSocket-Accept: "
    ++ (accept ++ text "\r\n\r\n")

abbrev pub fitted : ℕ → Option Bytes → Option Bytes
fitted out_cap none = none
fitted out_cap (some accept) =
    if leb out_cap (length (response accept)) then none else some (response accept)

-- `edge_ws_build_101`: the text in `out`, whose length is `*out_len`; `none` is -1.
unfoldable pub build_101 : Option Bytes → ℕ → Option Bytes
unfolding accept_key
build_101 sec_ws_key out_cap = fitted out_cap (accept_key sec_ws_key 64)

length-sha1 : (msg : Bytes) → length (sha1 msg) ≡ 20
unfolding sha1 final words_bytes
length-sha1 msg = refl

trim_front_blanks :
    (front s : Bytes) → All (λ c. is_blank c ≡ true) front → trim_front (front ++ s) ≡ trim_front s
unfolding trim_front
trim_front_blanks [] s h = refl
trim_front_blanks (c ∷ front) s h = rw h.0 (trim_front_blanks front s h.1)

trim_front_key :
    (key s : Bytes)
    → All (λ c. is_end c ≡ false) key
    → is_empty key ≡ false
    → trim_front (key ++ s) ≡ key ++ s
unfolding trim_front
trim_front_key [] s h some_key = absurd (cc some_key)
trim_front_key (c ∷ key) s h some_key =
    let no_blank : is_blank c ≡ false = ground (arith, h.0) in rw no_blank refl

trim_end_back : (back : Bytes) → All (λ c. is_end c ≡ true) back → trim_end back ≡ []
unfolding trim_end
trim_end_back [] h = refl
trim_end_back (c ∷ back) h = rw (trim_end_back back h.1, h.0) refl

trim_end_key :
    (key back : Bytes)
    → All (λ c. is_end c ≡ false) key
    → All (λ c. is_end c ≡ true) back
    → trim_end (key ++ back) ≡ key
unfolding trim_end
trim_end_key [] back h hb = trim_end_back back hb
trim_end_key (c ∷ key) back h hb =
    rw (trim_end_key key back h.1 hb)
      (ap (λ b. if is_empty key && b then [] else c ∷ key) h.0 ∙ no_test (is_empty key) c key)
  where
    no_test : (b : Bool) (c : ℕ) (key : Bytes) → (if b && false then [] else c ∷ key) ≡ c ∷ key
    no_test true c key = refl
    no_test false c key = refl

accept_key-trimmed :
    (sec_ws_key : Bytes) (out_sz : ℕ)
    → 29 ≤ out_sz
    → is_empty (trimmed sec_ws_key) ≡ false
    → length (trimmed sec_ws_key) < 64
    → accept_key (some sec_ws_key) out_sz ≡ some (encode_groups (sha1 (trimmed sec_ws_key ++ guid)))
unfolding accept_key b64_encode
accept_key-trimmed sec_ws_key out_sz room some_key short =
    let wide : ltb out_sz 29 ≡ false = ground (arith, room) in
    let good : (is_empty (trimmed sec_ws_key) || leb 64 (length (trimmed sec_ws_key))) ≡ false =
      ground (arith, some_key, short) in
    rw (wide, good, length-sha1 (trimmed sec_ws_key ++ guid)) (rw wide refl)

not_leb : (a b : ℕ) → a < b → leb b a ≡ false
not_leb a b h = ground (arith, h)

length-response : (accept : Bytes) → length (response accept) ≡ 97 + (length accept + 4)
length-response accept = omega (arith, length-append accept (text "\r\n\r\n"))

-- For a key of 1 to 63 characters without blanks or line ends, with blanks before it and blanks and line
-- ends behind it, `edge_ws_build_101` writes into a buffer of more than 129 bytes the response that
-- accepts it: the base64 text of the SHA-1 of the key with the GUID behind it.
pub build_101-key :
    (front key back : Bytes) (out_cap : ℕ)
    → All (λ c. is_blank c ≡ true) front
    → All (λ c. is_end c ≡ false) key
    → All (λ c. is_end c ≡ true) back
    → is_empty key ≡ false
    → length key < 64
    → 129 < out_cap
    → build_101 (some (front ++ (key ++ back))) out_cap
      ≡ some (response (encode_groups (sha1 (key ++ guid))))
unfolding build_101
build_101-key front key back out_cap hf hk hb some_key short room =
    let t : trimmed (front ++ (key ++ back)) ≡ key =
      ap trim_end (trim_front_blanks front (key ++ back) hf ∙ trim_front_key key back hk some_key)
      ∙ trim_end_key key back hk hb in
    let accept = encode_groups (sha1 (key ++ guid)) in
    let size : length accept ≡ 28 =
      length-groups (sha1 (key ++ guid)) ∙ ap (λ n. (n + 2) / 3 * 4) (length-sha1 (key ++ guid)) in
    let fits : leb out_cap (length (response accept)) ≡ false =
      not_leb (length (response accept)) out_cap
        (omega (arith, length-response accept, size, room)) in
    ap (fitted out_cap) (
      accept_key-trimmed (front ++ (key ++ back)) 64 (omega arith)
        (subst (λ k. is_empty k ≡ false) (sym t) some_key)
        (subst (λ k. length k < 64) (sym t) short)
      ∙ ap (λ k. some (encode_groups (sha1 (k ++ guid)))) t)
    ∙ rw fits refl
