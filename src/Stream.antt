-- ===== src/Stream.antt =====
-- src/host/ws_stream.c and include/edge_ws.h: the WebSocket stream. The hub keeps for each connection
-- slot a ring of the messages that wait. A pointer that may be NULL is an option where the code checks it.
pub mod Sha1
pub mod Handshake
pub mod Message
pub mod Queue
pub mod Mailbox
pub mod Take
pub mod Run
pub mod Refine
pub mod Bounds
mod Tests
use edgehost.Prelude.{
  ℕ, zero, suc, ◌+◌, ◌-◌, ◌/◌, ◌%◌, ◌^◌, Bool, true, false, not, ◌&&◌, ◌||◌, List, [], ◌∷◌, ◌++◌,
  Option, none, some, ltb, leb, ◌==◌, if◌then◌else◌, length, get_or, set, replicate, to_int,
}
use edgehost.Prelude.Int.{ℤ, pos, negsuc}
use edgehost.Prelude.Text.{Bytes, text, is_empty, bounded, str_eq, starts_with}

abbrev pub pending_max : ℕ
pending_max = 8

-- `q` and `qlen`: a slot is NULL with length 0, or a copy of a message with the message's length.
pub record Subscriber : Type 0 where
  pub active : Bool
  pub q : List (Option Bytes)
  pub head : ℕ
  pub tail : ℕ
  pub n : ℕ

abbrev pub zero_subscriber : Subscriber
zero_subscriber = record { active = false; q = replicate 8 none; head = 0; tail = 0; n = 0 }

-- `max_subs` is the length of `subs`.
pub record Hub : Type 0 where
  pub subs : List Subscriber
  pub next_rid : ℕ

-- `edge_ws_hub_create`; `alloc` and `alloc_subs` are the results of its two calls of `calloc`.
unfoldable pub hub_create : ℕ → Bool → Bool → Option Hub
hub_create max_subs alloc alloc_subs =
    let count = if max_subs == 0 then 64 else max_subs in
    if alloc && alloc_subs
    then some (record { subs = replicate count zero_subscriber; next_rid = 1 })
    else none

-- The slot of an `int`, when it is one of `max_subs`.
unfoldable pub slot_of : ℕ → ℤ → Option ℕ
slot_of max_subs (pos i) = if leb max_subs i then none else some i
slot_of max_subs (negsuc i) = none

abbrev pub sub_at : Hub → ℕ → Subscriber
sub_at h i = get_or h.subs i zero_subscriber

abbrev pub subscribe_at : Hub → Option ℕ → Bool × Hub
subscribe_at h none = (false, h)
subscribe_at h (some i) =
    (true, record h { subs = set h.subs i (record (sub_at h i) { active = true }) })

-- `edge_ws_hub_subscribe`; false is -1.
unfoldable pub subscribe : Hub → ℤ → Bool × Hub
unfolding slot_of
subscribe h conn_slot = subscribe_at h (slot_of (length h.subs) conn_slot)

abbrev pub unsubscribe_at : Hub → Option ℕ → Hub
unsubscribe_at h none = h
unsubscribe_at h (some i) = record h { subs = set h.subs i zero_subscriber }

-- `edge_ws_hub_unsubscribe`
unfoldable pub unsubscribe : Hub → ℤ → Hub
unfolding slot_of
unsubscribe h conn_slot = unsubscribe_at h (slot_of (length h.subs) conn_slot)

abbrev pub active_at : Hub → Option ℕ → Bool
active_at h none = false
active_at h (some i) = (sub_at h i).active

-- `edge_ws_hub_is_subscribed`
unfoldable pub is_subscribed : Hub → ℤ → Bool
unfolding slot_of
is_subscribed h conn_slot = active_at h (slot_of (length h.subs) conn_slot)

-- The oldest message leaves the ring.
abbrev pub take_first : Subscriber → Subscriber
take_first s = record s { q = set s.q s.head none; head = (s.head + 1) % pending_max; n = s.n - 1 }

-- The drop of the oldest message when the ring is full.
unfoldable pub make_room : Subscriber → Subscriber
make_room s = if leb pending_max s.n then take_first s else s

abbrev pub put_last : Subscriber → Bytes → Subscriber
put_last s msg = record s {
  q = set s.q s.tail (some msg);
  tail = (s.tail + 1) % pending_max;
  n = s.n + 1;
}

-- `sub_push`; false is -1, and `alloc` is the result of `malloc`.
unfoldable pub sub_push : Subscriber → Bytes → Bool → Bool × Subscriber
unfolding make_room
sub_push s msg alloc =
    if s.active
    then (if alloc then (true, put_last (make_room s) msg) else (false, make_room s))
    else (false, s)

-- The loop of `edge_ws_hub_broadcast_state_changed` over the slots: how many got the message, and the
-- slots after it; on a slot that is not active `sub_push` changes nothing and counts nothing. `alloc i` is the result of the `malloc` for the slot `i`.
unfoldable pub push_all : Bytes → (ℕ → Bool) → ℕ → List Subscriber → ℕ × List Subscriber
unfolding sub_push
push_all msg alloc i [] = (0, [])
push_all msg alloc i (s ∷ subs) =
    let (pushed, s2) = sub_push s msg (alloc i) in
    let (count, rest) = push_all msg alloc (i + 1) subs in (to_int pushed + count, s2 ∷ rest)

-- What `edge_ws_hub_take_pending` returns: -1, 0, or 1 with the message in `out`.
pub data Taken : Type 0 where
  refused nothing : Taken
  message : Bytes → Taken

abbrev pub text_of : Option Bytes → Bytes
text_of none = []
text_of (some m) = m

-- What `edge_ws_hub_take_pending` does with a slot in range.
unfoldable pub sub_take : Subscriber → ℕ → Taken × Subscriber
sub_take s out_cap =
    let first = text_of (get_or s.q s.head none) in
    if not s.active || s.n == 0
    then (nothing, s)
    else if ltb out_cap (length first + 1)
    then (refused, s)
    else (message first, take_first s)

abbrev pub take_at : Hub → ℕ → Option ℕ → Taken × Hub
take_at h out_cap none = (refused, h)
take_at h out_cap (some i) =
    let (t, s) = sub_take (sub_at h i) out_cap in (t, record h { subs = set h.subs i s })

-- `edge_ws_hub_take_pending`; `out` is not NULL.
unfoldable pub take_pending : Hub → ℤ → ℕ → Taken × Hub
unfolding slot_of sub_take
take_pending h conn_slot out_cap =
    if out_cap == 0 then (refused, h) else take_at h out_cap (slot_of (length h.subs) conn_slot)

unfoldable pub count_active : List Subscriber → ℕ
count_active [] = 0
count_active (s ∷ subs) = to_int s.active + count_active subs

-- `edge_ws_hub_subscriber_count`
abbrev pub subscriber_count : Hub → ℕ
subscriber_count h = count_active h.subs

abbrev pub hex_digit : ℕ → ℕ
hex_digit d = if ltb d 10 then d + b'0' else d - 10 + b'a'

-- `%0<f>llx` of a number below `16 ^ f`.
unfoldable pub hex : ℕ → ℕ → Bytes → Bytes
hex zero n acc = acc
hex (suc f) n acc = hex f (n / 16) (hex_digit (n % 16) ∷ acc)

abbrev pub preferred : Option Bytes → Bytes
preferred none = []
preferred (some s) = s

-- `edge_ws_hub_mint_request_id`: what `out` holds, and the hub. `out` is not NULL; a size of 0 writes
-- nothing, and a hub that is NULL gives `eh0`.
unfoldable pub mint_request_id : Option Hub → Option Bytes → ℕ → Option Bytes × Option Hub
unfolding hex
mint_request_id h prefer out_sz =
    if out_sz == 0
    then (none, h)
    else if not (is_empty (preferred prefer))
    then (some (bounded out_sz (preferred prefer)), h)
    else elim h [
      | none ↦ (some (bounded out_sz (text "eh0")), none)
      | some w ↦ (
        some (bounded out_sz (text "eh" ++ hex 16 w.next_rid [])),
        some (record w { next_rid = (w.next_rid + 1) % 2 ^ 64 }),
      )
    ]

-- `edge_ws_path_is_stream`
unfoldable pub path_is_stream : Option Bytes → Bool
unfolding str_eq starts_with
path_is_stream none = false
path_is_stream (some path) =
    str_eq path (text "/api/v1/stream") || starts_with (text "/api/v1/stream?") path
