-- ===== src/Stream/Run.antt =====
-- Any sequence of calls on the hub of src/host/ws_stream.c, against mailboxes.
use edgehost.Prelude.{
  ℕ, ◌+◌, Bool, true, false, List, [], ◌∷◌, map, Option, none, some, ◌==◌, if◌then◌else◌, length,
  get_or, set, to_int, All,
}
use edgehost.Prelude.Int.{ℤ}
use edgehost.Prelude.Text.{Bytes}
use edgehost.Stream.{
  zero_subscriber, Hub, slot_of, subscribe, unsubscribe, is_subscribed, Taken, refused,
  take_pending,
}
use edgehost.Stream.Message.{msg_max, format_state_changed, broadcast}
use edgehost.Stream.Queue.{IsSubscriber}
use edgehost.Stream.Mailbox.{Mailbox, view, deliver, fetch}

pub data Call : Type 0 where
  subscribes unsubscribes asks : ℤ → Call
  takes : ℤ → ℕ → Call
  broadcasts : Bytes → Bytes → Bytes → Option Bytes → Option Bytes → (ℕ → Bool) → Call

pub data Reply : Type 0 where
  done : Bool → Reply
  sent : ℕ → Reply
  got : Taken → Reply

unfoldable pub step : Hub → Call → Reply × Hub
unfolding subscribe unsubscribe is_subscribed take_pending
step h (subscribes slot) = let (ok, w) = subscribe h slot in (done ok, w)
step h (unsubscribes slot) = (done true, unsubscribe h slot)
step h (asks slot) = (done (is_subscribed h slot), h)
step h (takes slot out_cap) = let (t, w) = take_pending h slot out_cap in (got t, w)
step h (broadcasts ns key op value request_id alloc) =
    let (count, w) = broadcast h ns key op value request_id alloc in (sent count, w)

-- What the calls return, in order.
unfoldable pub run : Hub → List Call → List Reply
run h [] = []
run h (c ∷ calls) = let (r, w) = step h c in r ∷ run w calls

-- The specification: one mailbox for each slot.
abbrev pub empty_box : Mailbox
empty_box = view zero_subscriber

unfoldable pub deliver_all : Bytes → (ℕ → Bool) → ℕ → List Mailbox → ℕ × List Mailbox
deliver_all msg alloc i [] = (0, [])
deliver_all msg alloc i (b ∷ boxes) =
    let (pushed, b2) = deliver b msg (alloc i) in
    let (count, rest) = deliver_all msg alloc (i + 1) boxes in (to_int pushed + count, b2 ∷ rest)

abbrev pub deliver_text : List Mailbox → Option Bytes → (ℕ → Bool) → Reply × List Mailbox
deliver_text boxes none alloc = (sent 0, boxes)
deliver_text boxes (some msg) alloc =
    let (count, after) = deliver_all msg alloc 0 boxes in (sent count, after)

abbrev pub box_subscribe : List Mailbox → Option ℕ → Reply × List Mailbox
box_subscribe boxes none = (done false, boxes)
box_subscribe boxes (some i) =
    (done true, set boxes i (record (get_or boxes i empty_box) { active = true }))

abbrev pub box_unsubscribe : List Mailbox → Option ℕ → Reply × List Mailbox
box_unsubscribe boxes none = (done true, boxes)
box_unsubscribe boxes (some i) = (done true, set boxes i empty_box)

abbrev pub box_asks : List Mailbox → Option ℕ → Reply × List Mailbox
box_asks boxes none = (done false, boxes)
box_asks boxes (some i) = (done (get_or boxes i empty_box).active, boxes)

abbrev pub box_fetch : List Mailbox → ℕ → Option ℕ → Reply × List Mailbox
box_fetch boxes out_cap none = (got refused, boxes)
box_fetch boxes out_cap (some i) =
    let (t, b) = fetch (get_or boxes i empty_box) out_cap in (got t, set boxes i b)

unfoldable pub box_step : List Mailbox → Call → Reply × List Mailbox
box_step boxes (subscribes slot) = box_subscribe boxes (slot_of (length boxes) slot)
box_step boxes (unsubscribes slot) = box_unsubscribe boxes (slot_of (length boxes) slot)
box_step boxes (asks slot) = box_asks boxes (slot_of (length boxes) slot)
box_step boxes (takes slot out_cap) =
    if out_cap == 0
    then (got refused, boxes)
    else box_fetch boxes out_cap (slot_of (length boxes) slot)
box_step boxes (broadcasts ns key op value request_id alloc) =
    deliver_text boxes (format_state_changed msg_max ns key op value request_id) alloc

unfoldable pub box_run : List Mailbox → List Call → List Reply
box_run boxes [] = []
box_run boxes (c ∷ calls) = let (r, after) = box_step boxes c in r ∷ box_run after calls

abbrev pub boxes_of : Hub → List Mailbox
boxes_of h = map view h.subs

abbrev pub IsHub : Hub → Type 0
IsHub h = All IsSubscriber h.subs
