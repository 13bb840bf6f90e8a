-- ===== src/Stream/Message.antt =====
-- `edge_ws_format_state_changed` and `edge_ws_hub_broadcast_state_changed` of src/host/ws_stream.c.
use edgehost.Prelude.{
  ℕ, ◌+◌, Bool, ◌||◌, [], ◌++◌, Option, none, some, ltb, leb, ◌==◌, if◌then◌else◌, length,
}
use edgehost.Prelude.Text.{Bytes, text}
use edgehost.Stream.{Hub, push_all}

abbrev pub msg_max : ℕ
msg_max = 4608

abbrev pub head_text : Bytes → Bytes → Bytes → Bytes
head_text ns key op =
    text "{\"type\":\"STATE_CHANGED\",\"ns\":\""
    ++ (ns
        ++ (text "\",\"key\":\"" ++ (key ++ (text "\",\"op\":\"" ++ (op ++ text "\",\"value\":")))))

abbrev pub tail_text : Bytes → Bytes
tail_text request_id = text ",\"request_id\":\"" ++ (request_id ++ text "\"}")

-- A value, `none` for NULL or length 0.
abbrev pub some_value : Option Bytes → Option Bytes
some_value none = none
some_value (some v) = if length v == 0 then none else some v

abbrev pub id_text : Option Bytes → Bytes
id_text none = []
id_text (some s) = s

abbrev pub fitted : ℕ → Bytes → Option Bytes
fitted out_cap s = if leb out_cap (length s) then none else some s

unfoldable pub format_value : ℕ → Bytes → Option Bytes → Bytes → Option Bytes
format_value out_cap head none tail = fitted out_cap (head ++ (text "null" ++ tail))
format_value out_cap head (some v) tail =
    if leb out_cap (length head) || leb out_cap (length head + length v + 40)
    then none
    else fitted out_cap (head ++ (v ++ tail))

-- `edge_ws_format_state_changed`: the text in `out`, whose length is the result; `none` is -1. The
-- pointers `out`, `ns`, `key` and `op` are not NULL.
unfoldable pub format_state_changed :
    ℕ → Bytes → Bytes → Bytes → Option Bytes → Option Bytes → Option Bytes
unfolding format_value
format_state_changed out_cap ns key op value request_id =
    if ltb out_cap 32
    then none
    else format_value out_cap (head_text ns key op) (some_value value)
        (tail_text (id_text request_id))

abbrev pub push_text : Hub → Option Bytes → (ℕ → Bool) → ℕ × Hub
push_text h none alloc = (0, h)
push_text h (some msg) alloc =
    let (count, subs) = push_all msg alloc 0 h.subs in (count, record h { subs = subs })

-- `edge_ws_hub_broadcast_state_changed`: how many subscribers got the message; the pointers other than
-- `value` and `request_id` are not NULL, and `alloc i` is the result of `malloc` for slot `i`.
unfoldable pub broadcast :
    Hub → Bytes → Bytes → Bytes → Option Bytes → Option Bytes → (ℕ → Bool) → ℕ × Hub
unfolding format_state_changed
broadcast h ns key op value request_id alloc =
    push_text h (format_state_changed msg_max ns key op value request_id) alloc
