-- ===== src/Core/Types.antt =====
-- The event record of include/edgecore.h and the names of its enumerations.
use edgehost.Prelude.{ℕ, [], Bool, true, false}
use edgehost.Prelude.Text.{Bytes, text, bounded}

pub data EventType : Type 0 where
  no_event need_alloc need_realloc want_send http_request state_changed : EventType
  ws_broadcast config_applied config_rejected outbound_done queue_overflow : EventType

pub data BufKind : Type 0 where
  no_kind generic conn_rx conn_tx http_body state : BufKind

pub event_type_name : EventType → Bytes
event_type_name no_event = text "NONE"
event_type_name need_alloc = text "NEED_ALLOC"
event_type_name need_realloc = text "NEED_REALLOC"
event_type_name want_send = text "WANT_SEND"
event_type_name http_request = text "HTTP_REQUEST"
event_type_name state_changed = text "STATE_CHANGED"
event_type_name ws_broadcast = text "WS_BROADCAST"
event_type_name config_applied = text "CONFIG_APPLIED"
event_type_name config_rejected = text "CONFIG_REJECTED"
event_type_name outbound_done = text "OUTBOUND_DONE"
event_type_name queue_overflow = text "QUEUE_OVERFLOW"

unfoldable pub buf_kind_name : BufKind → Bytes
buf_kind_name no_kind = text "NONE"
buf_kind_name generic = text "GENERIC"
buf_kind_name conn_rx = text "CONN_RX"
buf_kind_name conn_tx = text "CONN_TX"
buf_kind_name http_body = text "HTTP_BODY"
buf_kind_name state = text "STATE"

pub record Event : Type 0 where
  pub type : EventType
  pub reason : Bytes
  pub alloc_id : ℕ
  pub buf_kind : BufKind
  pub size : ℕ
  pub old_ptr : ℕ
  pub old_size : ℕ

abbrev pub reason_size : ℕ
reason_size = 96

abbrev pub zero_event : Event
zero_event = record {
  type = no_event;
  reason = [];
  alloc_id = 0;
  buf_kind = no_kind;
  size = 0;
  old_ptr = 0;
  old_size = 0;
}

-- The event that `emit_event` writes over the oldest one.
unfoldable pub overflow_event : Event
overflow_event = record zero_event {
  type = queue_overflow;
  reason = bounded reason_size (text "event queue full (dropped new event)");
}

-- `kind == EDGE_BUF_NONE`
abbrev pub is_no_kind : BufKind → Bool
is_no_kind no_kind = true
is_no_kind _ = false
