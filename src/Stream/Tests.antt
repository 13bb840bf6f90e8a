-- ===== src/Stream/Tests.antt =====
-- The stream at concrete inputs.
use edgehost.Prelude.{
  ◌≡◌, refl, arith, List, All, Bool, true, false, [], ◌∷◌, none, some, if◌then◌else◌, Bool-cases,
  inl, inr,
}
use edgehost.Prelude.Int.{pos}
use edgehost.Prelude.Text.{Bytes, text, bounded, str_eq, starts_with}
use edgehost.Auth.Base64.{encode_groups}
use edgehost.Auth.Sha256.{block_words, length_bytes, words_bytes}
use edgehost.Stream.{
  zero_subscriber, Hub, hub_create, slot_of, subscribe, unsubscribe, is_subscribed, make_room,
  sub_push, push_all, refused, nothing, message, sub_take, take_pending, count_active,
  subscriber_count, hex, mint_request_id, path_is_stream,
}
use edgehost.Stream.Message.{broadcast, format_state_changed, format_value}
use edgehost.Stream.Run.{
  Call, subscribes, asks, takes, broadcasts, done, sent, got, step, run, empty_box, box_run,
}
use edgehost.Stream.Refine.{run-hub_create}
use edgehost.Stream.Bounds.{is_refused, after, take_pending_wide}
use edgehost.Stream.Sha1.{sha1, extend, mix, rounds, transform, feed, update, pad, final}
use edgehost.Stream.Handshake.{
  accept_key, b64_encode, trim_front, trim_end, build_101, is_end, response, build_101-key,
}

-- The example of RFC 6455.
rfc_accept :
    accept_key (some (text " dGhlIHNhbXBsZSBub25jZQ==\r\n")) 64
    ≡ some (text "s3pPLMBiTxaQ9kYGzzhZRbK+xOo=")
unfolding accept_key trim_front trim_end b64_encode encode_groups sha1 final update pad feed
    transform rounds mix extend block_words length_bytes words_bytes
rfc_accept = refl

abbrev two_slots : Hub
two_slots = record { subs = zero_subscriber ∷ zero_subscriber ∷ []; next_rid = 1 }

made_two : hub_create 2 true true ≡ some two_slots
unfolding hub_create
made_two = refl

-- A subscriber gets what is sent while it is subscribed.
abbrev some_calls : List Call
some_calls =
    subscribes (pos 1)
    ∷ broadcasts (text "net") (text "a") (text "PUT") (some (text "1")) none (λ _. true)
    ∷ takes (pos 1) 10
    ∷ takes (pos 1) 100
    ∷ takes (pos 0) 100
    ∷ takes (pos 2) 100
    ∷ asks (pos 1)
    ∷ []

abbrev some_message : Bytes
some_message =
    text
      "{\"type\":\"STATE_CHANGED\",\"ns\":\"net\",\"key\":\"a\",\"op\":\"PUT\",\"value\":1,\"request_id\":\"\"}"

some_replies :
    run two_slots some_calls
    ≡ done true
      ∷ sent 1
      ∷ got refused
      ∷ got (message some_message)
      ∷ got nothing
      ∷ got refused
      ∷ done true
      ∷ []
unfolding run step subscribe unsubscribe is_subscribed slot_of broadcast format_state_changed
    format_value push_all sub_push make_room take_pending sub_take
some_replies = refl

run-hub_create_example : run two_slots some_calls ≡ box_run (empty_box ∷ empty_box ∷ []) some_calls
run-hub_create_example = run-hub_create 2 true true some_calls two_slots made_two

take_pending_wide_example :
    is_refused (take_pending (after two_slots (subscribes (pos 1) ∷ [])) (pos 1) 4608).0 ≡ false
unfolding after step subscribe slot_of
take_pending_wide_example =
    take_pending_wide 2 true true (subscribes (pos 1) ∷ []) two_slots 1 4608 made_two (omega arith)
      (omega arith)

not_end : Bytes → Bool
not_end [] = true
not_end (c ∷ s) = if is_end c then false else not_end s

not_end-All : (s : Bytes) → not_end s ≡ true → All (λ c. is_end c ≡ false) s
unfolding not_end
not_end-All [] h = tt
not_end-All (c ∷ s) h = elim (Bool-cases (is_end c)) [
  | inl e ↦ absurd (cc (rw e at h))
  | inr e ↦ (e, not_end-All s (rw e at h))
]

key_chars : All (λ c. is_end c ≡ false) (text "dGhlIHNhbXBsZSBub25jZQ==")
unfolding not_end
key_chars = not_end-All (text "dGhlIHNhbXBsZSBub25jZQ==") refl

build_101-key_example :
    build_101 (some (text " dGhlIHNhbXBsZSBub25jZQ==\r\n")) 200
    ≡ some (
        response (
          encode_groups
            (sha1 (text "dGhlIHNhbXBsZSBub25jZQ==258EAFA5-E914-47DA-95CA-C5AB0DC85B11"))))
build_101-key_example =
    build_101-key (text " ") (text "dGhlIHNhbXBsZSBub25jZQ==") (text "\r\n") 200 (refl, tt)
      key_chars (refl, (refl, tt)) refl (omega arith) (omega arith)

first_request_id : (mint_request_id (some two_slots) none 48).0 ≡ some (text "eh0000000000000001")
unfolding mint_request_id hex bounded
first_request_id = refl

path_with_query : path_is_stream (some (text "/api/v1/stream?topics=net")) ≡ true
unfolding path_is_stream str_eq starts_with
path_with_query = refl

nobody : subscriber_count two_slots ≡ 0
unfolding count_active
nobody = refl
