-- ===== src/Core/Ring/Invariant.antt =====
-- The ring's invariant: indices in range, and `tail` where `head` and `cnt` say.
use edgehost.Prelude.{
  ℕ, ◌+◌, ◌-◌, ◌%◌, ◌^◌, ◌≤◌, ◌<◌, ◌≡◌, refl, Bool, true, false, Option, some, arith, length, set,
  get_or, length-set, length-replicate, ap, ◌∙◌, sym, subst, dec_lt, ℕ_discrete, ◌≢◌, some_inj,
  none,
}
use native.Mathlib.Nat.{mod-add-mod, add_assoc}
use edgehost.Core.{Core, max_q, queue_size, create_with_config}
use edgehost.Core.Types.{Event, zero_event, overflow_event}
use edgehost.Core.Ring.{emit_event, next_event}

pub record IsRing (c : Core) : Type 0 where
  pub nonempty : 0 < c.qsz
  pub small : c.qsz ≤ max_q
  pub sized : length c.events ≡ c.qsz
  pub head_in : c.head < c.qsz
  pub cnt_in : c.cnt ≤ c.qsz
  pub tail_at : c.tail ≡ (c.head + c.cnt) % c.qsz

-- The ring after an event is dropped, after one is queued, and after one is taken.
abbrev pub overflowed : Core → Core
overflowed c = record c {
  events = set c.events c.head overflow_event;
  dropped = (c.dropped + 1) % 2 ^ 64;
}

abbrev pub queued : Core → Event → Core
queued c ev = record c {
  events = set c.events c.tail ev;
  tail = (c.tail + 1) % c.qsz;
  cnt = c.cnt + 1;
}

abbrev pub taken : Core → Core
taken c = record c { head = (c.head + 1) % c.qsz; cnt = c.cnt - 1 }

pub emit_event_full :
    (c : Core) (ev : Event) → c.qsz ≤ c.cnt → emit_event c ev ≡ (false, overflowed c)
unfolding emit_event
emit_event_full c ev h = ground arith

pub emit_event_room :
    (c : Core) (ev : Event) → c.cnt < c.qsz → emit_event c ev ≡ (true, queued c ev)
unfolding emit_event
emit_event_room c ev h = ground arith

pub next_event-taken :
    (c : Core) → c.cnt ≢ 0 → next_event c ≡ (true, get_or c.events c.head zero_event, taken c)
unfolding next_event
next_event-taken c h = ground arith

pub next_event_empty : (c : Core) → c.cnt ≡ 0 → next_event c ≡ (false, zero_event, c)
unfolding next_event
next_event_empty c h = ground arith

pub overflowed-IsRing : {c : Core} → IsRing c → IsRing (overflowed c)
overflowed-IsRing {c} v = record {
  nonempty = v.nonempty;
  small = v.small;
  sized = omega (arith, length-set c.events c.head overflow_event, v.sized);
  head_in = v.head_in;
  cnt_in = v.cnt_in;
  tail_at = v.tail_at;
}

pub queued-IsRing : {c : Core} (ev : Event) → IsRing c → c.cnt < c.qsz → IsRing (queued c ev)
queued-IsRing {c} ev v room = record {
  nonempty = v.nonempty;
  small = v.small;
  sized = omega (arith, length-set c.events c.tail ev, v.sized);
  head_in = v.head_in;
  cnt_in = omega arith;
  tail_at =
      ap (λ t. (t + 1) % c.qsz) v.tail_at
      ∙ mod-add-mod (c.head + c.cnt) c.qsz 1
      ∙ ap (λ t. t % c.qsz) (add_assoc c.head c.cnt 1);
}

pub taken-IsRing : {c : Core} → IsRing c → c.cnt ≢ 0 → IsRing (taken c)
taken-IsRing {c} v some_event = record {
  nonempty = v.nonempty;
  small = v.small;
  sized = v.sized;
  head_in = omega (arith, v.nonempty);
  cnt_in = omega (arith, v.cnt_in);
  tail_at =
      v.tail_at
      ∙ ap (λ t. t % c.qsz) (omega arith)
      ∙ sym (mod-add-mod (c.head + 1) c.qsz (c.cnt - 1));
}

pub emit_event-IsRing : {c : Core} (ev : Event) → IsRing c → IsRing (emit_event c ev).1
emit_event-IsRing {c} ev v = elim (dec_lt c.cnt c.qsz) [
  | yes room ↦
      subst (λ (o : Bool × Core). IsRing o.1) (sym (emit_event_room c ev room))
        (queued-IsRing ev v room)
  | no full ↦
      subst (λ (o : Bool × Core). IsRing o.1) (sym (emit_event_full c ev (omega arith)))
        (overflowed-IsRing v)
]

pub next_event-IsRing : {c : Core} → IsRing c → IsRing (next_event c).2
next_event-IsRing {c} v = elim (ℕ_discrete c.cnt 0) [
  | yes e ↦ subst (λ (o : Bool × Event × Core). IsRing o.2) (sym (next_event_empty c e)) v
  | no ne ↦
      subst (λ (o : Bool × Event × Core). IsRing o.2) (sym (next_event-taken c ne))
        (taken-IsRing v ne)
]

queue_size_bounds : (cfg : Option ℕ) → (0 < queue_size cfg) × (queue_size cfg ≤ max_q)
unfolding queue_size
queue_size_bounds none = omega arith
queue_size_bounds (some n) = ground arith

-- The ring that `edgecore_create_with_config` makes is empty, and holds between 1 and 256 events.
pub create-IsRing :
    (cfg : Option ℕ) {c : Core}
    → create_with_config cfg (λ _. true) ≡ some c
    → IsRing c × (c.cnt ≡ 0)
unfolding create_with_config
create-IsRing cfg {c} h =
    subst (λ w. IsRing w × (w.cnt ≡ 0)) (some_inj h)
      (
        record {
          nonempty = (queue_size_bounds cfg).0;
          small = (queue_size_bounds cfg).1;
          sized = length-replicate (queue_size cfg) zero_event;
          head_in = (queue_size_bounds cfg).0;
          cnt_in = omega arith;
          tail_at = omega (arith, queue_size_bounds cfg);
        },
        refl,
      )
