-- ===== src/Core/Buffers/Overflow.antt =====
-- Two limits of the buffer protocol: what a full ring does to a request that is already queued, and
-- what a second round through the 32-bit ids does.
use edgehost.Prelude.{
  ℕ, ◌+◌, ◌-◌, ◌^◌, ◌<◌, ◌≡◌, ◌≢◌, refl, Bool, true, List, ◌∷◌, Option, some, arith, length, ◌==◌,
  ap, ◌∙◌, sym, subst,
}
use edgehost.Prelude.Table.{count_if, count_if-set, deref, find_index-some, find_index_of_pos}
use edgehost.Core.{Core, Slot}
use edgehost.Core.Types.{Event, BufKind, no_kind, overflow_event}
use edgehost.Core.Ring.{emit_event}
use edgehost.Core.Ring.Invariant.{IsRing}
use edgehost.Core.Ring.Queue.{contents, push, push-full, emit_refines, length-contents}
use edgehost.Core.Buffers.{
  is_free, is_pending, has_id, find_free_slot, find_slot_by_id, mint_alloc_id, pending_slot,
  request_alloc,
}
use edgehost.Core.Buffers.Invariant.{slot_of, bufs-emit_event}
use edgehost.Core.Buffers.Request.{request_slot, is_no_kind_iff, alloc_in_room}

-- An event that asks for the buffer `id`.
abbrev pub mentions : ℕ → Event → Bool
mentions id ev = ev.alloc_id == id

-- On a valid and full ring whose oldest event asks for the buffer of some id, with that buffer
-- pending and no other event about it: whatever is emitted next, the slot stays pending under its
-- id, and no event in the ring asks for it any more.
pub overflow_strands :
    {c : Core} (id : ℕ) (ev e : Event) (es : List Event) {s : Slot}
    → IsRing c
    → c.cnt ≡ c.qsz
    → contents c ≡ e ∷ es
    → e.alloc_id ≡ id
    → count_if (mentions id) es ≡ 0
    → id ≢ 0
    → slot_of c id ≡ some s
    → is_pending s ≡ true
    → (slot_of (emit_event c ev).1 id ≡ some s)
      × (count_if (mentions id) (contents (emit_event c ev).1) ≡ 0)
unfolding overflow_event find_slot_by_id
overflow_strands {c} id ev e es r full holds own alone nz there pending = (
  subst (λ bufs. deref bufs (find_in bufs) ≡ deref c.bufs (find_in c.bufs))
        (sym (bufs-emit_event c ev)) refl
      ∙ there,
  ap (count_if (mentions id)) (
        (emit_refines ev r).0
        ∙ ap (λ l. push c.qsz l ev) holds
        ∙ push-full c.qsz e es ev (omega (arith, length-contents c, ap length holds)))
      ∙ ground (arith, alone, nz),
)
  where
    find_in : List Slot → Option ℕ
    find_in bufs = find_slot_by_id (record c { bufs = bufs }) id

-- A request of a positive size and a real kind, with a free slot and room in the ring, at a time when
-- the next id, short of the last one, is the id of one live slot: that same id is granted again, and
-- two live slots then have it.
pub request_reuses_id :
    (c : Core) (kind : BufKind) (size : ℕ)
    → 0 < c.next_alloc_id
    → c.next_alloc_id + 1 < 2 ^ 32
    → size ≢ 0
    → kind ≢ no_kind
    → c.cnt < c.qsz
    → 0 < count_if is_free c.bufs
    → count_if (has_id c.next_alloc_id) c.bufs ≡ 1
    → ((request_alloc c kind size).0 ≡ c.next_alloc_id)
      × (count_if (has_id c.next_alloc_id) (request_alloc c kind size).1.bufs ≡ 2)
unfolding find_free_slot
request_reuses_id c kind size positive no_wrap sized real room free held =
    let (i, h) = find_index_of_pos is_free c.bufs free in
    let (s, at, dead) = find_index-some is_free c.bufs i h in
    let e =
      request_slot c kind size i (ground (arith, is_no_kind_iff kind, sized, real)) h
      ∙ alloc_in_room c c.next_alloc_id refl positive no_wrap i kind size room in
    (
      ap (λ (o : ℕ × Core). o.0) e,
      ap (λ (o : ℕ × Core). count_if (has_id c.next_alloc_id) o.1.bufs) e
          ∙ ground (
            arith,
            held,
            dead,
            count_if-set (has_id c.next_alloc_id) c.bufs i (pending_slot kind c.next_alloc_id size)
                at,
          ),
    )

-- After the last 32-bit id comes 1 again.
pub mint_wraps :
    (c : Core)
    → c.next_alloc_id ≡ 2 ^ 32 - 1
    → mint_alloc_id c ≡ (2 ^ 32 - 1, record c { next_alloc_id = 1 })
unfolding mint_alloc_id
mint_wraps c h = rw h
