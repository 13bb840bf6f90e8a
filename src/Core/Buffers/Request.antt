-- ===== src/Core/Buffers/Request.antt =====
-- `edgecore_request_alloc`: the id that it hands out, the event that it queues, and the roll-back on a
-- full ring.
use edgehost.Prelude.{
  ℕ, ◌+◌, ◌^◌, ◌≤◌, ◌<◌, ◌≡◌, ◌≢◌, ◌↔◌, refl, true, false, ◌||◌, [], ◌∷◌, ◌++◌, none, some, arith,
  set, get_elem?, ◌==◌, if◌then◌else◌, Bool-cases, Option-cases, inl, inr, ap, ◌∙◌, sym, subst,
  dec_lt, set_twice,
}
use edgehost.Prelude.Table.{count_if, count_if_pos, first_of_none, find_index-some, find_index-none}
use edgehost.Core.{Core, Slot, zero_slot}
use edgehost.Core.Types.{BufKind, is_no_kind, no_kind}
use edgehost.Core.Ring.Invariant.{
  IsRing, overflowed, queued, emit_event_full, emit_event_room, queued-IsRing, overflowed-IsRing,
}
use edgehost.Core.Ring.Queue.{contents, contents-queued}
use edgehost.Core.Buffers.{
  is_live, is_free, has_id, find_free_slot, mint_alloc_id, alloc_in, alloc_event, pending_slot,
  request_alloc,
}
use edgehost.Core.Buffers.Invariant.{
  IsTable, IsValid, cleared, new_id, set-IsTable, slot_of, slot_of-first, fresh_id,
}
use edgehost.Core.Buffers.Slots.{first-set_live, first-set_free}

-- The core with the next id moved on, and with slot `i` overwritten.
abbrev pub with_slot : Core → ℕ → ℕ → Slot → Core
with_slot c next i w = record c { next_alloc_id = next; bufs = set c.bufs i w }

module _ (c : Core) (id : ℕ) (own : c.next_alloc_id ≡ id) (positive : 0 < id)
    (no_wrap : id + 1 < 2 ^ 32) where
  mint_lem : mint_alloc_id c ≡ (id, record c { next_alloc_id = id + 1 })
  unfolding mint_alloc_id
  mint_lem = ground arith

  pub alloc_in_room :
      (i : ℕ) (kind : BufKind) (size : ℕ)
      → c.cnt < c.qsz
      → alloc_in c i kind size ≡ (
        id,
        queued (with_slot c (id + 1) i (pending_slot kind id size)) (alloc_event kind id size),
      )
  unfolding alloc_in
  alloc_in_room i kind size room = rw (
    mint_lem,
    emit_event_room (with_slot c (id + 1) i (pending_slot kind id size)) (alloc_event kind id size)
        room,
  )

  alloc_in_full :
      (i : ℕ) (kind : BufKind) (size : ℕ)
      → c.qsz ≤ c.cnt
      → alloc_in c i kind size ≡ (0, overflowed (with_slot c (id + 1) i zero_slot))
  unfolding alloc_in
  alloc_in_full i kind size full =
      rw
        (
          mint_lem,
          emit_event_full (with_slot c (id + 1) i (pending_slot kind id size))
              (alloc_event kind id size) full,
        )
        (ap
          (λ bufs.
            (let r : ℕ × Core =
                (0, overflowed (record c { next_alloc_id = id + 1; bufs = bufs })) in
              r))
          (set_twice c.bufs i _ zero_slot))

pub with_slot-IsRing : {c : Core} (next i : ℕ) (w : Slot) → IsRing c → IsRing (with_slot c next i w)
with_slot-IsRing next i w r = record {
  nonempty = r.nonempty;
  small = r.small;
  sized = r.sized;
  head_in = r.head_in;
  cnt_in = r.cnt_in;
  tail_at = r.tail_at;
}

-- What `edgecore_request_alloc` returns and leaves.
pub record Requested (c : Core) (kind : BufKind) (size : ℕ) (o : ℕ × Core) : Type 0 where
  pub valid : IsValid o.1
  pub ring : IsRing o.1
  pub fresh : o.0 ≢ 0 → slot_of c o.0 ≡ none
  pub named :
      o.0 ≢ 0
      → (j : ℕ)
      → slot_of o.1 j ≡ (if o.0 == j then some (pending_slot kind o.0 size) else slot_of c j)
  pub asked : o.0 ≢ 0 → contents o.1 ≡ contents c ++ (alloc_event kind o.0 size ∷ [])
  pub refused : o.0 ≡ 0 → (j : ℕ) → slot_of o.1 j ≡ slot_of c j

-- A call that is refused before anything is written.
early-Requested :
    {c : Core} (kind : BufKind) (size : ℕ) → IsValid c → IsRing c → Requested c kind size (0, c)
early-Requested kind size v r = record {
  valid = v;
  ring = r;
  fresh = λ h. absurd (h refl);
  named = λ h. absurd (h refl);
  asked = λ h. absurd (h refl);
  refused = λ _ j. refl;
}

module _ {c : Core} (kind : BufKind) (size : ℕ) (v : IsValid c) (r : IsRing c) (i : ℕ) {s : Slot}
    (at : get_elem? c.bufs i ≡ some s) (free : is_live s ≡ false) where
  granted-Requested :
      c.cnt < c.qsz
      → (let id = c.next_alloc_id in
          Requested c kind size (
            id,
            queued (with_slot c (id + 1) i (pending_slot kind id size)) (alloc_event kind id size),
          ))
  granted-Requested room = record {
    valid = u;
    ring = queued-IsRing (alloc_event kind id size) (with_slot-IsRing (id + 1) i w r) room;
    fresh = λ nz. ground (arith, slot_of-first c id, first_of_none (has_id id) c.bufs (fresh_id v));
    named = λ nz j. ground (
      arith,
      slot_of-first after j,
      slot_of-first c j,
      first-set_live v i w at (id + 1) j u refl (λ l. absurd (ground arith)),
    );
    asked = λ nz. contents-queued (alloc_event kind id size) (with_slot-IsRing (id + 1) i w r) room;
    refused = λ z. absurd (omega (arith, v.positive));
  }
    where
      id : ℕ
      id = c.next_alloc_id

      w : Slot
      w = pending_slot kind id size

      after : Core
      after = queued (with_slot c (id + 1) i w) (alloc_event kind id size)

      u : IsTable (set c.bufs i w) (id + 1)
      u =
          set-IsTable v i w at (id + 1) (omega arith) (new_id free (fresh_id v))
            (ground (arith, v.positive))

  rolled_back-Requested :
      Requested c kind size (0, overflowed (with_slot c (c.next_alloc_id + 1) i zero_slot))
  rolled_back-Requested = record {
    valid = set-IsTable v i zero_slot at (c.next_alloc_id + 1) (omega arith) (cleared refl) refl;
    ring = overflowed-IsRing (with_slot-IsRing (c.next_alloc_id + 1) i zero_slot r);
    fresh = λ h. absurd (h refl);
    named = λ h. absurd (h refl);
    asked = λ h. absurd (h refl);
    refused = λ _ j. ground (
      arith,
      slot_of-first (overflowed (with_slot c (c.next_alloc_id + 1) i zero_slot)) j,
      slot_of-first c j,
      first-set_free v i zero_slot at j free refl,
    );
  }

request_bad :
    (c : Core) (kind : BufKind) (size : ℕ)
    → ((size == 0) || is_no_kind kind) ≡ true
    → request_alloc c kind size ≡ (0, c)
unfolding request_alloc
request_bad c kind size h = ground arith

request_no_slot :
    (c : Core) (kind : BufKind) (size : ℕ)
    → find_free_slot c ≡ none
    → request_alloc c kind size ≡ (0, c)
unfolding request_alloc
request_no_slot c kind size h = ground arith

pub request_slot :
    (c : Core) (kind : BufKind) (size i : ℕ)
    → ((size == 0) || is_no_kind kind) ≡ false
    → find_free_slot c ≡ some i
    → request_alloc c kind size ≡ alloc_in c i kind size
unfolding request_alloc
request_slot c kind size i ok h = ground arith

-- On a valid table and ring, as long as ids have not run through all 32 bits,
-- `edgecore_request_alloc` keeps both invariants. When it returns an id, the id named nothing
-- before, it names a pending slot of that kind and size now, every other id names what it named,
-- and the NEED_ALLOC event for it is queued behind all others. When it returns 0, every id names
-- what it named, on a full ring too.
pub request_alloc-Requested :
    {c : Core} (kind : BufKind) (size : ℕ)
    → IsValid c
    → IsRing c
    → c.next_alloc_id + 1 < 2 ^ 32
    → Requested c kind size (request_alloc c kind size)
unfolding find_free_slot
request_alloc-Requested {c} kind size v r no_wrap =
    elim (Bool-cases ((size == 0) || is_no_kind kind)) [
      | inl bad ↦
          subst (Requested c kind size) (sym (request_bad c kind size bad))
            (early-Requested kind size v r)
      | inr ok ↦ elim (Option-cases (find_free_slot c)) [
        | inl h ↦
            subst (Requested c kind size) (sym (request_no_slot c kind size h))
              (early-Requested kind size v r)
        | inr (i, h) ↦
            let (s, at, free) = find_index-some is_free c.bufs i h in
            let dead : is_live s ≡ false = ground arith in
            subst (Requested c kind size) (sym (request_slot c kind size i ok h))
              (elim (dec_lt c.cnt c.qsz) [
                | yes room ↦
                    subst (Requested c kind size)
                      (sym
                        (alloc_in_room c c.next_alloc_id refl v.positive no_wrap i kind size room))
                      (granted-Requested kind size v r i at dead room)
                | no full ↦
                    subst (Requested c kind size)
                      (sym (
                        alloc_in_full c c.next_alloc_id refl v.positive no_wrap i kind size
                          (omega arith)))
                      (rolled_back-Requested kind size v r i at dead)
              ])
      ]
    ]

pub is_no_kind_iff : (kind : BufKind) → (is_no_kind kind ≡ true) ↔ (kind ≡ no_kind)
is_no_kind_iff no_kind = (λ _. refl, λ _. refl)
is_no_kind_iff _ = (λ h. cc, λ h. cc)

-- What a request needs.
abbrev pub Grantable : Core → BufKind → ℕ → Type 0
Grantable c kind size =
    (size ≢ 0) × (kind ≢ no_kind) × (0 < count_if is_free c.bufs) × (c.cnt < c.qsz)

-- On a valid table, as long as ids have not run through all 32 bits, `edgecore_request_alloc`
-- returns an id other than 0 exactly when the size is positive, the kind is a real one, some slot
-- is free and the ring has room.
pub request_alloc_iff :
    (c : Core) (kind : BufKind) (size : ℕ)
    → IsValid c
    → c.next_alloc_id + 1 < 2 ^ 32
    → ((request_alloc c kind size).0 ≢ 0) ↔ Grantable c kind size
unfolding find_free_slot
request_alloc_iff c kind size v no_wrap = elim (Bool-cases ((size == 0) || is_no_kind kind)) [
  | inl bad ↦
      let e = request_bad c kind size bad in
      (λ nz. absurd (ground arith), λ g. absurd (ground (arith, g.0, g.1, is_no_kind_iff kind)))
  | inr ok ↦ elim (Option-cases (find_free_slot c)) [
    | inl h ↦
        let e = request_no_slot c kind size h in
        (
          λ nz. absurd (ground arith),
          λ g. absurd (omega (arith, g.2, find_index-none is_free c.bufs h)),
        )
    | inr (i, h) ↦
        let (s, at, free) = find_index-some is_free c.bufs i h in
        let some_free = count_if_pos is_free c.bufs i at free in
        let start = request_slot c kind size i ok h in
        elim (dec_lt c.cnt c.qsz) [
          | yes room ↦
              let e =
                start ∙ alloc_in_room c c.next_alloc_id refl v.positive no_wrap i kind size room in
              (
                λ _. (ground arith, λ k. ground (arith, is_no_kind_iff kind, k), some_free, room),
                λ _ z. ground (arith, v.positive),
              )
          | no full ↦
              let e =
                start
                ∙ alloc_in_full c c.next_alloc_id refl v.positive no_wrap i kind size
                    (omega arith) in
              (λ nz. absurd (ground arith), λ g. absurd (full g.3))
        ]
  ]
]
