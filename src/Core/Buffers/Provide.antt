-- ===== src/Core/Buffers/Provide.antt =====
-- `edgecore_provide_buffer` and `edgecore_detach_buffer`, and what the getters then return.
use edgehost.Prelude.{
  ℕ, ◌≤◌, ◌≡◌, ◌≢◌, ◌↔◌, refl, Bool, true, false, not, ◌&&◌, ◌||◌, Option, none, some, arith, set,
  get_elem?, ltb, ◌==◌, if◌then◌else◌, Bool-cases, Option-cases, inl, inr, ◌⊎◌, ap, ◌∙◌, sym, subst,
}
use edgehost.Prelude.Table.{deref, first_both, keep_if, deref-find_index}
use edgehost.Core.{Core, Slot, slot_ready, zero_slot}
use edgehost.Core.Buffers.{
  is_pending, is_ready, has_id, ready_id, find_slot_by_id, find_ready, buffer_ptr, buffer_size,
  provide_buffer, provide_in, detach_buffer,
}
use edgehost.Core.Buffers.Invariant.{
  IsValid, cleared, same_id, set-IsTable, slot_of, slot_of-first, formed_slot,
}
use edgehost.Core.Buffers.Slots.{At, slot_of-At, first-set_live, first-set_clear}

-- The getters see the slot that the id names, if it is ready.
pub find_ready_lem :
    (c : Core) (id : ℕ) → IsValid c → find_ready c id ≡ keep_if is_ready (slot_of c id)
unfolding find_ready
find_ready_lem c id v = elim (Bool-cases (id == 0)) [
  | inl z ↦ ground (arith, slot_of-first c id)
  | inr n ↦ rw n (
      deref-find_index (ready_id id) c.bufs
      ∙ first_both (has_id id) (ready_id id) is_ready (λ s. ground arith) c.bufs (v.unique id)
      ∙ sym (ap (keep_if is_ready) (slot_of-first c id ∙ rw n)))
]

abbrev pub made_ready : ℕ → ℕ → Slot → Slot
made_ready ptr size s = record s { ptr = ptr; size = size; state = slot_ready }

-- When the host's buffer is accepted for a slot.
pub record Accepts (s : Slot) (ptr size : ℕ) : Type 0 where
  pub pending : is_pending s ≡ true
  pub enough : s.requested ≤ size
  pub pointer : ptr ≢ 0
  pub positive : size ≢ 0

provide_accepted :
    (c : Core) (id ptr size i : ℕ) {s : Slot}
    → At c id i s
    → Accepts s ptr size
    → provide_buffer c id ptr size
      ≡ (true, record c { bufs = set c.bufs i (made_ready ptr size s) })
unfolding provide_buffer provide_in
provide_accepted c id ptr size i a b =
    ground (arith, a.found, a.at_slot, a.nonzero, b.pending, b.enough, b.pointer, b.positive)

provide_refused :
    (c : Core) (id ptr size i : ℕ) {s : Slot}
    → At c id i s
    → (Accepts s ptr size → ⊥)
    → provide_buffer c id ptr size ≡ (false, c)
unfolding provide_buffer provide_in
provide_refused c id ptr size i {s} a b =
    elim (Bool-cases (is_pending s && not (ptr == 0 || size == 0 || ltb size s.requested))) [
      | inl good ↦ absurd (
          b (record {
            pending = ground arith;
            enough = ground arith;
            pointer = ground arith;
            positive = ground arith;
          }))
      | inr bad ↦ ground (arith, a.found, a.at_slot, a.nonzero)
    ]

pub slot_gone :
    (c : Core) (id i : ℕ)
    → find_slot_by_id c id ≡ some i
    → slot_of c id ≡ none
    → get_elem? c.bufs i ≡ none
slot_gone c id i e h = ap (deref c.bufs) (sym e) ∙ h

provide_unknown :
    (c : Core) (id ptr size : ℕ) → slot_of c id ≡ none → provide_buffer c id ptr size ≡ (false, c)
unfolding provide_buffer
provide_unknown c id ptr size h = elim (Option-cases (find_slot_by_id c id)) [
  | inl e ↦ ground arith
  | inr (i, e) ↦ ground (arith, slot_gone c id i e h)
]

-- What `edgecore_provide_buffer` returns and leaves.
pub record Provided (c : Core) (id ptr size : ℕ) (s : Slot) (o : Bool × Core) : Type 0 where
  pub status : (o.0 ≡ true) ↔ Accepts s ptr size
  pub valid : IsValid o.1
  pub ready :
      o.0 ≡ true
      → (j : ℕ) → slot_of o.1 j ≡ (if id == j then some (made_ready ptr size s) else slot_of c j)
  pub getters : o.0 ≡ true → (buffer_ptr o.1 id ≡ ptr) × (buffer_size o.1 id ≡ size)
  pub kept : o.0 ≡ false → o.1 ≡ c

accepted-Provided :
    {c : Core} (id ptr size i : ℕ) {s : Slot}
    → IsValid c
    → At c id i s
    → Accepts s ptr size
    → Provided c id ptr size s (true, record c { bufs = set c.bufs i (made_ready ptr size s) })
unfolding buffer_ptr buffer_size
accepted-Provided {c} id ptr size i {s} v a b = record {
  status = (λ _. b, λ _. refl);
  valid = u;
  ready = λ _. found;
  getters = λ _. (
    ground (arith, find_ready_lem after id u, found id),
    ground (arith, find_ready_lem after id u, found id),
  );
  kept = λ h. cc;
}
  where
    after : Core
    after = record c { bufs = set c.bufs i (made_ready ptr size s) }

    u : IsValid after
    u =
        set-IsTable v i (made_ready ptr size s) a.at_slot c.next_alloc_id (omega arith)
          (same_id a.live refl)
          (ground (arith, formed_slot i v a.at_slot, a.live, b.enough, b.pointer, b.positive))

    found :
        (j : ℕ) → slot_of after j ≡ (if id == j then some (made_ready ptr size s) else slot_of c j)
    found j = ground (
      arith,
      slot_of-first after j,
      slot_of-first c j,
      first-set_live v i (made_ready ptr size s) a.at_slot c.next_alloc_id j u refl (λ _. refl),
      a.named,
      a.nonzero,
    )

refused-Provided :
    {c : Core} (id ptr size : ℕ) {s : Slot}
    → IsValid c
    → (Accepts s ptr size → ⊥)
    → Provided c id ptr size s (false, c)
refused-Provided id ptr size v b = record {
  status = (λ h. cc, λ a. absurd (b a));
  valid = v;
  ready = λ h. cc;
  getters = λ h. cc;
  kept = λ _. refl;
}

decide_Accepts : (s : Slot) (ptr size : ℕ) → Accepts s ptr size ⊎ (Accepts s ptr size → ⊥)
decide_Accepts s ptr size =
    elim (Bool-cases (is_pending s && not (ptr == 0 || size == 0 || ltb size s.requested))) [
      | inl good ↦ inl (record {
        pending = ground arith;
        enough = ground arith;
        pointer = ground arith;
        positive = ground arith;
      })
      | inr bad ↦ inr (λ a. ground (arith, a.pending, a.enough, a.pointer, a.positive))
    ]

-- On a valid table, `edgecore_provide_buffer` of an id that names no buffer returns -1 and changes
-- nothing. Of an id that does, it returns 0 exactly when the slot is pending, the pointer is not
-- NULL, and the size is positive and at least the requested one; then that id names a ready buffer
-- of that pointer and size, which the getters return, and every other id what it named; else
-- nothing changes. The invariant is kept.
pub provide_buffer-Provided :
    {c : Core} (id ptr size : ℕ)
    → IsValid c
    → ((slot_of c id ≡ none) × (provide_buffer c id ptr size ≡ (false, c)))
      ⊎ ((s : Slot) × (slot_of c id ≡ some s)
          × Provided c id ptr size s (provide_buffer c id ptr size))
provide_buffer-Provided {c} id ptr size v = elim (Option-cases (slot_of c id)) [
  | inl h ↦ inl (h, provide_unknown c id ptr size h)
  | inr (s, h) ↦ inr (
    s,
    h,
    (let (i, a) = slot_of-At c id h in
        elim (decide_Accepts s ptr size) [
          | inl b ↦
              subst (Provided c id ptr size s) (sym (provide_accepted c id ptr size i a b))
                (accepted-Provided id ptr size i v a b)
          | inr b ↦
              subst (Provided c id ptr size s) (sym (provide_refused c id ptr size i a b))
                (refused-Provided id ptr size v b)
        ]),
  )
]

detach_unknown : (c : Core) (id : ℕ) → slot_of c id ≡ none → detach_buffer c id ≡ (none, c)
unfolding detach_buffer
detach_unknown c id h = elim (Option-cases (find_slot_by_id c id)) [
  | inl e ↦ ground arith
  | inr (i, e) ↦ ground (arith, slot_gone c id i e h)
]

detach_known :
    (c : Core) (id i : ℕ) {s : Slot}
    → At c id i s
    → detach_buffer c id ≡ (some (s.ptr, s.size), record c { bufs = set c.bufs i zero_slot })
unfolding detach_buffer
detach_known c id i a = ground (arith, a.found, a.at_slot, a.nonzero)

pub record Detached (c : Core) (id : ℕ) (s : Slot) (o : Option (ℕ × ℕ) × Core) : Type 0 where
  pub handed_back : o.0 ≡ some (s.ptr, s.size)
  pub valid : IsValid o.1
  pub forgotten : (j : ℕ) → slot_of o.1 j ≡ (if id == j then none else slot_of c j)

known-Detached :
    {c : Core} (id i : ℕ) {s : Slot}
    → IsValid c
    → At c id i s
    → Detached c id s (some (s.ptr, s.size), record c { bufs = set c.bufs i zero_slot })
known-Detached {c} id i {s} v a = record {
  handed_back = refl;
  valid = set-IsTable v i zero_slot a.at_slot c.next_alloc_id (omega arith) (cleared refl) refl;
  forgotten = λ j. ground (
    arith,
    slot_of-first (record c { bufs = set c.bufs i zero_slot }) j,
    slot_of-first c j,
    first-set_clear v i zero_slot a.at_slot j a.live refl,
    a.named,
  );
}

-- On a valid table, `edgecore_detach_buffer` of an id that names no buffer returns -1 and changes
-- nothing. Of an id that does, pending or ready, it hands back the slot's pointer and size; the id
-- names nothing any more, every other id what it named, and the invariant is kept.
pub detach_buffer-Detached :
    {c : Core} (id : ℕ)
    → IsValid c
    → ((slot_of c id ≡ none) × (detach_buffer c id ≡ (none, c)))
      ⊎ ((s : Slot) × (slot_of c id ≡ some s) × Detached c id s (detach_buffer c id))
detach_buffer-Detached {c} id v = elim (Option-cases (slot_of c id)) [
  | inl h ↦ inl (h, detach_unknown c id h)
  | inr (s, h) ↦ inr (
    s,
    h,
    (let (i, a) = slot_of-At c id h in
        subst (Detached c id s) (sym (detach_known c id i a)) (known-Detached id i v a)),
  )
]
