-- ===== src/Stream/Queue.antt =====
-- The ring of messages of a subscriber of src/host/ws_stream.c.
use edgehost.Prelude.{
  suc, ◌+◌, ◌-◌, ◌%◌, ◌≤◌, ◌<◌, ◌≡◌, ◌≢◌, refl, arith, true, false, List, [], ◌∷◌, ◌++◌, map,
  Option, none, some, length, length-set, get_or, set, All, All-append, ap, sym, ◌∙◌, subst,
}
use native.Mathlib.Nat.{mod-add-mod, add_assoc}
use edgehost.Prelude.Text.{Bytes}
use edgehost.Prelude.Window.{window, turn_ne, turn_next, window-set_ne, window-set_end, cons-window}
use edgehost.Stream.{Subscriber, zero_subscriber, pending_max, text_of, take_first, put_last}

abbrev pub slots : Subscriber → List (Option Bytes)
slots s = window none s.q pending_max s.head s.n

abbrev pub waiting : Subscriber → List Bytes
waiting s = map text_of (slots s)

abbrev pub IsHeld : Option Bytes → Type 0
IsHeld o = (m : Bytes) × (o ≡ some m)

-- The indices are in range, every slot between them holds a message, and a slot that is not active waits
-- for nothing.
pub record IsSubscriber (s : Subscriber) : Type 0 where
  pub sized : length s.q ≡ pending_max
  pub head_in : s.head < pending_max
  pub n_in : s.n ≤ pending_max
  pub tail_at : s.tail ≡ (s.head + s.n) % pending_max
  pub held : All IsHeld (slots s)
  pub idle : s.active ≡ false → s.n ≡ 0

pub zero-IsSubscriber : IsSubscriber zero_subscriber
zero-IsSubscriber = record {
  sized = refl;
  head_in = omega arith;
  n_in = omega arith;
  tail_at = refl;
  held = tt;
  idle = λ e. refl;
}

pub slots-take_first :
    (s : Subscriber)
    → IsSubscriber s
    → s.n ≢ 0
    → slots s ≡ get_or s.q s.head none ∷ slots (take_first s)
slots-take_first s v some_message =
    cons-window none s.q pending_max s.head s.n some_message
    ∙ ap (λ l. get_or s.q s.head none ∷ l)
        (sym (
          window-set_ne none s.q pending_max s.head none (s.n - 1) ((s.head + 1) % pending_max)
            (omega arith)
            (λ k hk e.
              turn_ne pending_max s.head k v.head_in (omega (arith, v.n_in, hk))
                (turn_next pending_max s.head k ∙ sym e))))

pub slots-put_last :
    (s : Subscriber) (m : Bytes)
    → IsSubscriber s
    → s.n < pending_max
    → slots (put_last s m) ≡ slots s ++ (some m ∷ [])
slots-put_last s m v room =
    ap (window none (set s.q s.tail (some m)) pending_max s.head) {y = suc s.n} (omega arith)
    ∙ window-set_end none s.q pending_max (some m) s.n s.head s.tail (omega (arith, v.sized))
        v.head_in room v.tail_at

pub take_first-IsSubscriber :
    (s : Subscriber) → IsSubscriber s → s.n ≢ 0 → IsSubscriber (take_first s)
take_first-IsSubscriber s v some_message = record {
  sized = length-set s.q s.head none ∙ v.sized;
  head_in = omega arith;
  n_in = omega (arith, v.n_in);
  tail_at =
      v.tail_at
      ∙ ap (λ t. t % pending_max) (omega arith)
      ∙ sym (mod-add-mod (s.head + 1) pending_max (s.n - 1));
  held = (subst (All IsHeld) (slots-take_first s v some_message) v.held).1;
  idle = λ e. omega (arith, v.idle e);
}

pub put_last-IsSubscriber :
    (s : Subscriber) (m : Bytes)
    → IsSubscriber s
    → s.active ≡ true
    → s.n < pending_max
    → IsSubscriber (put_last s m)
put_last-IsSubscriber s m v on room = record {
  sized = length-set s.q s.tail (some m) ∙ v.sized;
  head_in = v.head_in;
  n_in = omega (arith, room);
  tail_at =
      ap (λ t. (t + 1) % pending_max) v.tail_at
      ∙ mod-add-mod (s.head + s.n) pending_max 1
      ∙ ap (λ t. t % pending_max) (add_assoc s.head s.n 1);
  held =
      subst (All IsHeld) (sym (slots-put_last s m v room))
        (All-append IsHeld (slots s) (some m ∷ []) v.held ((m, refl), tt));
  idle = λ e. absurd (cc (sym on ∙ e));
}
