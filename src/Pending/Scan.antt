-- ===== src/Pending/Scan.antt =====
-- What the loop of `edge_pending_insert` finds.
use edgehost.Prelude.{
  ℕ, ◌+◌, ◌<◌, ◌≡◌, refl, Bool, not, List, [], ◌∷◌, Option, none, some, arith, if◌then◌else◌,
}
use edgehost.Prelude.Table.{find_index, count_if, next_index}
use edgehost.Pending.{Entry, has_inbound, has_outbound, scan, or_first}

abbrev pub is_free : Entry → Bool
is_free e = not e.used

-- The first of a slot found before and the free slots from `i` on.
abbrev pub first_free : Option ℕ → ℕ → Option ℕ → Option ℕ
first_free (some j) i o = some j
first_free none i none = none
first_free none i (some k) = some (i + k)

first_free-next :
    (free : Option ℕ) (i : ℕ) (o : Option ℕ)
    → first_free free (i + 1) o ≡ first_free free i (next_index o)
first_free-next none i none = refl
first_free-next none i (some k) = ground arith
first_free-next (some j) i o = refl

first_free-here :
    (free : Option ℕ) (i : ℕ) (o : Option ℕ)
    → first_free (or_first free i) (i + 1) o ≡ first_free free i (some 0)
first_free-here none i o = ground arith
first_free-here (some j) i o = refl

first_free-end : (free : Option ℕ) (i : ℕ) → first_free free i none ≡ free
first_free-end none i = refl
first_free-end (some j) i = refl

-- With no slot that has the inbound slot or the outbound id, the loop ends at the first free slot.
pub scan_lem :
    (a b : ℕ) (es : List Entry) (i : ℕ) (free : Option ℕ)
    → count_if (has_inbound a) es ≡ 0
    → count_if (has_outbound b) es ≡ 0
    → scan a b es i free ≡ some (first_free free i (find_index is_free es))
unfolding scan find_index
scan_lem a b [] i free h k = ground (arith, first_free-end free i)
scan_lem a b (e ∷ es) i free h k = ground (
  arith,
  scan_lem a b es (i + 1) (if e.used then free else or_first free i),
  first_free-next free i (find_index is_free es),
  first_free-here free i (find_index is_free es),
)

-- With one, it returns early.
pub scan_duplicate :
    (a b : ℕ) (es : List Entry) (i : ℕ) (free : Option ℕ)
    → 0 < count_if (has_inbound a) es + count_if (has_outbound b) es
    → scan a b es i free ≡ none
unfolding scan
scan_duplicate a b [] i free h = elim h [ ]
scan_duplicate a b (e ∷ es) i free h =
    ground (arith, scan_duplicate a b es (i + 1) (if e.used then free else or_first free i))
