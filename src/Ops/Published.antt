-- ===== src/Ops/Published.antt =====
-- ops.go with the callback of SubmitEntry in ring.go: which entry the kernel finds in the array.
use iouring_go.Base.{
  ℕ, zero, suc, ◌+◌, ◌-◌, ◌%◌, ◌^◌, ◌<◌, ◌≡◌, ◌≢◌, refl, ap, ◌∙◌, Option, none, some, get_elem?,
  length, arith, length-set, get_elem?-set_self, get_elem?-set_ne,
}
use native.Mathlib.Nat.{mod-eq_of_lt, mod-eq-sub-mod, pow-suc}
use native.Mathlib.Decide.{dec_lt}
use iouring_go.Base.Bits.{pow-pos}
use iouring_go.Base.Outcome.{done}
use iouring_go.Entry.{SubmitEntry}
use iouring_go.Queue.{SubmitQueue}
use iouring_go.Submit.Slots.{mod-in, slot_present}
use iouring_go.Ring.{Ring}
use iouring_go.Ops.{ok}
use iouring_go.Ops.Requests.{Request, call, entry_of, HasBytes}
use iouring_go.Ops.Prepare.{IsReady, slot_of, after, sq_with}
use iouring_go.Ops.Encoding.{call-after}

-- The entry that the kernel takes for position `pos` of the queue: the array gives its index.
abbrev pub sqe_at : ℕ → SubmitQueue → ℕ → Option SubmitEntry
sqe_at k s pos = elim (get_elem? s.array (pos % 2 ^ k)) [
  | none ↦ none
  | some i ↦ get_elem? s.entries i
]

pub sqe_at-some :
    (k : ℕ) (s : SubmitQueue) (pos i : ℕ) {e : SubmitEntry}
    → get_elem? s.array (pos % 2 ^ k) ≡ some i
    → get_elem? s.entries i ≡ some e
    → sqe_at k s pos ≡ some e
sqe_at-some k s pos i h h' = ground arith

two-le-pow : (k : ℕ) → 0 < k → 1 < 2 ^ k
two-le-pow zero h = absurd (omega arith)
two-le-pow (suc k) h = omega (arith, pow-suc 2 k, pow-pos k)

-- A ring stays ready after a Prepare function.
pub after-IsReady : {k : ℕ} {r : Ring} (e : SubmitEntry) → IsReady k r → IsReady k (after k r e)
after-IsReady {k} {r} e h = record {
  valid = record {
    small = h.valid.small;
    mask_ones = h.valid.mask_ones;
    n_entries = length-set r.sq.entries (slot_of k r) e ∙ h.valid.n_entries;
    n_array = length-set r.sq.array (slot_of k r) (r.sq.head % 2 ^ k) ∙ h.valid.n_array;
  };
  free = h.free;
  room = h.room;
}

module _ {k : ℕ} {r : Ring} (ready : IsReady k r) (e : SubmitEntry) where
  in_entries : slot_of k r < length r.sq.entries
  in_entries = omega (arith, mod-in ready.valid r.sq.tail, ready.valid.n_entries)

  in_array : slot_of k r < length r.sq.array
  in_array = omega (arith, mod-in ready.valid r.sq.tail, ready.valid.n_array)

  -- The index that the callback stores is that of the head.
  pub array-after : get_elem? (sq_with k r e).array (slot_of k r) ≡ some (r.sq.head % 2 ^ k)
  array-after = get_elem?-set_self r.sq.array (slot_of k r) (r.sq.head % 2 ^ k) in_array

  pub entries-after : get_elem? (sq_with k r e).entries (slot_of k r) ≡ some e
  entries-after = get_elem?-set_self r.sq.entries (slot_of k r) e in_entries

  drained-array :
      r.sq.head % 2 ^ k ≡ slot_of k r
      → get_elem? (sq_with k r e).array (r.sq.head % 2 ^ k) ≡ some (slot_of k r)
  drained-array d = ap (get_elem? (sq_with k r e).array) d ∙ array-after ∙ ap some d

  pub sqe_at-after : r.sq.head % 2 ^ k ≡ slot_of k r → sqe_at k (sq_with k r e) r.sq.head ≡ some e
  sqe_at-after d =
      sqe_at-some k (sq_with k r e) r.sq.head (slot_of k r) (drained-array d) entries-after

-- On a ready ring whose queue the kernel has emptied, after a Prepare function with slices that are
-- not empty, the entry that the kernel takes next is that of the call, and the ring is ready again.
pub call-sqe_at :
    (k fuel : ℕ) (r : Ring) (q : Request)
    → IsReady k r
    → HasBytes q
    → r.sq.head % 2 ^ k ≡ r.sq.tail % 2 ^ k
    → (e : SubmitEntry) × (r' : Ring) × (call (suc fuel) q r ≡ done (ok ((r.idx + 1) % 2 ^ 64), r'))
      × (get_elem? r.sq.entries (r.sq.tail % 2 ^ k) ≡ some e)
      × (sqe_at k r'.sq r.sq.head ≡ some (entry_of q ((r.idx + 1) % 2 ^ 64) e.anon0))
      × (r'.sq.writes ≡ r.sq.writes)
      × IsReady k r'
call-sqe_at k fuel r q ready bytes drained =
    let (e, at) = slot_present ready.valid in
    let e' : SubmitEntry = entry_of q ((r.idx + 1) % 2 ^ 64) e.anon0 in
    (
      e,
      after k r e',
      call-after ready fuel q bytes at,
      at,
      sqe_at-after ready e' drained,
      refl,
      after-IsReady e' ready,
    )

next-ne : (n a : ℕ) → 1 < n → a < n → (a + 1) % n ≢ a
next-ne n a h b = elim (dec_lt (a + 1) n) [
  | yes p ↦ omega (arith, mod-eq_of_lt p)
  | no p ↦ omega (
    arith,
    mod-eq-sub-mod {n = a + 1} {m = n} (omega arith),
    mod-eq_of_lt {n = a + 1 - n} {m = n} (omega arith),
  )
]

-- Two calls, with slices that are not empty, on a ready and emptied ring of at least two entries, with
-- nothing taken in between: in the second position the kernel finds the entry of the first call
-- again.
pub second_call_repeats :
    (k fuel : ℕ) (r : Ring) (q q' : Request)
    → IsReady k r
    → HasBytes q
    → HasBytes q'
    → 0 < k
    → r.sq.head % 2 ^ k ≡ r.sq.tail % 2 ^ k
    → (e : SubmitEntry) × (r' : Ring) × (r'' : Ring) × (call (suc fuel) q r
        ≡ done (ok ((r.idx + 1) % 2 ^ 64), r'))
      × (call (suc fuel) q' r' ≡ done (ok ((r'.idx + 1) % 2 ^ 64), r''))
      × (sqe_at k r''.sq r.sq.head ≡ some (entry_of q ((r.idx + 1) % 2 ^ 64) e.anon0))
      × (sqe_at k r''.sq r'.sq.tail ≡ some (entry_of q ((r.idx + 1) % 2 ^ 64) e.anon0))
second_call_repeats k fuel r q q' ready bytes bytes' wide drained =
    let (e, at) = slot_present ready.valid in
    let e₁ : SubmitEntry = entry_of q ((r.idx + 1) % 2 ^ 64) e.anon0 in
    let r₁ : Ring = after k r e₁ in
    let ready₁ = after-IsReady e₁ ready in
    let (f, at₁) = slot_present ready₁.valid in
    let e₂ : SubmitEntry = entry_of q' ((r₁.idx + 1) % 2 ^ 64) f.anon0 in
    let apart : slot_of k r₁ ≢ slot_of k r =
      next-ne (2 ^ k) (slot_of k r) (two-le-pow k wide) (mod-in ready.valid r.sq.tail) in
    let kept : get_elem? (sq_with k r₁ e₂).entries (slot_of k r) ≡ some e₁ =
      get_elem?-set_ne r₁.sq.entries e₂ apart ∙ entries-after ready e₁ in
    (
      e,
      r₁,
      after k r₁ e₂,
      call-after ready fuel q bytes at,
      call-after ready₁ fuel q' bytes' at₁,
      sqe_at-some k (sq_with k r₁ e₂) r.sq.head (slot_of k r)
          (get_elem?-set_ne r₁.sq.array (r₁.sq.head % 2 ^ k) (λ p. apart (p ∙ drained))
            ∙ drained-array ready e₁ drained)
          kept,
      sqe_at-some k (sq_with k r₁ e₂) r₁.sq.tail (slot_of k r)
          (array-after ready₁ e₂ ∙ ap some drained) kept,
    )
