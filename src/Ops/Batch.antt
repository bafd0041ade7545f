-- ===== src/Ops/Batch.antt =====
-- ops.go with the callback of SubmitEntry in ring.go: entries prepared one after the other, with none
-- of them taken in between.
use iouring_go.Base.{
  ℕ, suc, ◌+◌, ◌%◌, ◌^◌, ◌<◌, ◌≤◌, ◌≡◌, ◌≢◌, refl, sym, ap, subst, ◌∙◌, List, [], ◌∷◌, some,
  get_elem?, length, arith, get_elem?-set_ne,
}
use native.Mathlib.Nat.{mod-add-mod}
use native.Mathlib.Decide.{dec_lt}
use iouring_go.Base.Bits.{pow-pos, add-mod_cancel}
use iouring_go.Base.Outcome.{M, done, pure, ◌>>=◌}
use iouring_go.Entry.{SubmitEntry}
use iouring_go.Queue.{SubmitQueue}
use iouring_go.Submit.Slots.{slot_present}
use iouring_go.Ring.{Ring}
use iouring_go.Ops.{Prepared, ok}
use iouring_go.Ops.Requests.{Request, call, entry_of, HasBytes}
use iouring_go.Ops.Prepare.{IsReady, slot_of, after, sq_with}
use iouring_go.Ops.Encoding.{call-after}
use iouring_go.Ops.Published.{sqe_at, sqe_at-some, after-IsReady, array-after, entries-after}

-- The queue behind `c` entries prepared from a position `h` on, the first of them `e`.
pub record Batched (k h c : ℕ) (e : SubmitEntry) (s : SubmitQueue) : Type 0 where
  pub head : s.head % 2 ^ k ≡ h % 2 ^ k
  pub tail : s.tail % 2 ^ k ≡ (h + c) % 2 ^ k
  pub array : (j : ℕ) → j < c → get_elem? s.array ((h + j) % 2 ^ k) ≡ some (h % 2 ^ k)
  pub first : get_elem? s.entries (h % 2 ^ k) ≡ some e

module _ {k : ℕ} {r : Ring} (ready : IsReady k r) where
  sq_with-tail :
      (h c : ℕ) (e : SubmitEntry)
      → r.sq.tail % 2 ^ k ≡ (h + c) % 2 ^ k
      → (sq_with k r e).tail % 2 ^ k ≡ (h + (c + 1)) % 2 ^ k
  sq_with-tail h c e t =
      ap (λ y. (y + 1) % 2 ^ k) t
      ∙ mod-add-mod (h + c) (2 ^ k) 1
      ∙ ap (λ y. y % 2 ^ k) (omega arith)

  at_slot :
      (e : SubmitEntry) (x : ℕ)
      → x ≡ slot_of k r
      → get_elem? (sq_with k r e).array x ≡ some (r.sq.head % 2 ^ k)
  at_slot e x q = ap (get_elem? (sq_with k r e).array) q ∙ array-after ready e

  pub first-Batched :
      (e : SubmitEntry) → r.sq.head % 2 ^ k ≡ slot_of k r → Batched k r.sq.head 1 e (sq_with k r e)
  first-Batched e d = record {
    head = refl;
    tail = sq_with-tail r.sq.head 0 e (sym d ∙ ap (λ y. y % 2 ^ k) (omega arith));
    array = λ j lt. at_slot e _ (ap (λ y. y % 2 ^ k) (omega (arith, lt)) ∙ d);
    first = ap (get_elem? (sq_with k r e).entries) d ∙ entries-after ready e;
  }

  pub next-Batched :
      {h c : ℕ} {e : SubmitEntry} (e' : SubmitEntry)
      → 0 < c
      → c < 2 ^ k
      → Batched k h c e r.sq
      → Batched k h (c + 1) e (sq_with k r e')
  next-Batched {h} {c} {e} e' some_in room b =
      let apart : (j : ℕ) → j < c → slot_of k r ≢ (h + j) % 2 ^ k = λ j lt q. absurd (
        omega (
          arith,
          lt,
          add-mod_cancel (2 ^ k) h c j (pow-pos k) room (omega (arith, lt, room)) (sym b.tail ∙ q),
        )) in
      record {
        head = b.head;
        tail = sq_with-tail h c e' b.tail;
        array = λ j lt. elim (dec_lt j c) [
          | yes p ↦ get_elem?-set_ne r.sq.array (r.sq.head % 2 ^ k) (apart j p) ∙ b.array j p
          | no p ↦
              at_slot e' _ (ap (λ y. y % 2 ^ k) (omega (arith, p, lt)) ∙ sym b.tail)
              ∙ ap some b.head
        ];
        first =
            get_elem?-set_ne r.sq.entries e'
              (λ q. apart 0 some_in (q ∙ ap (λ y. y % 2 ^ k) (omega arith)))
            ∙ b.first;
      }

-- The kernel finds the first entry in every position of the batch.
pub Batched-sqe_at :
    {k h c : ℕ} {e : SubmitEntry} {s : SubmitQueue} (j : ℕ)
    → Batched k h c e s
    → j < c
    → sqe_at k s (h + j) ≡ some e
Batched-sqe_at {k} {h} {s = s} j b lt = sqe_at-some k s (h + j) (h % 2 ^ k) (b.array j lt) b.first

-- Prepare functions called one after the other.
unfoldable pub calls : ℕ → List Request → M Ring (List Prepared)
calls fuel [] = pure []
calls fuel (q ∷ qs) = do p ← call fuel q; ps ← calls fuel qs; pure (p ∷ ps)

-- The ids that they return, from `idx` on.
unfoldable pub ids_from : ℕ → List Request → List Prepared
ids_from idx [] = []
ids_from idx (q ∷ qs) = ok ((idx + 1) % 2 ^ 64) ∷ ids_from ((idx + 1) % 2 ^ 64) qs

unfoldable pub AllHaveBytes : List Request → Type 0
AllHaveBytes [] = Unit
AllHaveBytes (q ∷ qs) = HasBytes q × AllHaveBytes qs

calls-Batched :
    (k fuel h c : ℕ) (e : SubmitEntry) (qs : List Request) (r : Ring)
    → IsReady k r
    → AllHaveBytes qs
    → 0 < c
    → c + length qs ≤ 2 ^ k
    → Batched k h c e r.sq
    → (r' : Ring) × (calls (suc fuel) qs r ≡ done (ids_from r.idx qs, r'))
      × Batched k h (c + length qs) e r'.sq
unfolding calls ids_from AllHaveBytes
calls-Batched k fuel h c e [] r ready bytes some_in room b =
    (r, refl, subst (λ n. Batched k h n e r.sq) (omega arith) b)
calls-Batched k fuel h c e (q ∷ qs) r ready (bytes, more) some_in room b =
    let (f, at) = slot_present ready.valid in
    let e' : SubmitEntry = entry_of q ((r.idx + 1) % 2 ^ 64) f.anon0 in
    let (r', ran, b') =
      calls-Batched k fuel h (c + 1) e qs (after k r e') (after-IsReady e' ready) more (omega arith)
        (omega (arith, room)) (next-Batched ready e' some_in (omega (arith, room)) b) in
    (
      r',
      ground (arith, call-after ready fuel q bytes at, ran),
      subst (λ n. Batched k h n e r'.sq) (omega arith) b',
    )

-- Any number of calls, with slices that are not empty and no more of them than the queue has entries,
-- on a ready ring that the kernel has emptied, with nothing taken in between: they return the ids
-- that follow, and in every one of the positions the kernel finds the entry of the first call.
pub calls_repeat :
    (k fuel : ℕ) (r : Ring) (q : Request) (qs : List Request)
    → IsReady k r
    → HasBytes q
    → AllHaveBytes qs
    → 1 + length qs ≤ 2 ^ k
    → r.sq.head % 2 ^ k ≡ r.sq.tail % 2 ^ k
    → (anon : List ℕ) × (r' : Ring) × (calls (suc fuel) (q ∷ qs) r
        ≡ done (ids_from r.idx (q ∷ qs), r'))
      × ((j : ℕ)
          → j < 1 + length qs
          → sqe_at k r'.sq (r.sq.head + j) ≡ some (entry_of q ((r.idx + 1) % 2 ^ 64) anon))
unfolding calls ids_from
calls_repeat k fuel r q qs ready bytes more room drained =
    let (f, at) = slot_present ready.valid in
    let e : SubmitEntry = entry_of q ((r.idx + 1) % 2 ^ 64) f.anon0 in
    let (r', ran, b) =
      calls-Batched k fuel r.sq.head 1 e qs (after k r e) (after-IsReady e ready) more (omega arith)
        room (first-Batched ready e drained) in
    (
      f.anon0,
      r',
      ground (arith, call-after ready fuel q bytes at, ran),
      λ j lt. Batched-sqe_at j b lt,
    )
