-- ===== src/Fio/Staging.antt =====
-- read_writer.go: the parts of a transfer: the entry, the callback, and getCqe.
use iouring_go.Base.{
  ℕ, suc, ◌+◌, ◌%◌, ◌^◌, ◌<◌, ◌≡◌, refl, List, ◌∷◌, ◌++◌, some, get_elem?, set, set-set, length,
  replicate, get_elem?-set_self, lt_of_get, inl, inr, arith,
}
use iouring_go.Base.Outcome.{done}
use iouring_go.Entry
use iouring_go.Entry.{SubmitEntry, CompletionEntry, Opcode}
use iouring_go.Submit.{commit}
use iouring_go.Submit.Publish.{commit-at}
use iouring_go.Submit.Slots.{submit_entry-at, reservation, reserved, mask-mod, mod-in, pow-lt}
use iouring_go.Ring.{Ring, Kernel, enter_get_events, next_id}
use iouring_go.Ring.Entering.{enter-Returned, answer_of}
use iouring_go.Ops.{Fill}
use iouring_go.Ops.Prepare.{IsReady, slot_of, after, store-at, user_data-at}
use iouring_go.Fio.{Fio, IoResult, View, get_cqe, after_enter}
use iouring_go.Fio.Finding.{Took, IsIdle, Arrived, at_first, find_cqe-Took}
use iouring_go.Fio.Reading

-- A ring once it has been entered for one entry.
abbrev pub entered : Kernel → Ring → Ring
entered kernel r = record r {
  sq = record ((answer_of kernel 1 1 enter_get_events r).sq) { entered = 0 };
  cq = (answer_of kernel 1 1 enter_get_events r).cq;
}

-- Passes of getCqe: some that see nothing of the request, then one that comes to its completion.
pub record Completes (req x : ℕ) (cqe : CompletionEntry) (views : List View) : Type 0 where
  pub n : ℕ
  pub idle : View
  pub v : View
  pub vs : List View
  pub all : views ≡ replicate n idle ++ v ∷ vs
  pub is_idle : IsIdle req idle
  pub arrived : Arrived req x cqe v.0

module _ (kernel : Kernel) {req x : ℕ} {cqe : CompletionEntry} {views : List View}
    (c : Completes req x cqe views) where
  get_cqe-Took :
      (fuel : ℕ) (i : Fio)
      → i.ring.sq.entered ≡ 0
      → (answer_of kernel 1 1 enter_get_events i.ring).errno ≡ 0
      → (r : IoResult) × (i' : Fio) × (get_cqe kernel (suc fuel) views req 1 1 i ≡ done (r, i'))
        × Took (record i { ring = entered kernel i.ring }) x cqe.res r i'
  unfolding get_cqe after_enter
  get_cqe-Took fuel i free good =
      let (res, e, ret) = enter-Returned kernel fuel 1 1 enter_get_events i.ring free in
      let j : Fio = record i { ring = entered kernel i.ring } in
      let (r, i', f, t) =
        find_cqe-Took req c.n x c.idle c.v c.vs cqe j c.is_idle (at_first c.arrived) in
      elim ret [ inl p ↦ ground (arith, p) | inr p ↦ (r, i', ground (arith, e, p, f, c.all), t) ]

-- The ring between the assignments and the callback.
abbrev pub staged : ℕ → Fio → SubmitEntry → SubmitEntry → Ring
staged k i e e' = record (i.ring) {
  sq = record (reserved k i.ring.sq e) { entries = set i.ring.sq.entries (slot_of k i.ring) e' };
  idx = (i.ring.idx + 1) % 2 ^ 64;
}

module _ {k : ℕ} {i : Fio} (ready : IsReady k i.ring) where
  pub transfer-staged :
      (fuel : ℕ) (fill : Fill) {e e' : SubmitEntry}
      → get_elem? i.ring.sq.entries (slot_of k i.ring) ≡ some e
      → fill ((i.ring.idx + 1) % 2 ^ 64) (Entry.reset e) ≡ done e'
      → Reading.transfer (suc fuel) fill i
        ≡ done (some (e'.user_data, reservation k i.ring.sq), record i { ring = staged k i e e' })
  unfolding Reading.transfer Reading.transfer_in next_id
  transfer-staged fuel fill {e} {e'} at filled =
      let id : ℕ = (i.ring.idx + 1) % 2 ^ 64 in
      let sq = reserved k i.ring.sq e in
      let in_slot = lt_of_get i.ring.sq.entries (slot_of k i.ring) at in
      let in_set : slot_of k i.ring < length sq.entries =
        lt_of_get sq.entries (slot_of k i.ring)
          (get_elem?-set_self i.ring.sq.entries (slot_of k i.ring) (Entry.reset e) in_slot) in
      ground (
        arith,
        submit_entry-at k fuel i.ring.sq ready.valid ready.free at,
        store-at (reservation k i.ring.sq) fill id sq
            (get_elem?-set_self i.ring.sq.entries (slot_of k i.ring) (Entry.reset e) in_slot)
            filled,
        user_data-at (reservation k i.ring.sq)
            (record sq { entries = set sq.entries (slot_of k i.ring) e' })
            (get_elem?-set_self sq.entries (slot_of k i.ring) e' in_set),
        set-set i.ring.sq.entries (slot_of k i.ring) (Entry.reset e) e',
      )

module _ {k : ℕ} (i : Fio) (ready : IsReady k i.ring) where
  commit-staged :
      (e e' : SubmitEntry)
      → commit (reservation k i.ring.sq) (staged k i e e').sq ≡ done (tt, (after k i.ring e').sq)
  commit-staged e e' =
      let in_array : slot_of k i.ring < length i.ring.sq.array =
        omega (arith, mod-in ready.valid i.ring.sq.tail, ready.valid.n_array) in
      let room = ready.room in
      ground (
        arith,
        commit-at (reservation k i.ring.sq) (staged k i e e').sq (omega (arith, room)) refl
            (omega (arith, mod-in ready.valid i.ring.sq.tail, pow-lt k ready.valid.small)) in_array,
        mask-mod ready.valid i.ring.sq.head,
      )

  module _ (kernel : Kernel) {x : ℕ} {cqe : CompletionEntry} {views : List View}
      (c : Completes ((i.ring.idx + 1) % 2 ^ 64) x cqe views) where
    pub publish-Took :
        (fuel : ℕ) (e e' : SubmitEntry)
        → e'.user_data ≡ (i.ring.idx + 1) % 2 ^ 64
        → (answer_of kernel 1 1 enter_get_events (after k i.ring e')).errno ≡ 0
        → (r : IoResult) × (i' : Fio) × (Reading.publish kernel
              (suc fuel)
              views
              (some (e'.user_data, reservation k i.ring.sq))
              (record i { ring = staged k i e e' })
            ≡ done (r, i'))
          × Took (record i { ring = entered kernel (after k i.ring e') }) x cqe.res r i'
    unfolding Reading.publish
    publish-Took fuel e e' same good =
        let (r, i', f, t) =
          get_cqe-Took kernel c fuel (record i { ring = after k i.ring e' }) ready.free good in
        (r, i', ground (arith, commit-staged e e', f, same), t)

    pub transfer_at-Took :
        (fuel : ℕ) (fill : Fill) (e e' : SubmitEntry)
        → get_elem? i.ring.sq.entries (slot_of k i.ring) ≡ some e
        → fill ((i.ring.idx + 1) % 2 ^ 64) (Entry.reset e) ≡ done e'
        → e'.user_data ≡ (i.ring.idx + 1) % 2 ^ 64
        → (answer_of kernel 1 1 enter_get_events (after k i.ring e')).errno ≡ 0
        → (r : IoResult) × (i' : Fio) × (Reading.transfer_at kernel
              (suc fuel)
              views
              fill
              (some (reservation k i.ring.sq))
              (record i { ring = record (i.ring) { sq = reserved k i.ring.sq e } })
            ≡ done (r, i'))
          × Took (record i { ring = entered kernel (after k i.ring e') }) x cqe.res r i'
    unfolding Reading.transfer_at next_id
    transfer_at-Took fuel fill e e' at filled same good =
        let (r, i', f, t) =
          get_cqe-Took kernel c fuel (record i { ring = after k i.ring e' }) ready.free good in
        let id : ℕ = (i.ring.idx + 1) % 2 ^ 64 in
        let sq = reserved k i.ring.sq e in
        let in_slot = lt_of_get i.ring.sq.entries (slot_of k i.ring) at in
        (
          r,
          i',
          ground (
            arith,
            store-at (reservation k i.ring.sq) fill id sq
                (get_elem?-set_self i.ring.sq.entries (slot_of k i.ring) (Entry.reset e) in_slot)
                filled,
            set-set i.ring.sq.entries (slot_of k i.ring) (Entry.reset e) e',
            commit-staged e e',
            user_data-at (reservation k i.ring.sq) (after k i.ring e').sq
                (get_elem?-set_self i.ring.sq.entries (slot_of k i.ring) e' in_slot),
            same,
            f,
          ),
          t,
        )
