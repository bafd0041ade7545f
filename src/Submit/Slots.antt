-- ===== src/Submit/Slots.antt =====
-- ring.go, SubmitEntry: which slot it hands out, and in what state.
use iouring_go.Base.{
  ℕ, suc, ◌+◌, ◌%◌, ◌^◌, ◌<◌, ◌≡◌, refl, ◌∙◌, bit_and, get_elem?, set, some, arith, length-set,
  get_elem?-some,
}
use native.Mathlib.Nat.{pow-le-pow_right, pow-suc, mod-lt}
use iouring_go.Base.Bits.{bit_and_mask, pow-pos}
use iouring_go.Base.Outcome.{done}
use iouring_go.Entry
use iouring_go.Entry.{SubmitEntry}
use iouring_go.Queue.{SubmitQueue}
use iouring_go.Submit.{Reservation, submit_entry, IsValid}

-- The kernel's sizes are powers of two below 2 ^ 31.
pub pow-lt : (k : ℕ) → k < 31 → 2 ^ k < 2 ^ 31
pow-lt k h =
    omega
      (arith, pow-le-pow_right {n = 2} (omega arith) {i = suc k} {j = 31} h, pow-suc 2 k, pow-pos k)

-- What one reservation does to the queue.
pub record Reserves (k : ℕ) (s : SubmitQueue) (r : Reservation) (s' : SubmitQueue) : Type 0 where
  pub slot_at : r.slot ≡ s.tail % 2 ^ k
  pub next_at : r.next ≡ r.slot + 1
  pub head_at : r.head ≡ s.head
  pub mask_at : r.mask ≡ s.mask
  pub tail_at : s'.tail ≡ r.slot + 1
  pub counted : s'.writes ≡ (s.writes + 1) % 2 ^ 32
  pub clean :
      (e : SubmitEntry) × (get_elem? s.entries r.slot ≡ some e)
      × (s'.entries ≡ set s.entries r.slot (Entry.reset e))
  pub head_kept : s'.head ≡ s.head
  pub mask_kept : s'.mask ≡ s.mask
  pub flags_kept : s'.flags ≡ s.flags
  pub entered_kept : s'.entered ≡ s.entered
  pub array_kept : s'.array ≡ s.array
  pub size_kept : s'.size ≡ s.size
  pub dropped_kept : s'.dropped ≡ s.dropped

module _ {k : ℕ} {s : SubmitQueue} (v : IsValid k s) where
  pub mask-mod : (a : ℕ) → bit_and a s.mask ≡ a % 2 ^ k
  mask-mod a = rw (v.mask_ones) (bit_and_mask k a)

  pub mod-in : (a : ℕ) → a % 2 ^ k < 2 ^ k
  mod-in a = mod-lt a (pow-pos k)

  pub slot_present : (e : SubmitEntry) × (get_elem? s.entries (s.tail % 2 ^ k) ≡ some e)
  slot_present =
      get_elem?-some s.entries (s.tail % 2 ^ k) (omega (arith, mod-in s.tail, v.n_entries))

-- What SubmitEntry returns when nobody is entering the ring, and the queue that it leaves.
abbrev pub reservation : ℕ → SubmitQueue → Reservation
reservation k s = record {
  slot = s.tail % 2 ^ k;
  next = s.tail % 2 ^ k + 1;
  head = s.head;
  mask = s.mask;
}

abbrev pub reserved : ℕ → SubmitQueue → SubmitEntry → SubmitQueue
reserved k s e = record s {
  tail = s.tail % 2 ^ k + 1;
  writes = (s.writes + 1) % 2 ^ 32;
  entries = set s.entries (s.tail % 2 ^ k) (Entry.reset e);
}

pub submit_entry-at :
    (k fuel : ℕ) (s : SubmitQueue) {e : SubmitEntry}
    → IsValid k s
    → s.entered ≡ 0
    → get_elem? s.entries (s.tail % 2 ^ k) ≡ some e
    → submit_entry (suc fuel) s ≡ done (some (reservation k s), reserved k s e)
unfolding submit_entry
submit_entry-at k fuel s v free found =
    ground (arith, mask-mod v s.tail, mod-in v s.tail, pow-lt k v.small)

-- On a valid queue that is not being entered, SubmitEntry returns in its first round: the entry at
-- `tail` modulo the size, reset, with the tail set one past its index and the writers counted;
-- everything else of the queue is as before.
pub submit_entry-Reserves :
    (k fuel : ℕ) (s : SubmitQueue)
    → IsValid k s
    → s.entered ≡ 0
    → (r : Reservation) × (s' : SubmitQueue) × (submit_entry (suc fuel) s ≡ done (some r, s'))
      × Reserves k s r s'
submit_entry-Reserves k fuel s v free =
    let (e, found) = slot_present v in
    (
      reservation k s,
      reserved k s e,
      submit_entry-at k fuel s v free found,
      record {
        slot_at = refl;
        next_at = refl;
        head_at = refl;
        mask_at = refl;
        tail_at = refl;
        counted = refl;
        clean = (e, found, refl);
        head_kept = refl;
        mask_kept = refl;
        flags_kept = refl;
        entered_kept = refl;
        array_kept = refl;
        size_kept = refl;
        dropped_kept = refl;
      },
    )

-- The sizes of a valid queue stay, so the reservations can go on.
pub Reserves-IsValid :
    {k : ℕ} {s s' : SubmitQueue} {r : Reservation} → Reserves k s r s' → IsValid k s → IsValid k s'
Reserves-IsValid {s} {r} g v =
    let (e, found, put) = g.clean in
    record {
      small = v.small;
      mask_ones = g.mask_kept ∙ v.mask_ones;
      n_entries = rw put (length-set s.entries r.slot (Entry.reset e) ∙ v.n_entries);
      n_array = rw g.array_kept v.n_array;
    }
