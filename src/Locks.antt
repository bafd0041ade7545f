-- ===== src/Locks.antt =====
-- ring.go and types.go: goroutines that call SubmitEntry, its callback and Enter at the same time,
-- one atomic operation at a time and in any order (sequential consistency).
pub mod Counting
pub mod Safety
pub mod Slots
pub mod Overlap
pub mod Reuse
use iouring_go.Base.{ℕ, ◌+◌, ◌-◌, ◌%◌, ◌^◌, ◌≤◌, ◌<◌, ◌≡◌, ◌≢◌, List, some, bit_and, get_elem?, set}

-- The words that they share, and the sizes, which nobody changes.
pub record Shared : Type 0 where
  pub tail : ℕ
  pub entered : ℕ
  pub writes : ℕ
  pub mask : ℕ
  pub n_entries : ℕ

-- Where a goroutine stands, with its local variables.
pub data Pc : Type 0 where
  idle : Pc
  got_tail : (t : ℕ) → Pc  -- in SubmitEntry, before an exchange of the tail
  reserved : (slot : ℕ) → Pc  -- the exchange succeeded, before the load of `entered`
  clear : (slot : ℕ) → Pc  -- `entered` was 0, before `writes` goes up
  writing : (slot : ℕ) → Pc  -- the caller has the entry, or a round of completeWrite begins
  completing : (slot w : ℕ) → Pc  -- in completeWrite, before the exchange of `writes`
  published : (slot : ℕ) → Pc  -- before the store into `Array`
  panicked : Pc
  locking : Pc  -- a round of enterLock begins
  checking : Pc  -- `writes` was not 0, before the load of `entered`
  trying : Pc  -- before the exchange of `entered`
  inside : Pc  -- between enterLock and enterUnlock

-- `tail&mask + 1`
abbrev pub next_of : Shared → ℕ → ℕ
next_of m t = (bit_and t m.mask + 1) % 2 ^ 32

-- One step of one goroutine. SubmitEntry loads the tail, the head and the mask in one step: the
-- head goes only into `Array`, and the mask does not change.
pub data Move (m : Shared) : Pc → Shared → Pc → Type 0 where
  load_tail : Move m idle m (got_tail m.tail)
  reserve :
      {t : ℕ}
      → next_of m t ≤ m.n_entries
      → m.tail ≡ t
      → Move m (got_tail t) (record m { tail = next_of m t }) (reserved (bit_and t m.mask))
  reserve_lost : {t : ℕ} → next_of m t ≤ m.n_entries → m.tail ≢ t → Move m (got_tail t) m idle
  restart :
      {t : ℕ}
      → m.n_entries < next_of m t
      → m.tail ≡ t
      → Move m (got_tail t) (record m { tail = 0 }) idle
  restart_lost : {t : ℕ} → m.n_entries < next_of m t → m.tail ≢ t → Move m (got_tail t) m idle
  busy : {s : ℕ} → m.entered ≢ 0 → Move m (reserved s) m idle
  not_busy : {s : ℕ} → m.entered ≡ 0 → Move m (reserved s) m (clear s)
  count : {s : ℕ} → Move m (clear s) (record m { writes = (m.writes + 1) % 2 ^ 32 }) (writing s)
  load_writes : {s : ℕ} → m.writes ≢ 0 → Move m (writing s) m (completing s m.writes)
  no_writes : {s : ℕ} → m.writes ≡ 0 → Move m (writing s) m panicked
  uncount :
      {s w : ℕ} → m.writes ≡ w → Move m (completing s w) (record m { writes = w - 1 }) (published s)
  uncount_lost : {s w : ℕ} → m.writes ≢ w → Move m (completing s w) m (writing s)
  store_array : {s : ℕ} → Move m (published s) m idle
  start_enter : Move m idle m locking
  quiet : m.writes ≡ 0 → Move m locking m trying
  writers : m.writes ≢ 0 → Move m locking m checking
  held : m.entered ≡ 1 → Move m checking m locking
  not_held : m.entered ≢ 1 → Move m checking m trying
  lock : m.entered ≡ 0 → Move m trying (record m { entered = 1 }) inside
  lock_lost : m.entered ≢ 0 → Move m trying m locking
  unlock : Move m inside (record m { entered = 0 }) idle

-- Goroutines by their index, over one ring.
pub record System : Type 0 where
  pub mem : Shared
  pub pcs : List Pc

pub data Step (s : System) : System → Type 0 where
  step :
      (i : ℕ) {p p' : Pc} {m : Shared}
      → get_elem? s.pcs i ≡ some p
      → Move s.mem p m p'
      → Step s (record { mem = m; pcs = set s.pcs i p' })

pub data Reach (s : System) : System → Type 0 where
  here : Reach s s
  later : {t u : System} → Reach s t → Step t u → Reach s u
