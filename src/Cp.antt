-- ===== src/Cp.antt =====
-- examples/cp/iouring.go: main, which copies a file through the ring, as a client of its two files.
pub mod Whole
pub mod Stored
use iouring_go.Base.{ℕ, zero, suc, Bool, true, false, List, [], ◌∷◌, ltb, if◌then◌else◌}
use iouring_go.Base.Int.{ℤ, pos, negsuc, to_u64, is_neg, eqb}
use iouring_go.Base.Outcome.{Outcome, M, done, spin, panic, pure, fail, ◌>>=◌}
use iouring_go.Ops.{Bytes}
use iouring_go.Fio.{IoError, IoResult, nil, eof}

-- How main ends: it returns, or ends the program by log.Fatal.
pub data Exit : Type 0 where
  returned fatal : Exit

-- What main calls (`open_src` is os.Open, `open_dst` os.OpenFile): `r` reads the
-- source and `w` writes the destination, over one ring.
pub record Files (S : Type 0) : Type 0 where
  pub new_ring : M S IoError
  pub open_src : List ℕ → M S IoError
  pub open_dst : List ℕ → M S IoError
  pub reader : M S IoError
  pub writer : M S IoError
  pub read : Bytes → M S IoResult
  pub write : Bytes → M S IoResult
  pub close_r : M S IoError
  pub close_w : M S IoError

-- `if err := step; err != nil { log.Fatal(err) }`, and what follows.
unfoldable pub or_fatal : {S : Type 0} → M S IoError → M S Exit → M S Exit
or_fatal step rest = do
  e ← step
  elim e [
    | nil ↦ rest
    | eof ↦ pure fatal
    | IoError.ring_unavailable ↦ pure fatal
    | IoError.unknown_whence ↦ pure fatal
    | IoError.errno n ↦ pure fatal
  ]

abbrev pub error_of : IoResult → IoError
error_of (n, e) = e

module _ {S : Type 0} (files : Files S) where
  -- `w.Write(buf[:n])`, which panics when `n` is not a length of a part of the buffer.
  unfoldable pub write_part : Bytes → ℤ → M S IoError
  write_part buf (pos n) = elim (ltb buf.len n) [
    | true ↦ fail
    | false ↦ do res ← files.write (record { addr = buf.addr; len = n }); pure (error_of res)
  ]
  write_part buf (negsuc n) = fail

  -- What follows the loop.
  unfoldable pub close_both : M S Exit
  unfolding or_fatal
  close_both = or_fatal files.close_r (or_fatal files.close_w (pure returned))

  -- What follows the call of Read in a round; `next` are the rounds behind it.
  unfoldable pub after_read : Bytes → M S Exit → IoResult → M S Exit
  unfolding or_fatal write_part close_both
  after_read buf next (n, eof) = close_both
  after_read buf next (n, nil) = elim (eqb n (pos 0)) [
    | true ↦ close_both
    | false ↦ or_fatal (write_part buf n) next
  ]
  after_read buf next (n, IoError.ring_unavailable) = pure fatal
  after_read buf next (n, IoError.unknown_whence) = pure fatal
  after_read buf next (n, IoError.errno e) = pure fatal

  -- The loop, for `fuel` rounds, and what follows it.
  unfoldable pub copy : ℕ → Bytes → M S Exit
  unfolding after_read
  copy zero buf s = spin
  copy (suc fuel) buf s = (do res ← files.read buf; after_read buf (copy fuel buf) res) s

  -- `main`, with the arguments behind the flags; `buf_size` is the flag buf, and `at` where `make` puts
  -- the buffer.
  unfoldable pub with_args : ℕ → List (List ℕ) → ℤ → ℕ → M S Exit
  unfolding copy or_fatal
  with_args fuel (src ∷ dst ∷ []) buf_size at = or_fatal (files.open_src src) (
      or_fatal (files.open_dst dst) (
        or_fatal files.reader (
          or_fatal files.writer (
            if is_neg buf_size
            then fail
            else copy fuel (record { addr = at; len = to_u64 buf_size })))))
  with_args fuel _ buf_size at = pure fatal

  unfoldable pub main : ℕ → List (List ℕ) → ℤ → ℕ → M S Exit
  unfolding with_args or_fatal
  main fuel args buf_size at = or_fatal files.new_ring (with_args fuel args buf_size at)
