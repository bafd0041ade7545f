-- ===== src/Ops/Waiting.antt =====
-- ops.go: what the calls that wait for their completion return.
use iouring_go.Base.{
  ℕ, suc, ◌+◌, ◌%◌, ◌^◌, ◌<◌, ◌≡◌, ◌≢◌, refl, some, get_elem?, if◌then◌else◌, arith,
}
use iouring_go.Base.Int.{ℤ, pos, negsuc, is_neg}
use iouring_go.Base.Outcome.{M, done}
use iouring_go.Entry.{SubmitEntry}
use iouring_go.Submit.Slots.{slot_present}
use iouring_go.Ring.{Ring}
use iouring_go.Ops.{Bytes, PointerVar}
use iouring_go.Ops.Calls.{Finished, Spliced, nil, errno, errno_of}
use iouring_go.Ops.Calls
use iouring_go.Ops.Requests.{Request, call, entry_of, HasBytes}
use iouring_go.Ops.Prepare.{IsReady, slot_of, after}
use iouring_go.Ops.Encoding.{call-after}

-- The requests that have such a call, and the calls as one.
pub data Waited : Type 0 where
  close : ℤ → Waited
  fadvise : ℤ → ℕ → ℕ → ℤ → Waited
  fallocate : ℤ → ℕ → ℤ → ℤ → Waited
  fsync : ℤ → ℤ → Waited
  nop : Waited
  poll_add : ℤ → ℤ → Waited
  statx : ℤ → Bytes → ℤ → ℤ → ℕ → Waited
  send recv : ℤ → Bytes → ℕ → Waited

abbrev pub request_of : Waited → Request
request_of (close fd) = Request.close fd
request_of (fadvise fd offset n advise) = Request.fadvise fd offset n advise
request_of (fallocate fd mode offset n) = Request.fallocate fd mode offset n
request_of (fsync fd flags) = Request.fsync fd flags
request_of nop = Request.nop
request_of (poll_add fd mask) = Request.poll_add fd mask
request_of (statx fd path flags mask stat) = Request.statx fd path flags mask stat
request_of (send fd b flags) = Request.send fd b flags
request_of (recv fd b flags) = Request.recv fd b flags

unfoldable pub perform : (ℕ → ℤ × ℕ) → ℕ → Waited → M Ring Finished
perform complete n (close fd) = Calls.close complete n fd
perform complete n (fadvise fd offset len advise) = Calls.fadvise complete n fd offset len advise
perform complete n (fallocate fd mode offset len) = Calls.fallocate complete n fd mode offset len
perform complete n (fsync fd flags) = Calls.fsync complete n fd flags
perform complete n nop = Calls.nop complete n
perform complete n (poll_add fd mask) = Calls.poll_add complete n fd mask
perform complete n (statx fd path flags mask stat) = Calls.statx complete n fd path flags mask stat
perform complete n (send fd b flags) = Calls.send complete n fd b flags
perform complete n (recv fd b flags) = Calls.recv complete n fd b flags

-- A result that is not negative is success, and -e is the errno e.
abbrev pub Reports : ℤ → Finished → Type 0
Reports (pos n) f = f ≡ nil
Reports (negsuc n) f = f ≡ errno (n + 1)

errno-Reports :
    (res : ℤ)
    → ((n : ℕ) → res ≡ negsuc n → n + 1 < 2 ^ 31)
    → Reports res (if is_neg res then errno (errno_of res) else nil)
errno-Reports (pos n) small = refl
errno-Reports (negsuc n) small = ground (arith, small n refl)

module _ (complete : ℕ → ℤ × ℕ) {k : ℕ} {r : Ring} (ready : IsReady k r) where
  -- The id of the next call, and how a call with it ends.
  abbrev pub id_next : ℕ
  id_next = (r.idx + 1) % 2 ^ 64

  abbrev pub ends : Finished
  ends = if is_neg (complete id_next).0 then errno (errno_of (complete id_next).0) else nil

  perform-after :
      (fuel : ℕ) (q : Waited) {e : SubmitEntry}
      → HasBytes (request_of q)
      → get_elem? r.sq.entries (slot_of k r) ≡ some e
      → perform complete (suc fuel) q r
        ≡ done (ends, after k r (entry_of (request_of q) id_next e.anon0))
  unfolding perform Calls.close Calls.fadvise Calls.fallocate Calls.fsync Calls.nop Calls.poll_add
      Calls.statx Calls.send Calls.recv call
  perform-after fuel (close fd) h at =
      ground (arith, call-after ready fuel (Request.close fd) tt at)
  perform-after fuel q h at = ground (arith, call-after ready fuel (request_of q) h at)

-- Each call that waits, other than Splice, on a ready ring and with slices that are not empty, writes the entry of its
-- operation and returns nil if the completion has a result that is not negative, and the errno -res
-- if it is negative, where -res is less than 2 ^ 31.
pub perform-Reports :
    (complete : ℕ → ℤ × ℕ) (k fuel : ℕ) (r : Ring) (q : Waited)
    → IsReady k r
    → HasBytes (request_of q)
    → ((n : ℕ) → (complete ((r.idx + 1) % 2 ^ 64)).0 ≡ negsuc n → n + 1 < 2 ^ 31)
    → (e : SubmitEntry) × (f : Finished) × (perform complete (suc fuel) q r
        ≡ done (f, after k r (entry_of (request_of q) ((r.idx + 1) % 2 ^ 64) e.anon0)))
      × (get_elem? r.sq.entries (slot_of k r) ≡ some e)
      × Reports (complete ((r.idx + 1) % 2 ^ 64)).0 f
perform-Reports complete k fuel r q ready h small =
    let (e, at) = slot_present ready.valid in
    (
      e,
      ends complete ready,
      perform-after complete ready fuel q h at,
      at,
      errno-Reports (complete ((r.idx + 1) % 2 ^ 64)).0 small,
    )

-- Splice on a ready ring, where the completion has a result `n` that is not negative and flags that
-- are another number: it returns no error, and the flags for the number of bytes.
pub splice-flags :
    (complete : ℕ → ℤ × ℕ) (k fuel : ℕ) (r : Ring) (in_fd : ℤ) (in_off : PointerVar) (out_fd : ℤ)
    (out_off : PointerVar) (len flags : ℤ) (n cqe_flags : ℕ)
    → IsReady k r
    → complete ((r.idx + 1) % 2 ^ 64) ≡ (pos n, cqe_flags)
    → n ≢ cqe_flags
    → (x : Spliced) × (r' : Ring) × (Calls.splice complete
          (suc fuel)
          in_fd
          in_off
          out_fd
          out_off
          len
          flags
          r
        ≡ done (x, r'))
      × (x.1 ≡ nil)
      × (x.0 ≡ pos cqe_flags)
      × (x.0 ≢ pos n)
unfolding Calls.splice call
splice-flags complete k fuel r in_fd in_off out_fd out_off len flags n cqe_flags ready res differ =
    let (e, at) = slot_present ready.valid in
    (
      (pos cqe_flags, nil),
      after k r (
          entry_of (Request.splice in_fd in_off out_fd out_off len flags) ((r.idx + 1) % 2 ^ 64)
            e.anon0),
      ground (
        arith,
        call-after ready fuel (Request.splice in_fd in_off out_fd out_off len flags) tt at,
      ),
      refl,
      refl,
      λ p. differ (ground arith),
    )
