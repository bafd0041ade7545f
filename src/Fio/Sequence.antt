-- ===== src/Fio/Sequence.antt =====
-- read_writer.go: any number of transfers on one file, one after the other.
use iouring_go.Base.{
  ℕ, suc, ◌+◌, ◌%◌, ◌^◌, ◌<◌, ◌≡◌, ◌≢◌, refl, List, [], ◌∷◌, ◌++◌, arith, sym, ap, ◌∙◌, subst,
}
use mathlib.Core.List.{append-nil, append_assoc}
use iouring_go.Base.Int.{ℤ, pos, negsuc, ◌+ℤ◌, to_i64}
use iouring_go.Base.Outcome.{Outcome, done}
use iouring_go.Entry.{SubmitEntry}
use iouring_go.Queue.{SubmitQueue, CompletionQueue}
use iouring_go.Ring.{Ring, Kernel, EnterCall, enter_get_events}
use iouring_go.Ops.Prepare.{IsReady, after}
use iouring_go.Ops.Published.{after-IsReady}
use iouring_go.Connection.Answering.{IsHonest}
use iouring_go.Connection.Polling.{enter-IsReady}
use iouring_go.Fio.{Fio, IoResult}
use iouring_go.Fio.Finding.{Took, failed, moved}
use iouring_go.Fio.Jobs.{
  Job, raw, results, bytes_in, total, seen_at, reported, AllComplete, run_ios, entry_at, Entered,
  nothing, next, Ran,
}
use iouring_go.Fio.Staging.{entered, Completes}
use iouring_go.Fio.Transfers.{Io, run_io, bytes_of, io_entry, io_result, run_io-Took}

-- A file after a completion.
abbrev pub advanced : ℕ → ℤ → Fio → Fio
advanced x (pos n) i = record i { offset = to_i64 (i.offset +ℤ pos n); seen = i.seen ++ x ∷ [] }
advanced x (negsuc n) i = i

took-advanced :
    {i i' : Fio} {x : ℕ} {res : ℤ} {r : IoResult}
    → Took i x res r i'
    → (r ≡ raw res) × (i' ≡ advanced x res i)
took-advanced (failed n small) = (refl, refl)
took-advanced (moved n) = (refl, refl)

io_entry-at :
    (o : ℕ) (q : Io) (i : Fio) (anon : List ℕ)
    → i.offset ≡ pos o
    → io_entry q i anon ≡ entry_at i.fd o i.ring q anon
io_entry-at o (Io.read b) i anon at = ground (arith, at)
io_entry-at o (Io.write b) i anon at = ground (arith, at)
io_entry-at o (Io.read_at b p) i anon at = refl
io_entry-at o (Io.write_at b p) i anon at = refl

record HasMoved (o x : ℕ) (res : ℤ) (i : Fio) : Type 0 where
  ring : (advanced x res i).ring ≡ i.ring
  offset : (advanced x res i).offset ≡ pos (o + bytes_in res)
  seen : (advanced x res i).seen ≡ i.seen ++ seen_at x res
  same : (advanced x res i).fd ≡ i.fd

advanced-HasMoved :
    (o x : ℕ) (res : ℤ) (i : Fio)
    → i.offset ≡ pos o
    → o + bytes_in res < 2 ^ 63
    → HasMoved o x res i
advanced-HasMoved o x (pos n) i at small = record {
  ring = refl;
  offset = ground (arith, at, small);
  seen = refl;
  same = refl;
}
advanced-HasMoved o x (negsuc n) i at small = record {
  ring = refl;
  offset = ground (arith, at);
  seen = sym (append-nil i.seen);
  same = refl;
}

module _ (kernel : Kernel) {k : ℕ} (honest : IsHonest k kernel)
    (takes : (c : EnterCall) (sq : SubmitQueue) (cq : CompletionQueue)
      → (kernel c sq cq).errno ≡ 0) where
  -- A transfer of a sequence.
  job-advanced :
      (fuel o : ℕ) (j : Job) (i : Fio)
      → IsReady k i.ring
      → i.offset ≡ pos o
      → (bytes_of j.io).len ≢ 0
      → Completes ((i.ring.idx + 1) % 2 ^ 64) j.at j.cqe j.views
      → (anon : List ℕ) × (run_io kernel (suc fuel) j.views j.io i
          ≡ done (
            io_result j.io (raw j.cqe.res),
            advanced j.at j.cqe.res (record i {
              ring = entered kernel (after k i.ring (entry_at i.fd o i.ring j.io anon));
            }),
          ))
  job-advanced fuel o j i ready at some_bytes completes =
      let (e, r, i', ran, took) =
        run_io-Took kernel k fuel j.at i j.io j.cqe j.views ready some_bytes completes
          (λ anon. takes _ _ _) in
      let (same, left) = took-advanced took in
      let of_entry : SubmitEntry → Outcome (IoResult × Fio) = λ s. done (
        io_result j.io (raw j.cqe.res),
        advanced j.at j.cqe.res (record i { ring = entered kernel (after k i.ring s) }),
      ) in
      (
        e.anon0,
        ran
            ∙ ap (λ q. done (io_result j.io q, i')) same
            ∙ ap (λ s. done (io_result j.io (raw j.cqe.res), s)) left
            ∙ ap of_entry (io_entry-at o j.io i e.anon0 at),
      )

  -- Any number of Read, Write, ReadAt and WriteAt, one after the other, each with a slice that is not
  -- empty, on a ring that is ready and with a kernel that takes every entry, when the completion of
  -- each appears under its id: each returns what its completion says, and its entry is for the place
  -- where those before it have left the file, or for the one given to ReadAt and WriteAt. In the end
  -- the file has moved by the sum of their results, if that is an int64, the completer has been told
  -- the index of each that did not fail, in order, an id is used up for each, and the ring is ready
  -- again.
  pub run_ios-Ran :
      (fuel o : ℕ) (js : List Job) (i : Fio)
      → IsReady k i.ring
      → i.ring.idx < 2 ^ 64
      → i.offset ≡ pos o
      → o + total js < 2 ^ 63
      → AllComplete i.ring.idx js
      → (i' : Fio) × (run_ios kernel (suc fuel) js i ≡ done (results js, i'))
        × Ran kernel k o i js i'
  unfolding run_ios results total reported AllComplete
  run_ios-Ran fuel o [] i ready small at fits completes = (
    i,
    refl,
    record {
      ready = ready;
      ids = omega (arith, small);
      offset = ground (arith, at);
      seen = sym (append-nil i.seen);
      same = refl;
      entries = nothing;
    },
  )
  run_ios-Ran fuel o (j ∷ js) i ready small at fits (c, some_bytes, completes) =
      let (anon, ran) = job-advanced fuel o j i ready at some_bytes c in
      let e : SubmitEntry = entry_at i.fd o i.ring j.io anon in
      let r : Ring = entered kernel (after k i.ring e) in
      let r_ready =
        enter-IsReady kernel 1 1 enter_get_events (after k i.ring e) honest
          (after-IsReady e ready) in
      let a = advanced-HasMoved o j.at j.cqe.res (record i { ring = r }) at (omega (arith, fits)) in
      let i₁ : Fio = advanced j.at j.cqe.res (record i { ring = r }) in
      let idx : i₁.ring.idx ≡ (i.ring.idx + 1) % 2 ^ 64 = ap Ring.idx a.ring in
      let (i', rest, h) =
        run_ios-Ran fuel (o + bytes_in j.cqe.res) js i₁ (subst (IsReady k) (sym a.ring) r_ready)
          (omega (arith, idx)) a.offset (omega (arith, fits))
          (subst (λ n. AllComplete n js) (sym idx) completes) in
      (
        i',
        ground (arith, ran, rest),
        record {
          ready = h.ready;
          ids = omega (arith, h.ids, idx);
          offset = h.offset ∙ ap pos (omega arith);
          seen =
              h.seen
              ∙ ap (λ l. l ++ reported js) a.seen
              ∙ append_assoc i.seen (seen_at j.at j.cqe.res) (reported js);
          same = h.same ∙ a.same;
          entries = next j anon (
              subst (λ q. Entered kernel k i.fd (o + bytes_in j.cqe.res) q js i'.ring) a.ring
                (subst (λ fd. Entered kernel k fd (o + bytes_in j.cqe.res) i₁.ring js i'.ring)
                  a.same h.entries));
        },
      )
