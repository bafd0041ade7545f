-- ===== src/Fio/Jobs.antt =====
-- read_writer.go: transfers on one file, one after the other, and what they leave of it.
use iouring_go.Base.{ℕ, ◌+◌, ◌%◌, ◌^◌, ◌≡◌, ◌≢◌, List, [], ◌∷◌, ◌++◌, length}
use iouring_go.Base.Int.{ℤ, pos, negsuc}
use iouring_go.Base.Outcome.{M, pure, ◌>>=◌}
use iouring_go.Entry.{SubmitEntry, CompletionEntry}
use iouring_go.Ring.{Ring, Kernel}
use iouring_go.Ops.Prepare.{IsReady, after}
use iouring_go.Fio.{Fio, IoResult, View, nil, errno}
use iouring_go.Fio.Staging.{entered, Completes}
use iouring_go.Fio.Transfers.{Io, run_io, bytes_of, io_entry, io_result}

-- A transfer, what getCqe sees, and the completion with its index.
pub record Job : Type 0 where
  pub io : Io
  pub views : List View
  pub at : ℕ
  pub cqe : CompletionEntry

-- What getCqe makes of a result.
abbrev pub raw : ℤ → IoResult
raw (pos n) = (pos n, nil)
raw (negsuc n) = (pos 0, errno (n + 1))

-- The results of the transfers, the bytes that they move, and the indices that the completer is told.
unfoldable pub results : List Job → List IoResult
results [] = []
results (j ∷ js) = io_result j.io (raw j.cqe.res) ∷ results js

abbrev pub bytes_in : ℤ → ℕ
bytes_in (pos n) = n
bytes_in (negsuc n) = 0

unfoldable pub total : List Job → ℕ
total [] = 0
total (j ∷ js) = bytes_in j.cqe.res + total js

abbrev pub seen_at : ℕ → ℤ → List ℕ
seen_at x (pos n) = x ∷ []
seen_at x (negsuc n) = []

unfoldable pub reported : List Job → List ℕ
reported [] = []
reported (j ∷ js) = seen_at j.at j.cqe.res ++ reported js

-- Every transfer has a slice that is not empty, and its completion appears under its id.
unfoldable pub AllComplete : ℕ → List Job → Type 0
AllComplete idx [] = Unit
AllComplete idx (j ∷ js) =
    Completes ((idx + 1) % 2 ^ 64) j.at j.cqe j.views
    × ((bytes_of j.io).len ≢ 0)
    × AllComplete ((idx + 1) % 2 ^ 64) js

unfoldable pub run_ios : Kernel → ℕ → List Job → M Fio (List IoResult)
run_ios kernel fuel [] = pure []
run_ios kernel fuel (j ∷ js) = do
  r ← run_io kernel fuel j.views j.io
  rs ← run_ios kernel fuel js
  pure (r ∷ rs)

-- The entry of a transfer on a file with the descriptor `fd`, which stands at `o`.
abbrev pub entry_at : ℤ → ℕ → Ring → Io → List ℕ → SubmitEntry
entry_at fd o r q anon = io_entry q (record { ring = r; fd = fd; offset = pos o; seen = [] }) anon

-- The ring entered once for each transfer, with one entry, which is for the place where the transfers
-- before it have left the file.
pub data Entered (kernel : Kernel) (k : ℕ) (fd : ℤ) : ℕ → Ring → List Job → Ring → Type 0 where
  nothing : {o : ℕ} {r : Ring} → Entered kernel k fd o r [] r
  next :
      {o : ℕ} {r r' : Ring} {js : List Job} (j : Job) (anon : List ℕ)
      → Entered kernel k fd
          (o + bytes_in j.cqe.res)
          (entered kernel (after k r (entry_at fd o r j.io anon)))
          js
          r'
      → Entered kernel k fd o r (j ∷ js) r'

-- What transfers leave of a file that stands at `o`.
pub record Ran (kernel : Kernel) (k o : ℕ) (i : Fio) (js : List Job) (i' : Fio) : Type 0 where
  pub ready : IsReady k i'.ring
  pub ids : i'.ring.idx ≡ (i.ring.idx + length js) % 2 ^ 64
  pub offset : i'.offset ≡ pos (o + total js)
  pub seen : i'.seen ≡ i.seen ++ reported js
  pub same : i'.fd ≡ i.fd
  pub entries : Entered kernel k i.fd o i.ring js i'.ring
