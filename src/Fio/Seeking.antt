-- ===== src/Fio/Seeking.antt =====
-- read_writer.go: Seek.
use iouring_go.Base.{ℕ, ◌≡◌, if◌then◌else◌, arith}
use iouring_go.Base.Int.{ℤ, pos, ◌+ℤ◌, ◌-ℤ◌, to_i64, eqb}
use iouring_go.Fio.{Fio, nil, errno, unknown_whence, IoResult}

-- What `(*os.File).Stat` answers: the size, or an errno.
pub data Stat : Type 0 where
  size : ℤ → Stat
  failed : ℕ → Stat

-- Package io.
abbrev pub seek_start : ℤ
seek_start = pos 0

abbrev pub seek_current : ℤ
seek_current = pos 1

abbrev pub seek_end : ℤ
seek_end = pos 2

-- `case io.SeekEnd:`
unfoldable pub from_end : Stat → ℤ → Fio → IoResult × Fio
from_end (failed e) offset i = ((pos 0, errno e), i)
from_end (size n) offset i = ((pos 0, nil), record i { offset = to_i64 (n -ℤ offset) })

-- `Seek`; the values of whence are those of package io.
unfoldable pub seek : Stat → ℤ → ℤ → Fio → IoResult × Fio
unfolding from_end
seek stat offset whence i =
    if eqb whence seek_start
    then ((pos 0, nil), record i { offset = offset })
    else if eqb whence seek_current
    then ((pos 0, nil), record i { offset = to_i64 (i.offset +ℤ offset) })
    else if eqb whence seek_end
    then from_end stat offset i
    else ((pos 0, unknown_whence), i)

-- Whatever `whence` is and whether `Stat` fails or not, the position that Seek returns is 0, also
-- when it moves the file to another offset.
pub seek-returns_zero :
    (stat : Stat) (offset whence : ℤ) (i : Fio) → (seek stat offset whence i).0.0 ≡ pos 0
unfolding seek from_end
seek-returns_zero (size n) offset whence i = ground arith
seek-returns_zero (failed e) offset whence i = ground arith
