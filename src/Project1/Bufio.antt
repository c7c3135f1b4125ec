-- ===== src/Project1/Bufio.antt =====
-- project1/src/bufio.cpp: output through a buffer. A file and the buffer are sequences of bytes; the
-- calls of the system read and write as many bytes as they are asked for, where they are there.
use ite.Base.{
  ℕ, zero, suc, ◌+◌, ◌-◌, ◌≡◌, Bool, true, false, if◌then◌else◌, ltb, leb, Option, none, some, List,
  [], ◌∷◌, length,
}
pub mod Bytes
pub mod Filled
pub mod Held
pub mod Output
mod Tests

abbrev pub take : ℕ → List ℕ → List ℕ
take zero xs = []
take (suc n) [] = []
take (suc n) (x ∷ xs) = x ∷ take n xs

abbrev pub drop : ℕ → List ℕ → List ℕ
drop zero xs = xs
drop (suc n) [] = []
drop (suc n) (x ∷ xs) = drop n xs

-- `pwrite`, and `memcpy` into the buffer: bytes in place of others; a gap before them is zero.
abbrev pub overwrite : List ℕ → ℕ → List ℕ → List ℕ
overwrite xs i [] = xs
overwrite [] zero (y ∷ ys) = y ∷ ys
overwrite [] (suc i) (y ∷ ys) = 0 ∷ overwrite [] i (y ∷ ys)
overwrite (x ∷ xs) zero (y ∷ ys) = y ∷ overwrite xs zero ys
overwrite (x ∷ xs) (suc i) (y ∷ ys) = x ∷ overwrite xs i (y ∷ ys)

-- `file` is what is behind the descriptor, and `ptr` counts from the start of `buf`.
pub record BufferedIoFd : Type 0 where
  pub bufsiz : ℕ
  pub written : ℕ
  pub offset : ℕ
  pub buf : List ℕ
  pub ptr : ℕ
  pub file : List ℕ

unfoldable pub buffered_reset : BufferedIoFd → BufferedIoFd
buffered_reset fd = record fd { offset = 0; written = 0; ptr = 0 }

-- `open` of a path that leads to `file`, or none where it fails.
unfoldable pub buffered_open : Option (List ℕ) → List ℕ → ℕ → Option BufferedIoFd
buffered_open none buf bufsiz = none
buffered_open (some file) buf bufsiz = some (
    buffered_reset
      (record { bufsiz = bufsiz; written = 0; offset = 0; buf = buf; ptr = 0; file = file }))

-- `pwrite` of the buffer, and the start of the next one.
abbrev pub write_out : BufferedIoFd → BufferedIoFd
write_out fd = record fd {
  file = overwrite fd.file fd.offset (take fd.written fd.buf);
  offset = fd.offset + fd.written;
  written = 0;
  ptr = 0;
}

unfoldable pub buffered_flush : BufferedIoFd → BufferedIoFd
buffered_flush fd = if ltb 0 fd.written then write_out fd else fd

-- What `pread` returns, and the object after it.
unfoldable pub buffered_read : BufferedIoFd → ℕ → (List ℕ) × BufferedIoFd
buffered_read fd nbytes =
    let bytes = take nbytes (drop fd.offset fd.file) in
    (bytes, record fd { offset = fd.offset + length bytes })

-- The copy of the bytes, which is none when it goes over the end of the buffer.
abbrev pub copy_in : BufferedIoFd → List ℕ → Option BufferedIoFd
copy_in fd bytes =
    if leb (fd.ptr + length bytes) fd.bufsiz
    then some (record fd {
      buf = overwrite fd.buf fd.ptr bytes;
      ptr = fd.ptr + length bytes;
      written = fd.written + length bytes;
    })
    else none

unfoldable pub buffered_append : BufferedIoFd → List ℕ → Option BufferedIoFd
buffered_append fd bytes =
    copy_in (if leb fd.bufsiz fd.ptr then write_out (buffered_flush fd) else fd) bytes

unfoldable pub get_filesize : BufferedIoFd → ℕ
get_filesize fd = length fd.file
