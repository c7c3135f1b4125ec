-- ===== src/Project1/Bufio/Held.antt =====
-- The state of a descriptor of project1/src/bufio.cpp: what is in the file and what waits in the buffer.
use ite.Base.{
  ℕ, ◌+◌, ◌≡◌, ◌≤◌, refl, true, ltb, leb, some, List, [], ◌∷◌, ◌++◌, length, length-append, arith,
  ap, ◌∙◌, sym, Bool-cases, inl, inr,
}
use ite.Project1.Bufio.{take, drop, overwrite, BufferedIoFd, write_out, buffered_flush, copy_in}
use ite.Project1.Bufio.Bytes.{
  length-take, take_none, length-overwrite, overwrite-reaches, take-overwrite, drop-overwrite,
  drop_further,
}

-- The file up to the offset and then the buffer are `out`, and behind that the file is still the one that
-- was opened.
pub record Holds (opened out : List ℕ) (fd : BufferedIoFd) : Type 0 where
  pub same : fd.ptr ≡ fd.written
  pub fits : fd.written ≤ fd.bufsiz
  pub whole : length fd.buf ≡ fd.bufsiz
  pub placed : fd.offset ≤ length fd.file
  pub count : fd.offset + fd.written ≡ length out
  pub behind : drop fd.offset fd.file ≡ drop fd.offset opened
  pub log : take fd.offset fd.file ++ take fd.written fd.buf ≡ out

pub append_assoc : (xs ys zs : List ℕ) → (xs ++ ys) ++ zs ≡ xs ++ (ys ++ zs)
append_assoc [] ys zs = refl
append_assoc (x ∷ xs) ys zs = ap (λ (l : List ℕ). x ∷ l) (append_assoc xs ys zs)

module _ (opened out : List ℕ) (fd : BufferedIoFd) (h : Holds opened out fd) where
  written_out :
      take (fd.offset + fd.written) (overwrite fd.file fd.offset (take fd.written fd.buf)) ≡ out
  written_out =
      ap (λ (n : ℕ). take (fd.offset + n) (overwrite fd.file fd.offset (take fd.written fd.buf)))
        (sym (length-take fd.written fd.buf (omega (arith, h.fits, h.whole))))
      ∙ take-overwrite fd.file fd.offset (take fd.written fd.buf) h.placed
      ∙ h.log

  left_behind :
      drop (fd.offset + fd.written) (overwrite fd.file fd.offset (take fd.written fd.buf))
      ≡ drop (fd.offset + fd.written) opened
  left_behind =
      ap (λ (n : ℕ). drop (fd.offset + n) (overwrite fd.file fd.offset (take fd.written fd.buf)))
        (sym taken)
      ∙ drop-overwrite fd.file fd.offset (take fd.written fd.buf) h.placed
      ∙ ap (λ (n : ℕ). drop (fd.offset + n) fd.file) taken
      ∙ drop_further fd.offset fd.written fd.file opened h.behind
    where
      taken : length (take fd.written fd.buf) ≡ fd.written
      taken = length-take fd.written fd.buf (omega (arith, h.fits, h.whole))

  pub write_out-Holds : Holds opened out (write_out fd)
  write_out-Holds = record {
    same = refl;
    fits = omega arith;
    whole = h.whole;
    placed = omega (
      arith,
      overwrite-reaches fd.file fd.offset (take fd.written fd.buf) h.placed,
      length-take fd.written fd.buf (omega (arith, h.fits, h.whole)),
    );
    count = omega (arith, h.count);
    behind = left_behind;
    log =
        take_none
          (take (fd.offset + fd.written) (overwrite fd.file fd.offset (take fd.written fd.buf)))
        ∙ written_out;
  }

  pub buffered_flush-Holds :
      Holds opened out (buffered_flush fd) × ((buffered_flush fd).written ≡ 0)
  unfolding buffered_flush
  buffered_flush-Holds = elim (Bool-cases (ltb 0 fd.written)) [
    | inl some_bytes ↦ rw some_bytes (write_out-Holds, refl)
    | inr no_bytes ↦ rw no_bytes (h, ground arith)
  ]

  pub copy_in-Holds :
      (bytes : List ℕ)
      → fd.written + length bytes ≤ fd.bufsiz
      → (after : BufferedIoFd) × ((copy_in fd bytes ≡ some after)
          × (Holds opened (out ++ bytes) after)
          × (after.written ≡ fd.written + length bytes)
          × (after.bufsiz ≡ fd.bufsiz))
  copy_in-Holds bytes room =
      let inside : leb (fd.ptr + length bytes) fd.bufsiz ≡ true = within h.same in
      (
        record fd {
          buf = overwrite fd.buf fd.ptr bytes;
          ptr = fd.ptr + length bytes;
          written = fd.written + length bytes;
        },
        (
          rw inside refl,
          record {
            same = omega (arith, h.same);
            fits = room;
            whole =
                length-overwrite fd.buf fd.ptr bytes (omega (arith, h.same, h.whole, room))
                ∙ h.whole;
            placed = h.placed;
            count = omega (arith, h.count, length-append out bytes);
            behind = h.behind;
            log =
                ap (λ (l : List ℕ). take fd.offset fd.file ++ l) copied
                ∙ sym (append_assoc (take fd.offset fd.file) (take fd.written fd.buf) bytes)
                ∙ ap (λ (l : List ℕ). l ++ bytes) h.log;
          },
          refl,
          refl,
        ),
      )
    where
      within : fd.ptr ≡ fd.written → leb (fd.ptr + length bytes) fd.bufsiz ≡ true
      within e = ground arith

      copied :
          take (fd.written + length bytes) (overwrite fd.buf fd.ptr bytes)
          ≡ take fd.written fd.buf ++ bytes
      copied =
          ap (λ (n : ℕ). take (fd.written + length bytes) (overwrite fd.buf n bytes)) h.same
          ∙ take-overwrite fd.buf fd.written bytes (omega (arith, h.fits, h.whole))

pub flush-bufsiz : (fd : BufferedIoFd) → (buffered_flush fd).bufsiz ≡ fd.bufsiz
unfolding buffered_flush
flush-bufsiz fd = elim (Bool-cases (ltb 0 fd.written)) [
  | inl some_bytes ↦ rw some_bytes refl
  | inr no_bytes ↦ rw no_bytes refl
]
