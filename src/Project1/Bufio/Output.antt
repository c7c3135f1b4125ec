-- ===== src/Project1/Bufio/Output.antt =====
-- What project1/src/bufio.cpp has written: the bytes that were appended, in their order, as far as the
-- buffer allows.
use ite.Base.{
  ℕ, suc, ◌+◌, ◌*◌, ◌≡◌, ◌≤◌, ◌<◌, refl, false, ltb, Option, none, some, List, [], ◌∷◌, ◌++◌,
  length, arith, ap, ◌∙◌, sym, ◌⊎◌, Bool-cases, inl, inr,
}
use mathlib.Core.Path.{subst}
use ite.Project1.Bufio.{
  take, drop, BufferedIoFd, buffered_reset, buffered_open, buffered_flush, buffered_append,
}
use ite.Project1.Bufio.Bytes.{take_none, take-drop}
use ite.Project1.Bufio.Held.{Holds, append_assoc, buffered_flush-Holds}
use ite.Project1.Bufio.Filled.{Filled, append-Holds, append-none}

-- The appends of some chunks in turn.
abbrev pub append_all : BufferedIoFd → List (List ℕ) → Option BufferedIoFd
append_all fd [] = some fd
append_all fd (chunk ∷ chunks) = elim (buffered_append fd chunk) [
  | none ↦ none
  | some after ↦ append_all after chunks
]

abbrev pub HaveLength : ℕ → List (List ℕ) → Type 0
HaveLength d [] = Unit
HaveLength d (chunk ∷ chunks) = (length chunk ≡ d) × HaveLength d chunks

abbrev pub concat : List (List ℕ) → List ℕ
concat [] = []
concat (chunk ∷ chunks) = chunk ++ concat chunks

append_all-Holds :
    (d q r n : ℕ) (opened out : List ℕ) (chunks : List (List ℕ)) (fd : BufferedIoFd)
    → Holds opened out fd
    → Filled d q r n fd
    → HaveLength d chunks
    → (r ≡ 0) ⊎ (n + length chunks ≤ q)
    → (after : BufferedIoFd) × (append_all fd chunks ≡ some after)
      × Holds opened (out ++ concat chunks) after
append_all-Holds d q r n opened out [] fd h f sizes ok =
    (fd, refl, subst (λ (l : List ℕ). Holds opened l fd) (sym (take_none out)) h)
append_all-Holds d q r n opened out (chunk ∷ chunks) fd h f (len, sizes) ok =
    let now : (r ≡ 0) ⊎ (suc n ≤ q) = elim ok [
      | inl whole ↦ inl whole
      | inr le ↦ inr (omega (arith, le))
    ] in
    let (next, k, done, holds, filled, count) =
      append-Holds d q r n opened out chunk fd h f len now in
    let rest : (r ≡ 0) ⊎ (k + length chunks ≤ q) = elim count [
      | inl whole ↦ inl whole
      | inr one ↦ elim ok [ inl whole ↦ inl whole | inr le ↦ inr (omega (arith, le, one)) ]
    ] in
    let (after, ran, final) =
      append_all-Holds d q r k opened (out ++ chunk) chunks next holds filled sizes rest in
    (
      after,
      rw (done, append_all) ran,
      subst (λ (l : List ℕ). Holds opened l after) (append_assoc out chunk (concat chunks)) final,
    )

append_all-none :
    (d q r n : ℕ) (opened out : List ℕ) (chunks : List (List ℕ)) (fd : BufferedIoFd)
    → Holds opened out fd
    → Filled d q r n fd
    → HaveLength d chunks
    → 0 < r
    → q < n + length chunks
    → append_all fd chunks ≡ none
append_all-none d q r n opened out [] fd h f sizes rest many =
    absurd (omega (arith, f.inside, many))
append_all-none d q r n opened out (chunk ∷ chunks) fd h f (len, sizes) rest many =
    elim (Bool-cases (ltb n q)) [
      | inl under ↦
          let (next, k, done, holds, filled, count) =
            append-Holds d q r n opened out chunk fd h f len (inr (ground arith)) in
          rw (done, append_all)
            (append_all-none d q r k opened (out ++ chunk) chunks next holds filled sizes rest
              (further k count))
      | inr full ↦
          let stops = append-none d q r n opened out chunk fd h f len rest (at_end f.inside full) in
          rw (stops, append_all) refl
    ]
  where
    further : (k : ℕ) → (r ≡ 0) ⊎ (k ≡ suc n) → q < k + length chunks
    further k (inl whole) = absurd (omega (arith, whole, rest))
    further k (inr e) = omega (arith, e, many)

    at_end : n ≤ q → ltb n q ≡ false → n ≡ q
    at_end le ge = ground arith

-- For a file opened with a buffer that takes `q` records of `d` bytes, at least one, and has `r` bytes
-- more, fewer than a record: appending records of `d` bytes goes over the end of the buffer just when
-- there are more than `q` records and `r` is not 0. If it does not, then after a flush the file is the
-- bytes of the records, in their order, and behind them what it was.
pub append_all-flush :
    (d q r : ℕ) (file buf : List ℕ) (chunks : List (List ℕ))
    → 0 < q
    → r < d
    → length buf ≡ d * q + r
    → HaveLength d chunks
    → (fd : BufferedIoFd) × (buffered_open (some file) buf (d * q + r) ≡ some fd)
      × ((r ≡ 0) ⊎ (length chunks ≤ q)
          → (after : BufferedIoFd) × (append_all fd chunks ≡ some after)
            × ((buffered_flush after).file ≡ concat chunks ++ drop (length (concat chunks)) file))
      × (0 < r → q < length chunks → append_all fd chunks ≡ none)
unfolding buffered_open buffered_reset
append_all-flush d q r file buf chunks room part whole sizes = (
  fd,
  refl,
  λ ok.
      let (after, ran, holds) =
        append_all-Holds d q r 0 file [] chunks fd start filled sizes
          (elim ok [ inl e ↦ inl e | inr le ↦ inr (omega (arith, le)) ]) in
      (after, ran, flushed_file after holds),
  λ rest many.
      append_all-none d q r 0 file [] chunks fd start filled sizes rest (omega (arith, many)),
)
  where
    fd : BufferedIoFd
    fd = record { bufsiz = d * q + r; written = 0; offset = 0; buf = buf; ptr = 0; file = file }

    start : Holds file [] fd
    start = record {
      same = refl;
      fits = omega arith;
      whole = whole;
      placed = omega arith;
      count = refl;
      behind = refl;
      log = refl;
    }

    filled : Filled d q r 0 fd
    filled = record {
      some_room = room;
      part = part;
      size = refl;
      used = omega arith;
      inside = omega arith;
    }

    flushed_file :
        (after : BufferedIoFd)
        → Holds file (concat chunks) after
        → (buffered_flush after).file ≡ concat chunks ++ drop (length (concat chunks)) file
    flushed_file after holds =
        let (held, zero_left) = buffered_flush-Holds file (concat chunks) after holds in
        let last = buffered_flush after in
        let all : take last.offset last.file ≡ concat chunks =
          sym (take_none (take last.offset last.file))
          ∙ ap (λ (n : ℕ). take last.offset last.file ++ take n last.buf) (sym zero_left)
          ∙ held.log in
        let end : last.offset ≡ length (concat chunks) = omega (arith, held.count, zero_left) in
        sym (take-drop last.offset last.file)
        ∙ ap (λ (l : List ℕ). l ++ drop last.offset last.file) all
        ∙ ap (λ (l : List ℕ). concat chunks ++ l) (held.behind ∙ ap (λ (n : ℕ). drop n file) end)
