-- ===== src/Project1/Bufio/Filled.antt =====
-- One append of project1/src/bufio.cpp, by how many records are in the buffer.
use ite.Base.{
  ℕ, suc, ◌+◌, ◌*◌, ◌≡◌, ◌≤◌, ◌<◌, refl, false, ltb, leb, none, some, List, ◌++◌, length, arith, ap,
  ◌⊎◌, Bool-cases, inl, inr,
}
use native.Mathlib.Nat.{mul-le-mul_left, mul-suc}
use ite.Project1.Bufio.{BufferedIoFd, write_out, buffered_flush, buffered_append}
use ite.Project1.Bufio.Held.{
  Holds, write_out-Holds, buffered_flush-Holds, copy_in-Holds, flush-bufsiz,
}

less_than : (d n q : ℕ) → d * n < d * q → suc n ≤ q
less_than d n q lt = elim (Bool-cases (ltb n q)) [
  | inl under ↦ ground arith
  | inr over ↦ let ge : q ≤ n = ground arith in absurd (omega (arith, mul-le-mul_left d ge, lt))
]

room_for : (d n q : ℕ) → suc n ≤ q → d * n + d ≤ d * q
room_for d n q le = omega (arith, mul-le-mul_left d le, mul-suc d n)

-- A buffer of `q` records of `d` bytes and of `r` bytes more, with `n` records in it.
pub record Filled (d q r n : ℕ) (fd : BufferedIoFd) : Type 0 where
  pub some_room : 0 < q
  pub part : r < d
  pub size : fd.bufsiz ≡ d * q + r
  pub used : fd.written ≡ d * n
  pub inside : n ≤ q

abbrev pub Appends : ℕ → ℕ → ℕ → ℕ → List ℕ → List ℕ → BufferedIoFd → List ℕ → Type 0
Appends d q r n opened out fd bytes =
    (after : BufferedIoFd) × (k : ℕ) × (buffered_append fd bytes ≡ some after)
    × Holds opened (out ++ bytes) after
    × Filled d q r k after
    × ((r ≡ 0) ⊎ (k ≡ suc n))

module _ (d q r n : ℕ) (opened out bytes : List ℕ) (fd : BufferedIoFd) (h : Holds opened out fd)
    (f : Filled d q r n fd) (len : length bytes ≡ d) where
  pub append-Holds : (r ≡ 0) ⊎ (suc n ≤ q) → Appends d q r n opened out fd bytes
  unfolding buffered_append
  append-Holds ok = elim (Bool-cases (leb fd.bufsiz fd.ptr)) [
    | inl full ↦
        let whole : r ≡ 0 = no_rest (ground (arith, h.same)) in
        let flushed = buffered_flush fd in
        let (held, zero_left) = buffered_flush-Holds opened out fd h in
        let one = mul-le-mul_left d f.some_room in
        let (after, (done, holds, left, kept)) =
          copy_in-Holds opened out (write_out flushed) (write_out-Holds opened out flushed held)
            bytes (omega (arith, len, f.size, flush-bufsiz fd, one)) in
        (
          after,
          1,
          rw full done,
          holds,
          record {
            some_room = f.some_room;
            part = f.part;
            size = omega (arith, kept, flush-bufsiz fd, f.size);
            used = omega (arith, left, len);
            inside = omega (arith, f.some_room);
          },
          inl whole,
        )
    | inr room ↦
        let next = more (ground (arith, h.same)) in
        let (after, (done, holds, left, kept)) =
          copy_in-Holds opened out fd h bytes
            (omega (arith, len, f.size, f.used, room_for d n q next)) in
        (
          after,
          suc n,
          rw room done,
          holds,
          record {
            some_room = f.some_room;
            part = f.part;
            size = omega (arith, kept, f.size);
            used = omega (arith, left, len, f.used, mul-suc d n);
            inside = next;
          },
          inr refl,
        )
  ]
    where
      no_rest : fd.bufsiz ≤ fd.written → r ≡ 0
      no_rest le = omega (arith, le, f.size, f.used, mul-le-mul_left d f.inside)

      more : fd.written < fd.bufsiz → suc n ≤ q
      more lt = elim ok [
        | inl whole ↦ less_than d n q (omega (arith, lt, whole, f.size, f.used))
        | inr le ↦ le
      ]

  pub append-none : 0 < r → n ≡ q → buffered_append fd bytes ≡ none
  unfolding buffered_append
  append-none some_rest last =
      let at : d * n ≡ d * q = ap (λ (m : ℕ). d * m) last in
      let room : leb fd.bufsiz fd.ptr ≡ false =
        not_full (omega (arith, h.same, some_rest, f.size, f.used, at)) in
      let over : leb (fd.ptr + length bytes) fd.bufsiz ≡ false =
        too_far (omega (arith, h.same, f.part, f.size, f.used, at, len)) in
      rw (room, over) refl
    where
      not_full : fd.ptr < fd.bufsiz → leb fd.bufsiz fd.ptr ≡ false
      not_full lt = ground arith

      too_far : fd.bufsiz < fd.ptr + length bytes → leb (fd.ptr + length bytes) fd.bufsiz ≡ false
      too_far lt = ground arith
