-- ===== src/Project1/Records.antt =====
-- `get_next_record` of project1/src/main.cpp: the records of a sorted run, through its buffer. A file
-- is a sequence of whole records here.
use ite.Base.{
  ℕ, zero, suc, ◌+◌, ◌-◌, ◌≡◌, ◌≤◌, ◌<◌, Option, none, some, List, [], ◌∷◌, ◌++◌, ◌==◌,
  if◌then◌else◌, length, get_elem?,
}
use ite.Project1.Bufio.{take, drop, overwrite}

-- `file` are the records behind the offset, and `ptr` counts from the start of `buf`.
pub record ExternalInfo : Type 0 where
  pub file : List ℕ
  pub buf : List ℕ
  pub ptr : ℕ
  pub remain : ℕ
  pub bufsiz : ℕ

-- NULL, a record of the buffer, or a pointer behind the end of the buffer.
pub data Got : Type 0 where
  null : Got
  got : ℕ → ExternalInfo → Got
  outside : Got

abbrev pub got_at : Option ℕ → ExternalInfo → Got
got_at none ext = outside
got_at (some x) ext = got x (record ext { remain = ext.remain - 1; ptr = ext.ptr + 1 })

abbrev pub serve : ExternalInfo → Got
serve ext = got_at (get_elem? ext.buf ext.ptr) ext

-- What `buffered_read` has found goes to the start of the buffer.
abbrev pub refill : List ℕ → ExternalInfo → ExternalInfo
refill found ext = record ext {
  file = drop ext.bufsiz ext.file;
  buf = overwrite ext.buf 0 found;
  ptr = 0;
  remain = length found;
}

abbrev pub serve_read : List ℕ → ExternalInfo → Got
serve_read [] ext = null
serve_read (x ∷ xs) ext = serve (refill (x ∷ xs) ext)

unfoldable pub get_next_record : ExternalInfo → Got
get_next_record ext =
    if ext.remain == 0 then serve_read (take ext.bufsiz ext.file) ext else serve ext

abbrev pub consed : ℕ → Option (List ℕ) → Option (List ℕ)
consed x none = none
consed x (some xs) = some (x ∷ xs)

-- Calls of `get_next_record` until it answers NULL.
unfoldable pub drain : ℕ → ExternalInfo → Option (List ℕ)
unfolding get_next_record
drain zero ext = none
drain (suc fuel) ext = elim (get_next_record ext) [
  | null ↦ some []
  | got x next ↦ consed x (drain fuel next)
  | outside ↦ none
]

-- The records that wait in the buffer.
abbrev pub waiting : ExternalInfo → List ℕ
waiting ext = take ext.remain (drop ext.ptr ext.buf)

abbrev pub IsWithin : ExternalInfo → Type 0
IsWithin ext = ext.ptr + ext.remain ≤ length ext.buf

pub record Serves (ext : ExternalInfo) (x : ℕ) (next : ExternalInfo) : Type 0 where
  pub answers : serve ext ≡ got x next
  pub first : waiting ext ≡ x ∷ waiting next
  pub within : IsWithin next
  pub less : suc next.remain ≡ ext.remain
  pub same_file : next.file ≡ ext.file
  pub same_size : next.bufsiz ≡ ext.bufsiz

-- A run that is drained with the given fuel.
abbrev Drains : ℕ → ExternalInfo → Type 0
Drains fuel ext = drain fuel ext ≡ some (waiting ext ++ ext.file)

module _ (fuel : ℕ)
    (rest : (ext : ExternalInfo)
      → IsWithin ext
      → 0 < ext.bufsiz
      → ext.remain + length ext.file < fuel
      → Drains fuel ext) where
  abbrev after : Got → Option (List ℕ)
  after g = elim g [ null ↦ some [] | got x next ↦ consed x (drain fuel next) | outside ↦ none ]
