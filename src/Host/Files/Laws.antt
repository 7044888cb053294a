-- ===== src/Host/Files/Laws.antt =====
-- Reading a file whose reads end short or are interrupted (host/src/main.c, read_file).
use mathlib.Core.List.{append_assoc}
use cec_controller.Common.{
  ℕ, zero, suc, false, ◌-◌, ◌≤◌, ◌<◌, ◌≡◌, refl, sym, ap, ◌∙◌, List, [], ◌∷◌, ◌++◌, ltb, Bool-cases,
  length, length-append, length-take, take, inl, inr, Text, arith, if◌then◌else◌,
}
use cec_controller.Host.Files.{
  Answer, Contents, Errno, Disk, Opened, finish_read, read_all, read_opened, read_file,
}
use cec_controller.Host.Protocol.Tokens.{append_nil}

-- The bytes that the answers hold, in order.
unfoldable pub all_bytes : List Answer → Text
all_bytes [] = []
all_bytes (Answer.bytes text ∷ answers) = text ++ all_bytes answers
all_bytes (Answer.interrupted ∷ answers) = all_bytes answers
all_bytes (Answer.failed e ∷ answers) = all_bytes answers

-- Reads that end at the end of the file only, and without an error.
unfoldable pub IsWhole : List Answer → Type 0
IsWhole [] = Unit
IsWhole (Answer.bytes text ∷ answers) = (1 ≤ length text) × IsWhole answers
IsWhole (Answer.interrupted ∷ answers) = IsWhole answers
IsWhole (Answer.failed e ∷ answers) = ⊥

-- What is kept of a file: all of it when it is shorter than the buffer.
unfoldable pub kept : ℕ → Text → Contents
kept capacity text =
    if ltb (length text) capacity then Contents.contents text else Contents.unread Errno.overflow

take-all : {A : Type 0} (n : ℕ) (xs : List A) → length xs ≤ n → take n xs ≡ xs
take-all zero [] h = refl
take-all zero (x ∷ xs) h = absurd (omega arith)
take-all (suc n) [] h = refl
take-all (suc n) (x ∷ xs) h = ap (◌∷◌ x) (take-all n xs (omega arith))

kept-long :
    (capacity : ℕ) (text : Text)
    → capacity ≤ length text
    → kept capacity text ≡ Contents.unread Errno.overflow
unfolding kept
kept-long capacity text h = ground arith

-- A full buffer, and whatever follows.
full :
    (capacity : ℕ) (buffer rest : Text)
    → length buffer ≤ capacity
    → ltb (length buffer) capacity ≡ false
    → finish_read capacity buffer ≡ kept capacity (buffer ++ rest)
unfolding finish_read
full capacity buffer rest h e =
    ground (arith, kept-long capacity (buffer ++ rest), length-append buffer rest)

at_end :
    (capacity : ℕ) (buffer : Text)
    → length buffer ≤ capacity
    → finish_read capacity buffer ≡ kept capacity (buffer ++ [])
unfolding finish_read kept
at_end capacity buffer h = rw (append_nil buffer) (ground arith)

cut :
    (capacity : ℕ) (buffer text rest : Text)
    → length buffer < capacity
    → kept capacity ((buffer ++ take (capacity - length buffer) text) ++ rest)
      ≡ kept capacity (buffer ++ (text ++ rest))
cut capacity buffer text rest h = elim (Bool-cases (ltb (capacity - length buffer) (length text))) [
  | inl long ↦
      kept-long capacity ((buffer ++ some_of) ++ rest) (
        ground (
          arith,
          length-append (buffer ++ some_of) rest,
          length-append buffer some_of,
          length-take (capacity - length buffer) text,
        ))
      ∙ sym (
          kept-long capacity (buffer ++ (text ++ rest))
            (ground (arith, length-append buffer (text ++ rest), length-append text rest)))
  | inr short ↦
      ap (λ t. kept capacity ((buffer ++ t) ++ rest))
        (take-all (capacity - length buffer) text (ground arith))
      ∙ ap (kept capacity) (append_assoc buffer text rest)
]
  where
    some_of : Text
    some_of = take (capacity - length buffer) text

-- A step of the loop, where it does not depend on the room whether the rest is read.
step :
    (capacity : ℕ) (buffer rest : Text) (next : Contents)
    → length buffer ≤ capacity
    → (length buffer < capacity → next ≡ kept capacity (buffer ++ rest))
    → (if ltb (length buffer) capacity then next else finish_read capacity buffer)
      ≡ kept capacity (buffer ++ rest)
step capacity buffer rest next h goes_on = elim (Bool-cases (ltb (length buffer) capacity)) [
  | inl room ↦ rw room (goes_on (ground arith))
  | inr none_left ↦ rw none_left (full capacity buffer rest h none_left)
]

-- However the reads are cut and interrupted.
read_all-kept :
    (capacity : ℕ) (answers : List Answer) (buffer : Text)
    → IsWhole answers
    → length buffer ≤ capacity
    → read_all capacity answers buffer ≡ kept capacity (buffer ++ all_bytes answers)
unfolding read_all all_bytes IsWhole
read_all-kept capacity [] buffer w h = at_end capacity buffer h
read_all-kept capacity (Answer.bytes [] ∷ answers) buffer w h = absurd (ground arith)
read_all-kept capacity (Answer.bytes (c ∷ text) ∷ answers) buffer (p, w) h =
    step capacity buffer ((c ∷ text) ++ all_bytes answers) (read_all capacity answers more) h
      (λ room.
        read_all-kept capacity answers more w (
          ground
            (arith, length-append buffer part, length-take (capacity - length buffer) (c ∷ text)))
        ∙ cut capacity buffer (c ∷ text) (all_bytes answers) room)
  where
    part : Text
    part = take (capacity - length buffer) (c ∷ text)

    more : Text
    more = buffer ++ part
read_all-kept capacity (Answer.interrupted ∷ answers) buffer w h =
    step capacity buffer (all_bytes answers) (read_all capacity answers buffer) h
      (λ _. read_all-kept capacity answers buffer w h)
read_all-kept capacity (Answer.failed e ∷ answers) buffer w h = absurd w

-- A file whose reads end without an error, however they are cut short and interrupted, is read as
-- the bytes that they hold when these are fewer than the buffer has room for; else the result is
-- EOVERFLOW.
pub read_file-kept :
    (disk : Disk) (path : Text) (capacity : ℕ) (answers : List Answer)
    → disk.files path ≡ Opened.opened answers
    → IsWhole answers
    → read_file disk path capacity ≡ kept capacity (all_bytes answers)
unfolding read_file read_opened
read_file-kept disk path capacity answers e w =
    rw e (read_all-kept capacity answers [] w (omega arith))
