-- ===== src/Host/Files.antt =====
-- The files that the host command reads and writes (host/src/main.c, read_file and the ends of the
-- system calls around it).
pub mod Laws
use cec_controller.Common.{
  ℕ, ◌-◌, Bool, true, false, List, [], ◌∷◌, ◌++◌, Option, none, some, ltb, ◌==◌, if◌then◌else◌,
  length, take, Text, same_text,
}

-- The values of errno that the command looks at, and all others.
pub data Errno : Type 0 where
  no_entry exists invalid no_device overflow : Errno
  other : ℕ → Errno

-- What one call of read() gives: bytes, of which it takes as many as it has room for, an
-- interruption by a signal, or an error.
pub data Answer : Type 0 where
  bytes : Text → Answer
  interrupted : Answer
  failed : Errno → Answer

-- What open() gives: an error, or the answers of the reads that follow, up to the end of the file.
pub data Opened : Type 0 where
  refused : Errno → Opened
  opened : List Answer → Opened

pub data Contents : Type 0 where
  unread : Errno → Contents
  contents : Text → Contents

-- The end of read_file: a full buffer counts as a file that is too long.
unfoldable pub finish_read : ℕ → Text → Contents
finish_read capacity buffer =
    if length buffer == capacity then Contents.unread Errno.overflow else Contents.contents buffer

unfoldable pub read_all : ℕ → List Answer → Text → Contents
unfolding finish_read
read_all capacity [] buffer = finish_read capacity buffer
read_all capacity (Answer.bytes [] ∷ answers) buffer = finish_read capacity buffer
read_all capacity (Answer.bytes (c ∷ text) ∷ answers) buffer =
    let rest = read_all capacity answers (buffer ++ take (capacity - length buffer) (c ∷ text)) in
    if ltb (length buffer) capacity then rest else finish_read capacity buffer
read_all capacity (Answer.interrupted ∷ answers) buffer =
    let rest = read_all capacity answers buffer in
    if ltb (length buffer) capacity then rest else finish_read capacity buffer
read_all capacity (Answer.failed e ∷ answers) buffer =
    if ltb (length buffer) capacity then Contents.unread e else finish_read capacity buffer

-- The directories and files, the part of them that the command sees: what opening a path for reading
-- gives, whether a path is a directory, and the names that reading a directory gives.
pub record Disk : Type 0 where
  pub files : Text → Opened
  pub is_directory : Text → Bool
  pub names : Text → Option (List Text)

unfoldable pub read_opened : ℕ → Opened → Contents
unfolding read_all
read_opened capacity (Opened.refused e) = Contents.unread e
read_opened capacity (Opened.opened answers) = read_all capacity answers []

unfoldable pub read_file : Disk → Text → ℕ → Contents
unfolding read_opened
read_file disk path capacity = read_opened capacity (disk.files path)

-- A path that opens as something else from now on.
unfoldable pub put : Text → Opened → Disk → Disk
put path file disk = record disk {
  files = λ other. if same_text path other then file else disk.files other;
}

-- `%s/%s` in an array of PATH_MAX characters: nothing when it does not fit.
unfoldable pub joined : Text → Text → Option Text
joined directory name =
    let path = directory ++ (47 ∷ name) in if ltb (length path) 4096 then some path else none

-- strrchr for '/': the text behind the last one, or all of it.
unfoldable pub basename_from : Text → Text → Text
basename_from [] name = name
basename_from (c ∷ text) name = if c == 47 then basename_from text text else basename_from text name

unfoldable pub basename : Text → Text
unfolding basename_from
basename text = basename_from text text
