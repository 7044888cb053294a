-- ===== src/Host/Cache/Laws.antt =====
-- What the file of the address keeps between two runs of the command (host/src/main.c,
-- cache_address, load_cached_address).
use cec_controller.Common.{
  ℕ, zero, suc, ◌^◌, ◌≤◌, ◌<◌, ◌≡◌, ◌≢◌, refl, ap, ◌∙◌, Bool, true, false, not, ◌&&◌, ◌||◌, [], ◌∷◌,
  ◌++◌, none, some, ltb, ◌==◌, if◌then◌else◌, length, take, Text, codes, same_text_refl, hex_text,
  AllChars, arith, lt→ltb, require, ◌>>◌,
}
use cec_controller.Validate.{cec_physical_address_valid}
use cec_controller.Host.Address.{cecctl_parse-hex_text}
use cec_controller.Host.Files.{Answer, Disk, Contents, Opened, put}
use cec_controller.Host.Files.Laws.{read_file-kept, kept, all_bytes, IsWhole}
use cec_controller.Host.Protocol.Tokens.{append_nil}
use cec_controller.Host.Options.{Options}
use cec_controller.Host.Discovery.{display_identity}
use cec_controller.Host.Cache.{
  all_name_chars, still_selected, same_display, accept_cached, load_cached_address, Writing,
  cache_line, one_read, no_file, write_cache, cache_address,
}
use cec_controller.Host.Cache.Scan.{Cached}
use cec_controller.Host.Cache.RoundTrip.{
  dark, line_visible, length-cache_line, scan_cache-cache_line, saved_identity-hex_text,
  c_string-visible,
}

name-dark : (text : Text) → all_name_chars text ≡ true → AllChars dark text
name-dark [] h = tt
name-dark (c ∷ text) h = (ground arith, name-dark text (ground arith))

-- What a run of the command leaves behind.
pub record GoodLine (a : ℕ) (connector : Text) (i : ℕ) : Type 0 where
  pub address_fits : a < 65536
  pub address_valid : cec_physical_address_valid a ≡ true
  pub name_good : all_name_chars connector ≡ true
  pub name_some : 1 ≤ length connector
  pub name_short : length connector ≤ 127
  pub identity_some : i ≢ 0
  pub identity_fits : i < 2 ^ 64

both_required :
    (p q : Bool) (a : ℕ) → (require p >> (require q >> some a)) ≡ (if p && q then some a else none)
both_required true true a = refl
both_required true false a = refl
both_required false q a = refl

kept-short : (text : Text) → length text < 255 → kept 255 (text ++ []) ≡ Contents.contents text
unfolding kept
kept-short text h = rw (append_nil text) (ground arith)

module _ (disk : Disk) (o : Options) (a : ℕ) (connector : Text) (i : ℕ) where
  words : Cached
  words = record { physical = hex_text 4 a; connector = connector; identity = hex_text 16 i }

  accept-words :
      GoodLine a connector i
      → accept_cached disk o words ≡ (
          if still_selected disk o connector
            && same_display (display_identity disk o connector) (some i)
          then some a
          else none)
  unfolding accept_cached words
  accept-words g =
      rw
        (
          accept_cached,
          cecctl_parse-hex_text a g.address_fits g.address_valid,
          g.name_good,
          saved_identity-hex_text i g.identity_fits,
        )
        (both_required (still_selected disk o connector)
          (same_display (display_identity disk o connector) (some i)) a)

  load-line :
      GoodLine a connector i
      → disk.files o.state_file ≡ one_read (cache_line a connector i)
      → load_cached_address disk o ≡ accept_cached disk o words
  unfolding load_cached_address words IsWhole all_bytes
  load-line g e =
      rw
        (
          load_cached_address,
          read_file-kept disk o.state_file 255 (Answer.bytes line ∷ []) e (some_char, tt)
              ∙ kept-short line small,
          c_string-visible line (line_visible a connector i named),
          scan_cache-cache_line a connector i named g.name_some g.name_short,
        )
        refl
    where
      line : Text
      line = cache_line a connector i

      named : AllChars dark connector
      named = name-dark connector g.name_good

      some_char : 1 ≤ length line
      some_char = omega (arith, length-cache_line a connector i)

      small : length line < 255
      small = omega (arith, length-cache_line a connector i, g.name_short)

put-same : (path : Text) (file : Opened) (disk : Disk) → (put path file disk).files path ≡ file
unfolding put
put-same path file disk = rw (same_text_refl path) refl

take-whole : (n : ℕ) (text : Text) → n ≡ length text → take n text ≡ text
take-whole zero [] h = refl
take-whole zero (c ∷ text) h = absurd (omega (arith, h))
take-whole (suc n) [] h = refl
take-whole (suc n) (c ∷ text) h = ap (λ t. c ∷ t) (take-whole n text (omega (arith, h)))

-- The files behind the calls that write.
module _ (w : Writing) (path temporary line : Text) (i : ℕ) (disk : Disk) where
  write_cache-stored :
      length line < 256
      → i ≢ 0
      → w.written ≡ length line
      → (w.syncs && w.renames) ≡ true
      → (write_cache w path temporary line i disk).files path ≡ one_read line
  unfolding write_cache
  write_cache-stored room some_display whole done =
      rw (write_cache, good, all_done)
        (put-same path (one_read (take w.written line)) (put temporary no_file disk)
          ∙ ap one_read (take-whole w.written line whole))
    where
      all_done : (w.written == length line && (w.syncs && w.renames)) ≡ true
      all_done = ground (arith, whole, done)

      good : (not (ltb (length line) 256) || i == 0) ≡ false
      good = ground (arith, room, some_display)

-- A run that stores an address of 16 bits, which is valid, with the name of its connector (1 to 127
-- letters, digits, `-` and `_`) and the identity of its display, where the whole line is written and
-- every call succeeds: the next
-- run reads that address from the file, if the connector is still the one to use and the display is
-- the same one or cannot be told, and otherwise it reads none.
pub load_cached-cache_address :
    (w : Writing) (o : Options) (a : ℕ) (connector : Text) (i : ℕ) (disk : Disk)
    → GoodLine a connector i
    → length (o.state_file ++ (codes ".tmp." ++ w.pid)) < 4096
    → w.creates ≡ true
    → w.written ≡ length (cache_line a connector i)
    → w.syncs ≡ true
    → w.renames ≡ true
    → let after = cache_address w o.state_file a connector i disk in
      load_cached_address after o ≡ (
        if still_selected after o connector
          && same_display (display_identity after o connector) (some i)
        then some a
        else none)
unfolding cache_address
load_cached-cache_address w o a connector i disk g room c whole s r =
    load-line after o a connector i g stored ∙ accept-words after o a connector i g
  where
    after : Disk
    after = cache_address w o.state_file a connector i disk

    stored : after.files o.state_file ≡ one_read (cache_line a connector i)
    stored =
        rw (cache_address, lt→ltb _ _ room, c)
          (write_cache-stored w o.state_file (o.state_file ++ (codes ".tmp." ++ w.pid))
            (cache_line a connector i) i disk
            (omega (arith, length-cache_line a connector i, g.name_short)) g.identity_some whole
            (rw (s, r) refl))
