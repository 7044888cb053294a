-- ===== src/Host/Cache/RoundTrip.antt =====
-- The line that cache_address writes, as load_cached_address reads it (host/src/main.c).
use cec_controller.Common.{
  ℕ, zero, suc, ◌+◌, ◌*◌, ◌^◌, ◌≤◌, ◌<◌, ◌≡◌, refl, ap, ◌∙◌, Bool, true, false, not, ◌&&◌, [], ◌∷◌,
  ◌++◌, some, ◌==◌, length, Text, codes, hex_text, hex_digit, hex_number, hex_number-hex_onto,
  hex_onto-AllChars, length-hex_onto, length-append, AllChars, All-append, power, arith,
  strip_prefix,
}
use cec_controller.Serial.Settings.{c_string}
use cec_controller.Host.Cache.Scan.{
  is_space, skip_space, word_from, scan_word, scan_cache, magnitude, strtoull,
}
use cec_controller.Host.Cache.{saved_identity, cache_line}

-- Characters of the words of the file.
abbrev pub dark : ℕ → Bool
dark c = not (is_space c) && not (c == 0)

-- A word in front of white space.
word_from-word :
    (k : ℕ) (word rest : Text) (s : ℕ)
    → AllChars dark word
    → length word ≤ k
    → is_space s ≡ true
    → word_from k (word ++ (s ∷ rest)) ≡ (word, s ∷ rest)
unfolding word_from
word_from-word zero [] rest s d h b = refl
word_from-word zero (c ∷ word) rest s d h b = absurd (omega arith)
word_from-word (suc k) [] rest s d h b = rw b refl
word_from-word (suc k) (c ∷ word) rest s (d, ds) h b =
    rw (word_from-word k word rest s ds (omega arith) b, not_space) refl
  where
    not_space : is_space c ≡ false
    not_space = ground arith

scan_word-word :
    (k : ℕ) (word rest : Text) (s : ℕ)
    → AllChars dark word
    → 1 ≤ length word
    → length word ≤ k
    → is_space s ≡ true
    → scan_word k (word ++ (s ∷ rest)) ≡ some (word, s ∷ rest)
unfolding scan_word skip_space
scan_word-word k [] rest s d n h b = absurd (omega arith)
scan_word-word k (c ∷ word) rest s (d, ds) n h b =
    rw (scan_word, skip_space, not_space, word_from-word k (c ∷ word) rest s (d, ds) h b) refl
  where
    not_space : is_space c ≡ false
    not_space = ground arith

pub c_string-visible : (text : Text) → AllChars (λ c. not (c == 0)) text → c_string text ≡ text
unfolding c_string
c_string-visible [] h = refl
c_string-visible (c ∷ text) (h, hs) = ground (arith, c_string-visible text hs)

abbrev hex_char : ℕ → Bool
hex_char c =
    not (is_space c)
    && (not (c == 0) && (not (c == 45) && (not (c == 43) && (not (c == 120) && not (c == 88)))))

hex_digit-hex_char : (d : ℕ) → d < 16 → hex_char (hex_digit d) ≡ true
unfolding hex_digit
hex_digit-hex_char d h = ground arith

strtoull-digits :
    (text : Text) → AllChars hex_char text → 2 ≤ length text → strtoull text ≡ magnitude text
unfolding strtoull
strtoull-digits [] h n = absurd (omega arith)
strtoull-digits (a ∷ []) h n = absurd (omega arith)
strtoull-digits (a ∷ b ∷ text) h n = ground arith

magnitude-some :
    (text : Text) (v : ℕ)
    → 1 ≤ length text
    → hex_number 0 text ≡ some v
    → v < 2 ^ 64
    → magnitude text ≡ some v
unfolding magnitude
magnitude-some [] v n e h = absurd (omega arith)
magnitude-some (c ∷ text) v n e h = rw (magnitude, e) (ground arith)

pub saved_identity-hex_text : (i : ℕ) → i < 2 ^ 64 → saved_identity (hex_text 16 i) ≡ some i
unfolding saved_identity hex_number
saved_identity-hex_text i h =
    rw (saved_identity, size)
      (strtoull-digits (hex_text 16 i) (hex_onto-AllChars hex_char 16 i [] hex_digit-hex_char tt)
          (omega (arith, size))
        ∙ magnitude-some (hex_text 16 i) i (omega (arith, size))
            (hex_number-hex_onto 16 0 i [] (omega arith)
              ∙ ap some {x = 0 * power 16 16 + i} {y = i} (omega arith))
            h)
  where
    size : length (hex_text 16 i) ≡ 16
    size = omega (arith, length-hex_onto 16 i [])

abbrev pub visible : ℕ → Bool
visible c = not (c == 0)

abbrev all_visible : Text → Bool
all_visible [] = true
all_visible (c ∷ text) = visible c && all_visible text

visible_text : (text : Text) → all_visible text ≡ true → AllChars visible text
visible_text [] h = tt
visible_text (c ∷ text) h = (ground arith, visible_text text (ground arith))

visible-dark : (text : Text) → AllChars dark text → AllChars visible text
visible-dark [] h = tt
visible-dark (c ∷ text) (h, hs) = (ground arith, visible-dark text hs)

hex_digit-dark : (d : ℕ) → d < 16 → dark (hex_digit d) ≡ true
unfolding hex_digit
hex_digit-dark d h = ground arith

hex_text-dark : (k n : ℕ) → AllChars dark (hex_text k n)
hex_text-dark k n = hex_onto-AllChars dark k n [] hex_digit-dark tt

-- The line: its characters, its length and its words.
module _ (a : ℕ) (connector : Text) (i : ℕ) where
  pub line_visible : AllChars dark connector → AllChars visible (cache_line a connector i)
  unfolding cache_line
  line_visible h =
      All-append _ (codes "CECCTL_CACHE/2 address=") _
        (visible_text (codes "CECCTL_CACHE/2 address=") refl)
        (All-append _ (hex_text 4 a) _ (visible-dark _ (hex_text-dark 4 a)) (
          All-append _ (codes " connector=") _ (visible_text (codes " connector=") refl) (
            All-append _ connector _ (visible-dark _ h) (
              All-append _ (codes " display=") _ (visible_text (codes " display=") refl) (
                All-append _ (hex_text 16 i) (10 ∷ []) (visible-dark _ (hex_text-dark 16 i))
                  (refl, tt))))))

  pub length-cache_line : length (cache_line a connector i) ≡ length connector + 64
  unfolding cache_line
  length-cache_line = omega (
    arith,
    length-append (hex_text 4 a) (
        codes " connector=" ++ (connector ++ (codes " display=" ++ (hex_text 16 i ++ codes "\n")))),
    length-append connector (codes " display=" ++ (hex_text 16 i ++ codes "\n")),
    length-append (hex_text 16 i) (codes "\n"),
    length-hex_onto 4 a [],
    length-hex_onto 16 i [],
  )

  pub scan_cache-cache_line :
      AllChars dark connector
      → 1 ≤ length connector
      → length connector ≤ 127
      → scan_cache (cache_line a connector i)
        ≡ some (record { physical = hex_text 4 a; connector = connector; identity = hex_text 16 i })
  unfolding scan_cache cache_line strip_prefix skip_space
  scan_cache-cache_line h some_char short =
      rw
        (
          scan_word-word 4 (hex_text 4 a)
              (codes "connector="
                ++ (connector ++ (codes " display=" ++ (hex_text 16 i ++ codes "\n"))))
              32 (hex_text-dark 4 a) (omega (arith, length-hex_onto 4 a []))
              (omega (arith, length-hex_onto 4 a [])) refl,
          scan_word-word 127 connector (codes "display=" ++ (hex_text 16 i ++ codes "\n")) 32 h
              some_char short refl,
          scan_word-word 16 (hex_text 16 i) [] 10 (hex_text-dark 16 i)
              (omega (arith, length-hex_onto 16 i [])) (omega (arith, length-hex_onto 16 i []))
              refl,
        )
        refl
