-- ===== src/Api/Shell.antt =====
-- `buildCmd` and `shellQuote` of internal/api/sandboxes.go, against the words that a POSIX shell reads.
use mathlib.Core.List.{flat_map}
use workspaces.Common.{
  ℕ, Text, List, [], ◌∷◌, ◌++◌, ◌≡◌, ◌≢◌, refl, some, if◌then◌else◌, arith, append_assoc,
  append-nil, encode_rune, All, ◌==◌, Bool-cases, inl, inr, map, ◌∙◌, ap, sym,
}
use workspaces.Common.Posix.{
  quote_mark, backslash, space, between, bare, quoted, read, shell_words, read-plain,
}
use workspaces.Common.Runes.{runes, encode_all, IsScalar, runes-encode_all}

-- What one rune adds to `safe`.
escaped_rune : ℕ → Text
escaped_rune r =
    if r == quote_mark then quote_mark ∷ backslash ∷ quote_mark ∷ quote_mark ∷ [] else encode_rune r

quote_loop : List ℕ → Text → Text
quote_loop [] safe = safe
quote_loop (r ∷ rs) safe = quote_loop rs (safe ++ escaped_rune r)

unfoldable pub shell_quote : Text → Text
unfolding quote_loop escaped_rune
shell_quote s = quote_mark ∷ quote_loop (runes s) [] ++ quote_mark ∷ []

-- The rounds of the loop from the second on.
join_loop : List Text → Text → Text
join_loop [] out = out
join_loop (part ∷ cmd) out = join_loop cmd (out ++ space ∷ shell_quote part)

unfoldable pub build_cmd : List Text → Text
unfolding join_loop
build_cmd [] = []
build_cmd (part ∷ []) = part
build_cmd (part ∷ next ∷ cmd) = join_loop (next ∷ cmd) (shell_quote part)

quote_loop-flat_map :
    (rs : List ℕ) (safe : Text) → quote_loop rs safe ≡ safe ++ flat_map escaped_rune rs
unfolding quote_loop flat_map
quote_loop-flat_map [] safe = sym (append-nil safe)
quote_loop-flat_map (r ∷ rs) safe = simp (quote_loop-flat_map rs, append_assoc)

encode_rune_plain : (r : ℕ) → r ≢ quote_mark → All (λ b. b ≢ quote_mark) (encode_rune r)
unfolding encode_rune
encode_rune_plain r h = ground arith

read-escaped_mark :
    (rest word : Text) (words : List Text)
    → read quoted word words (escaped_rune quote_mark ++ rest)
      ≡ read quoted (word ++ encode_rune quote_mark) words rest
unfolding escaped_rune encode_rune read
read-escaped_mark rest word words = refl

read-escaped_rune :
    (r : ℕ) (rest word : Text) (words : List Text)
    → read quoted word words (escaped_rune r ++ rest)
      ≡ read quoted (word ++ encode_rune r) words rest
unfolding escaped_rune
read-escaped_rune r rest word words = elim (Bool-cases (r == quote_mark)) [
  | inl same ↦ let e : r ≡ quote_mark = ground arith in rw e (read-escaped_mark rest word words)
  | inr differs ↦
      rw differs (read-plain (encode_rune r) rest word words (encode_rune_plain r (ground arith)))
]

read-flat_map :
    (rs : List ℕ) (rest word : Text) (words : List Text)
    → read quoted word words (flat_map escaped_rune rs ++ rest)
      ≡ read quoted (word ++ encode_all rs) words rest
unfolding flat_map
read-flat_map [] rest word words = rw append-nil
read-flat_map (r ∷ rs) rest word words = simp (append_assoc, read-escaped_rune, read-flat_map rs)

-- A quoted text is read into the word where it stands.
read-shell_quote :
    (rs : List ℕ) (rest : Text) (words : List Text)
    → All IsScalar rs
    → read between [] words (shell_quote (encode_all rs) ++ rest)
      ≡ read bare (encode_all rs) words rest
unfolding shell_quote read
read-shell_quote rs rest words h =
    rw (runes-encode_all rs h, quote_loop-flat_map)
      (simp append_assoc (read-flat_map rs (quote_mark ∷ rest) [] words))

abbrev pub IsText : List ℕ → Type 0
IsText = All IsScalar

read-space :
    (p : List ℕ) (rest word : Text) (words : List Text)
    → IsText p
    → read bare word words (space ∷ shell_quote (encode_all p) ++ rest)
      ≡ read bare (encode_all p) (words ++ word ∷ []) rest
unfolding read
read-space p rest word words h = read-shell_quote p rest (words ++ word ∷ []) h

-- If the output so far is read up to the end of a word, the loop's output is read to the end.
read-join_loop :
    (ps : List (List ℕ)) (out : Text) (word : Text) (before words : List Text)
    → All IsText ps
    → ((rest : Text) → read between [] before (out ++ rest) ≡ read bare word words rest)
    → read between [] before (join_loop (map encode_all ps) out)
      ≡ some (words ++ word ∷ map encode_all ps)
unfolding join_loop
read-join_loop [] out word before words h k =
    ap (read between [] before) (sym (append-nil out)) ∙ k [] ∙ unfold read in refl
read-join_loop (p ∷ ps) out word before words (hp, hps) k =
    read-join_loop ps (out ++ space ∷ shell_quote (encode_all p)) (encode_all p) before
      (words ++ word ∷ []) hps
      (λ rest.
        ap (read between [] before) (append_assoc out (space ∷ shell_quote (encode_all p)) rest)
        ∙ k (space ∷ shell_quote (encode_all p) ++ rest)
        ∙ read-space p rest word words hp)
    ∙ ap some (append_assoc words (word ∷ []) (map encode_all (p ∷ ps)))

-- The shell reads the line that `buildCmd` makes of two or more arguments, whatever they hold, as
-- exactly these arguments; each is a text of code points that is encoded in UTF-8.
pub shell_words-build_cmd :
    (p q : List ℕ) (ps : List (List ℕ))
    → All IsText (p ∷ q ∷ ps)
    → shell_words (build_cmd (map encode_all (p ∷ q ∷ ps))) ≡ some (map encode_all (p ∷ q ∷ ps))
unfolding shell_words build_cmd
shell_words-build_cmd p q ps (hp, hps) =
    read-join_loop (q ∷ ps) (shell_quote (encode_all p)) (encode_all p) [] [] hps
      (λ rest. read-shell_quote p rest [] hp)
