-- ===== src/Common/Posix.antt =====
-- How a POSIX shell splits a line into words, for lines that are nothing more than words.
use Prim.Native.Nat.{ℕ}
use mathlib.Core.Path.{◌≡◌}
use mathlib.Core.Logic.{◌≢◌}
use mathlib.Core.Bool.{Bool, true, false, ◌||◌}
use mathlib.Core.Option.{Option, none, some}
use mathlib.Core.List.{List, [], ◌∷◌, ◌++◌, append-nil, append_assoc}
use native.Mathlib.Omega.{arith}
use workspaces.Common.Tests.{◌==◌, if◌then◌else◌}
use workspaces.Common.Lists.{any, All}
use workspaces.Common.Strings.{Text, text}

abbrev pub quote_mark : ℕ
quote_mark = b'\''

abbrev pub backslash : ℕ
backslash = b'\\'

abbrev pub space : ℕ
space = b' '

-- Where the shell stands while it splits a line into words.
pub data Mode : Type 0 where
  -- between words, in a word, in single quotes, behind a backslash
  between bare quoted escaped : Mode

-- The characters that mean something to the shell outside quotes; a line that has one there is more
-- than a list of words.
unfoldable pub is_special : ℕ → Bool
unfolding text
is_special c = any (λ d. d == c) (text "\"$`&|;<>()*?[]#~={}!\n\t")

-- The words of a line that is only a list of words, by the quoting rules of POSIX.
unfoldable pub read : Mode → Text → List Text → Text → Option (List Text)
unfolding is_special
read between word words [] = some words
read bare word words [] = some (words ++ word ∷ [])
read quoted word words [] = none
read escaped word words [] = none
read between word words (c ∷ s) =
    let skip = read between [] words s in
    let open_quote = read quoted [] words s in
    let open_escape = read escaped [] words s in
    let start = read bare (c ∷ []) words s in
    if c == space
    then skip
    else if c == quote_mark
    then open_quote
    else if c == backslash
    then open_escape
    else if is_special c
    then none
    else start
read bare word words (c ∷ s) =
    let finish = read between [] (words ++ word ∷ []) s in
    let open_quote = read quoted word words s in
    let open_escape = read escaped word words s in
    let take_it = read bare (word ++ c ∷ []) words s in
    if c == space
    then finish
    else if c == quote_mark
    then open_quote
    else if c == backslash
    then open_escape
    else if is_special c
    then none
    else take_it
read quoted word words (c ∷ s) =
    let close = read bare word words s in
    let take_it = read quoted (word ++ c ∷ []) words s in if c == quote_mark then close else take_it
read escaped word words (c ∷ s) =
    let take_it = read bare (word ++ c ∷ []) words s in if c == b'\n' then none else take_it

unfoldable pub shell_words : Text → Option (List Text)
unfolding read
shell_words s = read between [] [] s

-- Bytes other than the quote mark are taken as they are inside quotes.
pub read-plain :
    (bs rest word : Text) (words : List Text)
    → All (λ b. b ≢ quote_mark) bs
    → read quoted word words (bs ++ rest) ≡ read quoted (word ++ bs) words rest
unfolding read
read-plain [] rest word words h = rw append-nil
read-plain (b ∷ bs) rest word words h =
    ground (arith, read-plain bs rest (word ++ b ∷ []) words, append_assoc word (b ∷ []) bs)

-- A byte that stands for itself outside quotes.
abbrev pub is_plain : ℕ → Bool
is_plain b = if b == space || b == quote_mark || b == backslash || is_special b then false else true

pub read_bare_plain :
    (bs rest word : Text) (words : List Text)
    → All (λ b. is_plain b ≡ true) bs
    → read bare word words (bs ++ rest) ≡ read bare (word ++ bs) words rest
unfolding read
read_bare_plain [] rest word words h = rw append-nil
read_bare_plain (b ∷ bs) rest word words h =
    ground (arith, read_bare_plain bs rest (word ++ b ∷ []) words, append_assoc word (b ∷ []) bs)

pub read_between_plain :
    (b : ℕ) (bs rest : Text) (words : List Text)
    → All (λ c. is_plain c ≡ true) (b ∷ bs)
    → read between [] words ((b ∷ bs) ++ rest) ≡ read bare (b ∷ bs) words rest
unfolding read
read_between_plain b bs rest words h = ground (arith, read_bare_plain bs rest (b ∷ []) words)
