-- ===== src/Agent/Tools/Paths.antt =====
-- The `mkdir` that `write_file` runs for the directory of a path.
use workspaces.Common.{
  ℕ, Text, text, List, [], ◌∷◌, ◌++◌, true, ◌≡◌, refl, some, All, append-nil, ◌∙◌, ap, sym,
}
use workspaces.Common.Posix.{space, between, bare, read, shell_words, is_plain, read_between_plain}
use workspaces.Agent.Tools.{mkdir_command}

abbrev pub IsPlain : Text → Type 0
IsPlain = All (λ b. is_plain b ≡ true)

-- The words of the command itself.
read-mkdir_command :
    (dir : Text)
    → shell_words (mkdir_command dir) ≡ read between [] (text "mkdir" ∷ text "-p" ∷ []) dir
unfolding shell_words mkdir_command read text
read-mkdir_command dir = refl

-- A shell reads the command for a directory that is not empty and holds only plain characters as
-- `mkdir`, `-p` and that directory.
pub mkdir_plain :
    (b : ℕ) (dir : Text)
    → IsPlain (b ∷ dir)
    → shell_words (mkdir_command (b ∷ dir)) ≡ some (text "mkdir" ∷ text "-p" ∷ (b ∷ dir) ∷ [])
mkdir_plain b dir h =
    read-mkdir_command (b ∷ dir)
    ∙ ap (read between [] _) (sym (append-nil (b ∷ dir)))
    ∙ read_between_plain b dir [] _ h
    ∙ unfold read in refl

read-space :
    (word : Text) (b : ℕ) (rest : Text) (words : List Text)
    → read bare word words (space ∷ b ∷ rest) ≡ read between [] (words ++ word ∷ []) (b ∷ rest)
unfolding read
read-space word b rest words = refl

-- A shell reads the command for a directory with one space, between two parts of plain
-- characters, as `mkdir` and `-p` with the two parts as two directories.
mkdir_with_space :
    (a : ℕ) (front : Text) (b : ℕ) (back : Text)
    → IsPlain (a ∷ front)
    → IsPlain (b ∷ back)
    → shell_words (mkdir_command ((a ∷ front) ++ space ∷ b ∷ back))
      ≡ some (text "mkdir" ∷ text "-p" ∷ (a ∷ front) ∷ (b ∷ back) ∷ [])
mkdir_with_space a front b back h k =
    read-mkdir_command ((a ∷ front) ++ space ∷ b ∷ back)
    ∙ read_between_plain a front (space ∷ b ∷ back) _ h
    ∙ read-space (a ∷ front) b back _
    ∙ ap (read between [] _) (sym (append-nil (b ∷ back)))
    ∙ read_between_plain b back [] _ k
    ∙ unfold read in refl
