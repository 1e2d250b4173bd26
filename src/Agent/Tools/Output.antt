-- ===== src/Agent/Tools/Output.antt =====
-- The text that the model sees of a command.
use workspaces.Common.{
  Text, text, is_empty, [], ◌∷◌, ◌++◌, Bool, true, false, ◌&&◌, ◌≡◌, refl, if◌then◌else◌,
  append_assoc, trim_right, join,
}
use workspaces.Common.Int.{decimal_ℤ}
use workspaces.Sandbox.Driver.{ExecResult}
use workspaces.Agent.Tools.{format_result, is_zero, section}

-- A block of the output: a heading, the stream and a line break, or nothing for an empty stream.
abbrev pub block : Text → Text → Text
block heading stream = if is_empty stream then [] else heading ++ stream ++ text "\n"

join_sections :
    (out errs code : Text) (zero_code : Bool)
    → let parts =
        section (text "[stdout]\n") out ++ section (text "[stderr]\n") errs ++ code ∷ [] in
      join (text "\n") (
        if is_empty out && is_empty errs && zero_code
        then text "(command produced no output)" ∷ parts
        else parts)
      ≡ (if is_empty out && is_empty errs && zero_code
          then text "(command produced no output)" ++ text "\n"
          else [])
        ++ block (text "[stdout]\n") out
        ++ block (text "[stderr]\n") errs
        ++ code
unfolding join
join_sections [] [] code true = simp append_assoc
join_sections [] [] code false = refl
join_sections [] (e ∷ es) code z = simp append_assoc
join_sections (o ∷ os) [] code z = simp append_assoc
join_sections (o ∷ os) (e ∷ es) code z = simp append_assoc

-- The output is the block of each stream without its last line breaks, in front of the exit code;
-- a command that succeeded in silence is said to have done so.
format_result-block :
    (res : ExecResult)
    → let out = trim_right b'\n' res.stdout in
      let errs = trim_right b'\n' res.stderr in
      format_result res
      ≡ (if is_empty out && is_empty errs && is_zero res.exit_code
          then text "(command produced no output)" ++ text "\n"
          else [])
        ++ block (text "[stdout]\n") out
        ++ block (text "[stderr]\n") errs
        ++ (text "[exit_code=" ++ decimal_ℤ res.exit_code ++ text "]")
unfolding format_result
format_result-block res =
    join_sections (trim_right b'\n' res.stdout) (trim_right b'\n' res.stderr)
      (text "[exit_code=" ++ decimal_ℤ res.exit_code ++ text "]") (is_zero res.exit_code)
