-- ===== src/Sandbox/Docker/Paths.antt =====
-- `basename` and `dirOf` of internal/sandbox/docker.go.
use workspaces.Common.{
  ℕ, suc, Text, [], ◌∷◌, ◌++◌, Bool, true, false, ◌≡◌, ◌≢◌, none, some, take, drop,
  take-append-drop, trim_right, last_index, All, if◌then◌else◌, arith, Option-cases, inl, inr,
}

abbrev pub slash : ℕ
slash = b'/'

unfoldable pub basename : Text → Text
unfolding last_index trim_right
basename path =
    let p = trim_right slash path in
    elim (last_index p slash) [ some i ↦ drop (suc i) p | none ↦ p ]

unfoldable pub dir_of : Text → Text
unfolding last_index trim_right
dir_of path =
    let p = trim_right slash path in
    elim (last_index p slash) [ some i ↦ take (suc i) p | none ↦ slash ∷ [] ]

abbrev pub Lacks : ℕ → Text → Type 0
Lacks c = All (λ b. b ≢ c)

-- Whether a slash stands in a path, behind which only slashes may follow.
abbrev pub is_nested : Text → Bool
is_nested path = elim (last_index (trim_right slash path) slash) [ some i ↦ true | none ↦ false ]

last_index-Lacks : (p : Text) → last_index p slash ≡ none → Lacks slash p
unfolding last_index
last_index-Lacks [] h = tt
last_index-Lacks (b ∷ p) h = ground (arith, last_index-Lacks p)

drop-Lacks : (p : Text) {i : ℕ} → last_index p slash ≡ some i → Lacks slash (drop (suc i) p)
unfolding last_index
drop-Lacks [] h = cc
drop-Lacks (b ∷ p) {i} h = elim (Option-cases (last_index p slash)) [
  | inl e ↦ let first : i ≡ 0 = ground arith in rw first (last_index-Lacks p e)
  | inr (j, e) ↦ let later : i ≡ suc j = ground arith in rw later (drop-Lacks p e)
]

-- The directory and the name of a path make the path without its last slashes, where it has a
-- directory; where it has none, the directory is the root. The name never holds a slash.
pub dir_of-basename :
    (path : Text)
    → (dir_of path ++ basename path
        ≡ (if is_nested path then trim_right slash path else slash ∷ trim_right slash path))
      × Lacks slash (basename path)
unfolding basename dir_of
dir_of-basename path = elim (Option-cases (last_index (trim_right slash path) slash)) [
  | inl e ↦ (rw (e, dir_of, basename) (ground arith), rw (e, basename) (last_index-Lacks _ e))
  | inr (i, e) ↦ (
    rw (e, dir_of, basename) (ground (arith, take-append-drop (suc i) (trim_right slash path))),
    rw (e, basename) (drop-Lacks _ e),
  )
]
