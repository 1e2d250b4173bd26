-- ===== src/Sandbox/Registry/Listing.antt =====
-- What the records are that `List` of internal/sandbox/registry.go returns.
use mathlib.Core.List.{Permᴰ}
use mathlib.Core.Path.{subst}
use workspaces.Common.{
  none, text_eq_refl, text_eq_iff, List, [], ◌∷◌, ◌≡◌, refl, sym, true, false, some, ok, any, All,
  All-select, All-mono, arith,
}
use workspaces.Sandbox.Registry.Sql.{Row, Sqlite, IsSqlite}
use workspaces.Sandbox.Registry.{SandboxRecord, ListFilter, list, list_query}
use workspaces.Sandbox.Registry.Spec.{find, is_record, IsKeyed, passes}
use workspaces.Sandbox.Registry.Tables.{table}
use workspaces.Sandbox.Registry.Queries.{list-passes}

All-Permᴰ : {A : Type 0} (P : A → Type 0) {xs ys : List A} → Permᴰ xs ys → All P ys → All P xs
All-Permᴰ P Permᴰ.nil h = h
All-Permᴰ P (Permᴰ.cons e d) (h, hs) = (subst P (sym e) h, All-Permᴰ P d hs)
All-Permᴰ P (Permᴰ.swap e f) (h, (k, hs)) = (subst P (sym e) k, (subst P (sym f) h, hs))
All-Permᴰ P (Permᴰ.trans d e) h = All-Permᴰ P d (All-Permᴰ P e h)

find_cons :
    (new : SandboxRecord) (all sbs : List SandboxRecord)
    → any (is_record new.id) sbs ≡ false
    → All (λ sb. find sb.id all ≡ some sb) sbs
    → All (λ sb. find sb.id (new ∷ all) ≡ some sb) sbs
find_cons new all [] fresh h = tt
find_cons new all (sb ∷ sbs) fresh (h, hs) = (
  ground (arith, h, text_eq_iff new.id sb.id, text_eq_iff sb.id new.id),
  find_cons new all sbs (ground arith) hs,
)

-- Among records of distinct ids each is the one that is found under its id.
pub IsKeyed-find :
    (sbs : List SandboxRecord) → IsKeyed sbs → All (λ sb. find sb.id sbs ≡ some sb) sbs
IsKeyed-find [] k = tt
IsKeyed-find (sb ∷ sbs) (fresh, k) =
    (rw (text_eq_refl sb.id) refl, find_cons sb sbs sbs fresh (IsKeyed-find sbs k))

All-both :
    {A : Type 0} (P Q : A → Type 0) (xs : List A) → All P xs → All Q xs → All (λ x. P x × Q x) xs
All-both P Q [] h k = tt
All-both P Q (x ∷ xs) (h, hs) (k, ks) = ((h, k), All-both P Q xs hs ks)

module _ (S : Sqlite) (L : IsSqlite S) (P : SandboxRecord → Type 0) where
  -- The records that a list request returns pass the filter, are those that are found under their
  -- ids, and have every property that all the stored ones have.
  pub list-found :
      (f : ListFilter) (db : S.Db) (sbs : List SandboxRecord) (rs : List Row)
      → S.rows db ≡ table S sbs
      → IsKeyed sbs
      → All P sbs
      → S.query (list_query S f) db ≡ ok (rs, none)
      → (out : List SandboxRecord) × (list S f db ≡ ok out)
        × All (λ sb. (passes f sb ≡ true) × (find sb.id sbs ≡ some sb) × P sb) out
  list-found f db sbs rs stored k all answered =
      let (out, e, perm, _) = list-passes S L f db sbs rs stored answered in
      let Q = λ (sb : SandboxRecord). (find sb.id sbs ≡ some sb) × P sb in
      (
        out,
        e,
        All-mono _ (λ sb h. (h.0, h.1.0, h.1.1)) out
            (All-Permᴰ _ perm
              (All-select Q (passes f) sbs (All-both _ P sbs (IsKeyed-find sbs k) all))),
      )
