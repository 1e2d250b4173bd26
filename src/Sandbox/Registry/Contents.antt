-- ===== src/Sandbox/Registry/Contents.antt =====
-- What the table of internal/sandbox/registry.go holds, without the order of its rows.
use mathlib.Core.Quot
use mathlib.Core.Quot.{Quot, Quot-set}
use mathlib.Core.List.{Permᴰ}
use mathlib.Core.List.Permᴰ
use workspaces.Common.{
  Text, text_eq, text_eq_iff, text_eq_refl, List, [], ◌∷◌, Bool, true, false, ◌≡◌, refl, sym, ◌∙◌,
  ap, Option, none, some, any, arith, Option-cases, Bool-cases, inl, inr, ◌⊎◌,
}
use workspaces.Sandbox.Registry.{SandboxRecord}
use workspaces.Sandbox.Registry.Spec.{
  Write, insert, update, delete, touch, set_status, written, is_record, find, IsKeyed, remove,
}
use workspaces.Sandbox.Registry.Refines.{
  find-written, written-IsKeyed, find_absent, find-remove, remove-IsKeyed, entry_after,
}

remove_absent :
    (i : Text) (ys : List SandboxRecord) → any (is_record i) ys ≡ false → remove i ys ≡ ys
remove_absent i [] h = refl
remove_absent i (y ∷ ys) h = ground (arith, remove_absent i ys)

-- The record of an id comes first, up to order.
find-Permᴰ_first :
    (i : Text) (ys : List SandboxRecord) {sb : SandboxRecord}
    → IsKeyed ys
    → find i ys ≡ some sb
    → Permᴰ ys (sb ∷ remove i ys)
find-Permᴰ_first i [] k h = cc
find-Permᴰ_first i (y ∷ ys) (fresh, k) h = elim (Bool-cases (is_record i y)) [
  | inl e ↦
      let same : y.id ≡ i = (text_eq_iff y.id i).0 e in
      let kept : remove i ys ≡ ys = rw (← same) (remove_absent y.id ys fresh) in
      rw (e, kept) (Permᴰ.cons (ground (arith, rw e at h)) (Permᴰ.refl ys))
  | inr e ↦
      rw e
        (Permᴰ.trans (Permᴰ.cons refl (find-Permᴰ_first i ys k (rw e at h))) (Permᴰ.swap refl refl))
]

-- Two lists of distinct ids under which they have the same records are the same up to order.
pub find-Permᴰ :
    (xs ys : List SandboxRecord)
    → IsKeyed xs
    → IsKeyed ys
    → ((id : Text) → find id xs ≡ find id ys)
    → Permᴰ xs ys
find-Permᴰ [] [] k k' same = Permᴰ.nil
find-Permᴰ [] (y ∷ ys) k k' same = let h = same y.id in cc (rw (text_eq_refl y.id) at h)
find-Permᴰ (x ∷ xs) ys (fresh, k) k' same =
    let here : find x.id ys ≡ some x = sym (same x.id) ∙ rw (text_eq_refl x.id) refl in
    Permᴰ.trans
      (Permᴰ.cons refl
        (find-Permᴰ xs (remove x.id ys) k (remove-IsKeyed x.id ys k') (λ id. rest id)))
      (Permᴰ.symm (find-Permᴰ_first x.id ys k' here))
  where
    rest : (id : Text) → find id xs ≡ find id (remove x.id ys)
    rest id = elim (Bool-cases (text_eq x.id id)) [
      | inl e ↦
          let e' : x.id ≡ id = (text_eq_iff x.id id).0 e in
          rw (find-remove x.id id ys, e) (rw (← e') (find_absent x.id xs fresh))
      | inr e ↦ ground (arith, e, same id, find-remove x.id id ys)
    ]

abbrev pub Keyed : Type 0
Keyed = (sbs : List SandboxRecord) × IsKeyed sbs

-- The same record, or none, under every id.
abbrev pub SameRecords : Keyed → Keyed → Type 0
SameRecords a b = (id : Text) → find id a.0 ≡ find id b.0

-- What a table holds: its records, in no order.
abbrev pub Contents : Type 0
Contents = Quot SameRecords

abbrev pub of_records : (sbs : List SandboxRecord) → IsKeyed sbs → Contents
of_records sbs k = Quot.mk (sbs, k)

pub Option-set : IsSet (Option SandboxRecord)
Option-set = hlevel

-- The record under an id.
unfoldable pub lookup : Text → Contents → Option SandboxRecord
lookup id = Quot.lift Option-set (λ a. find id a.0) (λ a b h. h id)

-- Contents are determined by what is found in them.
pub lookup-ext : (c d : Contents) → ((id : Text) → lookup id c ≡ lookup id d) → c ≡ d
unfolding lookup
lookup-ext = Quot.ind (λ _. hlevel Quot-set) λ a. Quot.ind (λ _. hlevel Quot-set) λ b. Quot.sound

-- An id is among the records if a record is found.
any-find :
    (id : Text) (sbs : List SandboxRecord)
    → any (is_record id) sbs ≡ (elim (find id sbs) as (λ _. Bool) [ none ↦ false | some _ ↦ true ])
any-find id [] = refl
any-find id (sb ∷ sbs) = ground (arith, any-find id sbs)

-- A list and one with the same records admit the same writes.
refused_alike :
    (w : Write) (a b : Keyed) → SameRecords a b → written w a.0 ≡ none → written w b.0 ≡ none
unfolding written
refused_alike (insert sb) (sbs, k) (sbs', k') same h =
    ground (arith, any-find sb.id sbs, any-find sb.id sbs', same sb.id)
refused_alike (update sb) a b same h = cc
refused_alike (delete i) a b same h = cc
refused_alike (touch i t) a b same h = cc
refused_alike (set_status i s) a b same h = cc

-- The write on a list, whether or not it is admitted.
stepped :
    (w : Write) (a : Keyed)
    → (written w a.0 ≡ none) ⊎ ((sbs' : List SandboxRecord) × (written w a.0 ≡ some sbs'))
    → Option Contents
stepped w (sbs, k) (inl e) = none
stepped w (sbs, k) (inr (sbs', e)) = some (of_records sbs' (written-IsKeyed w sbs k e))

stepped-same :
    (w : Write) (a b : Keyed)
    (c : (written w a.0 ≡ none) ⊎ ((sbs' : List SandboxRecord) × (written w a.0 ≡ some sbs')))
    (d : (written w b.0 ≡ none) ⊎ ((sbs' : List SandboxRecord) × (written w b.0 ≡ some sbs')))
    → SameRecords a b
    → stepped w a c ≡ stepped w b d
unfolding stepped
stepped-same w a b (inl e) (inl f) same = refl
stepped-same w a b (inl e) (inr (ys, f)) same = cc (refused_alike w a b same e)
stepped-same w a b (inr (xs, e)) (inl f) same = cc (refused_alike w b a (λ id. sym (same id)) f)
stepped-same w a b (inr (xs, e)) (inr (ys, f)) same = ap some (
    Quot.sound (λ id.
      find-written w a.0 id e ∙ ap (entry_after w id) (same id) ∙ sym (find-written w b.0 id f)))

-- A write of the program on the contents of its table; `none` where the key is taken.
pub applied : Write → Contents → Option Contents
unfolding stepped
applied w =
    Quot.lift (hlevel Quot-set) (λ a. stepped w a (Option-cases (written w a.0)))
      (λ a b same.
        stepped-same w a b (Option-cases (written w a.0)) (Option-cases (written w b.0)) same)

pub applied_refused :
    (w : Write) (sbs : List SandboxRecord) (k : IsKeyed sbs)
    → written w sbs ≡ none
    → applied w (of_records sbs k) ≡ none
unfolding applied stepped
applied_refused w sbs k e =
    stepped-same w (sbs, k) (sbs, k) (Option-cases (written w sbs)) (inl e) (λ id. refl)

pub applied-written :
    (w : Write) (sbs : List SandboxRecord) (k : IsKeyed sbs) {sbs' : List SandboxRecord}
    (k' : IsKeyed sbs')
    → written w sbs ≡ some sbs'
    → applied w (of_records sbs k) ≡ some (of_records sbs' k')
unfolding applied stepped
applied-written w sbs k {sbs'} k' e =
    stepped-same w (sbs, k) (sbs, k) (Option-cases (written w sbs)) (inr (sbs', e)) (λ id. refl)
    ∙ ap some (Quot.sound (λ id. refl))

-- An admitted write acts on the record of each id.
pub lookup-applied :
    (w : Write) (id : Text) (c : Contents) {d : Contents}
    → applied w c ≡ some d
    → lookup id d ≡ entry_after w id (lookup id c)
unfolding lookup
lookup-applied w id c {d} =
    Quot.ind {β = λ c. applied w c ≡ some d → lookup id d ≡ entry_after w id (lookup id c)}
      (λ _. hlevel Option-set)
      (λ a h. elim (Option-cases (written w a.0)) [
        | inl e ↦ cc (applied_refused w a.0 a.1 e)
        | inr (sbs', e) ↦
            let same : of_records sbs' (written-IsKeyed w a.0 a.1 e) ≡ d =
              ground (arith, applied-written w a.0 a.1 (written-IsKeyed w a.0 a.1 e) e, h) in
            rw (← same) (find-written w a.0 id e)
      ])
      c
