-- ===== src/Clients/ClientFile/Kept.antt =====
-- What a file that is kept can be (client-file.ts).
use amc_system.Base.{
  ℕ, zero, suc, ◌-◌, ◌≤◌, ◌≡◌, refl, sym, subst, ◌∙◌, Bool, true, false, not, none, some, List, [],
  ◌∷◌, length, take, is_some, leb, length-append, arith, inl, inr, Bool-cases, Option-cases,
  if◌then◌else◌,
}
use amc_system.Base.Int.{pos, ltb_ℤ}
use amc_system.Base.Text.{Text, is_empty}
use amc_system.Kernel.Result.{Result}
use amc_system.Kernel.Aggregate.{run_all}
use amc_system.Clients.ClientFile.{
  ClientFile, ClientFileState, ReceiveParams, no_name, no_content, is_program, is_refused,
  extension_of_name, printable, tail_of, cut, clean_file_name, refuse_file, received_as, receive,
  remove, eq_folder, move_to, Command, removes, moves, execute,
}

length-take_most : {A : Type 0} (n : ℕ) (xs : List A) → length (take n xs) ≤ n
length-take_most n [] = omega arith
length-take_most zero (x ∷ xs) = omega arith
length-take_most (suc n) (x ∷ xs) = let rest = length-take_most n xs in omega arith

length-tail_of : (extension : Text) → length (tail_of extension) ≤ 11
length-tail_of [] = omega arith
length-tail_of (c ∷ cs) = let most = length-take_most 10 (c ∷ cs) in omega arith

length-cut : (name tail : Text) → length tail ≤ 11 → length (cut name tail) ≤ 200
length-cut name tail h =
    let most = length-take_most (200 - length tail) name in
    let whole = length-append (take (200 - length tail) name) tail in omega arith

length-clean_file_name :
    (lower : Text → Text) (raw : Text) → length (clean_file_name lower raw) ≤ 200
unfolding clean_file_name
length-clean_file_name lower raw = elim (Bool-cases (leb (length (printable raw)) 200)) [
  | inl fits ↦ let within : length (printable raw) ≤ 200 = ground arith in rw fits within
  | inr long ↦ rw long (
      length-cut (printable raw) (tail_of (extension_of_name lower (printable raw)))
        (length-tail_of (extension_of_name lower (printable raw))))
]

-- Not empty, with a name of one to two hundred code units that is not a program's.
abbrev pub IsKept : (Text → Text) → ClientFileState → Type 0
IsKept lower s =
    (is_empty s.original_name ≡ false)
    × (length s.original_name ≤ 200)
    × (ltb_ℤ (pos 0) s.size_bytes ≡ true)
    × (is_refused (extension_of_name lower s.original_name) ≡ false)

execute-IsKept :
    (lower : Text → Text) (c : Command) (a : ClientFile)
    → IsKept lower a.state
    → IsKept lower (execute c a).1.state
unfolding execute remove move_to
execute-IsKept lower (removes by now) a h = elim (Bool-cases (is_some a.state.removed_at)) [
  | inl gone ↦ rw gone h
  | inr there ↦ rw there h
]
execute-IsKept lower (moves folder_id now) a h = elim (Bool-cases (is_some a.state.removed_at)) [
  | inl gone ↦ rw gone h
  | inr there ↦ elim (Bool-cases (eq_folder a.state.folder_id folder_id)) [
    | inl same ↦ rw (there, same) h
    | inr other ↦ rw (there, other) h
  ]
]

run_all-IsKept :
    (lower : Text → Text) (cs : List Command) (a : ClientFile)
    → IsKept lower a.state
    → IsKept lower (run_all execute cs a).state
unfolding run_all
run_all-IsKept lower [] a h = h
run_all-IsKept lower (c ∷ cs) a h =
    run_all-IsKept lower cs (execute c a).1 (execute-IsKept lower c a h)

not_refused :
    (nameless something program : Bool)
    → (if nameless
        then some no_name
        else if not something
        then some no_content
        else if program
        then some is_program
        else none)
      ≡ none
    → (nameless ≡ false) × (something ≡ true) × (program ≡ false)
not_refused true something program h = absurd (cc)
not_refused false false program h = absurd (cc)
not_refused false true true h = absurd (cc)
not_refused false true false h = (refl, refl, refl)

received_as-IsKept :
    (lower : Text → Text) (p : ReceiveParams)
    → refuse_file lower p.name p.size_bytes ≡ none
    → IsKept lower (received_as p (clean_file_name lower p.name)).state
unfolding refuse_file
received_as-IsKept lower p h =
    let (named, something, harmless) =
      not_refused (is_empty (clean_file_name lower p.name)) (ltb_ℤ (pos 0) p.size_bytes)
        (is_refused (extension_of_name lower (clean_file_name lower p.name))) h in
    (named, length-clean_file_name lower p.name, something, harmless)

-- A file that is taken into a client's folder has, whatever is done with it afterwards, something in it, a
-- name of at least one and at most two hundred code units, and no extension of a program; whatever the name
-- was that it came with and however letters are lowered.
pub received_file-IsKept :
    (lower : Text → Text) (p : ReceiveParams) (file : ClientFile) (cs : List Command)
    → receive lower p ≡ Result.ok file
    → IsKept lower (run_all execute cs file).state
unfolding receive
received_file-IsKept lower p file cs h =
    elim (Option-cases (refuse_file lower p.name p.size_bytes)) [
      | inr (refusal, r) ↦
          let refused : Result.err refusal ≡ Result.ok file = sym (rw (r, receive) refl) ∙ h in
          absurd (cc)
      | inl kept ↦
          let made : Result.ok (received_as p (clean_file_name lower p.name)) ≡ Result.ok file =
            sym (rw (kept, receive) refl) ∙ h in
          let same : received_as p (clean_file_name lower p.name) ≡ file = cc in
          run_all-IsKept lower cs file
            (subst (λ f. IsKept lower f.state) same (received_as-IsKept lower p kept))
    ]
