-- ===== src/Billing/Release/Freeing.antt =====
-- What a release leaves in the store (release-from-statement.ts over adapters.ts).
use amc_system.Base.{
  ◌≡◌, refl, ap, ap₂, sym, subst, ◌∙◌, Bool, true, false, ◌||◌, none, some, List, [], ◌∷◌, ◌++◌,
  map, any, flat_map, All, All-always, All-both, All-map_of, length, ltb, ◌==◌, arith, Bool-cases,
  Option-cases, inl, inr,
}
use amc_system.Base.Text.{Text, text, trim, trim_twice}
use amc_system.Kernel.Caller.{CallerLike, may}
use amc_system.Kernel.Aggregate.{ok, err}
use amc_system.Kernel.Duration.{Instant}
use amc_system.Billing.Statement.State.{Standing, StatementLine}
use amc_system.Billing.Statement.{Statement, entry_ids, cancel, is_invoiced}
use amc_system.Billing.Store.Reading.{some_injective, find_by_id-id, find_by_id-save, save-rest}
use amc_system.Billing.Store.{
  Row, Store, find_by_id, IsKeyed, read_back, read_line, entries_on, is_held_by, is_named, freed,
  release, save,
}
use amc_system.Billing.Store.Attaching.{any-append, rows_named}
use amc_system.Billing.Release.{no_hours, execute}

-- A line of the statement has the row's hours.
abbrev pub is_on : List StatementLine → Row → Bool
is_on lines row = any (λ line. is_held_by line.id row.statement_line_id) lines

-- The entries that the statement has, as it is read.
abbrev entries_read : List Row → List StatementLine → List Text
entries_read rows lines = flat_map (λ line. line.entry_ids) (map (read_line rows) lines)

-- A row that a line has is named by the entries of that line.
held-named :
    (line_id : Text) (rows : List Row)
    → All
        (λ row.
          is_held_by line_id row.statement_line_id ≡ true
          → is_named (entries_on line_id rows) row ≡ true)
        rows
held-named line_id rows =
    rows_named (λ row. is_held_by line_id row.statement_line_id) rows (entries_on line_id rows)
      (λ x h. h)

named-append :
    (es fs : List Text) (row : Row) → is_named (es ++ fs) row ≡ is_named es row || is_named fs row
named-append es fs row = any-append row.work.entry_id es fs

-- A row that the statement has is named by the entries of the statement.
on-named :
    (rows : List Row) (lines : List StatementLine)
    → All (λ row. is_on lines row ≡ true → is_named (entries_read rows lines) row ≡ true) rows
on-named rows [] = All-always _ (λ row h. h) rows
on-named rows (line ∷ lines) =
    All-both
      (λ row first rest h.
        rw (named-append (entries_on line.id rows) (entries_read rows lines) row) (ground arith))
      rows (held-named line.id rows) (on-named rows lines)

-- A row that is free is on no line.
on-free :
    (lines : List StatementLine) (row : Row)
    → is_on lines (record row { statement_line_id = none }) ≡ false
on-free [] row = refl
on-free (line ∷ lines) row = on-free lines row

on-freed :
    (lines : List StatementLine) (ids : List Text) (row : Row)
    → (is_on lines row ≡ true → is_named ids row ≡ true)
    → is_on lines (freed ids row) ≡ false
on-freed lines ids row h = elim (Bool-cases (is_named ids row)) [
  | inl named ↦ rw named (on-free lines row)
  | inr other ↦ rw other (ground arith)
]

All-map_freed :
    (lines : List StatementLine) (ids : List Text) (rows : List Row)
    → All (λ row. is_on lines row ≡ true → is_named ids row ≡ true) rows
    → All (λ row. is_on lines row ≡ false) (release ids rows)
All-map_freed lines ids [] h = tt
All-map_freed lines ids (row ∷ rows) h =
    (on-freed lines ids row h.0, All-map_freed lines ids rows h.1)

entries_on-none :
    (line_id : Text) (rows : List Row)
    → All (λ row. is_held_by line_id row.statement_line_id ≡ false) rows
    → entries_on line_id rows ≡ []
entries_on-none line_id [] h = refl
entries_on-none line_id (row ∷ rows) h = rw h.0 (entries_on-none line_id rows h.1)

-- A statement that no row is on is read without entries.
entries_read-none :
    (rows : List Row) (lines : List StatementLine)
    → All (λ row. is_on lines row ≡ false) rows
    → entries_read rows lines ≡ []
entries_read-none rows [] h = refl
entries_read-none rows (line ∷ lines) h =
    let here : All (λ row. is_held_by line.id row.statement_line_id ≡ false) rows =
      All-map_of _ _ (λ row k. ground arith) rows h in
    let later : All (λ row. is_on lines row ≡ false) rows =
      All-map_of _ _ (λ row k. ground arith) rows h in
    rw (entries_on-none line.id rows here) (entries_read-none rows lines later)

on-read :
    (rows : List Row) (lines : List StatementLine) (row : Row)
    → is_on (map (read_line rows) lines) row ≡ is_on lines row
on-read rows [] row = refl
on-read rows (line ∷ lines) row =
    ap (λ b. is_held_by line.id row.statement_line_id || b) (on-read rows lines row)

cancel-returns :
    (reason : Text) (now : Instant) (a : Statement)
    → is_invoiced a.state.state ≡ false
    → ltb (length (trim reason)) 3 ≡ false
    → ((cancel reason now a).0 ≡ ok tt)
      × ((cancel reason now a).1.state ≡ record a.state { state = Standing.cancelled })
unfolding cancel
cancel-returns reason now a standing said = rw (standing, said) (refl, refl)

-- The store that a release leaves, by the statement that it cancelled.
abbrev left_by : Statement → List Text → Store → Store
left_by a ids store = save a (record store { rows = release ids store.rows })

execute-releases :
    (caller : CallerLike) (id reason : Text) (now : Instant) (store : Store) {a : Statement}
    → may caller (text "billing.entries.unlink") ≡ true
    → ltb (length (trim reason)) 3 ≡ false
    → find_by_id id store ≡ some a
    → is_invoiced a.state.state ≡ false
    → length (entry_ids a.state) == 0 ≡ false
    → execute caller id reason now store ≡ (
      ok (length (entry_ids a.state)),
      left_by (cancel (trim reason) now a).1 (entry_ids a.state) store,
    )
unfolding execute
execute-releases caller id reason now store {a} allowed said found standing hours =
    let said' : ltb (length (trim (trim reason))) 3 ≡ false = rw (trim_twice reason) said in
    let (cancelled, _) = cancel-returns (trim reason) now a standing said' in
    rw (allowed, said, found, standing, hours, cancelled) refl

-- A statement without hours has none to release.
execute-nothing :
    (caller : CallerLike) (id reason : Text) (now : Instant) (store : Store) {a : Statement}
    → may caller (text "billing.entries.unlink") ≡ true
    → ltb (length (trim reason)) 3 ≡ false
    → find_by_id id store ≡ some a
    → is_invoiced a.state.state ≡ false
    → entry_ids a.state ≡ []
    → execute caller id reason now store ≡ (err no_hours, store)
unfolding execute
execute-nothing caller id reason now store allowed said found standing none_on =
    rw (allowed, said, found, standing, none_on) refl

release-works :
    (ids : List Text) (rows : List Row)
    → map (λ row. row.work) (release ids rows) ≡ map (λ row. row.work) rows
release-works ids [] = refl
release-works ids (row ∷ rows) = ap₂ (λ w ws. w ∷ ws) same (release-works ids rows)
  where
    same : (freed ids row).work ≡ row.work
    same = ground arith

-- The rows of a statement that is read are on no line of it, once its entries are released.
released-free :
    (id : Text) (store : Store) {a : Statement}
    → find_by_id id store ≡ some a
    → All (λ row. is_on a.state.lines row ≡ false) (release (entry_ids a.state) store.rows)
unfolding find_by_id entry_ids
released-free id store {a} found = elim (Option-cases (store.statements id)) [
  | inl missing ↦ absurd (ground arith)
  | inr (b, held) ↦
      let read : read_back store.rows b ≡ a = some_injective (sym (rw held refl) ∙ found) in
      let lines = map (read_line store.rows) b.state.lines in
      let free : All (λ row. is_on lines row ≡ false)
          (release (entries_read store.rows b.state.lines) store.rows) =
        All-map_freed lines _ store.rows (
          All-map_of _ _ (λ row h k. h (sym (on-read store.rows b.state.lines row) ∙ k)) store.rows
            (on-named store.rows b.state.lines)) in
      subst
        (λ x. All (λ row. is_on x.state.lines row ≡ false) (release (entry_ids x.state) store.rows))
        read free
]

entry_ids-read_back :
    (rows : List Row) (c : Statement)
    → All (λ row. is_on c.state.lines row ≡ false) rows
    → entry_ids (read_back rows c).state ≡ []
unfolding entry_ids
entry_ids-read_back rows c h = entries_read-none rows c.state.lines h

-- Hours come off a statement that was not invoiced. Where the caller has the permission, the reason has
-- three characters or more, and the statement is there, was not invoiced and has hours, the release
-- ends well with the number of its entries. No entry is then on a line of it, what is known of the work
-- is unchanged, and the statement is cancelled and has no entries. To ask again is refused, as there
-- are no hours, and changes nothing. (Statements are stored under their own ids.)
pub release_frees :
    (caller : CallerLike) (id reason : Text) (now : Instant) (store : Store) {a : Statement}
    → IsKeyed store
    → may caller (text "billing.entries.unlink") ≡ true
    → ltb (length (trim reason)) 3 ≡ false
    → find_by_id id store ≡ some a
    → is_invoiced a.state.state ≡ false
    → length (entry_ids a.state) == 0 ≡ false
    → let (r, store') = execute caller id reason now store in
      (r ≡ ok (length (entry_ids a.state)))
      × All (λ row. is_on a.state.lines row ≡ false) store'.rows
      × (map (λ row. row.work) store'.rows ≡ map (λ row. row.work) store.rows)
      × ((b : Statement) × (find_by_id id store' ≡ some b)
          × (b.state.state ≡ Standing.cancelled)
          × (entry_ids b.state ≡ []))
      × (execute caller id reason now store' ≡ (err no_hours, store'))
release_frees caller id reason now store {a} keyed allowed said found standing hours =
    let said' : ltb (length (trim (trim reason))) 3 ≡ false = rw (trim_twice reason) said in
    let (_, cancelled) = cancel-returns (trim reason) now a standing said' in
    let ids = entry_ids a.state in
    let c = (cancel (trim reason) now a).1 in
    let store₁ = record store { rows = release ids store.rows } in
    let store₂ = save c store₁ in
    let is : execute caller id reason now store ≡ (ok (length ids), store₂) =
      execute-releases caller id reason now store allowed said found standing hours in
    let (_, _, rows) = save-rest c store₁ in
    let free = released-free id store found in
    let id_kept : c.state.id ≡ id = ap (λ s. s.id) cancelled ∙ find_by_id-id id store keyed found in
    let read : find_by_id id store₂ ≡ some (read_back (release ids store.rows) c) =
      find_by_id-save id c store₁ id_kept in
    let b = read_back (release ids store.rows) c in
    let is_cancelled : b.state.state ≡ Standing.cancelled = ap (λ s. s.state) cancelled in
    let bare : entry_ids b.state ≡ [] = entry_ids-read_back (release ids store.rows) c (
      subst (λ lines. All (λ row. is_on lines row ≡ false) (release ids store.rows))
        (sym (ap (λ s. s.lines) cancelled)) free) in
    subst
      (λ x.
        let (r, store') = x in
        (r ≡ ok (length ids))
        × All (λ row. is_on a.state.lines row ≡ false) store'.rows
        × (map (λ row. row.work) store'.rows ≡ map (λ row. row.work) store.rows)
        × ((y : Statement) × (find_by_id id store' ≡ some y)
            × (y.state.state ≡ Standing.cancelled)
            × (entry_ids y.state ≡ []))
        × (execute caller id reason now store' ≡ (err no_hours, store')))
      (sym is)
      (
        refl,
        subst (λ rs. All (λ row. is_on a.state.lines row ≡ false) rs) (sym rows) free,
        ap (λ rs. map (λ row. row.work) rs) rows ∙ release-works ids store.rows,
        (b, read, is_cancelled, bare),
        execute-nothing caller id reason now store₂ allowed said read (rw is_cancelled refl) bare,
      )
