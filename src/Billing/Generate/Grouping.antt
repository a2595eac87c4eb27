-- ===== src/Billing/Generate/Grouping.antt =====
-- `groupBy` of generate-statement.ts: what the groups and their lines hold of the work.
use amc_system.Base.{
  ◌+◌, ◌≡◌, refl, ap, ap₂, sym, ◌∙◌, List, [], ◌∷◌, ◌++◌, push, arith, if◌then◌else◌, Bool-cases,
  inl, inr, ℕ,
}
use amc_system.Base.Int.{ℤ, pos, ◌+ℤ◌, int_laws}
use amc_system.Base.Text.{Text, eq_text}
use amc_system.Kernel.Throws as Throws
use amc_system.Kernel.Throws.{Throws-cases}
use amc_system.Kernel.Aggregate.{Outcome, Outcome-cases, ok, err, threw}
use amc_system.Kernel.Money.{Currency}
use amc_system.Kernel.Duration.{Duration, of_seconds}
use amc_system.Billing.Statement.State.{StatementLine}
use amc_system.Billing.Store.{BillableWork}
use amc_system.Billing.Store.Attaching.{named_on}
use amc_system.Billing.Generate.{
  Key, eq_key, key_of, Groups, put, group_from, group_by, RateReader, GenerateConflict, seconds_of,
  entries_of, group_line, one_more, lines_from, pricing_of, line_of,
}

-- What a figure of each item comes to over work, and over groups.
abbrev pub sum_over : (BillableWork → ℤ) → List BillableWork → ℤ
sum_over f [] = pos 0
sum_over f (w ∷ work) = f w +ℤ sum_over f work

abbrev pub sum_groups : (BillableWork → ℤ) → Groups → ℤ
sum_groups f [] = pos 0
sum_groups f ((_, group) ∷ groups) = sum_over f group +ℤ sum_groups f groups

sum_over-push :
    (f : BillableWork → ℤ) (work : List BillableWork) (w : BillableWork)
    → sum_over f (push work w) ≡ sum_over f work +ℤ f w
sum_over-push f [] w = omega int_laws
sum_over-push f (v ∷ work) w = rw (sum_over-push f work w) (omega int_laws)

sum_groups-put :
    (f : BillableWork → ℤ) (key : Key) (w : BillableWork) (groups : Groups)
    → sum_groups f (put key w groups) ≡ sum_groups f groups +ℤ f w
unfolding put
sum_groups-put f key w [] = omega int_laws
sum_groups-put f key w ((k, group) ∷ groups) = elim (Bool-cases (eq_key k key)) [
  | inl same ↦ rw (same, sum_over-push f group w) (omega int_laws)
  | inr other ↦ rw (other, sum_groups-put f key w groups) (omega int_laws)
]

sum_groups-group_from :
    (f : BillableWork → ℤ) (groups : Groups) (work : List BillableWork)
    → sum_groups f (group_from groups work) ≡ sum_groups f groups +ℤ sum_over f work
unfolding group_from
sum_groups-group_from f groups [] = omega int_laws
sum_groups-group_from f groups (w ∷ work) =
    rw
      (sum_groups-group_from f (put (key_of w) w groups) work, sum_groups-put f (key_of w) w groups)
      (omega int_laws)

-- How often an entry is named.
abbrev pub occurrences : Text → List Text → ℤ
occurrences x [] = pos 0
occurrences x (e ∷ es) = (if eq_text e x then pos 1 else pos 0) +ℤ occurrences x es

occurrences-append :
    (x : Text) (es fs : List Text) → occurrences x (es ++ fs) ≡ occurrences x es +ℤ occurrences x fs
occurrences-append x [] fs = omega int_laws
occurrences-append x (e ∷ es) fs = rw (occurrences-append x es fs) (omega int_laws)

abbrev pub named : Text → BillableWork → ℤ
named x w = if eq_text w.entry_id x then pos 1 else pos 0

occurrences-entries_of :
    (x : Text) (work : List BillableWork)
    → occurrences x (entries_of work) ≡ sum_over (named x) work
occurrences-entries_of x [] = refl
occurrences-entries_of x (w ∷ work) = ap (λ n. named x w +ℤ n) (occurrences-entries_of x work)

seconds_of-sum_over : (work : List BillableWork) → seconds_of work ≡ sum_over (λ w. w.seconds) work
seconds_of-sum_over [] = refl
seconds_of-sum_over (w ∷ work) = ap (λ n. w.seconds +ℤ n) (seconds_of-sum_over work)

-- What the lines say of the work.
abbrev pub seconds_on : List StatementLine → ℤ
seconds_on [] = pos 0
seconds_on (line ∷ lines) = line.worked.seconds +ℤ seconds_on lines

of_seconds-done : (n : ℤ) {d : Duration} → of_seconds n ≡ Throws.done d → d.seconds ≡ n
unfolding of_seconds
of_seconds-done n h = ground arith

-- A line has the entries of its group, and their time.
group_line-ok :
    (rates : RateReader) (client_id : Text) (c : Currency) (id : Text) (first : BillableWork)
    (group : List BillableWork) {line : StatementLine}
    → group_line rates client_id c id first group ≡ ok line
    → (line.entry_ids ≡ entries_of group) × (line.worked.seconds ≡ seconds_of group)
unfolding group_line
group_line-ok rates client_id c id first group {line} h =
    elim (Throws-cases (of_seconds (seconds_of group))) [
      | inr (e, thrown) ↦ absurd (ground arith)
      | inl (d, long) ↦ elim (Outcome-cases (pricing_of rates client_id c first)) [
        | inr (inl (e, refused)) ↦ absurd (ground arith)
        | inr (inr (e, thrown)) ↦ absurd (ground arith)
        | inl (pricing, priced) ↦
            let made : line_of id first d (entries_of group) pricing ≡ line = ground arith in
            (
              ap (λ l. l.entry_ids) (sym made),
              ap (λ l. l.worked.seconds) (sym made) ∙ of_seconds-done (seconds_of group) long,
            )
      ]
    ]

one_more-ok :
    (r : Outcome GenerateConflict StatementLine)
    (rest : Outcome GenerateConflict (List StatementLine)) {all : List StatementLine}
    → one_more r rest ≡ ok all
    → (line : StatementLine) × (lines : List StatementLine) × (r ≡ ok line)
      × (rest ≡ ok lines)
      × (all ≡ line ∷ lines)
one_more-ok (ok line) (ok lines) h = (line, lines, refl, refl, cc)
one_more-ok (ok line) (err e) h = cc
one_more-ok (ok line) (threw e) h = cc
one_more-ok (err e) rest h = cc
one_more-ok (threw e) rest h = cc

-- The lines of a round hold what the groups held.
pub Holds : Groups → List StatementLine → Type 0
Holds groups lines =
    (seconds_on lines ≡ sum_groups (λ w. w.seconds) groups)
    × ((x : Text) → occurrences x (named_on lines) ≡ sum_groups (named x) groups)

lines_from-Holds :
    (rates : RateReader) (client_id : Text) (c : Currency) (ids : ℕ → Text) (n : ℕ)
    (groups : Groups) {lines : List StatementLine}
    → lines_from rates client_id c ids n groups ≡ ok lines
    → Holds groups lines
unfolding lines_from Holds
lines_from-Holds rates client_id c ids n [] {lines} h =
    let none_left : lines ≡ [] = cc in rw none_left (refl, λ x. refl)
lines_from-Holds rates client_id c ids n ((k, []) ∷ groups) {lines} h =
    let (worked, entries) = lines_from-Holds rates client_id c ids n groups h in
    (worked ∙ omega int_laws, λ x. entries x ∙ omega int_laws)
lines_from-Holds rates client_id c ids n ((k, first ∷ group) ∷ groups) {lines} h =
    let (line, rest, here, there, e) = one_more-ok _ _ h in
    let (own, time) = group_line-ok rates client_id c (ids n) first (first ∷ group) here in
    let (worked, entries) = lines_from-Holds rates client_id c ids (n + 1) groups there in
    rw e (
      rw (time, worked, seconds_of-sum_over (first ∷ group)) refl,
      λ x.
          occurrences-append x line.entry_ids (named_on rest)
          ∙ ap₂ (λ a b. a +ℤ b) (ap (occurrences x) own ∙ occurrences-entries_of x (first ∷ group))
              (entries x),
    )

-- The lines that a generation makes hold the work, hour by hour: together they have its time, and
-- each entry stands on them exactly as often as in the work.
pub generated_lines_conserve :
    (rates : RateReader) (client_id : Text) (c : Currency) (ids : ℕ → Text)
    (work : List BillableWork) {lines : List StatementLine}
    → lines_from rates client_id c ids 0 (group_by work) ≡ ok lines
    → (seconds_on lines ≡ seconds_of work)
      × ((x : Text) → occurrences x (named_on lines) ≡ occurrences x (entries_of work))
unfolding Holds
generated_lines_conserve rates client_id c ids work h =
    let (worked, entries) = lines_from-Holds rates client_id c ids 0 (group_by work) h in
    (
      worked
          ∙ sum_groups-group_from (λ w. w.seconds) [] work
          ∙ rw (seconds_of-sum_over work) (omega int_laws),
      λ x.
          entries x
          ∙ sum_groups-group_from (named x) [] work
          ∙ rw (occurrences-entries_of x work) (omega int_laws),
    )
