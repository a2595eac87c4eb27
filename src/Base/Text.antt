-- ===== src/Base/Text.antt =====
-- JavaScript's strings as lists of UTF-16 code units: `===`, `trim` and the empty string.
use mathlib.Core.List.{reverse, reverse_aux, reverse-cons, reverse-append, reverse-reverse, ◌++◌}
use Prim.Native.Char.{code}
use Prim.Native.String.{String}
use mathlib.Core.Bool.{Bool, true, false, ◌&&◌, ◌||◌}
use mathlib.Core.List.{List, [], ◌∷◌}
use mathlib.Core.Logic.{◌↔◌, ◌⊎◌, inl, inr}
use mathlib.Core.Option.{Option, none, some}
use mathlib.Core.Path.{◌≡◌, refl, subst}
use Prim.Native.Nat.{ℕ}
use native.Mathlib.Omega.{arith}
use amc_system.Base.Lists.{All}
use amc_system.Base.Tests.{Bool-cases, leb, ◌==◌, if◌then◌else◌}

abbrev pub Text : Type 0
Text = List ℕ

-- A literal of the source, which is ASCII.
abbrev pub text : String → Text
text String.[] = []
text (String.◌∷◌ c s) = code c ∷ text s

-- `a === b`
unfoldable pub eq_text : Text → Text → Bool
eq_text [] [] = true
eq_text (a ∷ s) (b ∷ t) = a == b && eq_text s t
eq_text _ _ = false

pub eq_text_refl : (s : Text) → eq_text s s ≡ true
unfolding eq_text
eq_text_refl [] = refl
eq_text_refl (a ∷ s) = ground (arith, eq_text_refl s)

pub eq_of_eq_text : (s t : Text) → eq_text s t ≡ true → s ≡ t
unfolding eq_text
eq_of_eq_text [] [] h = refl
eq_of_eq_text [] (b ∷ t) h = cc
eq_of_eq_text (a ∷ s) [] h = cc
eq_of_eq_text (a ∷ s) (b ∷ t) h = ground (arith, eq_of_eq_text s t)

pub eq_text_comm : (s t : Text) → eq_text s t ≡ eq_text t s
unfolding eq_text
eq_text_comm [] [] = refl
eq_text_comm [] (b ∷ t) = refl
eq_text_comm (a ∷ s) [] = refl
eq_text_comm (a ∷ s) (b ∷ t) = ground (arith, eq_text_comm s t)

pub eq_text_iff : (s t : Text) → (eq_text s t ≡ true) ↔ (s ≡ t)
eq_text_iff s t = (eq_of_eq_text s t, λ e. subst (λ u. eq_text s u ≡ true) e (eq_text_refl s))

-- The white space and line terminators of ECMAScript.
unfoldable pub is_space : ℕ → Bool
is_space c =
    (leb 9 c && leb c 13)
    || c == 32
    || c == 160
    || c == 5760
    || (leb 8192 c && leb c 8202)
    || c == 8232
    || c == 8233
    || c == 8239
    || c == 8287
    || c == 12288
    || c == 65279

unfoldable pub trim_start : Text → Text
unfolding is_space
trim_start [] = []
trim_start (c ∷ s) = if is_space c then trim_start s else c ∷ s

unfoldable pub trim : Text → Text
unfolding trim_start
trim s = reverse (trim_start (reverse (trim_start s)))

-- Nothing is left to trim at the start.
trim_start_twice : (s : Text) → trim_start (trim_start s) ≡ trim_start s
unfolding trim_start
trim_start_twice [] = refl
trim_start_twice (c ∷ s) = elim (Bool-cases (is_space c)) [
  | inl space ↦ rw space (trim_start_twice s)
  | inr word ↦ rw word (rw word refl)
]

trim_start-append :
    (s : Text) (c : ℕ) → is_space c ≡ false → trim_start (s ++ c ∷ []) ≡ trim_start s ++ c ∷ []
unfolding trim_start
trim_start-append [] c h = rw h refl
trim_start-append (d ∷ s) c h = elim (Bool-cases (is_space d)) [
  | inl space ↦ rw space (trim_start-append s c h)
  | inr word ↦ rw word refl
]

-- Trimming the end of what starts with a word leaves that start alone.
trim_start-end :
    (c : ℕ) (s : Text)
    → is_space c ≡ false
    → trim_start (reverse (trim_start (reverse (c ∷ s)))) ≡ reverse (trim_start (reverse (c ∷ s)))
unfolding trim_start
trim_start-end c s h =
    let e : reverse (trim_start (reverse (c ∷ s))) ≡ c ∷ reverse (trim_start (reverse s)) =
      rw (reverse-cons c s, trim_start-append (reverse s) c h)
        (reverse-append (trim_start (reverse s)) (c ∷ [])) in
    rw (e, h) refl

trim_start-cases :
    (s : Text)
    → (trim_start s ≡ [])
      ⊎ ((c : ℕ) × (rest : Text) × (trim_start s ≡ c ∷ rest) × (is_space c ≡ false))
unfolding trim_start
trim_start-cases [] = inl refl
trim_start-cases (c ∷ s) = elim (Bool-cases (is_space c)) [
  | inl space ↦ rw space (trim_start-cases s)
  | inr word ↦ rw word (inr (c, s, refl, word))
]

trim_start-trim : (s : Text) → trim_start (trim s) ≡ trim s
unfolding trim
trim_start-trim s = elim (trim_start-cases s) [
  | inl blank ↦ rw blank (unfold trim_start in refl)
  | inr (c, rest, e, word) ↦ rw e (trim_start-end c rest word)
]

-- `s.trim().trim() === s.trim()`
pub trim_twice : (s : Text) → trim (trim s) ≡ trim s
unfolding trim
trim_twice s =
    rw (trim_start-trim s, reverse-reverse, trim_start_twice (reverse (trim_start s))) refl

trim_start-words : (s : Text) → All (λ c. is_space c ≡ false) s → trim_start s ≡ s
unfolding trim_start
trim_start-words [] h = refl
trim_start-words (c ∷ s) h = rw h.0 refl

All-reverse_aux {ℓ} : (P : ℕ → Type ℓ) (s t : Text) → All P s → All P t → All P (reverse_aux s t)
All-reverse_aux P [] t h k = k
All-reverse_aux P (c ∷ s) t h k = All-reverse_aux P s (c ∷ t) h.1 (h.0, k)

-- A text without a blank is left alone.
pub trim-words : (s : Text) → All (λ c. is_space c ≡ false) s → trim s ≡ s
unfolding trim
trim-words s h =
    rw (trim_start-words s h, trim_start-words (reverse s) (All-reverse_aux _ s [] h tt))
      (reverse-reverse s)

abbrev pub is_empty : Text → Bool
is_empty [] = true
is_empty (_ ∷ _) = false

-- `s?.trim() || null`
unfoldable pub non_blank : Option Text → Option Text
non_blank none = none
non_blank (some s) = if is_empty (trim s) then none else some (trim s)
