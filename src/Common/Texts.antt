-- ===== src/Common/Texts.antt =====
-- Texts as lists of UTF-16 code units, the way a JavaScript string is indexed.
use Prim.Native.Char.{code}
use Prim.Native.Nat.{ℕ, ◌+◌}
use Prim.Native.String.{String}
use mathlib.Core.Path.{◌≡◌, refl, ap, subst}
use mathlib.Core.Logic.{◌↔◌, inl, inr}
use mathlib.Core.Bool.{Bool, true, false, ◌&&◌, ◌||◌, not}
use mathlib.Core.List.{List, [], ◌∷◌, ◌++◌, map, append_assoc}
use native.Mathlib.Omega.{arith}
use apigateaway.Common.Tests.{◌==◌, ◌≤?◌, if◌then◌else◌, Bool-cases, ==_refl}
use apigateaway.Common.Lists.{length, drop}

abbrev pub Text : Type 0
Text = List ℕ

-- A literal of the source; every literal used is ASCII, one code unit to a character.
abbrev pub lit : String → Text
lit String.[] = []
lit (String.◌∷◌ c s) = code c ∷ lit s

-- `===` on strings
abbrev pub text_eq : Text → Text → Bool
text_eq [] [] = true
text_eq [] (d ∷ t) = false
text_eq (c ∷ s) [] = false
text_eq (c ∷ s) (d ∷ t) = (c == d) && text_eq s t

pub eq_of_text_eq : (s t : Text) → text_eq s t ≡ true → s ≡ t
eq_of_text_eq [] [] h = refl
eq_of_text_eq [] (d ∷ t) h = cc
eq_of_text_eq (c ∷ s) [] h = cc
eq_of_text_eq (c ∷ s) (d ∷ t) h = ground (arith, eq_of_text_eq s t)

pub text_eq_refl : (s : Text) → text_eq s s ≡ true
text_eq_refl [] = refl
text_eq_refl (c ∷ s) = ground (arith, text_eq_refl s)

pub text_eq_iff : (s t : Text) → (text_eq s t ≡ true) ↔ (s ≡ t)
text_eq_iff s t = (eq_of_text_eq s t, λ e. rw e (text_eq_refl t))

-- `s.startsWith(p)`
abbrev pub starts_with : Text → Text → Bool
starts_with s [] = true
starts_with [] (d ∷ p) = false
starts_with (c ∷ s) (d ∷ p) = (c == d) && starts_with s p

-- `s.endsWith(p)`: `p` is what is left of `s` after some of its units
abbrev pub ends_with : Text → Text → Bool
ends_with [] p = text_eq [] p
ends_with (c ∷ s) p = text_eq (c ∷ s) p || ends_with s p

pub starts_with-append : (p s : Text) → starts_with (p ++ s) p ≡ true
starts_with-append [] s = refl
starts_with-append (d ∷ p) s = ground (arith, starts_with-append p s)

-- A text that starts with `p` is `p` and what `slice(p.length)` leaves.
pub append-drop_of_starts_with : (s p : Text) → starts_with s p ≡ true → s ≡ p ++ drop (length p) s
append-drop_of_starts_with s [] h = refl
append-drop_of_starts_with [] (d ∷ p) h = cc
append-drop_of_starts_with (c ∷ s) (d ∷ p) h = ground (arith, append-drop_of_starts_with s p)

pub ends_with-append : (s p : Text) → ends_with (s ++ p) p ≡ true
ends_with-append [] [] = refl
ends_with-append [] (d ∷ p) = ground (arith, text_eq_refl (d ∷ p))
ends_with-append (c ∷ s) p = ground (arith, ends_with-append s p)

pub eq-append_of_ends_with : (s p : Text) → ends_with s p ≡ true → (t : Text) × (s ≡ t ++ p)
eq-append_of_ends_with [] p h = ([], eq_of_text_eq [] p h)
eq-append_of_ends_with (c ∷ s) p h = elim (Bool-cases (text_eq (c ∷ s) p)) [
  | inl e ↦ ([], eq_of_text_eq (c ∷ s) p e)
  | inr e ↦ let (t, q) = eq-append_of_ends_with s p (ground arith) in (c ∷ t, ap (◌∷◌ c) q)
]

-- `toLowerCase` on the code units below 256, which are all that Node puts into a header or a URL:
-- A–Z, and À–Þ but for ×.
abbrev pub lower_unit : ℕ → ℕ
lower_unit c =
    if (65 ≤? c) && (c ≤? 90) || (192 ≤? c) && (c ≤? 222) && not (c == 215) then c + 32 else c

abbrev pub to_lower : Text → Text
to_lower = map lower_unit

-- `texts.join(separator)`
abbrev pub join : Text → List Text → Text
join separator [] = []
join separator (t ∷ []) = t
join separator (t ∷ u ∷ ts) = t ++ (separator ++ join separator (u ∷ ts))

-- `texts.includes(t)`
abbrev pub includes : List Text → Text → Bool
includes [] t = false
includes (u ∷ us) t = text_eq u t || includes us t

-- `text.split(c)`, for a separator of one unit: the first piece, and the others.
abbrev pub split_head : ℕ → Text → Text
split_head c [] = []
split_head c (d ∷ s) = if d == c then [] else d ∷ split_head c s

abbrev pub split_tail : ℕ → Text → List Text
split_tail c [] = []
split_tail c (d ∷ s) = if d == c then split_head c s ∷ split_tail c s else split_tail c s

abbrev pub split : ℕ → Text → List Text
split c s = split_head c s ∷ split_tail c s

pub ends_with-append_append : (a b p : Text) → ends_with (a ++ (b ++ p)) p ≡ true
ends_with-append_append a b p =
    subst (λ t. ends_with t p ≡ true) (append_assoc a b p) (ends_with-append (a ++ b) p)

-- `text.trim()`, on the code units below 256
abbrev pub is_space : ℕ → Bool
is_space c = (9 ≤? c) && (c ≤? 13) || c == 32 || c == 160

abbrev pub trim_start : Text → Text
trim_start [] = []
trim_start (c ∷ s) = if is_space c then trim_start s else c ∷ s

abbrev pub trim_end : Text → Text
trim_end [] = []
trim_end (c ∷ s) = elim (trim_end s) [ [] ↦ if is_space c then [] else c ∷ [] | d ∷ r ↦ c ∷ d ∷ r ]

abbrev pub trim : Text → Text
trim s = trim_end (trim_start s)

-- The separator does not stand in the text.
abbrev pub IsFree : ℕ → Text → Type 0
IsFree c [] = Unit
IsFree c (d ∷ s) = ((d == c) ≡ false) × IsFree c s

pub split_free : (c : ℕ) (s : Text) → IsFree c s → split c s ≡ s ∷ []
split_free c [] h = refl
split_free c (d ∷ s) (e, h) =
    let ih = split_free c s h in rw e (ap (λ (p : List Text). head_cons d p) ih)
  where
    head_cons : ℕ → List Text → List Text
    head_cons x [] = []
    head_cons x (t ∷ ts) = (x ∷ t) ∷ ts

pub split-append : (c : ℕ) (s t : Text) → IsFree c s → split c (s ++ c ∷ t) ≡ s ∷ split c t
split-append c [] t h = rw (==_refl c)
split-append c (d ∷ s) t (e, h) =
    let ih = split-append c s t h in rw e (ap (λ (p : List Text). head_cons d p) ih)
  where
    head_cons : ℕ → List Text → List Text
    head_cons x [] = []
    head_cons x (u ∷ us) = (x ∷ u) ∷ us
