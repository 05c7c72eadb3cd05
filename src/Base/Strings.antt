-- ===== src/Base/Strings.antt =====
-- Python's `str` as the list of its code points, with the methods that the code calls.
use Prim.Native.Nat.{ℕ, ◌+◌, ◌-◌, ◌≤◌}
use Prim.Native.Char.{code}
use Prim.Native.String.{String}
use mathlib.Core.Path.{◌≡◌, refl, sym, ap, ◌∙◌}
use mathlib.Core.Logic.{inl, inr}
use mathlib.Core.Bool.{Bool, true, false, ◌&&◌, ◌||◌}
use mathlib.Core.Option.{Option, none, some}
use mathlib.Core.List.{List, [], ◌∷◌, ◌++◌, map, reverse, reverse-append, reverse-reverse}
use native.Mathlib.Omega.{arith}
use devnest.Base.Tests.{leb, ◌==◌, if◌then◌else◌, Bool-cases}
use devnest.Base.Lists.{length, take, length-take, length-append}

abbrev pub Text : Type 0
Text = List ℕ

abbrev pub text : String → Text
text String.[] = []
text (String.◌∷◌ c s) = code c ∷ text s

-- `str.isspace` on one character.
unfoldable pub is_space : ℕ → Bool
is_space c =
    (leb 9 c && leb c 13)
    || (leb 28 c && leb c 32)
    || c == 133
    || c == 160
    || c == 5760
    || (leb 8192 c && leb c 8202)
    || c == 8232
    || c == 8233
    || c == 8239
    || c == 8287
    || c == 12288

drop_spaces : Text → Text
drop_spaces [] = []
drop_spaces (c ∷ s) = if is_space c then drop_spaces s else c ∷ s

-- `str.strip()`
unfoldable pub strip : Text → Text
unfolding drop_spaces is_space
strip s = reverse (drop_spaces (reverse (drop_spaces s)))

-- `_truncate`: the slice `t[: max_len - 3]` is taken where `max_len` is at least 3.
unfoldable pub truncate : Option Text → ℕ → Option Text
truncate none max_len = none
truncate (some s) max_len =
    let t = strip s in
    some (if leb (length t) max_len then t else take (max_len - 3) t ++ text "...")

-- `(s or "").strip()`
abbrev pub stripped : Option Text → Text
stripped none = []
stripped (some s) = strip s

-- The truth value of a text.
abbrev pub is_empty : Text → Bool
is_empty [] = true
is_empty (c ∷ s) = false

-- Python's `a or b` on optional texts.
abbrev pub or_else : Option Text → Option Text → Option Text
or_else none b = b
or_else (some []) b = b
or_else (some (c ∷ s)) b = some (c ∷ s)

-- `s.strip() or None`
abbrev pub nonempty : Text → Option Text
nonempty [] = none
nonempty (c ∷ s) = some (c ∷ s)

unfoldable pub text_eq : Text → Text → Bool
text_eq [] [] = true
text_eq [] (d ∷ t) = false
text_eq (c ∷ s) [] = false
text_eq (c ∷ s) (d ∷ t) = c == d && text_eq s t

pub text_eq→eq : (s t : Text) → text_eq s t ≡ true → s ≡ t
unfolding text_eq
text_eq→eq [] [] h = refl
text_eq→eq [] (d ∷ t) h = cc
text_eq→eq (c ∷ s) [] h = cc
text_eq→eq (c ∷ s) (d ∷ t) h = ground (arith, text_eq→eq s t)

pub text_eq_refl : (s : Text) → text_eq s s ≡ true
unfolding text_eq
text_eq_refl [] = refl
text_eq_refl (c ∷ s) = ground (arith, text_eq_refl s)

-- `s.startswith(p)`
unfoldable pub starts_with : Text → Text → Bool
starts_with [] s = true
starts_with (c ∷ p) [] = false
starts_with (c ∷ p) (d ∷ s) = c == d && starts_with p s

-- `p in s`
unfoldable pub contains : Text → Text → Bool
unfolding starts_with
contains p [] = starts_with p []
contains p (d ∷ s) = starts_with p (d ∷ s) || contains p s

-- `s.lower()` on the ASCII letters.
unfoldable pub lower : Text → Text
lower = map (λ c. if leb b'A' c && leb c b'Z' then c + 32 else c)

-- `sep.join(parts)`
unfoldable pub join : Text → List Text → Text
join sep [] = []
join sep (s ∷ []) = s
join sep (s ∷ t ∷ r) = s ++ (sep ++ join sep (t ∷ r))

abbrev pub FitsIn : ℕ → Option Text → Type 0
FitsIn n none = Unit
FitsIn n (some s) = length s ≤ n

-- A truncated text is no longer than the limit, which is at least the length of the dots.
pub truncate_bounded : (s : Option Text) (n : ℕ) → 3 ≤ n → FitsIn n (truncate s n)
unfolding truncate
truncate_bounded none n h = tt
truncate_bounded (some s) n h =
    ground
      (arith, length-take (n - 3) (strip s), length-append (take (n - 3) (strip s)) (text "..."))

-- What ends in a character stays to its end when the front is stripped.
drop_spaces-front :
    (xs : Text) (c : ℕ) (ys : Text)
    → is_space c ≡ false
    → (zs : Text) × (drop_spaces (xs ++ c ∷ ys) ≡ zs ++ c ∷ ys)
unfolding drop_spaces
drop_spaces-front [] c ys h = ([], rw h)
drop_spaces-front (x ∷ xs) c ys h = elim (Bool-cases (is_space x)) [
  | inl e ↦ rw e (drop_spaces-front xs c ys h)
  | inr e ↦ rw e (x ∷ xs, refl)
]

-- A text that begins with `c ∷ q`, neither end of which is a space, keeps this when it is stripped.
pub strip-front :
    (c : ℕ) (q : Text) (d : ℕ) (r e : Text)
    → is_space c ≡ false
    → is_space d ≡ false
    → reverse (c ∷ q) ≡ d ∷ r
    → (e' : Text) × (strip ((c ∷ q) ++ e) ≡ (c ∷ q) ++ e')
unfolding strip drop_spaces
strip-front c q d r e hc hd h =
    let (zs, p) = drop_spaces-front (reverse e) d r hd in
    (
      reverse zs,
      rw hc (
          ap (λ s. reverse (drop_spaces s)) (reverse-append (c ∷ q) e ∙ ap (λ s. reverse e ++ s) h)
          ∙ ap reverse p
          ∙ reverse-append zs (d ∷ r)
          ∙ ap (λ s. s ++ reverse zs) (ap reverse (sym h) ∙ reverse-reverse (c ∷ q))),
    )
