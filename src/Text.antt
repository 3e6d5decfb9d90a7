-- ===== src/Text.antt =====
-- strings.TrimSpace, which internal/service, internal/vm and internal/config call.
use Prim.Native.Char.{code}
use sandbox_manager.Prelude.{
  ℕ, ◌≡◌, inl, inr, refl, ap, ◌∙◌, String, Bool, false, ◌&&◌, ◌||◌, str_eq, leb, ◌==◌,
  if◌then◌else◌, Bool-cases,
}

-- unicode.IsSpace
unfoldable pub is_white : ℕ → Bool
is_white c =
    (leb 9 c && leb c 13)
    || c == 32
    || c == 0x85
    || c == 0xa0
    || c == 0x1680
    || (leb 0x2000 c && leb c 0x200a)
    || c == 0x2028
    || c == 0x2029
    || c == 0x202f
    || c == 0x205f
    || c == 0x3000

unfoldable pub trim_left : String → String
unfolding is_white
trim_left String.[] = ""
trim_left (String.◌∷◌ c s) = if is_white (code c) then trim_left s else String.◌∷◌ c s

unfoldable pub trim_right : String → String
unfolding is_white
trim_right String.[] = ""
trim_right (String.◌∷◌ c s) =
    let rest = trim_right s in if is_white (code c) && str_eq rest "" then "" else String.◌∷◌ c rest

-- strings.TrimSpace
unfoldable pub trim : String → String
unfolding trim_left trim_right
trim s = trim_right (trim_left s)

-- Empty, or with a first character that is no white space.
abbrev StartsDark : String → Type 0
StartsDark String.[] = Unit {0}
StartsDark (String.◌∷◌ c s) = is_white (code c) ≡ false

trim_left-StartsDark : (s : String) → StartsDark (trim_left s)
unfolding trim_left
trim_left-StartsDark String.[] = tt
trim_left-StartsDark (String.◌∷◌ c s) = elim (Bool-cases (is_white (code c))) [
  | inl white ↦ rw white (trim_left-StartsDark s)
  | inr dark ↦ rw dark dark
]

trim_left-idle : (s : String) → StartsDark s → trim_left s ≡ s
unfolding trim_left
trim_left-idle String.[] d = refl
trim_left-idle (String.◌∷◌ c s) d = rw d refl

trim_right-StartsDark : (s : String) → StartsDark s → StartsDark (trim_right s)
unfolding trim_right
trim_right-StartsDark String.[] d = tt
trim_right-StartsDark (String.◌∷◌ c s) d = rw d d

trim_right-trim_right : (s : String) → trim_right (trim_right s) ≡ trim_right s
unfolding trim_right
trim_right-trim_right String.[] = refl
trim_right-trim_right (String.◌∷◌ c s) =
    elim (Bool-cases (is_white (code c) && str_eq (trim_right s) "")) [
      | inl blank ↦ rw blank refl
      | inr dark ↦ rw dark (rw (trim_right-trim_right s) (rw dark refl))
    ]

-- A text that was trimmed has nothing left to trim.
pub trim-trim : (s : String) → trim (trim s) ≡ trim s
unfolding trim
trim-trim s =
    ap trim_right (
      trim_left-idle (trim_right (trim_left s))
        (trim_right-StartsDark (trim_left s) (trim_left-StartsDark s)))
    ∙ trim_right-trim_right (trim_left s)
