-- ===== src/Strings/Suffixes.antt =====
-- Suffixes and the last part of a text after a colon.
use Prim.Native.Char.{Char, code}
use Prim.Native.String.{String, ◌++◌ as ◌<>◌}
use text.Mathlib.Text.{◌==◌ as str_eq}
use text.Mathlib.TextEquality.{eq_iff}
use text.Mathlib.TextLemmas.{nil-append, cons-append}
use recs.Prelude.{
  ◌≡◌, ◌≢◌, refl, sym, ap, ◌∙◌, Bool, true, false, Bool-cases, inl, inr, List, [], ◌∷◌, arith, ◌==◌,
  if◌then◌else◌,
}
use recs.Strings.{has_suffix, trim_suffix, push, split_colon, last_part}

abbrev pub has_colon : String → Bool
has_colon String.[] = false
has_colon (String.◌∷◌ c s) = if code c == b':' then true else has_colon s

-- a prefix that ends in a colon
abbrev pub after_colon : String → String → String
after_colon u t = u <> (String.◌∷◌ ":" t)

has_colon-after_colon : (u t : String) → has_colon (after_colon u t) ≡ true
has_colon-after_colon String.[] t = rw nil-append refl
has_colon-after_colon (String.◌∷◌ c u) t =
    rw cons-append (ground (arith, has_colon-after_colon u t))

after_colon-ne : (u t s : String) → has_colon s ≡ false → str_eq (after_colon u t) s ≡ false
after_colon-ne u t s h = elim (Bool-cases (str_eq (after_colon u t) s)) [
  | inl e ↦ cc (ap has_colon ((eq_iff (after_colon u t) s).0 e), has_colon-after_colon u t)
  | inr n ↦ n
]

pub has_suffix-after_colon :
    (u t s : String) → has_colon s ≡ false → has_suffix (after_colon u t) s ≡ has_suffix t s
unfolding has_suffix
has_suffix-after_colon String.[] t s h =
    ground (arith, nil-append (String.◌∷◌ ":" t), after_colon-ne String.[] t s h)
has_suffix-after_colon (String.◌∷◌ c u) t s h = ground (
  arith,
  cons-append c u (String.◌∷◌ ":" t),
  after_colon-ne (String.◌∷◌ c u) t s h,
  has_suffix-after_colon u t s h,
)

pub trim_suffix-after_colon :
    (u t s : String)
    → has_colon s ≡ false
    → trim_suffix (after_colon u t) s ≡ after_colon u (trim_suffix t s)
unfolding trim_suffix
trim_suffix-after_colon String.[] t s h = ground (
  arith,
  nil-append (String.◌∷◌ ":" t),
  nil-append (String.◌∷◌ ":" (trim_suffix t s)),
  after_colon-ne String.[] t s h,
)
trim_suffix-after_colon (String.◌∷◌ c u) t s h = ground (
  arith,
  cons-append c u (String.◌∷◌ ":" t),
  cons-append c u (String.◌∷◌ ":" (trim_suffix t s)),
  after_colon-ne (String.◌∷◌ c u) t s h,
  trim_suffix-after_colon u t s h,
)

-- A text is what is left of it and the suffix, if it has that.
pub trim_suffix-has_suffix :
    (t s : String) → t ≡ trim_suffix t s <> (if has_suffix t s then s else String.[])
unfolding trim_suffix has_suffix
trim_suffix-has_suffix String.[] s = elim (Bool-cases (str_eq String.[] s)) [
  | inl e ↦ rw e ((eq_iff String.[] s).0 e ∙ sym (nil-append s))
  | inr n ↦ rw n refl
]
trim_suffix-has_suffix (String.◌∷◌ c t) s = elim (Bool-cases (str_eq (String.◌∷◌ c t) s)) [
  | inl e ↦ rw e ((eq_iff (String.◌∷◌ c t) s).0 e ∙ sym (nil-append s))
  | inr n ↦ rw n (
      ap (String.◌∷◌ c) (trim_suffix-has_suffix t s)
      ∙ sym (cons-append c (trim_suffix t s) (if has_suffix t s then s else String.[])))
]

pub has_colon-trim_suffix :
    (t s : String) → has_colon t ≡ false → has_colon (trim_suffix t s) ≡ false
unfolding trim_suffix
has_colon-trim_suffix String.[] s h = refl
has_colon-trim_suffix (String.◌∷◌ c t) s h = elim (Bool-cases (str_eq (String.◌∷◌ c t) s)) [
  | inl e ↦ rw e refl
  | inr n ↦ rw n (ground (arith, has_colon-trim_suffix t s))
]

split_colon-one : (t : String) → has_colon t ≡ false → split_colon t ≡ t ∷ []
unfolding split_colon
split_colon-one String.[] h = refl
split_colon-one (String.◌∷◌ c t) h =
    ground (arith, split_colon-one t, cons-append c String.[] t, nil-append t)

push-ne-nil : (c : String) (parts : List String) → push c parts ≢ []
push-ne-nil c [] e = cc e
push-ne-nil c (part ∷ parts) e = cc e

split_colon-ne-nil : (t : String) → split_colon t ≢ []
unfolding split_colon
split_colon-ne-nil String.[] = λ e. cc e
split_colon-ne-nil (String.◌∷◌ c t) = elim (Bool-cases (code c == b':')) [
  | inl colon ↦ rw colon (λ e. cc e)
  | inr other ↦ rw other (push-ne-nil (String.◌∷◌ c String.[]) (split_colon t))
]

last_part-more :
    (part : String) (more : List String) → more ≢ [] → last_part (part ∷ more) ≡ last_part more
last_part-more part [] n = absurd (n refl)
last_part-more part (next ∷ more) n = refl

split_colon-more :
    (u t : String)
    → (part : String) × (more : List String) × (split_colon (after_colon u t) ≡ part ∷ more)
      × (more ≢ [])
      × (last_part more ≡ last_part (split_colon t))
unfolding split_colon
split_colon-more String.[] t = (
  String.[],
  split_colon t,
  ground (arith, nil-append (String.◌∷◌ ":" t)),
  split_colon-ne-nil t,
  refl,
)
split_colon-more (String.◌∷◌ c u) t =
    let (part, more, e, n, l) = split_colon-more u t in
    elim (Bool-cases (code c == b':')) [
      | inl colon ↦ (
        String.[],
        part ∷ more,
        rw (cons-append c u (String.◌∷◌ ":" t), colon, e) refl,
        λ x. cc x,
        last_part-more part more n ∙ l,
      )
      | inr other ↦ (
        String.◌∷◌ c String.[] <> part,
        more,
        rw (cons-append c u (String.◌∷◌ ":" t), other, e) refl,
        n,
        l,
      )
    ]

pub last_part-after_colon :
    (u t : String) → has_colon t ≡ false → last_part (split_colon (after_colon u t)) ≡ t
last_part-after_colon u t h =
    let (part, more, e, n, l) = split_colon-more u t in
    ap last_part e ∙ last_part-more part more n ∙ l ∙ ap last_part (split_colon-one t h)

-- the last character, or the given one
abbrev pub last_char : Char → String → Char
last_char d String.[] = d
last_char d (String.◌∷◌ c s) = last_char c s

pub last_char-append :
    (d c : Char) (u t : String) → last_char d (u <> (String.◌∷◌ c t)) ≡ last_char c t
last_char-append d c String.[] t = rw nil-append refl
last_char-append d c (String.◌∷◌ a u) t = rw cons-append (last_char-append a c u t)

pub has_suffix-append : (u s : String) → has_suffix (u <> s) s ≡ true
unfolding has_suffix
has_suffix-append String.[] String.[] = refl
has_suffix-append String.[] (String.◌∷◌ c s) =
    ground (arith, nil-append (String.◌∷◌ c s), (eq_iff (String.◌∷◌ c s) (String.◌∷◌ c s)).1 refl)
has_suffix-append (String.◌∷◌ c u) s = ground (arith, cons-append c u s, has_suffix-append u s)

-- a text with a suffix ends as it does
pub has_suffix-last_char :
    (d c : Char) (t s : String)
    → has_suffix t (String.◌∷◌ c s) ≡ true
    → last_char d t ≡ last_char c s
unfolding has_suffix
has_suffix-last_char d c String.[] s h = cc ((eq_iff String.[] (String.◌∷◌ c s)).0 h)
has_suffix-last_char d c (String.◌∷◌ a t) s h =
    elim (Bool-cases (str_eq (String.◌∷◌ a t) (String.◌∷◌ c s))) [
      | inl e ↦ ap (last_char d) ((eq_iff (String.◌∷◌ a t) (String.◌∷◌ c s)).0 e)
      | inr n ↦ has_suffix-last_char a c t s (rw n at h)
    ]
