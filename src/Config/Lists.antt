-- ===== src/Config/Lists.antt =====
-- What the lists of internal/config/config.go hold.
use Prim.Native.Char.{Char, code}
use acb_go.Prelude.{
  String, ◌≡◌, ◌≢◌, refl, Bool, true, false, List, [], ◌∷◌, ◌==◌, eq_iff, eqb, arith, All,
  Bool-cases, ap, ◌∙◌, inl, inr,
}
use acb_go.Config.Load.{
  get_env, is_space, trim_left, before, trim_right, trim_space, onto, split_commas, clean_parts,
  get_env_list,
}

-- No comma in a text.
abbrev pub NoComma : String → Type 0
NoComma String.[] = Unit
NoComma (String.◌∷◌ c s) = (eqb (code c) b',' ≡ false) × NoComma s

-- What the loop keeps of a part: no comma, no blank at an end, and something.
pub record IsClean (s : String) : Type 0 where
  pub no_comma : NoComma s
  pub trimmed : trim_space s ≡ s
  pub not_empty : s ≢ ""

NoComma-onto :
    (c : Char) (l : List String)
    → eqb (code c) b',' ≡ false
    → All NoComma l
    → All NoComma (onto c l)
NoComma-onto c [] h a = ((h, tt), tt)
NoComma-onto c (p ∷ ps) h a = ((h, a.0), a.1)

NoComma-split : (s : String) → All NoComma (split_commas s)
unfolding split_commas
NoComma-split String.[] = (tt, tt)
NoComma-split (String.◌∷◌ c s) = elim (Bool-cases (eqb (code c) b',')) [
  | inl e ↦ rw e (tt, NoComma-split s)
  | inr e ↦ rw e (NoComma-onto c (split_commas s) e (NoComma-split s))
]

NoComma-trim_left : (s : String) → NoComma s → NoComma (trim_left s)
unfolding trim_left
NoComma-trim_left String.[] h = tt
NoComma-trim_left (String.◌∷◌ c s) h = elim (Bool-cases (is_space c)) [
  | inl e ↦ rw e (NoComma-trim_left s h.1)
  | inr e ↦ rw e h
]

NoComma-before :
    (c : Char) (s : String) → eqb (code c) b',' ≡ false → NoComma s → NoComma (before c s)
NoComma-before c String.[] h a = elim (Bool-cases (is_space c)) [
  | inl e ↦ rw e tt
  | inr e ↦ rw e (h, tt)
]
NoComma-before c (String.◌∷◌ d s) h a = (h, a)

NoComma-trim_right : (s : String) → NoComma s → NoComma (trim_right s)
unfolding trim_right
NoComma-trim_right String.[] h = tt
NoComma-trim_right (String.◌∷◌ c s) h =
    NoComma-before c (trim_right s) h.0 (NoComma-trim_right s h.1)

tail : String → String
tail String.[] = ""
tail (String.◌∷◌ c s) = s

is_nil : String → Bool
is_nil String.[] = true
is_nil (String.◌∷◌ c s) = false

before_idem : (c : Char) (s : String) → trim_right s ≡ s → trim_right (before c s) ≡ before c s
unfolding trim_right
before_idem c String.[] h = elim (Bool-cases (is_space c)) [
  | inl e ↦ rw e refl
  | inr e ↦ rw (e, e) refl
]
before_idem c (String.◌∷◌ d s) h = ap (before c) h

trim_right_idem : (s : String) → trim_right (trim_right s) ≡ trim_right s
unfolding trim_right
trim_right_idem String.[] = refl
trim_right_idem (String.◌∷◌ c s) = before_idem c (trim_right s) (trim_right_idem s)

before_tail : (c : Char) (t s : String) → before c t ≡ String.◌∷◌ c s → t ≡ s
unfolding tail is_nil
before_tail c String.[] s h = elim (Bool-cases (is_space c)) [
  | inl e ↦ let k : String.[] ≡ String.◌∷◌ c s = cc in let b : true ≡ false = ap is_nil k in cc
  | inr e ↦ let k : String.◌∷◌ c "" ≡ String.◌∷◌ c s = ground arith in ap tail k
]
before_tail c (String.◌∷◌ d t) s h = ap tail h

-- What is trimmed at its end stays so when blanks are cut off in front.
trim_right-trim_left : (s : String) → trim_right s ≡ s → trim_right (trim_left s) ≡ trim_left s
unfolding trim_left trim_right
trim_right-trim_left String.[] h = refl
trim_right-trim_left (String.◌∷◌ c s) h = elim (Bool-cases (is_space c)) [
  | inl e ↦ rw e (trim_right-trim_left s (before_tail c (trim_right s) s h))
  | inr e ↦ rw e h
]

trim_left_idem : (s : String) → trim_left (trim_left s) ≡ trim_left s
unfolding trim_left
trim_left_idem String.[] = refl
trim_left_idem (String.◌∷◌ c s) = elim (Bool-cases (is_space c)) [
  | inl e ↦ rw e (trim_left_idem s)
  | inr e ↦ rw (e, e) refl
]

trim_space_idem : (s : String) → trim_space (trim_space s) ≡ trim_space s
unfolding trim_space
trim_space_idem s =
    ap trim_left (trim_right-trim_left (trim_right s) (trim_right_idem s))
    ∙ trim_left_idem (trim_right s)

clean_parts-IsClean : (ps : List String) → All NoComma ps → All IsClean (clean_parts ps)
unfolding clean_parts
clean_parts-IsClean [] a = tt
clean_parts-IsClean (p ∷ ps) a = elim (Bool-cases (trim_space p == "")) [
  | inl e ↦ rw e (clean_parts-IsClean ps a.1)
  | inr e ↦ rw e (
    record {
      no_comma = unfold trim_space in NoComma-trim_left (trim_right p) (NoComma-trim_right p a.0);
      trimmed = trim_space_idem p;
      not_empty = ground (arith, eq_iff (trim_space p) "");
    },
    clean_parts-IsClean ps a.1,
  )
]

-- Whatever the environment and the default hold, no entry of a list of the configuration is empty, has
-- a comma in it, or begins or ends with white space.
pub get_env_list-IsClean :
    (getenv : String → String) (key fallback : String)
    → All IsClean (get_env_list getenv key fallback)
unfolding get_env_list
get_env_list-IsClean getenv key fallback = elim (Bool-cases (get_env getenv key fallback == "")) [
  | inl e ↦ rw e tt
  | inr e ↦ rw e (
      clean_parts-IsClean (split_commas (get_env getenv key fallback))
        (NoComma-split (get_env getenv key fallback)))
]
