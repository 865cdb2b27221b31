-- ===== src/DeviceAuth/Fields.antt =====
-- `strings.Fields` and `strings.Cut`, as documented, and texts made of words.
use vertify_license_platform.Prelude.{
  ◌≡◌, refl, sym, ap, ◌∙◌, Bool, true, false, not, Option, none, some, List, [], ◌∷◌, ◌++◌,
  is_empty, ◌==◌, all_of, Text, is_space, if◌then◌else◌, arith,
}

-- no white space in it
abbrev pub is_word : Text → Bool
is_word = all_of (λ c. not (is_space c))

-- a word that is not empty, before others
abbrev before : Text → List Text → List Text
before [] ws = ws
before (c ∷ w) ws = (c ∷ w) ∷ ws

-- the runes before the first white space, and the fields after it
unfoldable pub split_fields : Text → Text × List Text
unfolding is_space
split_fields [] = ([], [])
split_fields (c ∷ s) =
    let (w, ws) = split_fields s in if is_space c then ([], before w ws) else (c ∷ w, ws)

-- `strings.Fields`
unfoldable pub fields : Text → List Text
unfolding split_fields
fields s = let (w, ws) = split_fields s in before w ws

-- `strings.Cut(s, "=")`
unfoldable pub cut : Text → Option (Text × Text)
cut [] = none
cut (c ∷ s) =
    let rest = cut s in
    if c == b'=' then some ([], s) else elim rest [ none ↦ none | some (k, v) ↦ some (c ∷ k, v) ]

-- words with a space between any two
abbrev pub join : List Text → Text
join [] = []
join (w ∷ []) = w
join (w ∷ (v ∷ ws)) = w ++ b' ' ∷ join (v ∷ ws)

abbrev pub AreWords : List Text → Type 0
AreWords [] = Unit
AreWords (w ∷ ws) = (is_word w ≡ true) × (is_empty w ≡ false) × AreWords ws

split-word :
    (w s : Text)
    → is_word w ≡ true
    → split_fields (w ++ s) ≡ (w ++ (split_fields s).0, (split_fields s).1)
unfolding split_fields
split-word [] s h = refl
split-word (c ∷ w) s h =
    let first : is_space c ≡ false = ground (arith, h) in
    let rest : is_word w ≡ true = ground (arith, h) in ground (arith, first, split-word w s rest)

before-some : (w : Text) (ws : List Text) → is_empty w ≡ false → before w ws ≡ w ∷ ws
before-some [] ws h = ground (arith, h)
before-some (c ∷ w) ws h = refl

pub append_nil : (s : Text) → s ++ [] ≡ s
append_nil [] = refl
append_nil (c ∷ s) = ap (λ t. c ∷ t) (append_nil s)

-- The fields of joined words are the words.
pub fields-join : (ws : List Text) → AreWords ws → fields (join ws) ≡ ws
unfolding fields split_fields
fields-join [] h = refl
fields-join (w ∷ []) (word, some_rune, _) =
    let all : split_fields w ≡ (w ++ [], []) =
      ap split_fields (sym (append_nil w)) ∙ split-word w [] word in
    ap (λ p. before p.0 p.1) all ∙ ap (λ u. before u []) (append_nil w) ∙ before-some w [] some_rune
fields-join (w ∷ (v ∷ ws)) (word, some_rune, rest) =
    let here : split_fields (w ++ b' ' ∷ join (v ∷ ws)) ≡ (w ++ [], fields (join (v ∷ ws))) =
      split-word w (b' ' ∷ join (v ∷ ws)) word in
    ap (λ p. before p.0 p.1) here
    ∙ ap (λ u. before u (fields (join (v ∷ ws)))) (append_nil w)
    ∙ before-some w (fields (join (v ∷ ws))) some_rune
    ∙ ap (λ u. w ∷ u) (fields-join (v ∷ ws) rest)
