-- ===== src/Telegram/Split.antt =====
-- `splitTelegramMessage`: a long text in messages of at most 4096 units.
use amby.Common.{
  ℕ, zero, suc, ◌*◌, ◌≤◌, ◌≡◌, refl, sym, ap, ◌∙◌, not, Option, none, some, List, [], ◌∷◌, ◌++◌,
  take, drop, length, length-drop, filter, filter-append, append-nil, ltb, leb, ◌==◌, arith,
  if◌then◌else◌, All, Bool-cases, Option-cases, inl, inr,
}
use amby.Common.Text.{Text, is_space, trim_start}

abbrev pub max_length : ℕ
max_length = 4096

-- `lastIndexOf(c, from)` of one unit: the last place, up to `from`, where it stands.
unfoldable pub last_index_of : ℕ → ℕ → Text → Option ℕ
last_index_of c from [] = none
last_index_of c zero (d ∷ t) = if d == c then some 0 else none
last_index_of c (suc from) (d ∷ t) = elim (last_index_of c from t) [
  | none ↦ if d == c then some 0 else none
  | some i ↦ some (suc i)
]

abbrev pub newline : ℕ
newline = 10

abbrev pub space : ℕ
space = 32

-- A place that was found in the second half, or else another.
abbrev pub found_or : ℕ → Option ℕ → ℕ → ℕ
found_or max none other = other
found_or max (some i) other = if ltb (2 * i) max then other else i

unfoldable pub split_index : ℕ → Text → ℕ
unfolding last_index_of
split_index max t =
    found_or max (last_index_of newline max t) (found_or max (last_index_of space max t) max)

-- The loop, on fuel.
unfoldable pub split_loop : ℕ → ℕ → Text → List Text
unfolding split_index trim_start
split_loop max fuel [] = []
split_loop max zero (c ∷ t) = []
split_loop max (suc fuel) (c ∷ t) =
    let i = split_index max (c ∷ t) in
    let rest = split_loop max fuel (trim_start (drop i (c ∷ t))) in
    if leb (length (c ∷ t)) max then (c ∷ t) ∷ [] else take i (c ∷ t) ∷ rest

unfoldable pub split_telegram_message : Text → ℕ → List Text
unfolding split_loop
split_telegram_message t max = if leb (length t) max then t ∷ [] else split_loop max (length t) t

abbrev pub concat_texts : List Text → Text
concat_texts [] = []
concat_texts (t ∷ ts) = t ++ concat_texts ts

-- A text without its white space.
abbrev pub squeeze : Text → Text
squeeze t = filter (λ c. not (is_space c)) t

last_index_of-le : (c from : ℕ) (t : Text) (i : ℕ) → last_index_of c from t ≡ some i → i ≤ from
unfolding last_index_of
last_index_of-le c from [] i h = absurd (cc h)
last_index_of-le c zero (d ∷ t) i h = ground (arith, h)
last_index_of-le c (suc from) (d ∷ t) i h = elim (Option-cases (last_index_of c from t)) [
  | inl e ↦ ground (arith, h, e)
  | inr (j, e) ↦ ground (arith, h, e, last_index_of-le c from t j e)
]

found_or-bounds :
    (max other : ℕ) (o : Option ℕ)
    → ((i : ℕ) → o ≡ some i → i ≤ max)
    → 1 ≤ max
    → (1 ≤ other) × (other ≤ max)
    → (1 ≤ found_or max o other) × (found_or max o other ≤ max)
found_or-bounds max other none h m b = b
found_or-bounds max other (some i) h m b = let le = h i refl in ground (arith, le, m, b)

split_index-bounds :
    (max : ℕ) (t : Text) → 1 ≤ max → (1 ≤ split_index max t) × (split_index max t ≤ max)
unfolding split_index
split_index-bounds max t h =
    found_or-bounds max _ (last_index_of newline max t) (last_index_of-le newline max t) h (
      found_or-bounds max max (last_index_of space max t) (last_index_of-le space max t) h
        (h, omega arith))

squeeze-trim_start : (t : Text) → squeeze (trim_start t) ≡ squeeze t
unfolding trim_start
squeeze-trim_start [] = refl
squeeze-trim_start (c ∷ t) = elim (Bool-cases (is_space c)) [
  | inl e ↦ ground (arith, e, squeeze-trim_start t)
  | inr e ↦ ground (arith, e)
]

length-trim_start-le : (t : Text) → length (trim_start t) ≤ length t
unfolding trim_start
length-trim_start-le [] = omega arith
length-trim_start-le (c ∷ t) = elim (Bool-cases (is_space c)) [
  | inl e ↦ rw (trim_start, e) (omega (arith, length-trim_start-le t))
  | inr e ↦ rw (trim_start, e) (omega arith)
]

take-drop : (n : ℕ) (t : Text) → take n t ++ drop n t ≡ t
take-drop zero t = refl
take-drop (suc n) [] = refl
take-drop (suc n) (c ∷ t) = ap (◌∷◌ c) (take-drop n t)

length-take-le : (n : ℕ) (t : Text) → length (take n t) ≤ n
length-take-le zero t = omega arith
length-take-le (suc n) [] = omega arith
length-take-le (suc n) (c ∷ t) = omega (arith, length-take-le n t)

module _ (max : ℕ) (positive : 1 ≤ max) where
  split_loop-bounds :
      (fuel : ℕ) (t : Text) → All (λ (m : Text). length m ≤ max) (split_loop max fuel t)
  unfolding split_loop
  split_loop-bounds fuel [] = tt
  split_loop-bounds zero (c ∷ t) = tt
  split_loop-bounds (suc fuel) (c ∷ t) =
      let i = split_index max (c ∷ t) in
      let rest = split_loop-bounds fuel (trim_start (drop i (c ∷ t))) in
      let (low, high) = split_index-bounds max (c ∷ t) positive in
      let bound : length (take i (c ∷ t)) ≤ max = omega (arith, high, length-take-le i (c ∷ t)) in
      elim (Bool-cases (leb (length (c ∷ t)) max)) [
        | inl e ↦ rw (split_loop, e) (ground (arith, e), tt)
        | inr e ↦ rw (split_loop, e) (bound, rest)
      ]

  squeeze-split_loop :
      (fuel : ℕ) (t : Text)
      → length t ≤ fuel
      → squeeze (concat_texts (split_loop max fuel t)) ≡ squeeze t
  unfolding split_loop
  squeeze-split_loop fuel [] h = refl
  squeeze-split_loop zero (c ∷ t) h = absurd (omega (arith, h))
  squeeze-split_loop (suc fuel) (c ∷ t) h =
      let u : Text = c ∷ t in
      let i = split_index max u in
      let (low, high) = split_index-bounds max u positive in
      let left = trim_start (drop i u) in
      let shorter : length left ≤ fuel =
        omega (arith, h, low, length-trim_start-le (drop i u), length-drop i u) in
      let rest = squeeze-split_loop fuel left shorter in
      elim (Bool-cases (leb (length u) max)) [
        | inl e ↦ rw (split_loop, e) (ap (λ (v : Text). squeeze v) (append-nil u))
        | inr e ↦
            rw (split_loop, e)
              (filter-append (λ c. not (is_space c)) (take i u)
                  (concat_texts (split_loop max fuel left))
                ∙ ap (◌++◌ (squeeze (take i u))) (rest ∙ squeeze-trim_start (drop i u))
                ∙ sym (filter-append (λ c. not (is_space c)) (take i u) (drop i u))
                ∙ ap (λ (v : Text). squeeze v) (take-drop i u))
      ]

-- For a limit of one at least: each message has at most as many units as the limit, and together
-- the messages have what the text has but for white space, in its order.
pub split_telegram_message_lem :
    (max : ℕ) (t : Text)
    → 1 ≤ max
    → All (λ (m : Text). length m ≤ max) (split_telegram_message t max)
      × (squeeze (concat_texts (split_telegram_message t max)) ≡ squeeze t)
unfolding split_telegram_message
split_telegram_message_lem max t h = elim (Bool-cases (leb (length t) max)) [
  | inl e ↦
      rw (split_telegram_message, e)
        ((ground (arith, e), tt), ap (λ (v : Text). squeeze v) (append-nil t))
  | inr e ↦
      rw (split_telegram_message, e)
        (split_loop-bounds max h (length t) t, squeeze-split_loop max h (length t) t (omega arith))
]
