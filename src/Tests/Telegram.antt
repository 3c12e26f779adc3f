-- ===== src/Tests/Telegram.antt =====
-- The Telegram channel at concrete inputs.
use amby.Common.{◌≤◌, ◌≡◌, refl, [], ◌∷◌, All, length, arith}
use amby.Common.Text.{Text, lit, is_space, trim_start}
use amby.Telegram.Split
use amby.Telegram.Split.{
  split_telegram_message, split_loop, split_index, last_index_of, squeeze, concat_texts,
}

abbrev line : Text
line = lit "one two three"

split_telegram_message_example :
    All (λ (m : Text). length m ≤ 8) (split_telegram_message line 8)
    × (squeeze (concat_texts (split_telegram_message line 8)) ≡ squeeze line)
split_telegram_message_example = Split.split_telegram_message_lem 8 line (omega arith)

in_two : split_telegram_message line 8 ≡ lit "one two" ∷ lit "three" ∷ []
unfolding split_telegram_message split_loop split_index last_index_of trim_start is_space
in_two = refl
