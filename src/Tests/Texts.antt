-- ===== src/Tests/Texts.antt =====
-- Splitting of small texts.
use z8run.Base.{
  take, drop, ℕ, ◌≡◌, refl, Bool, true, none, some, List, [], ◌∷◌, All, ltb, ◌==◌, ◌||◌, ◌&&◌,
}
use z8run.TextSplitter.{TextSplitterNode, validate, Chunk, slice, fixed_from, split_by_fixed}
use z8run.TextSplitter.Fixed.{IsChunk, split_by_fixed_total}

abbrev splitter : TextSplitterNode
splitter = record { name = "s"; strategy = "fixed"; chunk_size = 2; overlap = 1; separator = none }

abbrev any_text : List ℕ → Bool
any_text s = true

abbrev letters : List ℕ
letters = 97 ∷ 98 ∷ 99 ∷ []

abbrev pairs : List Chunk
pairs =
    record { text = 97 ∷ 98 ∷ []; start = 0; end_pos = 2 }
    ∷ record { text = 98 ∷ 99 ∷ []; start = 1; end_pos = 3 }
    ∷ []

splits : Unit {0}
unfolding split_by_fixed fixed_from slice drop take validate
splits = tt

letters_split : split_by_fixed any_text letters 2 1 ≡ some pairs
unfolding splits
letters_split = refl

-- Accepts bytes below 128, and the two bytes of "é".
abbrev small_utf8 : List ℕ → Bool
small_utf8 [] = true
small_utf8 (b ∷ []) = ltb b 128
small_utf8 (b ∷ c ∷ s) = (ltb b 128 && ltb c 128) || (b == 0xc3 && c == 0xa9)

-- "aé" in chunks of two bytes: both chunks cut the second character, so the whole text is lost.
accented_lost : split_by_fixed small_utf8 (97 ∷ 0xc3 ∷ 0xa9 ∷ []) 2 0 ≡ some []
unfolding splits
accented_lost = refl

split_by_fixed_total_example :
    (cs : List Chunk) × (split_by_fixed any_text letters 2 1 ≡ some cs)
    × All (IsChunk any_text letters 2 1) cs
unfolding splits
split_by_fixed_total_example = split_by_fixed_total any_text letters splitter refl
