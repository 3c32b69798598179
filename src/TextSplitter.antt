-- ===== src/TextSplitter.antt =====
-- crates/z8run-core/src/nodes/text_splitter.rs: `split_by_fixed` and `validate`.
pub mod Fixed
use z8run.Base.{
  take, drop, ℕ, zero, suc, ◌+◌, ◌-◌, String, Bool, Option, none, some, List, [], ◌∷◌, ◌++◌, length,
  ltb, leb, ◌==◌, if◌then◌else◌,
}
use z8run.Error.{internal, Z8Result, ok, err}

pub record TextSplitterNode : Type 0 where
  pub name : String
  pub strategy : String
  pub chunk_size : ℕ
  pub overlap : ℕ
  pub separator : Option String

unfoldable pub validate : TextSplitterNode → Z8Result (Unit {0})
validate node =
    if node.chunk_size == 0
    then err (internal "Text splitter requires chunkSize > 0")
    else (if leb node.chunk_size node.overlap
        then err (internal "Text splitter overlap must be less than chunkSize")
        else ok tt)

-- `(text, start_pos, end_pos)`; a text is its bytes.
pub record Chunk : Type 0 where
  pub text : List ℕ
  pub start : ℕ
  pub end_pos : ℕ

-- `&bytes[start..end]`
unfoldable pub slice : (start end_pos : ℕ) → List ℕ → List ℕ
unfolding drop take
slice start end_pos bytes = take (end_pos - start) (drop start bytes)

-- `std::cmp::min(start + chunk_size, bytes.len())`
abbrev pub chunk_end : (chunk_size start len : ℕ) → ℕ
chunk_end chunk_size start len = if leb (start + chunk_size) len then start + chunk_size else len

abbrev pub prepend : List Chunk → Option (List Chunk) → Option (List Chunk)
prepend cs none = none
prepend cs (some ds) = some (cs ++ ds)

-- `is_utf8` is whether `std::str::from_utf8` accepts the bytes.
module _ (is_utf8 : List ℕ → Bool) (bytes : List ℕ) where
  -- The chunk that is pushed, if its bytes are a text.
  abbrev pub piece : (start end_pos : ℕ) → List Chunk
  piece start end_pos =
      if is_utf8 (slice start end_pos bytes)
      then record { text = slice start end_pos bytes; start = start; end_pos = end_pos } ∷ []
      else []

  module _ (chunk_size overlap : ℕ) where
    -- `while start < bytes.len()`; `none` is fuel that ran out.
    unfoldable pub fixed_from : (fuel start : ℕ) → Option (List Chunk)
    fixed_from zero start = none
    fixed_from (suc fuel) start =
        let end_pos = chunk_end chunk_size start (length bytes) in
        let rest = fixed_from fuel (end_pos - overlap) in
        if ltb start (length bytes)
        then (if leb (length bytes) end_pos
            then some (piece start end_pos)
            else prepend (piece start end_pos) rest)
        else some []

    unfoldable pub split_by_fixed : Option (List Chunk)
    split_by_fixed = fixed_from (suc (length bytes)) 0
