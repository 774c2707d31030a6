-- ===== src/Blocks.antt =====
-- data_blocks.py: the continuous blocks of a date axis, and the episode windows inside them. What
-- numpy and the date parsers give is a parameter; a CSV is read elsewhere, into its dates.
pub mod Segments
pub mod Windows
pub mod Sample
use sharpearena.Prelude.{
  ℕ, zero, suc, ◌+◌, ◌-◌, Bool, true, false, String, Option, none, some, List, [], ◌∷◌, ◌++◌, map,
  ltb, range, length, get_elem?, if◌then◌else◌,
}
use sharpearena.Prelude.Int.{ℤ, pos, negsuc, to_ℕ}
use sharpearena.Python.Errors.{
  Result, ok, fail, raise_if, value_error, type_error, index_error, ◌>>=◌, ◌>>◌,
}
use sharpearena.Python.Runtime.{Runtime}

-- `float | int` are one number here; a `bool` is kept apart, since the code refuses it.
pub data Timestamp (F : Type 0) : Type 0 where
  flag : Bool → Timestamp F
  number : F → Timestamp F
  text : String → Timestamp F

-- The ordinal of `date.fromisoformat`, the timestamp of `datetime.fromisoformat`,
-- and `np.median`; none is a ValueError.
pub record Numerics (F : Type 0) : Type 0 where
  pub date_ordinal : String → Option F
  pub datetime_timestamp : String → Option F
  pub median : List F → F

abbrev pub Block : Type 0
Block = ℕ × ℕ

pub record Window : Type 0 where
  pub window_start : ℕ
  pub window_end : ℕ

module _ {F : Type 0} ⦃r : Runtime F⦄ ⦃np : Numerics F⦄ where
  abbrev from_datetime : Option F → Result F
  from_datetime none = fail value_error "Invalid isoformat string"
  from_datetime (some x) = ok x

  abbrev from_date : String → Option F → Result F
  from_date s none = from_datetime (np.datetime_timestamp s)
  from_date s (some x) = ok x

  abbrev from_text : String → Option F → Result F
  from_text s none = from_date s (np.date_ordinal s)
  from_text s (some x) = ok x

  -- `_to_ordinal`
  unfoldable pub to_ordinal : Timestamp F → Result F
  to_ordinal (flag b) = fail type_error "timestamps must be numbers or strings, not bool"
  to_ordinal (number x) = ok x
  to_ordinal (text t) = let s = r.strip t in from_text s (r.parse_float s)

  -- `_ordinals`
  unfoldable pub ordinals : List (Timestamp F) → Result (List F)
  ordinals [] = ok []
  ordinals (t ∷ ts) = to_ordinal t >>= λ x. ordinals ts >>= λ xs. ok (x ∷ xs)

  -- `np.diff`, and the positive differences
  unfoldable pub diffs : List F → List F
  diffs [] = []
  diffs (x ∷ []) = []
  diffs (x ∷ (y ∷ ys)) = r.minus y x ∷ diffs (y ∷ ys)

  unfoldable pub positive : List F → List F
  positive [] = []
  positive (x ∷ xs) = let rest = positive xs in if r.less r.zero x then x ∷ rest else rest

  unfoldable pub infer_cadence : List (Timestamp F) → Result F
  infer_cadence timestamps = ordinals timestamps >>= λ ords.
      raise_if (ltb (length ords) 2) value_error "need >= 2 timestamps to infer cadence"
      >> (let steps = positive (diffs ords) in
          raise_if (ltb (length steps) 1) value_error
            "timestamps are non-increasing; cannot infer cadence"
          >> ok (np.median steps))

module _ {F : Type 0} ⦃r : Runtime F⦄ where
  -- The loop of `find_continuous_blocks` from index i on, and the block that it leaves open.
  unfoldable pub blocks_loop : F → ℕ → ℕ → F → List F → List Block
  blocks_loop max_gap start i previous [] = (start, i) ∷ []
  blocks_loop max_gap start i previous (x ∷ xs) =
      let breaks = r.less max_gap (r.minus x previous) in
      let rest = blocks_loop max_gap (if breaks then i else start) (suc i) x xs in
      if breaks then (start, i) ∷ rest else rest

  unfoldable pub blocks_of : F → List F → List Block
  blocks_of max_gap [] = []
  blocks_of max_gap (x ∷ xs) = blocks_loop max_gap 0 1 x xs

module _ {F : Type 0} ⦃r : Runtime F⦄ ⦃np : Numerics F⦄ where
  unfoldable pub find_continuous_blocks : List (Timestamp F) → F → Result (List Block)
  find_continuous_blocks timestamps max_gap =
      raise_if (r.at_most max_gap r.zero) value_error "max_gap must be > 0"
      >> (ordinals timestamps >>= λ ords. ok (blocks_of max_gap ords))

-- `horizon < 1` and `warmup < 0`
abbrev pub below_one : ℤ → Bool
below_one n = ltb (to_ℕ n) 1

abbrev pub negative : ℤ → Bool
negative (pos n) = false
negative (negsuc n) = true

-- The windows of one length inside one block.
unfoldable pub windows_in : ℕ → Block → List Window
windows_in window_len (start, end) =
    if ltb (end - start) window_len
    then []
    else map (λ s. record { window_start = s; window_end = s + window_len })
        (range start (suc (end - window_len) - start))

unfoldable pub windows_loop : ℕ → List Block → List Window
windows_loop window_len [] = []
windows_loop window_len (block ∷ blocks) =
    windows_in window_len block ++ windows_loop window_len blocks

unfoldable pub block_windows : List Block → ℤ → ℤ → Result (List Window)
block_windows blocks horizon warmup =
    raise_if (below_one horizon) value_error "horizon must be >= 1"
    >> raise_if (negative warmup) value_error "warmup must be >= 0"
    >> ok (windows_loop (to_ℕ horizon + to_ℕ warmup + 1) blocks)

abbrev pub indexed : {A : Type 0} → Option A → Result A
indexed none = fail index_error "list index out of range"
indexed (some a) = ok a

unfoldable pub choose : (ℕ → ℕ) → List Window → Result Window
choose integers [] = fail value_error "no block holds an episode window"
choose integers (w ∷ ws) = indexed (get_elem? (w ∷ ws) (integers (length (w ∷ ws))))

-- `integers seed n` is `default_rng(SeedSequence(seed)).integers(n)`.
unfoldable pub sample_block_window : (ℤ → ℕ → ℕ) → List Block → ℤ → ℤ → ℤ → Result Window
sample_block_window integers blocks horizon warmup seed =
    block_windows blocks horizon warmup >>= λ windows. choose (integers seed) windows

module _ {F : Type 0} ⦃r : Runtime F⦄ ⦃np : Numerics F⦄ where
  abbrev pub gap_of : List (Timestamp F) → Option F → F → Result F
  gap_of dates none tolerance = infer_cadence dates >>= λ cadence. ok (r.times cadence tolerance)
  gap_of dates (some gap) tolerance = ok gap

  -- The window that `make_block_env` hands to the environment.
  unfoldable pub env_window :
      (ℤ → ℕ → ℕ) → List (Timestamp F) → ℤ → ℤ → ℤ → Option F → F → Result Window
  env_window integers dates horizon warmup seed max_gap tolerance =
      gap_of dates max_gap tolerance >>= λ gap. find_continuous_blocks dates gap >>= λ blocks.
      sample_block_window integers blocks horizon warmup seed
