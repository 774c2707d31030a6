-- ===== src/Seeds.antt =====
-- The named seeds of eval_seeds.py: the band of _seed_bands.py, the guard on it, and the seeds that a
-- salt derives. Rollouts and scores are made elsewhere.
pub mod Band
pub mod Regression
use sharpearena.Prelude.{
  ℕ, zero, suc, ◌+◌, String, Bool, true, false, not, ◌&&◌, Option, none, some, List, [], ◌∷◌, map,
  any, all, length, ltb, ◌==◌, str_eq, if◌then◌else◌,
}
use sharpearena.Prelude.Dict.{Dict}
use sharpearena.Python.Errors.{Result, ok, fail, raise_if, value_error, runtime_error, ◌>>=◌, ◌>>◌}

-- `EVAL_SEED_BASE`
abbrev pub eval_seed_base : ℕ
eval_seed_base = 1_000_000

abbrev pub eval_seeds : Dict ℕ
eval_seeds =
    ("held_out_00", eval_seed_base + 0)
    ∷ ("held_out_01", eval_seed_base + 7)
    ∷ ("held_out_02", eval_seed_base + 13)
    ∷ ("held_out_03", eval_seed_base + 29)
    ∷ ("held_out_04", eval_seed_base + 101)
    ∷ ("held_out_05", eval_seed_base + 257)
    ∷ ("held_out_06", eval_seed_base + 1024)
    ∷ ("held_out_07", eval_seed_base + 4099)
    ∷ []

-- `len(set(xs)) == len(xs)`, of seeds and of names
unfoldable pub distinct : List ℕ → Bool
distinct [] = true
distinct (n ∷ ns) = not (any (λ m. n == m) ns) && distinct ns

unfoldable pub distinct_names : List String → Bool
distinct_names [] = true
distinct_names (s ∷ ss) = not (any (λ t. str_eq s t) ss) && distinct_names ss

abbrev pub names_of : {A : Type 0} → Dict A → List String
names_of d = map (λ e. e.0) d

abbrev pub seeds_of : Dict ℕ → List ℕ
seeds_of d = map (λ e. e.1) d

-- Some seed is below the base.
abbrev pub leaves_band : Dict ℕ → Bool
leaves_band d = any (λ e. ltb e.1 eval_seed_base) d

-- `_require_held_out_band`
unfoldable pub require_held_out_band : Dict ℕ → Result (Unit {0})
require_held_out_band seeds =
    raise_if (leaves_band seeds) value_error "named eval seeds must live in the held-out band"
    >> raise_if (not (distinct (seeds_of seeds))) value_error "eval seeds must be unique"

-- `{name: sealed_seed(raw, i) for i, name in enumerate(slots)}`, from an index on
unfoldable pub derive : (ℕ → ℕ) → ℕ → List String → Dict ℕ
derive seed_at i [] = []
derive seed_at i (s ∷ ss) = (s, seed_at i) ∷ derive seed_at (suc i) ss

abbrev pub slots_of : Option (List String) → List String
slots_of none = names_of eval_seeds
slots_of (some names) = names

-- `sealed_eval_seeds` of the bytes of a salt; the shortest salt and the derivation are native.
unfoldable pub sealed_eval_seeds :
    ℕ → (List ℕ → ℕ → ℕ) → List ℕ → Option (List String) → Result (Dict ℕ)
sealed_eval_seeds min_salt_bytes sealed_seed salt names =
    let slots = slots_of names in
    let out = derive (sealed_seed salt) 0 slots in
    raise_if (ltb (length salt) min_salt_bytes) value_error "sealed-seed salt is too short"
    >> (raise_if (not (distinct_names slots)) value_error "sealed eval slot names must be unique"
        >> (raise_if (leaves_band out) runtime_error "sealed seed left the held-out band"
            >> (raise_if (not (distinct (seeds_of out))) value_error
                  "sealed seeds collided; choose a different salt"
                >> ok out)))
