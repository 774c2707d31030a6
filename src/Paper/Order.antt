-- ===== src/Paper/Order.antt =====
-- Symbols, orders and market bars of paper_trading.py, with the checks of their constructors.
use Prim.Native.Char.{code}
use sharpearena.Prelude.{
  ℕ, suc, String, Bool, true, false, not, ◌&&◌, ◌||◌, Option, [], ◌∷◌, all, str_eq, leb, ◌==◌, ◌≡◌,
  arith, if◌then◌else◌,
}
use sharpearena.Python.Errors.{Result, ok, fail, raise_if, value_error, ◌>>◌}
use sharpearena.Python.Runtime.{Runtime}
use sharpearena.Counterfactual.Ghost.{Side}

abbrev pub between : ℕ → ℕ → ℕ → Bool
between lo hi c = leb lo c && leb c hi

-- [A-Z0-9._/-]
abbrev pub is_symbol_char : ℕ → Bool
is_symbol_char c =
    between b'A' b'Z' c || between b'0' b'9' c || c == b'.' || c == b'_' || c == b'/' || c == b'-'

abbrev count_chars : String → ℕ
count_chars String.[] = 0
count_chars (String.◌∷◌ c s) = suc (count_chars s)

abbrev all_symbol : String → Bool
all_symbol String.[] = true
all_symbol (String.◌∷◌ c s) = is_symbol_char (code c) && all_symbol s

-- `_SYMBOL.fullmatch`: one to 32 such characters
unfoldable pub is_symbol : String → Bool
is_symbol s = between 1 32 (count_chars s) && all_symbol s

pub record PaperOrder (F : Type 0) : Type 0 where
  pub symbol : String
  pub side : Side
  pub quantity : F
  pub order_type : String
  pub time_in_force : String
  pub client_order_id : Option String

pub record MarketBar (F : Type 0) : Type 0 where
  pub symbol : String
  pub timestamp : String
  pub open_price : F
  pub high : F
  pub low : F
  pub close : F
  pub volume : F
  pub source : String

abbrev accepted : String → Result String
accepted symbol =
    if is_symbol symbol
    then ok symbol
    else fail value_error "symbol contains unsupported characters"

-- `_checked_symbol`, over `str.upper`
unfoldable pub checked_symbol : (String → String) → String → Result String
checked_symbol upper symbol = accepted (upper symbol)

module _ {F : Type 0} ⦃r : Runtime F⦄ where
  -- `PaperOrder.__post_init__`; the test on `side` is its type
  unfoldable pub order_post_init : PaperOrder F → Result (Unit {0})
  order_post_init o = do
    checked_symbol r.upper o.symbol
    raise_if (not (r.is_finite o.quantity) || r.at_most o.quantity r.zero) value_error
        "paper order quantity must be finite and positive"
    raise_if (not (str_eq o.order_type "market")) value_error
        "the forward safety profile permits market paper orders only"
    raise_if (not (str_eq o.time_in_force "day" || str_eq o.time_in_force "gtc")) value_error
        "unsupported paper time-in-force"

  -- `PaperOrder(symbol, side, quantity, client_order_id=...)`, the rest by default
  unfoldable pub paper_order : String → Side → F → Option String → Result (PaperOrder F)
  paper_order symbol side quantity client_order_id =
      let o : PaperOrder F = record {
        symbol = symbol;
        side = side;
        quantity = quantity;
        order_type = "market";
        time_in_force = "day";
        client_order_id = client_order_id;
      } in
      (do order_post_init o; ok o)

  -- `MarketBar(...)`
  unfoldable pub market_bar : MarketBar F → Result (MarketBar F)
  market_bar b = do
    raise_if (not (all r.is_finite (b.open_price ∷ b.high ∷ b.low ∷ b.close ∷ b.volume ∷ [])))
        value_error "market bar values must be finite"
    raise_if (r.at_most b.close r.zero || r.less b.high b.low || r.less b.volume r.zero) value_error
        "market bar has invalid price/volume geometry"
    ok b

  -- Every order that is constructed is a positive, finite market order on a checked symbol.
  pub paper_order_checked :
      (symbol : String) (side : Side) (quantity : F) (id : Option String) (o : PaperOrder F)
      → paper_order symbol side quantity id ≡ ok o
      → (is_symbol (r.upper o.symbol) ≡ true)
        × (r.is_finite o.quantity ≡ true)
        × (r.at_most o.quantity r.zero ≡ false)
        × (o.order_type ≡ "market")
        × (o.client_order_id ≡ id)
  unfolding paper_order order_post_init checked_symbol
  paper_order_checked symbol side quantity id o h = ground arith
