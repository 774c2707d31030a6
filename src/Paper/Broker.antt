-- ===== src/Paper/Broker.antt =====
-- The brokers of paper_trading.py. A broker answers with the fields of a JSON object; one that
-- cannot be queried has no `find_order`. B is the broker's own state, which is not the caller's.
pub mod Local
pub mod Remote
use sharpearena.Prelude.{String, Option}
use sharpearena.Prelude.Dict.{Dict}
use sharpearena.Python.Json.{Fields}
use sharpearena.Python.Methods.{Method}
use sharpearena.Paper.Order.{PaperOrder}
use sharpearena.Paper.Account.{PaperAccount}
use sharpearena.Paper.Risk.{PaperRiskConfig}

-- `PaperBroker`
pub record PaperBroker (F B : Type 0) : Type 0 where
  pub risk : PaperRiskConfig F
  pub broker_id : String
  pub submit : PaperOrder F → Dict F → Method (PaperAccount F × B) (Fields F)
  pub find_order : Option (String → Method B (Option (Fields F)))
