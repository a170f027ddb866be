-- ===== src/Pipeline/Symbols.antt =====
-- bin/ingest-daemon/src/pipeline.rs: the catalog of symbols and brokers.
-- Each call holds the lock, and a poisoned lock is not modelled. A `String` is its bytes, and a set is a
-- map to the unit.
use market_data_v.Common.{
  bytes_keys, ◌+◌, Bool, ◌&&◌, Option, List, [], ◌∷◌, Bytes, codes, bytes_eq, leb, if◌then◌else◌,
}
use market_data_v.Common.HashMap
use market_data_v.Common.HashMap.{HashMap}

pub record BrokerInfo : Type 0 where
  pub code : Bytes
  pub name : Bytes
  pub active : Bool

pub record Catalog : Type 0 where
  pub symbol_set : HashMap Bytes (Unit {0})
  pub book_set : HashMap Bytes (Unit {0})
  pub brokers : HashMap Bytes BrokerInfo

unfoldable pub default : Catalog
default = record { symbol_set = HashMap.empty; book_set = HashMap.empty; brokers = HashMap.empty }

unfoldable pub symbols : Catalog → List Bytes
symbols c = HashMap.keys c.symbol_set

unfoldable pub book_universe : Catalog → HashMap Bytes (Unit {0})
book_universe c = c.book_set

-- `to_ascii_lowercase`
abbrev pub lowered : Bytes → Bytes
lowered [] = []
lowered (c ∷ cs) = (if leb b'A' c && leb c b'Z' then c + 32 else c) ∷ lowered cs

unfoldable pub eq_ignore_ascii_case : Bytes → Bytes → Bool
eq_ignore_ascii_case a b = bytes_eq (lowered a) (lowered b)

unfoldable pub insert_symbol : Bytes → Bytes → Catalog → Catalog
insert_symbol market ticker c = record c {
  symbol_set = HashMap.insert ticker tt c.symbol_set;
  book_set =
      if eq_ignore_ascii_case market (codes "BOVESPA")
      then HashMap.insert ticker tt c.book_set
      else c.book_set;
}

unfoldable pub insert_broker : Bytes → BrokerInfo → Catalog → Catalog
insert_broker cedro_id info c = record c { brokers = HashMap.insert cedro_id info c.brokers }

unfoldable pub broker : Catalog → Bytes → Option BrokerInfo
broker c cedro_id = HashMap.get c.brokers cedro_id
