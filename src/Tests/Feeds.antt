-- ===== src/Tests/Feeds.antt =====
-- The trade, news, price and list parsers on concrete frames, and their theorems there.
use market_data_v.Common.{bytes_eq, ◌≡◌, refl, none, [], codes, ok}
use market_data_v.Enums.{trade_condition_from_code, trade_aggressor_from_byte}
use market_data_v.Memchr.{plain_scan}
use market_data_v.Types.{TradeOperation, Trade, trade}
use market_data_v.Utf8.{is_utf8}
use market_data_v.Scanner.{parse_u64, parse_u32, parse_u16, decimal_loop, narrow}
use market_data_v.Scanner.Tokens.{split}
use market_data_v.Scanner.Wire.{IsFloat}
use market_data_v.Parser.Gqt as GqtCode
use market_data_v.Parser.Gqt.Grammar as Gqt
use market_data_v.Parser.Gqt.Original.{shifted, parse-empty_original}
use market_data_v.Tests.Data.{petr, float_table, numeral, count, index}

price : IsFloat (codes "99.5") 4636737291354636288
unfolding bytes_eq is_utf8
price = record { not_empty = λ q. cc; utf8 = refl; value = refl }

abbrev fields : GqtCode.TradeFields
fields = record {
  time = codes "101500";
  price = codes "99.5";
  broker_buy = codes "3";
  broker_sell = codes "85";
  quantity = codes "100";
  id = codes "7001";
  condition = codes "1";
  aggressor = codes "A";
  original = codes "X";
}

abbrev sold : Trade
sold = record {
  operation_code = b'A';
  time_hhmmss = 101500;
  price = 4636737291354636288;
  broker_buy_id = 3;
  broker_sell_id = 85;
  quantity = 100;
  trade_id = codes "7001";
  request_id = none;
  condition = trade_condition_from_code 1;
  aggressor = trade_aggressor_from_byte b'A';
  original_conditions = codes "X";
}

-- The fields of a snapshot's trade with the request `9` and the condition `1`.
abbrev asked : GqtCode.TradeFields
asked = record fields { original = [] }

abbrev misread : Trade
misread = record sold {
  condition = trade_condition_from_code 9;
  aggressor = trade_aggressor_from_byte b'1';
  original_conditions = codes "A";
}

is_misread : Gqt.IsTrade (shifted (codes "9") asked) misread
unfolding parse_u16 parse_u32 parse_u64 decimal_loop narrow
is_misread = record {
  condition_code = 9;
  aggressor_byte = b'1';
  operation = refl;
  time = numeral (codes "101500") 101500 refl;
  price = price;
  broker_buy = numeral (codes "3") 3 refl;
  broker_sell = numeral (codes "85") 85 refl;
  quantity = count (codes "100") 100 refl;
  id = refl;
  condition_text = index (codes "9") 9 refl;
  condition = refl;
  aggressor_text = refl;
  aggressor = refl;
  original = refl;
}

parse-empty_original_example :
    GqtCode.parse (codes "V:PETR4:A:101500:99.5:3:85:100:7001:REQ-7:1:A:")
    ≡ GqtCode.parse (codes "V:PETR4:A:101500:99.5:3:85:100:7001:REQ-7:1:A")
unfolding split
parse-empty_original_example =
    parse-empty_original (codes "V:PETR4:A:101500:99.5:3:85:100:7001:REQ-7:1:A:")
      (codes "V:PETR4:A:101500:99.5:3:85:100:7001:REQ-7:1:A") (codes "V") petr (codes "REQ-7") asked
      refl refl refl

-- With a number for the request id the trade is misread, and else refused.
misread_trade :
    GqtCode.parse (codes "V:PETR4:A:101500:99.5:3:85:100:7001:9:1:A:")
    ≡ ok (trade petr (TradeOperation.add misread))
unfolding split
misread_trade =
    let fields = shifted (codes "9") asked in
    Gqt.parse-IsOp_trade (codes "V:PETR4:A:101500:99.5:3:85:100:7001:9:1:A:") (codes "V") petr
      (codes "A") _ (TradeOperation.add misread) refl
      (Gqt.IsOp.added _ fields misread (Gqt.IsAdd.stream_dangling fields []) is_misread)
