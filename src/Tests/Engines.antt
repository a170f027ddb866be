-- ===== src/Tests/Engines.antt =====
-- The quote registry and the trade buffer on concrete data, and their theorems there.
use market_data_v.Common.{
  bytes_keys, bytes_eq, nat_eq, ◌≡◌, List, [], ◌∷◌, Bytes, codes, if◌then◌else◌, max,
}
use market_data_v.Enums.{trade_condition_from_code, trade_aggressor_from_byte}
use market_data_v.Types.{QuoteDiff, QuoteFieldValue}
use market_data_v.Quote as Quotes
use market_data_v.Trades.{TradeRecord, new, push, snapshot}
use market_data_v.Trades.Queues.{queue_of, last_n}
use market_data_v.Trades.Bounds.{
  push_op, remove_op, clear_op, perform, perform_all, ticker_of, after, IsBounded, new-IsBounded,
  perform-queue_of, perform-IsBounded, new-perform_all,
}
use market_data_v.Trades.History.{pushes, snapshot-pushes}
use market_data_v.Tests.Data.{petr}

abbrev deal : Bytes → TradeRecord
deal id = record {
  time_hhmmss = 101500;
  price = 4636737291354636288;
  quantity = 100;
  trade_id = id;
  broker_buy_id = 3;
  broker_sell_id = 85;
  condition = trade_condition_from_code 1;
  aggressor = trade_aggressor_from_byte b'A';
}

abbrev three : List TradeRecord
three = deal (codes "1") ∷ deal (codes "2") ∷ deal (codes "3") ∷ []

snapshot-pushes_example :
    snapshot petr 5 (perform_all (pushes petr three) (new 2)) ≡ last_n 5 (last_n (max 2 1) three)
snapshot-pushes_example = snapshot-pushes 2 5 petr three

new-perform_all_example :
    IsBounded (perform_all (push_op petr (deal (codes "1")) ∷ clear_op petr ∷ []) (new 2))
new-perform_all_example = new-perform_all 2 (push_op petr (deal (codes "1")) ∷ clear_op petr ∷ [])

perform-queue_of_example :
    queue_of (perform (remove_op petr (codes "1")) (push petr (deal (codes "1")) (new 2))) petr ≡ (
      if bytes_eq (ticker_of (remove_op petr (codes "1"))) petr
      then after
          (push petr (deal (codes "1")) (new 2)).per_ticker_capacity
          (remove_op petr (codes "1"))
          (queue_of (push petr (deal (codes "1")) (new 2)) petr)
      else queue_of (push petr (deal (codes "1")) (new 2)) petr)
perform-queue_of_example =
    perform-queue_of (remove_op petr (codes "1")) (push petr (deal (codes "1")) (new 2)) petr
      (perform-IsBounded (push_op petr (deal (codes "1"))) (new 2) (new-IsBounded 2))

abbrev two_values : QuoteDiff
two_values = (2, QuoteFieldValue.float 0) ∷ (2, QuoteFieldValue.float 4636737291354636288) ∷ []
