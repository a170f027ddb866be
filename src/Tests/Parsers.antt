-- ===== src/Tests/Parsers.antt =====
-- The parsers on concrete frames, and their theorems there.
use market_data_v.Common.{◌^◌, ◌≡◌, ◌↔◌, List, [], ◌∷◌, Bytes, codes, ok, negsuc}
use market_data_v.Enums.{buy}
use market_data_v.Memchr.{plain_scan}
use market_data_v.Types.{BookOp, ProtocolMessage, book}
use market_data_v.Scanner.{parse_u64, parse_i64}
use market_data_v.Scanner.Numbers.{Denotes, DenotesInt, parse_u64_iff, parse_i64_iff}
use market_data_v.Parser.Bqt.Grammar as Bqt
use market_data_v.Tests.Data.{petr, order, float_table}

abbrev added_text : Bytes
added_text = codes "B:PETR4:A:0:A:99.5:100:131:11041005:X1:L"

abbrev added_tail : List Bytes
added_tail =
    codes "A"
    ∷ codes "99.5"
    ∷ codes "100"
    ∷ codes "131"
    ∷ codes "11041005"
    ∷ codes "X1"
    ∷ codes "L"
    ∷ []

abbrev added_book : ProtocolMessage
added_book = book petr (BookOp.add (order buy 0 (codes "X1")))

parse_u64_iff_example :
    (parse_u64 (codes "18446744073709551616") "quantity" ≡ ok 18446744073709551616)
    ↔ Denotes (2 ^ 64) (codes "18446744073709551616") 18446744073709551616
parse_u64_iff_example = parse_u64_iff (codes "18446744073709551616") "quantity" 18446744073709551616

parse_i64_iff_example :
    (parse_i64 (codes "-12") "quote int" ≡ ok (negsuc 11)) ↔ DenotesInt (codes "-12") (negsuc 11)
parse_i64_iff_example = parse_i64_iff (codes "-12") "quote int" (negsuc 11)
