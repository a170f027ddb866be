-- ===== src/Tests/Clients.antt =====
-- The login, the commands and the registry of subscriptions on concrete data, and their theorems there.
use market_data_v.Common.{
  bytes_keys, ◌==◌, ◌≡◌, refl, true, false, not, none, some, List, [], ◌∷◌, Bytes, codes, arith,
}
use market_data_v.Common.HashMap.{occurrences}
use market_data_v.Common.Text.{decimal}
use market_data_v.Client.Commands
use market_data_v.Client.Commands.Calls
use market_data_v.Client.Commands.Calls.{
  Call, perform_all, subscribe_quote, subscribe_trades, list_market, get_server_time, quit,
}
use market_data_v.Client.Commands.Words.{IsClean}
use market_data_v.Client.Commands.Lines.{AllRead, lines, perform_all-AllRead}
use market_data_v.Client.Subscriptions.{quote, trades, snapshot_by_kind}
use market_data_v.Client.Subscriptions
use market_data_v.Client.Subscriptions.Held
use market_data_v.Client.Subscriptions.Held.{held, one_if, snapshot_by_kind-held}
use market_data_v.Client.Config.{ConnectionConfig}
use market_data_v.Client.Config as Config
use market_data_v.Client.Handshake.{Memmem, plain_find, perform}
use market_data_v.Client.Handshake.Prompts.{
  Pieces, closed, delivered, text, exchanges, answered, behind, Ends, perform-Ends,
}
use market_data_v.Tests.Data.{petr, none_of, none_of-All}

abbrev calls : List Call
calls =
    subscribe_quote petr true
    ∷ subscribe_trades petr (some 50)
    ∷ list_market (codes "BMF") 7 (some 130)
    ∷ get_server_time
    ∷ quit
    ∷ []

calls_text :
    (perform_all calls Commands.new).inner
    ≡ codes "SQT PETR4 N\nGQT PETR4 S 50\nMQC BMF T 7 S 130\nGTC\nQUIT\n"
unfolding decimal perform_all Calls.perform Commands.new Commands.subscribe_quote
    Commands.subscribe_trades Commands.list_market Commands.get_server_time Commands.quit
    Commands.write_line
calls_text = refl

clean :
    (w : Bytes) → none_of (λ c. c == b' ') w ≡ true → none_of (λ c. c == b'\n') w ≡ true → IsClean w
clean w space feed = (none_of-All (λ c. c == b' ') w space, none_of-All (λ c. c == b'\n') w feed)

perform_all-AllRead_example : AllRead calls (lines (perform_all calls Commands.new).inner)
perform_all-AllRead_example =
    let market = clean (codes "BMF") refl refl in
    let ticker = clean petr refl refl in
    perform_all-AllRead calls
      (ticker, ((ticker, omega arith), ((market, omega arith, omega arith), (tt, (tt, tt)))))

abbrev changes : List Held.Call
changes =
    Held.add quote petr
    ∷ Held.add trades petr
    ∷ Held.add quote (codes "VALE3")
    ∷ Held.remove trades petr
    ∷ Held.add quote petr
    ∷ []

snapshot_by_kind-held_example :
    (occurrences petr (snapshot_by_kind quote (Held.perform_all changes Subscriptions.new))
      ≡ one_if (held changes quote petr false))
    × ((Held.perform (Held.add quote petr) (Held.perform_all changes Subscriptions.new)).1
        ≡ not (held changes quote petr false))
    × ((Held.perform (Held.remove quote petr) (Held.perform_all changes Subscriptions.new)).1
        ≡ held changes quote petr false)
snapshot_by_kind-held_example = snapshot_by_kind-held changes quote petr

instance abbrev first_find : Memmem
first_find = plain_find

abbrev login : ConnectionConfig
login = record (Config.new (codes "feed") (codes "user") (codes "secret")) {
  software_key = codes "KEY";
}

-- The prompts cut in the middle, the last two in one read.
abbrev greeting : Pieces
greeting =
    (b'W', codes "elcome to Ced")
    ∷ (b'r', codes "o Technologies\nUser")
    ∷ (b'n', codes "ame:Username:")
    ∷ (b'P', codes "assword:\r\nYou are connected\r\nT:")
    ∷ []

perform-Ends_example :
    Ends closed
      (answered [] (exchanges login))
      (behind (exchanges login) (text greeting))
      (perform none none none login (delivered greeting closed))
perform-Ends_example = perform-Ends login greeting closed
