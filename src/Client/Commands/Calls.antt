-- ===== src/Client/Commands/Calls.antt =====
-- crates/cedro-client/src/commands.rs: the calls of the commands as data, and the words of each.
use market_data_v.Common.{
  ℕ, ◌≡◌, refl, Bool, true, false, Option, none, some, List, [], ◌∷◌, ◌++◌, Bytes, codes, ok,
}
use market_data_v.Common.Text.{decimal}
use market_data_v.Client.Commands
use market_data_v.Client.Commands.{CommandSink, Answer, write_line}

-- A call of one of the methods.
pub data Call : Type 0 where
  subscribe_quote : Bytes → Bool → Call
  unsubscribe_quote subscribe_book_detailed unsubscribe_book_detailed : Bytes → Call
  subscribe_book_aggregated : Bytes → Bool → Call
  unsubscribe_book_aggregated : Bytes → Call
  subscribe_trades : Bytes → Option ℕ → Call
  unsubscribe_trades : Bytes → Call
  list_market : Bytes → ℕ → Option ℕ → Call
  list_brokers subscribe_news unsubscribe_news : Bytes → Call
  get_server_time quit : Call

unfoldable pub perform : Call → CommandSink → Answer
perform (subscribe_quote t n) = Commands.subscribe_quote none t n
perform (unsubscribe_quote t) = Commands.unsubscribe_quote none t
perform (subscribe_book_detailed t) = Commands.subscribe_book_detailed none t
perform (unsubscribe_book_detailed t) = Commands.unsubscribe_book_detailed none t
perform (subscribe_book_aggregated t n) = Commands.subscribe_book_aggregated none t n
perform (unsubscribe_book_aggregated t) = Commands.unsubscribe_book_aggregated none t
perform (subscribe_trades t n) = Commands.subscribe_trades none t n
perform (unsubscribe_trades t) = Commands.unsubscribe_trades none t
perform (list_market m a n) = Commands.list_market none m a n
perform (list_brokers m) = Commands.list_brokers none m
perform (subscribe_news a) = Commands.subscribe_news none a
perform (unsubscribe_news a) = Commands.unsubscribe_news none a
perform get_server_time = Commands.get_server_time none
perform quit = Commands.quit none

unfoldable pub perform_all : List Call → CommandSink → CommandSink
perform_all [] s = s
perform_all (c ∷ cs) s = perform_all cs (perform c s).0

-- The protocol's words of a call, the numbers in decimal.
abbrev pub flag : Bool → List Bytes
flag true = codes "N" ∷ []
flag false = []

unfoldable pub keyword : Call → Bytes
keyword (subscribe_quote t n) = codes "SQT"
keyword (unsubscribe_quote t) = codes "USQ"
keyword (subscribe_book_detailed t) = codes "BQT"
keyword (unsubscribe_book_detailed t) = codes "UBQ"
keyword (subscribe_book_aggregated t n) = codes "SAB"
keyword (unsubscribe_book_aggregated t) = codes "UAB"
keyword (subscribe_trades t none) = codes "GQT"
keyword (subscribe_trades t (some n)) = codes "GQT"
keyword (unsubscribe_trades t) = codes "UQT"
keyword (list_market m a none) = codes "MQC"
keyword (list_market m a (some n)) = codes "MQC"
keyword (list_brokers m) = codes "GPN"
keyword (subscribe_news a) = codes "NEM"
keyword (unsubscribe_news a) = codes "UNE"
keyword get_server_time = codes "GTC"
keyword quit = codes "QUIT"

unfoldable pub arguments : Call → List Bytes
arguments (subscribe_quote t n) = t ∷ flag n
arguments (unsubscribe_quote t) = t ∷ []
arguments (subscribe_book_detailed t) = t ∷ []
arguments (unsubscribe_book_detailed t) = t ∷ []
arguments (subscribe_book_aggregated t n) = t ∷ flag n
arguments (unsubscribe_book_aggregated t) = t ∷ []
arguments (subscribe_trades t none) = t ∷ codes "S" ∷ []
arguments (subscribe_trades t (some n)) = t ∷ codes "S" ∷ decimal n ∷ []
arguments (unsubscribe_trades t) = t ∷ []
arguments (list_market m a none) = m ∷ decimal a ∷ []
arguments (list_market m a (some n)) = m ∷ codes "T" ∷ decimal a ∷ codes "S" ∷ decimal n ∷ []
arguments (list_brokers m) = m ∷ []
arguments (subscribe_news a) = codes "A" ∷ a ∷ []
arguments (unsubscribe_news a) = a ∷ []
arguments get_server_time = []
arguments quit = []

unfoldable pub words : Call → List Bytes
unfolding keyword arguments
words c = keyword c ∷ arguments c

-- The words with spaces between them.
unfoldable pub spaced : List Bytes → Bytes
spaced [] = []
spaced (w ∷ []) = w
spaced (w ∷ v ∷ ws) = w ++ (b' ' ∷ spaced (v ∷ ws))

unfoldable pub line_of : Call → Bytes
unfolding spaced words
line_of c = spaced (words c)

pub perform_lem :
    (c : Call) (s : CommandSink)
    → perform c s ≡ (record { inner = s.inner ++ (line_of c ++ (b'\n' ∷ [])) }, ok tt)
unfolding perform line_of spaced words keyword arguments Commands.subscribe_quote
    Commands.unsubscribe_quote Commands.subscribe_book_detailed Commands.unsubscribe_book_detailed
    Commands.subscribe_book_aggregated Commands.unsubscribe_book_aggregated
    Commands.subscribe_trades Commands.unsubscribe_trades Commands.list_market Commands.list_brokers
    Commands.subscribe_news Commands.unsubscribe_news Commands.get_server_time Commands.quit
    write_line
perform_lem (subscribe_quote t true) s = refl
perform_lem (subscribe_quote t false) s = refl
perform_lem (unsubscribe_quote t) s = refl
perform_lem (subscribe_book_detailed t) s = refl
perform_lem (unsubscribe_book_detailed t) s = refl
perform_lem (subscribe_book_aggregated t true) s = refl
perform_lem (subscribe_book_aggregated t false) s = refl
perform_lem (unsubscribe_book_aggregated t) s = refl
perform_lem (subscribe_trades t none) s = refl
perform_lem (subscribe_trades t (some n)) s = refl
perform_lem (unsubscribe_trades t) s = refl
perform_lem (list_market m a none) s = refl
perform_lem (list_market m a (some n)) s = refl
perform_lem (list_brokers m) s = refl
perform_lem (subscribe_news a) s = refl
perform_lem (unsubscribe_news a) s = refl
perform_lem get_server_time s = refl
perform_lem quit s = refl
