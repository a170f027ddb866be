-- ===== src/Client/Commands.antt =====
-- crates/cedro-client/src/commands.rs: the commands, each one a line on the socket.
-- The state is what the writer `W` has been given. A call takes the fault that the writer has in it, if
-- it has one. A `&str` is its bytes. Each call holds the mutex, and a poisoned one is not modelled.
pub mod Calls
pub mod Decimal
pub mod Words
pub mod Lines
use market_data_v.Common.{
  ℕ, Bool, true, false, Option, none, some, List, [], ◌∷◌, ◌++◌, Bytes, codes, take, Result, ok,
  err, if◌then◌else◌,
}
use market_data_v.Common.Text.{decimal}
use market_data_v.Client.{ClientError, command_write}

pub record CommandSink : Type 0 where
  pub inner : Bytes

-- The first `write_all` fails behind some bytes, the second one does, or the flush.
pub data Fault : Type 0 where
  in_payload : ℕ → Fault
  in_newline in_flush : Fault

unfoldable pub new : CommandSink
new = record { inner = [] }

abbrev pub Answer : Type 0
Answer = CommandSink × Result ClientError (Unit {0})

unfoldable pub write_line : Option Fault → Bytes → CommandSink → Answer
write_line none payload s = (record { inner = s.inner ++ (payload ++ (b'\n' ∷ [])) }, ok tt)
write_line (some (in_payload n)) payload s =
    (record { inner = s.inner ++ take n payload }, err command_write)
write_line (some in_newline) payload s = (record { inner = s.inner ++ payload }, err command_write)
write_line (some in_flush) payload s =
    (record { inner = s.inner ++ (payload ++ (b'\n' ∷ [])) }, err command_write)

module _ (fault : Option Fault) where
  unfoldable pub subscribe_quote : Bytes → Bool → CommandSink → Answer
  subscribe_quote ticker snapshot_only s =
      if snapshot_only
      then write_line fault (codes "SQT " ++ (ticker ++ codes " N")) s
      else write_line fault (codes "SQT " ++ ticker) s

  unfoldable pub unsubscribe_quote : Bytes → CommandSink → Answer
  unsubscribe_quote ticker s = write_line fault (codes "USQ " ++ ticker) s

  unfoldable pub subscribe_book_detailed : Bytes → CommandSink → Answer
  subscribe_book_detailed ticker s = write_line fault (codes "BQT " ++ ticker) s

  unfoldable pub unsubscribe_book_detailed : Bytes → CommandSink → Answer
  unsubscribe_book_detailed ticker s = write_line fault (codes "UBQ " ++ ticker) s

  unfoldable pub subscribe_book_aggregated : Bytes → Bool → CommandSink → Answer
  subscribe_book_aggregated ticker snapshot_only s =
      if snapshot_only
      then write_line fault (codes "SAB " ++ (ticker ++ codes " N")) s
      else write_line fault (codes "SAB " ++ ticker) s

  unfoldable pub unsubscribe_book_aggregated : Bytes → CommandSink → Answer
  unsubscribe_book_aggregated ticker s = write_line fault (codes "UAB " ++ ticker) s

  unfoldable pub subscribe_trades : Bytes → Option ℕ → CommandSink → Answer
  subscribe_trades ticker (some n) s =
      write_line fault (codes "GQT " ++ (ticker ++ (codes " S " ++ decimal n))) s
  subscribe_trades ticker none s = write_line fault (codes "GQT " ++ (ticker ++ codes " S")) s

  unfoldable pub unsubscribe_trades : Bytes → CommandSink → Answer
  unsubscribe_trades ticker s = write_line fault (codes "UQT " ++ ticker) s

  unfoldable pub list_market : Bytes → ℕ → Option ℕ → CommandSink → Answer
  list_market market asset_type (some subtype) s =
      write_line fault
        (codes "MQC "
          ++ (market ++ (codes " T " ++ (decimal asset_type ++ (codes " S " ++ decimal subtype)))))
        s
  list_market market asset_type none s =
      write_line fault (codes "MQC " ++ (market ++ (codes " " ++ decimal asset_type))) s

  unfoldable pub list_brokers : Bytes → CommandSink → Answer
  list_brokers market s = write_line fault (codes "GPN " ++ market) s

  unfoldable pub subscribe_news : Bytes → CommandSink → Answer
  subscribe_news agency s = write_line fault (codes "NEM A " ++ agency) s

  unfoldable pub unsubscribe_news : Bytes → CommandSink → Answer
  unsubscribe_news agency s = write_line fault (codes "UNE " ++ agency) s

  unfoldable pub get_server_time : CommandSink → Answer
  get_server_time s = write_line fault (codes "GTC") s

  unfoldable pub quit : CommandSink → Answer
  quit s = write_line fault (codes "QUIT") s
