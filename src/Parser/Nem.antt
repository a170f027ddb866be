-- ===== src/Parser/Nem.antt =====
-- crates/cedro-protocol/src/parser/nem.rs: the news frames.
pub mod Grammar
use market_data_v.Common.{
  ℕ, ◌≡◌, refl, Bool, true, false, Option, none, some, List, [], ◌∷◌, Bytes, String, Result, ok,
  err, if◌then◌else◌, bytes_eq,
}
use market_data_v.Memchr.{Memchr}
use market_data_v.Types.{
  NewsHeadline, NewsMessage, headline, history_item, history_end, body, ProtocolMessage, news,
}
use market_data_v.Scanner.{ParseError, Parser, lift, ◌>>=◌, pure, required, take_rest, parse_u32}
use market_data_v.Parser.Op.{is_text, invalid, run}

module _ ⦃m : Memchr⦄ where
  -- The agency, unless the caller has read it.
  unfoldable pub agency_of : Option Bytes → Parser Bytes
  agency_of (some a) = pure a
  agency_of none = required "agency"

  unfoldable pub read_headline : Option Bytes → Parser NewsHeadline
  read_headline pre_consumed_agency = do
    agency ← agency_of pre_consumed_agency
    code ← required "code"
    date_bytes ← required "news date"
    date ← lift (parse_u32 date_bytes "news date")
    time_bytes ← required "news time"
    time ← lift (parse_u32 time_bytes "news time")
    category_bytes ← required "news category"
    category ← lift (parse_u32 category_bytes "news category")
    title_len_bytes ← required "news title length"
    title ← take_rest
    pure (record {
      agency = agency;
      code = code;
      date = date;
      time = time;
      category = category;
      title = title;
    })

  -- `L`: an item of the history, or its end.
  unfoldable pub history_of : Bytes → Bytes → Parser NewsMessage
  history_of req_id next =
      if is_text next "END"
      then pure (history_end req_id)
      else (do h ← read_headline (some next); pure (history_item req_id h))

  unfoldable pub read_history : Parser NewsMessage
  read_history = do
    req_id ← required "request id"
    next ← required "agency or END"
    history_of req_id next

  unfoldable pub read_body : Parser NewsMessage
  read_body = do
    request_id ← required "request id"
    agency ← required "agency"
    code ← required "code"
    body_raw ← take_rest
    pure (
        NewsMessage.body
          (record { request_id = request_id; agency = agency; code = code; body_raw = body_raw }))

  -- The match on the kind of the news.
  unfoldable pub message_of : Bytes → Parser NewsMessage
  message_of kind =
      if is_text kind "A"
      then (do h ← read_headline none; pure (headline h))
      else if is_text kind "L"
      then read_history
      else if is_text kind "N"
      then read_body
      else lift (invalid "news kind" "expected A, L, or N")

  unfoldable pub frame_body : Parser ProtocolMessage
  frame_body = do
    header ← required "O header"
    kind ← required "news kind"
    msg ← message_of kind
    pure (news msg)

  unfoldable pub parse : Bytes → Result ParseError ProtocolMessage
  parse frame = run frame_body frame
