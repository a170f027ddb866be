-- ===== src/Client/Commands/Words.antt =====
-- The words of a command, as a server reads them from its line.
use market_data_v.Common.{
  ℕ, ◌^◌, ◌≤◌, ◌<◌, ◌≡◌, refl, ap, ◌∙◌, true, false, none, some, List, [], ◌∷◌, Bytes, codes, ◌==◌,
  All, All-append, arith,
}
use market_data_v.Common.Text.{decimal, IsFree, pieces, pieces_free, pieces-append}
use market_data_v.Scanner.Numbers.{Denotes}
use market_data_v.Client.Commands.Decimal.{decimal-Denotes, digits-IsFree}
use market_data_v.Client.Commands.Calls.{
  Call, subscribe_quote, unsubscribe_quote, subscribe_book_detailed, unsubscribe_book_detailed,
  subscribe_book_aggregated, unsubscribe_book_aggregated, subscribe_trades, unsubscribe_trades,
  list_market, list_brokers, subscribe_news, unsubscribe_news, get_server_time, quit, flag, keyword,
  arguments, words, spaced,
}

-- No separator of the protocol in it.
abbrev pub IsClean : Bytes → Type 0
IsClean w = IsFree b' ' w × IsFree b'\n' w

-- The arguments of a call are clean texts, and numbers below the limits of their types.
abbrev pub IsCall : Call → Type 0
IsCall (subscribe_quote t n) = IsClean t
IsCall (unsubscribe_quote t) = IsClean t
IsCall (subscribe_book_detailed t) = IsClean t
IsCall (unsubscribe_book_detailed t) = IsClean t
IsCall (subscribe_book_aggregated t n) = IsClean t
IsCall (unsubscribe_book_aggregated t) = IsClean t
IsCall (subscribe_trades t none) = IsClean t
IsCall (subscribe_trades t (some n)) = IsClean t × (n < 2 ^ 32)
IsCall (unsubscribe_trades t) = IsClean t
IsCall (list_market m a none) = IsClean m × (a < 2 ^ 16)
IsCall (list_market m a (some n)) = IsClean m × (a < 2 ^ 16) × (n < 2 ^ 16)
IsCall (list_brokers m) = IsClean m
IsCall (subscribe_news a) = IsClean a
IsCall (unsubscribe_news a) = IsClean a
IsCall get_server_time = Unit
IsCall quit = Unit

pub pieces-spaced :
    (w : Bytes) (ws : List Bytes)
    → All IsClean (w ∷ ws)
    → (pieces b' ' (spaced (w ∷ ws)) ≡ w ∷ ws) × IsFree b'\n' (spaced (w ∷ ws))
unfolding spaced
pieces-spaced w [] h = (pieces_free b' ' w h.0.0, h.0.1)
pieces-spaced w (v ∷ ws) h =
    let (p, f) = pieces-spaced v ws h.1 in
    (
      pieces-append b' ' w (spaced (v ∷ ws)) h.0.0 ∙ ap (λ x. w ∷ x) p,
      All-append (λ c. (c == b'\n') ≡ false) w (b' ' ∷ spaced (v ∷ ws)) h.0.1 (refl, f),
    )

decimal-IsClean : (n bound : ℕ) → n < bound → bound ≤ 2 ^ 64 → IsClean (decimal n)
decimal-IsClean n bound h b =
    let d = decimal-Denotes n bound h b in
    (digits-IsFree b' ' (decimal n) refl d.digits, digits-IsFree b'\n' (decimal n) refl d.digits)

pub words-IsClean : (c : Call) → IsCall c → All IsClean (words c)
unfolding words keyword arguments
words-IsClean (subscribe_quote t true) h = ground arith
words-IsClean (subscribe_quote t false) h = ground arith
words-IsClean (unsubscribe_quote t) h = ground arith
words-IsClean (subscribe_book_detailed t) h = ground arith
words-IsClean (unsubscribe_book_detailed t) h = ground arith
words-IsClean (subscribe_book_aggregated t true) h = ground arith
words-IsClean (subscribe_book_aggregated t false) h = ground arith
words-IsClean (unsubscribe_book_aggregated t) h = ground arith
words-IsClean (subscribe_trades t none) h = ground arith
words-IsClean (subscribe_trades t (some n)) h =
    ground (arith, decimal-IsClean n (2 ^ 32) h.1 (omega arith))
words-IsClean (unsubscribe_trades t) h = ground arith
words-IsClean (list_market m a none) h =
    ground (arith, decimal-IsClean a (2 ^ 16) h.1 (omega arith))
words-IsClean (list_market m a (some n)) h = ground (
  arith,
  decimal-IsClean a (2 ^ 16) h.1 (omega arith),
  decimal-IsClean n (2 ^ 16) h.2 (omega arith),
)
words-IsClean (list_brokers m) h = ground arith
words-IsClean (subscribe_news a) h = ground arith
words-IsClean (unsubscribe_news a) h = ground arith
words-IsClean get_server_time h = ground arith
words-IsClean quit h = ground arith

-- The words of a line are those of the call, a number in them denoted by its numeral.
abbrev pub ReadAs : Call → List Bytes → Type 0
ReadAs (subscribe_quote t n) ws = ws ≡ codes "SQT" ∷ t ∷ flag n
ReadAs (unsubscribe_quote t) ws = ws ≡ codes "USQ" ∷ t ∷ []
ReadAs (subscribe_book_detailed t) ws = ws ≡ codes "BQT" ∷ t ∷ []
ReadAs (unsubscribe_book_detailed t) ws = ws ≡ codes "UBQ" ∷ t ∷ []
ReadAs (subscribe_book_aggregated t n) ws = ws ≡ codes "SAB" ∷ t ∷ flag n
ReadAs (unsubscribe_book_aggregated t) ws = ws ≡ codes "UAB" ∷ t ∷ []
ReadAs (subscribe_trades t none) ws = ws ≡ codes "GQT" ∷ t ∷ codes "S" ∷ []
ReadAs (subscribe_trades t (some n)) ws =
    (d : Bytes) × (ws ≡ codes "GQT" ∷ t ∷ codes "S" ∷ d ∷ []) × Denotes (2 ^ 32) d n
ReadAs (unsubscribe_trades t) ws = ws ≡ codes "UQT" ∷ t ∷ []
ReadAs (list_market m a none) ws =
    (d : Bytes) × (ws ≡ codes "MQC" ∷ m ∷ d ∷ []) × Denotes (2 ^ 16) d a
ReadAs (list_market m a (some n)) ws =
    (d e : Bytes) × (ws ≡ codes "MQC" ∷ m ∷ codes "T" ∷ d ∷ codes "S" ∷ e ∷ [])
    × Denotes (2 ^ 16) d a
    × Denotes (2 ^ 16) e n
ReadAs (list_brokers m) ws = ws ≡ codes "GPN" ∷ m ∷ []
ReadAs (subscribe_news a) ws = ws ≡ codes "NEM" ∷ codes "A" ∷ a ∷ []
ReadAs (unsubscribe_news a) ws = ws ≡ codes "UNE" ∷ a ∷ []
ReadAs get_server_time ws = ws ≡ codes "GTC" ∷ []
ReadAs quit ws = ws ≡ codes "QUIT" ∷ []

pub words-ReadAs : (c : Call) → IsCall c → ReadAs c (words c)
unfolding words keyword arguments
words-ReadAs (subscribe_quote t n) h = refl
words-ReadAs (unsubscribe_quote t) h = refl
words-ReadAs (subscribe_book_detailed t) h = refl
words-ReadAs (unsubscribe_book_detailed t) h = refl
words-ReadAs (subscribe_book_aggregated t n) h = refl
words-ReadAs (unsubscribe_book_aggregated t) h = refl
words-ReadAs (subscribe_trades t none) h = refl
words-ReadAs (subscribe_trades t (some n)) h =
    (decimal n, refl, decimal-Denotes n (2 ^ 32) h.1 (omega arith))
words-ReadAs (unsubscribe_trades t) h = refl
words-ReadAs (list_market m a none) h =
    (decimal a, refl, decimal-Denotes a (2 ^ 16) h.1 (omega arith))
words-ReadAs (list_market m a (some n)) h = (
  decimal a,
  decimal n,
  refl,
  decimal-Denotes a (2 ^ 16) h.1 (omega arith),
  decimal-Denotes n (2 ^ 16) h.2 (omega arith),
)
words-ReadAs (list_brokers m) h = refl
words-ReadAs (subscribe_news a) h = refl
words-ReadAs (unsubscribe_news a) h = refl
words-ReadAs get_server_time h = refl
words-ReadAs quit h = refl
