-- ===== src/Writer/Kept.antt =====
-- No trade is lost by a writer whose insertions succeed, and what a failed one loses.
use market_data_v.Common.{
  ◌^◌, ◌<◌, ◌≡◌, refl, sym, ap, ◌∙◌, true, List, [], ◌∷◌, ◌++◌, Bytes, leb, length, ok, Bool-cases,
  inl, inr,
}
use mathlib.Core.List.{append_assoc, append-nil}
use market_data_v.Wal.{truncate}
use market_data_v.Wal.Records.{log_bytes, record_bytes}
use market_data_v.Wal.Crash.{contents, append_lem}
use market_data_v.Staged.{StagedTrade, encode_wal}
use market_data_v.Writer.{TradeWriter, flush_drained, flush_full, stage}

abbrev pub encodings : List StagedTrade → List Bytes
encodings [] = []
encodings (t ∷ ts) = encode_wal t ∷ encodings ts

-- The writer has taken the trades of the history: they are committed or in the buffer, in order, and
-- the log holds exactly the buffer.
pub record IsKept (history : List StagedTrade) (w : TradeWriter) : Type 0 where
  pub all : w.committed ++ w.buffer ≡ history
  pub logged : contents w.wal ≡ log_bytes (encodings w.buffer)

log_bytes-append :
    (ts : List StagedTrade) (t : StagedTrade)
    → log_bytes (encodings (ts ++ (t ∷ [])))
      ≡ log_bytes (encodings ts) ++ record_bytes (encode_wal t)
unfolding log_bytes
log_bytes-append [] t = append-nil (record_bytes (encode_wal t))
log_bytes-append (s ∷ ts) t =
    ap (λ x. record_bytes (encode_wal s) ++ x) (log_bytes-append ts t)
    ∙ sym (
        append_assoc (record_bytes (encode_wal s)) (log_bytes (encodings ts))
          (record_bytes (encode_wal t)))

pub flush_drained-IsKept :
    (batch history : List StagedTrade) (w : TradeWriter)
    → w.buffer ≡ []
    → w.committed ++ batch ≡ history
    → contents w.wal ≡ log_bytes (encodings batch)
    → IsKept history (flush_drained true batch w).0 × ((flush_drained true batch w).1 ≡ ok tt)
unfolding flush_drained truncate log_bytes
flush_drained-IsKept [] history w e a l = (
  record {
    all = ap (λ b. w.committed ++ b) e ∙ a;
    logged = l ∙ sym (ap (λ b. log_bytes (encodings b)) e);
  },
  refl,
)
flush_drained-IsKept (t ∷ ts) history w e a l = (
  record {
    all = ap (λ b. (w.committed ++ (t ∷ ts)) ++ b) e ∙ append-nil (w.committed ++ (t ∷ ts)) ∙ a;
    logged = sym (ap (λ b. log_bytes (encodings b)) e);
  },
  refl,
)

flush_full-IsKept :
    (history : List StagedTrade) (w : TradeWriter)
    → IsKept history w
    → IsKept history (flush_full true w).0 × ((flush_full true w).1 ≡ ok tt)
unfolding flush_full
flush_full-IsKept history w h = elim (Bool-cases (leb w.batch_size (length w.buffer))) [
  | inl e ↦
      rw (e) (flush_drained-IsKept w.buffer history (record w { buffer = [] }) refl h.all h.logged)
  | inr e ↦ rw (e) (h, refl)
]

-- Where the trades taken are committed or in the buffer and the log holds the buffer, staging a trade
-- that is encoded in less than 2^32 bytes, with a database that accepts the batch, succeeds and keeps
-- this for the trades taken and the new one, in their order.
pub stage-IsKept :
    (t : StagedTrade) (history : List StagedTrade) (w : TradeWriter)
    → length (encode_wal t) < 2 ^ 32
    → IsKept history w
    → IsKept (history ++ (t ∷ [])) (stage true t w).0 × ((stage true t w).1 ≡ ok tt)
unfolding stage
stage-IsKept t history w f h =
    let (wal, a, c, n) = (append_lem (encode_wal t) w.wal).0 f in
    rw (a, stage)
      (flush_full-IsKept (history ++ (t ∷ []))
        (record w { wal = wal; buffer = w.buffer ++ (t ∷ []) })
        (record {
          all = sym (append_assoc w.committed w.buffer (t ∷ [])) ∙ ap (λ x. x ++ (t ∷ [])) h.all;
          logged =
              c
              ∙ ap (λ x. x ++ record_bytes (encode_wal t)) h.logged
              ∙ sym (log_bytes-append w.buffer t);
        }))
