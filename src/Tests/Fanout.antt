-- ===== src/Tests/Fanout.antt =====
-- The coalescer on concrete updates, the texts of the keys, and the theorems there.
use market_data_v.Common.{◌≡◌, ◌↔◌, refl, none, some, [], ◌∷◌, ◌++◌, codes, arith}
use market_data_v.Common.HashMap
use market_data_v.Common.HashMap.{last_value}
use market_data_v.Coalescer.{Kind, PublishKey, publish_keys, new, submit, window_for}
use market_data_v.Coalescer.Steps.{
  System, idle, submitted_with, taken, submits, takes, Reach, start, next, concat,
}
use market_data_v.Coalescer.Delivery.{Reach-delivered}
use market_data_v.Coalescer.Overtaken.{Reach-overtaken}
use market_data_v.Coalescer.Keys.{
  Lossy, nats_subject, redis_key, as_str, ticker_text, nats_subject-injective,
}
use market_data_v.Utf8.{is_utf8}
use market_data_v.Tests.Data.{petr}

abbrev quote_key : PublishKey
quote_key = record { kind = Kind.quote; ticker = petr }

-- The second update comes while the flush has still to publish the first.
abbrev updated : System
updated = submitted_with quote_key (codes "2") first (submit quote_key (codes "2") first.coalescer)
  where
    first : System
    first =
        taken (submitted_with quote_key (codes "1") (idle new) (submit quote_key (codes "1") new))

Reach-updated : Reach 1 (idle new) updated
Reach-updated =
    next (next (next start (submits quote_key (codes "1"))) (takes (omega arith)))
      (submits quote_key (codes "2"))

Reach-delivered_example :
    (last_value quote_key none
        (updated.published ++ (concat updated.sending ++ HashMap.to_list updated.coalescer.pending))
      ≡ last_value quote_key none updated.submitted)
    × ((t : System) × Reach 1 updated t
        × (t.sending ≡ [])
        × (t.coalescer.pending ≡ HashMap.empty)
        × (t.submitted ≡ updated.submitted)
        × (last_value quote_key none t.published ≡ last_value quote_key none updated.submitted))
unfolding new window_for
Reach-delivered_example = Reach-delivered new quote_key updated refl refl Reach-updated

Reach-overtaken_example :
    (s : System) × Reach 2 (idle new) s
    × (s.coalescer ≡ new)
    × (s.sending ≡ [])
    × (s.direct ≡ [])
    × (s.submitted ≡ (quote_key, codes "1") ∷ (quote_key, codes "2") ∷ [])
    × (s.published ≡ (quote_key, codes "2") ∷ (quote_key, codes "1") ∷ [])
    × (last_value quote_key none s.published ≡ some (codes "1"))
unfolding new window_for
Reach-overtaken_example =
    Reach-overtaken 2 new quote_key (codes "1") (codes "2") (omega arith) refl refl

-- The replacement character for a whole text.
instance abbrev one_mark : Lossy
one_mark = record { from_utf8_lossy = λ b. 239 ∷ 191 ∷ 189 ∷ [] }

abbrev book_key : PublishKey
book_key = record { kind = Kind.book; ticker = petr }

subject_text : nats_subject quote_key ≡ codes "market.quote.PETR4"
unfolding nats_subject as_str ticker_text is_utf8
subject_text = refl

nats_subject-injective_example :
    ((nats_subject quote_key ≡ nats_subject book_key) ↔ (quote_key ≡ book_key))
    × ((redis_key quote_key ≡ redis_key book_key) ↔ (quote_key ≡ book_key))
unfolding is_utf8
nats_subject-injective_example = nats_subject-injective quote_key book_key refl refl
