-- ===== src/Coalescer.antt =====
-- crates/fanout/src/coalescer.rs and crates/fanout/src/types.rs: the coalescer in front of the sink.
-- A call answers with what it publishes, in order; the sink's own result is ignored by the code. The mutex
-- of the pending map is held by the insertion and by `take_pending` alone: what a call publishes, it
-- publishes with the mutex released. `submit` and `flush_once` are the calls with no other call in between;
-- Steps has the calls that run at the same time. A window is its length in milliseconds. The background
-- task is a repetition of `flush_once`.
pub mod Keys
pub mod Steps
pub mod Batches
pub mod Kept
pub mod Delivery
pub mod Overtaken
use market_data_v.Common.{
  ℕ, Bool, true, false, ◌&&◌, ◌≡◌, ◌↔◌, refl, Option, none, some, List, [], ◌∷◌, Bytes, bytes_eq,
  bytes_eq_iff, Eq, ◌==◌, min, if◌then◌else◌, arith,
}
use market_data_v.Common.HashMap
use market_data_v.Common.HashMap.{HashMap}

pub data Kind : Type 0 where
  quote book trade : Kind

pub record PublishKey : Type 0 where
  pub kind : Kind
  pub ticker : Bytes

unfoldable pub kind_eq : Kind → Kind → Bool
kind_eq quote quote = true
kind_eq quote book = false
kind_eq quote trade = false
kind_eq book quote = false
kind_eq book book = true
kind_eq book trade = false
kind_eq trade quote = false
kind_eq trade book = false
kind_eq trade trade = true

kind_eq_iff : (a b : Kind) → (kind_eq a b ≡ true) ↔ (a ≡ b)
unfolding kind_eq
kind_eq_iff a b = ground arith

-- The derived equality.
unfoldable pub key_eq : PublishKey → PublishKey → Bool
key_eq a b = kind_eq a.kind b.kind && bytes_eq a.ticker b.ticker

pub key_eq_iff : (a b : PublishKey) → (key_eq a b ≡ true) ↔ (a ≡ b)
unfolding key_eq
key_eq_iff a b = ground (arith, kind_eq_iff a.kind b.kind, bytes_eq_iff a.ticker b.ticker)

instance abbrev pub publish_keys : Eq PublishKey
publish_keys = record { beq = key_eq; beq_iff = key_eq_iff }

pub record Coalescer : Type 0 where
  pub pending : HashMap PublishKey Bytes
  pub quote_window : ℕ
  pub book_window : ℕ
  pub trade_window : ℕ

unfoldable pub new : Coalescer
new = record { pending = HashMap.empty; quote_window = 50; book_window = 100; trade_window = 0 }

unfoldable pub set_window : Kind → ℕ → Coalescer → Coalescer
set_window quote window c = record c { quote_window = window }
set_window book window c = record c { book_window = window }
set_window trade window c = record c { trade_window = window }

unfoldable pub window_for : Coalescer → Kind → ℕ
window_for c quote = c.quote_window
window_for c book = c.book_window
window_for c trade = c.trade_window

abbrev pub Published : Type 0
Published = List (PublishKey × Bytes)

unfoldable pub submit : PublishKey → Bytes → Coalescer → Coalescer × Published
submit key payload c =
    if window_for c key.kind == 0
    then (c, (key, payload) ∷ [])
    else (record c { pending = HashMap.insert key payload c.pending }, [])

-- `std::mem::take` under the mutex.
unfoldable pub take_pending : Coalescer → Coalescer × HashMap PublishKey Bytes
take_pending c = (record c { pending = HashMap.empty }, c.pending)

unfoldable pub flush_once : Coalescer → Coalescer × Published
flush_once c = let (c', pending) = take_pending c in (c', HashMap.to_list pending)

-- The shorter of two windows, where 0 counts as none.
abbrev pub shorter : ℕ → Option ℕ → Option ℕ
shorter w none = if w == 0 then none else some w
shorter w (some v) = if w == 0 then some v else some (min w v)

unfoldable pub min_nonzero_window : Coalescer → Option ℕ
min_nonzero_window c = shorter c.quote_window (shorter c.book_window (shorter c.trade_window none))
