-- ===== src/Staged.antt =====
-- crates/persistence/src/trade_writer.rs: `StagedTrade` and its bytes in the write-ahead log.
-- An `i64`, an `i32` and an `i16` are their two's complement patterns, and a `String` is
-- its bytes. The bits of the flags are distinct, so that `|=` adds them.
pub mod RoundTrip
use market_data_v.Common.{
  ℕ, zero, suc, ◌+◌, ◌-◌, ◌*◌, ◌^◌, ◌%◌, ◌/◌, Bool, true, false, Option, none, some, List, [], ◌∷◌,
  ◌++◌, Bytes, ltb, ◌==◌, if◌then◌else◌, length, take, drop,
}
use market_data_v.Types.{F64}
use market_data_v.Utf8.{is_utf8}

-- chrono: the microseconds that `DateTime::from_timestamp_micros` takes.
pub record Clock : Type 0 where
  pub representable : ℕ → Bool

-- chrono's `DateTime<Utc>`: the whole microseconds since 1970, rounded down, and the nanoseconds behind
-- them. A leap second is left out.
pub record DateTime : Type 0 where
  pub timestamp_micros : ℕ
  pub nanos : ℕ

pub record StagedTrade : Type 0 where
  pub time : DateTime
  pub asset_id : ℕ
  pub price : F64
  pub amount : ℕ
  pub buyer_id : Option ℕ
  pub seller_id : Option ℕ
  pub aggressor_side : Option ℕ
  pub trade_id : Option Bytes
  pub is_direct : Bool

-- `to_le_bytes` of `n` bytes
abbrev pub le : ℕ → ℕ → Bytes
le zero v = []
le (suc n) v = v % 256 ∷ le n (v / 256)

-- `from_le_bytes`
abbrev pub from_le : Bytes → ℕ
from_le [] = 0
from_le (b ∷ bs) = b + 256 * from_le bs

-- 1 where the test holds
abbrev pub flag : Bool → ℕ
flag true = 1
flag false = 0

-- `is_some`
abbrev pub is_some : {A : Type 0} → Option A → Bool
is_some none = false
is_some (some a) = true

unfoldable pub flags_of : StagedTrade → ℕ
flags_of t =
    flag (is_some t.buyer_id)
    + 2 * flag (is_some t.seller_id)
    + 4 * flag (is_some t.aggressor_side)
    + 8 * flag (is_some t.trade_id)
    + 16 * flag t.is_direct

-- An optional integer of `n` bytes
abbrev pub put : ℕ → Option ℕ → Bytes
put n none = []
put n (some v) = le n v

-- The length of a trade id, which saturates.
abbrev pub id_len : Bytes → ℕ
id_len id = if ltb (length id) (2 ^ 32) then length id else 2 ^ 32 - 1

abbrev pub put_id : Option Bytes → Bytes
put_id none = []
put_id (some id) = le 4 (id_len id) ++ id

unfoldable pub encode_wal : StagedTrade → Bytes
encode_wal t =
    le 8 t.time.timestamp_micros
    ++ (le 4 t.asset_id
        ++ (le 8 t.price
            ++ (le 8 t.amount
                ++ (flags_of t
                    ∷ (put 4 t.buyer_id
                        ++ (put 4 t.seller_id ++ (put 2 t.aggressor_side ++ put_id t.trade_id)))))))

-- `flags & (1 << k) != 0`
abbrev pub bit : ℕ → ℕ → Bool
bit k flags = flags / 2 ^ k % 2 == 1

-- `read_flag_i32`, and the same for the two bytes of the aggressor.
unfoldable pub read_flag : ℕ → Bool → Bytes → Option (Option ℕ × Bytes)
read_flag n present bytes =
    if present
    then (if ltb (length bytes) n then none else some (some (from_le (take n bytes)), drop n bytes))
    else some (none, bytes)

unfoldable pub read_text : ℕ → Bytes → Option (Option Bytes)
read_text len bytes =
    if ltb (length bytes) len
    then none
    else if is_utf8 (take len bytes)
    then some (some (take len bytes))
    else none

unfoldable pub read_id : Bool → Bytes → Option (Option Bytes)
read_id present bytes =
    if present
    then (if ltb (length bytes) 4 then none else read_text (from_le (take 4 bytes)) (drop 4 bytes))
    else some none

infixl 5 ◌>>=◌
unfoldable pub ◌>>=◌ : {A B : Type 0} → Option A → (A → Option B) → Option B
◌>>=◌ none f = none
◌>>=◌ (some a) f = f a

module _ ⦃c : Clock⦄ where
  -- The optional fields, from the position behind the flags.
  unfoldable pub decode_rest : ℕ → ℕ → F64 → ℕ → ℕ → Bytes → Option StagedTrade
  decode_rest micros asset_id price amount flags rest = do
    buyer ← read_flag 4 (bit 0 flags) rest
    seller ← read_flag 4 (bit 1 flags) buyer.1
    aggressor ← read_flag 2 (bit 2 flags) seller.1
    trade_id ← read_id (bit 3 flags) aggressor.1
    if c.representable micros
        then some (record {
          time = record { timestamp_micros = micros; nanos = 0 };
          asset_id = asset_id;
          price = price;
          amount = amount;
          buyer_id = buyer.0;
          seller_id = seller.0;
          aggressor_side = aggressor.0;
          trade_id = trade_id;
          is_direct = bit 4 flags;
        })
        else none

  unfoldable pub decode_wal : Bytes → Option StagedTrade
  decode_wal bytes =
      if ltb (length bytes) (8 + 4 + 8 + 8 + 1)
      then none
      else decode_rest (from_le (take 8 bytes)) (from_le (take 4 (drop 8 bytes)))
          (from_le (take 8 (drop 12 bytes))) (from_le (take 8 (drop 20 bytes)))
          (from_le (take 1 (drop 28 bytes))) (drop 29 bytes)
