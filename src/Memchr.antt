-- ===== src/Memchr.antt =====
-- The byte searches of the `memchr` crate, which the framing layer and the tokenizer call: an
-- interface with the crate's documented behaviour, the position of the first match.
mod Search
unfoldable pub use Search.{first_index}
pub use Search.{IsFirst, IsFirst-unique, first_index-IsFirst}
use market_data_v.Common.{ℕ, ◌≡◌, Bool, ◌||◌, Option, Bytes, ◌==◌}

pub record Memchr : Type 0 where
  pub memchr : ℕ → Bytes → Option ℕ
  pub memchr2 : ℕ → ℕ → Bytes → Option ℕ
  pub memchr_first : (b : ℕ) (h : Bytes) → IsFirst (λ c. c == b) h (memchr b h)
  pub memchr2_first : (a b : ℕ) (h : Bytes) → IsFirst (λ c. c == a || c == b) h (memchr2 a b h)

-- A plain scan meets the interface.
instance abbrev pub plain_scan : Memchr
plain_scan = record {
  memchr = λ b. first_index (λ c. c == b);
  memchr2 = λ a b. first_index (λ c. c == a || c == b);
  memchr_first = λ b h. first_index-IsFirst (λ c. c == b) h;
  memchr2_first = λ a b h. first_index-IsFirst (λ c. c == a || c == b) h;
}

module _ ⦃m : Memchr⦄ where
  pub memchr_lem : (b : ℕ) (h : Bytes) → m.memchr b h ≡ first_index (λ c. c == b) h
  memchr_lem b h = IsFirst-unique (λ c. c == b) h (m.memchr b h) (m.memchr_first b h)

  pub memchr2_lem : (a b : ℕ) (h : Bytes) → m.memchr2 a b h ≡ first_index (λ c. c == a || c == b) h
  memchr2_lem a b h =
      IsFirst-unique (λ c. c == a || c == b) h (m.memchr2 a b h) (m.memchr2_first a b h)
