-- ===== src/Order.antt =====
-- order.h: sides, orders and commands. Prices are `double`s, over an interface of comparisons.
use order_matching_engine.Base.{ℕ, ◌≡◌, ◌⊎◌, Bool, true, false, not, ◌&&◌, Text, arith}
use order_matching_engine.Base.Int.{ℤ}

pub data Side : Type 0 where
  buy sell : Side

-- What the engine does with a `double` price: `<` and `==`.
pub record Price (P : Type 0) : Type 0 where
  pub lt : P → P → Bool
  pub eq : P → P → Bool

-- A comparator of `std::map`: a strict weak order.
pub record IsStrictWeak {P : Type 0} (lt : P → P → Bool) : Type 0 where
  pub irrefl : (a : P) → lt a a ≡ false
  pub trans : (a b c : P) → lt a b ≡ true → lt b c ≡ true → lt a c ≡ true
  pub split : (a b c : P) → lt a b ≡ true → (lt a c ≡ true) ⊎ (lt c b ≡ true)

-- The comparator the other way round, as `std::greater`.
pub flip-IsStrictWeak :
    {P : Type 0} {lt : P → P → Bool} → IsStrictWeak lt → IsStrictWeak (λ a b. lt b a)
flip-IsStrictWeak w = record {
  irrefl = w.irrefl;
  trans = λ a b c h k. w.trans c b a k h;
  split = λ a b c h. ground (arith, w.split b a c h);
}

-- IEEE comparison away from NaN: a strict weak order (0.0 and -0.0 are level), with `==` for level.
pub record IsOrdered (P : Type 0) ⦃d : Price P⦄ : Type 0 where
  pub weak : IsStrictWeak d.lt
  pub eq_level : (a b : P) → d.eq a b ≡ (not (d.lt a b) && not (d.lt b a))

pub record Order (P : Type 0) : Type 0 where
  pub order_id : ℕ
  pub side : Side
  pub price : P
  pub quantity : ℤ
  pub timestamp : ℤ

pub data CommandType : Type 0 where
  new cancel modify stats book : CommandType

pub record Command (P : Type 0) : Type 0 where
  pub type : CommandType
  pub order_id : ℕ
  pub side : Side
  pub price : P
  pub quantity : ℤ
  pub timestamp : ℤ
  pub symbol : Text
  pub ts_network_recv : ℤ
  pub ts_queue_push : ℤ
  pub ts_queue_pop : ℤ
  pub ts_process_start : ℤ
  pub ts_match_complete : ℤ
