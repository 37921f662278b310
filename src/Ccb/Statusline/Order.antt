-- ===== src/Ccb/Statusline/Order.antt =====
-- The order of the status line is one that sort.Slice can sort by.
use ccbroker.Base.{◌≡◌, Bool, true, false, arith}
use ccbroker.Json.{Decimal}
use ccbroker.Anthropic.Order.{less_at_most, at_most_less, at_most_trans, less_trans, less_irrefl}
use ccbroker.Ccb.State.{UsageRow}
use ccbroker.Ccb.Rotate.Order.{text_less, same_value, text_at_most, text_less_asym}
use ccbroker.Ccb.Statusline.{usable, key_less, keys_less, key_of, statusline_less}

-- x ≤ y ≤ z by the first key, or else by the next.
key_at_most :
    (x y z : Decimal) (ba cb ca : Bool)
    → (ba ≡ false → cb ≡ false → ca ≡ false)
    → key_less y x ba ≡ false
    → key_less z y cb ≡ false
    → key_less z x ca ≡ false
unfolding key_less same_value
key_at_most x y z ba cb ca next h k =
    ground (arith, next, at_most_trans x y z, less_at_most x y z, at_most_less x y z)

key-asym :
    (x y : Decimal) (ab ba : Bool)
    → (ab ≡ true → ba ≡ false)
    → key_less x y ab ≡ true
    → key_less y x ba ≡ false
unfolding key_less same_value
key-asym x y ab ba next h = ground (arith, next, less_trans x y x, less_irrefl x)

keys_at_most :
    (x y z : Decimal × Decimal × Decimal) (ba cb ca : Bool)
    → (ba ≡ false → cb ≡ false → ca ≡ false)
    → keys_less y x ba ≡ false
    → keys_less z y cb ≡ false
    → keys_less z x ca ≡ false
keys_at_most x y z ba cb ca next =
    key_at_most x.0 y.0 z.0 _ _ _
      (key_at_most x.1 y.1 z.1 _ _ _ (key_at_most x.2 y.2 z.2 ba cb ca next))

keys-asym :
    (x y : Decimal × Decimal × Decimal) (ab ba : Bool)
    → (ab ≡ true → ba ≡ false)
    → keys_less x y ab ≡ true
    → keys_less y x ba ≡ false
keys-asym x y ab ba next = key-asym x.0 y.0 _ _ (key-asym x.1 y.1 _ _ (key-asym x.2 y.2 ab ba next))

less_at_most_all :
    (a b c : UsageRow)
    → statusline_less b a ≡ false
    → statusline_less c b ≡ false
    → statusline_less c a ≡ false
unfolding statusline_less
less_at_most_all a b c h k = ground (
  arith,
  text_at_most a.name b.name c.name,
  keys_at_most (key_of a.usage) (key_of b.usage) (key_of c.usage) (text_less b.name a.name)
      (text_less c.name b.name) (text_less c.name a.name) (text_at_most a.name b.name c.name),
)

less-asym_all : (a b : UsageRow) → statusline_less a b ≡ true → statusline_less b a ≡ false
unfolding statusline_less
less-asym_all a b h = ground (
  arith,
  text_less_asym a.name b.name,
  keys-asym (key_of a.usage) (key_of b.usage) (text_less a.name b.name) (text_less b.name a.name)
      (text_less_asym a.name b.name),
)

usable_first : (a b : UsageRow) → usable a ≡ true → usable b ≡ false → statusline_less a b ≡ true
unfolding statusline_less
usable_first a b h k = ground arith

-- statuslineLess is a strict weak order: of two rows at most one comes before the other, and what
-- neither of a ≤ b and b ≤ c breaks, a ≤ c does not break; and an account that can be switched to
-- comes before one that cannot.
pub statusline_less_order :
    (a b c : UsageRow)
    → (statusline_less a b ≡ true → statusline_less b a ≡ false)
      × (statusline_less b a ≡ false → statusline_less c b ≡ false → statusline_less c a ≡ false)
      × (usable a ≡ true → usable b ≡ false → statusline_less a b ≡ true)
statusline_less_order a b c = (less-asym_all a b, less_at_most_all a b c, usable_first a b)
