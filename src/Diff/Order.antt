-- ===== src/Diff/Order.antt =====
-- The order of a delta set: by path, then additions, modifications and deletions.
use deep_agent_cli.Base.{◌≡◌, true, false, arith}
use deep_agent_cli.Base.Sort.{IsOrder}
use deep_agent_cli.Text.{eq_iff, le-IsOrder, le_antisym}
use deep_agent_cli.Diff.{FileDelta, delta_le}

delta_le_total : (a b : FileDelta) → delta_le a b ≡ false → delta_le b a ≡ true
unfolding delta_le
delta_le_total a b h =
    ground (arith, eq_iff a.path b.path, eq_iff b.path a.path, le-IsOrder.total a.path b.path)

delta_le_trans :
    (a b c : FileDelta) → delta_le a b ≡ true → delta_le b c ≡ true → delta_le a c ≡ true
unfolding delta_le
delta_le_trans a b c h k = ground (
  arith,
  eq_iff a.path b.path,
  eq_iff b.path c.path,
  eq_iff a.path c.path,
  le-IsOrder.trans a.path b.path c.path,
  le_antisym a.path b.path,
)

pub delta_le-IsOrder : IsOrder delta_le
delta_le-IsOrder = record { total = delta_le_total; trans = delta_le_trans }
