-- ===== src/Resources/View/Order.antt =====
-- The order of a view's connections.
use Prim.Native.String.{compare}
use text.Mathlib.Text.{is_lt}
use humio_operator.Common.{◌≡◌, true, false, some, [], ◌∷◌, ◌==◌, arith}
use humio_operator.Resources.Compare.{same_list, same_option, key_values}
use humio_operator.Resources.View.{
  Connection, ViewSpec, ViewDetails, goes_before, sort_connections, same_connection,
  view_already_as_expected, get_view_connections,
}

-- Two connections of which each goes before the other, as when one has the greater name and the other
-- the greater filter, are swapped in whichever order they are given.
sort_swaps :
    (c d : Connection)
    → goes_before c d ≡ true
    → goes_before d c ≡ true
    → (sort_connections (c ∷ d ∷ []) ≡ d ∷ c ∷ []) × (sort_connections (d ∷ c ∷ []) ≡ c ∷ d ∷ [])
unfolding sort_connections
sort_swaps c d h k = ground (arith, h, k)

-- A view with two connections, one of which has the greater repository name and the other the greater
-- filter, is taken to differ from the same view whose connections LogScale gives in the other order.
pub order_matters :
    (spec : ViewSpec) (v : ViewDetails) (c d : Connection)
    → is_lt (compare d.repository_name c.repository_name) ≡ true
    → is_lt (compare c.filter d.filter) ≡ true
    → (c.filter == d.filter) ≡ false
    → spec.connections ≡ c ∷ d ∷ []
    → v.connections ≡ some (d ∷ c ∷ [])
    → view_already_as_expected spec v ≡ false
unfolding view_already_as_expected goes_before same_connection same_list same_option key_values
    get_view_connections
order_matters spec v c d h k n p q = ground (arith, sort_swaps c d, h, k, n, p, q)
