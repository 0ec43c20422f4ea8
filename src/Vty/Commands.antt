-- ===== src/Vty/Commands.antt =====
-- What the commands of src/hh_dp_vty.c leave, and that vtysh knows the same ones.
use mathlib.Core.List.{Perm}
use mathlib.Core.List.Perm
use dplane_plugin.Base.{◌≡◌, refl}
use dplane_plugin.Vty.{Elements, hh_dp_vty_init, vtysh_extension}

-- From the same table, vtysh comes to the commands of the plugin, each at the same node, in another
-- order.
pub vtysh_extension-Perm :
    (els : Elements)
    → ((vtysh_extension els).0 ≡ 0) × Perm (vtysh_extension els).1 (hh_dp_vty_init els)
unfolding vtysh_extension hh_dp_vty_init
vtysh_extension-Perm els = (refl, Perm.cons _ (Perm.swap _ _ _))
